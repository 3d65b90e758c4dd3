-- ===== src/Initramfs/Tests.antt =====
-- The theorems about kernel/main/fsm/initramfs/initramfs-unpacker.c at a small archive.
use osfix_operating_system.Base.{
  ℕ, ◌+◌, ◌≤◌, ◌<◌, ◌%◌, ◌≡◌, refl, none, some, Option, List, [], ◌∷◌, ◌++◌, drop, take, arith,
}
use osfix_operating_system.Base.Int.{pos}
use osfix_operating_system.Vfs.{Mount, Ops}
use osfix_operating_system.Initramfs.{
  Entry, hex8_to_u32, align4, read_entry, read_body, begins_with, hex_from, hex_digit, unpack_cpio,
}
use osfix_operating_system.Initramfs.Numbers.{align4_lem}
use osfix_operating_system.Initramfs.Bounds.{IsRead, read_entry-IsRead, unpack_cpio-returns}
use osfix_operating_system.Initramfs.Archive.{Member}
use osfix_operating_system.Initramfs.Unpack.{archive_bytes}

-- A regular file "a" of three bytes, and an archive of it.
abbrev file_a : Member
file_a = record {
  name = b'a' ∷ [];
  mode = 0x81A4;
  contents = 1 ∷ 2 ∷ 3 ∷ [];
  ino = 7;
  nlink = 1;
  mtime = 99;
}

abbrev archive : List ℕ
archive = archive_bytes (file_a ∷ []) []

-- A file system that keeps the bytes that are written.
abbrev ops : Ops (List ℕ)
ops = record {
  mount = none;
  unmount = none;
  read = none;
  write = some (λ ctx inode buf size offset w. (pos size, w ++ take size buf));
  listdir = none;
  path_to_inode = none;
  create = some (λ ctx path w. (9, w));
  mkdir = none;
  remove = none;
  rename = none;
  stat = none;
  chmod = none;
  truncate = none;
}

abbrev mnt : Option (Mount (List ℕ))
mnt = some (record {
  fs = some (record { fs_type = 9; name = []; ops = ops });
  fs_ctx = 1;
  device_ptr = 0;
  read_cb = 0;
  write_cb = 0;
  sector_count = 0;
  path = [];
})

abbrev stack : List ℕ
stack = 5 ∷ 5 ∷ 5 ∷ 5 ∷ []

abbrev entry_a : Entry
entry_a = record {
  name = drop 110 archive;
  mode = 0x81A4;
  filesize = 3;
  file_data = 1 ∷ 2 ∷ 3 ∷ [];
  next = 4212;
}

read_a : read_entry 4096 4337 4096 archive ≡ some entry_a
unfolding read_entry read_body begins_with hex8_to_u32 hex_from hex_digit align4
read_a = refl

align4_lem_example : (113 ≤ align4 113) × (align4 113 < 113 + 4) × (align4 113 % 4 ≡ 0)
align4_lem_example = align4_lem 113 (omega arith)

read_entry-IsRead_example : IsRead 4096 4337 4096 archive entry_a
read_entry-IsRead_example =
    read_entry-IsRead 4096 4337 4096 archive entry_a (omega arith) (omega arith) (omega arith)
      read_a

unpack_cpio-returns_example : (w' : List ℕ) × (unpack_cpio mnt stack 4096 50 archive [] ≡ some w')
unpack_cpio-returns_example = unpack_cpio-returns mnt stack 4096 50 archive [] (omega arith)
