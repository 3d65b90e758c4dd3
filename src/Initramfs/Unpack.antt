-- ===== src/Initramfs/Unpack.antt =====
-- kernel/main/fsm/initramfs/initramfs-unpacker.c: unpack_cpio on an archive as a writer makes it.
use osfix_operating_system.Base.{ℕ, ◌+◌, Option, List, [], ◌∷◌, ◌++◌}
use osfix_operating_system.Vfs.{Mount}
use osfix_operating_system.Initramfs.{trailer, install}
use osfix_operating_system.Initramfs.Placed.{entry_of}
use osfix_operating_system.Initramfs.Archive.{
  Member, IsWritable, header_bytes, member_bytes, member_size,
}

-- The members one after the other, the trailer, and what stands behind it in memory.
abbrev pub archive_bytes : List Member → List ℕ → List ℕ
archive_bytes [] later = header_bytes 0 0 1 0 0 11 ++ (trailer ++ (0 ∷ later))
archive_bytes (m ∷ ms) later = member_bytes m (archive_bytes ms later)

abbrev pub size_of : List Member → ℕ
size_of [] = 121
size_of (m ∷ ms) = member_size m + size_of ms

abbrev pub AreWritable : List Member → Type 0
AreWritable [] = Unit
AreWritable (m ∷ ms) = IsWritable m × AreWritable ms

module _ {W : Type 0} (mnt : Option (Mount W)) (stack : List ℕ) where
  -- The members installed in their order.
  abbrev install_all : List Member → W → W
  install_all [] w = w
  install_all (m ∷ ms) w = install_all ms (install mnt stack (entry_of m) w)
