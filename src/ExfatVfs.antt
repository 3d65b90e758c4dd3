-- ===== src/ExfatVfs.antt =====
-- fs/exfat/exfat_vfs.c: the cache of inodes, and reading through it.
pub mod Cache
pub mod Read
mod Tests
use osfix_operating_system.Base.{
  ℕ, ◌+◌, ◌-◌, ◌*◌, ◌/◌, ◌%◌, ◌^◌, Bool, true, false, not, ◌&&◌, Option, none, some, ◌==◌,
  if◌then◌else◌,
}
use osfix_operating_system.Base.Int.{ℤ}
use osfix_operating_system.Memory.{Memory}
use osfix_operating_system.Elf.{read_le}
use osfix_operating_system.Exfat.{ExfatFs, Device, Volume, exfat_read_dir_entry}
use osfix_operating_system.Exfat.Seek.{ExfatFile, exfat_seek}
use osfix_operating_system.Exfat.Read.{Reading, exfat_read}

-- exfat_inode_info_t
pub record InodeInfo : Type 0 where
  pub inode : ℕ
  pub first_cluster : ℕ
  pub size : ℕ
  pub no_fat_chain : Bool
  pub dir_cluster : ℕ
  pub dir_contiguous : Bool
  pub dir_index : ℕ
  pub valid : Bool

-- exfat_vfs_ctx_t
pub record Ctx : Type 0 where
  pub fs : ExfatFs
  pub cache : ℕ → InodeInfo

-- MAX_INODE_CACHE
abbrev pub max_inode_cache : ℕ
max_inode_cache = 256

abbrev pub make_inode : (dir_cluster dir_index : ℕ) → ℕ
make_inode dir_cluster dir_index = dir_cluster * 2 ^ 32 + dir_index

-- The entry is marked as valid and takes the place of the one in its slot.
unfoldable pub cache_inode : InodeInfo → Ctx → Ctx
cache_inode info ctx = record ctx {
  cache = λ slot.
      if slot == info.inode % max_inode_cache then record info { valid = true } else ctx.cache slot;
}

unfoldable pub get_cached_inode : Ctx → (inode : ℕ) → Option InodeInfo
get_cached_inode ctx inode =
    if (ctx.cache (inode % max_inode_cache)).valid
      && (ctx.cache (inode % max_inode_cache)).inode == inode
    then some (ctx.cache (inode % max_inode_cache))
    else none

abbrev pub open_at : (first_cluster size : ℕ) → (no_fat_chain : Bool) → ExfatFile
open_at first_cluster size no_fat_chain = record {
  first_cluster = first_cluster;
  file_size = size;
  position = 0;
  current_cluster = first_cluster;
  cluster_offset = 0;
  no_fat_chain = no_fat_chain;
}

-- What the stream entry at `se` says of an inode.
abbrev pub stream_info : (inode : ℕ) → (se : Memory) → InodeInfo
stream_info inode se = record {
  inode = inode;
  first_cluster = read_le 4 20 se;
  size = read_le 8 24 se;
  no_fat_chain = not ((se 1 / 2) % 2 == 0);
  dir_cluster = inode / 2 ^ 32;
  dir_contiguous = false;
  dir_index = inode % 2 ^ 32;
  valid = true;
}

abbrev pub open_info : InodeInfo → ExfatFile
open_info info = open_at info.first_cluster info.size info.no_fat_chain

module _ {W : Type 0} (d : Device W) where
  -- The handle from the two entries of a directory; the file is all zeros if they cannot be read.
  abbrev pub open_entries :
      Ctx → (inode : ℕ) → Option Memory × Volume W → ExfatFile × Ctx × Volume W
  open_entries ctx inode (none, v) = (open_at 0 0 false, ctx, v)
  open_entries ctx inode (some fe, v) =
      let se = exfat_read_dir_entry d ctx.fs (inode / 2 ^ 32) false ((inode + 1) % 2 ^ 32) v in
      elim se.0 [
        | none ↦ (open_at 0 0 false, ctx, se.1)
        | some entry ↦
            (open_info (stream_info inode entry), cache_inode (stream_info inode entry) ctx, se.1)
      ]

  unfoldable pub prepare_file_handle : Ctx → (inode : ℕ) → Volume W → ExfatFile × Ctx × Volume W
  prepare_file_handle ctx inode v = elim (get_cached_inode ctx inode) [
    | some info ↦ (open_info info, ctx, v)
    | none ↦
        (if inode == 0
          then (open_at ctx.fs.root_dir_cluster (2 ^ 32 - 1) false, ctx, v)
          else open_entries ctx inode
              (exfat_read_dir_entry d ctx.fs (inode / 2 ^ 32) false (inode % 2 ^ 32) v))
  ]

  -- The seek and the read on a handle.
  abbrev pub read_opened :
      ExfatFs → (size offset : ℕ) → ExfatFile × Ctx × Volume W → Option (ℤ × Reading W × Ctx)
  read_opened fs size offset (file, ctx, v) = elim (exfat_seek d fs file offset v) [
    | none ↦ none
    | some (sought, v') ↦ elim (exfat_read d fs sought size v') [
      | none ↦ none
      | some (n, r) ↦ some (n, r, ctx)
    ]
  ]

  -- The result of exfat_read and what is left; `none` is the end of the fuel of a loop.
  unfoldable pub exfat_vfs_read :
      Ctx → (inode size offset : ℕ) → Volume W → Option (ℤ × Reading W × Ctx)
  exfat_vfs_read ctx inode size offset v =
      read_opened ctx.fs size offset (prepare_file_handle ctx inode v)
