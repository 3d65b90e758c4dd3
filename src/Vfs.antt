-- ===== src/Vfs.antt =====
-- kernel/main/fsm/vfs.c: the registry of file systems, the mount table, the choice of the mount
-- for a path, and the calls that go through a mount to its file system.
pub mod Calls
pub mod Table
pub mod Route
pub mod Paths
pub mod Best
mod Tests
use osfix_operating_system.Base.{
  ℕ, zero, suc, ◌+◌, ◌-◌, Bool, true, false, not, ◌&&◌, ◌||◌, Option, none, some, List, [], ◌∷◌,
  ◌++◌, ltb, leb, ◌==◌, if◌then◌else◌, length, get_elem?, set, drop, replicate,
}
use osfix_operating_system.Base.Int.{ℤ, pos, negsuc, minus_one}
use osfix_operating_system.Text.{CString, first, char_at, strlen, strncmp, strncpy}

-- vfs_stat_t, as far as a file system of the kernel fills it
pub record Stat : Type 0 where
  pub inode : ℕ
  pub size : ℕ
  pub type : ℕ

-- vfs_dirent_t
pub record Dirent : Type 0 where
  pub inode : ℕ
  pub type : ℕ
  pub size : ℕ
  pub name : CString

-- vfs_ops_t. `W` is all that the file systems read and change; a context is an address, 0 for NULL.
-- A buffer that a call fills is part of its result, and a NULL function pointer is `none`.
pub record Ops (W : Type 0) : Type 0 where
  pub mount : Option (ℕ → ℕ → W → ℕ × W)
  pub unmount : Option (ℕ → W → ℤ × W)
  pub read : Option (ℕ → ℕ → ℕ → ℕ → W → (ℤ × List ℕ) × W)
  pub write : Option (ℕ → ℕ → List ℕ → ℕ → ℕ → W → ℤ × W)
  pub listdir : Option (ℕ → ℕ → ℕ → W → (ℤ × List Dirent) × W)
  pub path_to_inode : Option (ℕ → CString → W → ℕ × W)
  pub create : Option (ℕ → CString → W → ℕ × W)
  pub mkdir : Option (ℕ → CString → W → ℕ × W)
  pub remove : Option (ℕ → CString → W → ℤ × W)
  pub rename : Option (ℕ → CString → CString → W → ℤ × W)
  pub stat : Option (ℕ → ℕ → W → (ℤ × Option Stat) × W)
  pub chmod : Option (ℕ → ℕ → ℕ → W → ℤ × W)
  pub truncate : Option (ℕ → ℕ → ℕ → W → ℤ × W)

-- vfs_filesystem_t
pub record Filesystem (W : Type 0) : Type 0 where
  pub fs_type : ℕ
  pub name : CString
  pub ops : Ops W

-- vfs_mount_t with its entry of mount_paths; the callbacks are only stored.
pub record Mount (W : Type 0) : Type 0 where
  pub fs : Option (Filesystem W)
  pub fs_ctx : ℕ
  pub device_ptr : ℕ
  pub read_cb : ℕ
  pub write_cb : ℕ
  pub sector_count : ℕ
  pub path : CString

-- registered_fs[0 .. registered_count) and mounts[0 .. mount_count)
pub record Vfs (W : Type 0) : Type 0 where
  pub registered : List (Filesystem W)
  pub mounts : List (Mount W)

abbrev pub max_filesystems : ℕ
max_filesystems = 200

abbrev pub max_mounts : ℕ
max_mounts = 200

abbrev pub slash : CString
slash = b'/' ∷ []

abbrev pub proc_path : CString
proc_path = b'/' ∷ b'p' ∷ b'r' ∷ b'o' ∷ b'c' ∷ []

abbrev pub dev_path : CString
dev_path = b'/' ∷ b'd' ∷ b'e' ∷ b'v' ∷ []

-- mount_paths[idx] after strncpy(mount_paths[idx], path, 63) and mount_paths[idx][63] = '\0'; all
-- its 64 bytes are written, so what they held before does not matter.
unfoldable pub path_entry : CString → CString
unfolding strncpy
path_entry path = set (strncpy (replicate 64 0) path 63) 63 0

unfoldable pub mount_path : ℕ → CString
unfolding path_entry
mount_path fs_type =
    if fs_type == 0x09
    then path_entry proc_path
    else if fs_type == 0x0A
    then path_entry dev_path
    else path_entry slash

-- `strncmp(…) == 0`
unfoldable pub is_zero : ℤ → Bool
is_zero (pos n) = n == 0
is_zero (negsuc n) = false

-- The tests that vfs_get_mount_for_path makes of one mount path, but for the length.
unfoldable pub path_under : CString → CString → Bool
unfolding is_zero
path_under path mp =
    not (first mp == 0)
    && (is_zero (strncmp path mp (strlen mp))
        && (char_at path (strlen mp) == b'/' || char_at path (strlen mp) == 0))

module _ {W : Type 0} where
  unfoldable pub vfs_init : Vfs W → Vfs W
  vfs_init v = record { registered = []; mounts = [] }

  unfoldable pub vfs_register_filesystem : Option (Filesystem W) → Vfs W → ℤ × Vfs W
  vfs_register_filesystem none v = (minus_one, v)
  vfs_register_filesystem (some fs) v =
      if leb max_filesystems (length v.registered)
      then (minus_one, v)
      else (pos 0, record v { registered = v.registered ++ (fs ∷ []) })

  unfoldable pub find_type : ℕ → List (Filesystem W) → Option (Filesystem W)
  find_type type [] = none
  find_type type (fs ∷ more) =
      let later = find_type type more in if fs.fs_type == type then some fs else later

  unfoldable pub vfs_find : ℕ → Vfs W → Option (Filesystem W)
  unfolding find_type
  vfs_find type v = find_type type v.registered

  unfoldable pub call_mount : Filesystem W → (device size : ℕ) → W → ℕ × W
  call_mount fs device size w = elim fs.ops.mount [ none ↦ (0, w) | some f ↦ f device size w ]

  -- What vfs_mount does with a file system that it has found. The pointer that it returns is the
  -- index of the new mount.
  unfoldable pub mount_found :
      Filesystem W → (fs_type device size read_cb write_cb : ℕ) → Vfs W → W → Option ℕ × Vfs W × W
  unfolding call_mount
  mount_found fs fs_type device size read_cb write_cb v w =
      if leb max_mounts (length v.mounts)
      then (none, v, w)
      else let (ctx, w') = call_mount fs device size w in
        if ctx == 0 then (none, v, w') else (
          some (length v.mounts),
          record v {
            mounts =
                v.mounts
                ++ (record {
                  fs = some fs;
                  fs_ctx = ctx;
                  device_ptr = device;
                  read_cb = read_cb;
                  write_cb = write_cb;
                  sector_count = size;
                  path = mount_path fs_type;
                }
                    ∷ []);
          },
          w',
        )

  unfoldable pub vfs_mount :
      (fs_type device size read_cb write_cb : ℕ) → Vfs W → W → Option ℕ × Vfs W × W
  unfolding vfs_find mount_found
  vfs_mount fs_type device size read_cb write_cb v w = elim (vfs_find fs_type v) [
    | none ↦ (none, v, w)
    | some fs ↦ mount_found fs fs_type device size read_cb write_cb v w
  ]

  -- The loop of vfs_get_mount_for_path: `i` is the index of the first mount of the list.
  unfoldable pub best_mount :
      CString → List (Mount W) → (i : ℕ) → (best : Option ℕ) → (best_len : ℕ) → Option ℕ × ℕ
  best_mount path [] i best best_len = (best, best_len)
  best_mount path (m ∷ more) i best best_len =
      let better = path_under path m.path && ltb best_len (strlen m.path) in
      best_mount path more (i + 1) (if better then some i else best)
        (if better then strlen m.path else best_len)

  unfoldable pub vfs_get_root_mount : Vfs W → Option ℕ
  vfs_get_root_mount v = if ltb 0 (length v.mounts) then some 0 else none

  unfoldable pub vfs_get_mount_for_path : CString → Vfs W → Option ℕ × CString
  unfolding best_mount vfs_get_root_mount
  vfs_get_mount_for_path path v =
      let (best, best_len) = best_mount path v.mounts 0 none 0 in
      elim best [
        | none ↦ (vfs_get_root_mount v, path)
        | some i ↦ (some i, if first (drop best_len path) == 0 then slash else drop best_len path)
      ]
