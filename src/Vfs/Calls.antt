-- ===== src/Vfs/Calls.antt =====
-- kernel/main/fsm/vfs.c: the getters of the mount table, and the calls that go through a mount. A
-- `vfs_mount_t *` is the mount that it points to, `none` for NULL.
use mathlib.Core.Option
use osfix_operating_system.Base.{
  ℕ, Option, none, some, List, [], leb, if◌then◌else◌, length, get_elem?,
}
use osfix_operating_system.Base.Int.{ℤ, pos, negsuc, minus_one}
use osfix_operating_system.Text.{CString}
use osfix_operating_system.Vfs.{Vfs, Mount, Ops, Stat, Dirent}

module _ {W : Type 0} where
  unfoldable pub vfs_get_mount_count : Vfs W → ℕ
  vfs_get_mount_count v = length v.mounts

  -- A negative index and one past the table give NULL.
  unfoldable pub vfs_get_mount_by_index : ℤ → Vfs W → Option (Mount W)
  vfs_get_mount_by_index (negsuc _) v = none
  vfs_get_mount_by_index (pos i) v = if leb (length v.mounts) i then none else get_elem? v.mounts i

  unfoldable pub vfs_get_mount_path : ℤ → Vfs W → Option CString
  vfs_get_mount_path (negsuc _) v = none
  vfs_get_mount_path (pos i) v =
      if leb (length v.mounts) i then none else Option.map (λ m. m.path) (get_elem? v.mounts i)

  -- `!mnt || !mnt->fs || !mnt->fs->ops.f` is `none`; else the function, and the context for it.
  unfoldable pub handler : {F : Type 0} → (Ops W → Option F) → Option (Mount W) → Option (F × ℕ)
  handler get none = none
  handler get (some m) = elim m.fs [
    | none ↦ none
    | some fs ↦ Option.map (λ f. (f, m.fs_ctx)) (get fs.ops)
  ]

  unfoldable pub vfs_unmount : Option (Mount W) → W → ℤ × W
  unfolding handler
  vfs_unmount mnt w = elim (handler (λ o. o.unmount) mnt) [
    | none ↦ (minus_one, w)
    | some (f, ctx) ↦ f ctx w
  ]

  unfoldable pub vfs_create : Option (Mount W) → CString → W → ℕ × W
  unfolding handler
  vfs_create mnt path w = elim (handler (λ o. o.create) mnt) [
    | none ↦ (0, w)
    | some (f, ctx) ↦ f ctx path w
  ]

  unfoldable pub vfs_mkdir : Option (Mount W) → CString → W → ℕ × W
  unfolding handler
  vfs_mkdir mnt path w = elim (handler (λ o. o.mkdir) mnt) [
    | none ↦ (0, w)
    | some (f, ctx) ↦ f ctx path w
  ]

  unfoldable pub vfs_remove : Option (Mount W) → CString → W → ℤ × W
  unfolding handler
  vfs_remove mnt path w = elim (handler (λ o. o.remove) mnt) [
    | none ↦ (minus_one, w)
    | some (f, ctx) ↦ f ctx path w
  ]

  unfoldable pub vfs_rename : Option (Mount W) → CString → CString → W → ℤ × W
  unfolding handler
  vfs_rename mnt old_path new_path w = elim (handler (λ o. o.rename) mnt) [
    | none ↦ (minus_one, w)
    | some (f, ctx) ↦ f ctx old_path new_path w
  ]

  unfoldable pub vfs_stat : Option (Mount W) → ℕ → W → (ℤ × Option Stat) × W
  unfolding handler
  vfs_stat mnt inode w = elim (handler (λ o. o.stat) mnt) [
    | none ↦ ((minus_one, none), w)
    | some (f, ctx) ↦ f ctx inode w
  ]

  unfoldable pub vfs_chmod : Option (Mount W) → (inode mode : ℕ) → W → ℤ × W
  unfolding handler
  vfs_chmod mnt inode mode w = elim (handler (λ o. o.chmod) mnt) [
    | none ↦ (minus_one, w)
    | some (f, ctx) ↦ f ctx inode mode w
  ]

  unfoldable pub vfs_truncate : Option (Mount W) → (inode size : ℕ) → W → ℤ × W
  unfolding handler
  vfs_truncate mnt inode size w = elim (handler (λ o. o.truncate) mnt) [
    | none ↦ (minus_one, w)
    | some (f, ctx) ↦ f ctx inode size w
  ]

  unfoldable pub vfs_read : Option (Mount W) → (inode size offset : ℕ) → W → (ℤ × List ℕ) × W
  unfolding handler
  vfs_read mnt inode size offset w = elim (handler (λ o. o.read) mnt) [
    | none ↦ ((minus_one, []), w)
    | some (f, ctx) ↦ f ctx inode size offset w
  ]

  unfoldable pub vfs_write :
      Option (Mount W) → (inode : ℕ) → (buf : List ℕ) → (size offset : ℕ) → W → ℤ × W
  unfolding handler
  vfs_write mnt inode buf size offset w = elim (handler (λ o. o.write) mnt) [
    | none ↦ (minus_one, w)
    | some (f, ctx) ↦ f ctx inode buf size offset w
  ]

  unfoldable pub vfs_listdir :
      Option (Mount W) → (inode max_entries : ℕ) → W → (ℤ × List Dirent) × W
  unfolding handler
  vfs_listdir mnt inode max_entries w = elim (handler (λ o. o.listdir) mnt) [
    | none ↦ ((minus_one, []), w)
    | some (f, ctx) ↦ f ctx inode max_entries w
  ]

  unfoldable pub vfs_path_to_inode : Option (Mount W) → CString → W → ℕ × W
  unfolding handler
  vfs_path_to_inode mnt path w = elim (handler (λ o. o.path_to_inode) mnt) [
    | none ↦ (0, w)
    | some (f, ctx) ↦ f ctx path w
  ]
