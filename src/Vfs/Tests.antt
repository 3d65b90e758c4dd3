-- ===== src/Vfs/Tests.antt =====
-- The theorems about kernel/main/fsm/vfs.c at a table with two mounts.
use osfix_operating_system.Base.{
  ℕ, zero, suc, ap, ◌∙◌, Option, ◌+◌, ◌≤◌, ◌≡◌, ◌⊎◌, refl, none, some, [], ◌∷◌, arith, length,
}
use osfix_operating_system.Text.{CString, first, strlen, strncmp}
use osfix_operating_system.Vfs.{
  Vfs, Mount, Filesystem, Ops, path_under, vfs_get_root_mount, vfs_get_mount_for_path, mount_path,
  vfs_mount, vfs_find, call_mount, max_mounts,
}
use osfix_operating_system.Vfs.Table.{IsLive, IsValid, vfs_mount-eq_none, made}
use osfix_operating_system.Text.Content.{content}
use osfix_operating_system.Vfs.Paths.{root_mount_bypassed}
use osfix_operating_system.Vfs.Best.{RootFirst, IsBest, NoneBelow, vfs_get_mount_for_path-IsBest}

abbrev no_ops : Ops ℕ
no_ops = record {
  mount = some (λ device size w. (7, w + 1));
  unmount = none;
  read = none;
  write = none;
  listdir = none;
  path_to_inode = none;
  create = none;
  mkdir = none;
  remove = none;
  rename = none;
  stat = none;
  chmod = none;
  truncate = none;
}

abbrev filesystem : ℕ → Filesystem ℕ
filesystem type = record { fs_type = type; name = []; ops = no_ops }

abbrev mount_of : ℕ → Mount ℕ
mount_of type = made (filesystem type) 7 type 0 0 0 0

abbrev two_mounts : Vfs ℕ
two_mounts = record {
  registered = filesystem 0x08 ∷ filesystem 0x09 ∷ [];
  mounts = mount_of 0x09 ∷ mount_of 0x08 ∷ [];
}

-- "/proc/x"
abbrev below_proc : CString
below_proc = b'/' ∷ b'p' ∷ b'r' ∷ b'o' ∷ b'c' ∷ b'/' ∷ b'x' ∷ []

-- "/etc"
abbrev etc : CString
etc = b'/' ∷ b'e' ∷ b't' ∷ b'c' ∷ []

below_proc_runs : vfs_get_mount_for_path below_proc two_mounts ≡ (some 0, b'/' ∷ b'x' ∷ [])
unfolding vfs_get_mount_for_path path_under mount_path strlen strncmp
below_proc_runs = refl

live : (type : ℕ) → first (mount_path type) ≡ b'/' → IsLive (mount_of type)
live type h = record { fs = λ e. cc; ctx = λ e. ground arith; path = h }

two_mounts-IsValid : IsValid two_mounts
unfolding mount_path
two_mounts-IsValid = record {
  registered = omega arith;
  mounts = omega arith;
  live = (live 0x09 refl, (live 0x08 refl, tt));
}

vfs_mount-eq_none_example :
    (two_mounts ≡ two_mounts)
    × ((vfs_find 0x02 two_mounts ≡ none)
        ⊎ (max_mounts ≤ length two_mounts.mounts)
        ⊎ ((fs : Filesystem ℕ) × (vfs_find 0x02 two_mounts ≡ some fs)
            × ((call_mount fs 0 0 5).0 ≡ 0)))
unfolding vfs_mount
vfs_mount-eq_none_example = vfs_mount-eq_none 0x02 0 0 0 0 two_mounts 5 two_mounts 5 refl

-- "/" before "/proc"
abbrev root_first : Vfs ℕ
root_first = record {
  registered = filesystem 0x08 ∷ filesystem 0x09 ∷ [];
  mounts = mount_of 0x08 ∷ mount_of 0x09 ∷ [];
}

root_first-RootFirst : RootFirst root_first
unfolding mount_path
root_first-RootFirst zero m there root = refl
root_first-RootFirst (suc zero) m there root =
    let lengths : ◌≡◌ {A = ℕ} 5 1 = ap (λ o. path_length o) there ∙ ap (λ l. length l) root in
    absurd (omega (arith, lengths))
  where
    path_length : Option (Mount ℕ) → ℕ
    path_length none = 1
    path_length (some m) = length (content m.path)
root_first-RootFirst (suc (suc j)) m there root = cc

vfs_get_mount_for_path-IsBest_example :
    ((i : ℕ) × ((vfs_get_mount_for_path etc root_first).0 ≡ some i)
      × IsBest etc root_first i (vfs_get_mount_for_path etc root_first).1)
    ⊎ (NoneBelow etc root_first
        × (vfs_get_mount_for_path etc root_first ≡ (vfs_get_root_mount root_first, etc)))
vfs_get_mount_for_path-IsBest_example =
    vfs_get_mount_for_path-IsBest etc root_first root_first-RootFirst

root_mount_bypassed_example : vfs_get_mount_for_path etc two_mounts ≡ (some 0, etc)
unfolding path_under mount_path strlen strncmp
root_mount_bypassed_example =
    root_mount_bypassed two_mounts (mount_of 0x09) (mount_of 0x08) b'e' (b't' ∷ b'c' ∷ []) refl refl
      (omega arith) (omega arith) refl
