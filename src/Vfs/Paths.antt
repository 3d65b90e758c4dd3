-- ===== src/Vfs/Paths.antt =====
-- kernel/main/fsm/vfs.c: the contract of vfs_get_mount_for_path.
use osfix_operating_system.Base.{
  ℕ, ◌<◌, ◌≤◌, ◌≡◌, ◌≢◌, ◌⊎◌, inl, inr, refl, false, Option, none, some, List, [], ◌∷◌, ◌++◌, ◌==◌,
  if◌then◌else◌, get_elem?, drop, arith, Bool-cases,
}
use osfix_operating_system.Text.{CString, first, strlen, strncmp}
use osfix_operating_system.Text.Content.{content}
use osfix_operating_system.Vfs.{
  Vfs, Mount, slash, path_under, best_mount, vfs_get_root_mount, vfs_get_mount_for_path, mount_path,
}
use osfix_operating_system.Vfs.Route.{
  Under, path_under-Under, path_under-split, Under-path_under, best_mount-max, best_mount-Source,
}

-- The path that a mount is asked for: what is left of the path, or "/" if nothing is.
abbrev pub Relative : List ℕ → CString → Type 0
Relative left rel = (left ≡ content rel) × (left ≢ []) ⊎ (left ≡ []) × (rel ≡ slash)

module _ {W : Type 0} (path : CString) where
  -- The mount at index `i`, with the path `rel` for it, is the right choice: the path lies under it,
  -- under no mount with a longer path, and under none as long that was mounted before.
  pub record Chosen (v : Vfs W) (i : ℕ) (rel : CString) : Type 0 where
    pub mount : Mount W
    pub there : get_elem? v.mounts i ≡ some mount
    pub left : List ℕ
    pub split : content path ≡ content mount.path ++ left
    pub relative : Relative left rel
    pub under : Under path mount.path
    pub longest :
        (j : ℕ) (m : Mount W)
        → get_elem? v.mounts j ≡ some m
        → Under path m.path
        → strlen m.path ≤ strlen mount.path
    pub earliest :
        (j : ℕ) (m : Mount W)
        → j < i
        → get_elem? v.mounts j ≡ some m
        → Under path m.path
        → strlen m.path < strlen mount.path

  abbrev pub NoneUnder : Vfs W → Type 0
  NoneUnder v = (j : ℕ) (m : Mount W) → get_elem? v.mounts j ≡ some m → ¬ (Under path m.path)

Relative-of : (s : CString) → Relative (content s) (if first s == 0 then slash else s)
Relative-of [] = inr (refl, refl)
Relative-of (c ∷ s) = elim (Bool-cases (c == 0)) [
  | inl stop ↦ rw stop (inr (refl, refl))
  | inr go ↦ rw (go, go) (inl (refl, λ e. cc))
]

pub strlen-pos : (s : CString) → first s ≢ 0 → 0 < strlen s
unfolding strlen
strlen-pos [] h = absurd (h refl)
strlen-pos (c ∷ s) h = ground arith

slash_misses :
    (c : ℕ) (s : CString) → c ≢ b'/' → c ≢ 0 → path_under (b'/' ∷ c ∷ s) (mount_path 0x08) ≡ false
unfolding path_under mount_path strncmp strlen
slash_misses c s ne nz = ground arith

module _ {W : Type 0} (path : CString) (v : Vfs W) where
  abbrev best : Option ℕ × ℕ
  best = best_mount path v.mounts 0 none 0

  longest_of :
      (j : ℕ) (m : Mount W)
      → get_elem? v.mounts j ≡ some m
      → Under path m.path
      → strlen m.path ≤ best.1
  longest_of j m there under =
      (best_mount-max path v.mounts 0 none 0).1 j (strlen m.path)
        (m, there, Under-path_under path m.path under, refl)

  none_of : best ≡ (none, 0) → NoneUnder path v
  none_of e j m there under =
      ground (arith, longest_of j m there under, strlen-pos m.path under.named)

  -- If the path is a mount's path or that path, a slash and more, vfs_get_mount_for_path returns the
  -- longest such mount and what is left of the path. If there is none, it returns the first mount
  -- of the table, or NULL if there is none, and the whole path.
  pub vfs_get_mount_for_path-Chosen :
      ((i : ℕ) × ((vfs_get_mount_for_path path v).0 ≡ some i)
        × Chosen path v i (vfs_get_mount_for_path path v).1)
      ⊎ (NoneUnder path v × (vfs_get_mount_for_path path v ≡ (vfs_get_root_mount v, path)))
  unfolding vfs_get_mount_for_path
  vfs_get_mount_for_path-Chosen = elim (best_mount-Source path v.mounts 0 none 0) [
    | inl e ↦ inr (none_of e, rw (e, vfs_get_mount_for_path))
    | inr (j, (m, there, under, len), e, more, ahead) ↦
        let e' : best.0 ≡ some j = ground arith in
        inl (
          j,
          rw (e', vfs_get_mount_for_path),
          rw (e', vfs_get_mount_for_path)
              (record {
                mount = m;
                there = there;
                left = content (drop best.1 path);
                split = rw (← len) (path_under-split path m.path under);
                relative = Relative-of (drop best.1 path);
                under = path_under-Under path m.path under;
                longest = λ k n at below. rw len (longest_of k n at below);
                earliest = λ k n lt at below.
                    rw len (
                      ahead k (strlen n.path) lt (n, at, Under-path_under path n.path below, refl));
              }),
        )
  ]

-- The mount path "/" has nothing below it but itself and paths with a second slash: with /proc
-- mounted first and the root file system second, an absolute path outside /proc goes to the
-- file system of /proc.
pub root_mount_bypassed :
    {W : Type 0} (v : Vfs W) (proc root : Mount W) (c : ℕ) (s : CString)
    → v.mounts ≡ proc ∷ root ∷ []
    → root.path ≡ mount_path 0x08
    → c ≢ b'/'
    → c ≢ 0
    → path_under (b'/' ∷ c ∷ s) proc.path ≡ false
    → vfs_get_mount_for_path (b'/' ∷ c ∷ s) v ≡ (some 0, b'/' ∷ c ∷ s)
unfolding vfs_get_mount_for_path
root_mount_bypassed v proc root c s two is_root ne nz out =
    let off : path_under (b'/' ∷ c ∷ s) root.path ≡ false = rw is_root (slash_misses c s ne nz) in
    let loop : best_mount (b'/' ∷ c ∷ s) (proc ∷ root ∷ []) 0 none 0 ≡ (none, 0) =
      rw (best_mount, out, off) refl in
    let e : best_mount (b'/' ∷ c ∷ s) v.mounts 0 none 0 ≡ (none, 0) = rw two loop in
    rw (e, vfs_get_mount_for_path, two)
