-- ===== src/Vfs/Best.antt =====
-- kernel/main/fsm/vfs.c: vfs_get_mount_for_path as the documents have it, with every absolute path
-- below a mount at "/".
use osfix_operating_system.Base.{
  ℕ, ◌<◌, ◌≤◌, ◌≡◌, ◌≢◌, ◌⊎◌, inl, inr, refl, sym, ap, ◌∙◌, true, Option, some, List, [], ◌∷◌, ◌++◌,
  ◌==◌, get_elem?, length, arith, Bool-cases, Option-cases, none, subst, ltb,
}
use osfix_operating_system.Text.{CString, first, strlen}
use osfix_operating_system.Text.Content.{content, strlen-eq_length}
use osfix_operating_system.Vfs.{Vfs, Mount, slash, vfs_get_root_mount, vfs_get_mount_for_path}
use osfix_operating_system.Vfs.Route.{Under, first-content}
use osfix_operating_system.Vfs.Paths.{
  Relative, Chosen, NoneUnder, strlen-pos, vfs_get_mount_for_path-Chosen,
}

-- The mount path is "/".
abbrev pub IsRoot : CString → Type 0
IsRoot mp = content mp ≡ slash

-- The path lies at or below the mount path: it goes on behind it with nothing or with a slash, or
-- the mount path is "/" and the path is absolute.
abbrev pub Below : (path mp : CString) → Type 0
Below path mp = Under path mp ⊎ IsRoot mp × (first path ≡ b'/')

-- "/" is mounted first, or not at all.
abbrev pub RootFirst : {W : Type 0} → Vfs W → Type 0
RootFirst {W} v = (j : ℕ) (m : Mount W) → get_elem? v.mounts j ≡ some m → IsRoot m.path → j ≡ 0

root_mount-some :
    {W : Type 0} (v : Vfs W) (m : Mount W)
    → get_elem? v.mounts 0 ≡ some m
    → vfs_get_root_mount v ≡ some 0
unfolding vfs_get_root_mount
root_mount-some v m there = rw (filled v.mounts m there) refl
  where
    filled :
        {W : Type 0} (ms : List (Mount W)) (m : Mount W)
        → get_elem? ms 0 ≡ some m
        → ltb 0 (length ms) ≡ true
    filled [] m e = cc
    filled (x ∷ ms) m e = ground arith

IsRoot-cases : (l : List ℕ) → (l ≡ slash) ⊎ (l ≢ slash)
IsRoot-cases [] = inr (λ e. cc)
IsRoot-cases (c ∷ d ∷ l) = inr (λ e. cc)
IsRoot-cases (c ∷ []) = elim (Bool-cases (c == b'/')) [
  | inl hit ↦ let same : c ≡ b'/' = ground (arith, hit) in inl (ap (λ x. x ∷ []) same)
  | inr miss ↦ inr (λ e. absurd (ground (arith, miss, ap (λ l. first l) e)))
]

strlen-root : (mp : CString) → IsRoot mp → strlen mp ≡ 1
strlen-root mp root = strlen-eq_length mp ∙ ap (λ l. length l) root

-- A mount path of one byte that starts an absolute path is "/".
root_of_short :
    (path : CString) (mp left : List ℕ)
    → content path ≡ mp ++ left
    → first path ≡ b'/'
    → length mp ≡ 1
    → mp ≡ slash
root_of_short path [] left split absolute short = absurd (omega (arith, short))
root_of_short path (x ∷ y ∷ mp) left split absolute short = absurd (omega (arith, short))
root_of_short path (x ∷ []) left split absolute short =
    ap (λ c. c ∷ []) (sym (ap first split) ∙ first-content path ∙ absolute)

module _ {W : Type 0} (path : CString) (v : Vfs W) where
  -- The mount at index `i` is the best one, with the path `rel` for it.
  pub record IsBest (i : ℕ) (rel : CString) : Type 0 where
    mount : Mount W
    there : get_elem? v.mounts i ≡ some mount
    below : Below path mount.path
    relative :
        ((left : List ℕ) × (content path ≡ content mount.path ++ left) × Relative left rel)
        ⊎ (IsRoot mount.path × (rel ≡ path))
    longest :
        (j : ℕ) (m : Mount W)
        → get_elem? v.mounts j ≡ some m
        → Below path m.path
        → strlen m.path ≤ strlen mount.path
    earliest :
        (j : ℕ) (m : Mount W)
        → j < i
        → get_elem? v.mounts j ≡ some m
        → Below path m.path
        → strlen m.path < strlen mount.path

  abbrev pub NoneBelow : Type 0
  NoneBelow = (j : ℕ) (m : Mount W) → get_elem? v.mounts j ≡ some m → ¬ (Below path m.path)

  module _ (rooted : RootFirst v) where
    Chosen-IsBest : (i : ℕ) (rel : CString) → Chosen path v i rel → IsBest i rel
    Chosen-IsBest i rel c =
        let some_byte : 0 < strlen c.mount.path = strlen-pos c.mount.path c.under.named in
        record {
          mount = c.mount;
          there = c.there;
          below = inl c.under;
          relative = inl (c.left, c.split, c.relative);
          longest = λ j m there below. elim below [
            | inl under ↦ c.longest j m there under
            | inr (root, absolute) ↦ omega (arith, strlen-root m.path root, some_byte)
          ];
          earliest = λ j m before there below. elim below [
            | inl under ↦ c.earliest j m before there under
            | inr (root, absolute) ↦ elim (Bool-cases (strlen c.mount.path == 1)) [
              | inr longer ↦ ground (arith, strlen-root m.path root, some_byte, longer)
              | inl short ↦
                  let one : length (content c.mount.path) ≡ 1 =
                    sym (strlen-eq_length c.mount.path) ∙ ground (arith, short) in
                  let is_root =
                    root_of_short path (content c.mount.path) c.left c.split absolute one in
                  absurd (omega (arith, rooted i c.mount c.there is_root, before))
            ]
          ];
        }

    abbrev root_path : Option (Mount W) → List ℕ
    root_path none = []
    root_path (some m) = content m.path

    none_below :
        NoneUnder path v
        → ((m : Mount W) → get_elem? v.mounts 0 ≡ some m → IsRoot m.path → first path ≢ b'/')
        → NoneBelow
    none_below none_under no_root j m there (inl under) = none_under j m there under
    none_below none_under no_root j m there (inr (root, absolute)) =
        let at_first : get_elem? v.mounts 0 ≡ some m =
          ap (get_elem? v.mounts) (sym (rooted j m there root)) ∙ there in
        no_root m at_first root absolute

    -- A path below no mount but the root.
    root-IsBest :
        (m : Mount W)
        → get_elem? v.mounts 0 ≡ some m
        → IsRoot m.path
        → first path ≡ b'/'
        → NoneUnder path v
        → IsBest 0 path
    root-IsBest m there root absolute none_under = record {
      mount = m;
      there = there;
      below = inr (root, absolute);
      relative = inr (root, refl);
      longest = λ j n at below. elim below [
        | inl under ↦ absurd (none_under j n at under)
        | inr (other, _) ↦ omega (arith, strlen-root n.path other, strlen-root m.path root)
      ];
      earliest = λ j n before at below. absurd (omega (arith, before));
    }

    -- With "/" mounted first or not at all: vfs_get_mount_for_path returns the mount with the longest
    -- path that the path lies at or below, the first of those, and what is left of the path behind
    -- it, or the whole path where that mount is the one at "/". Every absolute path lies below "/".
    -- If the path lies below no mount, it returns the first mount of the table, or NULL if there is
    -- none, and the whole path.
    pub vfs_get_mount_for_path-IsBest :
        ((i : ℕ) × ((vfs_get_mount_for_path path v).0 ≡ some i)
          × IsBest i (vfs_get_mount_for_path path v).1)
        ⊎ (NoneBelow × (vfs_get_mount_for_path path v ≡ (vfs_get_root_mount v, path)))
    unfolding vfs_get_root_mount
    vfs_get_mount_for_path-IsBest = elim (vfs_get_mount_for_path-Chosen path v) [
      | inl (i, found, chosen) ↦
          inl (i, found, Chosen-IsBest i (vfs_get_mount_for_path path v).1 chosen)
      | inr (none_under, result) ↦ elim (Option-cases (get_elem? v.mounts 0)) [
        | inl nothing ↦ inr (none_below none_under (λ m there. cc), result)
        | inr (m, there) ↦ elim (IsRoot-cases (content m.path)) [
          | inr other ↦ inr (
            none_below none_under
                (λ n at root absolute. other (ap (λ o. root_path o) (sym there ∙ at) ∙ root)),
            result,
          )
          | inl root ↦ elim (Bool-cases (first path == b'/')) [
            | inr relative ↦ inr (
              none_below none_under (λ n at is_root absolute. ground (arith, relative, absolute)),
              result,
            )
            | inl absolute ↦ inl (
              0,
              ap (λ r. r.0) result ∙ root_mount-some v m there,
              subst (IsBest 0) (sym (ap (λ r. r.1) result))
                  (root-IsBest m there root (ground (arith, absolute)) none_under),
            )
          ]
        ]
      ]
    ]
