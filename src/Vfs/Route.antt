-- ===== src/Vfs/Route.antt =====
-- kernel/main/fsm/vfs.c: which mount vfs_get_mount_for_path chooses, and the path that is left.
use osfix_operating_system.Base.{
  ℕ, zero, suc, ◌+◌, ◌<◌, ◌≤◌, ◌≡◌, ◌≢◌, ◌⊎◌, inl, inr, refl, ap, true, false, ◌&&◌, Option, some,
  List, [], ◌∷◌, ◌++◌, ltb, ◌==◌, if◌then◌else◌, get_elem?, drop, arith, Bool-cases, subst,
}
use osfix_operating_system.Base.Int.{pos}
use osfix_operating_system.Text.{CString, first, rest, char_at, strlen, strncmp}
use osfix_operating_system.Text.Content.{content}
use osfix_operating_system.Vfs.{Mount, path_under, best_mount}

content-first : (p : CString) → (content p ≡ content p) × (char_at p 0 ≡ first p)
content-first [] = (refl, refl)
content-first (c ∷ p) = (refl, refl)

-- The first characters agree and are no terminators.
strncmp-cons :
    (d : ℕ) (mp path : CString) (n : ℕ)
    → (d == 0) ≡ false
    → strncmp path (d ∷ mp) (suc n) ≡ pos 0
    → (path ≡ d ∷ rest path) × (strncmp (rest path) mp n ≡ pos 0)
unfolding strncmp
strncmp-cons d mp [] n go h = ground arith
strncmp-cons d mp (c ∷ path) n go h = ground arith

prefix-split :
    (mp path : CString)
    → strncmp path mp (strlen mp) ≡ pos 0
    → (content path ≡ content mp ++ content (drop (strlen mp) path))
      × (char_at path (strlen mp) ≡ first (drop (strlen mp) path))
unfolding strlen
prefix-split [] path h = content-first path
prefix-split (d ∷ mp) path h = elim (Bool-cases (d == 0)) [
  | inl stop ↦ rw (stop, drop, char_at) (content-first path)
  | inr go ↦
      let (e, later) = strncmp-cons d mp path (strlen mp) go (rw (go, strlen) at h) in
      let (same, end) = prefix-split mp (rest path) later in
      rw (go, e, go) (ap (λ r. d ∷ r) same, end)
]

prefix-join :
    (mp path : CString) (t : List ℕ)
    → content path ≡ content mp ++ t
    → (strncmp path mp (strlen mp) ≡ pos 0) × (char_at path (strlen mp) ≡ first t)
unfolding strlen strncmp
prefix-join [] [] t h = ground arith
prefix-join [] (c ∷ path) t h = ground arith
prefix-join (d ∷ mp) [] t h = ground arith
prefix-join (d ∷ mp) (c ∷ path) t h = ground (arith, prefix-join mp path t)

-- The path lies at or below the mount path: its bytes are those of the mount path followed by
-- nothing, or by a slash and more. The empty mount path has nothing below it.
pub record Under (path mp : CString) : Type 0 where
  pub named : first mp ≢ 0
  pub left : List ℕ
  pub split : content path ≡ content mp ++ left
  pub boundary : (left ≡ []) ⊎ (first left ≡ b'/')

pub first-content : (s : CString) → first (content s) ≡ first s
first-content [] = refl
first-content (c ∷ s) = ground arith

boundary-of :
    (s : CString) → (first s ≡ b'/') ⊎ (first s ≡ 0) → (content s ≡ []) ⊎ (first (content s) ≡ b'/')
boundary-of [] h = inl refl
boundary-of (c ∷ s) h = ground arith

path_under-parts :
    (path mp : CString)
    → path_under path mp ≡ true
    → (first mp ≢ 0)
      × (strncmp path mp (strlen mp) ≡ pos 0)
      × ((char_at path (strlen mp) ≡ b'/') ⊎ (char_at path (strlen mp) ≡ 0))
unfolding path_under
path_under-parts path mp h = ground arith

pub path_under-split :
    (path mp : CString)
    → path_under path mp ≡ true
    → content path ≡ content mp ++ content (drop (strlen mp) path)
path_under-split path mp h = (prefix-split mp path (path_under-parts path mp h).1).0

pub path_under-Under : (path mp : CString) → path_under path mp ≡ true → Under path mp
path_under-Under path mp h =
    let (named, same, end) = path_under-parts path mp h in
    let (split, at_end) = prefix-split mp path same in
    record {
      named = named;
      left = content (drop (strlen mp) path);
      split = split;
      boundary = boundary-of (drop (strlen mp) path) (rw at_end at end);
    }

pub Under-path_under : (path mp : CString) → Under path mp → path_under path mp ≡ true
unfolding path_under
Under-path_under path mp u = ground (arith, prefix-join mp path u.left u.split)

module _ {W : Type 0} (path : CString) where
  -- The list has a mount at index `j` that the path lies under, with a path of length `n`.
  abbrev pub Candidate : List (Mount W) → ℕ → ℕ → Type 0
  Candidate ms j n =
      (m : Mount W) × (get_elem? ms j ≡ some m)
      × (path_under path m.path ≡ true)
      × (strlen m.path ≡ n)

  Candidate-head :
      (m : Mount W) (ms : List (Mount W)) (n : ℕ)
      → Candidate (m ∷ ms) 0 n
      → (path_under path m.path ≡ true) × (strlen m.path ≡ n)
  Candidate-head m ms n (m', same, under, len) = let e : m ≡ m' = cc in rw e (under, len)

  pub best_mount-max :
      (ms : List (Mount W)) (i : ℕ) (best : Option ℕ) (len : ℕ)
      → (len ≤ (best_mount path ms i best len).1)
        × ((j n : ℕ) → Candidate ms j n → n ≤ (best_mount path ms i best len).1)
  unfolding best_mount
  best_mount-max [] i best len = (omega arith, λ j n c. absurd (ground (arith, c.1)))
  best_mount-max (m ∷ ms) i best len =
      let better = path_under path m.path && ltb len (strlen m.path) in
      let (more, later) =
        best_mount-max ms (i + 1) (if better then some i else best)
          (if better then strlen m.path else len) in
      (
        ground arith,
        elim [
          | zero ↦ λ n c. let (under, e) = Candidate-head m ms n c in ground arith
          | suc j ↦ λ n c. later j n c
        ],
      )

  -- Where a result `r` of the loop comes from: it is what the loop began with, or a mount whose path
  -- is longer than that, and longer than the paths of the candidates in front of it.
  abbrev pub Source :
      List (Mount W) → (i : ℕ) → (best : Option ℕ) → (len : ℕ) → Option ℕ × ℕ → Type 0
  Source ms i best len r =
      (r ≡ (best, len))
      ⊎ ((j : ℕ) × Candidate ms j r.1
          × (r.0 ≡ some (i + j))
          × (len < r.1)
          × ((k n : ℕ) → k < j → Candidate ms k n → n < r.1))

  best_mount-better :
      (m : Mount W) (ms : List (Mount W)) (i : ℕ) (best : Option ℕ) (len : ℕ)
      → path_under path m.path && ltb len (strlen m.path) ≡ true
      → best_mount path ms (i + 1) (some i) (strlen m.path) ≡ best_mount path (m ∷ ms) i best len
  unfolding best_mount
  best_mount-better m ms i best len b = rw (b, best_mount)

  best_mount-skip :
      (m : Mount W) (ms : List (Mount W)) (i : ℕ) (best : Option ℕ) (len : ℕ)
      → path_under path m.path && ltb len (strlen m.path) ≡ false
      → best_mount path ms (i + 1) best len ≡ best_mount path (m ∷ ms) i best len
  unfolding best_mount
  best_mount-skip m ms i best len b = rw (b, best_mount)

  Source-better :
      (m : Mount W) (ms : List (Mount W)) (i : ℕ) (best : Option ℕ) (len : ℕ) (r : Option ℕ × ℕ)
      → path_under path m.path && ltb len (strlen m.path) ≡ true
      → Source ms (i + 1) (some i) (strlen m.path) r
      → Source (m ∷ ms) i best len r
  Source-better m ms i best len r b (inl e) = inr (
    0,
    (m, refl, ground arith, ground arith),
    ground arith,
    ground arith,
    λ k n lt c. absurd (omega arith),
  )
  Source-better m ms i best len r b (inr (j, c, e, more, ahead)) = inr (
    suc j,
    c,
    ground arith,
    ground arith,
    elim [
      | zero ↦ λ n lt d. omega (arith, (Candidate-head m ms n d).1)
      | suc k ↦ λ n lt d. ahead k n (omega arith) d
    ],
  )

  Source-skip :
      (m : Mount W) (ms : List (Mount W)) (i : ℕ) (best : Option ℕ) (len : ℕ) (r : Option ℕ × ℕ)
      → path_under path m.path && ltb len (strlen m.path) ≡ false
      → Source ms (i + 1) best len r
      → Source (m ∷ ms) i best len r
  Source-skip m ms i best len r b (inl e) = inl e
  Source-skip m ms i best len r b (inr (j, c, e, more, ahead)) = inr (
    suc j,
    c,
    ground arith,
    more,
    elim [
      | zero ↦ λ n lt d. let (under, e') = Candidate-head m ms n d in ground arith
      | suc k ↦ λ n lt d. ahead k n (omega arith) d
    ],
  )

  pub best_mount-Source :
      (ms : List (Mount W)) (i : ℕ) (best : Option ℕ) (len : ℕ)
      → Source ms i best len (best_mount path ms i best len)
  best_mount-Source [] i best len = unfold best_mount in inl refl
  best_mount-Source (m ∷ ms) i best len =
      elim (Bool-cases (path_under path m.path && ltb len (strlen m.path))) [
        | inl b ↦ subst (Source (m ∷ ms) i best len) (best_mount-better m ms i best len b) (
            Source-better m ms i best len _ b
              (best_mount-Source ms (i + 1) (some i) (strlen m.path)))
        | inr b ↦
            subst (Source (m ∷ ms) i best len) (best_mount-skip m ms i best len b)
              (Source-skip m ms i best len _ b (best_mount-Source ms (i + 1) best len))
      ]
