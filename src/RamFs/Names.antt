-- ===== src/RamFs/Names.antt =====
-- kernel/main/fsm/initramfs/ramfs.c: the names under which files are kept and found.
pub mod Lookup
use osfix_operating_system.Base.{
  ℕ, zero, suc, ◌+◌, ◌-◌, ◌<◌, ◌≤◌, ◌≡◌, ◌≢◌, ◌↔◌, refl, ap, ◌∙◌, sym, Bool, true, false, List, [],
  ◌∷◌, ◌==◌, ◌&&◌, if◌then◌else◌, length, set, take, drop, replicate, arith, Bool-cases, inl, inr,
  length-replicate, min,
}
use osfix_operating_system.Base.Int.{pos, negsuc}
use osfix_operating_system.Text.{CString, first, rest, strcmp, strncpy}
use osfix_operating_system.Text.Content.{content, strcmp-eq_zero_iff}
use osfix_operating_system.Vfs.{is_zero, slash}
use osfix_operating_system.RamFs.{skip_root, copy_name, normalize_ramfs_path, same_name, name_entry}

pub same_name-content : (a b : CString) → same_name a b ≡ true → content a ≡ content b
unfolding same_name is_zero
same_name-content a b h = (strcmp-eq_zero_iff a b).0 (ground arith)

pub same_name_of_content : (a b : CString) → content a ≡ content b → same_name a b ≡ true
unfolding same_name is_zero
same_name_of_content a b h = rw ((strcmp-eq_zero_iff a b).1 h)

-- The text of the buffer is the path without its leading slashes, cut to fit.
pub content-copy_name :
    (p : CString) (out : List ℕ)
    → 0 < length out
    → content (copy_name p out) ≡ take (length out - 1) (content p)
unfolding copy_name
content-copy_name p [] h = absurd (omega arith)
content-copy_name p (o ∷ []) h = refl
content-copy_name [] (o ∷ o' ∷ out) h =
    let e : suc (suc (length out)) - 1 ≡ suc (length out) = omega arith in rw e refl
content-copy_name (c ∷ p) (o ∷ o' ∷ out) h =
    let e : suc (suc (length out)) - 1 ≡ suc (length out) = omega arith in
    let e' : suc (length out) - 1 ≡ length out = omega arith in
    let later : content (copy_name p (o' ∷ out)) ≡ take (length out) (content p) =
      content-copy_name p (o' ∷ out) (omega arith) ∙ ap (λ k. take k (content p)) e' in
    rw e (elim (Bool-cases (c == 0)) [
      | inl stop ↦ rw stop refl
      | inr go ↦ rw (go, go) (ap (λ r. c ∷ r) later)
    ])

pub first-copy_name :
    (p : CString) (out : List ℕ) → 1 < length out → first (copy_name p out) ≡ first p
unfolding copy_name
first-copy_name p [] h = absurd (omega arith)
first-copy_name p (o ∷ []) h = absurd (omega arith)
first-copy_name [] (o ∷ o' ∷ out) h = refl
first-copy_name (c ∷ p) (o ∷ o' ∷ out) h = ground arith

pub content-ne_nil : (s : CString) → content s ≢ [] → (first s == 0) ≡ false
content-ne_nil [] h = absurd (h refl)
content-ne_nil (c ∷ s) h = ground arith

-- A path that names more than the root is kept without its leading slashes and "./" parts, cut
-- to the length of the buffer, whatever the buffer held before.
pub content-normalize :
    (path : CString) (out : List ℕ)
    → 1 < length out
    → content (skip_root path) ≢ []
    → content (normalize_ramfs_path path out) ≡ take (length out - 1) (content (skip_root path))
unfolding normalize_ramfs_path
content-normalize path out h named =
    let go : (first (copy_name (skip_root path) out) == 0) ≡ false =
      ground (arith, first-copy_name (skip_root path) out, content-ne_nil (skip_root path) named) in
    rw (go, normalize_ramfs_path) (content-copy_name (skip_root path) out (omega arith))

pub copy_name-nil :
    (p : CString) (o : ℕ) (out : List ℕ) → content p ≡ [] → copy_name p (o ∷ out) ≡ 0 ∷ out
unfolding copy_name
copy_name-nil p o [] h = refl
copy_name-nil [] o (o' ∷ out) h = refl
copy_name-nil (c ∷ p) o (o' ∷ out) h = ground arith

-- The root's own name is a dot with no terminator behind it: what the buffer on the stack held
-- from its second byte on becomes part of the name.
normalize_root :
    (path : CString) (o : ℕ) (out : List ℕ)
    → content (skip_root path) ≡ []
    → content (normalize_ramfs_path path (o ∷ out)) ≡ b'.' ∷ content out
unfolding normalize_ramfs_path
normalize_root path o out h = rw (copy_name-nil (skip_root path) o out h, normalize_ramfs_path)

-- A terminator written at index i cuts the text there.
pub content-set_zero : (l : List ℕ) (i : ℕ) → content (set l i 0) ≡ take i (content l)
content-set_zero [] zero = refl
content-set_zero [] (suc i) = refl
content-set_zero (c ∷ l) zero = refl
content-set_zero (c ∷ l) (suc i) = elim (Bool-cases (c == 0)) [
  | inl stop ↦ rw stop refl
  | inr go ↦ rw go (ap (λ r. c ∷ r) (content-set_zero l i))
]

take-content-strncpy :
    (dest : List ℕ) (s : CString) (n : ℕ)
    → n ≤ length dest
    → take n (content (strncpy dest s n)) ≡ take n (content s)
unfolding strncpy
take-content-strncpy dest s zero h = refl
take-content-strncpy [] s (suc n) h = absurd (omega arith)
take-content-strncpy (x ∷ dest) [] (suc n) h = refl
take-content-strncpy (x ∷ dest) (c ∷ s) (suc n) h = elim (Bool-cases (c == 0)) [
  | inl stop ↦ rw stop refl
  | inr go ↦ rw go (ap (λ r. c ∷ r) (take-content-strncpy dest s n (omega arith)))
]

-- The name in a file's entry is the name given, cut to 255 bytes.
pub content-name_entry : (norm : CString) → content (name_entry norm) ≡ take 255 (content norm)
unfolding name_entry
content-name_entry norm =
    content-set_zero (strncpy (replicate 256 0) norm 255) 255
    ∙ take-content-strncpy (replicate 256 0) norm 255
        (omega (arith, length-replicate {A = ℕ} 256 0))
