-- ===== src/Text/Search.antt =====
-- What the searches of kernel/main/util/string.c find: strchr, strcount, strpbrk and strstr.
use osfix_operating_system.Base.{
  ℕ, zero, suc, ◌+◌, ◌<◌, ◌≤◌, ◌≡◌, ◌≢◌, refl, Bool, true, false, ◌&&◌, Option, none, some, List,
  [], ◌∷◌, ◌==◌, if◌then◌else◌, length, drop, arith, Bool-cases, inl, inr, get_elem?, below-suc,
}
use osfix_operating_system.Text.{CString, first, strlen, strchr, matches_here, strstr_from, strstr}
use osfix_operating_system.Text.Content.{content, strlen-eq_length}

-- At the offset that strchr returns stands the character, and at no smaller offset.
pub strchr-eq_some :
    (s : CString) (chr i : ℕ)
    → strchr s chr ≡ some i
    → (get_elem? (content s) i ≡ some chr) × ((j : ℕ) → j < i → get_elem? (content s) j ≢ some chr)
unfolding strchr
strchr-eq_some [] chr i h = cc
strchr-eq_some (c ∷ s) chr zero h = (ground arith, λ j lt. absurd (omega arith))
strchr-eq_some (c ∷ s) chr (suc i) h =
    let go : (c == 0) ≡ false = ground arith in
    let ne : c ≢ chr = ground arith in
    let found : strchr s chr ≡ some i = ground arith in
    let (here, before) = strchr-eq_some s chr i found in
    rw go
      (here, below-suc (λ j. get_elem? (c ∷ content s) j ≢ some chr) i (λ e. ground arith) before)

-- strchr returns NULL exactly if the character is not among the bytes before the terminator: the
-- terminator itself is never found.
strchr-eq_none :
    (s : CString) (chr : ℕ) → strchr s chr ≡ none → (j : ℕ) → get_elem? (content s) j ≢ some chr
unfolding strchr
strchr-eq_none [] chr h j = λ e. cc
strchr-eq_none (c ∷ s) chr h zero = λ e. ground arith
strchr-eq_none (c ∷ s) chr h (suc j) = elim (Bool-cases (c == 0)) [
  | inl stop ↦ rw stop (λ e. cc)
  | inr go ↦ rw go (strchr-eq_none s chr (ground arith) j)
]

-- The needle, without terminator, begins the haystack.
abbrev pub begins : List ℕ → List ℕ → Bool
begins [] a = true
begins (y ∷ b) [] = false
begins (y ∷ b) (x ∷ a) = x == y && begins b a

matches_here_lem : (a b : CString) → matches_here a b ≡ begins (content b) (content a)
unfolding matches_here
matches_here_lem a [] = refl
matches_here_lem [] (y ∷ b) = ground arith
matches_here_lem (x ∷ a) (y ∷ b) = ground (arith, matches_here_lem a b)

begins-length : (b a : List ℕ) → begins b a ≡ true → length b ≤ length a
begins-length [] a h = omega arith
begins-length (y ∷ b) [] h = cc
begins-length (y ∷ b) (x ∷ a) h = ground (arith, begins-length b a)

-- The first offset from which the needle begins what is left of the haystack, `i` being the
-- offset of the haystack given.
abbrev pub first_match : List ℕ → List ℕ → ℕ → Option ℕ
first_match [] b i = none
first_match (x ∷ a) b i =
    let later = first_match a b (i + 1) in if begins b (x ∷ a) then some i else later

first_match-short : (a b : List ℕ) (i : ℕ) → length a < length b → first_match a b i ≡ none
first_match-short [] b i h = refl
first_match-short (x ∷ a) b i h =
    ground (arith, begins-length b (x ∷ a), first_match-short a b (i + 1))

strstr_from_lem :
    (a b : CString) (i : ℕ) → strstr_from a b i ≡ first_match (content a) (content b) i
unfolding strstr_from
strstr_from_lem [] b i = refl
strstr_from_lem (x ∷ a) b i = ground (
  arith,
  strlen-eq_length b,
  strlen-eq_length (x ∷ a),
  matches_here_lem (x ∷ a) b,
  first_match-short (content (x ∷ a)) (content b) i,
  strstr_from_lem a b (i + 1),
)

first_match-bound : (a b : List ℕ) (i k : ℕ) → first_match a b i ≡ some k → i ≤ k
first_match-bound [] b i k h = cc
first_match-bound (x ∷ a) b i k h = ground (arith, first_match-bound a b (i + 1) k)

first_match-eq_some :
    (a b : List ℕ) (i k : ℕ)
    → first_match a b i ≡ some (i + k)
    → (begins b (drop k a) ≡ true) × ((j : ℕ) → j < k → begins b (drop j a) ≡ false)
first_match-eq_some [] b i k h = cc
first_match-eq_some (x ∷ a) b i zero h =
    (ground (arith, first_match-bound a b (i + 1) (i + 0)), λ j lt. absurd (omega arith))
first_match-eq_some (x ∷ a) b i (suc k) h =
    let miss : begins b (x ∷ a) ≡ false = ground arith in
    let e : i + suc k ≡ i + 1 + k = omega arith in
    let found : first_match a b (i + 1) ≡ some (i + 1 + k) = ground arith in
    let (here, before) = first_match-eq_some a b (i + 1) k found in
    (here, below-suc (λ j. begins b (drop j (x ∷ a)) ≡ false) k miss before)

first_match-eq_none :
    (a b : List ℕ) (i : ℕ)
    → first_match a b i ≡ none
    → (j : ℕ) → j < length a
    → begins b (drop j a) ≡ false
first_match-eq_none [] b i h = λ j lt. absurd (omega arith)
first_match-eq_none (x ∷ a) b i h =
    below-suc (λ j. begins b (drop j (x ∷ a)) ≡ false) (length a) (ground arith)
      (first_match-eq_none a b (i + 1) (ground arith))

-- A non-empty needle that strstr finds begins the haystack at the offset returned, and at no
-- smaller one.
strstr-eq_some :
    (haystack needle : CString) (k : ℕ)
    → first needle ≢ 0
    → strstr haystack needle ≡ some k
    → (begins (content needle) (drop k (content haystack)) ≡ true)
      × ((j : ℕ) → j < k → begins (content needle) (drop j (content haystack)) ≡ false)
unfolding strstr
strstr-eq_some haystack needle k ne h =
    first_match-eq_some (content haystack) (content needle) 0 k
      (ground (arith, strstr_from_lem haystack needle 0))

-- If strstr returns NULL, the needle begins the haystack at no offset.
strstr-eq_none :
    (haystack needle : CString)
    → strstr haystack needle ≡ none
    → (j : ℕ) → j < strlen haystack
    → begins (content needle) (drop j (content haystack)) ≡ false
unfolding strstr
strstr-eq_none haystack needle h j lt =
    first_match-eq_none (content haystack) (content needle) 0
      (ground (arith, strstr_from_lem haystack needle 0)) j
      (omega (arith, strlen-eq_length haystack))
