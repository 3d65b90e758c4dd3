-- ===== src/Text/Content.antt =====
-- The bytes of a string before its terminator, and what the functions of
-- kernel/main/util/string.c that compare or measure strings say of them.
use osfix_operating_system.Base.{
  ℕ, zero, suc, ◌-◌, ◌≤◌, ◌≡◌, ◌↔◌, refl, ap, List, [], ◌∷◌, ◌++◌, ◌==◌, if◌then◌else◌, length,
  take, drop, replicate, arith, ==_iff, Bool-cases, inl, inr,
}
use osfix_operating_system.Base.Int.{pos}
use osfix_operating_system.Text.{CString, strlen, strcmp, strncmp, strncpy}

abbrev pub content : CString → List ℕ
content [] = []
content (c ∷ s) = if c == 0 then [] else c ∷ content s

-- strlen counts the bytes before the terminator.
pub strlen-eq_length : (s : CString) → strlen s ≡ length (content s)
unfolding strlen
strlen-eq_length [] = refl
strlen-eq_length (c ∷ s) = ground (arith, strlen-eq_length s)

strcmp-eq_zero : (s t : CString) → strcmp s t ≡ pos 0 → content s ≡ content t
unfolding strcmp
strcmp-eq_zero [] [] h = refl
strcmp-eq_zero [] (d ∷ t) h = ground arith
strcmp-eq_zero (c ∷ s) [] h = ground arith
strcmp-eq_zero (c ∷ s) (d ∷ t) h = ground (arith, strcmp-eq_zero s t)

strcmp_of_content : (s t : CString) → content s ≡ content t → strcmp s t ≡ pos 0
unfolding strcmp
strcmp_of_content [] [] h = refl
strcmp_of_content [] (d ∷ t) h = ground arith
strcmp_of_content (c ∷ s) [] h = ground arith
strcmp_of_content (c ∷ s) (d ∷ t) h = ground (arith, strcmp_of_content s t)

-- strcmp returns 0 exactly on strings with the same bytes before their terminators.
pub strcmp-eq_zero_iff : (s t : CString) → (strcmp s t ≡ pos 0) ↔ (content s ≡ content t)
strcmp-eq_zero_iff s t = (strcmp-eq_zero s t, strcmp_of_content s t)

strncmp-eq_zero :
    (n : ℕ) (s t : CString) → strncmp s t n ≡ pos 0 → take n (content s) ≡ take n (content t)
unfolding strncmp
strncmp-eq_zero zero s t h = refl
strncmp-eq_zero (suc n) [] [] h = refl
strncmp-eq_zero (suc n) [] (d ∷ t) h = ground arith
strncmp-eq_zero (suc n) (c ∷ s) [] h = ground arith
strncmp-eq_zero (suc n) (c ∷ s) (d ∷ t) h = ground (arith, strncmp-eq_zero n s t)

strncmp_of_take :
    (n : ℕ) (s t : CString) → take n (content s) ≡ take n (content t) → strncmp s t n ≡ pos 0
unfolding strncmp
strncmp_of_take zero s t h = refl
strncmp_of_take (suc n) [] [] h = refl
strncmp_of_take (suc n) [] (d ∷ t) h = ground arith
strncmp_of_take (suc n) (c ∷ s) [] h = ground arith
strncmp_of_take (suc n) (c ∷ s) (d ∷ t) h = ground (arith, strncmp_of_take n s t)

-- strncmp returns 0 exactly if the strings agree in their first n bytes, or up to the end of both.
strncmp-eq_zero_iff :
    (s t : CString) (n : ℕ) → (strncmp s t n ≡ pos 0) ↔ (take n (content s) ≡ take n (content t))
strncmp-eq_zero_iff s t n = (strncmp-eq_zero n s t, strncmp_of_take n s t)

strncpy_pads :
    (dest : List ℕ) (n : ℕ) → n ≤ length dest → strncpy dest [] n ≡ replicate n 0 ++ drop n dest
unfolding strncpy
strncpy_pads dest zero h = refl
strncpy_pads [] (suc n) h = absurd (omega arith)
strncpy_pads (x ∷ dest) (suc n) h = ap (λ r. 0 ∷ r) (strncpy_pads dest n (omega arith))

-- In an array of at least n bytes strncpy leaves the first n bytes of the source, terminators in
-- the rest of the n, and the array's other bytes as they were.
pub strncpy_lem :
    (dest : List ℕ) (s : CString) (n : ℕ)
    → n ≤ length dest
    → strncpy dest s n ≡ take n (content s) ++ (replicate (n - strlen s) 0 ++ drop n dest)
unfolding strncpy strlen
strncpy_lem dest s zero h = let e : 0 - strlen s ≡ 0 = omega arith in rw e refl
strncpy_lem [] s (suc n) h = absurd (omega arith)
strncpy_lem (x ∷ dest) [] (suc n) h =
    let e : suc n - 0 ≡ suc n = omega arith in
    rw e (ap (λ r. 0 ∷ r) (strncpy_pads dest n (omega arith)))
strncpy_lem (x ∷ dest) (c ∷ s) (suc n) h =
    let e : suc n - 0 ≡ suc n = omega arith in
    let e' : suc n - suc (strlen s) ≡ n - strlen s = omega arith in
    elim (Bool-cases (c == 0)) [
      | inl stop ↦ rw (stop, e) (ground (arith, strncpy_pads dest n, ==_iff c 0))
      | inr go ↦ rw (go, e') (ap (λ r. c ∷ r) (strncpy_lem dest s n (omega arith)))
    ]
