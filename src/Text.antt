-- ===== src/Text.antt =====
-- kernel/main/util/string.c: the functions on strings. A string is the list of the bytes from its
-- pointer on; past the list's end stands the terminator, so `*s` is 0 there. A pointer into a
-- string that a function returns is its offset.
pub mod Content
pub mod Search
mod Tests
use osfix_operating_system.Base.{
  ℕ, zero, suc, ◌+◌, ◌-◌, Bool, true, false, not, ◌&&◌, ◌||◌, Option, none, some, List, [], ◌∷◌,
  ltb, leb, ◌==◌, if◌then◌else◌, length,
}
use mathlib.Core.Option
use osfix_operating_system.Base.Int.{ℤ, pos, sub_ℕ}

abbrev pub CString : Type 0
CString = List ℕ

-- `*s`
abbrev pub first : CString → ℕ
first [] = 0
first (c ∷ s) = c

-- `s + 1`
abbrev pub rest : CString → CString
rest [] = []
rest (c ∷ s) = s

-- `s[i]`
abbrev pub char_at : CString → ℕ → ℕ
char_at [] i = 0
char_at (c ∷ s) zero = c
char_at (c ∷ s) (suc i) = char_at s i

unfoldable pub strlen : CString → ℕ
strlen [] = 0
strlen (c ∷ s) = if c == 0 then 0 else suc (strlen s)

unfoldable pub strcmp : CString → CString → ℤ
strcmp [] t = sub_ℕ 0 (first t)
strcmp (c ∷ s) t =
    let later = strcmp s (rest t) in
    if not (c == 0) && c == first t then later else sub_ℕ c (first t)

unfoldable pub strncmp : CString → CString → ℕ → ℤ
strncmp s t zero = pos 0
strncmp s t (suc n) =
    let later = strncmp (rest s) (rest t) n in
    if not (first s == first t)
    then sub_ℕ (first s) (first t)
    else if first s == 0
    then pos 0
    else later

-- The destination is the array that `dest` points to; the bytes past its end are not written.
unfoldable pub strncpy : (dest : List ℕ) → CString → ℕ → List ℕ
strncpy dest s zero = dest
strncpy [] s (suc n) = []
strncpy (_ ∷ dest) s (suc n) = first s ∷ strncpy dest (if first s == 0 then [] else rest s) n

unfoldable pub strchr : CString → ℕ → Option ℕ
strchr [] chr = none
strchr (c ∷ s) chr =
    let later = Option.map suc (strchr s chr) in
    if c == 0 then none else if c == chr then some 0 else later

unfoldable pub strrchr_from : CString → (c i : ℕ) → (last : Option ℕ) → Option ℕ
strrchr_from [] c i last = if c == 0 then some i else last
strrchr_from (x ∷ s) c i last =
    let later = strrchr_from s c (i + 1) (if x == c then some i else last) in
    if x == 0 then (if c == 0 then some i else last) else later

unfoldable pub strrchr : CString → ℕ → Option ℕ
unfolding strrchr_from
strrchr s c = strrchr_from s c 0 none

unfoldable pub strswap : CString → ℕ → ℕ → CString
strswap [] char1 char2 = []
strswap (c ∷ s) char1 char2 =
    let later = strswap s char1 char2 in
    if c == 0 then c ∷ s else (if c == char1 then char2 else c) ∷ later

unfoldable pub strcount : CString → ℕ → ℕ
strcount [] char1 = 0
strcount (c ∷ s) char1 =
    let later = strcount s char1 in if c == 0 then 0 else if c == char1 then later + 1 else later

-- The inner loop of strstr: it runs while both strings go on and agree, and the needle matches
-- here if it has been read to its end.
unfoldable pub matches_here : CString → CString → Bool
matches_here a [] = true
matches_here [] (y ∷ b) = y == 0
matches_here (x ∷ a) (y ∷ b) =
    let later = matches_here a b in
    if not (x == 0) && (not (y == 0) && x == y) then later else y == 0

unfoldable pub strstr_from : CString → CString → ℕ → Option ℕ
unfolding matches_here strlen
strstr_from [] needle i = none
strstr_from (x ∷ hpos) needle i =
    let later = strstr_from hpos needle (i + 1) in
    if not (x == 0) && leb (strlen needle) (strlen (x ∷ hpos))
    then (if matches_here (x ∷ hpos) needle then some i else later)
    else none

unfoldable pub strstr : CString → CString → Option ℕ
unfolding strstr_from
strstr haystack needle = if first needle == 0 then some 0 else strstr_from haystack needle 0

-- The inner loop of strpbrk: does `c` stand in the needle?
unfoldable pub is_one_of : ℕ → CString → Bool
is_one_of c [] = false
is_one_of c (y ∷ needle) =
    let later = is_one_of c needle in if y == 0 then false else if c == y then true else later

unfoldable pub strpbrk : CString → CString → Option ℕ
unfolding is_one_of
strpbrk [] needle = none
strpbrk (x ∷ haystack) needle =
    let later = Option.map suc (strpbrk haystack needle) in
    if x == 0 then none else if is_one_of x needle then some 0 else later
