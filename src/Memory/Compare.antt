-- ===== src/Memory/Compare.antt =====
-- What memcmp of kernel/main/util/string.c tells of two blocks.
use osfix_operating_system.Base.{ℕ, zero, suc, ◌+◌, ◌<◌, ◌≡◌, refl, ◌↔◌, arith}
use osfix_operating_system.Base.Int.{pos, minus_one}
use osfix_operating_system.Memory.{Memory, memcmp, compare_from}

-- The blocks agree in the `k` bytes from index `i` on.
abbrev Agree : (k i s1 s2 : ℕ) → Memory → Type 0
Agree k i s1 s2 m = (j : ℕ) → j < k → m (s1 + (i + j)) ≡ m (s2 + (i + j))

Agree-tail :
    (k i s1 s2 : ℕ) (m : Memory)
    → m (s1 + i) ≡ m (s2 + i)
    → Agree k (i + 1) s1 s2 m
    → Agree (suc k) i s1 s2 m
Agree-tail k i s1 s2 m e h zero lt = ground arith
Agree-tail k i s1 s2 m e h (suc j) lt = ground (arith, h j)

compare_from-eq_zero :
    (k i s1 s2 : ℕ) (m : Memory) → compare_from k i s1 s2 m ≡ pos 0 → Agree k i s1 s2 m
unfolding compare_from
compare_from-eq_zero zero i s1 s2 m e = λ j lt. absurd (omega arith)
compare_from-eq_zero (suc k) i s1 s2 m e =
    Agree-tail k i s1 s2 m (ground arith) (compare_from-eq_zero k (i + 1) s1 s2 m (ground arith))

compare_from_of_Agree :
    (k i s1 s2 : ℕ) (m : Memory) → Agree k i s1 s2 m → compare_from k i s1 s2 m ≡ pos 0
unfolding compare_from
compare_from_of_Agree zero i s1 s2 m h = refl
compare_from_of_Agree (suc k) i s1 s2 m h =
    ground (arith, h 0, compare_from_of_Agree k (i + 1) s1 s2 m (λ j lt. ground (arith, h (suc j))))

-- memcmp returns 0 exactly when the two blocks hold the same bytes.
memcmp-eq_zero_iff :
    (s1 s2 n : ℕ) (m : Memory)
    → (memcmp s1 s2 n m ≡ pos 0) ↔ ((j : ℕ) → j < n → m (s1 + j) ≡ m (s2 + j))
unfolding memcmp
memcmp-eq_zero_iff s1 s2 n m = (
  λ e j lt. ground (arith, compare_from-eq_zero n 0 s1 s2 m e j),
  λ h. compare_from_of_Agree n 0 s1 s2 m (λ j lt. ground (arith, h j)),
)

compare_from-first :
    (k i s1 s2 j : ℕ) (m : Memory)
    → j < k
    → Agree j i s1 s2 m
    → m (s1 + (i + j)) < m (s2 + (i + j))
    → (compare_from k i s1 s2 m ≡ minus_one) × (compare_from k i s2 s1 m ≡ pos 1)
unfolding compare_from
compare_from-first zero i s1 s2 j m lt h d = absurd (omega arith)
compare_from-first (suc k) i s1 s2 zero m lt h d = ground arith
compare_from-first (suc k) i s1 s2 (suc j) m lt h d = ground (
  arith,
  h 0,
  compare_from-first k (i + 1) s1 s2 j m (omega arith) (λ l p. ground (arith, h (suc l)))
      (ground arith),
)

-- At the first byte where two blocks differ memcmp decides: -1 if the first block's byte is the
-- smaller one, and 1 with the blocks exchanged.
pub memcmp-first :
    (s1 s2 n j : ℕ) (m : Memory)
    → j < n
    → ((l : ℕ) → l < j → m (s1 + l) ≡ m (s2 + l))
    → m (s1 + j) < m (s2 + j)
    → (memcmp s1 s2 n m ≡ minus_one) × (memcmp s2 s1 n m ≡ pos 1)
unfolding memcmp
memcmp-first s1 s2 n j m lt h d =
    compare_from-first n 0 s1 s2 j m lt (λ l p. ground (arith, h l)) (ground arith)
