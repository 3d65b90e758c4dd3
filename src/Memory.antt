-- ===== src/Memory.antt =====
-- kernel/main/util/string.c: memcpy, memset, memmove, memcmp and memcmp_const, over a flat memory
-- of bytes. An address is a number; a loop recurs on the rounds that are left.
pub mod Copy
pub mod Compare
mod Tests
use osfix_operating_system.Base.{ℕ, zero, suc, ◌+◌, ◌%◌, Bool, ltb, leb, ◌==◌, ◌&&◌, if◌then◌else◌}
use osfix_operating_system.Base.Int.{ℤ, pos, minus_one, sub_ℕ}

abbrev pub Memory : Type 0
Memory = ℕ → ℕ

-- `p[0] = v` for a `uint8_t *p`
unfoldable pub write : Memory → ℕ → ℕ → Memory
write m p v a = if a == p then v else m a

-- for (i = i; i < i + k; i++) pdest[i] = psrc[i]
unfoldable pub copy_up : (k i dest src : ℕ) → Memory → Memory
copy_up zero i dest src m = m
copy_up (suc k) i dest src m = copy_up k (i + 1) dest src (write m (dest + i) (m (src + i)))

-- for (i = k; i > 0; i--) pdest[i-1] = psrc[i-1]
unfoldable pub copy_down : (k dest src : ℕ) → Memory → Memory
copy_down zero dest src m = m
copy_down (suc k) dest src m = copy_down k dest src (write m (dest + k) (m (src + k)))

unfoldable pub memcpy : (dest src n : ℕ) → Memory → Memory
unfolding copy_up
memcpy dest src n m = copy_up n 0 dest src m

unfoldable pub set_up : (k i p c : ℕ) → Memory → Memory
set_up zero i p c m = m
set_up (suc k) i p c m = set_up k (i + 1) p c (write m (p + i) (c % 256))

unfoldable pub memset : (p c n : ℕ) → Memory → Memory
unfolding set_up
memset p c n m = set_up n 0 p c m

unfoldable pub memmove : (dest src n : ℕ) → Memory → Memory
unfolding copy_up copy_down
memmove dest src n m =
    if ltb dest src
    then copy_up n 0 dest src m
    else if ltb src dest
    then copy_down n dest src m
    else m

unfoldable pub compare_from : (k i s1 s2 : ℕ) → Memory → ℤ
compare_from zero i s1 s2 m = pos 0
compare_from (suc k) i s1 s2 m =
    let rest = compare_from k (i + 1) s1 s2 m in
    if m (s1 + i) == m (s2 + i)
    then rest
    else if ltb (m (s1 + i)) (m (s2 + i))
    then minus_one
    else pos 1

unfoldable pub memcmp : (s1 s2 n : ℕ) → Memory → ℤ
unfolding compare_from
memcmp s1 s2 n m = compare_from n 0 s1 s2 m

-- the address lies among the `n` bytes at `p`
abbrev pub inside : (p n a : ℕ) → Bool
inside p n a = leb p a && ltb a (p + n)
