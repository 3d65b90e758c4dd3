-- ===== src/Memory/Copy.antt =====
-- What the copying loops of kernel/main/util/string.c leave in every byte of memory.
use osfix_operating_system.Base.{ℕ, zero, suc, ◌+◌, ◌-◌, ◌%◌, ◌≤◌, ◌≡◌, ◌⊎◌, if◌then◌else◌, arith}
use osfix_operating_system.Memory.{
  Memory, write, copy_up, copy_down, memcpy, memset, set_up, memmove, inside,
}

-- Upwards, a byte is read before it is overwritten if the source does not start below the
-- destination inside the block, or stops before it.
copy_up_lem :
    (k i dest src : ℕ) (m : Memory) (a : ℕ)
    → (dest ≤ src) ⊎ (src + i + k ≤ dest + i)
    → copy_up k i dest src m a ≡ (if inside (dest + i) k a then m (src + (a - dest)) else m a)
unfolding copy_up write
copy_up_lem zero i dest src m a h = ground arith
copy_up_lem (suc k) i dest src m a h =
    ground (arith, copy_up_lem k (i + 1) dest src (write m (dest + i) (m (src + i))) a)

copy_down_lem :
    (k dest src : ℕ) (m : Memory) (a : ℕ)
    → src ≤ dest
    → copy_down k dest src m a ≡ (if inside dest k a then m (src + (a - dest)) else m a)
unfolding copy_down write
copy_down_lem zero dest src m a h = ground arith
copy_down_lem (suc k) dest src m a h =
    ground (arith, copy_down_lem k dest src (write m (dest + k) (m (src + k))) a h)

-- memmove leaves at the destination what the source held before the call, whether or not the two
-- blocks overlap, and leaves every other byte alone.
pub memmove_lem :
    (dest src n : ℕ) (m : Memory) (a : ℕ)
    → memmove dest src n m a ≡ (if inside dest n a then m (src + (a - dest)) else m a)
unfolding memmove
memmove_lem dest src n m a =
    ground (arith, copy_up_lem n 0 dest src m a, copy_down_lem n dest src m a)

-- memcpy does what memmove does if the blocks do not overlap, or if the destination starts no
-- higher than the source.
pub memcpy-memmove :
    (dest src n : ℕ) (m : Memory)
    → (dest ≤ src) ⊎ (src + n ≤ dest)
    → (a : ℕ) → memcpy dest src n m a ≡ memmove dest src n m a
unfolding memcpy
memcpy-memmove dest src n m h a =
    ground (arith, copy_up_lem n 0 dest src m a, memmove_lem dest src n m a)

set_up_lem :
    (k i p c : ℕ) (m : Memory) (a : ℕ)
    → set_up k i p c m a ≡ (if inside (p + i) k a then c % 256 else m a)
unfolding set_up write
set_up_lem zero i p c m a = ground arith
set_up_lem (suc k) i p c m a =
    ground (arith, set_up_lem k (i + 1) p c (write m (p + i) (c % 256)) a)

-- memset writes the low byte of its argument to every byte of the block and to no other.
pub memset_lem :
    (p c n : ℕ) (m : Memory) (a : ℕ) → memset p c n m a ≡ (if inside p n a then c % 256 else m a)
unfolding memset
memset_lem p c n m a = ground (arith, set_up_lem n 0 p c m a)
