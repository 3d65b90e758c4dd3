-- ===== src/Endian/Swap.antt =====
-- kernel/includes/main/util/endian.h: numbers as they lie in memory.
use osfix_operating_system.Base.{ℕ, zero, suc, ◌+◌, ◌*◌, ◌^◌, ◌<◌, ◌≡◌, arith}
use osfix_operating_system.Memory.{Memory}
use osfix_operating_system.Elf.{read_le}
use osfix_operating_system.Endian.{be64toh, be32toh, be16toh, bew64toh, bew32toh}

-- The number of n bytes at p, highest byte first.
unfoldable pub read_be : (n p : ℕ) → Memory → ℕ
read_be zero p m = 0
read_be (suc n) p m = m p * 2 ^ (8 * n) + read_be n (p + 1) m

abbrev pub AreBytes : Memory → Type 0
AreBytes m = (p : ℕ) → m p < 256

be16toh_lem : (m : Memory) (p : ℕ) → AreBytes m → be16toh (read_le 2 p m) ≡ read_be 2 p m
unfolding be16toh read_le read_be
be16toh_lem m p bytes = omega (arith, bytes p, bytes (p + 1))

be32toh_lem : (m : Memory) (p : ℕ) → AreBytes m → be32toh (read_le 4 p m) ≡ read_be 4 p m
unfolding be32toh read_le read_be
be32toh_lem m p bytes =
    omega (arith, bytes p, bytes (p + 1), bytes (p + 1 + 1), bytes (p + 1 + 1 + 1))

be64toh_lem : (m : Memory) (p : ℕ) → AreBytes m → be64toh (read_le 8 p m) ≡ read_be 8 p m
unfolding be64toh read_le read_be
be64toh_lem m p bytes = omega (
  arith,
  bytes p,
  bytes (p + 1),
  bytes (p + 1 + 1),
  bytes (p + 1 + 1 + 1),
  bytes (p + 1 + 1 + 1 + 1),
  bytes (p + 1 + 1 + 1 + 1 + 1),
  bytes (p + 1 + 1 + 1 + 1 + 1 + 1),
  bytes (p + 1 + 1 + 1 + 1 + 1 + 1 + 1),
)

-- If the memory holds bytes, be16toh, be32toh and be64toh turn the number that the processor reads
-- of 2, 4 and 8 bytes, lowest byte first, into the number of the same bytes, highest byte first.
pub betoh-read_be :
    (m : Memory) (p : ℕ)
    → AreBytes m
    → (be16toh (read_le 2 p m) ≡ read_be 2 p m)
      × (be32toh (read_le 4 p m) ≡ read_be 4 p m)
      × (be64toh (read_le 8 p m) ≡ read_be 8 p m)
betoh-read_be m p bytes = (be16toh_lem m p bytes, be32toh_lem m p bytes, be64toh_lem m p bytes)

-- Turning the words of a number around twice gives the number back.
bewtoh-involution :
    (x : ℕ) → (x < 2 ^ 32 → bew32toh (bew32toh x) ≡ x) × (x < 2 ^ 64 → bew64toh (bew64toh x) ≡ x)
unfolding bew32toh bew64toh
bewtoh-involution x = (λ small. omega arith, λ small. omega arith)
