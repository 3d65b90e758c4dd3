-- ===== src/Endian/Tests.antt =====
-- The byte orders of kernel/includes/main/util/endian.h at the bytes 0, 1, 2 and on.
use osfix_operating_system.Base.{◌%◌, ◌≡◌, refl, arith}
use osfix_operating_system.Memory.{Memory}
use osfix_operating_system.Elf.{read_le}
use osfix_operating_system.Endian.{be64toh, be32toh, be16toh}
use osfix_operating_system.Endian.Swap.{read_be, betoh-read_be}

abbrev counting : Memory
counting p = p % 256

be32toh_runs : be32toh 305419896 ≡ 2018915346
unfolding be32toh
be32toh_runs = refl

betoh-read_be_example :
    (be16toh (read_le 2 5 counting) ≡ read_be 2 5 counting)
    × (be32toh (read_le 4 5 counting) ≡ read_be 4 5 counting)
    × (be64toh (read_le 8 5 counting) ≡ read_be 8 5 counting)
betoh-read_be_example = betoh-read_be counting 5 (λ p. omega arith)
