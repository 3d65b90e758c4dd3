-- ===== src/Endian.antt =====
-- kernel/includes/main/util/endian.h on a processor with the lowest byte first. A masked and shifted
-- part is written as a quotient and a remainder, and `|` as `+`, since the parts do not overlap.
pub mod Swap
mod Tests
use osfix_operating_system.Base.{ℕ, ◌+◌, ◌*◌, ◌/◌, ◌%◌, ◌^◌}

unfoldable pub be64toh : ℕ → ℕ
be64toh be =
    be / 2 ^ 56 % 2 ^ 8
    + be / 2 ^ 48 % 2 ^ 8 * 2 ^ 8
    + be / 2 ^ 40 % 2 ^ 8 * 2 ^ 16
    + be / 2 ^ 32 % 2 ^ 8 * 2 ^ 24
    + be / 2 ^ 24 % 2 ^ 8 * 2 ^ 32
    + be / 2 ^ 16 % 2 ^ 8 * 2 ^ 40
    + be / 2 ^ 8 % 2 ^ 8 * 2 ^ 48
    + be % 2 ^ 8 * 2 ^ 56

unfoldable pub le64toh : ℕ → ℕ
le64toh le = le

unfoldable pub be32toh : ℕ → ℕ
be32toh be =
    be / 2 ^ 24 % 2 ^ 8
    + be / 2 ^ 16 % 2 ^ 8 * 2 ^ 8
    + be / 2 ^ 8 % 2 ^ 8 * 2 ^ 16
    + be % 2 ^ 8 * 2 ^ 24

unfoldable pub le32toh : ℕ → ℕ
le32toh le = le

unfoldable pub be16toh : ℕ → ℕ
be16toh be = be / 2 ^ 8 % 2 ^ 8 + be % 2 ^ 8 * 2 ^ 8

unfoldable pub le16toh : ℕ → ℕ
le16toh le = le

-- The 16-bit words of a number are turned around, and not the bytes.
unfoldable pub bew64toh : ℕ → ℕ
bew64toh be =
    be / 2 ^ 48 % 2 ^ 16
    + be / 2 ^ 32 % 2 ^ 16 * 2 ^ 16
    + be / 2 ^ 16 % 2 ^ 16 * 2 ^ 32
    + be % 2 ^ 16 * 2 ^ 48

unfoldable pub lew64toh : ℕ → ℕ
lew64toh le = le

unfoldable pub bew32toh : ℕ → ℕ
bew32toh be = be / 2 ^ 16 % 2 ^ 16 + be % 2 ^ 16 * 2 ^ 16

unfoldable pub lew32toh : ℕ → ℕ
lew32toh le = le

unfoldable pub lebbew64toh : ℕ → ℕ
lebbew64toh lbe = bew64toh (le64toh lbe)

unfoldable pub beblew64toh : ℕ → ℕ
beblew64toh lbe = lew64toh (be64toh lbe)

unfoldable pub lebbew32toh : ℕ → ℕ
lebbew32toh lbe = bew32toh (le32toh lbe)

unfoldable pub beblew32toh : ℕ → ℕ
beblew32toh lbe = lew32toh (be32toh lbe)
