-- ===== src/Convert/Tests.antt =====
-- The conversions of kernel/main/util/util.c at the smallest int.
use osfix_operating_system.Base.{◌^◌, ◌≡◌, refl, [], ◌∷◌, arith}
use osfix_operating_system.Convert.{itoa, itoa_digits, atoi, skip_blanks, read_digits, read_signed}
use osfix_operating_system.Convert.RoundTrip.{atoi-itoa}

itoa_runs : itoa 255 16 ≡ b'f' ∷ b'f' ∷ 0 ∷ []
unfolding itoa itoa_digits
itoa_runs = refl

atoi_runs : atoi (b' ' ∷ b'+' ∷ b'4' ∷ b'2' ∷ b'x' ∷ []) ≡ 42
unfolding atoi skip_blanks read_signed read_digits
atoi_runs = refl

atoi-itoa_example : atoi (itoa (2 ^ 31) 10) ≡ 2 ^ 31
atoi-itoa_example = atoi-itoa (2 ^ 31) (omega arith)
