-- ===== src/Printf/Tests.antt =====
-- The theorems about kernel/main/util/print/kprintf.c at short formats.
use osfix_operating_system.Base.{
  ℕ, ◌-◌, ◌%◌, ◌^◌, ◌≡◌, ◌≢◌, refl, true, false, List, [], ◌∷◌, ◌++◌, length, take, min, arith,
}
use osfix_operating_system.Text.{CString}
use osfix_operating_system.Convert.{atol}
use osfix_operating_system.Printf.{
  done, stuck, ◌>>=◌, no_flags, Arg, word, Sink, print_char, digits, digits_from, buffer, pad,
  print_digits, print_unsigned, print_int, parse_flags, parse_number, parse_width, parse_precision,
  parse_length, action_of, perform, directive, format_from, vsnprintf,
}
use osfix_operating_system.Printf.Format.{
  formatted, vsnprintf-formatted, vsnprintf-ne-stuck, format_from_past-end,
}
use osfix_operating_system.Printf.Digits.{atol-print_int}

-- "a%+04d" and 7
abbrev format : CString
format = b'a' ∷ b'%' ∷ b'+' ∷ b'0' ∷ b'4' ∷ b'd' ∷ 0 ∷ []

abbrev seven : List Arg
seven = word 7 ∷ []

vsnprintf_runs :
    vsnprintf 64 5 format seven
    ≡ done (record { stored = b'a' ∷ b'+' ∷ b'0' ∷ b'0' ∷ 0 ∷ []; result = 4 })
unfolding vsnprintf format_from directive parse_flags parse_number parse_width parse_precision
    parse_length action_of perform print_int print_unsigned buffer digits_from pad print_digits
    print_char
vsnprintf_runs = refl

vsnprintf-formatted_example : vsnprintf 64 5 format seven ≡ (
    formatted 8 format seven >>= λ t.
    done (record { stored = take 4 t ++ (0 ∷ []); result = min 4 (length t) % 2 ^ 32 }))
vsnprintf-formatted_example =
    vsnprintf-formatted 64 5 format seven (λ e. absurd (omega (arith, e))) (omega arith)

vsnprintf-ne-stuck_example : vsnprintf 64 5 format seven ≢ stuck
vsnprintf-ne-stuck_example = vsnprintf-ne-stuck 64 5 format seven

abbrev room : Sink
room = record { written = []; remaining = 9; null = false }

-- Behind the format "a%" stands another string.
format_from_past-end_example :
    format_from 7 (b'a' ∷ b'%' ∷ 0 ∷ b'k' ∷ b'e' ∷ b'y' ∷ 0 ∷ []) [] room
    ≡ format_from 5
        (b'k' ∷ b'e' ∷ b'y' ∷ 0 ∷ [])
        []
        (print_char 0 (print_char b'%' (print_char b'a' room)))
format_from_past-end_example =
    format_from_past-end (b'a' ∷ []) 5 (b'k' ∷ b'e' ∷ b'y' ∷ 0 ∷ []) [] room
      (omega arith, omega arith, tt)

abbrev minus_five : ℕ
minus_five = 2 ^ 64 - 5

abbrev wide : Sink
wide = record { written = []; remaining = 80; null = false }

atol-print_int_example :
    atol
      ((print_int minus_five 10 4 (record no_flags { zero_pad = true }) wide).written ++ (0 ∷ []))
    ≡ minus_five
atol-print_int_example =
    atol-print_int (record no_flags { zero_pad = true }) minus_five 4 wide refl refl (omega arith)
      refl refl (omega arith)

buffer_5 : length (buffer digits 5 10) ≡ 1
unfolding buffer digits_from
buffer_5 = refl
