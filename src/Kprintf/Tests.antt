-- ===== src/Kprintf/Tests.antt =====
-- kprintf of kernel/main/util/print/kprintf.c with a long that an int cannot hold.
use osfix_operating_system.Base.{◌+◌, ◌^◌, ◌≡◌, refl, true, List, [], ◌∷◌}
use osfix_operating_system.Base.Int.{pos}
use osfix_operating_system.Text.{CString, strlen}
use osfix_operating_system.Convert.{itoa, itoa_digits}
use osfix_operating_system.Printf.{done, Arg, word, parse_number}
use osfix_operating_system.Kprintf.{
  kprintf, kformat_from, kdirective, kconvert, skip_length, put_padded, translated,
}
use osfix_operating_system.Kprintf.Low.{low_args, kprintf-low_args}

-- "%lu" and 2^32 + 3
abbrev format : CString
format = b'%' ∷ b'l' ∷ b'u' ∷ 0 ∷ []

abbrev large : List Arg
large = word (2 ^ 32 + 3) ∷ []

kprintf_runs : kprintf true format large ≡ done (b'3' ∷ [], pos 1)
unfolding kprintf kformat_from kdirective kconvert skip_length put_padded translated parse_number
    itoa itoa_digits strlen
kprintf_runs = refl

kprintf-low_args_example : kprintf true format (low_args large) ≡ kprintf true format large
kprintf-low_args_example = kprintf-low_args true format large
