-- ===== src/Kprintf.antt =====
-- kernel/main/util/print/kprintf.c: kprintf. What it writes on the terminal is a list of bytes, the
-- format a block as for vsnprintf. The conversion `f` of floating point numbers is not modelled: it
-- is a fault here.
pub mod Low
mod Tests
use osfix_operating_system.Base.{
  ℕ, zero, suc, ◌+◌, ◌-◌, ◌%◌, ◌^◌, Bool, true, false, not, ◌&&◌, ◌||◌, Option, none, some, List,
  [], ◌∷◌, ◌++◌, ltb, leb, ◌==◌, if◌then◌else◌, length, take, replicate,
}
use osfix_operating_system.Base.Int.{ℤ, pos, minus_one}
use osfix_operating_system.Text.{CString, first, rest, strlen}
use osfix_operating_system.Text.Content.{content}
use osfix_operating_system.Convert.{itoa}
use osfix_operating_system.Printf.{
  Outcome, done, fault, stuck, ◌>>=◌, Arg, next_word, next_text, or_null, parse_number,
}

-- The terminal's input so far, and chars_written.
pub record Terminal : Type 0 where
  pub output : List ℕ
  pub chars_written : ℕ

-- flanterm_write of some bytes that are counted
abbrev pub put : List ℕ → Terminal → Terminal
put bytes t = record { output = t.output ++ bytes; chars_written = t.chars_written + length bytes }

abbrev pub put_char : ℕ → Terminal → Terminal
put_char c t = if c == b'\n' then put (b'\r' ∷ b'\n' ∷ []) t else put (c ∷ []) t

-- flanterm_write_translated
unfoldable pub translated : List ℕ → List ℕ
translated [] = []
translated (c ∷ cs) =
    let later = translated cs in if c == b'\n' then b'\r' ∷ b'\n' ∷ later else c ∷ later

-- The string `p` of a conversion: blanks or zeros up to the width, then the string, which counts
-- with its length.
unfoldable pub put_padded : (width pad_char : ℕ) → CString → Terminal → Terminal
put_padded width pad_char p t =
    let padded = put (replicate (width - strlen p) pad_char) t in
    record {
      output = padded.output ++ translated (content p);
      chars_written = padded.chars_written + strlen p;
    }

-- is_long or is_longlong, and the format behind the letters for it
unfoldable pub skip_length : CString → Bool × CString
skip_length f =
    if first f == b'l'
    then (if first (rest f) == b'l' then (true, rest (rest f)) else (true, rest f))
    else if first f == b'L'
    then (true, rest f)
    else (false, f)

-- The val of a conversion, and the int that itoa is called with.
abbrev pub word_arg : (long : Bool) → ℕ → ℕ
word_arg long w = if long then w % 2 ^ 64 else w % 2 ^ 32

abbrev pub int_arg : ℕ → ℕ
int_arg val = val % 2 ^ 32

abbrev pub base_of : ℕ → ℕ
base_of c = if c == b'x' then 16 else if c == b'o' then 8 else 10

abbrev pub prefix_of : ℕ → List ℕ
prefix_of c = if c == b'x' then b'0' ∷ b'x' ∷ [] else []

-- The bytes that `m` prints: `width` of them, or 16.
abbrev pub put_memory : (len : ℕ) → CString → Terminal → Outcome Terminal
put_memory len mem t = if leb len (length mem) then done (put (take len mem) t) else fault

-- The switch on the letter of a conversion.
unfoldable pub kconvert :
    (c : ℕ)
    → (long : Bool) → (width pad_char : ℕ) → List Arg
    → Terminal
    → Outcome (Terminal × List Arg)
kconvert c long width pad_char args t =
    if c == b'd' || c == b'u' || c == b'x' || c == b'o'
    then (next_word args >>= λ r. done (
      put_padded width pad_char (itoa (int_arg (word_arg long r.0)) (base_of c))
          (put (prefix_of c) t),
      r.1,
    ))
    else if c == b's'
    then (next_text args >>= λ r. done (put_padded width pad_char (or_null r.0) t, r.1))
    else if c == b'c'
    then (next_word args >>= λ r. done (put_char (r.0 % 2 ^ 32 % 256) t, r.1))
    else if c == b'p'
    then (next_word args >>= λ r. done (
      put_padded width pad_char (itoa (int_arg (r.0 % 2 ^ 64)) 16) (put (b'0' ∷ b'x' ∷ []) t),
      r.1,
    ))
    else if c == b'm'
    then (next_text args >>= λ r.
        (put_memory (if width == 0 then 16 else width) (or_null r.0) t >>= λ t'. done (t', r.1)))
    else if c == b'f'
    then fault
    else done (put (c ∷ []) (put (b'%' ∷ []) t), args)

abbrev pub behind :
    CString → Outcome (Terminal × List Arg) → Outcome (CString × Terminal × List Arg)
behind f (done r) = done (f, r.0, r.1)
behind f fault = fault
behind f stuck = stuck

-- The format behind a `%`, up to the letter of the conversion.
unfoldable pub kdirective : CString → List Arg → Terminal → Outcome (CString × Terminal × List Arg)
kdirective f args t =
    let zero_pad = first f == b'0' in
    let width = parse_number 0 (if zero_pad then rest f else f) in
    let long = skip_length width.1 in
    elim long.1 [
      | [] ↦ fault
      | c ∷ f' ↦ behind f' (kconvert c long.0 width.0 (if zero_pad then b'0' else b' ') args t)
    ]

unfoldable pub kformat_from : (fuel : ℕ) → CString → List Arg → Terminal → Outcome Terminal
kformat_from zero f args t = stuck
kformat_from (suc fuel) [] args t = fault
kformat_from (suc fuel) (c ∷ f) args t =
    let plain = kformat_from fuel f args (put_char c t) in
    let later = kdirective f args t >>= λ r. kformat_from fuel r.0 r.2 r.1 in
    if c == 0 then done t else if not (c == b'%') then plain else later

-- `ready` says whether global_flanterm is set.
unfoldable pub kprintf : (ready : Bool) → CString → List Arg → Outcome (List ℕ × ℤ)
kprintf ready format args =
    if not ready
    then done ([], minus_one)
    else (kformat_from (length format + 1) format args (record { output = []; chars_written = 0 })
        >>= λ t. done (t.output, pos t.chars_written))
