-- ===== src/Printf.antt =====
-- kernel/main/util/print/kprintf.c: vsnprintf and what it calls. The format is the block of bytes
-- from its pointer on, terminator included, and a read behind the block is a fault; the variable
-- arguments are a list of 64-bit words and strings. An overflow of the int `width` is left out, and
-- a negative width is 0, which pads as little.
pub mod Emit
pub mod Format
pub mod Digits
mod Tests
use mathlib.Core.List.{reverse}
use osfix_operating_system.Base.{
  ℕ, zero, suc, ◌+◌, ◌-◌, ◌*◌, ◌/◌, ◌%◌, ◌^◌, Bool, true, false, not, ◌&&◌, ◌||◌, Option, none,
  some, List, [], ◌∷◌, ◌++◌, ltb, leb, ◌==◌, if◌then◌else◌, length, take, sub64,
}
use osfix_operating_system.Text.{CString, first, rest, char_at}

-- What a run gives: a value, a read behind the format or of an argument that is not there, or the
-- end of the fuel.
pub data Outcome (A : Type 0) : Type 0 where
  done : A → Outcome A
  fault : Outcome A
  stuck : Outcome A

infixl 5 ◌>>=◌
abbrev pub ◌>>=◌ : {A B : Type 0} → Outcome A → (A → Outcome B) → Outcome B
done a >>= k = k a
fault >>= k = fault
stuck >>= k = stuck

-- FLAG_ZERO_PAD and the others, one bit each
pub record Flags : Type 0 where
  pub zero_pad : Bool
  pub left_just : Bool
  pub sign_space : Bool
  pub sign_plus : Bool
  pub alt_form : Bool

abbrev pub no_flags : Flags
no_flags = record {
  zero_pad = false;
  left_just = false;
  sign_space = false;
  sign_plus = false;
  alt_form = false;
}

pub data Arg : Type 0 where
  word : ℕ → Arg
  text : Option CString → Arg

-- `out` and `remaining`: the bytes stored so far, the room left, and whether `out` is NULL.
pub record Sink : Type 0 where
  pub written : List ℕ
  pub remaining : ℕ
  pub null : Bool

unfoldable pub print_char : (c : ℕ) → Sink → Sink
print_char c s =
    if s.null || leb s.remaining 1
    then s
    else record s { written = s.written ++ (c ∷ []); remaining = s.remaining - 1 }

unfoldable pub print_string : CString → Sink → Sink
print_string [] s = s
print_string (c ∷ t) s =
    let later = print_string t (print_char c s) in if c == 0 || leb s.remaining 1 then s else later

-- digits and digits_upper
abbrev pub digits : CString
digits =
    b'0' ∷ b'1' ∷ b'2' ∷ b'3' ∷ b'4' ∷ b'5' ∷ b'6' ∷ b'7' ∷ b'8' ∷ b'9' ∷ b'a' ∷ b'b' ∷ b'c' ∷ b'd'
    ∷ b'e' ∷ b'f' ∷ 0 ∷ []

abbrev pub digits_upper : CString
digits_upper =
    b'0' ∷ b'1' ∷ b'2' ∷ b'3' ∷ b'4' ∷ b'5' ∷ b'6' ∷ b'7' ∷ b'8' ∷ b'9' ∷ b'A' ∷ b'B' ∷ b'C' ∷ b'D'
    ∷ b'E' ∷ b'F' ∷ 0 ∷ []

-- The loop that fills the buffer, lowest digit first.
unfoldable pub digits_from : (fuel : ℕ) → CString → (n base : ℕ) → List ℕ
digits_from zero table n base = []
digits_from (suc fuel) table n base =
    let later = digits_from fuel table (n / base) base in
    if n == 0 then [] else char_at table (n % base) ∷ later

-- `buffer[0 .. i]`; 64 rounds are enough for 64 bits.
unfoldable pub buffer : CString → (n base : ℕ) → List ℕ
buffer table n base = if n == 0 then b'0' ∷ [] else digits_from 64 table n base

-- while (len < width && *remaining > 1) with `rounds` to go to the width
unfoldable pub pad : (rounds c : ℕ) → Sink → Sink
pad zero c s = s
pad (suc rounds) c s =
    let later = pad rounds c (print_char c s) in if leb s.remaining 1 then s else later

-- while (i > 0 && *remaining > 1) over the digits that are left, highest first
unfoldable pub print_digits : List ℕ → Sink → Sink
print_digits [] s = s
print_digits (c ∷ cs) s =
    let later = print_digits cs (print_char c s) in if leb s.remaining 1 then s else later

unfoldable pub print_unsigned : CString → (n base width : ℕ) → Flags → Sink → Sink
print_unsigned table n base width flags s =
    let ds = buffer table n base in
    let pad_char = if flags.zero_pad then b'0' else b' ' in
    let padded = if flags.left_just then s else pad (width - length ds) pad_char s in
    let printed = print_digits (reverse ds) padded in
    if flags.left_just then pad (width - length ds) b' ' printed else printed

-- `n` is the 64-bit pattern of the long long.
unfoldable pub print_int : (n base width : ℕ) → Flags → Sink → Sink
print_int n base width flags s =
    if leb (2 ^ 63) n
    then print_unsigned digits (sub64 0 n) base (width - 1) flags (print_char b'-' s)
    else if flags.sign_plus
    then print_unsigned digits n base (width - 1) flags (print_char b'+' s)
    else if flags.sign_space
    then print_unsigned digits n base (width - 1) flags (print_char b' ' s)
    else print_unsigned digits n base width flags s

abbrev pub is_flag : ℕ → Bool
is_flag c = c == b'0' || c == b'-' || c == b' ' || c == b'+' || c == b'#'

abbrev pub add_flag : ℕ → Flags → Flags
add_flag c flags =
    if c == b'0'
    then record flags { zero_pad = true }
    else if c == b'-'
    then record flags { left_just = true }
    else if c == b' '
    then record flags { sign_space = true }
    else if c == b'+'
    then record flags { sign_plus = true }
    else record flags { alt_form = true }

unfoldable pub parse_flags : Flags → CString → Flags × CString
parse_flags flags [] = (flags, [])
parse_flags flags (c ∷ f) =
    let later = parse_flags (add_flag c flags) f in if is_flag c then later else (flags, c ∷ f)

unfoldable pub parse_number : (n : ℕ) → CString → ℕ × CString
parse_number n [] = (n, [])
parse_number n (c ∷ f) =
    let later = parse_number (n * 10 + (c - b'0')) f in
    if leb b'0' c && leb c b'9' then later else (n, c ∷ f)

-- va_arg for a number and for a string
abbrev pub next_word : List Arg → Outcome (ℕ × List Arg)
next_word [] = fault
next_word (word w ∷ args) = done (w, args)
next_word (text t ∷ args) = fault

abbrev pub next_text : List Arg → Outcome (Option CString × List Arg)
next_text [] = fault
next_text (word w ∷ args) = fault
next_text (text t ∷ args) = done (t, args)

-- An int as a width
abbrev pub to_width : ℕ → ℕ
to_width w = if ltb (w % 2 ^ 32) (2 ^ 31) then w % 2 ^ 32 else 0

unfoldable pub parse_width : CString → List Arg → Outcome (ℕ × CString × List Arg)
parse_width f args =
    if first f == b'*'
    then (next_word args >>= λ r. done (to_width r.0, rest f, r.1))
    else (let n = parse_number 0 f in done (n.0, n.1, args))

-- The precision is read and not used.
unfoldable pub parse_precision : CString → List Arg → Outcome (CString × List Arg)
parse_precision f args =
    if not (first f == b'.')
    then done (f, args)
    else if first (rest f) == b'*'
    then (next_word args >>= λ r. done (rest (rest f), r.1))
    else done ((parse_number 0 (rest f)).1, args)

pub data Length : Type 0 where
  none_given short long long_long : Length

unfoldable pub parse_length : CString → Length × CString
parse_length f =
    if first f == b'h'
    then (Length.short, rest f)
    else if not (first f == b'l')
    then (Length.none_given, f)
    else if first (rest f) == b'l'
    then (Length.long_long, rest (rest f))
    else (Length.long, rest f)

abbrev pub is_long : Length → Bool
is_long Length.none_given = false
is_long Length.short = false
is_long Length.long = true
is_long Length.long_long = true

-- The 64-bit pattern of `n`, read as an int or as a long.
abbrev pub signed_arg : Length → ℕ → ℕ
signed_arg length w =
    if is_long length
    then w % 2 ^ 64
    else if ltb (w % 2 ^ 32) (2 ^ 31)
    then w % 2 ^ 32
    else w % 2 ^ 32 + (2 ^ 64 - 2 ^ 32)

abbrev pub unsigned_arg : Length → ℕ → ℕ
unsigned_arg length w = if is_long length then w % 2 ^ 64 else w % 2 ^ 32

-- What a conversion prints: characters, a string, a signed number, or a number behind a prefix.
pub data Action : Type 0 where
  chars : List ℕ → Action
  string : CString → Action
  signed : (n : ℕ) → Action
  unsigned : (prefix table : CString) → (n base : ℕ) → Action

-- "(null)" for a string that is NULL
abbrev pub or_null : Option CString → CString
or_null none = b'(' ∷ b'n' ∷ b'u' ∷ b'l' ∷ b'l' ∷ b')' ∷ 0 ∷ []
or_null (some t) = t

abbrev pub alt_prefix : Flags → (n x : ℕ) → CString
alt_prefix flags n x = if flags.alt_form && not (n == 0) then b'0' ∷ x ∷ 0 ∷ [] else []

-- The switch on the letter of a conversion.
unfoldable pub action_of : Flags → Length → (c : ℕ) → List Arg → Outcome (Action × List Arg)
action_of flags length c args =
    if c == b'c'
    then (next_word args >>= λ r. done (chars ((r.0 % 256) ∷ []), r.1))
    else if c == b's'
    then (next_text args >>= λ r. done (string (or_null r.0), r.1))
    else if c == b'd' || c == b'i'
    then (next_word args >>= λ r. done (signed (signed_arg length r.0), r.1))
    else if c == b'u'
    then (next_word args >>= λ r. done (unsigned [] digits (unsigned_arg length r.0) 10, r.1))
    else if c == b'x'
    then (next_word args >>= λ r.
        (let n = unsigned_arg length r.0 in
          done (unsigned (alt_prefix flags n b'x') digits n 16, r.1)))
    else if c == b'X'
    then (next_word args >>= λ r.
        (let n = unsigned_arg length r.0 in
          done (unsigned (alt_prefix flags n b'X') digits_upper n 16, r.1)))
    else if c == b'p'
    then (next_word args >>= λ r.
        done (unsigned (b'0' ∷ b'x' ∷ 0 ∷ []) digits (r.0 % 2 ^ 64) 16, r.1))
    else if c == b'%'
    then done (chars (b'%' ∷ []), args)
    else done (chars (b'%' ∷ c ∷ []), args)

abbrev pub print_chars : List ℕ → Sink → Sink
print_chars [] s = s
print_chars (c ∷ cs) s = print_chars cs (print_char c s)

unfoldable pub perform : Action → (width : ℕ) → Flags → Sink → Sink
perform (chars cs) width flags s = print_chars cs s
perform (string t) width flags s = print_string t s
perform (signed n) width flags s = print_int n 10 width flags s
perform (unsigned prefix table n base) width flags s =
    print_unsigned table n base width flags (print_string prefix s)

-- A conversion behind its `%`, up to its letter: what it prints, with its flags and width, the
-- format behind it and the arguments that are left.
pub record Directive : Type 0 where
  pub action : Action
  pub width : ℕ
  pub flags : Flags
  pub format : CString
  pub args : List Arg

abbrev pub letter_of : (width : ℕ) → Flags → Length → CString → List Arg → Outcome Directive
letter_of width flags length [] args = fault
letter_of width flags length (c ∷ f) args = action_of flags length c args >>= λ r.
    done (record { action = r.0; width = width; flags = flags; format = f; args = r.1 })

unfoldable pub directive : CString → List Arg → Outcome Directive
directive f args =
    let flags = parse_flags no_flags f in
    parse_width flags.1 args >>= λ w.
    (parse_precision w.1 w.2 >>= λ p.
    (let length = parse_length p.0 in letter_of w.0 flags.0 length.0 length.1 p.1))

-- The loop over the format.
unfoldable pub format_from : (fuel : ℕ) → CString → List Arg → Sink → Outcome Sink
format_from zero f args s = stuck
format_from (suc fuel) [] args s = fault
format_from (suc fuel) (c ∷ f) args s =
    let plain = format_from fuel f args (print_char c s) in
    let later = directive f args >>= λ d.
    format_from fuel d.format d.args (perform d.action d.width d.flags s) in
    if c == 0 then done s else if not (c == b'%') then plain else later

-- The bytes at `str` and the result, a 32-bit pattern.
pub record Printed : Type 0 where
  pub stored : List ℕ
  pub result : ℕ

abbrev pub finish : (size : ℕ) → Sink → Printed
finish size s = record {
  stored =
      if ltb 0 s.remaining then s.written ++ (0 ∷ []) else take (size - 1) s.written ++ (0 ∷ []);
  result = length s.written % 2 ^ 32;
}

-- `str` is 0 for NULL.
unfoldable pub vsnprintf : (str size : ℕ) → CString → List Arg → Outcome Printed
vsnprintf str size f args =
    if str == 0 || size == 0
    then (format_from (length f + 1) f args
          (record { written = []; remaining = 2 ^ 64 - 1; null = true })
        >>= λ s. done (record { stored = []; result = sub64 0 str % 2 ^ 32 }))
    else (format_from (length f + 1) f args
          (record { written = []; remaining = size; null = false })
        >>= λ s. done (finish size s))
