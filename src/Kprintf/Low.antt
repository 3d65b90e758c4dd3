-- ===== src/Kprintf/Low.antt =====
-- kernel/main/util/print/kprintf.c: what kprintf sees of its arguments.
use osfix_operating_system.Base.{
  ℕ, zero, suc, ◌+◌, ◌%◌, ◌^◌, ◌≡◌, refl, ap, ◌∙◌, Bool, true, false, not, List, [], ◌∷◌, ◌==◌,
  if◌then◌else◌, length, arith, Bool-cases, inl, inr,
}
use osfix_operating_system.Base.Int.{pos}
use osfix_operating_system.Text.{CString, first, rest}
use osfix_operating_system.Printf.{
  Outcome, done, fault, stuck, ◌>>=◌, Arg, word, text, or_null, parse_number,
}
use osfix_operating_system.Kprintf.{
  Terminal, put_char, put_memory, int_arg, word_arg, kconvert, skip_length, behind, kdirective,
  kformat_from, kprintf,
}

-- The arguments with their words cut to 32 bits.
abbrev pub low_args : List Arg → List Arg
low_args [] = []
low_args (word w ∷ args) = word (w % 2 ^ 32) ∷ low_args args
low_args (text t ∷ args) = text t ∷ low_args args

abbrev lowered : Outcome (Terminal × List Arg) → Outcome (Terminal × List Arg)
lowered o = o >>= λ r. done (r.0, low_args r.1)

abbrev lowered_rest :
    Outcome (CString × Terminal × List Arg) → Outcome (CString × Terminal × List Arg)
lowered_rest (done r) = done (r.0, r.1, low_args r.2)
lowered_rest fault = fault
lowered_rest stuck = stuck

low_val : (long : Bool) (w : ℕ) → int_arg (word_arg long (w % 2 ^ 32)) ≡ int_arg (word_arg long w)
low_val true w = omega arith
low_val false w = omega arith

low_pointer : (w : ℕ) → int_arg (w % 2 ^ 32 % 2 ^ 64) ≡ int_arg (w % 2 ^ 64)
low_pointer w = omega arith

low_char : (w : ℕ) → w % 2 ^ 32 % 2 ^ 32 % 256 ≡ w % 2 ^ 32 % 256
low_char w = omega arith

memory-lowered :
    (o : Outcome Terminal) (args : List Arg)
    → (o >>= λ t'. done (t', low_args args)) ≡ lowered (o >>= λ t'. done (t', args))
memory-lowered (done t) args = refl
memory-lowered fault args = refl
memory-lowered stuck args = refl

kconvert-low_args :
    (c : ℕ) (long : Bool) (width pad_char : ℕ) (args : List Arg) (t : Terminal)
    → kconvert c long width pad_char (low_args args) t
      ≡ lowered (kconvert c long width pad_char args t)
unfolding kconvert
kconvert-low_args c long width pad_char [] t = ground arith
kconvert-low_args c long width pad_char (word w ∷ args) t =
    ground (arith, low_val long w, low_pointer w, low_char w)
kconvert-low_args c long width pad_char (text u ∷ args) t =
    ground
      (arith, memory-lowered (put_memory (if width == 0 then 16 else width) (or_null u) t) args)

kdirective-low_args :
    (f : CString) (args : List Arg) (t : Terminal)
    → kdirective f (low_args args) t ≡ lowered_rest (kdirective f args t)
unfolding kdirective
kdirective-low_args f args t = letter long.1
  where
    zero_pad : Bool
    zero_pad = first f == b'0'

    width : ℕ × CString
    width = parse_number 0 (if zero_pad then rest f else f)

    long : Bool × CString
    long = skip_length width.1

    pad_char : ℕ
    pad_char = if zero_pad then b'0' else b' '

    moved :
        (f' : CString) (o : Outcome (Terminal × List Arg))
        → behind f' (lowered o) ≡ lowered_rest (behind f' o)
    moved f' (done r) = refl
    moved f' fault = refl
    moved f' stuck = refl

    letter :
        (g : CString)
        → (let o : Outcome (CString × Terminal × List Arg) = elim g [
          | [] ↦ fault
          | c ∷ f' ↦ behind f' (kconvert c long.0 width.0 pad_char (low_args args) t)
        ] in
            o)
          ≡ lowered_rest (elim g [
            | [] ↦ fault
            | c ∷ f' ↦ behind f' (kconvert c long.0 width.0 pad_char args t)
          ])
    letter [] = refl
    letter (c ∷ f') =
        ap (behind f') (kconvert-low_args c long.0 width.0 pad_char args t)
        ∙ moved f' (kconvert c long.0 width.0 pad_char args t)

kformat_from-low_args :
    (fuel : ℕ) (f : CString) (args : List Arg) (t : Terminal)
    → kformat_from fuel f (low_args args) t ≡ kformat_from fuel f args t
unfolding kformat_from
kformat_from-low_args zero f args t = refl
kformat_from-low_args (suc fuel) [] args t = refl
kformat_from-low_args (suc fuel) (c ∷ f) args t = elim (Bool-cases (c == 0)) [
  | inl end_of_format ↦ rw end_of_format refl
  | inr go ↦ elim (Bool-cases (not (c == b'%'))) [
    | inl plain ↦ rw (go, plain) (kformat_from-low_args fuel f args (put_char c t))
    | inr percent ↦
        rw (go, percent)
          (ap
              (λ (o : Outcome (CString × Terminal × List Arg)).
                o >>= λ r. kformat_from fuel r.0 r.2 r.1)
              (kdirective-low_args f args t)
            ∙ after (kdirective f args t) (kformat_from-low_args fuel))
  ]
]
  where
    after :
        (o : Outcome (CString × Terminal × List Arg))
        → ((g : CString) (as' : List Arg) (t' : Terminal)
            → kformat_from fuel g (low_args as') t' ≡ kformat_from fuel g as' t')
        → (lowered_rest o >>= λ r. kformat_from fuel r.0 r.2 r.1)
          ≡ (o >>= λ r. kformat_from fuel r.0 r.2 r.1)
    after (done r) ih = ih r.0 r.2 r.1
    after fault ih = refl
    after stuck ih = refl

-- kprintf prints every word, a long and a pointer too, as if only its lower 32 bits were there.
pub kprintf-low_args :
    (ready : Bool) (format : CString) (args : List Arg)
    → kprintf ready format (low_args args) ≡ kprintf ready format args
unfolding kprintf
kprintf-low_args false format args = refl
kprintf-low_args true format args =
    ap (λ o. o >>= λ t. done (t.output, pos t.chars_written))
      (kformat_from-low_args (length format + 1) format args
        (record { output = []; chars_written = 0 }))
