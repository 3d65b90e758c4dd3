-- ===== src/Printf/Digits.antt =====
-- kernel/main/util/print/kprintf.c: the decimal numbers that vsnprintf prints, read again by atol of
-- kernel/main/util/util.c.
use native.Mathlib.Nat.{two-pow-succ}
use mathlib.Core.List.{reverse, reverse_aux}
use osfix_operating_system.Base.{
  ◌||◌, append-nil, append_assoc, length-append, length-replicate, if◌then◌else◌, ℕ, zero, suc, ◌+◌,
  ◌-◌, ◌/◌, ◌%◌, ◌^◌, ◌≤◌, ◌<◌, ◌≡◌, ◌≢◌, refl, sym, ap, ◌∙◌, true, false, List, [], ◌∷◌, ◌++◌, leb,
  ◌==◌, length, replicate, sub64, arith, Bool-cases, ==_iff, inl, inr,
}
use osfix_operating_system.Text.{CString, char_at}
use osfix_operating_system.Convert.{atol, read_signed, read_digits, skip_blanks}
use osfix_operating_system.Convert.Decimal.{
  Writes, AllDigits, high_value, Wraps-64, read_digits-value, read_signed-value, shown,
  shown-AllDigits, shown-value,
}
use osfix_operating_system.Printf.{
  Sink, print_char, print_chars, print_int, Flags, digits, digits_from, buffer,
}
use osfix_operating_system.Printf.Emit.{unsigned_text, int_text, print_int-chars}

-- The table of digits holds those of the numbers below 10.
digits_lem : (d : ℕ) → d < 10 → char_at digits d ≡ d + b'0'
digits_lem zero h = refl
digits_lem (suc zero) h = refl
digits_lem (suc (suc zero)) h = refl
digits_lem (suc (suc (suc zero))) h = refl
digits_lem (suc (suc (suc (suc zero)))) h = refl
digits_lem (suc (suc (suc (suc (suc zero))))) h = refl
digits_lem (suc (suc (suc (suc (suc (suc zero)))))) h = refl
digits_lem (suc (suc (suc (suc (suc (suc (suc zero))))))) h = refl
digits_lem (suc (suc (suc (suc (suc (suc (suc (suc zero)))))))) h = refl
digits_lem (suc (suc (suc (suc (suc (suc (suc (suc (suc zero))))))))) h = refl
digits_lem (suc (suc (suc (suc (suc (suc (suc (suc (suc (suc d)))))))))) h = absurd (omega arith)

digits_from-Writes : (fuel n : ℕ) → n < 2 ^ fuel → Writes n (digits_from fuel digits n 10)
unfolding digits_from
digits_from-Writes zero n small = record { digits = tt; value = omega arith }
digits_from-Writes (suc fuel) n small = elim (Bool-cases (n == 0)) [
  | inl none_left ↦ rw none_left (record { digits = tt; value = ground (arith, none_left) })
  | inr more ↦
      let later = digits_from-Writes fuel (n / 10) (omega (arith, small, two-pow-succ fuel)) in
      rw (more, digits_lem (n % 10) (omega arith))
        (record { digits = (ground arith, later.digits); value = ground (arith, later.value) })
]

buffer-Writes : (n : ℕ) → n < 2 ^ 64 → Writes n (buffer digits n 10)
unfolding buffer
buffer-Writes n small = elim (Bool-cases (n == 0)) [
  | inl nothing ↦ rw nothing (record { digits = (refl, tt); value = sym ((==_iff n 0).0 nothing) })
  | inr more ↦ rw more (digits_from-Writes 64 n small)
]

snoc-ne-nil : (xs : List ℕ) (x : ℕ) → xs ++ (x ∷ []) ≢ []
snoc-ne-nil [] x e = cc
snoc-ne-nil (y ∷ xs) x e = cc

-- Numbers that are filled up with zeros on the left.
module _ (flags : Flags) (left : flags.left_just ≡ false) (zeros : flags.zero_pad ≡ true)
    (n width : ℕ) (small : n < 2 ^ 64) where
  abbrev missing : ℕ
  missing = width - length (buffer digits n 10)

  abbrev number : List ℕ
  number = shown n missing (buffer digits n 10) (buffer-Writes n small)

  unsigned_text-shown : unsigned_text digits n 10 width flags ≡ number
  unfolding unsigned_text
  unsigned_text-shown = simp (left, zeros) refl

  number-AllDigits : AllDigits number
  number-AllDigits = shown-AllDigits n missing (buffer digits n 10) (buffer-Writes n small)

  number-value : high_value 0 number ≡ n
  number-value = shown-value n missing (buffer digits n 10) (buffer-Writes n small)

  number-ne-nil : number ≢ []
  unfolding buffer
  number-ne-nil e = elim (Bool-cases (n == 0)) [
    | inl nothing ↦
        let zero_only : replicate missing b'0' ++ (b'0' ∷ []) ≡ number = rw nothing refl in
        snoc-ne-nil (replicate missing b'0') b'0' (zero_only ∙ e)
    | inr more ↦
        let nothing : 0 ≡ n = sym (ap (high_value 0) e) ∙ number-value in
        absurd (ground (arith, more, nothing))
  ]

  -- A number without a sign is read back, and so is one behind a minus.
  read_plain :
      read_signed (2 ^ 64) (skip_blanks (unsigned_text digits n 10 width flags ++ (0 ∷ []))) ≡ n
  read_plain =
      ap (λ t. read_signed (2 ^ 64) (skip_blanks (t ++ (0 ∷ [])))) unsigned_text-shown
      ∙ read_signed-value (2 ^ 64) number (0 ∷ []) Wraps-64 refl number-AllDigits number-ne-nil refl
      ∙ ap (λ v. v % 2 ^ 64) number-value
      ∙ omega arith

  read_behind_sign : read_digits (2 ^ 64) 0 (unsigned_text digits n 10 width flags ++ (0 ∷ [])) ≡ n
  read_behind_sign =
      ap (λ t. read_digits (2 ^ 64) 0 (t ++ (0 ∷ []))) unsigned_text-shown
      ∙ read_digits-value (2 ^ 64) number (0 ∷ []) Wraps-64 refl number-AllDigits refl
      ∙ ap (λ v. v % 2 ^ 64) number-value
      ∙ omega arith

atol-int_text :
    (flags : Flags) (n width : ℕ)
    → flags.left_just ≡ false
    → flags.zero_pad ≡ true
    → n < 2 ^ 64
    → atol (int_text n 10 width flags ++ (0 ∷ [])) ≡ n
unfolding int_text atol read_signed skip_blanks
atol-int_text flags n width left zeros small = elim (Bool-cases (leb (2 ^ 63) n)) [
  | inl minus ↦ simp minus (
      ap (λ v. (2 ^ 64 - v) % 2 ^ 64)
        (read_behind_sign flags left zeros (sub64 0 n) (width - 1) (omega arith))
      ∙ ground (arith, minus))
  | inr natural ↦ elim (Bool-cases flags.sign_plus) [
    | inl plus ↦ simp (natural, plus) (read_behind_sign flags left zeros n (width - 1) small)
    | inr no_plus ↦ elim (Bool-cases flags.sign_space) [
      | inl space ↦ simp (natural, no_plus, space) (read_plain flags left zeros n (width - 1) small)
      | inr no_space ↦ simp (natural, no_plus, no_space) (read_plain flags left zeros n width small)
    ]
  ]
]

-- With room for all of them, the characters stand behind what was printed before.
print_chars-room :
    (cs : List ℕ) (s : Sink)
    → s.null ≡ false
    → length cs < s.remaining
    → (print_chars cs s).written ≡ s.written ++ cs
unfolding print_char
print_chars-room [] s there room = sym (append-nil s.written)
print_chars-room (c ∷ cs) s there room =
    let some_room : leb s.remaining 1 ≡ false = ground (arith, room) in
    let open_sink : (s.null || leb s.remaining 1) ≡ false = simp (there, some_room) refl in
    let next : Sink = record s { written = s.written ++ (c ∷ []); remaining = s.remaining - 1 } in
    let step : print_char c s ≡ next = rw (open_sink, print_char) refl in
    ap (λ t. (print_chars cs t).written) step
    ∙ print_chars-room cs next there (omega (arith, room))
    ∙ append_assoc s.written (c ∷ []) cs

length-digits_from :
    (fuel n : ℕ) (table : CString) (base : ℕ) → length (digits_from fuel table n base) ≤ fuel
unfolding digits_from
length-digits_from zero n table base = omega arith
length-digits_from (suc fuel) n table base =
    ground (arith, length-digits_from fuel (n / base) table base)

length-buffer : (n : ℕ) → length (buffer digits n 10) ≤ 64
unfolding buffer
length-buffer n = ground (arith, length-digits_from 64 n digits 10)

length-reverse_aux : (l r : List ℕ) → length (reverse_aux l r) ≡ length l + length r
length-reverse_aux [] r = omega arith
length-reverse_aux (x ∷ l) r = omega (arith, length-reverse_aux l (x ∷ r))

length-unsigned_text :
    (n width : ℕ) (flags : Flags)
    → flags.left_just ≡ false
    → length (unsigned_text digits n 10 width flags) ≤ width + 64
unfolding unsigned_text
length-unsigned_text n width flags left =
    let c = if flags.zero_pad then b'0' else b' ' in
    let missing = width - length (buffer digits n 10) in
    let parts : length (replicate missing c ++ reverse (buffer digits n 10))
        ≡ missing + length (buffer digits n 10) =
      omega (
        arith,
        length-append (replicate missing c) (reverse (buffer digits n 10)),
        length-replicate {A = ℕ} missing c,
        length-reverse_aux (buffer digits n 10) [],
      ) in
    simp left (omega (arith, parts, length-buffer n))

length-int_text :
    (n width : ℕ) (flags : Flags)
    → flags.left_just ≡ false
    → length (int_text n 10 width flags) ≤ width + 65
unfolding int_text
length-int_text n width flags left = ground (
  arith,
  length-unsigned_text (sub64 0 n) (width - 1) flags left,
  length-unsigned_text n (width - 1) flags left,
  length-unsigned_text n width flags left,
)

-- A long that print_int prints in decimal into an empty buffer with room for 66 characters more than
-- the width, with the flag `0` and without `-`, is read back by atol, whatever the width and the
-- flags for the sign.
pub atol-print_int :
    (flags : Flags) (n width : ℕ) (s : Sink)
    → flags.left_just ≡ false
    → flags.zero_pad ≡ true
    → n < 2 ^ 64
    → s.written ≡ []
    → s.null ≡ false
    → width + 66 ≤ s.remaining
    → atol ((print_int n 10 width flags s).written ++ (0 ∷ [])) ≡ n
atol-print_int flags n width s left zeros small empty there room =
    let printed : (print_int n 10 width flags s).written ≡ int_text n 10 width flags =
      ap (λ t. t.written) (print_int-chars n 10 width flags s)
      ∙ print_chars-room (int_text n 10 width flags) s there
          (omega (arith, length-int_text n width flags left, room))
      ∙ ap (λ w. w ++ int_text n 10 width flags) empty in
    ap (λ t. atol (t ++ (0 ∷ []))) printed ∙ atol-int_text flags n width left zeros small

filled_text :
    (flags : Flags) (n width : ℕ)
    → flags.left_just ≡ false
    → flags.zero_pad ≡ false
    → unsigned_text digits n 10 width flags
      ≡ replicate (width - length (buffer digits n 10)) b' ' ++ reverse (buffer digits n 10)
unfolding unsigned_text
filled_text flags n width left blanks = simp (left, blanks) refl

-- A negative long that is filled up with blanks on the left: the sign stands before the blanks,
-- and atol reads 0.
int_text-misread :
    (flags : Flags) (n width : ℕ)
    → flags.left_just ≡ false
    → flags.zero_pad ≡ false
    → 2 ^ 63 ≤ n
    → n < 2 ^ 64
    → length (buffer digits (2 ^ 64 - n) 10) + 1 < width
    → atol (int_text n 10 width flags ++ (0 ∷ [])) ≡ 0
unfolding int_text atol read_signed skip_blanks
int_text-misread flags n width left blanks negative small wide =
    let minus : leb (2 ^ 63) n ≡ true = ground arith in
    let m = sub64 0 n in
    let same : sub64 0 n ≡ 2 ^ 64 - n = omega arith in
    let k = width - 1 - length (buffer digits m 10) - 1 in
    let some_blanks : width - 1 - length (buffer digits m 10) ≡ suc k =
      omega (arith, wide, ap (λ v. length (buffer digits v 10)) same) in
    simp minus (
      ap (λ t. (2 ^ 64 - read_digits (2 ^ 64) 0 (t ++ (0 ∷ []))) % 2 ^ 64)
        (filled_text flags m (width - 1) left blanks
          ∙ ap (λ missing. replicate missing b' ' ++ reverse (buffer digits m 10)) some_blanks)
      ∙ nothing_read (replicate k b' ' ++ reverse (buffer digits m 10)))
  where
    nothing_read :
        (t : List ℕ) → (2 ^ 64 - read_digits (2 ^ 64) 0 ((b' ' ∷ t) ++ (0 ∷ []))) % 2 ^ 64 ≡ 0
    nothing_read t = unfold read_digits in refl
