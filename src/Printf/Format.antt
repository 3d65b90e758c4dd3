-- ===== src/Printf/Format.antt =====
-- kernel/main/util/print/kprintf.c: the text of a format, and what vsnprintf keeps of it.
use osfix_operating_system.Base.{
  ℕ, zero, suc, ◌+◌, ◌-◌, ◌*◌, ◌%◌, ◌^◌, ◌≤◌, ◌<◌, ◌≡◌, ◌≢◌, refl, sym, ap, subst, ◌∙◌, true, false,
  not, ◌&&◌, ◌||◌, List, [], ◌∷◌, ◌++◌, ltb, leb, ◌==◌, if◌then◌else◌, length, take, min, arith,
  append-nil, append_assoc, Bool-cases, inl, inr, length-take,
}
use osfix_operating_system.Text.{CString, first, rest}
use osfix_operating_system.Printf.{
  Outcome, done, fault, stuck, ◌>>=◌, Flags, no_flags, Arg, word, text, next_word, to_width, Length,
  Sink, Action, Directive, print_char, print_chars, perform, parse_flags, parse_number, parse_width,
  parse_precision, parse_length, letter_of, action_of, directive, format_from, finish, vsnprintf,
  is_flag, add_flag,
}
use osfix_operating_system.Printf.Emit.{
  action_text, perform-chars, print_chars-append, print_chars-full,
}

abbrev pub prepend : List ℕ → Outcome (List ℕ) → Outcome (List ℕ)
prepend xs o = o >>= λ t. done (xs ++ t)

-- The whole text of a format and its arguments, as if there were room for all of it.
unfoldable pub formatted : (fuel : ℕ) → CString → List Arg → Outcome (List ℕ)
formatted zero f args = stuck
formatted (suc fuel) [] args = fault
formatted (suc fuel) (c ∷ f) args =
    let plain = prepend (c ∷ []) (formatted fuel f args) in
    let later = directive f args >>= λ d.
    prepend (action_text d.action d.width d.flags) (formatted fuel d.format d.args) in
    if c == 0 then done [] else if not (c == b'%') then plain else later

prepend-chars :
    (xs : List ℕ) (o : Outcome (List ℕ)) (s : Sink)
    → (prepend xs o >>= λ t. done (print_chars t s))
      ≡ (o >>= λ t. done (print_chars t (print_chars xs s)))
prepend-chars xs (done t) s = ap done (print_chars-append xs t s)
prepend-chars xs fault s = refl
prepend-chars xs stuck s = refl

format_from-formatted :
    (fuel : ℕ) (f : CString) (args : List Arg) (s : Sink)
    → format_from fuel f args s ≡ (formatted fuel f args >>= λ t. done (print_chars t s))
unfolding format_from formatted
format_from-formatted zero f args s = refl
format_from-formatted (suc fuel) [] args s = refl
format_from-formatted (suc fuel) (c ∷ f) args s = elim (Bool-cases (c == 0)) [
  | inl end_of_format ↦ rw end_of_format refl
  | inr go ↦ elim (Bool-cases (not (c == b'%'))) [
    | inl plain ↦
        rw (go, plain)
          (format_from-formatted fuel f args (print_char c s)
            ∙ sym (prepend-chars (c ∷ []) (formatted fuel f args) s))
    | inr percent ↦
        rw (go, percent)
          (after (directive f args) (λ d. format_from-formatted fuel d.format d.args))
  ]
]
  where
    after :
        (o : Outcome Directive)
        → ((d : Directive) (s : Sink)
            → format_from fuel d.format d.args s
              ≡ (formatted fuel d.format d.args >>= λ t. done (print_chars t s)))
        → (o >>= λ d. format_from fuel d.format d.args (perform d.action d.width d.flags s)) ≡ (
            (o >>= λ d.
            prepend (action_text d.action d.width d.flags) (formatted fuel d.format d.args))
            >>= λ t. done (print_chars t s))
    after (done d) ih =
        ih d (perform d.action d.width d.flags s)
        ∙ ap (λ s'. formatted fuel d.format d.args >>= λ t. done (print_chars t s'))
            (perform-chars d.action d.width d.flags s)
        ∙ sym (
            prepend-chars (action_text d.action d.width d.flags) (formatted fuel d.format d.args) s)
    after fault ih = refl
    after stuck ih = refl

-- With room left, printing keeps a first part of the text, and room for the terminator.
print_chars-written :
    (cs : List ℕ) (s : Sink)
    → s.null ≡ false
    → 0 < s.remaining
    → ((print_chars cs s).written ≡ s.written ++ take (s.remaining - 1) cs)
      × (0 < (print_chars cs s).remaining)
unfolding print_char
print_chars-written [] s open_ room = (take_none (s.remaining - 1), room)
  where
    take_none : (n : ℕ) → s.written ≡ s.written ++ take n []
    take_none zero = sym (append-nil s.written)
    take_none (suc n) = sym (append-nil s.written)
print_chars-written (c ∷ cs) s open_ room = elim (Bool-cases (leb s.remaining 1)) [
  | inl full ↦
      let same : print_chars (c ∷ cs) s ≡ s = print_chars-full (c ∷ cs) s (ground (arith, full)) in
      let none_left : s.remaining - 1 ≡ 0 = ground (arith, full) in
      rw (same, none_left) (sym (append-nil s.written), room)
  | inr more ↦
      let next : Sink = record s { written = s.written ++ (c ∷ []); remaining = s.remaining - 1 } in
      let stored : print_char c s ≡ next = simp (open_, more) refl in
      let later = print_chars-written cs next open_ (ground (arith, more)) in
      let one : s.remaining - 1 ≡ suc (s.remaining - 1 - 1) = ground (arith, more) in
      (
        ap (λ s'. (print_chars cs s').written) stored
            ∙ later.0
            ∙ append_assoc s.written (c ∷ []) (take (s.remaining - 1 - 1) cs)
            ∙ ap (λ n. s.written ++ take n (c ∷ cs)) (sym one),
        subst (λ s'. 0 < (print_chars cs s').remaining) (sym stored) later.1,
      )
]

-- If the buffer is there and not empty, vsnprintf stores the text of the format, cut to one byte
-- less than the size, and its terminator, and returns the length of what it stored; a format that
-- reads too far gives a fault in both.
pub vsnprintf-formatted :
    (str size : ℕ) (f : CString) (args : List Arg)
    → str ≢ 0
    → 0 < size
    → vsnprintf str size f args ≡ (
        formatted (length f + 1) f args >>= λ t. done (record {
          stored = take (size - 1) t ++ (0 ∷ []);
          result = min (size - 1) (length t) % 2 ^ 32;
        }))
unfolding vsnprintf
vsnprintf-formatted str size f args there room =
    let given : (str == 0 || size == 0) ≡ false = ground (arith, there) in
    rw (given, vsnprintf)
      (ap (λ o. o >>= λ s. done (finish size s)) (format_from-formatted (length f + 1) f args empty)
        ∙ kept (formatted (length f + 1) f args))
  where
    empty : Sink
    empty = record { written = []; remaining = size; null = false }

    kept :
        (o : Outcome (List ℕ))
        → ((o >>= λ t. done (print_chars t empty)) >>= λ s. done (finish size s)) ≡ (
            o >>= λ t. done (record {
              stored = take (size - 1) t ++ (0 ∷ []);
              result = min (size - 1) (length t) % 2 ^ 32;
            }))
    kept (done t) =
        let w = print_chars-written t empty refl room in
        let left : ltb 0 (print_chars t empty).remaining ≡ true = ground (arith, w.1) in
        rw (left, w.0, length-take (size - 1) t) refl
    kept fault = refl
    kept stuck = refl

-- The format that a conversion leaves is shorter.
abbrev Shortens : (n : ℕ) → Outcome Directive → Type 0
Shortens n (done d) = length d.format < n
Shortens n fault = Unit {0}
Shortens n stuck = ⊥

parse_flags-length : (flags : Flags) (f : CString) → length (parse_flags flags f).1 ≤ length f
unfolding parse_flags
parse_flags-length flags [] = omega arith
parse_flags-length flags (c ∷ f) = elim (Bool-cases (is_flag c)) [
  | inl flag ↦ rw flag (omega (arith, parse_flags-length (add_flag c flags) f))
  | inr other ↦ rw other (omega arith)
]

parse_number-length : (n : ℕ) (f : CString) → length (parse_number n f).1 ≤ length f
unfolding parse_number
parse_number-length n [] = omega arith
parse_number-length n (c ∷ f) = elim (Bool-cases (leb b'0' c && leb c b'9')) [
  | inl digit ↦ rw digit (omega (arith, parse_number-length (n * 10 + (c - b'0')) f))
  | inr other ↦ rw other (omega arith)
]

rest-length : (f : CString) → length (rest f) ≤ length f
rest-length [] = omega arith
rest-length (c ∷ f) = omega arith

parse_length-length : (f : CString) → length (parse_length f).1 ≤ length f
unfolding parse_length
parse_length-length f = ground (arith, rest-length f, rest-length (rest f))

action_of-ne-stuck :
    (flags : Flags) (length : Length) (c : ℕ) (args : List Arg)
    → action_of flags length c args ≢ stuck
unfolding action_of
action_of-ne-stuck flags length c [] e = ground (arith, e)
action_of-ne-stuck flags length c (word w ∷ args) e = ground (arith, e)
action_of-ne-stuck flags length c (text t ∷ args) e = ground (arith, e)

letter_of-Shortens :
    (width : ℕ) (flags : Flags) (l : Length) (f : CString) (args : List Arg) (n : ℕ)
    → length f ≤ n
    → Shortens n (letter_of width flags l f args)
letter_of-Shortens width flags l [] args n h = tt
letter_of-Shortens width flags l (c ∷ f) args n h =
    go (action_of flags l c args) (action_of-ne-stuck flags l c args)
  where
    go :
        (o : Outcome (Action × List Arg))
        → o ≢ stuck
        → Shortens n (
            o >>= λ r.
            done (record { action = r.0; width = width; flags = flags; format = f; args = r.1 }))
    go (done r) ne = omega arith
    go fault ne = tt
    go stuck ne = ne refl

abbrev Keeps : (n : ℕ) → Outcome (ℕ × CString × List Arg) → Type 0
Keeps n (done r) = length r.1 ≤ n
Keeps n fault = Unit {0}
Keeps n stuck = ⊥

parse_width-Keeps : (f : CString) (args : List Arg) → Keeps (length f) (parse_width f args)
unfolding parse_width
parse_width-Keeps f args = elim (Bool-cases (first f == b'*')) [
  | inl star ↦ rw star (go args)
  | inr number ↦ rw number (parse_number-length 0 f)
]
  where
    go :
        (args : List Arg)
        → Keeps (length f) (next_word args >>= λ r. done (to_width r.0, rest f, r.1))
    go [] = tt
    go (word w ∷ args) = rest-length f
    go (text t ∷ args) = tt

abbrev KeepsFormat : (n : ℕ) → Outcome (CString × List Arg) → Type 0
KeepsFormat n (done r) = length r.0 ≤ n
KeepsFormat n fault = Unit {0}
KeepsFormat n stuck = ⊥

parse_precision-Keeps :
    (f : CString) (args : List Arg) → KeepsFormat (length f) (parse_precision f args)
unfolding parse_precision
parse_precision-Keeps f args = elim (Bool-cases (not (first f == b'.'))) [
  | inl no_dot ↦ rw no_dot (omega arith)
  | inr dot ↦ elim (Bool-cases (first (rest f) == b'*')) [
    | inl star ↦ rw (dot, star) (go args)
    | inr number ↦ rw (dot, number) (omega (arith, parse_number-length 0 (rest f), rest-length f))
  ]
]
  where
    go :
        (args : List Arg)
        → KeepsFormat (length f) (next_word args >>= λ r. done (rest (rest f), r.1))
    go [] = tt
    go (word w ∷ args) = omega (arith, rest-length (rest f), rest-length f)
    go (text t ∷ args) = tt

directive-Shortens : (f : CString) (args : List Arg) → Shortens (suc (length f)) (directive f args)
unfolding directive
directive-Shortens f args =
    let flags = parse_flags no_flags f in
    width flags.0 flags.1 (parse_flags-length no_flags f) (parse_width flags.1 args)
      (parse_width-Keeps flags.1 args)
  where
    letter :
        (w : ℕ) (flags : Flags) (g : CString) (o : Outcome (CString × List Arg))
        → length g ≤ length f
        → KeepsFormat (length g) o
        → Shortens
            (suc (length f))
            (o >>= λ p. (let l = parse_length p.0 in letter_of w flags l.0 l.1 p.1))
    letter w flags g (done p) h k =
        letter_of-Shortens w flags (parse_length p.0).0 (parse_length p.0).1 p.1 (suc (length f))
          (omega (arith, parse_length-length p.0))
    letter w flags g fault h k = tt
    letter w flags g stuck h k = absurd k

    width :
        (flags : Flags) (g : CString)
        → length g ≤ length f
        → (o : Outcome (ℕ × CString × List Arg)) → Keeps (length g) o
        → Shortens (suc (length f)) (
            o >>= λ w.
            (parse_precision w.1 w.2 >>= λ p.
            (let l = parse_length p.0 in letter_of w.0 flags l.0 l.1 p.1)))
    width flags g h (done w) k =
        letter w.0 flags w.1 (parse_precision w.1 w.2) (omega arith) (parse_precision-Keeps w.1 w.2)
    width flags g h fault k = tt
    width flags g h stuck k = absurd k

prepend-ne-stuck : (xs : List ℕ) (o : Outcome (List ℕ)) → o ≢ stuck → prepend xs o ≢ stuck
prepend-ne-stuck xs (done t) ne = λ e. cc
prepend-ne-stuck xs fault ne = λ e. cc
prepend-ne-stuck xs stuck ne = λ e. ne refl

formatted-ne-stuck :
    (fuel : ℕ) (f : CString) (args : List Arg) → length f < fuel → formatted fuel f args ≢ stuck
unfolding formatted
formatted-ne-stuck zero f args h = absurd (omega arith)
formatted-ne-stuck (suc fuel) [] args h = λ e. cc
formatted-ne-stuck (suc fuel) (c ∷ f) args h = elim (Bool-cases (c == 0)) [
  | inl end_of_format ↦ rw end_of_format (λ e. cc)
  | inr go ↦ elim (Bool-cases (not (c == b'%'))) [
    | inl plain ↦
        rw (go, plain)
          (prepend-ne-stuck (c ∷ []) (formatted fuel f args)
            (formatted-ne-stuck fuel f args (omega arith)))
    | inr percent ↦
        rw (go, percent)
          (after (directive f args) (directive-Shortens f args)
            (λ d shorter. formatted-ne-stuck fuel d.format d.args (omega arith)))
  ]
]
  where
    after :
        (o : Outcome Directive)
        → Shortens (suc (length f)) o
        → ((d : Directive)
            → length d.format < suc (length f)
            → formatted fuel d.format d.args ≢ stuck)
        → (o >>= λ d.
            prepend (action_text d.action d.width d.flags) (formatted fuel d.format d.args))
          ≢ stuck
    after (done d) shorter ih =
        prepend-ne-stuck (action_text d.action d.width d.flags) (formatted fuel d.format d.args)
          (ih d shorter)
    after fault shorter ih = λ e. cc
    after stuck shorter ih = absurd shorter

done-ne-stuck :
    {A B : Type 0} (o : Outcome A) (k : A → B) → o ≢ stuck → (o >>= λ a. done (k a)) ≢ stuck
done-ne-stuck (done a) k ne = λ e. cc
done-ne-stuck fault k ne = λ e. cc
done-ne-stuck stuck k ne = λ e. ne refl

format_from-ne-stuck :
    (f : CString) (args : List Arg) (s : Sink) → format_from (length f + 1) f args s ≢ stuck
format_from-ne-stuck f args s = rw (format_from-formatted (length f + 1) f args s) (
    done-ne-stuck (formatted (length f + 1) f args) (λ t. print_chars t s)
      (formatted-ne-stuck (length f + 1) f args (omega arith)))

-- vsnprintf ends: the rounds of its loop, one more than the format has bytes, are enough.
pub vsnprintf-ne-stuck :
    (str size : ℕ) (f : CString) (args : List Arg) → vsnprintf str size f args ≢ stuck
unfolding vsnprintf
vsnprintf-ne-stuck str size f args = elim (Bool-cases (str == 0 || size == 0)) [
  | inl missing ↦ rw missing (done-ne-stuck _ _ (format_from-ne-stuck f args _))
  | inr given ↦ rw given (done-ne-stuck _ _ (format_from-ne-stuck f args _))
]

-- Text with neither a terminator nor a conversion.
abbrev pub IsPlain : List ℕ → Type 0
IsPlain [] = Unit
IsPlain (c ∷ cs) = (c ≢ 0) × (c ≢ b'%') × IsPlain cs

past_end :
    (plain : List ℕ) (n fuel : ℕ) (behind : CString) (args : List Arg) (s : Sink)
    → IsPlain plain
    → n ≡ length plain + suc fuel
    → format_from n (plain ++ (b'%' ∷ 0 ∷ behind)) args s
      ≡ format_from fuel behind args (print_chars (plain ++ (b'%' ∷ 0 ∷ [])) s)
unfolding format_from directive parse_flags parse_width parse_number parse_precision parse_length
    action_of perform
past_end plain zero fuel behind args s is_plain enough = absurd (omega (arith, enough))
past_end [] (suc n) fuel behind args s is_plain enough =
    let same : n ≡ fuel = omega (arith, enough) in
    ap (λ k. format_from k behind args (print_char 0 (print_char b'%' s))) same
past_end (c ∷ plain) (suc n) fuel behind args s (no_end, no_percent, is_plain) enough =
    let go : (c == 0) ≡ false = ground (arith, no_end) in
    let text : (c == b'%') ≡ false = ground (arith, no_percent) in
    rw (go, text)
      (past_end plain n fuel behind args (print_char c s) is_plain (omega (arith, enough)))

-- A format of plain text with a `%` at its end: the terminator is taken for the letter of a
-- conversion. The text, `%` and the terminator are printed, and the loop goes on with the bytes that
-- stand in memory behind the format.
pub format_from_past-end :
    (plain : List ℕ) (fuel : ℕ) (behind : CString) (args : List Arg) (s : Sink)
    → IsPlain plain
    → format_from (length plain + suc fuel) (plain ++ (b'%' ∷ 0 ∷ behind)) args s
      ≡ format_from fuel behind args (print_chars (plain ++ (b'%' ∷ 0 ∷ [])) s)
format_from_past-end plain fuel behind args s is_plain =
    past_end plain (length plain + suc fuel) fuel behind args s is_plain refl
