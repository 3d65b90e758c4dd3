-- ===== src/Printf/Emit.antt =====
-- kernel/main/util/print/kprintf.c: what is printed, as a text that does not depend on the room.
use mathlib.Core.List.{reverse}
use osfix_operating_system.Base.{
  ℕ, zero, suc, ◌-◌, ◌^◌, ◌≡◌, refl, sym, ap, ◌∙◌, true, ◌||◌, List, [], ◌∷◌, ◌++◌, leb, ◌==◌,
  if◌then◌else◌, length, replicate, sub64, arith, Bool-cases, inl, inr,
}
use osfix_operating_system.Text.{CString}
use osfix_operating_system.Text.Content.{content}
use osfix_operating_system.Printf.{
  Flags, Sink, Action, chars, string, signed, unsigned, digits, print_char, print_chars,
  print_string, buffer, pad, print_digits, print_unsigned, print_int, perform,
}

-- Without room, or without a buffer, nothing is printed.
pub print_chars-full :
    (cs : List ℕ) (s : Sink) → (s.null || leb s.remaining 1) ≡ true → print_chars cs s ≡ s
unfolding print_char
print_chars-full [] s full = refl
print_chars-full (c ∷ cs) s full = rw (full, print_char) (print_chars-full cs s full)

pub print_chars-append :
    (xs ys : List ℕ) (s : Sink) → print_chars (xs ++ ys) s ≡ print_chars ys (print_chars xs s)
print_chars-append [] ys s = refl
print_chars-append (x ∷ xs) ys s = print_chars-append xs ys (print_char x s)

no_room : (s : Sink) → leb s.remaining 1 ≡ true → (s.null || leb s.remaining 1) ≡ true
no_room s h = ground (arith, h)

print_digits-chars : (cs : List ℕ) (s : Sink) → print_digits cs s ≡ print_chars cs s
unfolding print_digits
print_digits-chars [] s = refl
print_digits-chars (c ∷ cs) s = elim (Bool-cases (leb s.remaining 1)) [
  | inl full ↦ rw full (sym (print_chars-full (c ∷ cs) s (no_room s full)))
  | inr room ↦ rw room (print_digits-chars cs (print_char c s))
]

pad-chars : (n c : ℕ) (s : Sink) → pad n c s ≡ print_chars (replicate n c) s
unfolding pad
pad-chars zero c s = refl
pad-chars (suc n) c s = elim (Bool-cases (leb s.remaining 1)) [
  | inl full ↦ rw full (sym (print_chars-full (replicate (suc n) c) s (no_room s full)))
  | inr room ↦ rw room (pad-chars n c (print_char c s))
]

print_string-chars : (t : CString) (s : Sink) → print_string t s ≡ print_chars (content t) s
unfolding print_string
print_string-chars [] s = refl
print_string-chars (c ∷ t) s = elim (Bool-cases (c == 0)) [
  | inl stop ↦ rw stop refl
  | inr go ↦ elim (Bool-cases (leb s.remaining 1)) [
    | inl full ↦ rw (go, full) (sym (print_chars-full (c ∷ content t) s (no_room s full)))
    | inr room ↦ rw (go, room) (print_string-chars t (print_char c s))
  ]
]

-- The digits of a number, highest first, filled up to the width.
unfoldable pub unsigned_text : CString → (n base width : ℕ) → Flags → List ℕ
unsigned_text table n base width flags =
    let ds = reverse (buffer table n base) in
    let missing = width - length (buffer table n base) in
    if flags.left_just
    then ds ++ replicate missing b' '
    else replicate missing (if flags.zero_pad then b'0' else b' ') ++ ds

-- A signed number: its sign, if one is printed, counts in the width and stands before the filling.
unfoldable pub int_text : (n base width : ℕ) → Flags → List ℕ
int_text n base width flags =
    if leb (2 ^ 63) n
    then b'-' ∷ unsigned_text digits (sub64 0 n) base (width - 1) flags
    else if flags.sign_plus
    then b'+' ∷ unsigned_text digits n base (width - 1) flags
    else if flags.sign_space
    then b' ' ∷ unsigned_text digits n base (width - 1) flags
    else unsigned_text digits n base width flags

unfoldable pub action_text : Action → (width : ℕ) → Flags → List ℕ
action_text (chars cs) width flags = cs
action_text (string t) width flags = content t
action_text (signed n) width flags = int_text n 10 width flags
action_text (unsigned prefix table n base) width flags =
    content prefix ++ unsigned_text table n base width flags

print_unsigned-chars :
    (table : CString) (n base width : ℕ) (flags : Flags) (s : Sink)
    → print_unsigned table n base width flags s
      ≡ print_chars (unsigned_text table n base width flags) s
unfolding print_unsigned unsigned_text
print_unsigned-chars table n base width flags s =
    let ds = reverse (buffer table n base) in
    let missing = width - length (buffer table n base) in
    elim (Bool-cases flags.left_just) [
      | inl left ↦ rw left (
          pad-chars missing b' ' (print_digits ds s)
          ∙ ap (print_chars (replicate missing b' ')) (print_digits-chars ds s)
          ∙ sym (print_chars-append ds (replicate missing b' ') s))
      | inr right ↦
          let c = if flags.zero_pad then b'0' else b' ' in
          rw right (
            print_digits-chars ds (pad missing c s)
            ∙ ap (print_chars ds) (pad-chars missing c s)
            ∙ sym (print_chars-append (replicate missing c) ds s))
    ]

pub print_int-chars :
    (n base width : ℕ) (flags : Flags) (s : Sink)
    → print_int n base width flags s ≡ print_chars (int_text n base width flags) s
unfolding print_int int_text
print_int-chars n base width flags s = elim (Bool-cases (leb (2 ^ 63) n)) [
  | inl minus ↦
      rw minus (print_unsigned-chars digits (sub64 0 n) base (width - 1) flags (print_char b'-' s))
  | inr natural ↦ elim (Bool-cases flags.sign_plus) [
    | inl plus ↦
        simp (natural, plus)
          (print_unsigned-chars digits n base (width - 1) flags (print_char b'+' s))
    | inr no_plus ↦ elim (Bool-cases flags.sign_space) [
      | inl space ↦
          simp (natural, no_plus, space)
            (print_unsigned-chars digits n base (width - 1) flags (print_char b' ' s))
      | inr no_space ↦
          simp (natural, no_plus, no_space) (print_unsigned-chars digits n base width flags s)
    ]
  ]
]

-- Whatever the room, an action prints its text, as far as there is room.
pub perform-chars :
    (a : Action) (width : ℕ) (flags : Flags) (s : Sink)
    → perform a width flags s ≡ print_chars (action_text a width flags) s
unfolding perform action_text
perform-chars (chars cs) width flags s = refl
perform-chars (string t) width flags s = print_string-chars t s
perform-chars (signed n) width flags s = print_int-chars n 10 width flags s
perform-chars (unsigned prefix table n base) width flags s =
    print_unsigned-chars table n base width flags (print_string prefix s)
    ∙ ap (print_chars (unsigned_text table n base width flags)) (print_string-chars prefix s)
    ∙ sym (print_chars-append (content prefix) (unsigned_text table n base width flags) s)
