-- ===== src/Initramfs/Archive.antt =====
-- Archives as a writer makes them: what kernel/main/fsm/initramfs/initramfs-unpacker.c reads from
-- the header, the name and the contents of a member.
use osfix_operating_system.Base.{
  ℕ, ◌+◌, ◌-◌, ◌%◌, ◌^◌, ◌≤◌, ◌<◌, ◌≡◌, refl, sym, ap, ◌∙◌, false, ◌==◌, some, List, [], ◌∷◌, ◌++◌,
  ltb, arith, Bool-cases, inl, inr, drop, length, replicate, add64, length-append, length-replicate,
  drop-append_length, take-append_length, append_assoc, drop-drop,
}
use osfix_operating_system.Text.{CString}
use osfix_operating_system.Text.Content.{content}
use osfix_operating_system.Initramfs.{
  header_size, cpio_magic, trailer, align4, begins_with, read_body, read_entry,
}
use osfix_operating_system.Initramfs.Numbers.{align4_lem, hex8, hex8_to_u32-hex8}

-- A file or directory to be written.
pub record Member : Type 0 where
  pub name : List ℕ
  pub mode : ℕ
  pub contents : List ℕ
  -- the fields that the unpacker does not read
  pub ino : ℕ
  pub nlink : ℕ
  pub mtime : ℕ

abbrev pub IsWritable : Member → Type 0
IsWritable m =
    (length m.name + 1 < 2 ^ 32)
    × (m.mode < 2 ^ 32)
    × (length m.contents < 2 ^ 32)
    × (begins_with m.name trailer ≡ false)

abbrev pub pad : ℕ → ℕ
pad n = (4 - n % 4) % 4

abbrev pub header_bytes : (ino mode nlink mtime filesize namesize : ℕ) → List ℕ
header_bytes ino mode nlink mtime filesize namesize =
    cpio_magic
    ++ (hex8 ino
        ++ (hex8 mode
            ++ (hex8 0
                ++ (hex8 0
                    ++ (hex8 nlink
                        ++ (hex8 mtime
                            ++ (hex8 filesize
                                ++ (hex8 0
                                    ++ (hex8 0
                                        ++ (hex8 0
                                            ++ (hex8 0 ++ (hex8 namesize ++ hex8 0))))))))))))

-- What stands behind a header, and `later` behind it.
abbrev pub body_bytes : Member → List ℕ → List ℕ
body_bytes m later =
    m.name
    ++ (0
        ∷ (replicate (pad (110 + length m.name + 1)) 0
            ++ (m.contents ++ (replicate (pad (length m.contents)) 0 ++ later))))

abbrev pub member_bytes : Member → List ℕ → List ℕ
member_bytes m later =
    header_bytes m.ino m.mode m.nlink m.mtime (length m.contents) (length m.name + 1)
    ++ body_bytes m later

abbrev pub member_size : Member → ℕ
member_size m =
    110
    + length m.name
    + 1
    + pad (110 + length m.name + 1)
    + length m.contents
    + pad (length m.contents)

-- The body of the loop on a well-formed header.
pub read_header :
    (base end ptr ino mode nlink mtime filesize namesize : ℕ) (memory body : CString)
    → drop (ptr - base) memory ≡ header_bytes ino mode nlink mtime filesize namesize ++ body
    → ptr + header_size ≤ end
    → end < 2 ^ 64
    → mode < 2 ^ 32
    → filesize < 2 ^ 32
    → namesize < 2 ^ 32
    → read_entry base end ptr memory
      ≡ read_body base end (ptr + header_size) namesize filesize mode memory
unfolding read_entry begins_with
read_header base end ptr ino mode nlink mtime filesize namesize memory body e fits room m_lt f_lt
      n_lt =
    let e1 : add64 ptr header_size ≡ ptr + header_size = omega arith in
    let e2 : ltb end (ptr + header_size) ≡ false = ground arith in
    rw
      (
        e,
        e1,
        e2,
        hex8_to_u32-hex8 mode _ m_lt,
        hex8_to_u32-hex8 filesize _ f_lt,
        hex8_to_u32-hex8 namesize _ n_lt,
      )
      refl

begins_with-terminated :
    (s r : CString) (literal : List ℕ)
    → content literal ≡ literal
    → begins_with (s ++ (0 ∷ r)) literal ≡ begins_with s literal
unfolding begins_with
begins_with-terminated s r [] h = refl
begins_with-terminated [] r (c ∷ literal) h = ground arith
begins_with-terminated (d ∷ s) r (c ∷ literal) h = elim (Bool-cases (c == 0)) [
  | inl stop ↦ ground arith
  | inr go ↦ ground (arith, begins_with-terminated s r literal)
]

drop-body_bytes :
    (m : Member) (later : List ℕ)
    → drop (length m.name + 1 + pad (110 + length m.name + 1)) (body_bytes m later)
      ≡ m.contents ++ (replicate (pad (length m.contents)) 0 ++ later)
drop-body_bytes m later =
    let k = pad (110 + length m.name + 1) in
    let zeros = replicate k 0 in
    let tail = m.contents ++ (replicate (pad (length m.contents)) 0 ++ later) in
    ap (drop (length m.name + 1 + k)) (sym (append_assoc m.name (0 ∷ zeros) tail))
    ∙ drop-append_length (length m.name + 1 + k) (m.name ++ (0 ∷ zeros)) tail
        (omega (arith, length-append m.name (0 ∷ zeros), length-replicate {A = ℕ} k 0))

-- The rest of the body, on a member whose name and contents lie before the end.
pub read_body-member :
    (base end ptr : ℕ) (memory : CString) (m : Member) (later : List ℕ)
    → drop (ptr + header_size - base) memory ≡ body_bytes m later
    → base ≤ ptr
    → ptr % 4 ≡ 0
    → ptr + member_size m ≤ end
    → end + 4 < 2 ^ 64
    → IsWritable m
    → read_body base end (ptr + header_size) (length m.name + 1) (length m.contents) m.mode memory
      ≡ some (record {
        name = body_bytes m later;
        mode = m.mode;
        filesize = length m.contents;
        file_data = m.contents;
        next = ptr + member_size m;
      })
unfolding read_body
read_body-member base end ptr memory m later e low aligned fits room (n_lt, m_lt, c_lt, not_last) =
    let n = 110 + length m.name + 1 in
    let e1 : add64 (ptr + header_size) (length m.name + 1) ≡ ptr + n = omega arith in
    let e2 : ltb end (ptr + n) ≡ false = ground arith in
    let e3 : begins_with (body_bytes m later) trailer ≡ false =
      begins_with-terminated m.name _ trailer refl ∙ not_last in
    let e4 : align4 (ptr + n) ≡ ptr + n + pad n =
      omega (arith, align4_lem (ptr + n) (omega arith)) in
    let e5 : add64 (ptr + n + pad n) (length m.contents) ≡ ptr + n + pad n + length m.contents =
      omega arith in
    let e6 : ltb end (ptr + n + pad n + length m.contents) ≡ false = ground arith in
    let e7 : align4 (ptr + n + pad n + length m.contents) ≡ ptr + member_size m =
      omega (arith, align4_lem (ptr + n + pad n + length m.contents) (omega arith)) in
    let e8 : (length m.name + 1 == 0) ≡ false = ground arith in
    let e9 : ptr + n + pad n - base ≡ ptr + header_size - base + (length m.name + 1 + pad n) =
      omega arith in
    let e10 : drop (ptr + n + pad n - base) memory
        ≡ m.contents ++ (replicate (pad (length m.contents)) 0 ++ later) =
      ap (λ k. drop k memory) e9
      ∙ (drop-drop (ptr + header_size - base) (length m.name + 1 + pad n) memory
          ∙ (ap (drop (length m.name + 1 + pad n)) e ∙ drop-body_bytes m later)) in
    let e11 =
      take-append_length (length m.contents) m.contents
        (replicate (pad (length m.contents)) 0 ++ later) refl in
    rw (e1, e8, e2, e, e3, e4, e5, e6, e7, e10, e11) refl

pub drop-member_bytes :
    (m : Member) (later : List ℕ) → drop (member_size m) (member_bytes m later) ≡ later
drop-member_bytes m later =
    let k = length m.name + 1 + pad (110 + length m.name + 1) in
    let zeros : List ℕ = replicate (pad (length m.contents)) 0 in
    let j = length m.contents + pad (length m.contents) in
    let e : member_size m ≡ 110 + (k + j) = omega arith in
    ap (λ i. drop i (member_bytes m later)) e
    ∙ (drop-drop 110 (k + j) (member_bytes m later)
        ∙ (drop-drop k j (body_bytes m later)
            ∙ (ap (drop j) (drop-body_bytes m later)
                ∙ (ap (drop j) (sym (append_assoc m.contents zeros later))
                    ∙ drop-append_length j (m.contents ++ zeros) later (
                        omega (
                          arith,
                          length-append m.contents zeros,
                          length-replicate {A = ℕ} (pad (length m.contents)) 0,
                        ))))))
