-- ===== src/Initramfs/Bounds.antt =====
-- kernel/main/fsm/initramfs/initramfs-unpacker.c: how far unpack_cpio reads, and that its loop ends.
use osfix_operating_system.Base.{
  ℕ, zero, suc, ◌+◌, ◌-◌, ◌*◌, ◌%◌, ◌^◌, ◌≤◌, ◌<◌, ◌≡◌, refl, subst, Bool, true, false, not, ◌||◌,
  Option, none, some, List, ◌==◌, ltb, arith, Option-cases, inl, inr, take, drop, add64,
  if◌then◌else◌,
}
use mathlib.Core.Option.{some-injective}
use osfix_operating_system.Text.{CString}
use osfix_operating_system.Vfs.{Mount}
use osfix_operating_system.Initramfs.{
  Entry, header_size, cpio_magic, trailer, hex8_to_u32, align4, begins_with, read_body, read_entry,
  install, unpack_from, unpack_cpio,
}
use osfix_operating_system.Initramfs.Numbers.{align4_lem, hex8_to_u32_lt}

-- An entry that was read from the archive in [base, end) at ptr.
pub record IsRead (base end ptr : ℕ) (memory : CString) (e : Entry) : Type 0 where
  pub forward : ptr + header_size < e.next
  pub near : e.next < end + 4
  pub aligned : e.next % 4 ≡ 0
  -- The bytes to be written, all of them before the archive's end.
  pub start : ℕ
  pub inside : base + start + e.filesize ≤ end
  pub bytes : e.file_data ≡ take e.filesize (drop start memory)

-- A result after a test that would have ended the loop.
passed :
    {A : Type 0} (test : Bool) (o : Option A) (a : A)
    → (if test then none else o) ≡ some a
    → (test ≡ false) × (o ≡ some a)
passed true o a h = ground arith
passed false o a h = (refl, h)

read_body-IsRead :
    (base end ptr namesize filesize mode : ℕ) (memory : CString) (e : Entry)
    → base ≤ ptr
    → ptr + header_size ≤ end
    → end + 2 ^ 33 ≤ 2 ^ 64
    → namesize < 2 ^ 32
    → filesize < 2 ^ 32
    → read_body base end (ptr + header_size) namesize filesize mode memory ≡ some e
    → IsRead base end ptr memory e
unfolding read_body
read_body-IsRead base end ptr namesize filesize mode memory e low high room n_lt f_lt h =
    let after = add64 (ptr + header_size) namesize in
    let start = align4 after in
    let (named, h₁) = passed (namesize == 0 || ltb end after) _ e h in
    let (here, h₂) = passed (begins_with (drop (ptr + header_size - base) memory) trailer) _ e h₁ in
    let (fits, h₃) = passed (ltb end (add64 start filesize)) _ e h₂ in
    let after_le : (after ≤ end) × (ptr + header_size < after) = ground arith in
    let (start_ge, start_lt, _) = align4_lem after (omega (arith, after_le.0)) in
    let stop_le : start + filesize ≤ end = ground (arith, after_le.0) in
    let (next_ge, next_lt, next_eq) = align4_lem (add64 start filesize) (omega arith) in
    subst (IsRead base end ptr memory) (some-injective _ _ h₃) (record {
      forward = omega arith;
      near = omega arith;
      aligned = next_eq;
      start = start - base;
      inside = omega arith;
      bytes = refl;
    })

-- An entry that the loop takes from an archive, which ends at least 2^33 bytes below the end of the
-- addresses, at a place less than 4 bytes past the archive's end, lies in it: the bytes that are to be written are
-- those of the archive, none of them past its end, though the header's sizes are not to be
-- trusted; and the next entry is aligned and begins past this entry's header.
pub read_entry-IsRead :
    (base end ptr : ℕ) (memory : CString) (e : Entry)
    → base ≤ ptr
    → ptr < end + 4
    → end + 2 ^ 33 ≤ 2 ^ 64
    → read_entry base end ptr memory ≡ some e
    → IsRead base end ptr memory e
unfolding read_entry
read_entry-IsRead base end ptr memory e low high room h =
    let header = drop (ptr - base) memory in
    let (fits, h₁) = passed (ltb end (add64 ptr header_size)) _ e h in
    let (magic, h₂) = passed (not (begins_with header cpio_magic)) _ e h₁ in
    let e1 : add64 ptr header_size ≡ ptr + header_size = omega arith in
    let le : ptr + header_size ≤ end = ground arith in
    read_body-IsRead base end ptr (hex8_to_u32 (drop 94 header)) (hex8_to_u32 (drop 54 header))
      (hex8_to_u32 (drop 14 header)) memory e low le room (hex8_to_u32_lt (drop 94 header))
      (hex8_to_u32_lt (drop 54 header))
      (subst
        (λ p.
          read_body base end p (hex8_to_u32 (drop 94 header)) (hex8_to_u32 (drop 54 header))
            (hex8_to_u32 (drop 14 header)) memory
          ≡ some e)
        e1 h₂)

module _ {W : Type 0} (mnt : Option (Mount W)) (stack : List ℕ) where
  unpack_from-returns :
      (fuel base end ptr : ℕ) (memory : CString) (w : W)
      → base ≤ ptr
      → ptr < end + 4
      → end + 2 ^ 33 ≤ 2 ^ 64
      → end + header_size < ptr + header_size * fuel
      → (w' : W) × (unpack_from mnt stack fuel base end ptr memory w ≡ some w')
  unfolding unpack_from
  unpack_from-returns zero base end ptr memory w low high room enough = absurd (omega arith)
  unpack_from-returns (suc fuel) base end ptr memory w low high room enough =
      elim (Option-cases (read_entry base end ptr memory)) [
        | inl stop ↦ rw (stop, unpack_from) (w, refl)
        | inr (e, go) ↦
            let read = read_entry-IsRead base end ptr memory e low high room go in
            rw (go, unpack_from)
              (unpack_from-returns fuel base end e.next memory (install mnt stack e w)
                (omega (arith, read.forward)) read.near room (omega (arith, read.forward)))
      ]

  -- unpack_cpio returns on every memory, well-formed archive or not, if the archive ends at least
  -- 2^33 bytes below the end of the addresses: at 110 bytes for each round the rounds given are
  -- enough.
  pub unpack_cpio-returns :
      (base archive_size : ℕ) (memory : CString) (w : W)
      → base + archive_size + 2 ^ 33 ≤ 2 ^ 64
      → (w' : W) × (unpack_cpio mnt stack base archive_size memory w ≡ some w')
  unfolding unpack_cpio
  unpack_cpio-returns base archive_size memory w room =
      let e : add64 base archive_size ≡ base + archive_size = omega arith in
      unpack_from-returns (archive_size + 2) base (add64 base archive_size) base memory w
        (omega arith) (omega arith) (omega arith) (omega arith)
