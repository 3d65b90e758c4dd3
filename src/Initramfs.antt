-- ===== src/Initramfs.antt =====
-- kernel/main/fsm/initramfs/initramfs-unpacker.c: the cpio archive ("newc") that the boot loader
-- leaves in memory, unpacked into a mount. A pointer is a 64-bit address; the bytes from `base` on
-- are a string, which reads as 0 past its end.
pub mod Numbers
pub mod Bounds
pub mod Archive
pub mod Placed
pub mod Unpack
mod Tests
use osfix_operating_system.Base.{
  ℕ, zero, suc, ◌+◌, ◌-◌, ◌*◌, ◌/◌, ◌%◌, ◌^◌, Bool, true, false, not, ◌&&◌, ◌||◌, Option, none,
  some, List, [], ◌∷◌, ltb, leb, ◌==◌, if◌then◌else◌, set, take, drop, add64,
}
use osfix_operating_system.Text.{CString, first, rest, char_at}
use osfix_operating_system.Vfs.{Mount}
use osfix_operating_system.Vfs.Calls.{vfs_create, vfs_mkdir, vfs_write}
use osfix_operating_system.RamFs.{copy_name}

-- sizeof(struct cpio_newc_header)
abbrev pub header_size : ℕ
header_size = 110

-- CPIO_MAGIC
abbrev pub cpio_magic : List ℕ
cpio_magic = b'0' ∷ b'7' ∷ b'0' ∷ b'7' ∷ b'0' ∷ b'1' ∷ []

-- "TRAILER!!!"
abbrev pub trailer : List ℕ
trailer = b'T' ∷ b'R' ∷ b'A' ∷ b'I' ∷ b'L' ∷ b'E' ∷ b'R' ∷ b'!' ∷ b'!' ∷ b'!' ∷ []

-- The digit `c` is put into the low four bits of `v`, which are 0; another character leaves them.
unfoldable pub hex_digit : (c v : ℕ) → ℕ
hex_digit c v =
    if leb b'0' c && leb c b'9'
    then v + (c - b'0')
    else if leb b'a' c && leb c b'f'
    then v + (c - b'a' + 10)
    else if leb b'A' c && leb c b'F'
    then v + (c - b'A' + 10)
    else v

unfoldable pub hex_from : (rounds : ℕ) → CString → (v : ℕ) → ℕ
hex_from zero s v = v
hex_from (suc rounds) s v = hex_from rounds (rest s) (hex_digit (first s) ((v * 16) % 2 ^ 32))

unfoldable pub hex8_to_u32 : CString → ℕ
hex8_to_u32 s = hex_from 8 s 0

-- (p + 3) & ~3
unfoldable pub align4 : ℕ → ℕ
align4 p = (add64 p 3 / 4) * 4

unfoldable pub skip_slashes : CString → CString
skip_slashes [] = []
skip_slashes (c ∷ s) = let later = skip_slashes s in if c == b'/' then later else c ∷ s

-- `dst` is the buffer with what the stack held before; its length is dstsz. The copying loop is
-- that of normalize_ramfs_path.
unfoldable pub normalize_path : (src : CString) → (dst : List ℕ) → List ℕ
normalize_path src dst =
    let copied = copy_name (skip_slashes src) dst in
    if first copied == 0 then set (set copied 0 b'.') 1 0 else copied

-- memcmp(s, literal, n) == 0 for a literal of n bytes, none of them 0
unfoldable pub begins_with : CString → List ℕ → Bool
begins_with s [] = true
begins_with [] (c ∷ literal) = false
begins_with (d ∷ s) (c ∷ literal) = let later = begins_with s literal in d == c && later

-- What the loop's body has read when it comes to normalize_path; `next` is ptr by then.
pub record Entry : Type 0 where
  pub name : CString
  pub mode : ℕ
  pub filesize : ℕ
  pub file_data : List ℕ
  pub next : ℕ

-- The rest of the body from the name on, for the fields of a header. A `break` is `none`.
unfoldable pub read_body :
    (base end ptr namesize filesize mode : ℕ) → (memory : CString) → Option Entry
read_body base end ptr namesize filesize mode memory =
    let start = align4 (add64 ptr namesize) in
    if namesize == 0 || ltb end (add64 ptr namesize)
    then none
    else if begins_with (drop (ptr - base) memory) trailer
    then none
    else if ltb end (add64 start filesize)
    then none
    else some (record {
      name = drop (ptr - base) memory;
      mode = mode;
      filesize = filesize;
      file_data = take filesize (drop (start - base) memory);
      next = align4 (add64 start filesize);
    })

-- The loop's condition, and its body up to normalize_path.
unfoldable pub read_entry : (base end ptr : ℕ) → (memory : CString) → Option Entry
read_entry base end ptr memory =
    let h = drop (ptr - base) memory in
    if ltb end (add64 ptr header_size)
    then none
    else if not (begins_with h cpio_magic)
    then none
    else read_body base end (add64 ptr header_size) (hex8_to_u32 (drop 94 h))
        (hex8_to_u32 (drop 54 h)) (hex8_to_u32 (drop 14 h)) memory

-- mode & CPIO_IFMT
abbrev pub file_type : ℕ → ℕ
file_type mode = (mode / 0x1000) % 16 * 0x1000

module _ {W : Type 0} where
  unfoldable pub install_file : Option (Mount W) → (path : CString) → Entry → W → W
  install_file mnt path e w =
      let (inode, w') = vfs_create mnt path w in
      if inode == 0
      then w'
      else if ltb 0 e.filesize
      then (vfs_write mnt inode e.file_data e.filesize 0 w').1
      else w'

  -- The body of the loop from normalize_path on; `stack` is what `char path[256]` held before.
  unfoldable pub install_path : Option (Mount W) → (path : CString) → Entry → W → W
  install_path mnt path e w =
      if char_at path 0 == b'.' && char_at path 1 == 0
      then w
      else if file_type e.mode == 0x8000
      then install_file mnt path e w
      else if file_type e.mode == 0x4000
      then (vfs_mkdir mnt path w).1
      else w

  unfoldable pub install : Option (Mount W) → (stack : List ℕ) → Entry → W → W
  install mnt stack e w = install_path mnt (normalize_path e.name stack) e w

  -- `none` is the end of the fuel.
  unfoldable pub unpack_from :
      Option (Mount W)
      → (stack : List ℕ) (fuel base end ptr : ℕ) → (memory : CString) → W
      → Option W
  unpack_from mnt stack zero base end ptr memory w = none
  unpack_from mnt stack (suc fuel) base end ptr memory w = elim (read_entry base end ptr memory) [
    | none ↦ some w
    | some e ↦ unpack_from mnt stack fuel base end e.next memory (install mnt stack e w)
  ]

  unfoldable pub unpack_cpio :
      Option (Mount W)
      → (stack : List ℕ) (base archive_size : ℕ) → (memory : CString) → W
      → Option W
  unpack_cpio mnt stack base archive_size memory w =
      unpack_from mnt stack (archive_size + 2) base (add64 base archive_size) base memory w
