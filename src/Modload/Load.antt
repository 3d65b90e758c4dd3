-- ===== src/Modload/Load.antt =====
-- kernel/main/util/elf/elf_loader.c: the search for module_init, and elf_load_module from the path
-- to the loaded module; kernel/main/module/modsym.c: modsym_register.
use osfix_operating_system.Base.{
  ℕ, zero, suc, ◌+◌, ◌-◌, ◌*◌, ◌/◌, ◌^◌, Bool, true, false, not, ◌&&◌, ◌||◌, Option, none, some,
  List, [], ◌∷◌, ltb, ◌==◌, if◌then◌else◌, get_elem?, add64,
}
use osfix_operating_system.Base.Int.{ℤ, pos, negsuc}
use osfix_operating_system.Text.{CString, strcmp, first}
use osfix_operating_system.Memory.{Memory, write, memset}
use osfix_operating_system.Vfs.{Vfs, Mount, is_zero, vfs_get_root_mount}
use osfix_operating_system.Vfs.Calls.{vfs_path_to_inode, vfs_stat, vfs_read}
use osfix_operating_system.Elf.{
  Shdr, Sym, ehdr64, ehdr_size, shdr_at, shdrs_at, sym_at, st_bind, shn_undef, shn_abs, has_magic,
}
use osfix_operating_system.Symbols.{Modsym, SymHeap, codes, push_sym}
use osfix_operating_system.Modload.{
  Linking, name_at, et_rel, sht_symtab, layout, copy_sections, relocate,
}

-- shdrs[i], which for an index out of range is what stands there in the file.
abbrev pub shdr_of : Linking → (shoff i : ℕ) → Memory → Shdr
shdr_of l shoff i m = elim (get_elem? l.shdrs i) [
  | none ↦ shdr_at (l.buf + shoff + 64 * i) m
  | some s ↦ s
]

-- The loop over the symbols of one table, from j on.
unfoldable pub find_init_sym : (rounds j : ℕ) → Linking → (syms strtab : ℕ) → Memory → ℕ
find_init_sym zero j l syms strtab m = 0
find_init_sym (suc rounds) j l syms strtab m =
    let s = sym_at syms j m in
    let later = find_init_sym rounds (j + 1) l syms strtab m in
    if s.st_shndx == shn_undef then later else elim (get_elem? l.shdrs s.st_shndx) [
      | none ↦ later
      | some section ↦
          if is_zero (strcmp (name_at l (strtab + s.st_name) m) (codes "module_init"))
          then add64 (add64 l.image section.sh_addr) s.st_value
          else later
    ]

-- The loop over the sections, which ends at the first table that has the symbol.
unfoldable pub find_init : List Shdr → Linking → (shoff : ℕ) → Memory → ℕ
find_init [] l shoff m = 0
find_init (s ∷ ss) l shoff m =
    let later = find_init ss l shoff m in
    let strtab = l.buf + (shdr_of l shoff s.sh_link m).sh_offset in
    let entry = find_init_sym (s.sh_size / 24) 0 l (l.buf + s.sh_offset) strtab m in
    if s.sh_type == sht_symtab then (if entry == 0 then later else entry) else later

module _ {A : Type 0} (sym_heap : SymHeap A) where
  unfoldable pub register_sym : Linking → Sym → (strtab : ℕ) → Memory → Modsym → A → Modsym × A
  register_sym l s strtab m t a =
      let name = name_at l (strtab + s.st_name) m in
      if s.st_shndx == shn_undef || s.st_shndx == shn_abs || st_bind s.st_info == 0
      then (t, a)
      else elim (get_elem? l.shdrs s.st_shndx) [
        | none ↦ (t, a)
        | some section ↦
            if first name == 0
            then (t, a)
            else push_sym sym_heap name (add64 (add64 l.image section.sh_addr) s.st_value) t a
      ]

  unfoldable pub register_syms :
      (rounds j : ℕ) → Linking → (syms strtab : ℕ) → Memory → Modsym → A → Modsym × A
  register_syms zero j l syms strtab m t a = (t, a)
  register_syms (suc rounds) j l syms strtab m t a =
      let (t', a') = register_sym l (sym_at syms j m) strtab m t a in
      register_syms rounds (j + 1) l syms strtab m t' a'

  -- The first table of symbols, from its second symbol on.
  unfoldable pub modsym_register :
      List Shdr → Linking → (shoff : ℕ) → Memory → Modsym → A → Modsym × A
  modsym_register [] l shoff m t a = (t, a)
  modsym_register (s ∷ ss) l shoff m t a = elim (s.sh_type == sht_symtab) [
    | false ↦ modsym_register ss l shoff m t a
    | true ↦
        register_syms (s.sh_size / 24 - 1) 1 l (l.buf + s.sh_offset)
          (l.buf + (shdr_of l shoff s.sh_link m).sh_offset) m t a
  ]

-- malloc, 0 for NULL, and free of the kernel's heap.
pub record Kheap (A : Type 0) : Type 0 where
  pub malloc : ℕ → A → ℕ × A
  pub free : ℕ → A → A

-- module_load_info_t
pub record LoadInfo : Type 0 where
  pub image : ℕ
  pub image_size : ℕ
  pub entry : ℕ

-- All that elf_load_module reads and changes.
pub record Kernel (W A : Type 0) : Type 0 where
  pub memory : Memory
  pub modsym : Modsym
  pub world : W
  pub heap : A

-- The bytes that vfs_read puts into a buffer.
unfoldable pub fill : (p : ℕ) → List ℕ → Memory → Memory
fill p [] m = m
fill p (b ∷ bytes) m = fill (p + 1) bytes (write m p b)

-- `(size_t)r` for an int
abbrev pub to_size : ℤ → ℕ
to_size (pos n) = n
to_size (negsuc n) = 2 ^ 64 - 1 - n

-- The tests of the header in their order.
unfoldable pub is_loadable : (buf size : ℕ) → Memory → Bool
is_loadable buf size m =
    let e = ehdr64 buf m in
    not (ltb size ehdr_size)
    && has_magic buf m
    && m (buf + 4) == 2
    && e.e_type == et_rel
    && not (e.e_shoff == 0 || e.e_shnum == 0)

module _ {W A : Type 0} (kheap : Kheap A) (sym_heap : SymHeap A) (address : ℕ → ℕ) where
  abbrev pub release : (p : ℕ) → Kernel W A → Kernel W A
  release p k = record k { heap = kheap.free p k.heap }

  -- From the image's allocation on; `none` is an error.
  unfoldable pub link_image :
      (buf size shoff : ℕ)
      → List Shdr
      → (image_size : ℕ) → Kernel W A
      → Option LoadInfo × Kernel W A
  link_image buf size shoff shdrs image_size k =
      let (image, a) = kheap.malloc image_size k.heap in
      let l : Linking = record {
        image = image;
        buf = buf;
        file_size = size;
        shdrs = shdrs;
        address = address;
        modsym = k.modsym;
      } in
      let m = copy_sections image buf shdrs (memset image 0 image_size k.memory) in
      if image == 0
      then (none, release buf (record k { heap = a }))
      else elim (relocate l shdrs m) [
        | none ↦ (none, release buf (release image (record k { heap = a; memory = m })))
        | some m' ↦
            let entry = find_init shdrs l shoff m' in
            let (t, a') = modsym_register sym_heap shdrs l shoff m' k.modsym a in
            if entry == 0
            then (none, release buf (release image (record k { heap = a; memory = m' })))
            else (
              some (record { image = image; image_size = image_size; entry = entry }),
              release buf (record k { heap = a'; memory = m'; modsym = t }),
            )
      ]

  -- From the header of the file at `buf` on.
  unfoldable pub load_file : (buf size : ℕ) → Kernel W A → Option LoadInfo × Kernel W A
  load_file buf size k =
      let e = ehdr64 buf k.memory in
      let (shdrs, image_size) = layout (shdrs_at e.e_shnum (buf + e.e_shoff) k.memory) 0 in
      if not (is_loadable buf size k.memory)
      then (none, release buf k)
      else if image_size == 0
      then (none, release buf k)
      else link_image buf size e.e_shoff shdrs image_size k

  -- The file is read into a buffer of its size.
  unfoldable pub read_module :
      Option (Mount W) → (inode size : ℕ) → Kernel W A → Option LoadInfo × Kernel W A
  read_module mnt inode size k =
      let (buf, a) = kheap.malloc size k.heap in
      let ((status, bytes), w) = vfs_read mnt inode size 0 k.world in
      let k' = record k { memory = fill buf bytes k.memory; world = w; heap = a } in
      if buf == 0
      then (none, record k { heap = a })
      else if not (to_size status == size)
      then (none, release buf k')
      else load_file buf size k'

  -- After the inode of the path.
  unfoldable pub load_inode :
      Option (Mount W) → (inode : ℕ) → Kernel W A → Option LoadInfo × Kernel W A
  load_inode mnt inode k =
      let ((status, stat), w) = vfs_stat mnt inode k.world in
      let k' = record k { world = w } in
      elim stat [
        | none ↦ (none, k')
        | some st ↦
            if not (is_zero status) || st.size == 0
            then (none, k')
            else read_module mnt inode st.size k'
      ]

  -- The module's data, or `none` for -1.
  unfoldable pub elf_load_module : Vfs W → CString → Kernel W A → Option LoadInfo × Kernel W A
  elf_load_module v path k = elim (vfs_get_root_mount v) [
    | none ↦ (none, k)
    | some i ↦
        let mnt = get_elem? v.mounts i in
        let (inode, w) = vfs_path_to_inode mnt path k.world in
        if inode == 0
        then (none, record k { world = w })
        else load_inode mnt inode (record k { world = w })
  ]
