-- ===== src/Modload/Errors.antt =====
-- kernel/main/util/elf/elf_loader.c: what an elf_load_module that fails leaves.
use osfix_operating_system.Base.{
  ℕ, ◌+◌, ◌≡◌, refl, not, ◌||◌, Bool-cases, Option-cases, inl, inr, ◌⊎◌, Option, none, some, List,
  ◌==◌, get_elem?,
}
use osfix_operating_system.Text.{CString}
use osfix_operating_system.Vfs.{Vfs, Mount, is_zero, vfs_get_root_mount}
use osfix_operating_system.Vfs.Calls.{vfs_path_to_inode, vfs_stat, vfs_read}
use osfix_operating_system.Elf.{Shdr, ehdr64, shdrs_at}
use osfix_operating_system.Symbols.{SymHeap}
use osfix_operating_system.Modload.{Linking, layout, copy_sections, relocate}
use osfix_operating_system.Memory.{memset}
use osfix_operating_system.Modload.Load.{
  Kernel, Kheap, LoadInfo, to_size, is_loadable, find_init, link_image, load_file, read_module,
  load_inode, elf_load_module,
}

-- Either a module was loaded, or the symbols are as before.
abbrev pub LoadedOrSame : {W A : Type 0} → Kernel W A → Option LoadInfo × Kernel W A → Type 0
LoadedOrSame k r = ((i : LoadInfo) × (r.0 ≡ some i)) ⊎ ((r.0 ≡ none) × (r.1.modsym ≡ k.modsym))

module _ {W A : Type 0} (kheap : Kheap A) (sym_heap : SymHeap A) (address : ℕ → ℕ) where
  link_image-error :
      (buf size shoff : ℕ) (shdrs : List Shdr) (image_size : ℕ) (k : Kernel W A)
      → LoadedOrSame k (link_image kheap sym_heap address buf size shoff shdrs image_size k)
  unfolding link_image
  link_image-error buf size shoff shdrs image_size k =
      let image = (kheap.malloc image_size k.heap).0 in
      let l : Linking = record {
        image = image;
        buf = buf;
        file_size = size;
        shdrs = shdrs;
        address = address;
        modsym = k.modsym;
      } in
      let m = copy_sections image buf shdrs (memset image 0 image_size k.memory) in
      elim (Bool-cases (image == 0)) [
        | inl out ↦ rw out (inr (refl, refl))
        | inr got ↦ elim (Option-cases (relocate l shdrs m)) [
          | inl bad ↦ rw (got, bad) (inr (refl, refl))
          | inr (m', linked) ↦ elim (Bool-cases (find_init shdrs l shoff m' == 0)) [
            | inl lost ↦ rw (got, linked, lost) (inr (refl, refl))
            | inr found ↦ rw (got, linked, found) (inl (_, refl))
          ]
        ]
      ]

  load_file-error :
      (buf size : ℕ) (k : Kernel W A) → LoadedOrSame k (load_file kheap sym_heap address buf size k)
  unfolding load_file
  load_file-error buf size k =
      let e = ehdr64 buf k.memory in
      let l = layout (shdrs_at e.e_shnum (buf + e.e_shoff) k.memory) 0 in
      elim (Bool-cases (not (is_loadable buf size k.memory))) [
        | inl bad ↦ rw bad (inr (refl, refl))
        | inr good ↦ elim (Bool-cases (l.1 == 0)) [
          | inl empty ↦ rw (good, empty) (inr (refl, refl))
          | inr more ↦ rw (good, more) (link_image-error buf size e.e_shoff l.0 l.1 k)
        ]
      ]

  read_module-error :
      (mnt : Option (Mount W)) (inode size : ℕ) (k : Kernel W A)
      → LoadedOrSame k (read_module kheap sym_heap address mnt inode size k)
  unfolding read_module
  read_module-error mnt inode size k =
      let buf = (kheap.malloc size k.heap).0 in
      let r = vfs_read mnt inode size 0 k.world in
      elim (Bool-cases (buf == 0)) [
        | inl out ↦ rw out (inr (refl, refl))
        | inr got ↦ elim (Bool-cases (not (to_size r.0.0 == size))) [
          | inl short ↦ rw (got, short) (inr (refl, refl))
          | inr full ↦ rw (got, full) (load_file-error buf size _)
        ]
      ]

  load_inode-error :
      (mnt : Option (Mount W)) (inode : ℕ) (k : Kernel W A)
      → LoadedOrSame k (load_inode kheap sym_heap address mnt inode k)
  unfolding load_inode
  load_inode-error mnt inode k =
      let r = vfs_stat mnt inode k.world in
      elim (Option-cases r.0.1) [
        | inl out ↦ rw (out, load_inode) (inr (refl, refl))
        | inr (st, got) ↦ elim (Bool-cases (not (is_zero r.0.0) || st.size == 0)) [
          | inl bad ↦ rw (got, load_inode, bad) (inr (refl, refl))
          | inr good ↦
              rw (got, load_inode, good)
                (read_module-error mnt inode st.size (record k { world = r.1 }))
        ]
      ]

  -- elf_load_module either gives a module, or fails and leaves the table of the modules' symbols
  -- as it was.
  pub elf_load_module-error :
      (v : Vfs W) (path : CString) (k : Kernel W A)
      → LoadedOrSame k (elf_load_module kheap sym_heap address v path k)
  unfolding elf_load_module
  elf_load_module-error v path k = elim (Option-cases (vfs_get_root_mount v)) [
    | inl out ↦ rw (out, elf_load_module) (inr (refl, refl))
    | inr (i, got) ↦
        let mnt = get_elem? v.mounts i in
        let r = vfs_path_to_inode mnt path k.world in
        elim (Bool-cases (r.0 == 0)) [
          | inl lost ↦ rw (got, elf_load_module, lost) (inr (refl, refl))
          | inr found ↦
              rw (got, elf_load_module, found) (load_inode-error mnt r.0 (record k { world = r.1 }))
        ]
  ]
