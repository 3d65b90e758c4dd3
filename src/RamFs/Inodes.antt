-- ===== src/RamFs/Inodes.antt =====
-- kernel/main/fsm/initramfs/ramfs.c: the invariant of a context, and that the operations keep it.
use osfix_operating_system.Base.{
  ℕ, ◌+◌, ◌<◌, ◌≤◌, ◌≡◌, refl, some, List, [], ◌∷◌, ◌++◌, leb, ◌==◌, length, get_or, length-append,
  arith, Option-cases, Bool-cases, inl, inr,
}
use osfix_operating_system.Text.{CString}
use osfix_operating_system.RamFs.{
  RamFile, RamFs, Heap, max_files, ramfs_mount, normalize_ramfs_path, find_name, find_inode,
  update_inode, add_file, name_entry, ramfs_create, ramfs_mkdir,
}

-- Inodes are handed out in the order of the files.
abbrev pub Numbered : ℕ → List RamFile → Type 0
Numbered k [] = Unit {0}
Numbered k (f ∷ fs) = (f.inode ≡ k) × Numbered (k + 1) fs

-- The file's block holds its bytes.
pub record IsSized (f : RamFile) : Type 0 where
  pub block : f.alloc_size ≡ length f.block
  pub size : f.size ≤ f.alloc_size

abbrev pub AllSized : List RamFile → Type 0
AllSized [] = Unit {0}
AllSized (f ∷ fs) = IsSized f × AllSized fs

pub record IsValid (ctx : RamFs) : Type 0 where
  pub rooted : 0 < length ctx.files
  pub fits : length ctx.files ≤ max_files
  pub next : ctx.next_inode ≡ length ctx.files + 1
  pub numbered : Numbered 1 ctx.files
  pub sized : AllSized ctx.files

-- realloc returns a block of the size asked for that begins with the bytes of the old one.
pub record Resizes {A : Type 0} (heap : Heap A) : Type 0 where
  pub resized :
      (block : List ℕ) (n : ℕ) (a : A) (grown : List ℕ)
      → (heap.realloc block n a).0 ≡ some grown
      → length grown ≡ n
  pub kept :
      (block : List ℕ) (n : ℕ) (a : A) (grown : List ℕ) (i : ℕ)
      → (heap.realloc block n a).0 ≡ some grown
      → i < length block
      → i < n
      → get_or grown i 0 ≡ get_or block i 0

-- The context that ramfs_mount makes is valid.
pub ramfs_mount-IsValid : IsValid ramfs_mount
unfolding ramfs_mount
ramfs_mount-IsValid = omega arith

Numbered-append :
    (k : ℕ) (fs : List RamFile) (f : RamFile)
    → Numbered k fs
    → f.inode ≡ k + length fs
    → Numbered k (fs ++ (f ∷ []))
Numbered-append k [] f h e = (omega arith, tt)
Numbered-append k (g ∷ fs) f h e = (h.0, Numbered-append (k + 1) fs f h.1 (omega arith))

AllSized-append :
    (fs : List RamFile) (f : RamFile) → AllSized fs → IsSized f → AllSized (fs ++ (f ∷ []))
AllSized-append [] f h s = (s, tt)
AllSized-append (g ∷ fs) f h s = (h.0, AllSized-append fs f h.1 s)

pub add_file-IsValid :
    (norm : CString) (type : ℕ) (ctx : RamFs)
    → length ctx.files < max_files
    → IsValid ctx
    → IsValid (add_file norm type ctx).1
unfolding add_file
add_file-IsValid norm type ctx room v = record {
  rooted = omega (arith, length-append ctx.files (new ∷ []));
  fits = omega (arith, length-append ctx.files (new ∷ []));
  next = omega (arith, length-append ctx.files (new ∷ []));
  numbered = Numbered-append 1 ctx.files new v.numbered (omega arith);
  sized = AllSized-append ctx.files new v.sized (omega arith);
}
  where
    new : RamFile
    new = record {
      name = name_entry norm;
      block = [];
      size = 0;
      alloc_size = 0;
      inode = ctx.next_inode;
      type = type;
    }

-- ramfs_create keeps a context valid.
ramfs_create-IsValid :
    (path : CString) (norm : List ℕ) (ctx : RamFs)
    → IsValid ctx
    → IsValid (ramfs_create path norm ctx).1
unfolding ramfs_create
ramfs_create-IsValid path norm ctx v =
    elim (Option-cases (find_name (normalize_ramfs_path path norm) ctx.files)) [
      | inr (f, e) ↦ rw (e, ramfs_create) v
      | inl e ↦ elim (Bool-cases (leb max_files (length ctx.files))) [
        | inl full ↦ rw (e, ramfs_create, full) v
        | inr room ↦
            rw (e, ramfs_create, room)
              (add_file-IsValid (normalize_ramfs_path path norm) 1 ctx (ground arith) v)
      ]
    ]

-- ramfs_mkdir keeps a context valid.
pub ramfs_mkdir-IsValid :
    (path : CString) (norm : List ℕ) (ctx : RamFs)
    → IsValid ctx
    → IsValid (ramfs_mkdir path norm ctx).1
unfolding ramfs_mkdir
ramfs_mkdir-IsValid path norm ctx v = elim (Bool-cases (leb max_files (length ctx.files))) [
  | inl full ↦ rw (ramfs_mkdir, full) v
  | inr room ↦
      rw (ramfs_mkdir, room)
        (add_file-IsValid (normalize_ramfs_path path norm) 2 ctx (ground arith) v)
]

pub length-update_inode :
    (inode : ℕ) (g : RamFile) (fs : List RamFile) → length (update_inode inode g fs) ≡ length fs
unfolding update_inode
length-update_inode inode g [] = refl
length-update_inode inode g (f ∷ fs) = ground (arith, length-update_inode inode g fs)

pub Numbered-update :
    (inode k : ℕ) (g : RamFile) (fs : List RamFile)
    → g.inode ≡ inode
    → Numbered k fs
    → Numbered k (update_inode inode g fs)
unfolding update_inode
Numbered-update inode k g [] e h = h
Numbered-update inode k g (f ∷ fs) e h = elim (Bool-cases (f.inode == inode)) [
  | inl hit ↦ rw hit (ground arith, h.1)
  | inr miss ↦ rw miss (h.0, Numbered-update inode (k + 1) g fs e h.1)
]

pub AllSized-update :
    (inode : ℕ) (g : RamFile) (fs : List RamFile)
    → IsSized g
    → AllSized fs
    → AllSized (update_inode inode g fs)
unfolding update_inode
AllSized-update inode g [] s h = h
AllSized-update inode g (f ∷ fs) s h = elim (Bool-cases (f.inode == inode)) [
  | inl hit ↦ rw hit (s, h.1)
  | inr miss ↦ rw miss (h.0, AllSized-update inode g fs s h.1)
]

pub find_inode-eq_some :
    (inode : ℕ) (fs : List RamFile) (f : RamFile)
    → AllSized fs
    → find_inode inode fs ≡ some f
    → IsSized f × (f.inode ≡ inode)
unfolding find_inode
find_inode-eq_some inode [] f h e = cc
find_inode-eq_some inode (g ∷ fs) f h e = elim (Bool-cases (g.inode == inode)) [
  | inl hit ↦ let same : g ≡ f = ground arith in rw (← same) (h.0, ground arith)
  | inr miss ↦ find_inode-eq_some inode fs f h.1 (ground arith)
]
