-- ===== src/RamFs/Data/RoundTrip.antt =====
-- kernel/main/fsm/initramfs/ramfs.c: what ramfs_write leaves for ramfs_read.
use osfix_operating_system.Base.Int.{to_int}
use osfix_operating_system.Base.{
  ℕ, ◌+◌, ◌%◌, ◌^◌, ◌<◌, ◌≤◌, ◌≡◌, ◌≢◌, ◌⊎◌, inl, inr, refl, ◌∙◌, subst, sym, false, none, some,
  List, [], ◌∷◌, ◌++◌, ltb, ◌==◌, if◌then◌else◌, length, get_or, take, drop, arith, Option-cases,
  Bool-cases,
}
use osfix_operating_system.RamFs.{RamFile, RamFs, Heap, type_dir, find_inode, update_inode}
use osfix_operating_system.RamFs.Inodes.{
  IsValid, IsSized, Resizes, find_inode-eq_some, Numbered-update, AllSized-update,
  length-update_inode,
}
use osfix_operating_system.RamFs.Data.{
  splice, read_file, ramfs_read, grow, copy_in, write_file, ramfs_write,
}
use osfix_operating_system.RamFs.Data.Bytes.{
  splice-eq_some, length-splice, slice-splice, get_or-splice,
}

find_inode-update :
    (i j : ℕ) (f g : RamFile) (fs : List RamFile)
    → find_inode i fs ≡ some f
    → g.inode ≡ i
    → find_inode j (update_inode i g fs) ≡ (if i == j then some g else find_inode j fs)
unfolding find_inode update_inode
find_inode-update i j f g [] h e = cc
find_inode-update i j f g (x ∷ fs) h e = ground (arith, find_inode-update i j f g fs)

-- The file whose block is ready for a write that ends at `end`, and is otherwise as it was.
record Ready (f : RamFile) (end : ℕ) (g : RamFile) : Type 0 where
  room : end ≤ length g.block
  block : g.alloc_size ≡ length g.block
  size : g.size ≡ f.size
  fits : f.size ≤ g.alloc_size
  inode : g.inode ≡ f.inode
  type : g.type ≡ f.type

module _ {A : Type 0} (heap : Heap A) (lawful : Resizes heap) where
  -- The growing step succeeds if realloc does not return NULL.
  grow-total :
      (f : RamFile) (end : ℕ) (a : A)
      → (heap.realloc f.block end a).0 ≢ none
      → (g : RamFile) × (a' : A) × (grow heap f end a ≡ (some g, a'))
  unfolding grow
  grow-total f end a h = elim (Bool-cases (ltb f.alloc_size end)) [
    | inr room ↦ (f, a, rw room)
    | inl short ↦ elim (Option-cases (heap.realloc f.block end a).0) [
      | inl null ↦ absurd (h null)
      | inr (b, e) ↦
          (record f { block = b; alloc_size = end }, (heap.realloc f.block end a).1, ground arith)
    ]
  ]

  grow-Ready :
      (f : RamFile) (end : ℕ) (a : A) (g : RamFile) (a' : A)
      → IsSized f
      → grow heap f end a ≡ (some g, a')
      → Ready f end g
  unfolding grow
  grow-Ready f end a g a' s h = ground (arith, lawful.resized f.block end a g.block)

  -- The bytes that the file had are still there.
  grow-keeps :
      (f : RamFile) (end : ℕ) (a : A) (g : RamFile) (a' : A) (i : ℕ)
      → IsSized f
      → grow heap f end a ≡ (some g, a')
      → i < f.size
      → get_or g.block i 0 ≡ get_or f.block i 0
  unfolding grow
  grow-keeps f end a g a' i s h lt = ground (arith, lawful.kept f.block end a g.block i)

-- The file after the copy.
record Copied (g : RamFile) (buffer : List ℕ) (size offset : ℕ) (g' : RamFile) : Type 0 where
  spliced : splice g.block offset size buffer ≡ some g'.block
  grown : g'.size ≡ (if ltb g.size (offset + size) then offset + size else g.size)
  alloc : g'.alloc_size ≡ g.alloc_size
  inode : g'.inode ≡ g.inode
  type : g'.type ≡ g.type

copy_in-Copied :
    (f g : RamFile) (buffer : List ℕ) (size offset : ℕ)
    → Ready f (offset + size) g
    → size ≤ length buffer
    → (g' : RamFile) × (copy_in g buffer size offset (offset + size) ≡ some g')
      × Copied g buffer size offset g'
unfolding copy_in
copy_in-Copied f g buffer size offset r h =
    let e = splice-eq_some g.block offset size buffer r.room h in
    (
      record g {
        block = take offset g.block ++ (take size buffer ++ drop (offset + size) g.block);
        size = if ltb g.size (offset + size) then offset + size else g.size;
      },
      rw (e, copy_in) refl,
      record { spliced = e; grown = refl; alloc = refl; inode = refl; type = refl },
    )

Copied-IsSized :
    (f g g' : RamFile) (buffer : List ℕ) (size offset : ℕ)
    → Ready f (offset + size) g
    → Copied g buffer size offset g'
    → IsSized g'
Copied-IsSized f g g' buffer size offset r c =
    ground (arith, length-splice g.block offset size buffer g'.block c.spliced)

-- Reading what was copied in.
Copied-read :
    (f g g' : RamFile) (buffer : List ℕ) (size offset : ℕ)
    → Ready f (offset + size) g
    → Copied g buffer size offset g'
    → f.type ≢ type_dir
    → size ≢ 0
    → offset + size < 2 ^ 64
    → read_file g' size offset ≡ some (to_int size, take size buffer)
unfolding read_file
Copied-read f g g' buffer size offset r c file more small =
    ground (arith, slice-splice g.block offset size buffer g'.block c.spliced)

-- What a successful write at an inode has done, for the context `ctx` before and `after` it.
pub record Wrote (inode : ℕ) (buffer : List ℕ) (size offset : ℕ) (f : RamFile) (ctx after : RamFs)
    : Type 0 where
  pub valid : IsValid after
  -- the bytes are read back from where they were written
  pub reads : ramfs_read inode size offset after ≡ some (to_int size, take size buffer)
  -- the file's other bytes are still there
  pub keeps :
      (g : RamFile) (i : ℕ)
      → find_inode inode after.files ≡ some g
      → (i < offset) ⊎ (offset + size ≤ i)
      → i < f.size
      → get_or g.block i 0 ≡ get_or f.block i 0
  pub grows :
      (g : RamFile)
      → find_inode inode after.files ≡ some g
      → g.size ≡ (if ltb f.size (offset + size) then offset + size else f.size)
  -- no other file has changed
  pub others : (j : ℕ) → j ≢ inode → find_inode j after.files ≡ find_inode j ctx.files

module _ {A : Type 0} (heap : Heap A) (lawful : Resizes heap) (inode : ℕ) (buffer : List ℕ)
    (size offset : ℕ) (f : RamFile) (ctx : RamFs) (v : IsValid ctx)
    (here : find_inode inode ctx.files ≡ some f) (file : f.type ≢ type_dir) (more : size ≢ 0)
    (small : offset + size < 2 ^ 64) (given : size ≤ length buffer) where
  abbrev after : RamFile → RamFs
  after g' = record ctx { files = update_inode f.inode g' ctx.files }

  write_file-eq_some :
      (a a' : A) (g g' : RamFile)
      → grow heap f (offset + size) a ≡ (some g, a')
      → copy_in g buffer size offset (offset + size) ≡ some g'
      → ramfs_write heap inode buffer size offset ctx a ≡ some (to_int size, after g', a')
  unfolding ramfs_write write_file
  write_file-eq_some a a' g g' grown copied =
      let end : (offset + size) % 2 ^ 64 ≡ offset + size = omega arith in
      let file' : (f.type == type_dir) ≡ false = ground arith in
      let more' : (size == 0) ≡ false = ground arith in
      let grown' : grow heap f ((offset + size) % 2 ^ 64) a ≡ (some g, a') = rw end grown in
      let copied' : copy_in g buffer size offset ((offset + size) % 2 ^ 64) ≡ some g' =
        rw end copied in
      rw (here, ramfs_write, file', more', grown', write_file, copied', grown')

  after-Wrote :
      (a a' : A) (g g' : RamFile)
      → grow heap f (offset + size) a ≡ (some g, a')
      → Ready f (offset + size) g
      → Copied g buffer size offset g'
      → Wrote inode buffer size offset f ctx (after g')
  unfolding ramfs_read
  after-Wrote a a' g g' grown r c =
      let (sized, same) = find_inode-eq_some inode ctx.files f v.sized here in
      let here' : find_inode f.inode ctx.files ≡ some f =
        subst (λ k. find_inode k ctx.files ≡ some f) (sym same) here in
      let found : (j : ℕ)
          → find_inode j (after g').files
            ≡ (if f.inode == j then some g' else find_inode j ctx.files) =
        λ j. find_inode-update f.inode j f g' ctx.files here' (ground (arith, c.inode, r.inode)) in
      let at : find_inode inode (after g').files ≡ some g' = ground (arith, found inode) in
      record {
        valid = record {
          rooted = rw length-update_inode v.rooted;
          fits = rw length-update_inode v.fits;
          next = rw length-update_inode v.next;
          numbered =
              Numbered-update f.inode 1 g' ctx.files (ground (arith, c.inode, r.inode)) v.numbered;
          sized =
              AllSized-update f.inode g' ctx.files (Copied-IsSized f g g' buffer size offset r c)
                v.sized;
        };
        reads = rw (at, ramfs_read) (Copied-read f g g' buffer size offset r c file more small);
        keeps = λ h i found' out lt.
            let same' : h ≡ g' = ground arith in
            rw same' (
              get_or-splice g.block offset size buffer g'.block i c.spliced out
              ∙ grow-keeps heap lawful f (offset + size) a g a' i sized grown lt);
        grows = λ h found'.
            let same' : h ≡ g' = ground arith in rw same' (ground (arith, c.grown, r.size));
        others = λ j ne. ground (arith, found j);
      }

  -- A write of at least one byte to a file of a valid context, which does not wrap round and for
  -- which realloc has memory, succeeds: it returns the size as an int, the context stays valid, a
  -- read of the same place returns the bytes written, the file's other bytes and all other files
  -- are as they were, and the file ends where the write ends if that is past its old end.
  pub ramfs_write-Wrote :
      (a : A)
      → (heap.realloc f.block (offset + size) a).0 ≢ none
      → (ctx' : RamFs) × (a' : A) × (ramfs_write heap inode buffer size offset ctx a
          ≡ some (to_int size, ctx', a'))
        × Wrote inode buffer size offset f ctx ctx'
  ramfs_write-Wrote a memory =
      let (g, a', grown) = grow-total heap lawful f (offset + size) a memory in
      let (sized, same) = find_inode-eq_some inode ctx.files f v.sized here in
      let r = grow-Ready heap lawful f (offset + size) a g a' sized grown in
      let (g', copied, c) = copy_in-Copied f g buffer size offset r given in
      (after g', a', write_file-eq_some a a' g g' grown copied, after-Wrote a a' g g' grown r c)
