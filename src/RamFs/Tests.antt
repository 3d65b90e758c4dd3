-- ===== src/RamFs/Tests.antt =====
-- The theorems about kernel/main/fsm/initramfs/ramfs.c at a context with one file.
use osfix_operating_system.Base.Int.{to_int}
use osfix_operating_system.Base.{
  ℕ, ◌+◌, ◌<◌, ◌≡◌, ◌≢◌, refl, some, List, [], ◌∷◌, ◌++◌, length, replicate, take, arith,
  length-append, length-replicate, get_or, get_or-append_left, get_or-take, subst, ◌∙◌, length-take,
}
use mathlib.Core.Option.{some-injective}
use osfix_operating_system.Base.Int.{pos}
use osfix_operating_system.Text.{CString}
use osfix_operating_system.Text.Content.{content}
use osfix_operating_system.RamFs.{
  RamFile, RamFs, Heap, ramfs_create, ramfs_path_to_inode, normalize_ramfs_path, find_inode,
  skip_root, type_file, type_dir, update_inode,
}
use osfix_operating_system.RamFs.Inodes.{IsValid, Resizes}
use osfix_operating_system.RamFs.Names.Lookup.{create-path_to_inode}
use osfix_operating_system.RamFs.Data.{ramfs_write, write_file, grow, copy_in}
use osfix_operating_system.RamFs.Data.RoundTrip.{Wrote, ramfs_write-Wrote}

-- A heap that never fails: a grown block is filled up with 0xAA.
abbrev padded : List ℕ → ℕ → List ℕ
padded block n = take n (block ++ replicate n 0xAA)

abbrev heap : Heap ℕ
heap = record { realloc = λ block n a. (some (padded block n), a + 1) }

length-padded : (block : List ℕ) (n : ℕ) → length (padded block n) ≡ n
length-padded block n = omega (
  arith,
  length-take n (block ++ replicate n 0xAA),
  length-append block (replicate n 0xAA),
  length-replicate {A = ℕ} n 0xAA,
)

get_or-padded :
    (block : List ℕ) (n i : ℕ)
    → i < length block
    → i < n
    → get_or (padded block n) i 0 ≡ get_or block i 0
get_or-padded block n i lt lt' =
    get_or-take n i (block ++ replicate n 0xAA) 0 lt'
    ∙ get_or-append_left block (replicate n 0xAA) i 0 lt

heap-Resizes : Resizes heap
heap-Resizes = record {
  resized =
      λ block n a grown e. subst (λ b. length b ≡ n) (some-injective _ _ e) (length-padded block n);
  kept = λ block n a grown i e lt lt'.
      subst (λ b. get_or b i 0 ≡ get_or block i 0) (some-injective _ _ e)
        (get_or-padded block n i lt lt');
}

-- "/a"
abbrev path_a : CString
path_a = b'/' ∷ b'a' ∷ []

abbrev stack : List ℕ
stack = replicate 256 7

abbrev file_a : RamFile
file_a = record {
  name = b'a' ∷ [];
  block = 1 ∷ 2 ∷ 3 ∷ [];
  size = 3;
  alloc_size = 3;
  inode = 2;
  type = type_file;
}

abbrev root : RamFile
root = record { name = b'/' ∷ []; block = []; size = 0; alloc_size = 0; inode = 1; type = type_dir }

abbrev one_file : RamFs
one_file = record { files = root ∷ file_a ∷ []; next_inode = 3 }

one_file-IsValid : IsValid one_file
one_file-IsValid = omega arith

normalize_runs : content (normalize_ramfs_path path_a stack) ≡ b'a' ∷ []
unfolding normalize_ramfs_path
normalize_runs = refl

write_runs :
    ramfs_write heap 2 (9 ∷ 8 ∷ []) 2 2 one_file 0
    ≡ some (
      pos 2,
      record one_file {
        files = root ∷ record file_a { block = 1 ∷ 2 ∷ 9 ∷ 8 ∷ []; size = 4; alloc_size = 4 } ∷ [];
      },
      1,
    )
unfolding ramfs_write write_file grow copy_in find_inode update_inode to_int
write_runs = refl

path_a_named : content (skip_root path_a) ≢ []
unfolding skip_root
path_a_named = λ e. cc

full_stack : length stack ≡ 256
full_stack = refl

create-path_to_inode_example :
    ramfs_path_to_inode path_a stack (ramfs_create path_a stack one_file).1
    ≡ (ramfs_create path_a stack one_file).0
create-path_to_inode_example =
    create-path_to_inode path_a stack stack path_a_named full_stack full_stack one_file
      (omega arith)

ramfs_write-Wrote_example :
    (ctx : RamFs) × (a : ℕ) × (ramfs_write heap 2 (9 ∷ 8 ∷ []) 2 2 one_file 0
      ≡ some (to_int 2, ctx, a))
    × Wrote 2 (9 ∷ 8 ∷ []) 2 2 file_a one_file ctx
unfolding find_inode
ramfs_write-Wrote_example =
    ramfs_write-Wrote heap heap-Resizes 2 (9 ∷ 8 ∷ []) 2 2 file_a one_file one_file-IsValid refl
      (omega arith) (omega arith) (omega arith) (omega arith) 0 (λ e. cc)
