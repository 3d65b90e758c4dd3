-- ===== src/RamFs.antt =====
-- kernel/main/fsm/initramfs/ramfs.c: the in-memory file system. `files[0 .. file_count)` is a list.
-- A `char norm[256]` on the stack is passed in with what it held before, and a block of the heap
-- is the list of its bytes; `none` as the result of a read or write is an access out of its block.
pub mod Names
pub mod Inodes
pub mod Data
mod Tests
use mathlib.Core.Option
use osfix_operating_system.Base.{
  ℕ, zero, suc, ◌+◌, ◌-◌, ◌%◌, ◌^◌, Bool, true, false, ◌&&◌, Option, none, some, List, [], ◌∷◌,
  ◌++◌, ltb, leb, ◌==◌, if◌then◌else◌, length, set, take, drop, replicate,
}
use osfix_operating_system.Base.Int.{ℤ, pos, negsuc, minus_one}
use osfix_operating_system.Text.{CString, first, rest, strcmp, strncpy}
use osfix_operating_system.Vfs.{Stat, Dirent, is_zero, slash}

-- ram_file_t. `block` is what `data` points to: alloc_size bytes, none for NULL.
pub record RamFile : Type 0 where
  pub name : CString
  pub block : List ℕ
  pub size : ℕ
  pub alloc_size : ℕ
  pub inode : ℕ
  pub type : ℕ

-- ramfs_ctx_t
pub record RamFs : Type 0 where
  pub files : List RamFile
  pub next_inode : ℕ

abbrev pub max_files : ℕ
max_files = 2098

-- VFS_TYPE_FILE and VFS_TYPE_DIR
abbrev pub type_file : ℕ
type_file = 1

abbrev pub type_dir : ℕ
type_dir = 2

-- The kernel's realloc, whose heap has a state of its own; `none` is NULL.
pub record Heap (A : Type 0) : Type 0 where
  pub realloc : List ℕ → ℕ → A → Option (List ℕ) × A

-- The context of a fresh mount: the root directory alone.
unfoldable pub ramfs_mount : RamFs
ramfs_mount = record {
  files =
      record { name = slash; block = []; size = 0; alloc_size = 0; inode = 1; type = type_dir }
      ∷ [];
  next_inode = 2;
}

-- The first loop of normalize_ramfs_path: it skips slashes, and dots before a slash.
unfoldable pub skip_root : CString → CString
skip_root [] = []
skip_root (c ∷ []) = if c == b'/' then [] else c ∷ []
skip_root (c ∷ d ∷ s) =
    let past_one = skip_root (d ∷ s) in
    let past_two = skip_root s in
    if c == b'/' then past_one else if c == b'.' && d == b'/' then past_two else c ∷ d ∷ s

-- The second loop, and the terminator after it: the list is `out` from index i on.
unfoldable pub copy_name : CString → List ℕ → List ℕ
copy_name p [] = []
copy_name p (o ∷ []) = 0 ∷ []
copy_name [] (o ∷ o' ∷ out) = 0 ∷ o' ∷ out
copy_name (c ∷ p) (o ∷ o' ∷ out) =
    let later = copy_name p (o' ∷ out) in if c == 0 then 0 ∷ o' ∷ out else c ∷ later

-- At i == 0 the terminator is overwritten by a dot, and out[1] is left as it was.
unfoldable pub normalize_ramfs_path : CString → List ℕ → List ℕ
unfolding skip_root copy_name
normalize_ramfs_path path out =
    let copied = copy_name (skip_root path) out in
    if first copied == 0 then set copied 0 b'.' else copied

-- `strcmp(a, b) == 0`
unfoldable pub same_name : CString → CString → Bool
same_name a b = is_zero (strcmp a b)

-- The loops over ctx->files: the first file with a name, the first with an inode.
unfoldable pub find_name : CString → List RamFile → Option RamFile
find_name norm [] = none
find_name norm (f ∷ fs) =
    let later = find_name norm fs in if same_name f.name norm then some f else later

unfoldable pub find_inode : ℕ → List RamFile → Option RamFile
find_inode inode [] = none
find_inode inode (f ∷ fs) =
    let later = find_inode inode fs in if f.inode == inode then some f else later

-- The first file with the inode, replaced.
unfoldable pub update_inode : ℕ → RamFile → List RamFile → List RamFile
update_inode inode g [] = []
update_inode inode g (f ∷ fs) =
    let later = update_inode inode g fs in if f.inode == inode then g ∷ fs else f ∷ later

-- ctx->files[0].inode
abbrev pub root_inode : List RamFile → ℕ
root_inode [] = 0
root_inode (f ∷ fs) = f.inode

unfoldable pub ramfs_path_to_inode : CString → (norm : List ℕ) → RamFs → ℕ
ramfs_path_to_inode path norm ctx =
    if same_name path slash
    then root_inode ctx.files
    else elim (find_name (normalize_ramfs_path path norm) ctx.files) [ none ↦ 0 | some f ↦ f.inode ]

-- ctx->files[idx].name after strncpy(name, norm, 255) and name[255] = '\0'; all 256 bytes are
-- written.
unfoldable pub name_entry : CString → CString
name_entry norm = set (strncpy (replicate 256 0) norm 255) 255 0

-- The new entry that ramfs_create and ramfs_mkdir make, and its inode.
unfoldable pub add_file : CString → (type : ℕ) → RamFs → ℕ × RamFs
unfolding name_entry
add_file norm type ctx = (
  ctx.next_inode,
  record {
    files =
        ctx.files
        ++ (record {
          name = name_entry norm;
          block = [];
          size = 0;
          alloc_size = 0;
          inode = ctx.next_inode;
          type = type;
        }
            ∷ []);
    next_inode = (ctx.next_inode + 1) % 2 ^ 64;
  },
)

unfoldable pub ramfs_create : CString → (norm : List ℕ) → RamFs → ℕ × RamFs
ramfs_create path norm ctx = elim (find_name (normalize_ramfs_path path norm) ctx.files) [
  | some f ↦ (f.inode, ctx)
  | none ↦
      if leb max_files (length ctx.files)
      then (0, ctx)
      else add_file (normalize_ramfs_path path norm) type_file ctx
]

unfoldable pub ramfs_mkdir : CString → (norm : List ℕ) → RamFs → ℕ × RamFs
ramfs_mkdir path norm ctx =
    if leb max_files (length ctx.files)
    then (0, ctx)
    else add_file (normalize_ramfs_path path norm) type_dir ctx
