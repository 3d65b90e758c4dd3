-- ===== src/RamFs/Data.antt =====
-- kernel/main/fsm/initramfs/ramfs.c: ramfs_read, ramfs_write, ramfs_stat and ramfs_listdir.
pub mod Bytes
pub mod RoundTrip
use osfix_operating_system.Base.Int.{to_int}
use osfix_operating_system.Base.{
  ℕ, suc, ◌+◌, ◌-◌, ◌%◌, ◌^◌, Option, none, some, List, [], ◌∷◌, ◌++◌, ltb, leb, ◌==◌, not,
  if◌then◌else◌, length, take, drop,
}
use osfix_operating_system.Base.Int.{ℤ, pos, minus_one}
use osfix_operating_system.Vfs.{Stat, Dirent}
use osfix_operating_system.RamFs.{
  RamFile, RamFs, Heap, type_dir, find_inode, update_inode, root_inode,
}

-- memcpy of `n` bytes from a block at an offset; `none` if the block is shorter.
unfoldable pub slice : List ℕ → (offset n : ℕ) → Option (List ℕ)
slice block offset n =
    if leb (offset + n) (length block) then some (take n (drop offset block)) else none

-- memcpy of `n` bytes into a block at an offset; `none` if the block or the source is shorter.
unfoldable pub splice : List ℕ → (offset n : ℕ) → (src : List ℕ) → Option (List ℕ)
splice block offset n src =
    if leb (offset + n) (length block)
    then (if leb n (length src)
        then some (take offset block ++ (take n src ++ drop (offset + n) block))
        else none)
    else none

-- The size that ramfs_read copies: cut at the end of the file, unless the sum wraps round.
unfoldable pub read_size : RamFile → (size offset : ℕ) → ℕ
read_size f size offset = if ltb f.size ((offset + size) % 2 ^ 64) then f.size - offset else size

unfoldable pub read_file : RamFile → (size offset : ℕ) → Option (ℤ × List ℕ)
unfolding read_size slice
read_file f size offset =
    if f.type == type_dir
    then some (minus_one, [])
    else if leb f.size offset
    then some (pos 0, [])
    else elim (slice f.block offset (read_size f size offset)) [
      | none ↦ none
      | some bytes ↦ some (to_int (read_size f size offset), bytes)
    ]

unfoldable pub ramfs_read : (inode size offset : ℕ) → RamFs → Option (ℤ × List ℕ)
unfolding read_file find_inode
ramfs_read inode size offset ctx = elim (find_inode inode ctx.files) [
  | none ↦ some (minus_one, [])
  | some f ↦ read_file f size offset
]

-- The copy, and the new size.
unfoldable pub copy_in :
    RamFile → (buffer : List ℕ) → (size offset requested_end : ℕ) → Option RamFile
unfolding splice
copy_in f buffer size offset requested_end = elim (splice f.block offset size buffer) [
  | none ↦ none
  | some block ↦ some (record f {
    block = block;
    size = if ltb f.size requested_end then requested_end else f.size;
  })
]

module _ {A : Type 0} (heap : Heap A) where
  -- The block of the file before the copy: grown to the end of the write if it is shorter. `none`
  -- is realloc's NULL.
  unfoldable pub grow : RamFile → (requested_end : ℕ) → A → Option RamFile × A
  grow f requested_end a =
      if ltb f.alloc_size requested_end
      then (let (grown, a') = heap.realloc f.block requested_end a in
          elim grown [
            | none ↦ (none, a')
            | some block ↦ (some (record f { block = block; alloc_size = requested_end }), a')
          ])
      else (some f, a)

  unfoldable pub write_file :
      RamFile → (buffer : List ℕ) → (size offset : ℕ) → RamFs → A → Option (ℤ × RamFs × A)
  write_file f buffer size offset ctx a =
      if f.type == type_dir
      then some (minus_one, ctx, a)
      else if size == 0
      then some (pos 0, ctx, a)
      else (let (grown, a') = grow f ((offset + size) % 2 ^ 64) a in
          elim grown [
            | none ↦ some (minus_one, ctx, a')
            | some g ↦ elim (copy_in g buffer size offset ((offset + size) % 2 ^ 64)) [
              | none ↦ none
              | some g' ↦
                  some (to_int size, record ctx { files = update_inode f.inode g' ctx.files }, a')
            ]
          ])

  unfoldable pub ramfs_write :
      (inode : ℕ) → (buffer : List ℕ) → (size offset : ℕ) → RamFs → A → Option (ℤ × RamFs × A)
  ramfs_write inode buffer size offset ctx a = elim (find_inode inode ctx.files) [
    | none ↦ some (minus_one, ctx, a)
    | some f ↦ write_file f buffer size offset ctx a
  ]

unfoldable pub ramfs_stat : ℕ → RamFs → ℤ × Option Stat
unfolding find_inode
ramfs_stat inode ctx = elim (find_inode inode ctx.files) [
  | none ↦ (minus_one, none)
  | some f ↦ (pos 0, some (record { inode = inode; size = f.size; type = f.type }))
]

unfoldable pub list_files : List RamFile → (max_entries : ℕ) → List Dirent
list_files [] max_entries = []
list_files (f ∷ fs) max_entries =
    let later = list_files fs (max_entries - 1) in
    if max_entries == 0
    then []
    else record { inode = f.inode; type = f.type; size = f.size; name = f.name } ∷ later

unfoldable pub list_from : List RamFile → (inode max_entries : ℕ) → List Dirent
unfolding list_files
list_from [] inode max_entries = []
list_from (root ∷ fs) inode max_entries =
    if inode == root.inode then list_files fs max_entries else []

-- Only the root directory has entries: all the other files.
unfoldable pub ramfs_listdir : (inode max_entries : ℕ) → RamFs → ℤ × List Dirent
unfolding find_inode list_from
ramfs_listdir inode max_entries ctx = elim (find_inode inode ctx.files) [
  | none ↦ (minus_one, [])
  | some d ↦ if not (d.type == type_dir) then (minus_one, []) else (
    pos (length (list_from ctx.files inode max_entries)),
    list_from ctx.files inode max_entries,
  )
]
