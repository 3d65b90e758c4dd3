-- ===== src/Symbols.antt =====
-- kernel/main/module/ksym.c and kernel/main/module/modsym.c: the symbols of the kernel and of the
-- loaded modules. A table is the list of its entries; for the modules' table the capacity of its
-- array and the size of its block are kept beside it.
pub mod Table
mod Tests
use Prim.Native.Char.{code}
use Prim.Native.String.{String}
use osfix_operating_system.Base.{
  ℕ, zero, suc, ◌+◌, ◌*◌, ◌%◌, ◌^◌, Bool, true, false, List, [], ◌∷◌, ◌++◌, map, leb, ◌==◌,
  if◌then◌else◌, length,
}
use osfix_operating_system.Text.{CString, strcmp, strlen}
use osfix_operating_system.Vfs.{is_zero}

-- ksym_entry_t and modsym_entry_t
pub record Symbol : Type 0 where
  pub name : CString
  pub addr : ℕ

abbrev pub codes : String → CString
codes String.[] = []
codes (String.◌∷◌ c s) = code c ∷ codes s

-- The names of ksym_table, in its order.
abbrev pub ksym_names : List String
ksym_names =
    "kprintf" ∷ "serial_printf" ∷ "malloc" ∷ "calloc" ∷ "realloc" ∷ "free" ∷ "memcpy" ∷ "memset"
    ∷ "memcmp" ∷ "strlen" ∷ "strcpy" ∷ "strncpy" ∷ "strcmp" ∷ "strncmp" ∷ "strstr" ∷ "strchr"
    ∷ "serial_write" ∷ "outb" ∷ "outw" ∷ "outl" ∷ "inb" ∷ "inw" ∷ "inl" ∷ "log_to_terminal"
    ∷ "palloc_order" ∷ "pfree_order" ∷ "palloc" ∷ "phys_to_virt" ∷ "virt_to_phys"
    ∷ "phys_flush_cache" ∷ "phys_invalidate_cache" ∷ "udelay" ∷ "pfree" ∷ "map_page" ∷ "get_time_ms"
    ∷ "ISR_RegisterHandler" ∷ "strrchr" ∷ "vfs_register_filesystem" ∷ "vfs_mount" ∷ "vfs_unmount"
    ∷ "vfs_get_root_mount" ∷ "vfs_read" ∷ "vfs_write" ∷ "vfs_listdir" ∷ "vfs_path_to_inode"
    ∷ "vfs_create" ∷ "vfs_mkdir" ∷ "vfs_remove" ∷ "vfs_rename" ∷ "vfs_stat"
    ∷ "vfs_get_mount_for_path" ∷ []

-- The addresses of the functions are the linker's.
abbrev pub ksym_from : (i : ℕ) → (address : ℕ → ℕ) → List String → List Symbol
ksym_from i address [] = []
ksym_from i address (n ∷ ns) =
    record { name = codes n; addr = address i } ∷ ksym_from (i + 1) address ns

abbrev pub ksym_table : (address : ℕ → ℕ) → List Symbol
ksym_table address = ksym_from 0 address ksym_names

-- The loop of both lookups.
unfoldable pub find_symbol : CString → List Symbol → ℕ
find_symbol name [] = 0
find_symbol name (s ∷ table) =
    let later = find_symbol name table in if is_zero (strcmp s.name name) then s.addr else later

unfoldable pub ksym_lookup : (address : ℕ → ℕ) → (name : CString) → ℕ
ksym_lookup address name = find_symbol name (ksym_table address)

-- sym_table[0 .. sym_count), sym_cap, and the bytes of the array's block as they were asked for.
pub record Modsym : Type 0 where
  pub table : List Symbol
  pub cap : ℕ
  pub bytes : ℕ

unfoldable pub modsym_lookup : (name : CString) → Modsym → ℕ
modsym_lookup name t = find_symbol name t.table

-- realloc of the table's array and malloc of a name, for a number of bytes; false is NULL.
pub record SymHeap (A : Type 0) : Type 0 where
  pub realloc : ℕ → A → Bool × A
  pub malloc : ℕ → A → Bool × A

-- sizeof(modsym_entry_t)
abbrev pub entry_size : ℕ
entry_size = 16

abbrev pub next_cap : ℕ → ℕ
next_cap cap = if cap == 0 then 64 else (cap * 2) % 2 ^ 64

module _ {A : Type 0} (heap : SymHeap A) where
  -- push_sym past the growth of the array
  unfoldable pub append_sym : (name : CString) → (addr : ℕ) → Modsym → A → Modsym × A
  append_sym name addr t a =
      let (got, a') = heap.malloc (strlen name + 1) a in
      if got
      then (record t { table = t.table ++ (record { name = name; addr = addr } ∷ []) }, a')
      else (t, a')

  -- next_cap * sizeof(modsym_entry_t), which realloc is asked for
  abbrev pub grown_bytes : Modsym → ℕ
  grown_bytes t = (next_cap t.cap * entry_size) % 2 ^ 64

  unfoldable pub push_sym : (name : CString) → (addr : ℕ) → Modsym → A → Modsym × A
  push_sym name addr t a =
      let (grown, a') = heap.realloc (grown_bytes t) a in
      let larger = record t { cap = next_cap t.cap; bytes = grown_bytes t } in
      if leb t.cap (length t.table)
      then (if grown then append_sym name addr larger a' else (t, a'))
      else append_sym name addr t a
