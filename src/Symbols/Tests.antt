-- ===== src/Symbols/Tests.antt =====
-- The theorems about the symbol tables at a table of one module symbol, and the lookup of a kernel
-- symbol.
use osfix_operating_system.Base.{ℕ, ◌+◌, ◌≡◌, ◌⊎◌, refl, true, false, [], ◌∷◌, arith}
use osfix_operating_system.Text.{strcmp}
use osfix_operating_system.Vfs.{is_zero}
use osfix_operating_system.Symbols.{
  Modsym, SymHeap, codes, find_symbol, ksym_lookup, modsym_lookup, push_sym,
}
use osfix_operating_system.Symbols.Table.{known, Pushed, push_sym-Pushed, push_sym-lookup}

-- The twenty-fifth function of the table.
lookup_palloc_order : ksym_lookup (λ i. 1000 + i) (codes "palloc_order") ≡ 1024
unfolding ksym_lookup find_symbol strcmp is_zero
lookup_palloc_order = refl

abbrev heap : SymHeap ℕ
heap = record { realloc = λ n a. (true, a); malloc = λ n a. (true, a) }

abbrev one_symbol : Modsym
one_symbol = record {
  table = record { name = codes "init"; addr = 7 } ∷ [];
  cap = 64;
  bytes = 1024;
}

push_sym-Pushed_example :
    Pushed heap (codes "exit") 9 one_symbol 0 (push_sym heap (codes "exit") 9 one_symbol 0).0
push_sym-Pushed_example =
    push_sym-Pushed heap (codes "exit") 9 one_symbol 0 (omega arith, omega arith) (omega arith)

push_sym-lookup_example :
    (modsym_lookup (codes "exit") (push_sym heap (codes "exit") 9 one_symbol 0).0
      ≡ modsym_lookup (codes "exit") one_symbol)
    ⊎ ((known (codes "exit") one_symbol.table ≡ false)
        × (modsym_lookup (codes "exit") (push_sym heap (codes "exit") 9 one_symbol 0).0 ≡ 9))
push_sym-lookup_example = push_sym-lookup heap (codes "exit") 9 one_symbol 0 (codes "exit")
