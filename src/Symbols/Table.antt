-- ===== src/Symbols/Table.antt =====
-- kernel/main/module/modsym.c and ksym.c: what the lookups find.
use osfix_operating_system.Base.{
  not, ◌&&◌, ℕ, ◌+◌, ◌*◌, ◌≤◌, ◌<◌, ◌≡◌, refl, sym, ap, ◌∙◌, Bool, true, false, ◌||◌, ◌⊎◌, ◌^◌,
  List, [], ◌∷◌, ◌++◌, leb, if◌then◌else◌, length, arith, Bool-cases, inl, inr, length-append,
}
use osfix_operating_system.Text.{CString, strcmp, strlen}
use osfix_operating_system.Text.Content.{content, strcmp-eq_zero_iff}
use osfix_operating_system.Vfs.{is_zero}
use osfix_operating_system.Symbols.{
  grown_bytes, Symbol, Modsym, SymHeap, find_symbol, modsym_lookup, append_sym, push_sym, next_cap,
  entry_size,
}

-- The array's block has room for the entries that the capacity counts, and those of the table are
-- no more.
abbrev pub Fits : Modsym → Type 0
Fits t = (length t.table ≤ t.cap) × (t.cap * entry_size ≤ t.bytes)

-- Whether a table has an entry of the name.
abbrev pub known : CString → List Symbol → Bool
known name [] = false
known name (s ∷ table) = is_zero (strcmp s.name name) || known name table

same_of_content : (s t : CString) → content s ≡ content t → is_zero (strcmp s t) ≡ true
unfolding is_zero
same_of_content s t e = rw ((strcmp-eq_zero_iff s t).1 e) refl

find_symbol-append :
    (name : CString) (table : List Symbol) (s : Symbol)
    → find_symbol name (table ++ (s ∷ []))
      ≡ (if known name table then find_symbol name table else find_symbol name (s ∷ []))
unfolding find_symbol
find_symbol-append name [] s = refl
find_symbol-append name (t ∷ table) s = ground (arith, find_symbol-append name table s)

-- A lookup finds the first entry whose name has the same bytes before the terminator.
pub find_symbol-first :
    (name : CString) (before : List Symbol) (s : Symbol) (after : List Symbol)
    → known name before ≡ false
    → content s.name ≡ content name
    → find_symbol name (before ++ (s ∷ after)) ≡ s.addr
unfolding find_symbol
find_symbol-first name [] s after h e = rw (same_of_content s.name name e) refl
find_symbol-first name (t ∷ before) s after h e =
    ground (arith, find_symbol-first name before s after)

-- And nothing if no entry has the name.
pub find_symbol-none :
    (name : CString) (table : List Symbol) → known name table ≡ false → find_symbol name table ≡ 0
unfolding find_symbol
find_symbol-none name [] h = refl
find_symbol-none name (t ∷ table) h = ground (arith, find_symbol-none name table)

find_symbol-single :
    (n : CString) (s : Symbol) → (find_symbol n (s ∷ []) ≡ 0) ⊎ (find_symbol n (s ∷ []) ≡ s.addr)
unfolding find_symbol
find_symbol-single n s = elim (Bool-cases (is_zero (strcmp s.name n))) [
  | inl hit ↦ inr (rw hit refl)
  | inr miss ↦ inl (rw miss refl)
]

module _ {A : Type 0} (heap : SymHeap A) where
  -- The heap when the name is copied: after the growth, if the array was full.
  abbrev pub heap_for_name : Modsym → A → A
  heap_for_name t a =
      if leb t.cap (length t.table) then (heap.realloc (grown_bytes heap t) a).1 else a

  -- No allocation that the push needs is refused: that of a larger array, if the array is full, and
  -- that of the name.
  abbrev pub granted : (name : CString) → Modsym → A → Bool
  granted name t a =
      (not (leb t.cap (length t.table)) || (heap.realloc (grown_bytes heap t) a).0)
      && (heap.malloc (strlen name + 1) (heap_for_name t a)).0

  append_sym-table :
      (name : CString) (addr : ℕ) (t : Modsym) (a : A)
      → (append_sym heap name addr t a).0.table ≡ (
          if (heap.malloc (strlen name + 1) a).0
          then t.table ++ (record { name = name; addr = addr } ∷ [])
          else t.table)
  unfolding append_sym
  append_sym-table name addr t a = elim (Bool-cases (heap.malloc (strlen name + 1) a).0) [
    | inl got ↦ rw got refl
    | inr out ↦ rw out refl
  ]

  push_sym-table :
      (name : CString) (addr : ℕ) (t : Modsym) (a : A)
      → (push_sym heap name addr t a).0.table ≡ (
          if granted name t a
          then t.table ++ (record { name = name; addr = addr } ∷ [])
          else t.table)
  unfolding push_sym
  push_sym-table name addr t a = elim (Bool-cases (leb t.cap (length t.table))) [
    | inr room ↦ rw room (append_sym-table name addr t a)
    | inl full ↦ elim (Bool-cases (heap.realloc (grown_bytes heap t) a).0) [
      | inr out ↦ rw (full, out) refl
      | inl got ↦
          rw (full, got)
            (append_sym-table name addr
              (record t { cap = next_cap t.cap; bytes = grown_bytes heap t })
              (heap.realloc (grown_bytes heap t) a).1)
    ]
  ]

  append_sym-Fits :
      (name : CString) (addr : ℕ) (t : Modsym) (a : A)
      → length t.table < t.cap
      → t.cap * entry_size ≤ t.bytes
      → Fits (append_sym heap name addr t a).0
  unfolding append_sym
  append_sym-Fits name addr t a room sized = elim (Bool-cases (heap.malloc (strlen name + 1) a).0) [
    | inl got ↦
        let longer = length-append t.table (record { name = name; addr = addr } ∷ []) in
        rw got (omega (arith, longer), sized)
    | inr out ↦ rw out (omega arith, sized)
  ]

  -- What push_sym leaves: the entry at the end exactly if its allocations are granted, and an array
  -- whose block has room for its entries.
  pub record Pushed (name : CString) (addr : ℕ) (t : Modsym) (a : A) (r : Modsym) : Type 0 where
    pub table : r.table ≡ (
        if granted name t a then t.table ++ (record { name = name; addr = addr } ∷ []) else t.table)
    pub fits : Fits r

  -- From an array whose block has room for the entries that its capacity, below 2^59, counts:
  -- push_sym adds the symbol at the end if the name's copy, and a larger array if the array is full,
  -- are granted, and leaves the table as it was if one is refused. The block that was asked for last
  -- still has room for the entries that the capacity counts, and the table has no more of them.
  pub push_sym-Pushed :
      (name : CString) (addr : ℕ) (t : Modsym) (a : A)
      → Fits t
      → t.cap < 2 ^ 59
      → Pushed name addr t a (push_sym heap name addr t a).0
  unfolding push_sym
  push_sym-Pushed name addr t a (fits, sized) small = record {
    table = push_sym-table name addr t a;
    fits = elim (Bool-cases (leb t.cap (length t.table))) [
      | inr room ↦ rw room (append_sym-Fits name addr t a (ground arith) sized)
      | inl full ↦ elim (Bool-cases (heap.realloc (grown_bytes heap t) a).0) [
        | inr out ↦ rw (full, out) (fits, sized)
        | inl got ↦
            rw (full, got)
              (append_sym-Fits name addr
                (record t { cap = next_cap t.cap; bytes = grown_bytes heap t })
                (heap.realloc (grown_bytes heap t) a).1 (ground arith) (ground arith))
      ]
    ];
  }

  -- A push changes what a lookup finds only for a name that the table did not have, and then to
  -- the address pushed. So the symbols of a module that is loaded again are those of its first load.
  pub push_sym-lookup :
      (name : CString) (addr : ℕ) (t : Modsym) (a : A) (n : CString)
      → (modsym_lookup n (push_sym heap name addr t a).0 ≡ modsym_lookup n t)
        ⊎ ((known n t.table ≡ false) × (modsym_lookup n (push_sym heap name addr t a).0 ≡ addr))
  unfolding modsym_lookup
  push_sym-lookup name addr t a n =
      let s : Symbol = record { name = name; addr = addr } in
      let table = push_sym-table name addr t a in
      elim (Bool-cases (granted name t a)) [
        | inr refused ↦ inl (
            ap (find_symbol n)
              (table ∙ ap (λ b. if b then t.table ++ (s ∷ []) else t.table) refused))
        | inl added ↦
            let more : (push_sym heap name addr t a).0.table ≡ t.table ++ (s ∷ []) =
              table ∙ ap (λ b. if b then t.table ++ (s ∷ []) else t.table) added in
            let e = ap (find_symbol n) more ∙ find_symbol-append n t.table s in
            elim (Bool-cases (known n t.table)) [
              | inl old ↦ inl (e ∙ rw old refl)
              | inr new ↦ elim (find_symbol-single n s) [
                | inl out ↦ inl (e ∙ rw new (out ∙ sym (find_symbol-none n t.table new)))
                | inr hit ↦ inr (new, e ∙ rw new hit)
              ]
            ]
      ]
