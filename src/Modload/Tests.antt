-- ===== src/Modload/Tests.antt =====
-- The theorems about kernel/main/util/elf/elf_loader.c at two sections, a relocation, and a system
-- without mounts.
use osfix_operating_system.Base.{
  ℕ, ◌+◌, ◌%◌, ◌^◌, ◌≡◌, refl, inl, inr, ◌-◌, true, List, [], ◌∷◌, arith,
}
use osfix_operating_system.Elf.{Shdr, read_le}
use osfix_operating_system.Vfs.{Vfs}
use osfix_operating_system.Symbols.{SymHeap}
use osfix_operating_system.Modload.{layout, mod_apply_rela}
use osfix_operating_system.Modload.Load.{Kernel, Kheap, elf_load_module}
use osfix_operating_system.Modload.Layout.{IsAlign, IsPlaced, layout-IsPlaced}
use osfix_operating_system.Modload.Relocate.{mod_apply_rela-relative}
use osfix_operating_system.Modload.Errors.{LoadedOrSame, elf_load_module-error}

abbrev section : (size align : ℕ) → Shdr
section size align = record {
  sh_type = 1;
  sh_flags = 2;
  sh_addr = 0;
  sh_offset = 64;
  sh_size = size;
  sh_link = 0;
  sh_info = 0;
  sh_addralign = align;
}

abbrev sections : List Shdr
sections = section 5 1 ∷ section 8 16 ∷ []

IsAlign-1 : IsAlign 1
IsAlign-1 = record { log = 0; small = omega arith; power = inl refl }

IsAlign-16 : IsAlign 16
IsAlign-16 = record { log = 4; small = omega arith; power = inl refl }

layout-IsPlaced_example : IsPlaced 0 (layout sections 0).0 (layout sections 0).1
layout-IsPlaced_example = layout-IsPlaced sections 0 (IsAlign-1, (IsAlign-16, tt)) (omega arith)

-- A call at address 8192 to a symbol at 4096.
mod_apply_rela-relative_example :
    (8192 + read_le 4 8192 (mod_apply_rela 8192 4096 (2 ^ 64 - 4) 4 (λ a. 0))) % 2 ^ 32
    ≡ (4096 + (2 ^ 64 - 4)) % 2 ^ 32
mod_apply_rela-relative_example =
    mod_apply_rela-relative 8192 4096 (2 ^ 64 - 4) 4 (λ a. 0) (inr refl) (omega arith) (omega arith)
      (omega arith)

abbrev kheap : Kheap ℕ
kheap = record { malloc = λ n a. (a, a + n); free = λ p a. a }

abbrev sym_heap : SymHeap ℕ
sym_heap = record { realloc = λ n a. (true, a); malloc = λ n a. (true, a) }

abbrev kernel : Kernel ℕ ℕ
kernel = record {
  memory = λ a. 0;
  modsym = record { table = []; cap = 0; bytes = 0 };
  world = 0;
  heap = 65536;
}

abbrev no_mounts : Vfs ℕ
no_mounts = record { registered = []; mounts = [] }

elf_load_module-error_example :
    LoadedOrSame kernel (elf_load_module kheap sym_heap (λ i. i) no_mounts (b'm' ∷ []) kernel)
elf_load_module-error_example =
    elf_load_module-error kheap sym_heap (λ i. i) no_mounts (b'm' ∷ []) kernel
