-- ===== src/Memory/Tests.antt =====
-- The theorems about kernel/main/util/string.c's memory functions at concrete blocks.
use osfix_operating_system.Base.{◌≡◌, refl}
use osfix_operating_system.Memory.{Memory, write, copy_up, copy_down, memmove}
use osfix_operating_system.Memory.Copy.{memmove_lem}

-- Every byte holds its own address.
abbrev ramp : Memory
ramp a = a

-- Every byte is 0.
abbrev flat : Memory
flat a = 0

overlap_up : memmove 12 10 5 ramp 16 ≡ 14
unfolding memmove copy_up copy_down write
overlap_up = refl

memmove_lem_example : memmove 12 10 5 ramp 16 ≡ 14
memmove_lem_example = memmove_lem 12 10 5 ramp 16
