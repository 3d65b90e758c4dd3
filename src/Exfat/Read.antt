-- ===== src/Exfat/Read.antt =====
-- fs/exfat/exfat.c: exfat_read. The bytes that it stores in the buffer are a list.
use osfix_operating_system.Base.{
  length, ℕ, zero, suc, ◌+◌, ◌-◌, ◌*◌, ◌%◌, ◌^◌, Bool, true, false, not, ◌&&◌, Option, none, some,
  List, [], ◌∷◌, ◌++◌, leb, ltb, ◌==◌, if◌then◌else◌, add64, sub64,
}
use osfix_operating_system.Base.Int.{ℤ, minus_one, to_int}
use osfix_operating_system.Memory.{Memory}
use osfix_operating_system.Pmm.{palloc_order, pfree_order}
use osfix_operating_system.Exfat.{
  ExfatFs, Device, Volume, fat_eoc, next_cluster, exfat_cluster_to_sector,
}
use osfix_operating_system.Exfat.Seek.{ExfatFile}

-- while ((4096UL << order) < bytes_per_cluster) order++, in at most `rounds` rounds
unfoldable pub order_for : (rounds order size : ℕ) → ℕ
order_for zero order size = order
order_for (suc rounds) order size =
    let larger = order_for rounds (order + 1) size in
    if ltb (4096 * 2 ^ order) size then larger else order

-- memcpy of `n` bytes from an offset of the cluster's buffer
unfoldable pub bytes_from : (n offset : ℕ) → Memory → List ℕ
bytes_from zero offset buf = []
bytes_from (suc n) offset buf = buf offset ∷ bytes_from n (offset + 1) buf

-- The file, the bytes read so far, and the volume.
pub record Reading (W : Type 0) : Type 0 where
  pub file : ExfatFile
  pub bytes : List ℕ
  pub volume : Volume W

-- The bytes asked for, as far as the file has them.
abbrev pub bytes_to_read : ExfatFile → (size : ℕ) → ℕ
bytes_to_read file size =
    if ltb file.file_size (add64 file.position size)
    then sub64 file.file_size file.position
    else size

module _ {W : Type 0} (d : Device W) (fs : ExfatFs) where
  -- The start of a round: at the end of a cluster the next one is the current one; `none` ends the
  -- loop, with the file as it is left.
  unfoldable pub enter_cluster : Reading W → Bool × Reading W
  enter_cluster r =
      let next = next_cluster d fs r.file.no_fat_chain r.file.current_cluster r.volume in
      let moved = record r.file { current_cluster = next.0 } in
      if not (leb fs.bytes_per_cluster r.file.cluster_offset)
      then (true, r)
      else if not r.file.no_fat_chain && leb fat_eoc next.0
      then (false, record r { file = moved; volume = next.1 })
      else (true, record r { file = record moved { cluster_offset = 0 }; volume = next.1 })

  -- The number of bytes that a round copies.
  abbrev pub copy_size : (to_read : ℕ) → ExfatFile → ℕ
  copy_size to_read file =
      if ltb to_read (fs.bytes_per_cluster - file.cluster_offset)
      then to_read
      else fs.bytes_per_cluster - file.cluster_offset

  -- The file and the bytes after a round has copied.
  abbrev pub copied : (n : ℕ) → Memory → Reading W → Reading W
  copied n buf r = record r {
    bytes = r.bytes ++ bytes_from n r.file.cluster_offset buf;
    file = record r.file {
      position = add64 r.file.position n;
      cluster_offset = (r.file.cluster_offset + n) % 2 ^ 32;
    };
  }

  -- The loop; `none` is the end of the fuel.
  unfoldable pub read_from : (fuel to_read : ℕ) → Reading W → Option (Reading W)
  read_from zero to_read r = none
  read_from (suc fuel) to_read r =
      let entered = enter_cluster r in
      let at = entered.1 in
      let sector = exfat_cluster_to_sector fs at.file.current_cluster in
      let n = copy_size to_read at.file in
      elim (ltb 0 to_read && entered.0) [
        | false ↦ (if ltb 0 to_read then some at else some r)
        | true ↦ elim (d.read_sectors at.volume.device sector fs.sectors_per_cluster) [
          | none ↦ some at
          | some buf ↦ read_from fuel (to_read - n) (copied n buf at)
        ]
      ]

  -- The result of the function, -1 without memory for a cluster or else the number of bytes read,
  -- and what it leaves; `none` is the end of the fuel.
  unfoldable pub exfat_read : ExfatFile → (size : ℕ) → Volume W → Option (ℤ × Reading W)
  exfat_read file size v =
      let to_read = bytes_to_read file size in
      let order = order_for 32 0 fs.bytes_per_cluster in
      let (phys, pmm) = palloc_order order v.pmm in
      let start : Reading W = record { file = file; bytes = []; volume = record v { pmm = pmm } } in
      if phys == 0 then some (minus_one, start) else elim (read_from (to_read + 1) to_read start) [
        | none ↦ none
        | some r ↦ some (
          to_int (length r.bytes),
          record r { volume = record r.volume { pmm = pfree_order phys order r.volume.pmm } },
        )
      ]
