-- ===== src/Exfat/Bitmap.antt =====
-- fs/exfat/exfat.c: the bitmap of clusters, in which a cluster's bit is set while it is in use.
use osfix_operating_system.Base.{
  ℕ, zero, suc, ◌+◌, ◌-◌, ◌/◌, ◌%◌, ◌^◌, Bool, true, false, not, ◌&&◌, Option, none, some, leb, ltb,
  ◌==◌, if◌then◌else◌, put_bit,
}
use osfix_operating_system.Memory.{Memory}
use osfix_operating_system.Elf.{read_le}
use osfix_operating_system.Exfat.{
  ExfatFs, Device, Volume, fat_eoc, update_sector, exfat_read_dir_entry, exfat_cluster_to_sector,
  exfat_get_fat_entry, exfat_set_fat_entry,
}

-- buf[off] |= (1 << bit), or buf[off] &= ~(1 << bit)
abbrev pub put_bit_at : (allocated : Bool) → (off bit : ℕ) → Memory → Memory
put_bit_at allocated off bit buf i = if i == off then put_bit allocated bit (buf off) else buf i

-- cluster - 2 on 32 bits
abbrev pub cluster_idx : (cluster : ℕ) → ℕ
cluster_idx cluster = (cluster + (2 ^ 32 - 2)) % 2 ^ 32

module _ {W : Type 0} (d : Device W) (fs : ExfatFs) where
  -- The loop over the entries of the root directory.
  unfoldable pub bitmap_info_from : (rounds index : ℕ) → Volume W → Option (ℕ × ℕ) × Volume W
  bitmap_info_from zero index v = (none, v)
  bitmap_info_from (suc rounds) index v =
      let read = exfat_read_dir_entry d fs fs.root_dir_cluster false index v in
      let later = bitmap_info_from rounds (index + 1) read.1 in
      elim read.0 [
        | none ↦ (none, read.1)
        | some entry ↦
            (if entry 0 == 0
              then (none, read.1)
              else if entry 0 == 129
              then (some (read_le 4 20 entry, read_le 8 24 entry), read.1)
              else later)
      ]

  -- The first cluster of the bitmap and its size.
  unfoldable pub exfat_get_bitmap_info : Volume W → Option (ℕ × ℕ) × Volume W
  exfat_get_bitmap_info v = bitmap_info_from 128 0 v

  abbrev pub bitmap_sector : (bitmap_cluster cluster : ℕ) → ℕ
  bitmap_sector bitmap_cluster cluster =
      exfat_cluster_to_sector fs bitmap_cluster + cluster_idx cluster / 8 / fs.bytes_per_sector

  abbrev pub bitmap_offset : (cluster : ℕ) → ℕ
  bitmap_offset cluster = cluster_idx cluster / 8 % fs.bytes_per_sector

  abbrev pub update_bitmap_at :
      (cluster : ℕ) → (allocated : Bool) → Option (ℕ × ℕ) → Volume W → Bool × Volume W
  update_bitmap_at cluster allocated none v = (false, v)
  update_bitmap_at cluster allocated (some (bitmap_cluster, size)) v =
      update_sector d fs (bitmap_sector bitmap_cluster cluster)
        (put_bit_at allocated (bitmap_offset cluster) (cluster_idx cluster % 8)) v

  unfoldable pub exfat_update_bitmap :
      (cluster : ℕ) → (allocated : Bool) → Volume W → Bool × Volume W
  exfat_update_bitmap cluster allocated v =
      let info = exfat_get_bitmap_info v in update_bitmap_at cluster allocated info.0 info.1

  -- A round of the loop that frees: the volume after the entry and the bit of a cluster are cleared.
  abbrev pub free_cluster : (curr : ℕ) → Volume W → Volume W
  free_cluster curr v = (exfat_update_bitmap curr false (exfat_set_fat_entry d fs curr 0 v).1).1

  -- The cluster behind `curr`.
  abbrev pub next_freed : (contiguous : Bool) → (curr : ℕ) → Volume W → ℕ × Volume W
  next_freed true curr v = ((curr + 1) % 2 ^ 32, v)
  next_freed false curr v = exfat_get_fat_entry d fs curr v

  unfoldable pub free_from : (contiguous : Bool) → (count rounds i curr : ℕ) → Volume W → Volume W
  free_from contiguous count zero i curr v = v
  free_from contiguous count (suc rounds) i curr v =
      let next = next_freed contiguous curr v in
      let freed = free_cluster curr next.1 in
      let later = free_from contiguous count rounds (i + 1) next.0 freed in
      if contiguous && leb (if count == 0 then 1 else count) (i + 1)
      then freed
      else if not contiguous && leb fat_eoc next.0
      then freed
      else later

  -- The volume after the chain is freed; the result is always 0.
  unfoldable pub exfat_free_chain :
      (first_cluster : ℕ) → (contiguous : Bool) → (size : ℕ) → Volume W → Volume W
  exfat_free_chain first_cluster contiguous size v =
      let count = (size + fs.bytes_per_cluster - 1) % 2 ^ 64 / fs.bytes_per_cluster % 2 ^ 32 in
      let rounds = if size == 0 && count == 0 then 1 else count in
      if ltb first_cluster 2 then v else free_from contiguous count rounds 0 first_cluster v
