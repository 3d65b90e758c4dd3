-- ===== src/Exfat/Allocate.antt =====
-- fs/exfat/exfat.c: exfat_allocate_cluster, the search for a cluster that is not in use.
use Prim.Native.Nat.{bit_and}
use osfix_operating_system.Base.{
  Bool, not, ◌&&◌, ℕ, zero, suc, ◌+◌, ◌-◌, ◌*◌, ◌/◌, ◌%◌, ◌^◌, true, Option, none, some, leb, ltb,
  ◌==◌, if◌then◌else◌, bit_at,
}
use osfix_operating_system.Memory.{Memory}
use osfix_operating_system.Exfat.{
  ExfatFs, Device, Volume, fat_eoc, exfat_cluster_to_sector, exfat_get_fat_entry,
  exfat_set_fat_entry,
}
use osfix_operating_system.Pmm.{page_size, palloc, pfree}
use osfix_operating_system.Exfat.Bitmap.{put_bit_at, exfat_get_bitmap_info}

-- The lowest bit from `bit` on that is clear, in `rounds` bits.
unfoldable pub first_clear : (rounds bit byte : ℕ) → Option ℕ
first_clear zero bit byte = none
first_clear (suc rounds) bit byte =
    let later = first_clear rounds (bit + 1) byte in
    if bit_at bit byte == 0 then some bit else later

-- The byte and the bit that the loops over a cluster of the bitmap find.
unfoldable pub first_free : (rounds i : ℕ) → Memory → Option (ℕ × ℕ)
first_free zero i buf = none
first_free (suc rounds) i buf =
    let later = first_free rounds (i + 1) buf in
    if buf i == 255
    then later
    else elim (first_clear 8 0 (buf i)) [ none ↦ later | some bit ↦ some (i, bit) ]

module _ {W : Type 0} (d : Device W) (fs : ExfatFs) where
  abbrev pub found_cluster : (clus_idx i bit : ℕ) → ℕ
  found_cluster clus_idx i bit = ((clus_idx * fs.bytes_per_cluster + i) * 8 + bit + 2) % 2 ^ 32

  -- The sector of the bitmap that is written back, with the bit set. The byte is i & ~(bps - 1) and
  -- the place of the byte `i` behind it.
  abbrev pub set_sector : (i bit : ℕ) → Memory → Memory
  set_sector i bit buf =
      put_bit_at true (i - bit_and i (2 ^ 32 - fs.bytes_per_sector)) bit
        (λ j. buf (bit_and i (2 ^ 32 - fs.bytes_per_sector) + j))

  -- The volume after the cluster is marked in the bitmap and in the allocation table.
  abbrev pub mark : (scratch found sector i bit : ℕ) → Memory → Volume W → Volume W
  mark scratch found sector i bit buf v =
      let written =
        d.write_sector v.device (sector + i / fs.bytes_per_sector) (set_sector i bit buf) in
      (exfat_set_fat_entry d fs found fat_eoc
        (record { pmm = pfree scratch v.pmm; device = written.1 })).1

  abbrev pub give_up : (scratch : ℕ) → Volume W → Option ℕ × Volume W
  give_up scratch v = (none, record v { pmm = pfree scratch v.pmm })

  -- exfat_read_sectors fits the scratch page for a cluster of the bitmap.
  abbrev pub fits_scratch : Bool
  fits_scratch = leb (fs.sectors_per_cluster * fs.bytes_per_sector) page_size

  -- The loop along the clusters of the bitmap; the outer `none` is the end of the fuel, and a cluster
  -- that is read past the scratch page, of which the source says nothing.
  unfoldable pub allocate_from :
      (scratch fuel curr_clus clus_idx : ℕ) → Volume W → Option (Option ℕ × Volume W)
  allocate_from scratch zero curr_clus clus_idx v = none
  allocate_from scratch (suc fuel) curr_clus clus_idx v =
      let sector = exfat_cluster_to_sector fs curr_clus in
      let next = exfat_get_fat_entry d fs curr_clus v in
      let later = allocate_from scratch fuel next.0 ((clus_idx + 1) % 2 ^ 32) next.1 in
      if ltb curr_clus fat_eoc && not fits_scratch
      then none
      else if ltb curr_clus fat_eoc
      then elim (d.read_sectors v.device sector fs.sectors_per_cluster) [
        | none ↦ some (give_up scratch v)
        | some buf ↦ elim (first_free fs.bytes_per_cluster 0 buf) [
          | none ↦ later
          | some (i, bit) ↦
              (let found = found_cluster clus_idx i bit in
                if leb fs.cluster_count ((found + (2 ^ 32 - 2)) % 2 ^ 32)
                then some (give_up scratch v)
                else some (some found, mark scratch found sector i bit buf v))
        ]
      ]
      else some (give_up scratch v)

  abbrev pub allocate_in : (fuel : ℕ) → Option (ℕ × ℕ) → Volume W → Option (Option ℕ × Volume W)
  allocate_in fuel none v = some (none, v)
  allocate_in fuel (some (bitmap_cluster, size)) v =
      let (scratch, pmm) = palloc v.pmm in
      if scratch == 0
      then some (none, record v { pmm = pmm })
      else allocate_from scratch fuel bitmap_cluster 0 (record v { pmm = pmm })

  -- The cluster, or the inner `none` for -1.
  unfoldable pub exfat_allocate_cluster : (fuel : ℕ) → Volume W → Option (Option ℕ × Volume W)
  exfat_allocate_cluster fuel v =
      let info = exfat_get_bitmap_info d fs v in allocate_in fuel info.0 info.1
