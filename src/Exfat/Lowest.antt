-- ===== src/Exfat/Lowest.antt =====
-- fs/exfat/exfat.c: the cluster that exfat_allocate_cluster returns.
use osfix_operating_system.Base.{
  ℕ, suc, ◌+◌, ◌-◌, ◌*◌, ◌/◌, ◌%◌, ◌^◌, ◌≤◌, ◌<◌, ◌≡◌, ◌≢◌, refl, ap, ◌∙◌, true, false, some, leb,
  ltb, ◌==◌, arith, Bool-cases, inl, inr,
}
use osfix_operating_system.Memory.{Memory}
use osfix_operating_system.Exfat.{ExfatFs, Device, Volume, fat_eoc, exfat_cluster_to_sector}
use osfix_operating_system.Pmm.{page_size, palloc}
use osfix_operating_system.Exfat.Bitmap.{exfat_get_bitmap_info}
use osfix_operating_system.Exfat.InUse.{bitmap_info_from-device}
use osfix_operating_system.Exfat.Allocate.{
  allocate_in, found_cluster, mark, allocate_from, exfat_allocate_cluster,
}
use osfix_operating_system.Exfat.FirstFree.{bit_of, IsVacant, first_free-cases, lowest-bit_of}

module _ {W : Type 0} (d : Device W) (fs : ExfatFs) where
  -- The cluster that is returned is the first that the buffer has as not in use.
  pub record IsAllocated (fuel : ℕ) (v : Volume W) (buf : Memory) : Type 0 where
    found : ℕ
    after : Volume W
    returns : exfat_allocate_cluster d fs fuel v ≡ some (some found, after)
    low : 2 ≤ found
    inside : found - 2 < fs.cluster_count
    clear : bit_of (found - 2) buf ≡ 0
    lowest : (n : ℕ) → n < found - 2 → bit_of n buf ≢ 0

  allocate_from-IsAllocated :
      (fuel scratch curr_clus : ℕ) (v : Volume W) (buf : Memory)
      (free : IsVacant fs.bytes_per_cluster 0 buf)
      → curr_clus < fat_eoc
      → d.read_sectors v.device (exfat_cluster_to_sector fs curr_clus) fs.sectors_per_cluster
        ≡ some buf
      → fs.bytes_per_cluster ≤ page_size
      → fs.sectors_per_cluster * fs.bytes_per_sector ≤ page_size
      → free.at * 8 + free.bit < fs.cluster_count
      → allocate_from d fs scratch (suc fuel) curr_clus 0 v
        ≡ some (
          some (free.at * 8 + free.bit + 2),
          mark d fs scratch
              (free.at * 8 + free.bit + 2)
              (exfat_cluster_to_sector fs curr_clus)
              free.at
              free.bit
              buf
              v,
        )
  unfolding allocate_from
  allocate_from-IsAllocated fuel scratch curr_clus v buf free chained read narrow page inside =
      let going : ltb curr_clus fat_eoc ≡ true = ground arith in
      let fits_page : leb (fs.sectors_per_cluster * fs.bytes_per_sector) page_size ≡ true =
        ground (arith, page) in
      let found : found_cluster d fs 0 free.at free.bit ≡ free.at * 8 + free.bit + 2 =
        omega (arith, free.before, free.bit_before) in
      let fits : leb fs.cluster_count ((free.at * 8 + free.bit + 2 + (2 ^ 32 - 2)) % 2 ^ 32)
          ≡ false =
        ground (arith, free.before, free.bit_before, inside, narrow) in
      rw (going, fits_page, allocate_from, read, free.returns, found, fits) refl

  -- With an entry for the bitmap in the root directory, a free page, clusters of whole sectors that
  -- are not larger than the page, a first cluster of the bitmap that can be read and whose number is
  -- below the mark of the end, and the bit of one of the volume's clusters clear in it: the
  -- allocation returns in its first round, with the first cluster whose bit is clear, which is one
  -- of the volume's.
  pub exfat_allocate_cluster-IsAllocated :
      (fuel bitmap_cluster size n : ℕ) (v : Volume W) (buf : Memory)
      → (exfat_get_bitmap_info d fs v).0 ≡ some (bitmap_cluster, size)
      → (palloc (exfat_get_bitmap_info d fs v).1.pmm).0 ≢ 0
      → bitmap_cluster < fat_eoc
      → d.read_sectors v.device (exfat_cluster_to_sector fs bitmap_cluster) fs.sectors_per_cluster
        ≡ some buf
      → fs.bytes_per_cluster ≡ fs.sectors_per_cluster * fs.bytes_per_sector
      → fs.bytes_per_cluster ≤ page_size
      → n < fs.bytes_per_cluster * 8
      → n < fs.cluster_count
      → bit_of n buf ≡ 0
      → IsAllocated (suc fuel) v buf
  unfolding exfat_allocate_cluster exfat_get_bitmap_info
  exfat_allocate_cluster-IsAllocated fuel bitmap_cluster size n v buf info page chained read whole
        narrow within counted clear =
      let (scratch, pmm) = palloc (exfat_get_bitmap_info d fs v).1.pmm in
      let taken : scratch == 0 ≡ false = ground arith in
      let now = record (exfat_get_bitmap_info d fs v).1 { pmm = pmm } in
      elim (first_free-cases fs.bytes_per_cluster 0 buf) [
        | inl used ↦
            absurd (used.used (n / 8) (n % 8) (omega arith) (omega arith) (omega arith) clear)
        | inr free ↦
            let first : free.at * 8 + free.bit ≤ n =
              elim (Bool-cases (ltb n (free.at * 8 + free.bit))) [
                | inl under ↦
                    absurd
                      (lowest-bit_of fs.bytes_per_cluster n buf free (ground (arith, under)) clear)
                | inr over ↦ ground (arith, over)
              ] in
            let same_device : now.device ≡ v.device = bitmap_info_from-device d fs 128 0 v in
            let step =
              allocate_from-IsAllocated fuel scratch bitmap_cluster now buf free chained
                (ap
                    (λ w.
                      d.read_sectors w (exfat_cluster_to_sector fs bitmap_cluster)
                        fs.sectors_per_cluster)
                    same_device
                  ∙ read)
                narrow (omega (arith, whole, narrow)) (omega (arith, first)) in
            record {
              found = free.at * 8 + free.bit + 2;
              after =
                  mark d fs scratch (free.at * 8 + free.bit + 2)
                    (exfat_cluster_to_sector fs bitmap_cluster) free.at free.bit buf now;
              returns =
                  ap (λ i. allocate_in d fs (suc fuel) i (exfat_get_bitmap_info d fs v).1) info
                  ∙ rw taken step;
              low = omega arith;
              inside = omega (arith, first);
              clear =
                  let byte : (free.at * 8 + free.bit + 2 - 2) / 8 ≡ free.at =
                    omega (arith, free.bit_before) in
                  let bit : (free.at * 8 + free.bit + 2 - 2) % 8 ≡ free.bit =
                    omega (arith, free.bit_before) in
                  rw (byte, bit) free.clear;
              lowest =
                  λ n' below. lowest-bit_of fs.bytes_per_cluster n' buf free (omega (arith, below));
            }
      ]
