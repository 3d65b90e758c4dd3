-- ===== src/Exfat/InUse.antt =====
-- fs/exfat/exfat.c: which clusters are in use after exfat_update_bitmap.
use osfix_operating_system.Base.{
  ℕ, zero, suc, ◌+◌, ◌-◌, ◌*◌, ◌/◌, ◌%◌, ◌≡◌, refl, ◌∙◌, false, Option, none, some, leb, ltb, ◌==◌,
  Bool-cases, Option-cases, inl, inr, bit_at,
}
use osfix_operating_system.Memory.{Memory}
use osfix_operating_system.Exfat.{
  walk_dir, ents_per_clus, read_dentry_at, ExfatFs, Device, Volume, fat_eoc, exfat_read_dir_entry,
  exfat_get_fat_entry,
}
use osfix_operating_system.Pmm.{palloc}
use osfix_operating_system.Exfat.Bitmap.{
  cluster_idx, bitmap_info_from, bitmap_sector, bitmap_offset,
}

module _ {W : Type 0} (d : Device W) (fs : ExfatFs) where
  -- Reading leaves the device as it is.
  exfat_get_fat_entry-device :
      (cluster : ℕ) (v : Volume W) → (exfat_get_fat_entry d fs cluster v).1.device ≡ v.device
  unfolding exfat_get_fat_entry
  exfat_get_fat_entry-device cluster v = elim (Bool-cases ((palloc v.pmm).0 == 0)) [
    | inl out ↦ rw out refl
    | inr taken ↦ rw taken refl
  ]

  walk_dir-device :
      (fuel curr_clus ent_off : ℕ) (v : Volume W)
      → (walk_dir d fs false fuel curr_clus ent_off v).1.device ≡ v.device
  unfolding walk_dir
  walk_dir-device zero curr_clus ent_off v = refl
  walk_dir-device (suc fuel) curr_clus ent_off v =
      let next = exfat_get_fat_entry d fs curr_clus v in
      let later : (walk_dir d fs false fuel next.0 (ent_off - ents_per_clus d fs) next.1).1.device
          ≡ v.device =
        walk_dir-device fuel next.0 (ent_off - ents_per_clus d fs) next.1
        ∙ exfat_get_fat_entry-device curr_clus v in
      elim (Bool-cases (ltb ent_off (ents_per_clus d fs))) [
        | inl here ↦ rw here refl
        | inr past ↦ elim (Bool-cases (leb fat_eoc next.0)) [
          | inl ended ↦ rw (past, ended) (exfat_get_fat_entry-device curr_clus v)
          | inr more ↦ rw (past, more) later
        ]
      ]

  read_dentry_at-device :
      (place : Option (ℕ × ℕ)) (v : Volume W) → (read_dentry_at d fs place v).1.device ≡ v.device
  read_dentry_at-device none v = refl
  read_dentry_at-device (some (curr_clus, ent_off)) v = elim (Bool-cases ((palloc v.pmm).0 == 0)) [
    | inl out ↦ rw out refl
    | inr taken ↦ rw taken refl
  ]

  exfat_read_dir_entry-device :
      (cluster index : ℕ) (v : Volume W)
      → (exfat_read_dir_entry d fs cluster false index v).1.device ≡ v.device
  unfolding exfat_read_dir_entry
  exfat_read_dir_entry-device cluster index v =
      read_dentry_at-device (walk_dir d fs false (index + 1) cluster index v).0
        (walk_dir d fs false (index + 1) cluster index v).1
      ∙ walk_dir-device (index + 1) cluster index v

  pub bitmap_info_from-device :
      (rounds index : ℕ) (v : Volume W) → (bitmap_info_from d fs rounds index v).1.device ≡ v.device
  unfolding bitmap_info_from
  bitmap_info_from-device zero index v = refl
  bitmap_info_from-device (suc rounds) index v =
      let read = exfat_read_dir_entry d fs fs.root_dir_cluster false index v in
      let here : read.1.device ≡ v.device =
        exfat_read_dir_entry-device fs.root_dir_cluster index v in
      let later : (bitmap_info_from d fs rounds (index + 1) read.1).1.device ≡ v.device =
        bitmap_info_from-device rounds (index + 1) read.1 ∙ here in
      elim (Option-cases read.0) [
        | inl failed ↦ rw (failed, bitmap_info_from) here
        | inr (entry, found) ↦ elim (Bool-cases (entry 0 == 0)) [
          | inl ended ↦ rw (found, bitmap_info_from, ended) here
          | inr more ↦ elim (Bool-cases (entry 0 == 129)) [
            | inl hit ↦ rw (found, bitmap_info_from, more, hit) here
            | inr miss ↦ rw (found, bitmap_info_from, more, miss) later
          ]
        ]
      ]

  -- The bit of a cluster in a sector that was read, and 0 if it could not be.
  abbrev bit_in : (cluster : ℕ) → Option Memory → ℕ
  bit_in cluster none = 0
  bit_in cluster (some buf) = bit_at (cluster_idx cluster % 8) (buf (bitmap_offset d fs cluster))

  abbrev coded : (bitmap_cluster cluster : ℕ) → W → ℕ
  coded bitmap_cluster cluster w =
      bit_in cluster (d.read_sector w (bitmap_sector d fs bitmap_cluster cluster))

  -- The byte of number `k` of a file on the device, whose first cluster is `first`, and 0 if it
  -- cannot be read: the sectors of a file that is not scattered follow each other.
  abbrev byte_in : (k : ℕ) → Option Memory → ℕ
  byte_in k none = 0
  byte_in k (some buf) = buf (k % fs.bytes_per_sector)

  abbrev pub file_byte : (first k : ℕ) → W → ℕ
  file_byte first k w = byte_in k (
      d.read_sector w
        (fs.cluster_heap_offset + (first - 2) * fs.sectors_per_cluster + k / fs.bytes_per_sector))

  -- The format's bit of a cluster: those of the clusters from 2 on follow each other in the bitmap,
  -- eight in a byte, the lowest first.
  abbrev pub in_use : (bitmap_cluster cluster : ℕ) → W → ℕ
  in_use bitmap_cluster cluster w =
      bit_at ((cluster - 2) % 8) (file_byte bitmap_cluster ((cluster - 2) / 8) w)
