-- ===== src/Exfat/Fat.antt =====
-- fs/exfat/exfat.c: the file allocation table after an entry is set.
use osfix_operating_system.Base.{
  ℕ, ◌+◌, ◌*◌, ◌/◌, ◌%◌, ◌^◌, ◌≤◌, ◌<◌, ◌≡◌, ◌≢◌, refl, ap, sym, ◌∙◌, true, false, Option, none,
  some, arith, inl, inr, ◌⊎◌, ◌==◌, if◌then◌else◌, Bool-cases, ==_iff,
}
use osfix_operating_system.Memory.{Memory}
use osfix_operating_system.Elf.{read_le, write_le}
use osfix_operating_system.Elf.Bytes.{read_le-write_le_4}
use osfix_operating_system.Pmm.{palloc}
use osfix_operating_system.Exfat.{
  ExfatFs, Device, Volume, fat_sector, fat_entry_offset, fat_entry_in, exfat_get_fat_entry,
  exfat_set_fat_entry,
}
use osfix_operating_system.Exfat.Disk.{
  IsDisk, Holds, read_le-agree, read_le-apart, place, place-fours, place-fits,
  update_sector-IsUpdated,
}

module _ {W : Type 0} (d : Device W) (fs : ExfatFs) (disk : IsDisk d fs.bytes_per_sector)
    (positive : 0 < fs.bytes_per_sector) (fours : fs.bytes_per_sector % 4 ≡ 0) where
  abbrev entry_of : (cluster : ℕ) → W → ℕ
  entry_of cluster w = fat_entry_in d fs cluster (d.read_sector w (fat_sector fs cluster))

  -- Two clusters of one sector have places that do not overlap.
  places-apart :
      (cluster other : ℕ)
      → other ≢ cluster
      → fat_sector fs other ≡ fat_sector fs cluster
      → (fat_entry_offset fs other + 4 ≤ fat_entry_offset fs cluster)
        ⊎ (fat_entry_offset fs cluster + 4 ≤ fat_entry_offset fs other)
  places-apart cluster other differ same =
      let quotients : other * 4 / fs.bytes_per_sector ≡ cluster * 4 / fs.bytes_per_sector =
        omega (arith, same) in
      ground (
        arith,
        differ,
        ap (λ q. q * fs.bytes_per_sector) quotients,
        place fs.bytes_per_sector positive fours cluster,
        place fs.bytes_per_sector positive fours other,
        place-fours fs.bytes_per_sector positive fours cluster,
        place-fours fs.bytes_per_sector positive fours other,
      )

  -- The entries of a sector after one of them is written.
  written-entry :
      (cluster other value : ℕ) (buf : Memory) (got : Option Memory)
      → value < 2 ^ 32
      → fat_sector fs other ≡ fat_sector fs cluster
      → Holds fs.bytes_per_sector got (write_le 4 (fat_entry_offset fs cluster) value buf)
      → fat_entry_in d fs other got
        ≡ (if other == cluster then value else read_le 4 (fat_entry_offset fs other) buf)
  written-entry cluster other value buf none small same holds = absurd holds
  written-entry cluster other value buf (some c) small same holds =
      read_le-agree 4 (fat_entry_offset fs other) fs.bytes_per_sector c
        (write_le 4 (fat_entry_offset fs cluster) value buf) holds
        (place-fits fs.bytes_per_sector positive fours other)
      ∙ elim (Bool-cases (other == cluster)) [
        | inl hit ↦ rw hit (
            rw ((==_iff other cluster).0 hit)
              (read_le-write_le_4 (fat_entry_offset fs cluster) value buf ∙ omega arith))
        | inr miss ↦ rw miss (
            read_le-apart 4 4 (fat_entry_offset fs cluster) (fat_entry_offset fs other) value buf
              (places-apart cluster other (λ e. ground arith) same))
      ]

  set-entry :
      (cluster other value : ℕ) (w : W) (buf : Memory)
      → value < 2 ^ 32
      → d.read_sector w (fat_sector fs cluster) ≡ some buf
      → (d.write_sector w
          (fat_sector fs cluster)
          (write_le 4 (fat_entry_offset fs cluster) value buf)).0
        ≡ true
      → entry_of other
          (d.write_sector w
            (fat_sector fs cluster)
            (write_le 4 (fat_entry_offset fs cluster) value buf)).1
        ≡ (if other == cluster then value else entry_of other w)
  set-entry cluster other value w buf small read ok =
      let changed = write_le 4 (fat_entry_offset fs cluster) value buf in
      let w' = (d.write_sector w (fat_sector fs cluster) changed).1 in
      elim (Bool-cases (fat_sector fs other == fat_sector fs cluster)) [
        | inl hit ↦
            let same = (==_iff (fat_sector fs other) (fat_sector fs cluster)).0 hit in
            let before : entry_of other w ≡ read_le 4 (fat_entry_offset fs other) buf =
              ap (λ s. fat_entry_in d fs other (d.read_sector w s)) same
              ∙ ap (fat_entry_in d fs other) read in
            ap (λ s. fat_entry_in d fs other (d.read_sector w' s)) same
            ∙ written-entry cluster other value buf (d.read_sector w' (fat_sector fs cluster)) small
                same (disk.reads_back w (fat_sector fs cluster) changed ok)
            ∙ ap (λ e. if other == cluster then value else e) (sym before)
        | inr miss ↦
            let differ : other == cluster ≡ false = ground (arith, miss) in
            ap (fat_entry_in d fs other) (
              disk.keeps_others w (fat_sector fs cluster) (fat_sector fs other) changed
                (λ e. ground (arith, miss)))
            ∙ rw differ refl
      ]

  get-entry :
      (cluster : ℕ) (v : Volume W)
      → (palloc v.pmm).0 ≢ 0
      → (exfat_get_fat_entry d fs cluster v).0 ≡ entry_of cluster v.device
  unfolding exfat_get_fat_entry
  get-entry cluster v page =
      let taken : (palloc v.pmm).0 == 0 ≡ false = ground arith in rw taken refl

  -- On a device that works and whose sectors hold a whole number of entries: after an entry is set
  -- to a 32-bit value without an error, and with a page for the scratch buffer, reading an entry
  -- returns that value for the cluster that was set and what it returned before for every other.
  pub exfat_get-set :
      (cluster other value : ℕ) (v : Volume W)
      → value < 2 ^ 32
      → (exfat_set_fat_entry d fs cluster value v).0 ≡ true
      → (palloc (exfat_set_fat_entry d fs cluster value v).1.pmm).0 ≢ 0
      → (exfat_get_fat_entry d fs other (exfat_set_fat_entry d fs cluster value v).1).0
        ≡ (if other == cluster then value else (exfat_get_fat_entry d fs other v).0)
  unfolding exfat_set_fat_entry
  exfat_get-set cluster other value v small ok page =
      let s =
        update_sector-IsUpdated d fs (fat_sector fs cluster)
          (write_le 4 (fat_entry_offset fs cluster) value) v ok in
      get-entry other (exfat_set_fat_entry d fs cluster value v).1 page
      ∙ ap (entry_of other) s.after
      ∙ set-entry cluster other value v.device s.buf small s.read s.ok
      ∙ ap (λ e. if other == cluster then value else e) (sym (get-entry other v s.page))
