-- ===== src/Exfat/Dir.antt =====
-- fs/exfat/exfat.c: a directory entry that is written and read back.
use native.Mathlib.Nat.{mod-add-div', mod-lt}
use osfix_operating_system.Base.{
  ℕ, zero, suc, ◌+◌, ◌-◌, ◌*◌, ◌/◌, ◌%◌, ◌^◌, ◌≤◌, ◌<◌, ◌≡◌, ◌≢◌, refl, ap, sym, ◌∙◌, subst, Bool,
  true, false, Option, none, some, arith, inl, inr, ◌⊎◌, ◌==◌, ltb, leb, ◌&&◌, Bool-cases,
}
use osfix_operating_system.Memory.{Memory}
use osfix_operating_system.Pmm.{palloc}
use osfix_operating_system.Exfat.{
  ExfatFs, Device, Volume, dentry_size, walk_dir, ents_per_clus, dentry_sector, dentry_offset,
  put_dentry, dentry_in, read_dentry_at, exfat_read_dir_entry, exfat_write_dir_entry, update_sector,
}
use osfix_operating_system.Exfat.Disk.{IsDisk, Holds, update_sector-IsUpdated}

-- An entry lies within one sector.
dentry-fits : (size ent_off : ℕ) → 0 < size → size % 32 ≡ 0 → (ent_off * 32) % size + 32 ≤ size
dentry-fits size ent_off positive whole =
    let q = ent_off * 32 / size in
    let e : size ≡ 32 * (size / 32) = omega arith in
    omega (
      arith,
      mod-add-div' (ent_off * 32) size,
      ap (λ (s : ℕ). q * s) e,
      mod-lt (ent_off * 32) positive,
    )

put_dentry-inside :
    (off i : ℕ) (entry buf : Memory)
    → i < dentry_size
    → put_dentry off entry buf (off + i) ≡ entry i
put_dentry-inside off i entry buf below =
    let cut : off + i - off ≡ i = omega arith in
    let inside : leb off (off + i) && ltb (off + i) (off + dentry_size) ≡ true = ground arith in
    rw inside (ap entry cut)

module _ {W : Type 0} (d : Device W) (fs : ExfatFs) where
  -- The walk finds an entry and changes nothing, whatever the volume.
  record IsFound (contiguous : Bool) (fuel curr_clus ent_off : ℕ) : Type 0 where
    cluster : ℕ
    offset : ℕ
    inside : offset < ents_per_clus d fs
    walked :
        (v : Volume W)
        → walk_dir d fs contiguous fuel curr_clus ent_off v ≡ (some (cluster, offset), v)

  walk_dir-IsFound :
      (contiguous : Bool) (fuel curr_clus ent_off : ℕ)
      → 0 < ents_per_clus d fs
      → ent_off < fuel
      → (contiguous ≡ true) ⊎ (ent_off < ents_per_clus d fs)
      → IsFound contiguous fuel curr_clus ent_off
  unfolding walk_dir
  walk_dir-IsFound contiguous zero curr_clus ent_off some_entries enough h = absurd (omega arith)
  walk_dir-IsFound true (suc fuel) curr_clus ent_off some_entries enough h =
      elim (Bool-cases (ltb ent_off (ents_per_clus d fs))) [
        | inl here ↦ record {
          cluster = curr_clus;
          offset = ent_off;
          inside = ground (arith, here);
          walked = λ v. rw (here, walk_dir) refl;
        }
        | inr later ↦
            let f =
              walk_dir-IsFound true fuel ((curr_clus + 1) % 2 ^ 32) (ent_off - ents_per_clus d fs)
                some_entries (ground (arith, later)) (inl refl) in
            record {
              cluster = f.cluster;
              offset = f.offset;
              inside = f.inside;
              walked = λ v. rw (later, walk_dir) (f.walked v);
            }
      ]
  walk_dir-IsFound false (suc fuel) curr_clus ent_off some_entries enough h =
      let here : ltb ent_off (ents_per_clus d fs) ≡ true = ground (arith, h) in
      record {
        cluster = curr_clus;
        offset = ent_off;
        inside = ground (arith, here);
        walked = λ v. rw (here, walk_dir) refl;
      }

  read-dentry :
      (curr_clus ent_off : ℕ) (v : Volume W)
      → (palloc v.pmm).0 ≢ 0
      → (read_dentry_at d fs (some (curr_clus, ent_off)) v).0
        ≡ dentry_in d fs ent_off (d.read_sector v.device (dentry_sector d fs curr_clus ent_off))
  read-dentry curr_clus ent_off v page =
      let taken : (palloc v.pmm).0 == 0 ≡ false = ground arith in rw taken refl

  -- The entry is found in a sector that holds it.
  dentry-Holds :
      (ent_off : ℕ) (entry buf : Memory) (got : Option Memory)
      → 0 < fs.bytes_per_sector
      → fs.bytes_per_sector % 32 ≡ 0
      → Holds fs.bytes_per_sector got (put_dentry (dentry_offset d fs ent_off) entry buf)
      → Holds dentry_size (dentry_in d fs ent_off got) entry
  dentry-Holds ent_off entry buf none positive whole holds = holds
  dentry-Holds ent_off entry buf (some c) positive whole holds = λ i below.
      let fits = dentry-fits fs.bytes_per_sector ent_off positive whole in
      holds (dentry_offset d fs ent_off + i) (omega (arith, fits))
      ∙ put_dentry-inside (dentry_offset d fs ent_off) i entry buf below

  module _ (disk : IsDisk d fs.bytes_per_sector) (positive : 0 < fs.bytes_per_sector)
      (whole : fs.bytes_per_sector % 32 ≡ 0) (some_entries : 0 < ents_per_clus d fs) where
    -- On a device that works, whose sectors hold a whole number of entries and whose clusters hold
    -- at least one: an entry of a
    -- directory that is contiguous, or of its first cluster, that is written without an error is
    -- read back, if there is a page for the scratch buffer.
    pub exfat_read-write_dir_entry :
        (cluster : ℕ) (contiguous : Bool) (index : ℕ) (entry : Memory) (v : Volume W)
        → (contiguous ≡ true) ⊎ (index < ents_per_clus d fs)
        → (exfat_write_dir_entry d fs cluster contiguous index entry v).0 ≡ true
        → (palloc (exfat_write_dir_entry d fs cluster contiguous index entry v).1.pmm).0 ≢ 0
        → Holds dentry_size
            (exfat_read_dir_entry d fs cluster contiguous index
              (exfat_write_dir_entry d fs cluster contiguous index entry v).1).0
            entry
    unfolding exfat_write_dir_entry exfat_read_dir_entry
    exfat_read-write_dir_entry cluster contiguous index entry v near ok page =
        let f =
          walk_dir-IsFound contiguous (index + 1) cluster index some_entries (omega arith) near in
        let sector = dentry_sector d fs f.cluster f.offset in
        let change = put_dentry (dentry_offset d fs f.offset) entry in
        let v' = (exfat_write_dir_entry d fs cluster contiguous index entry v).1 in
        let wrote : exfat_write_dir_entry d fs cluster contiguous index entry v
            ≡ update_sector d fs sector change v =
          rw (f.walked v) refl in
        let u = update_sector-IsUpdated d fs sector change v (sym (ap (λ r. r.0) wrote) ∙ ok) in
        let there : v'.device ≡ (d.write_sector v.device sector (change u.buf)).1 =
          ap (λ r. r.1.device) wrote ∙ u.after in
        let found : (exfat_read_dir_entry d fs cluster contiguous index v').0
            ≡ dentry_in d fs f.offset
                (d.read_sector (d.write_sector v.device sector (change u.buf)).1 sector) =
          rw (f.walked v') (read-dentry f.cluster f.offset v' page)
          ∙ ap (λ w. dentry_in d fs f.offset (d.read_sector w sector)) there in
        subst (λ got. Holds dentry_size got entry) (sym found)
          (dentry-Holds f.offset entry u.buf
            (d.read_sector (d.write_sector v.device sector (change u.buf)).1 sector) positive whole
            (disk.reads_back v.device sector (change u.buf) u.ok))
