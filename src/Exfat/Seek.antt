-- ===== src/Exfat/Seek.antt =====
-- fs/exfat/exfat.c: exfat_seek, the walk along a file's clusters to a position.
use native.Mathlib.Nat.{add-div_right, add-mod_right, div-eq_of_lt, mod-eq_of_lt}
use osfix_operating_system.Base.{
  min, ℕ, zero, suc, ◌+◌, ◌-◌, ◌/◌, ◌%◌, ◌^◌, ◌≤◌, ◌<◌, ◌≡◌, refl, ap, sym, ◌∙◌, Bool, true, false,
  not, ◌&&◌, Option, none, some, leb, ltb, if◌then◌else◌, add64, sub64, arith, Bool-cases, inl, inr,
}
use osfix_operating_system.Exfat.{
  ExfatFs, Device, Volume, fat_eoc, next_cluster, exfat_get_fat_entry,
}

-- The fields of exfat_file_t that exfat_seek reads and writes.
pub record ExfatFile : Type 0 where
  pub first_cluster : ℕ
  pub file_size : ℕ
  pub position : ℕ
  pub current_cluster : ℕ
  pub cluster_offset : ℕ
  pub no_fat_chain : Bool

module _ {W : Type 0} (d : Device W) (fs : ExfatFs) where
  -- The loop with `rem` bytes to go; `none` is the end of the fuel.
  unfoldable pub seek_from : (fuel rem : ℕ) → ExfatFile → Volume W → Option (ExfatFile × Volume W)
  seek_from zero rem file v = none
  seek_from (suc fuel) rem file v =
      let skip = sub64 fs.bytes_per_cluster file.cluster_offset in
      let next = next_cluster d fs file.no_fat_chain file.current_cluster v in
      let passed = record file { position = add64 file.position skip; current_cluster = next.0 } in
      let later = seek_from fuel (rem - skip) (record passed { cluster_offset = 0 }) next.1 in
      if ltb 0 rem && leb 2 file.current_cluster && ltb file.current_cluster fat_eoc
      then if ltb rem skip
        then some (
          record file {
            cluster_offset = (file.cluster_offset + rem) % 2 ^ 32;
            position = add64 file.position rem;
          },
          v,
        )
        else if not file.no_fat_chain && leb fat_eoc next.0
        then some (passed, next.1)
        else later
      else some (file, v)

  abbrev pub seek_start : ExfatFile → ExfatFile
  seek_start file = record file {
    position = 0;
    current_cluster = file.first_cluster;
    cluster_offset = 0;
  }

  unfoldable pub exfat_seek : ExfatFile → (position : ℕ) → Volume W → Option (ExfatFile × Volume W)
  exfat_seek file position v =
      let target = if ltb file.file_size position then file.file_size else position in
      seek_from (target + 1) target (seek_start file) v

  -- The file is at `rem` bytes past `file`, and the volume is as before.
  record IsAt (fuel rem : ℕ) (file : ExfatFile) (v : Volume W) : Type 0 where
    result : ExfatFile
    returns : seek_from fuel rem file v ≡ some (result, v)
    position : result.position ≡ file.position + rem
    cluster : result.current_cluster ≡ file.current_cluster + rem / fs.bytes_per_cluster
    offset : result.cluster_offset ≡ rem % fs.bytes_per_cluster
    chain : result.no_fat_chain ≡ true
    size : result.file_size ≡ file.file_size

  module _ (positive : 0 < fs.bytes_per_cluster) (narrow : fs.bytes_per_cluster < 2 ^ 32) where
    seek_from-IsAt :
        (fuel rem : ℕ) (file : ExfatFile) (v : Volume W)
        → file.no_fat_chain ≡ true
        → file.cluster_offset ≡ 0
        → 2 ≤ file.current_cluster
        → file.current_cluster + rem / fs.bytes_per_cluster < fat_eoc
        → file.position + rem < 2 ^ 64
        → rem < fuel
        → IsAt fuel rem file v
    unfolding seek_from
    seek_from-IsAt zero rem file v chain at low high room enough = absurd (omega arith)
    seek_from-IsAt (suc fuel) rem file v chain at low high room enough =
        let skip-is : sub64 fs.bytes_per_cluster file.cluster_offset ≡ fs.bytes_per_cluster =
          omega (arith, at) in
        let inside : leb 2 file.current_cluster && ltb file.current_cluster fat_eoc ≡ true =
          ground (arith, high) in
        elim (Bool-cases (ltb 0 rem)) [
          | inl more ↦ elim (Bool-cases (ltb rem fs.bytes_per_cluster)) [
            | inl here ↦
                let below : rem < fs.bytes_per_cluster = ground (arith, here) in
                record {
                  result = record file {
                    cluster_offset = (file.cluster_offset + rem) % 2 ^ 32;
                    position = add64 file.position rem;
                  };
                  returns = rw (more, seek_from, inside, skip-is, here) refl;
                  position = omega arith;
                  cluster = rw (div-eq_of_lt below) (omega arith);
                  offset = rw (mod-eq_of_lt below) (omega (arith, at));
                  chain = chain;
                  size = refl;
                }
            | inr far ↦
                let next : ExfatFile = record file {
                  position = add64 file.position fs.bytes_per_cluster;
                  current_cluster = (file.current_cluster + 1) % 2 ^ 32;
                  cluster_offset = 0;
                  no_fat_chain = true;
                } in
                let step : seek_from (suc fuel) rem file v
                    ≡ seek_from fuel (rem - fs.bytes_per_cluster) next v =
                  rw (more, seek_from, inside, skip-is, far, chain) refl in
                let whole : rem ≡ (rem - fs.bytes_per_cluster) + fs.bytes_per_cluster =
                  ground (arith, far) in
                let one_less : rem / fs.bytes_per_cluster
                    ≡ (rem - fs.bytes_per_cluster) / fs.bytes_per_cluster + 1 =
                  ap (λ n. n / fs.bytes_per_cluster) whole
                  ∙ add-div_right (rem - fs.bytes_per_cluster) positive in
                let later =
                  seek_from-IsAt fuel (rem - fs.bytes_per_cluster) next v refl refl
                    (omega (arith, high, one_less)) (omega (arith, high, one_less))
                    (omega (arith, room, whole)) (omega (arith, whole)) in
                record {
                  result = later.result;
                  returns = step ∙ later.returns;
                  position = omega (arith, later.position, whole);
                  cluster = omega (arith, later.cluster, one_less, high);
                  offset =
                      later.offset
                      ∙ sym (
                          ap (λ n. n % fs.bytes_per_cluster) whole
                          ∙ add-mod_right (rem - fs.bytes_per_cluster) fs.bytes_per_cluster);
                  chain = later.chain;
                  size = later.size;
                }
          ]
          | inr none_left ↦
              let nothing : rem ≡ 0 = ground (arith, none_left) in
              record {
                result = file;
                returns = rw (none_left, seek_from) refl;
                position = omega arith;
                cluster = rw (nothing, div-eq_of_lt positive) (omega arith);
                offset = rw (nothing, mod-eq_of_lt positive) at;
                chain = chain;
                size = refl;
              }
        ]

  -- exfat_seek returns a file at the position, or at its end if that is before.
  pub record IsSought (file : ExfatFile) (position : ℕ) (v : Volume W) : Type 0 where
    pub result : ExfatFile
    pub returns : exfat_seek file position v ≡ some (result, v)
    pub reached : result.position ≡ min file.file_size position
    pub cluster :
        result.current_cluster
        ≡ file.first_cluster + min file.file_size position / fs.bytes_per_cluster
    pub offset : result.cluster_offset ≡ min file.file_size position % fs.bytes_per_cluster
    pub chain : result.no_fat_chain ≡ true
    pub size : result.file_size ≡ file.file_size

  -- With clusters of at least one and fewer than 2^32 bytes, in a file of fewer than 2^64 bytes
  -- whose clusters follow each other, with numbers from 2 on and, up to the one that is reached,
  -- below the mark of the end of a chain, the seek returns, at the smaller of the position and the size: the cluster and the offset in it
  -- are the quotient and the remainder of the position by the size of a cluster, counted from the
  -- first cluster, and the volume is as before.
  pub exfat_seek-IsSought :
      (file : ExfatFile) (position : ℕ) (v : Volume W)
      → 0 < fs.bytes_per_cluster
      → fs.bytes_per_cluster < 2 ^ 32
      → file.no_fat_chain ≡ true
      → 2 ≤ file.first_cluster
      → file.first_cluster + min file.file_size position / fs.bytes_per_cluster < fat_eoc
      → file.file_size < 2 ^ 64
      → IsSought file position v
  unfolding exfat_seek
  exfat_seek-IsSought file position v positive narrow chain low high small =
      let target = if ltb file.file_size position then file.file_size else position in
      let smaller : target ≡ min file.file_size position = ground arith in
      let at =
        seek_from-IsAt positive narrow (target + 1) target (seek_start file) v chain refl low
          (rw smaller high) (omega arith) (omega arith) in
      record {
        result = at.result;
        returns = at.returns;
        reached = omega (arith, at.position, smaller);
        cluster = at.cluster ∙ ap (λ t. file.first_cluster + t / fs.bytes_per_cluster) smaller;
        offset = at.offset ∙ ap (λ t. t % fs.bytes_per_cluster) smaller;
        chain = at.chain;
        size = at.size;
      }

  -- With clusters of at least one and fewer than 2^32 bytes, and a chained file that fills its only
  -- cluster, of a number from 2 on below the mark of the end, whose entry is that mark: the seek to its end leaves the
  -- mark of the end as the current cluster, with the offset 0 in it.
  pub exfat_seek-eoc :
      (file : ExfatFile) (v : Volume W)
      → 0 < fs.bytes_per_cluster
      → fs.bytes_per_cluster < 2 ^ 32
      → file.no_fat_chain ≡ false
      → 2 ≤ file.first_cluster
      → file.first_cluster < fat_eoc
      → file.file_size ≡ fs.bytes_per_cluster
      → (exfat_get_fat_entry d fs file.first_cluster v).0 ≡ fat_eoc
      → exfat_seek file file.file_size v
        ≡ some (
          record file { position = file.file_size; current_cluster = fat_eoc; cluster_offset = 0 },
          (exfat_get_fat_entry d fs file.first_cluster v).1,
        )
  unfolding exfat_seek seek_from
  exfat_seek-eoc file v positive narrow chain low high full last =
      let size = file.file_size in
      let same : ltb size size ≡ false = ground arith in
      let more : ltb 0 size ≡ true = ground (arith, full, positive) in
      let inside : leb 2 file.first_cluster && ltb file.first_cluster fat_eoc ≡ true =
        ground (arith, low, high) in
      let skip-is : sub64 fs.bytes_per_cluster 0 ≡ size = omega (arith, full) in
      let fuel : size + 1 ≡ suc size = omega arith in
      let total : add64 0 size ≡ size = omega (arith, full) in
      rw (same, fuel, seek_from, more, inside, skip-is, same, chain, last, total) refl
