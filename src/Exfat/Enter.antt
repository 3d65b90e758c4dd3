-- ===== src/Exfat/Enter.antt =====
-- fs/exfat/exfat.c: a round of exfat_read's loop up to the reading of the cluster.
use native.Mathlib.Nat.{mul-le-mul_right}
use osfix_operating_system.Base.{
  subst, ℕ, suc, ◌+◌, ◌-◌, ◌*◌, ◌%◌, ◌^◌, ◌≤◌, ◌<◌, ◌≡◌, refl, ap, ◌∙◌, true, some, List, leb, ltb,
  arith, Bool-cases, inl, inr,
}
use osfix_operating_system.Memory.{Memory}
use osfix_operating_system.Exfat.{ExfatFs, Device, Volume, exfat_cluster_to_sector}
use osfix_operating_system.Exfat.Seek.{ExfatFile}
use osfix_operating_system.Exfat.Read.{Reading, enter_cluster, copy_size, copied, read_from}

module _ {W : Type 0} (d : Device W) (fs : ExfatFs) (disk : ℕ → Memory) (last : ℕ)
    (positive : 0 < fs.bytes_per_sector)
    (whole : fs.bytes_per_cluster ≡ fs.sectors_per_cluster * fs.bytes_per_sector) where
  module _ (fuel to_read : ℕ) (r : Reading W) (buf : Memory) where
    -- A round that reads its cluster into `buf`, with `at` as the state in the cluster.
    abbrev pub Goes : Reading W → Type 0
    Goes at =
        d.read_sectors at.volume.device (exfat_cluster_to_sector fs at.file.current_cluster)
            fs.sectors_per_cluster
          ≡ some buf
        → read_from d fs (suc fuel) to_read r
          ≡ read_from d fs fuel (to_read - copy_size d fs to_read at.file)
              (copied d fs (copy_size d fs to_read at.file) buf at)

    read_from-Goes :
        ltb 0 to_read ≡ true → (enter_cluster d fs r).0 ≡ true → Goes (enter_cluster d fs r).1
    unfolding read_from
    read_from-Goes more goes_on got = rw (more, read_from, goes_on, got) refl

    pub read_from-step :
        (at : Reading W) → ltb 0 to_read ≡ true → enter_cluster d fs r ≡ (true, at) → Goes at
    read_from-step at more enters =
        subst Goes (ap (λ p. p.1) enters) (read_from-Goes more (ap (λ p. p.0) enters))

  pub cluster-below :
      (k offset count : ℕ)
      → k * fs.bytes_per_cluster + offset < count * fs.bytes_per_cluster
      → k < count
  cluster-below k offset count below = elim (Bool-cases (leb count k)) [
    | inl past ↦
        let order : count ≤ k = ground (arith, past) in
        absurd (omega (arith, mul-le-mul_right fs.bytes_per_cluster order))
    | inr before ↦ ground (arith, before)
  ]

  -- The file is in its cluster of number `k`, or at the end of it.
  pub record IsPlaced (first k : ℕ) (file : ExfatFile) : Type 0 where
    pub chain : file.no_fat_chain ≡ true
    pub cluster : file.current_cluster ≡ first + k
    pub position : file.position ≡ k * fs.bytes_per_cluster + file.cluster_offset
    pub offset : file.cluster_offset ≤ fs.bytes_per_cluster

  module _ (narrow : fs.bytes_per_cluster < 2 ^ 32) (first count end : ℕ) (low : 2 ≤ first)
      (high : first + count < 2 ^ 32) (fits : end ≤ count * fs.bytes_per_cluster)
      (small : end < 2 ^ 64)
      (inside : fs.cluster_heap_offset + (first - 2 + count) * fs.sectors_per_cluster ≤ last) where
    -- The file at the start of a round, in a cluster with bytes to read.
    pub record Entered (file : ExfatFile) (bs : List ℕ) (v : Volume W) : Type 0 where
      pub now : ExfatFile
      pub k : ℕ
      pub placed : IsPlaced first k now
      pub room : now.cluster_offset < fs.bytes_per_cluster
      pub enters :
          enter_cluster d fs (record { file = file; bytes = bs; volume = v })
          ≡ (true, record { file = now; bytes = bs; volume = v })
      pub position : now.position ≡ file.position

    pub enter_cluster-Entered :
        (k : ℕ) (file : ExfatFile) (bs : List ℕ) (v : Volume W)
        → IsPlaced first k file
        → 0 < fs.bytes_per_cluster
        → k < count
        → Entered file bs v
    unfolding enter_cluster
    enter_cluster-Entered k file bs v at some_bytes before =
        elim (Bool-cases (leb fs.bytes_per_cluster file.cluster_offset)) [
          | inl ended ↦
              let full : file.cluster_offset ≡ fs.bytes_per_cluster =
                ground (arith, ended, at.offset) in
              record {
                now = record file {
                  current_cluster = (file.current_cluster + 1) % 2 ^ 32;
                  cluster_offset = 0;
                  no_fat_chain = true;
                };
                k = k + 1;
                placed = record {
                  chain = refl;
                  cluster = omega (arith, at.cluster, before, high);
                  position = at.position ∙ grind (arith, full);
                  offset = omega arith;
                };
                room = some_bytes;
                enters = rw ended (simp at.chain refl);
                position = refl;
              }
          | inr within ↦ record {
            now = file;
            k = k;
            placed = at;
            room = ground (arith, within);
            enters = rw within refl;
            position = refl;
          }
        ]
