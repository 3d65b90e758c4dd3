-- ===== src/Exfat/ReadLoop.antt =====
-- fs/exfat/exfat.c: the loop of exfat_read over the clusters of a file that follow each other.
use native.Mathlib.Nat.{mul-le-mul_right}
use osfix_operating_system.Base.{
  subst, ℕ, zero, suc, ◌+◌, ◌-◌, ◌*◌, ◌/◌, ◌%◌, ◌^◌, ◌≤◌, ◌<◌, ◌≡◌, ap, sym, ◌∙◌, true, some, List,
  [], ◌++◌, append-nil, append_assoc, ltb, add64, arith, Bool-cases, inl, inr,
}
use osfix_operating_system.Memory.{Memory}
use osfix_operating_system.Exfat.{ExfatFs, Device, Volume, exfat_cluster_to_sector}
use osfix_operating_system.Exfat.Seek.{ExfatFile}
use osfix_operating_system.Exfat.Read.{bytes_from, Reading, copy_size, copied, read_from}
use osfix_operating_system.Exfat.Content.{
  bytes_from-agree, bytes_from-add, bytes_from-none, Got, Holds-Got, IsReadable, content, sector-at,
  cluster-content,
}
use osfix_operating_system.Exfat.Enter.{
  read_from-step, cluster-below, IsPlaced, Entered, enter_cluster-Entered,
}

module _ {W : Type 0} (d : Device W) (fs : ExfatFs) (disk : ℕ → Memory) (last : ℕ)
    (positive : 0 < fs.bytes_per_sector)
    (whole : fs.bytes_per_cluster ≡ fs.sectors_per_cluster * fs.bytes_per_sector) where
  module _ (narrow : fs.bytes_per_cluster < 2 ^ 32) (first count end : ℕ) (low : 2 ≤ first)
      (high : first + count < 2 ^ 32) (fits : end ≤ count * fs.bytes_per_cluster)
      (small : end < 2 ^ 64)
      (inside : fs.cluster_heap_offset + (first - 2 + count) * fs.sectors_per_cluster ≤ last) where
    module _ (v : Volume W) (readable : IsReadable d fs.bytes_per_sector last disk v.device) where
      sector-Got :
          (k : ℕ) (file : ExfatFile)
          → IsPlaced d fs disk last positive whole first k file
          → k < count
          → Got fs.bytes_per_cluster
              (d.read_sectors v.device
                (exfat_cluster_to_sector fs file.current_cluster)
                fs.sectors_per_cluster)
              (λ i. content fs disk first (k * fs.bytes_per_cluster + i))
      sector-Got k file at before =
          let room : (k + 1) * fs.sectors_per_cluster ≤ count * fs.sectors_per_cluster =
            mul-le-mul_right fs.sectors_per_cluster (omega arith) in
          let sector : exfat_cluster_to_sector fs file.current_cluster
              ≡ fs.cluster_heap_offset + (first - 2 + k) * fs.sectors_per_cluster =
            ap (exfat_cluster_to_sector fs) at.cluster
            ∙ sector-at d fs disk last positive whole first k low in
          let got =
            Holds-Got (fs.sectors_per_cluster * fs.bytes_per_sector)
              (d.read_sectors v.device (exfat_cluster_to_sector fs file.current_cluster)
                fs.sectors_per_cluster)
              (λ i.
                disk (exfat_cluster_to_sector fs file.current_cluster + i / fs.bytes_per_sector)
                  (i % fs.bytes_per_sector))
              (readable.reads (exfat_cluster_to_sector fs file.current_cluster)
                fs.sectors_per_cluster (omega (arith, sector, room, inside))) in
          record {
            buf = got.buf;
            is_some = got.is_some;
            same = λ i below.
                (got.same i (subst (λ s. i < s) whole below)
                  ∙ ap
                      (λ c.
                        disk (exfat_cluster_to_sector fs c + i / fs.bytes_per_sector)
                          (i % fs.bytes_per_sector))
                      at.cluster
                  ∙ cluster-content d fs disk last positive whole first k i low);
          }

      -- The state of the loop.
      abbrev reading : ExfatFile → List ℕ → Reading W
      reading file bs = record { file = file; bytes = bs; volume = v }

      abbrev expected : ℕ → ExfatFile → List ℕ
      expected n file = bytes_from n file.position (content fs disk first)

      -- A round of the loop: it copies the next `n` bytes of the file.
      record IsRound (fuel to_read : ℕ) (file : ExfatFile) (bs : List ℕ) : Type 0 where
        next : ExfatFile
        n : ℕ
        k : ℕ
        placed : IsPlaced d fs disk last positive whole first k next
        position : next.position ≡ file.position + n
        some_bytes : 0 < n
        all_fit : n ≤ to_read
        returns :
            read_from d fs (suc fuel) to_read (reading file bs)
            ≡ read_from d fs fuel (to_read - n) (reading next (bs ++ expected n file))

      read_from-IsRound :
          (fuel to_read : ℕ) (file : ExfatFile) (bs : List ℕ)
          (e : Entered d fs disk last positive whole narrow first count end low high fits small
            inside file bs v)
          → e.k < count
          → 0 < to_read
          → file.position + to_read ≤ end
          → IsRound fuel to_read file bs
      unfolding read_from
      read_from-IsRound fuel to_read file bs e within some_bytes total =
          let more : ltb 0 to_read ≡ true = ground arith in
          let got = sector-Got e.k e.now e.placed within in
          let n = copy_size d fs to_read e.now in
          let off = e.now.cluster_offset in
          let fits_now : off + n ≤ fs.bytes_per_cluster = ground (arith, e.room) in
          let chunk : bytes_from n off got.buf ≡ expected n file =
            bytes_from-agree n off file.position got.buf (content fs disk first) (λ i below.
              got.same (off + i) (omega (arith, fits_now))
              ∙ ap (content fs disk first) (omega (arith, e.placed.position, e.position))) in
          let n_fits : n ≤ to_read = ground arith in
          let step : read_from d fs (suc fuel) to_read (reading file bs)
              ≡ read_from d fs fuel (to_read - n) (copied d fs n got.buf (reading e.now bs)) =
            read_from-step d fs disk last positive whole fuel to_read (reading file bs) got.buf
              (reading e.now bs) more e.enters got.is_some in
          let next = record e.now {
            position = add64 e.now.position n;
            cluster_offset = (off + n) % 2 ^ 32;
          } in
          record {
            next = next;
            n = n;
            k = e.k;
            placed = record {
              chain = e.placed.chain;
              cluster = e.placed.cluster;
              position =
                  omega
                    (arith, e.placed.position, fits_now, narrow, total, small, n_fits, e.position);
              offset = omega (arith, fits_now, narrow);
            };
            position = omega (arith, e.position, e.placed.position, fits_now, total, n_fits);
            some_bytes = ground (arith, e.room);
            all_fit = n_fits;
            returns =
                step ∙ ap (λ l. read_from d fs fuel (to_read - n) (reading next (bs ++ l))) chunk;
          }

      -- The loop copies the bytes that are left to read.
      pub record IsCopied (fuel to_read : ℕ) (file : ExfatFile) (bs : List ℕ) : Type 0 where
        pub result : ExfatFile
        pub returns :
            read_from d fs fuel to_read (reading file bs)
            ≡ some (reading result (bs ++ expected to_read file))
        pub position : result.position ≡ file.position + to_read

      pub read_from-IsCopied :
          (fuel to_read k : ℕ) (file : ExfatFile) (bs : List ℕ)
          → IsPlaced d fs disk last positive whole first k file
          → 0 < fs.bytes_per_cluster
          → file.position + to_read ≤ end
          → to_read < fuel
          → IsCopied fuel to_read file bs
      unfolding read_from
      read_from-IsCopied zero to_read k file bs at some_bytes total enough = absurd (omega arith)
      read_from-IsCopied (suc fuel) to_read k file bs at some_bytes total enough =
          elim (Bool-cases (ltb 0 to_read)) [
            | inl more ↦
                let before : k < count =
                  cluster-below d fs disk last positive whole k file.cluster_offset count
                    (ground (arith, at.position, more)) in
                let e =
                  enter_cluster-Entered d fs disk last positive whole narrow first count end low
                    high fits small inside k file bs v at some_bytes before in
                let round =
                  read_from-IsRound fuel to_read file bs e
                    (cluster-below d fs disk last positive whole e.k e.now.cluster_offset count
                      (ground (arith, e.placed.position, e.position, more)))
                    (ground (arith, more)) total in
                let later =
                  read_from-IsCopied fuel (to_read - round.n) round.k round.next
                    (bs ++ expected round.n file) round.placed some_bytes
                    (omega (arith, round.position, round.all_fit))
                    (omega (arith, round.some_bytes)) in
                let chunks : expected round.n file ++ expected (to_read - round.n) round.next
                    ≡ expected to_read file =
                  ap
                    (λ p.
                      expected round.n file
                      ++ bytes_from (to_read - round.n) p (content fs disk first))
                    round.position
                  ∙ bytes_from-add round.n (to_read - round.n) file.position (content fs disk first)
                  ∙ ap (λ n. expected n file) (omega (arith, round.all_fit)) in
                record {
                  result = later.result;
                  returns =
                      round.returns
                      ∙ later.returns
                      ∙ ap (λ l. some (reading later.result l))
                          (append_assoc bs (expected round.n file)
                              (expected (to_read - round.n) round.next)
                            ∙ ap (λ l. bs ++ l) chunks);
                  position = omega (arith, later.position, round.position, round.all_fit);
                }
            | inr none_left ↦
                let nothing : expected to_read file ≡ [] =
                  bytes_from-none file.position (content fs disk first)
                    (ground (arith, none_left)) in
                record {
                  result = file;
                  returns =
                      rw (none_left, read_from, none_left, nothing)
                        (ap (λ l. some (reading file l)) (sym (append-nil bs)));
                  position = ground (arith, none_left);
                }
          ]
