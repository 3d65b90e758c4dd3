-- ===== src/Exfat/ReadAt.antt =====
-- fs/exfat/exfat.c: exfat_seek and then exfat_read, as exfat_vfs_read calls them.
use native.Mathlib.Nat.{mod-lt, mod-add-div', div-mul-le_self, le_of_mul-le-mul_right}
use osfix_operating_system.Base.{
  length, ℕ, ◌+◌, ◌-◌, ◌*◌, ◌/◌, ◌^◌, ◌≤◌, ◌<◌, ◌≡◌, ◌≢◌, refl, ap, ◌∙◌, true, false, some, [],
  ◌==◌, min, arith,
}
use osfix_operating_system.Base.Int.{to_int}
use osfix_operating_system.Memory.{Memory}
use osfix_operating_system.Pmm.{palloc_order, pfree_order}
use osfix_operating_system.Exfat.{ExfatFs, Device, Volume}
use osfix_operating_system.Exfat.Seek.{ExfatFile}
use osfix_operating_system.Exfat.Read.{
  order_for, bytes_to_read, bytes_from, Reading, read_from, exfat_read,
}
use osfix_operating_system.Exfat.Content.{order_for-room, bytes_from-agree, IsReadable, content}
use osfix_operating_system.Exfat.Seek.{exfat_seek, exfat_seek-IsSought}
use osfix_operating_system.Exfat.ReadLoop.{read_from-IsCopied}
use osfix_operating_system.Exfat.Enter.{IsPlaced}

module _ {W : Type 0} (d : Device W) (fs : ExfatFs) (disk : ℕ → Memory) (last : ℕ) where
  -- exfat_seek reaches the position, and exfat_read returns the bytes of the file from there on.
  pub record IsReadAt (file : ExfatFile) (position size : ℕ) (v : Volume W) : Type 0 where
    pub sought : ExfatFile
    pub seeks : exfat_seek d fs file position v ≡ some (sought, v)
    pub result : Reading W
    pub reads : exfat_read d fs sought size v ≡ some (to_int (length result.bytes), result)
    pub bytes :
        result.bytes
        ≡ bytes_from
            (min size (file.file_size - position))
            position
            (content fs disk file.first_cluster)
    pub room : fs.bytes_per_cluster ≤ 4096 * 2 ^ order_for 32 0 fs.bytes_per_cluster
    pub device : result.volume.device ≡ v.device

  exfat_read-some :
      (file : ExfatFile) (size : ℕ) (v : Volume W) (r : Reading W)
      → (palloc_order (order_for 32 0 fs.bytes_per_cluster) v.pmm).0 ≢ 0
      → read_from d fs (bytes_to_read file size + 1) (bytes_to_read file size) (record {
        file = file;
        bytes = [];
        volume = record v { pmm = (palloc_order (order_for 32 0 fs.bytes_per_cluster) v.pmm).1 };
      })
        ≡ some r
      → exfat_read d fs file size v
        ≡ some (
          to_int (length r.bytes),
          record r {
            volume = record r.volume {
              pmm =
                  pfree_order
                    (palloc_order (order_for 32 0 fs.bytes_per_cluster) v.pmm).0
                    (order_for 32 0 fs.bytes_per_cluster)
                    r.volume.pmm;
            };
          },
        )
  unfolding exfat_read
  exfat_read-some file size v r page all =
      let got : (palloc_order (order_for 32 0 fs.bytes_per_cluster) v.pmm).0 == 0 ≡ false =
        ground arith in
      rw (got, all) refl

  -- With clusters of at least one and fewer than 2^32 bytes that are a whole number of sectors of at
  -- least one byte, in a file whose clusters follow each other, have numbers from 2 on that are,
  -- with the one behind them, below 2^32 - 1, and hold its bytes, on a device whose sectors up to the end of those clusters can be
  -- read, with a free block for a cluster, and with neither the size of the file nor the sum of the
  -- position and the size asked for past 64 bits: the seek and the read after it return, and give the bytes of the file from
  -- the position on, as many as are asked for or as the file still has, with their number as an int; the buffer has room for a
  -- cluster, and the device is as before.
  pub exfat_seek-IsReadAt :
      (file : ExfatFile) (position size count : ℕ) (v : Volume W)
      → 0 < fs.bytes_per_sector
      → fs.bytes_per_cluster ≡ fs.sectors_per_cluster * fs.bytes_per_sector
      → 0 < fs.bytes_per_cluster
      → fs.bytes_per_cluster < 2 ^ 32
      → file.no_fat_chain ≡ true
      → 2 ≤ file.first_cluster
      → file.file_size ≤ count * fs.bytes_per_cluster
      → file.first_cluster + count < 2 ^ 32 - 1
      → fs.cluster_heap_offset + (file.first_cluster - 2 + count) * fs.sectors_per_cluster ≤ last
      → file.file_size < 2 ^ 64
      → position + size < 2 ^ 64
      → (palloc_order (order_for 32 0 fs.bytes_per_cluster) v.pmm).0 ≢ 0
      → IsReadable d fs.bytes_per_sector last disk v.device
      → IsReadAt file position size v
  unfolding exfat_read
  exfat_seek-IsReadAt file position size count v positive whole some_bytes narrow chain low fits
        high inside small room page readable =
      let at = min file.file_size position in
      let k = at / fs.bytes_per_cluster in
      let before : k ≤ count =
        le_of_mul-le-mul_right (omega (arith, div-mul-le_self at fs.bytes_per_cluster))
          some_bytes in
      let sought =
        exfat_seek-IsSought d fs file position v some_bytes narrow chain low (omega (arith, before))
          small in
      let now = sought.result in
      let order = order_for 32 0 fs.bytes_per_cluster in
      let to_read = bytes_to_read now size in
      let taken = palloc_order order v.pmm in
      let left : to_read ≡ min size (file.file_size - position) =
        ground (arith, sought.reached, sought.size, room, small) in
      let placed : IsPlaced d fs disk last positive whole file.first_cluster k now = record {
        chain = sought.chain;
        cluster = sought.cluster;
        position =
            omega (arith, sought.reached, sought.offset, mod-add-div' at fs.bytes_per_cluster);
        offset = omega (arith, sought.offset, mod-lt at some_bytes);
      } in
      let read =
        read_from-IsCopied d fs disk last positive whole narrow file.first_cluster count
          file.file_size low (omega arith) fits small inside (record v { pmm = taken.1 }) readable
          (to_read + 1) to_read k now [] placed some_bytes (omega (arith, left, sought.reached))
          (omega arith) in
      record {
        sought = now;
        seeks = sought.returns;
        result = record {
          file = read.result;
          bytes = bytes_from to_read now.position (content fs disk file.first_cluster);
          volume = record v { pmm = pfree_order taken.0 order taken.1 };
        };
        reads = exfat_read-some now size v _ page read.returns;
        bytes =
            bytes_from-agree to_read now.position position (content fs disk file.first_cluster)
              (content fs disk file.first_cluster)
              (λ i below.
                ap (content fs disk file.first_cluster) (omega (arith, left, sought.reached)))
            ∙ ap (λ n. bytes_from n position (content fs disk file.first_cluster)) left;
        room = order_for-room 32 0 fs.bytes_per_cluster (omega arith);
        device = refl;
      }
