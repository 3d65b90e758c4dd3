-- ===== src/ExfatVfs/Read.antt =====
-- fs/exfat/exfat_vfs.c: exfat_vfs_read of a file that the cache has.
use osfix_operating_system.Base.{
  length, ℕ, ◌+◌, ◌-◌, ◌*◌, ◌^◌, ◌≤◌, ◌<◌, ◌≡◌, ◌≢◌, refl, true, some, min, ap, ◌∙◌,
}
use osfix_operating_system.Base.Int.{to_int}
use osfix_operating_system.Memory.{Memory}
use osfix_operating_system.Pmm.{palloc_order}
use osfix_operating_system.Exfat.{Device, Volume}
use osfix_operating_system.Exfat.Read.{Reading, order_for, bytes_from}
use osfix_operating_system.Exfat.Content.{IsReadable, content}
use osfix_operating_system.Exfat.ReadAt.{exfat_seek-IsReadAt}
use osfix_operating_system.ExfatVfs.{
  InodeInfo, Ctx, get_cached_inode, open_info, prepare_file_handle, read_opened, exfat_vfs_read,
}

module _ {W : Type 0} (d : Device W) (disk : ℕ → Memory) (last : ℕ) where
  -- The read returns the bytes of the file from the offset on.
  pub record IsServed (ctx : Ctx) (info : InodeInfo) (inode size offset : ℕ) (v : Volume W)
      : Type 0 where
    result : Reading W
    returns :
        exfat_vfs_read d ctx inode size offset v ≡ some (to_int (length result.bytes), result, ctx)
    bytes :
        result.bytes
        ≡ bytes_from (min size (info.size - offset)) offset (content ctx.fs disk info.first_cluster)
    device : result.volume.device ≡ v.device

  -- For an inode that the cache has, of a file of fewer than 2^64 bytes whose `count` clusters
  -- follow each other, have numbers from 2 on, hold its bytes, and end, with the one behind them,
  -- below 2^32 - 1; with clusters of at least one and fewer than 2^32 bytes that are a whole number
  -- of sectors of at least one byte, on a device whose sectors up to the end of the clusters can be
  -- read, with a free block for a cluster, and an offset and a size whose sum has 64 bits: the read
  -- returns the bytes of the file from the offset on, as many as are asked for or as there are, with
  -- their number as an int, and leaves the device and the cache as they are.
  pub exfat_vfs_read-cached :
      (ctx : Ctx) (info : InodeInfo) (inode size offset count : ℕ) (v : Volume W)
      → get_cached_inode ctx inode ≡ some info
      → 0 < ctx.fs.bytes_per_sector
      → ctx.fs.bytes_per_cluster ≡ ctx.fs.sectors_per_cluster * ctx.fs.bytes_per_sector
      → 0 < ctx.fs.bytes_per_cluster
      → ctx.fs.bytes_per_cluster < 2 ^ 32
      → info.no_fat_chain ≡ true
      → 2 ≤ info.first_cluster
      → info.size ≤ count * ctx.fs.bytes_per_cluster
      → info.first_cluster + count < 2 ^ 32 - 1
      → ctx.fs.cluster_heap_offset + (info.first_cluster - 2 + count) * ctx.fs.sectors_per_cluster
        ≤ last
      → info.size < 2 ^ 64
      → offset + size < 2 ^ 64
      → (palloc_order (order_for 32 0 ctx.fs.bytes_per_cluster) v.pmm).0 ≢ 0
      → IsReadable d ctx.fs.bytes_per_sector last disk v.device
      → IsServed ctx info inode size offset v
  unfolding exfat_vfs_read prepare_file_handle
  exfat_vfs_read-cached ctx info inode size offset count v cached positive whole some_bytes narrow
        chain low fits high inside small room page readable =
      let opened : prepare_file_handle d ctx inode v ≡ (open_info info, ctx, v) =
        rw (cached, prepare_file_handle) refl in
      let read =
        exfat_seek-IsReadAt d ctx.fs disk last (open_info info) offset size count v positive whole
          some_bytes narrow chain low fits high inside small room page readable in
      record {
        result = read.result;
        returns =
            ap (read_opened d ctx.fs size offset) opened
            ∙ rw (read.seeks, read_opened, read.reads) refl;
        bytes = read.bytes;
        device = read.device;
      }
