-- ===== src/Exfat.antt =====
-- fs/exfat/exfat.c: the entries of the file allocation table and of directories. The storage drivers
-- (exfat_read_sectors, exfat_write_sectors) are a record of functions on a type W of states of a
-- device; a buffer is a function from its offsets to bytes, and the scratch page for it is taken
-- from the allocator and given back.
pub mod Disk
pub mod Fat
pub mod Dir
pub mod Seek
pub mod Read
pub mod Bitmap
pub mod InUse
pub mod Allocate
pub mod FirstFree
pub mod Lowest
pub mod Content
pub mod Enter
pub mod ReadLoop
pub mod ReadAt
mod Tests
use osfix_operating_system.Base.{
  ℕ, zero, suc, ◌+◌, ◌-◌, ◌*◌, ◌/◌, ◌%◌, ◌^◌, Bool, true, false, not, ◌&&◌, Option, none, some, leb,
  ltb, ◌==◌, if◌then◌else◌,
}
use osfix_operating_system.Memory.{Memory}
use osfix_operating_system.Elf.{read_le, write_le}
use osfix_operating_system.Pmm.{Pmm, palloc, pfree}

-- The fields of exfat_fs_t that the functions here read.
pub record ExfatFs : Type 0 where
  pub bytes_per_sector : ℕ
  pub sectors_per_cluster : ℕ
  pub bytes_per_cluster : ℕ
  pub fat_offset : ℕ
  pub cluster_heap_offset : ℕ
  pub root_dir_cluster : ℕ
  pub cluster_count : ℕ

-- EXFAT_FAT_EOC
abbrev pub fat_eoc : ℕ
fat_eoc = 2 ^ 32 - 1

-- sizeof(exfat_dentry_t)
abbrev pub dentry_size : ℕ
dentry_size = 32

-- The transfer of one sector, and the reading of several: `none` for an error, and for a write
-- whether it returned 0.
pub record Device (W : Type 0) : Type 0 where
  pub read_sectors : W → (sector count : ℕ) → Option Memory
  pub read_sector : W → (sector : ℕ) → Option Memory
  pub write_sector : W → (sector : ℕ) → Memory → Bool × W

-- What the functions change: the page allocator and the device.
pub record Volume (W : Type 0) : Type 0 where
  pub pmm : Pmm
  pub device : W

abbrev pub fat_sector : ExfatFs → (cluster : ℕ) → ℕ
fat_sector fs cluster = fs.fat_offset + cluster * 4 / fs.bytes_per_sector

abbrev pub fat_entry_offset : ExfatFs → (cluster : ℕ) → ℕ
fat_entry_offset fs cluster = (cluster * 4) % fs.bytes_per_sector

unfoldable pub exfat_cluster_to_sector : ExfatFs → (cluster : ℕ) → ℕ
exfat_cluster_to_sector fs cluster =
    if ltb cluster 2 then 0 else fs.cluster_heap_offset + (cluster - 2) * fs.sectors_per_cluster

-- memcpy of a directory entry into a buffer
abbrev pub put_dentry : (off : ℕ) → (entry buf : Memory) → Memory
put_dentry off entry buf i =
    if leb off i && ltb i (off + dentry_size) then entry (i - off) else buf i

-- The volume after a scratch page is taken, and after it is given back.
abbrev pub with_page : {W : Type 0} → Volume W → Volume W
with_page v = record v { pmm = (palloc v.pmm).1 }

abbrev pub after_page : {W : Type 0} → Volume W → Volume W
after_page v = record v { pmm = pfree (palloc v.pmm).0 (palloc v.pmm).1 }

module _ {W : Type 0} (d : Device W) (fs : ExfatFs) where
  abbrev pub fat_entry_in : (cluster : ℕ) → Option Memory → ℕ
  fat_entry_in cluster none = fat_eoc
  fat_entry_in cluster (some buf) = read_le 4 (fat_entry_offset fs cluster) buf

  unfoldable pub exfat_get_fat_entry : (cluster : ℕ) → Volume W → ℕ × Volume W
  exfat_get_fat_entry cluster v =
      if (palloc v.pmm).0 == 0
      then (fat_eoc, with_page v)
      else (fat_entry_in cluster (d.read_sector v.device (fat_sector fs cluster)), after_page v)

  -- A sector that is read, changed and written back.
  abbrev pub modify_sector :
      (sector : ℕ) → (Memory → Memory) → Option Memory → Volume W → Bool × Volume W
  modify_sector sector change none v = (false, after_page v)
  modify_sector sector change (some buf) v =
      let written = d.write_sector v.device sector (change buf) in
      (written.0, record (after_page v) { device = written.1 })

  -- A scratch page is taken; the sector is read into it, changed and written back.
  unfoldable pub update_sector : (sector : ℕ) → (Memory → Memory) → Volume W → Bool × Volume W
  update_sector sector change v =
      if (palloc v.pmm).0 == 0
      then (false, with_page v)
      else modify_sector sector change (d.read_sector v.device sector) v

  unfoldable pub exfat_set_fat_entry : (cluster value : ℕ) → Volume W → Bool × Volume W
  exfat_set_fat_entry cluster value v =
      update_sector (fat_sector fs cluster) (write_le 4 (fat_entry_offset fs cluster) value) v

  abbrev pub ents_per_clus : ℕ
  ents_per_clus = fs.bytes_per_cluster / dentry_size

  -- curr_clus after one step along the directory
  abbrev pub next_cluster : (contiguous : Bool) → (curr_clus : ℕ) → Volume W → ℕ × Volume W
  next_cluster true curr_clus v = ((curr_clus + 1) % 2 ^ 32, v)
  next_cluster false curr_clus v = exfat_get_fat_entry curr_clus v

  -- The loop to the cluster and the offset in it of an entry: `none` for the end of the chain, and
  -- for the end of the fuel.
  unfoldable pub walk_dir :
      (contiguous : Bool) → (fuel curr_clus ent_off : ℕ) → Volume W → Option (ℕ × ℕ) × Volume W
  walk_dir contiguous zero curr_clus ent_off v = (none, v)
  walk_dir contiguous (suc fuel) curr_clus ent_off v =
      let next = next_cluster contiguous curr_clus v in
      let later = walk_dir contiguous fuel next.0 (ent_off - ents_per_clus) next.1 in
      if ltb ent_off ents_per_clus
      then (some (curr_clus, ent_off), v)
      else if not contiguous && leb fat_eoc next.0
      then (none, next.1)
      else later

  abbrev pub dentry_sector : (curr_clus ent_off : ℕ) → ℕ
  dentry_sector curr_clus ent_off =
      exfat_cluster_to_sector fs curr_clus + ent_off * dentry_size / fs.bytes_per_sector

  abbrev pub dentry_offset : (ent_off : ℕ) → ℕ
  dentry_offset ent_off = (ent_off * dentry_size) % fs.bytes_per_sector

  abbrev pub dentry_in : (ent_off : ℕ) → Option Memory → Option Memory
  dentry_in ent_off none = none
  dentry_in ent_off (some buf) = some (λ j. buf (dentry_offset ent_off + j))

  abbrev pub read_dentry_at : Option (ℕ × ℕ) → Volume W → Option Memory × Volume W
  read_dentry_at none v = (none, v)
  read_dentry_at (some (curr_clus, ent_off)) v =
      if (palloc v.pmm).0 == 0 then (none, with_page v) else (
        dentry_in ent_off (d.read_sector v.device (dentry_sector curr_clus ent_off)),
        after_page v,
      )

  unfoldable pub exfat_read_dir_entry :
      (cluster : ℕ) → (contiguous : Bool) → (index : ℕ) → Volume W → Option Memory × Volume W
  exfat_read_dir_entry cluster contiguous index v =
      let walked = walk_dir contiguous (index + 1) cluster index v in
      read_dentry_at walked.0 walked.1

  abbrev pub write_dentry_at : Memory → Option (ℕ × ℕ) → Volume W → Bool × Volume W
  write_dentry_at entry none v = (false, v)
  write_dentry_at entry (some (curr_clus, ent_off)) v =
      update_sector (dentry_sector curr_clus ent_off) (put_dentry (dentry_offset ent_off) entry) v

  unfoldable pub exfat_write_dir_entry :
      (cluster : ℕ) → (contiguous : Bool) → (index : ℕ) → Memory → Volume W → Bool × Volume W
  exfat_write_dir_entry cluster contiguous index entry v =
      let walked = walk_dir contiguous (index + 1) cluster index v in
      write_dentry_at entry walked.0 walked.1
