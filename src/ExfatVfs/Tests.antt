-- ===== src/ExfatVfs/Tests.antt =====
-- The theorems about fs/exfat/exfat_vfs.c on a disk in memory, with a file of 9000 bytes in the
-- clusters from 7 on.
use osfix_operating_system.Base.{
  ℕ, ◌+◌, ◌*◌, ◌/◌, ◌%◌, ◌^◌, ◌≡◌, refl, true, false, not, none, some, [], ◌∷◌, ◌==◌, if◌then◌else◌,
  arith,
}
use osfix_operating_system.Memory.{Memory}
use osfix_operating_system.Pmm.{
  palloc, palloc_order, palloc_from, take_block, split_block, pmm_list_add, set_range, bitmap_set,
  pfree, pfree_order, merge_freed, merge, buddy_of, clear_range, bitmap_clear, pmm_list_contains,
  pmm_list_remove, update_list, contains, remove_first,
}
use osfix_operating_system.Pmm.Blocks.{within}
use osfix_operating_system.Exfat.{
  ExfatFs, Device, Volume, walk_dir, exfat_cluster_to_sector, exfat_read_dir_entry,
}
use osfix_operating_system.Exfat.Seek.{ExfatFile}
use osfix_operating_system.Exfat.Read.{order_for}
use osfix_operating_system.Exfat.Content.{IsReadable}
use osfix_operating_system.ExfatVfs.{
  InodeInfo, Ctx, cache_inode, get_cached_inode, open_info, stream_info, prepare_file_handle,
}
use osfix_operating_system.ExfatVfs.Cache.{prepare_file_handle-again}
use osfix_operating_system.ExfatVfs.Read.{IsServed, exfat_vfs_read-cached}

abbrev Sectors : Type 0
Sectors = ℕ → Memory

abbrev memory_disk : Device Sectors
memory_disk = record {
  read_sectors = λ w s n. some (λ i. w (s + i / 512) (i % 512));
  read_sector = λ w s. some (w s);
  write_sector = λ w s b. (true, λ t. if t == s then b else w t);
}

abbrev fs : ExfatFs
fs = record {
  bytes_per_sector = 512;
  sectors_per_cluster = 8;
  bytes_per_cluster = 4096;
  fat_offset = 128;
  cluster_heap_offset = 256;
  root_dir_cluster = 2;
  cluster_count = 1000;
}

abbrev numbered : Sectors
numbered s i = s + i

abbrev volume : Volume Sectors
volume = record {
  pmm = record {
    total_pages = 2;
    free_pages = 2;
    bitmap = λ page. not (within 2 2 page);
    max_page = 8;
    free_lists = λ order. if order == 1 then 8192 ∷ [] else [];
  };
  device = numbered;
}

abbrev info : InodeInfo
info = record {
  inode = 2 * 2 ^ 32 + 5;
  first_cluster = 7;
  size = 9000;
  no_fat_chain = true;
  dir_cluster = 2;
  dir_contiguous = false;
  dir_index = 5;
  valid = true;
}

-- A cache with no inode in it.
abbrev empty : Ctx
empty = record { fs = fs; cache = λ slot. record info { valid = false } }

info-cached : get_cached_inode (cache_inode info empty) (2 * 2 ^ 32 + 5) ≡ some info
unfolding get_cached_inode cache_inode
info-cached = refl

volume-IsReadable : IsReadable memory_disk 512 320 numbered numbered
volume-IsReadable = record { reads = λ s n fits i below. refl }

volume-page : (palloc_order (order_for 32 0 4096) volume.pmm).0 ≡ 8192
unfolding order_for palloc_order palloc_from take_block
volume-page = refl

exfat_vfs_read-cached_example :
    IsServed memory_disk numbered 320
      (cache_inode info empty)
      info
      (2 * 2 ^ 32 + 5)
      1000
      4000
      volume
unfolding cache_inode
exfat_vfs_read-cached_example =
    exfat_vfs_read-cached memory_disk numbered 320 (cache_inode info empty) info (2 * 2 ^ 32 + 5)
      1000 4000 3 volume info-cached (omega arith) refl (omega arith) (omega arith) refl
      (omega arith) (omega arith) (omega arith) (omega arith) (omega arith) (omega arith)
      (λ none_left. omega (arith, volume-page, none_left)) volume-IsReadable

-- The two entries of the inode on the disk.
abbrev file_5 : Memory
file_5 j = numbered 256 (160 + j)

abbrev stream_5 : Memory
stream_5 j = numbered 256 (192 + j)

first-read : (exfat_read_dir_entry memory_disk fs 2 false 5 volume).0 ≡ some file_5
unfolding exfat_read_dir_entry walk_dir exfat_cluster_to_sector palloc palloc_order palloc_from
    take_block
first-read = refl

second-read :
    (exfat_read_dir_entry memory_disk fs 2 false 6
      (exfat_read_dir_entry memory_disk fs 2 false 5 volume).1).0
    ≡ some stream_5
unfolding exfat_read_dir_entry walk_dir exfat_cluster_to_sector palloc palloc_order palloc_from
    take_block split_block pmm_list_add set_range bitmap_set pfree pfree_order merge_freed merge
    buddy_of clear_range bitmap_clear pmm_list_contains pmm_list_remove update_list contains
    remove_first
second-read = refl

empty-missed : get_cached_inode empty (2 * 2 ^ 32 + 5) ≡ none
unfolding get_cached_inode
empty-missed = refl

abbrev opened : ExfatFile × Ctx × Volume Sectors
opened = prepare_file_handle memory_disk empty (2 * 2 ^ 32 + 5) volume

prepare_file_handle-again_example :
    (opened.0 ≡ open_info (stream_info (2 * 2 ^ 32 + 5) stream_5))
    × (prepare_file_handle memory_disk opened.1 (2 * 2 ^ 32 + 5) volume
        ≡ (opened.0, opened.1, volume))
prepare_file_handle-again_example =
    prepare_file_handle-again memory_disk empty (2 * 2 ^ 32 + 5) volume volume file_5 stream_5
      (λ zero_inode. omega arith) empty-missed first-read second-read
