-- ===== src/Exfat/Tests.antt =====
-- The theorems about fs/exfat/exfat.c on a disk in memory, with two free pages for the scratch
-- buffers.
use osfix_operating_system.Base.{
  bit_at, ◌/◌, ◌%◌, ◌-◌, ◌^◌, ℕ, ◌+◌, ◌≡◌, ◌≢◌, inr, refl, true, false, not, some, [], ◌∷◌, ◌==◌,
  if◌then◌else◌, arith,
}
use osfix_operating_system.Memory.{Memory}
use osfix_operating_system.Elf.{read_le, write_le}
use osfix_operating_system.Memory.{write}
use osfix_operating_system.Pmm.{
  palloc, palloc_order, palloc_from, take_block, split_block, pmm_list_add, set_range, bitmap_set,
  pfree, pfree_order, merge_freed, merge, buddy_of, clear_range, bitmap_clear, pmm_list_contains,
  pmm_list_remove, update_list, contains, remove_first,
}
use osfix_operating_system.Pmm.Blocks.{within}
use osfix_operating_system.Exfat.{
  exfat_cluster_to_sector, ExfatFs, Device, Volume, dentry_size, update_sector, walk_dir,
  exfat_get_fat_entry, exfat_set_fat_entry, exfat_read_dir_entry, exfat_write_dir_entry,
}
use osfix_operating_system.Exfat.Disk.{IsDisk, Holds}
use osfix_operating_system.Exfat.Fat.{exfat_get-set}
use osfix_operating_system.Exfat.Dir.{exfat_read-write_dir_entry}
use osfix_operating_system.Exfat.Seek.{ExfatFile, exfat_seek, exfat_seek-eoc}
use osfix_operating_system.Exfat.Read.{order_for}
use osfix_operating_system.Exfat.Content.{IsReadable}
use osfix_operating_system.Exfat.ReadAt.{IsReadAt, exfat_seek-IsReadAt}
use osfix_operating_system.Exfat.Bitmap.{bitmap_info_from, exfat_get_bitmap_info}
use osfix_operating_system.Exfat.FirstFree.{bit_of}
use osfix_operating_system.Exfat.Lowest.{IsAllocated, exfat_allocate_cluster-IsAllocated}

abbrev Sectors : Type 0
Sectors = ℕ → Memory

abbrev memory_disk : Device Sectors
memory_disk = record {
  read_sectors = λ w s n. some (λ i. w (s + i / 512) (i % 512));
  read_sector = λ w s. some (w s);
  write_sector = λ w s b. (true, λ t. if t == s then b else w t);
}

memory_disk-IsDisk : IsDisk memory_disk 512
memory_disk-IsDisk = record {
  reads_back = λ w s b ok i below. (let same : s == s ≡ true = ground arith in rw same refl);
  keeps_others = λ w s t b differ. (let other : t == s ≡ false = ground arith in rw other refl);
}

abbrev fs : ExfatFs
fs = record {
  bytes_per_sector = 512;
  sectors_per_cluster = 8;
  bytes_per_cluster = 4096;
  fat_offset = 128;
  cluster_heap_offset = 256;
  root_dir_cluster = 2;
  cluster_count = 1000;
}

abbrev volume : Volume Sectors
volume = record {
  pmm = record {
    total_pages = 2;
    free_pages = 2;
    bitmap = λ page. not (within 2 2 page);
    max_page = 8;
    free_lists = λ order. if order == 1 then 8192 ∷ [] else [];
  };
  device = λ s i. 0;
}

abbrev set_5 : Volume Sectors
set_5 = (exfat_set_fat_entry memory_disk fs 5 6 volume).1

set_5-ok : (exfat_set_fat_entry memory_disk fs 5 6 volume).0 ≡ true
unfolding exfat_set_fat_entry update_sector palloc palloc_order palloc_from take_block
set_5-ok = refl

set_5-palloc : (palloc set_5.pmm).0 ≡ 8192
unfolding exfat_set_fat_entry update_sector palloc palloc_order palloc_from take_block split_block
    pmm_list_add set_range bitmap_set pfree pfree_order merge_freed merge buddy_of clear_range
    bitmap_clear pmm_list_contains pmm_list_remove update_list contains remove_first
set_5-palloc = refl

set_5-page : (palloc set_5.pmm).0 ≢ 0
set_5-page none_left = absurd (omega (arith, set_5-palloc, none_left))

fat_runs : (exfat_get_fat_entry memory_disk fs 5 set_5).0 ≡ 6
unfolding exfat_get_fat_entry exfat_set_fat_entry update_sector palloc palloc_order palloc_from
    take_block split_block pmm_list_add set_range bitmap_set pfree pfree_order merge_freed merge
    buddy_of clear_range bitmap_clear pmm_list_contains pmm_list_remove update_list contains
    remove_first read_le write_le write
fat_runs = refl

exfat_get-set_example :
    (exfat_get_fat_entry memory_disk fs 3 set_5).0
    ≡ (if 3 == 5 then 6 else (exfat_get_fat_entry memory_disk fs 3 volume).0)
exfat_get-set_example =
    exfat_get-set memory_disk fs memory_disk-IsDisk (omega arith) refl 5 3 6 volume (omega arith)
      set_5-ok set_5-page

abbrev entry : Memory
entry = λ i. i + 1

abbrev wrote_3 : Volume Sectors
wrote_3 = (exfat_write_dir_entry memory_disk fs 2 false 3 entry volume).1

wrote_3-ok : (exfat_write_dir_entry memory_disk fs 2 false 3 entry volume).0 ≡ true
unfolding exfat_write_dir_entry walk_dir update_sector palloc palloc_order palloc_from take_block
wrote_3-ok = refl

wrote_3-palloc : (palloc wrote_3.pmm).0 ≡ 8192
unfolding exfat_write_dir_entry walk_dir update_sector palloc palloc_order palloc_from take_block
    split_block pmm_list_add set_range bitmap_set pfree pfree_order merge_freed merge buddy_of
    clear_range bitmap_clear pmm_list_contains pmm_list_remove update_list contains remove_first
wrote_3-palloc = refl

wrote_3-page : (palloc wrote_3.pmm).0 ≢ 0
wrote_3-page none_left = absurd (omega (arith, wrote_3-palloc, none_left))

exfat_read-write_dir_entry_example :
    Holds dentry_size (exfat_read_dir_entry memory_disk fs 2 false 3 wrote_3).0 entry
exfat_read-write_dir_entry_example =
    exfat_read-write_dir_entry memory_disk fs memory_disk-IsDisk (omega arith) refl (omega arith) 2
      false 3 entry volume (inr (omega arith)) wrote_3-ok wrote_3-page

-- A file of 9000 bytes in the clusters from 7 on.
abbrev run : ExfatFile
run = record {
  first_cluster = 7;
  file_size = 9000;
  position = 0;
  current_cluster = 7;
  cluster_offset = 0;
  no_fat_chain = true;
}

-- A file that fills the cluster 7, on a disk whose bytes are all 255.
abbrev full_cluster : ExfatFile
full_cluster = record run { file_size = 4096; no_fat_chain = false }

abbrev ended : Volume Sectors
ended = record volume { device = λ s i. 255 }

full_cluster-last : (exfat_get_fat_entry memory_disk fs 7 ended).0 ≡ 2 ^ 32 - 1
unfolding exfat_get_fat_entry palloc palloc_order palloc_from take_block read_le
full_cluster-last = refl

exfat_seek-eoc_example :
    exfat_seek memory_disk fs full_cluster 4096 ended
    ≡ some (
      record full_cluster { position = 4096; current_cluster = 2 ^ 32 - 1; cluster_offset = 0 },
      (exfat_get_fat_entry memory_disk fs 7 ended).1,
    )
exfat_seek-eoc_example =
    exfat_seek-eoc memory_disk fs full_cluster ended (omega arith) (omega arith) refl (omega arith)
      (omega arith) refl full_cluster-last

abbrev numbered : Sectors
numbered s i = s + i

abbrev written : Volume Sectors
written = record volume { device = numbered }

written-IsReadable : IsReadable memory_disk 512 320 numbered numbered
written-IsReadable = record { reads = λ s n fits i below. refl }

written-page : (palloc_order (order_for 32 0 4096) written.pmm).0 ≡ 8192
unfolding order_for palloc_order palloc_from take_block
written-page = refl

exfat_seek-IsReadAt_example : IsReadAt memory_disk fs numbered 320 run 4000 1000 written
exfat_seek-IsReadAt_example =
    exfat_seek-IsReadAt memory_disk fs numbered 320 run 4000 1000 3 written (omega arith) refl
      (omega arith) (omega arith) refl (omega arith) (omega arith) (omega arith) (omega arith)
      (omega arith) (omega arith) (λ none_left. omega (arith, written-page, none_left))
      written-IsReadable

-- The root directory has an entry for a bitmap in the cluster 3, whose bits are clear.
abbrev rooted : Volume Sectors
rooted = record volume {
  device = λ s i.
      if s == 256
      then if i == 0 then 129 else if i == 20 then 3 else if i == 24 then 125 else 0
      else 0;
}

rooted-info : (exfat_get_bitmap_info memory_disk fs rooted).0 ≡ some (3, 125)
unfolding exfat_get_bitmap_info bitmap_info_from exfat_read_dir_entry walk_dir
    exfat_cluster_to_sector palloc palloc_order palloc_from take_block read_le
rooted-info = refl

rooted-palloc : (palloc (exfat_get_bitmap_info memory_disk fs rooted).1.pmm).0 ≡ 8192
unfolding exfat_get_bitmap_info bitmap_info_from exfat_read_dir_entry walk_dir
    exfat_cluster_to_sector palloc palloc_order palloc_from take_block split_block pmm_list_add
    set_range bitmap_set pfree pfree_order merge_freed merge buddy_of clear_range bitmap_clear
    pmm_list_contains pmm_list_remove update_list contains remove_first
rooted-palloc = refl

abbrev bitmap_3 : Memory
bitmap_3 i = rooted.device (264 + i / 512) (i % 512)

bit_40-clear : bit_of 40 bitmap_3 ≡ 0
unfolding bit_at
bit_40-clear = refl

exfat_allocate_cluster-IsAllocated_example : IsAllocated memory_disk fs 1 rooted bitmap_3
unfolding exfat_cluster_to_sector
exfat_allocate_cluster-IsAllocated_example =
    exfat_allocate_cluster-IsAllocated memory_disk fs 0 3 125 40 rooted bitmap_3 rooted-info
      (λ none_left. omega (arith, rooted-palloc, none_left)) (omega arith) refl refl (omega arith)
      (omega arith) (omega arith) bit_40-clear
