-- ===== src/ExfatVfs/Cache.antt =====
-- fs/exfat/exfat_vfs.c: what the cache of inodes returns, and that a file is opened the same way
-- with it as without.
use osfix_operating_system.Base.{
  ℕ, ◌+◌, ◌/◌, ◌%◌, ◌^◌, ◌≡◌, ◌≢◌, refl, ap, sym, ◌∙◌, true, false, none, some, ◌==◌, if◌then◌else◌,
  arith, Bool-cases, inl, inr,
}
use osfix_operating_system.Memory.{Memory}
use osfix_operating_system.Exfat.{Device, Volume, exfat_read_dir_entry}
use osfix_operating_system.ExfatVfs.{
  InodeInfo, Ctx, max_inode_cache, cache_inode, get_cached_inode, open_info, stream_info,
  open_entries, prepare_file_handle,
}

-- After an inode is cached, it is found with what was given; another inode of its slot is not
-- found, and an inode of any other slot is found as before.
pub get_cached_inode-cache_inode :
    (info : InodeInfo) (ctx : Ctx) (inode : ℕ)
    → get_cached_inode (cache_inode info ctx) inode ≡ (
        if inode == info.inode
        then some (record info { valid = true })
        else if inode % max_inode_cache == info.inode % max_inode_cache
        then none
        else get_cached_inode ctx inode)
unfolding get_cached_inode cache_inode
get_cached_inode-cache_inode info ctx inode =
    elim (Bool-cases (inode % max_inode_cache == info.inode % max_inode_cache)) [
      | inl same ↦ elim (Bool-cases (inode == info.inode)) [
        | inl hit ↦
            let found : info.inode == inode ≡ true = ground (arith, hit) in
            rw (same, found, hit) refl
        | inr miss ↦
            let lost : info.inode == inode ≡ false = ground (arith, miss) in
            rw (same, lost, miss) refl
      ]
      | inr other ↦
          let miss : inode == info.inode ≡ false = ground (arith, other) in rw (other, miss) refl
    ]

module _ {W : Type 0} (d : Device W) where
  -- An inode that is not 0, that the cache does not have and whose two entries can be read: the
  -- handle is opened from the second entry, and opening the inode again gives the same handle, without a read.
  pub prepare_file_handle-again :
      (ctx : Ctx) (inode : ℕ) (v w : Volume W) (fe se : Memory)
      → inode ≢ 0
      → get_cached_inode ctx inode ≡ none
      → (exfat_read_dir_entry d ctx.fs (inode / 2 ^ 32) false (inode % 2 ^ 32) v).0 ≡ some fe
      → (exfat_read_dir_entry d ctx.fs
          (inode / 2 ^ 32)
          false
          ((inode + 1) % 2 ^ 32)
          (exfat_read_dir_entry d ctx.fs (inode / 2 ^ 32) false (inode % 2 ^ 32) v).1).0
        ≡ some se
      → ((prepare_file_handle d ctx inode v).0 ≡ open_info (stream_info inode se))
        × (prepare_file_handle d (prepare_file_handle d ctx inode v).1 inode w
            ≡ ((prepare_file_handle d ctx inode v).0, (prepare_file_handle d ctx inode v).1, w))
  unfolding prepare_file_handle
  prepare_file_handle-again ctx inode v w fe se some_inode missed first second =
      let info = stream_info inode se in
      let other : inode == 0 ≡ false = ground arith in
      let here : inode == inode ≡ true = ground arith in
      let opened : prepare_file_handle d ctx inode v ≡ (
        open_info info,
        cache_inode info ctx,
        (exfat_read_dir_entry d ctx.fs (inode / 2 ^ 32) false ((inode + 1) % 2 ^ 32)
            (exfat_read_dir_entry d ctx.fs (inode / 2 ^ 32) false (inode % 2 ^ 32) v).1).1,
      ) =
        rw (missed, prepare_file_handle, other, first, open_entries, second) refl in
      let cached : get_cached_inode (cache_inode info ctx) inode ≡ some info =
        get_cached_inode-cache_inode info ctx inode ∙ rw here refl in
      let again : prepare_file_handle d (cache_inode info ctx) inode w
          ≡ (open_info info, cache_inode info ctx, w) =
        rw (cached, prepare_file_handle) refl in
      (
        ap (λ r. r.0) opened,
        ap (λ r. prepare_file_handle d r.1 inode w) opened
            ∙ again
            ∙ ap (λ r. (r.0, r.1, w)) (sym opened),
      )
