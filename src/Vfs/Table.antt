-- ===== src/Vfs/Table.antt =====
-- kernel/main/fsm/vfs.c: the registry and the mount table under vfs_init,
-- vfs_register_filesystem and vfs_mount.
use osfix_operating_system.Base.{
  ℕ, ◌<◌, ◌≤◌, ◌≡◌, ◌≢◌, ◌⊎◌, ◌&&◌, refl, Option, none, some, List, [], ◌∷◌, ◌++◌, ltb, leb, ◌==◌,
  if◌then◌else◌, length, get_elem?, length-append, length-snoc_le, get_elem?-append_left,
  get_elem?-append_length, arith, Option-cases, Bool-cases, inl, inr,
}
use osfix_operating_system.Text.{first}
use osfix_operating_system.Vfs.{
  Vfs, Mount, Filesystem, max_filesystems, max_mounts, mount_path, vfs_init,
  vfs_register_filesystem, find_type, vfs_find, call_mount, mount_found, vfs_mount,
}

first-mount_path : (type : ℕ) → first (mount_path type) ≡ b'/'
unfolding mount_path
first-mount_path type = ground arith

module _ {W : Type 0} where
  -- A mount that vfs_mount made: it has a file system, a context and a path.
  pub record IsLive (m : Mount W) : Type 0 where
    pub fs : m.fs ≢ none
    pub ctx : m.fs_ctx ≢ 0
    pub path : first m.path ≡ b'/'

  abbrev pub AllLive : List (Mount W) → Type 0
  AllLive [] = Unit {0}
  AllLive (m ∷ ms) = IsLive m × AllLive ms

  pub record IsValid (v : Vfs W) : Type 0 where
    pub registered : length v.registered ≤ max_filesystems
    pub mounts : length v.mounts ≤ max_mounts
    pub live : AllLive v.mounts

  AllLive-append : (ms ns : List (Mount W)) → AllLive ms → AllLive ns → AllLive (ms ++ ns)
  AllLive-append [] ns h k = k
  AllLive-append (m ∷ ms) ns h k = (h.0, AllLive-append ms ns h.1 k)

  -- vfs_init leaves valid tables.
  pub vfs_init-IsValid : (v : Vfs W) → IsValid (vfs_init v)
  unfolding vfs_init
  vfs_init-IsValid v = ground arith

  -- vfs_register_filesystem keeps the tables valid.
  pub vfs_register_filesystem-IsValid :
      (fs : Option (Filesystem W)) (v : Vfs W)
      → IsValid v
      → IsValid (vfs_register_filesystem fs v).1
  unfolding vfs_register_filesystem
  vfs_register_filesystem-IsValid none v h = h
  vfs_register_filesystem-IsValid (some fs) v h =
      ground (arith, length-append v.registered (fs ∷ []))

  mount_found-IsValid :
      (fs : Filesystem W) (type device size rd wr : ℕ) (v : Vfs W) (w : W)
      → IsValid v
      → IsValid (mount_found fs type device size rd wr v w).1
  unfolding mount_found
  mount_found-IsValid fs type device size rd wr v w h =
      elim (Bool-cases (leb max_mounts (length v.mounts))) [
        | inl full ↦ rw (full, mount_found) h
        | inr room ↦ elim (Bool-cases ((call_mount fs device size w).0 == 0)) [
          | inl failed ↦ rw (room, failed, mount_found) h
          | inr made ↦
              rw (room, made, mount_found)
                (record {
                  registered = h.registered;
                  mounts = length-snoc_le v.mounts _ max_mounts (ground arith);
                  live = AllLive-append v.mounts _ h.live (
                      (
                        record {
                          fs = λ e. cc;
                          ctx = λ e. ground arith;
                          path = first-mount_path type;
                        },
                        tt,
                      ));
                })
        ]
      ]

  -- vfs_mount keeps the tables valid.
  pub vfs_mount-IsValid :
      (type device size rd wr : ℕ) (v : Vfs W) (w : W)
      → IsValid v
      → IsValid (vfs_mount type device size rd wr v w).1
  unfolding vfs_mount
  vfs_mount-IsValid type device size rd wr v w h = elim (Option-cases (vfs_find type v)) [
    | inl e ↦ rw (e, vfs_mount) h
    | inr (fs, e) ↦ rw (e, vfs_mount) (mount_found-IsValid fs type device size rd wr v w h)
  ]

  find_type-append :
      (type : ℕ) (l : List (Filesystem W)) (fs : Filesystem W)
      → find_type type (l ++ (fs ∷ [])) ≡ elim (find_type type l) [
        | none ↦ if fs.fs_type == type then some fs else none
        | some old ↦ some old
      ]
  unfolding find_type
  find_type-append type [] fs = refl
  find_type-append type (x ∷ l) fs = ground (arith, find_type-append type l fs)

  -- A file system that is registered is found under its type from then on, unless one that was
  -- registered before it has the same type: then that one is still found. Other types are found
  -- as before, and a registration that is refused changes nothing.
  vfs_find-register :
      (fs : Filesystem W) (v : Vfs W) (type : ℕ)
      → vfs_find type (vfs_register_filesystem (some fs) v).1 ≡ elim (vfs_find type v) [
        | none ↦
            if ltb (length v.registered) max_filesystems && fs.fs_type == type
            then some fs
            else none
        | some old ↦ some old
      ]
  unfolding vfs_register_filesystem vfs_find
  vfs_find-register fs v type = ground (arith, find_type-append type v.registered fs)

  -- The mount that a successful vfs_mount makes.
  abbrev pub made : Filesystem W → (ctx type device size rd wr : ℕ) → Mount W
  made fs ctx type device size rd wr = record {
    fs = some fs;
    fs_ctx = ctx;
    device_ptr = device;
    read_cb = rd;
    write_cb = wr;
    sector_count = size;
    path = mount_path type;
  }

  mount_found_lem :
      (fs : Filesystem W) (type device size rd wr : ℕ) (v : Vfs W) (w : W) (i : ℕ) (v' : Vfs W)
      (w' : W)
      → mount_found fs type device size rd wr v w ≡ (some i, v', w')
      → (i ≡ length v.mounts)
        × (length v.mounts < max_mounts)
        × ((call_mount fs device size w).0 ≢ 0)
        × (w' ≡ (call_mount fs device size w).1)
        × (v' ≡ record v {
          mounts =
              v.mounts ++ (made fs (call_mount fs device size w).0 type device size rd wr ∷ []);
        })
  unfolding mount_found
  mount_found_lem fs type device size rd wr v w i v' w' h = ground arith

  -- A mount that succeeds goes to the last place of the table, the index returned, with the file
  -- system found for its type, the context that its mount routine returned (never NULL) and the
  -- path of its type; there was room for it, and no other entry of the table and no registered
  -- file system changes.
  vfs_mount-eq_some :
      (type device size rd wr : ℕ) (v : Vfs W) (w : W) (i : ℕ) (v' : Vfs W) (w' : W)
      → vfs_mount type device size rd wr v w ≡ (some i, v', w')
      → (fs : Filesystem W) × (vfs_find type v ≡ some fs)
        × (i ≡ length v.mounts)
        × (i < max_mounts)
        × ((call_mount fs device size w).0 ≢ 0)
        × (w' ≡ (call_mount fs device size w).1)
        × (get_elem? v'.mounts i
            ≡ some (made fs (call_mount fs device size w).0 type device size rd wr))
        × ((j : ℕ) → j < i → get_elem? v'.mounts j ≡ get_elem? v.mounts j)
        × (v'.registered ≡ v.registered)
  unfolding vfs_mount
  vfs_mount-eq_some type device size rd wr v w i v' w' h = elim (Option-cases (vfs_find type v)) [
    | inl e ↦ absurd (none-case (rw (e, vfs_mount) at h))
    | inr (fs, e) ↦
        let (at_end, room, live, w-eq, v-eq) =
          mount_found_lem fs type device size rd wr v w i v' w' (rw (e, vfs_mount) at h) in
        (
          fs,
          e,
          at_end,
          omega arith,
          live,
          w-eq,
          rw (v-eq, at_end) (get_elem?-append_length v.mounts _ []),
          λ j lt. rw v-eq (get_elem?-append_left v.mounts _ j (omega arith)),
          rw v-eq refl,
        )
  ]
    where
      none-case : ◌≡◌ {A = Option ℕ × Vfs W × W} (none, v, w) (some i, v', w') → ⊥
      none-case e = cc

  mount_found-eq_none :
      (fs : Filesystem W) (type device size rd wr : ℕ) (v : Vfs W) (w : W) (v' : Vfs W) (w' : W)
      → mount_found fs type device size rd wr v w ≡ (none, v', w')
      → (v' ≡ v) × ((max_mounts ≤ length v.mounts) ⊎ ((call_mount fs device size w).0 ≡ 0))
  unfolding mount_found
  mount_found-eq_none fs type device size rd wr v w v' w' h = ground arith

  -- A mount that fails leaves the tables as they were. It fails for one of three reasons: the type
  -- is not registered, the table is full, or the mount routine is missing or returned NULL.
  pub vfs_mount-eq_none :
      (type device size rd wr : ℕ) (v : Vfs W) (w : W) (v' : Vfs W) (w' : W)
      → vfs_mount type device size rd wr v w ≡ (none, v', w')
      → (v' ≡ v)
        × ((vfs_find type v ≡ none)
            ⊎ (max_mounts ≤ length v.mounts)
            ⊎ ((fs : Filesystem W) × (vfs_find type v ≡ some fs)
                × ((call_mount fs device size w).0 ≡ 0)))
  unfolding vfs_mount mount_found
  vfs_mount-eq_none type device size rd wr v w v' w' h = elim (Option-cases (vfs_find type v)) [
    | inl e ↦ (stays (rw (e, vfs_mount) at h), inl e)
    | inr (fs, e) ↦
        let (same, why) =
          mount_found-eq_none fs type device size rd wr v w v' w' (rw (e, vfs_mount) at h) in
        (same, inr (elim why [ inl full ↦ inl full | inr failed ↦ inr (fs, e, failed) ]))
  ]
    where
      stays : ◌≡◌ {A = Option ℕ × Vfs W × W} (none, v, w) (none, v', w') → v' ≡ v
      stays e = cc
