-- ===== src/RamFs/Names/Lookup.antt =====
-- kernel/main/fsm/initramfs/ramfs.c: which file a path finds after ramfs_create and ramfs_mkdir.
use osfix_operating_system.Base.{
  ℕ, ◌+◌, ◌-◌, ◌<◌, ◌≤◌, ◌≡◌, ◌≢◌, refl, ap, ◌∙◌, sym, true, false, Option, none, some, List, [],
  ◌∷◌, ◌++◌, leb, if◌then◌else◌, length, take, arith, Bool-cases, Option-cases, inl, inr,
  length-take, length-append, take-length_le,
}
use osfix_operating_system.Text.{CString}
use osfix_operating_system.Text.Content.{content}
use osfix_operating_system.Vfs.{slash}
use osfix_operating_system.RamFs.{
  RamFile, RamFs, max_files, type_dir, skip_root, normalize_ramfs_path, same_name, find_name,
  name_entry, add_file, ramfs_path_to_inode, ramfs_create, ramfs_mkdir,
}
use osfix_operating_system.RamFs.Names.{
  same_name-content, same_name_of_content, content-normalize, content-name_entry,
}
use osfix_operating_system.RamFs.Inodes.{IsValid, Numbered}

same_name-congr : (a b c : CString) → content b ≡ content c → same_name a b ≡ same_name a c
same_name-congr a b c h = elim (Bool-cases (same_name a b)) [
  | inl hit ↦ hit ∙ sym (same_name_of_content a c (same_name-content a b hit ∙ h))
  | inr miss ↦ elim (Bool-cases (same_name a c)) [
    | inl hit ↦ ground (arith, same_name_of_content a b (same_name-content a c hit ∙ sym h))
    | inr miss' ↦ miss ∙ sym miss'
  ]
]

find_name-congr :
    (b c : CString) (fs : List RamFile) → content b ≡ content c → find_name b fs ≡ find_name c fs
unfolding find_name
find_name-congr b c [] h = refl
find_name-congr b c (f ∷ fs) h = rw (same_name-congr f.name b c h, find_name-congr b c fs h)

find_name-append :
    (n : CString) (fs : List RamFile) (g : RamFile)
    → find_name n (fs ++ (g ∷ [])) ≡ elim (find_name n fs) [
      | none ↦ if same_name g.name n then some g else none
      | some f ↦ some f
    ]
unfolding find_name
find_name-append n [] g = refl
find_name-append n (f ∷ fs) g = ground (arith, find_name-append n fs g)

skip_root-end : (d : ℕ) (s : CString) → d ≡ 0 → content (skip_root (d ∷ s)) ≡ []
unfolding skip_root
skip_root-end d [] h = ground arith
skip_root-end d (x ∷ s) h = ground arith

-- The root's path names nothing but the root.
skip_root-slash : (path : CString) → same_name path slash ≡ true → content (skip_root path) ≡ []
unfolding skip_root
skip_root-slash [] h = refl
skip_root-slash (c ∷ []) h = ground (arith, same_name-content (c ∷ []) slash)
skip_root-slash (c ∷ d ∷ s) h =
    ground (arith, same_name-content (c ∷ d ∷ s) slash h, skip_root-end d s)

find_name-inode :
    (k : ℕ) (n : CString) (fs : List RamFile) (f : RamFile)
    → Numbered k fs
    → find_name n fs ≡ some f
    → f.inode < k + length fs
unfolding find_name
find_name-inode k n [] f h e = cc
find_name-inode k n (g ∷ fs) f h e = ground (arith, find_name-inode (k + 1) n fs f h.1)

-- A path that names a file other than the root, and the buffers for its name.
module _ (path : CString) (norm norm' : List ℕ) (named : content (skip_root path) ≢ [])
    (full : length norm ≡ 256) (full' : length norm' ≡ 256) where
  normalize-same :
      content (normalize_ramfs_path path norm) ≡ content (normalize_ramfs_path path norm')
  normalize-same =
      content-normalize path norm (omega arith) named
      ∙ ap (λ n. take (n - 1) (content (skip_root path))) (full ∙ sym full')
      ∙ sym (content-normalize path norm' (omega arith) named)

  -- The name in the new entry is the whole normal form.
  entry-same :
      content (name_entry (normalize_ramfs_path path norm))
      ≡ content (normalize_ramfs_path path norm)
  entry-same =
      content-name_entry (normalize_ramfs_path path norm)
      ∙ take-length_le 255 (content (normalize_ramfs_path path norm)) short
    where
      short : length (content (normalize_ramfs_path path norm)) ≤ 255
      short =
          rw (content-normalize path norm (omega arith) named)
            (omega (arith, length-take (length norm - 1) (content (skip_root path))))

  not_root : same_name path slash ≡ false
  not_root = elim (Bool-cases (same_name path slash)) [
    | inl hit ↦ absurd (named (skip_root-slash path hit))
    | inr miss ↦ miss
  ]

  path_to_inode-find :
      (ctx : RamFs)
      → ramfs_path_to_inode path norm' ctx
        ≡ elim (find_name (normalize_ramfs_path path norm) ctx.files) [
          | none ↦ 0
          | some f ↦ f.inode
        ]
  unfolding ramfs_path_to_inode
  path_to_inode-find ctx = rw (
    not_root,
    find_name-congr (normalize_ramfs_path path norm) (normalize_ramfs_path path norm') ctx.files
        normalize-same,
  )

  abbrev n : CString
  n = normalize_ramfs_path path norm

  -- A new entry is found under the path, unless another was found before.
  path_to_inode-add_file :
      (type : ℕ) (ctx : RamFs)
      → ramfs_path_to_inode path norm' (add_file n type ctx).1
        ≡ elim (find_name n ctx.files) [ none ↦ ctx.next_inode | some f ↦ f.inode ]
  unfolding add_file
  path_to_inode-add_file type ctx =
      let hit : same_name (name_entry n) n ≡ true =
        same_name_of_content (name_entry n) n entry-same in
      elim (Option-cases (find_name n ctx.files)) [
        | inl e ↦ rw (path_to_inode-find, add_file, find_name-append, e, hit)
        | inr (f, e) ↦ rw (path_to_inode-find, add_file, find_name-append, e)
      ]

  -- For a path that names more than the root, with 256 bytes for each of the buffers that hold its
  -- normal form: unless the context is full, the path finds after ramfs_create the inode that it
  -- returned.
  pub create-path_to_inode :
      (ctx : RamFs)
      → length ctx.files < max_files
      → ramfs_path_to_inode path norm' (ramfs_create path norm ctx).1
        ≡ (ramfs_create path norm ctx).0
  unfolding ramfs_create
  create-path_to_inode ctx room =
      let room' : leb max_files (length ctx.files) ≡ false = ground arith in
      elim (Option-cases (find_name n ctx.files)) [
        | inl e ↦ rw (e, ramfs_create, room', path_to_inode-add_file, e) (unfold add_file in refl)
        | inr (f, e) ↦ rw (e, ramfs_create, path_to_inode-find, e)
      ]

  -- ramfs_mkdir does not look for an entry of the same name: on a path that finds an inode it makes
  -- another entry, and returns an inode that the path never finds, since the old one is found first.
  mkdir_shadowed :
      (ctx : RamFs) (f : RamFile)
      → length ctx.files < max_files
      → find_name n ctx.files ≡ some f
      → IsValid ctx
      → (ramfs_path_to_inode path norm' (ramfs_mkdir path norm ctx).1 ≡ f.inode)
        × ((ramfs_mkdir path norm ctx).0 ≢ f.inode)
        × (length (ramfs_mkdir path norm ctx).1.files ≡ length ctx.files + 1)
  unfolding ramfs_mkdir
  mkdir_shadowed ctx f room e v =
      let room' : leb max_files (length ctx.files) ≡ false = ground arith in
      rw (ramfs_mkdir, room')
        (
          path_to_inode-add_file type_dir ctx ∙ ap found e,
          unfold add_file in
              λ h. omega (arith, find_name-inode 1 n ctx.files f v.numbered e, v.next),
          unfold add_file in length-append ctx.files _,
        )
    where
      found : Option RamFile → ℕ
      found o = elim o [ none ↦ ctx.next_inode | some g ↦ g.inode ]
