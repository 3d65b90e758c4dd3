-- ===== src/Initramfs/Placed.antt =====
-- kernel/main/fsm/initramfs/initramfs-unpacker.c: what the loop's body asks of the file system for
-- one member of an archive.
use osfix_operating_system.Base.{
  ℕ, suc, ◌-◌, ◌/◌, ◌%◌, ◌≤◌, ◌<◌, ◌≡◌, ◌≢◌, ◌⊎◌, inl, inr, refl, ap, sym, ◌∙◌, Bool, true, false,
  Option, List, [], ◌∷◌, ◌++◌, ◌==◌, ◌&&◌, ltb, length, drop, replicate, arith, Bool-cases,
  take-length_le, subst,
}
use osfix_operating_system.Text.{CString, first, char_at}
use osfix_operating_system.Text.Content.{content}
use osfix_operating_system.Vfs.{Mount}
use osfix_operating_system.Vfs.Route.{first-content}
use osfix_operating_system.Vfs.Calls.{vfs_create, vfs_mkdir, vfs_write}
use osfix_operating_system.RamFs.{copy_name}
use osfix_operating_system.RamFs.Names.{
  content-ne_nil, content-copy_name, first-copy_name, copy_name-nil,
}
use osfix_operating_system.Initramfs.{
  Entry, file_type, skip_slashes, normalize_path, install, install_path, install_file,
}
use osfix_operating_system.Initramfs.Archive.{Member}

-- The member's name without the slashes that it starts with.
abbrev pub IsNamed : (name n : List ℕ) → Type 0
IsNamed name n = (k : ℕ) × (content name ≡ replicate k b'/' ++ n) × (first n ≢ b'/')

-- The type of a member, from the high bits of its mode: 8 is a regular file, 4 a directory.
abbrev pub type_of : Member → ℕ
type_of m = (m.mode / 0x1000) % 16

-- What is left of a member for the file system: its name, without the bytes behind it.
abbrev pub entry_of : Member → Entry
entry_of m = record {
  name = m.name;
  mode = m.mode;
  filesize = length m.contents;
  file_data = m.contents;
  next = 0;
}

module _ {W : Type 0} (mnt : Option (Mount W)) where
  -- What is done for a member under a path that is not the root's, from `w` to `w'`.
  pub data Made (m : Member) (path : CString) (w w' : W) : Type 0 where
    directory : type_of m ≡ 4 → w' ≡ (vfs_mkdir mnt path w).1 → Made m path w w'
    uncreated :
        type_of m ≡ 8
        → (vfs_create mnt path w).0 ≡ 0
        → w' ≡ (vfs_create mnt path w).1
        → Made m path w w'
    empty_file :
        type_of m ≡ 8
        → (vfs_create mnt path w).0 ≢ 0
        → length m.contents ≡ 0
        → w' ≡ (vfs_create mnt path w).1
        → Made m path w w'
    file :
        type_of m ≡ 8
        → (vfs_create mnt path w).0 ≢ 0
        → 0 < length m.contents
        → w'
          ≡ (vfs_write mnt
              (vfs_create mnt path w).0
              m.contents
              (length m.contents)
              0
              (vfs_create mnt path w).1).1
        → Made m path w w'
    other : type_of m ≢ 8 → type_of m ≢ 4 → w' ≡ w → Made m path w w'

  -- A member is placed: nothing for the root, which has an empty name or the name ".".
  pub data Placed (m : Member) (w w' : W) : Type 0 where
    root : (n : List ℕ) → IsNamed m.name n → (n ≡ []) ⊎ (n ≡ b'.' ∷ []) → w' ≡ w → Placed m w w'
    named :
        (path : CString)
        → IsNamed m.name (content path)
        → content path ≢ []
        → content path ≢ b'.' ∷ []
        → Made m path w w'
        → Placed m w w'

  -- The members are placed in their order.
  abbrev pub PlacedAll : List Member → (w w' : W) → Type 0
  PlacedAll [] w w' = w' ≡ w
  PlacedAll (m ∷ ms) w w' = (v : W) × Placed m w v × PlacedAll ms v w'

-- Every name has room in the buffer on the stack.
abbrev pub Fit : (size : ℕ) → List Member → Type 0
Fit size [] = Unit
Fit size (m ∷ ms) = (length m.name < size) × Fit size ms

skip_slashes-IsNamed : (s : CString) → IsNamed s (content (skip_slashes s))
unfolding skip_slashes
skip_slashes-IsNamed [] = (0, refl, λ e. absurd (omega (arith, e)))
skip_slashes-IsNamed (c ∷ s) = elim (Bool-cases (c == b'/')) [
  | inl hit ↦
      let same : c ≡ b'/' = ground (arith, hit) in
      let go : (c == 0) ≡ false = ground (arith, same) in
      let (k, split, bare) = skip_slashes-IsNamed s in
      rw (hit, go)
        (
          suc k,
          ap (λ l. c ∷ l) split ∙ ap (λ x. x ∷ (replicate k b'/' ++ content (skip_slashes s))) same,
          bare,
        )
  | inr miss ↦ rw miss (0, refl, λ e. ground (arith, miss, first-content (c ∷ s), e))
]

length-content : (s : CString) → length (content s) ≤ length s
length-content [] = omega arith
length-content (c ∷ s) = ground (arith, length-content s)

length-skip_slashes : (s : CString) → length (skip_slashes s) ≤ length s
unfolding skip_slashes
length-skip_slashes [] = omega arith
length-skip_slashes (c ∷ s) = ground (arith, length-skip_slashes s)

-- The test for ".".
abbrev is_dot : CString → Bool
is_dot path = char_at path 0 == b'.' && char_at path 1 == 0

is_dot-content : (path : CString) → is_dot path ≡ true → content path ≡ b'.' ∷ []
is_dot-content [] e = ground arith
is_dot-content (c ∷ []) e = ground arith
is_dot-content (c ∷ d ∷ path) e = ground arith

content-cons : (c : ℕ) (s : CString) → (c == 0) ≡ false → content (c ∷ s) ≡ c ∷ content s
content-cons c s go = rw go refl

is_dot_of_content : (path : CString) → content path ≡ b'.' ∷ [] → is_dot path ≡ true
is_dot_of_content [] e = cc
is_dot_of_content (c ∷ path) e =
    let is_c : c ≡ b'.' = sym (first-content (c ∷ path)) ∙ ap first e in
    let go : (c == 0) ≡ false = ground (arith, is_c) in
    let later : content path ≡ [] = ap (drop 1) (sym (content-cons c path go) ∙ e) in
    let stop : first path ≡ 0 = sym (first-content path) ∙ ap first later in tail c path is_c stop
  where
    tail : (c : ℕ) (path : CString) → c ≡ b'.' → first path ≡ 0 → is_dot (c ∷ path) ≡ true
    tail c [] is_c stop = ground (arith, is_c)
    tail c (d ∷ path) is_c stop = ground (arith, is_c, stop)

one_byte : (s : CString) → content s ≢ [] → 0 < length s
one_byte [] h = absurd (h refl)
one_byte (c ∷ s) h = omega arith

normalize_path-named :
    (name : CString) (stack : List ℕ)
    → length name < length stack
    → content (skip_slashes name) ≢ []
    → content (normalize_path name stack) ≡ content (skip_slashes name)
unfolding normalize_path
normalize_path-named name stack fits some_name =
    let some_byte = content-ne_nil (skip_slashes name) some_name in
    let room : 1 < length stack =
      omega (arith, length-skip_slashes name, one_byte (skip_slashes name) some_name) in
    let go : (first (copy_name (skip_slashes name) stack) == 0) ≡ false =
      ground (arith, first-copy_name (skip_slashes name) stack room, some_byte) in
    rw go (
      content-copy_name (skip_slashes name) stack (omega arith)
      ∙ take-length_le (length stack - 1) (content (skip_slashes name))
          (omega (arith, length-skip_slashes name, length-content (skip_slashes name))))

-- A member without a name is taken for the root.
normalize_path-root :
    (name : CString) (stack : List ℕ)
    → 1 < length stack
    → content (skip_slashes name) ≡ []
    → is_dot (normalize_path name stack) ≡ true
unfolding normalize_path
normalize_path-root name [] fits none_left = absurd (omega arith)
normalize_path-root name (o ∷ []) fits none_left = absurd (omega arith)
normalize_path-root name (o ∷ o' ∷ stack) fits none_left =
    rw (copy_name-nil (skip_slashes name) o (o' ∷ stack) none_left) refl

Made-install :
    {W : Type 0} (mnt : Option (Mount W)) (m : Member) (path : CString) (w : W)
    → is_dot path ≡ false
    → Made mnt m path w (install_path mnt path (entry_of m) w)
unfolding install_path install_file
Made-install mnt m path w no_dot = elim (Bool-cases (file_type m.mode == 0x8000)) [
  | inl is_file ↦ elim (Bool-cases ((vfs_create mnt path w).0 == 0)) [
    | inl failed ↦ rw (no_dot, is_file, failed) (uncreated (ground arith) (ground arith) refl)
    | inr created ↦ elim (Bool-cases (ltb 0 (length m.contents))) [
      | inl full ↦
          rw (no_dot, is_file, created, full)
            (file (ground arith) (ground arith) (ground arith) refl)
      | inr empty ↦
          rw (no_dot, is_file, created, empty)
            (empty_file (ground arith) (ground arith) (ground arith) refl)
    ]
  ]
  | inr no_file ↦ elim (Bool-cases (file_type m.mode == 0x4000)) [
    | inl dir ↦ rw (no_dot, no_file, dir) (directory (ground arith) refl)
    | inr neither ↦ rw (no_dot, no_file, neither) (other (ground arith) (ground arith) refl)
  ]
]

List-cases : (l : List ℕ) → (l ≡ []) ⊎ (l ≢ [])
List-cases [] = inl refl
List-cases (c ∷ l) = inr (λ e. cc)

-- The loop's body places the member.
pub install-Placed :
    {W : Type 0} (mnt : Option (Mount W)) (stack : List ℕ) (m : Member) (w : W)
    → 1 < length stack
    → length m.name < length stack
    → Placed mnt m w (install mnt stack (entry_of m) w)
unfolding install install_path
install-Placed mnt stack m w room fits =
    let path = normalize_path m.name stack in
    elim (List-cases (content (skip_slashes m.name))) [
      | inl none_left ↦
          rw (normalize_path-root m.name stack room none_left) (
            root [] (subst (IsNamed m.name) none_left (skip_slashes-IsNamed m.name)) (inl refl)
              refl)
      | inr some_name ↦
          let same = normalize_path-named m.name stack fits some_name in
          let is_named : IsNamed m.name (content path) =
            subst (IsNamed m.name) (sym same) (skip_slashes-IsNamed m.name) in
          elim (Bool-cases (is_dot path)) [
            | inl dot ↦ rw dot (root (content path) is_named (inr (is_dot-content path dot)) refl)
            | inr no_dot ↦
                named path is_named (λ e. some_name (sym same ∙ e))
                  (λ e. absurd (ground (arith, is_dot_of_content path e, no_dot)))
                  (Made-install mnt m path w no_dot)
          ]
    ]
