-- ===== src/RamFs/Data/Bytes.antt =====
-- The copies of kernel/main/fsm/initramfs/ramfs.c into and out of a file's block.
use osfix_operating_system.Base.{
  ℕ, ◌+◌, ◌-◌, ◌<◌, ◌≤◌, ◌≡◌, ◌⊎◌, inl, inr, ap, ◌∙◌, some, List, ◌++◌, length, get_or, take, drop,
  length-append, length-take, length-drop, arith, drop-append_length, take-append_length,
  get_or-append_left, get_or-append_right, get_or-take, get_or-drop,
}
use osfix_operating_system.RamFs.Data.{slice, splice}

-- A copy that stays in its blocks, and what it writes.
splice-fits :
    (block : List ℕ) (offset n : ℕ) (src block' : List ℕ)
    → splice block offset n src ≡ some block'
    → (offset + n ≤ length block)
      × (n ≤ length src)
      × (block' ≡ take offset block ++ (take n src ++ drop (offset + n) block))
unfolding splice
splice-fits block offset n src block' h = ground arith

pub splice-eq_some :
    (block : List ℕ) (offset n : ℕ) (src : List ℕ)
    → offset + n ≤ length block
    → n ≤ length src
    → splice block offset n src
      ≡ some (take offset block ++ (take n src ++ drop (offset + n) block))
unfolding splice
splice-eq_some block offset n src h k = ground arith

pub length-splice :
    (block : List ℕ) (offset n : ℕ) (src block' : List ℕ)
    → splice block offset n src ≡ some block'
    → length block' ≡ length block
length-splice block offset n src block' h =
    let (fits, long, e) = splice-fits block offset n src block' h in
    rw e (
      omega (
        arith,
        length-append (take offset block) (take n src ++ drop (offset + n) block),
        length-append (take n src) (drop (offset + n) block),
        length-take offset block,
        length-take n src,
        length-drop (offset + n) block,
      ))

-- What was copied in is read back.
pub slice-splice :
    (block : List ℕ) (offset n : ℕ) (src block' : List ℕ)
    → splice block offset n src ≡ some block'
    → slice block' offset n ≡ some (take n src)
unfolding slice
slice-splice block offset n src block' h =
    let (fits, long, e) = splice-fits block offset n src block' h in
    let same : length block' ≡ length block = length-splice block offset n src block' h in
    let start : length (take offset block) ≡ offset = omega (arith, length-take offset block) in
    let whole : length (take n src) ≡ n = omega (arith, length-take n src) in
    let read : take n (drop offset block') ≡ take n src =
      rw
        (
          e,
          drop-append_length offset (take offset block) (take n src ++ drop (offset + n) block)
              start,
        )
        (take-append_length n (take n src) (drop (offset + n) block) whole) in
    ground (arith, read)

-- A byte outside the copy keeps its value.
pub get_or-splice :
    (block : List ℕ) (offset n : ℕ) (src block' : List ℕ) (i : ℕ)
    → splice block offset n src ≡ some block'
    → (i < offset) ⊎ (offset + n ≤ i)
    → get_or block' i 0 ≡ get_or block i 0
get_or-splice block offset n src block' i h (inl before) =
    let (fits, long, e) = splice-fits block offset n src block' h in
    rw e (
      get_or-append_left (take offset block) (take n src ++ drop (offset + n) block) i 0
        (omega (arith, length-take offset block))
      ∙ get_or-take offset i block 0 before)
get_or-splice block offset n src block' i h (inr after) =
    let (fits, long, e) = splice-fits block offset n src block' h in
    let start : length (take offset block) ≡ offset = omega (arith, length-take offset block) in
    let whole : length (take n src) ≡ n = omega (arith, length-take n src) in
    let at : i ≡ length (take offset block) + (length (take n src) + (i - offset - n)) =
      omega arith in
    let back : offset + n + (i - offset - n) ≡ i = omega arith in
    rw e (
      ap (λ k. get_or (take offset block ++ (take n src ++ drop (offset + n) block)) k 0) at
      ∙ get_or-append_right (take offset block) (take n src ++ drop (offset + n) block)
          (length (take n src) + (i - offset - n)) 0
      ∙ get_or-append_right (take n src) (drop (offset + n) block) (i - offset - n) 0
      ∙ get_or-drop (offset + n) (i - offset - n) block 0
      ∙ ap (λ k. get_or block k 0) back)
