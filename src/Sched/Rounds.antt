-- ===== src/Sched/Rounds.antt =====
-- kernel/main/cpu/sched.c: the ring that sched_init leaves, and what the timer's ticks do to it.
use osfix_operating_system.Base.{
  map, drop, ap₂, ℕ, suc, ◌≡◌, refl, sym, ap, ◌∙◌, subst, Option, none, some, List, [], ◌∷◌, ◌++◌,
  length, arith, length-append, append-nil, append_assoc, ◌≢◌,
}
use osfix_operating_system.Sched.{Sched, Pool, update, sched_init, sched_tick}
use osfix_operating_system.Sched.Ring.{
  IsRing, Absent, next_of, Linked-congr, Linked-snoc, Distinct-snoc, AllBelow-snoc,
}
use osfix_operating_system.Sched.Spawn.{update-keeps}

-- sched_init leaves the ring of the running code, which is current, and the idle task.
pub sched_init-IsRing :
    {A : Type 0} (pool : Pool A) (idle : ℕ) (s : Sched) (a : A)
    → IsRing (sched_init pool idle s a).0 1 (0 ∷ [])
unfolding sched_init update
sched_init-IsRing pool idle s a = record {
  current = refl;
  linked = (refl, refl);
  distinct = ((λ q. absurd (omega (arith, q)), tt), (tt, tt));
  below = (omega arith, (omega arith, tt));
  all = refl;
  bounded = omega arith;
}

-- The ring that starts with the first task of the list.
abbrev pub IsRingOf : Sched → List ℕ → Type 0
IsRingOf s [] = ⊥
IsRingOf s (c ∷ others) = IsRing s c others

-- The state once the tick has kept `regs` for the task `c`, and `d` runs.
abbrev switched : (regs c d : ℕ) → Sched → Sched
switched regs c d s = record s {
  tasks = update s.tasks c (record (s.tasks c) { rsp = regs });
  current = some d;
}

tick_lem :
    (regs c d : ℕ) (s : Sched)
    → s.current ≡ some c
    → next_of s c ≡ some d
    → sched_tick regs s ≡ some (((switched regs c d s).tasks d).rsp, switched regs c d s)
unfolding sched_tick
tick_lem regs c d s e e' =
    ap
      (λ o. elim o as (λ _. Option (ℕ × Sched)) [
        | none ↦ none
        | some old ↦
            let tasks' = update s.tasks old (record (s.tasks old) { rsp = regs }) in
            elim (s.tasks old).next as (λ _. Option (ℕ × Sched)) [
              | none ↦ none
              | some new ↦ some ((tasks' new).rsp, record s { tasks = tasks'; current = some new })
            ]
      ])
      e
    ∙ ap
        (λ o. elim o as (λ _. Option (ℕ × Sched)) [
          | none ↦ none
          | some new ↦ some (((switched regs c new s).tasks new).rsp, switched regs c new s)
        ])
        e'

switched-next : (regs c d : ℕ) (s : Sched) (j : ℕ) → next_of s j ≡ next_of (switched regs c d s) j
switched-next regs c d s j =
    sym (update-keeps (λ t. t.next) s.tasks c (record (s.tasks c) { rsp = regs }) j refl)

switched-IsRing :
    (regs c d : ℕ) (ds : List ℕ) (s : Sched)
    → IsRing s c (d ∷ ds)
    → IsRing (switched regs c d s) d (ds ++ (c ∷ []))
switched-IsRing regs c d ds s ring =
    let (c_out, rest_distinct) = ring.distinct in
    let (c_lt, rest_lt) = ring.below in
    record {
      current = refl;
      linked =
          Linked-congr (next_of s) (next_of (switched regs c d s)) d (ds ++ (c ∷ [])) d
            (switched-next regs c d s)
            (Linked-snoc (next_of s) d ds c d ring.linked.1 ring.linked.0);
      distinct = Distinct-snoc (d ∷ ds) c rest_distinct c_out;
      below = AllBelow-snoc s.task_count (d ∷ ds) c rest_lt c_lt;
      all = omega (arith, ring.all, length-append ds (c ∷ []));
      bounded = ring.bounded;
    }

-- What a tick with the frame at `regs` does while `c` runs and `d` is next.
pub record Ticked (regs : ℕ) (s : Sched) (c d : ℕ) (ds : List ℕ) : Type 0 where
  pub after : Sched
  pub result : sched_tick regs s ≡ some ((s.tasks d).rsp, after)
  pub ring : IsRing after d (ds ++ (c ∷ []))
  pub saved : (after.tasks c).rsp ≡ regs
  pub kept : (i : ℕ) → i ≢ c → (after.tasks i).rsp ≡ (s.tasks i).rsp

-- A tick goes on with the next task of the ring, at the rsp that was kept for it, and moves the
-- task that ran to the ring's end, with the frame of the interrupt kept for it; what is kept for
-- the other tasks stays.
pub sched_tick-Ticked :
    (regs c d : ℕ) (ds : List ℕ) (s : Sched) → IsRing s c (d ∷ ds) → Ticked regs s c d ds
unfolding update
sched_tick-Ticked regs c d ds s ring =
    let others : (i : ℕ) → i ≢ c → ((switched regs c d s).tasks i).rsp ≡ (s.tasks i).rsp =
      λ i ne. ground arith in
    let d_ne : d ≢ c = λ q. ring.distinct.0.0 (sym q) in
    record {
      after = switched regs c d s;
      result =
          tick_lem regs c d s ring.current ring.linked.0
          ∙ ap (λ r. some (r, switched regs c d s)) (others d d_ne);
      ring = switched-IsRing regs c d ds s ring;
      saved = ground arith;
      kept = others;
    }

-- Ticks one after the other, each with the address of its frame: the rsps that they load, and the
-- state.
abbrev pub and_loaded : ℕ → Option (List ℕ × Sched) → Option (List ℕ × Sched)
and_loaded rsp none = none
and_loaded rsp (some (loaded, s)) = some (rsp ∷ loaded, s)

abbrev pub ticks : List ℕ → Sched → Option (List ℕ × Sched)
ticks [] s = some ([], s)
ticks (regs ∷ more) s = elim (sched_tick regs s) [
  | none ↦ none
  | some (rsp, s') ↦ and_loaded rsp (ticks more s')
]

ticks-cons :
    (r : ℕ) (regs : List ℕ) (s : Sched) (rsp : ℕ) (s' : Sched) (loaded : List ℕ) (end : Sched)
    → sched_tick r s ≡ some (rsp, s')
    → ticks regs s' ≡ some (loaded, end)
    → ticks (r ∷ regs) s ≡ some (rsp ∷ loaded, end)
ticks-cons r regs s rsp s' loaded end e e' =
    ap
      (λ o. elim o as (λ _. Option (List ℕ × Sched)) [
        | none ↦ none
        | some (sp, next) ↦ and_loaded sp (ticks regs next)
      ])
      e
    ∙ ap (and_loaded rsp) e'

-- The rsp that is kept for a task.
abbrev pub rsp_of : Sched → ℕ → ℕ
rsp_of s i = (s.tasks i).rsp

map-kept :
    (f g : ℕ → ℕ) (c : ℕ) (l : List ℕ)
    → Absent c l
    → ((i : ℕ) → i ≢ c → f i ≡ g i)
    → map f l ≡ map g l
map-kept f g c [] out same = refl
map-kept f g c (x ∷ l) (ne, out) same =
    ap₂ (λ y t. y ∷ t) (same x (λ q. ne (sym q))) (map-kept f g c l out same)

map-snoc : (f : ℕ → ℕ) (l : List ℕ) (x : ℕ) → map f (l ++ (x ∷ [])) ≡ map f l ++ (f x ∷ [])
map-snoc f [] x = refl
map-snoc f (y ∷ l) x = ap (λ t. f y ∷ t) (map-snoc f l x)

Absent-left : (c : ℕ) (l k : List ℕ) → Absent c (l ++ k) → Absent c l
Absent-left c [] k out = tt
Absent-left c (x ∷ l) k (ne, out) = (ne, Absent-left c l k out)

Absent-until : (c a : ℕ) (l k : List ℕ) → Absent c (l ++ (a ∷ k)) → Absent c (l ++ (a ∷ []))
Absent-until c a [] k (ne, out) = (ne, tt)
Absent-until c a (x ∷ l) k (ne, out) = (ne, Absent-until c a l k out)

-- What a run of ticks does: the tasks that ran stand behind the others, the first of which is `a`;
-- each tick loads what was kept for the next task, and what is kept for the ones that ran are their
-- own frames.
record Ran (regs : List ℕ) (s : Sched) (before : List ℕ) (a : ℕ) (after : List ℕ) : Type 0 where
  after_ran : Sched
  result : ticks regs s ≡ some (map (rsp_of s) (drop 1 (before ++ (a ∷ []))), after_ran)
  ring : IsRingOf after_ran ((a ∷ after) ++ before)
  saved : map (rsp_of after_ran) before ≡ regs
  kept : (i : ℕ) → Absent i before → rsp_of after_ran i ≡ rsp_of s i

-- A tick of `c`, after which `d` and the others run.
module _ (r c d : ℕ) (ds regs : List ℕ) (s : Sched) (first : Ticked r s c d ds) where
  ticks_after-Ran :
      (before after : List ℕ) (a : ℕ)
      → d ∷ ds ≡ before ++ (a ∷ after)
      → Absent c (before ++ (a ∷ after))
      → map (rsp_of s) (drop 1 ((c ∷ before) ++ (a ∷ [])))
        ≡ rsp_of s d ∷ map (rsp_of s) (drop 1 (before ++ (a ∷ [])))
      → Absent c (drop 1 (before ++ (a ∷ [])))
      → Ran regs first.after before a (after ++ (c ∷ []))
      → Ran (r ∷ regs) s (c ∷ before) a after
  ticks_after-Ran before after a split out next out_next later = record {
    after_ran = later.after_ran;
    result =
        ticks-cons r regs s (rsp_of s d) first.after
          (map (rsp_of first.after) (drop 1 (before ++ (a ∷ [])))) later.after_ran first.result
          later.result
        ∙ ap (λ l. some (l, later.after_ran))
            (ap (λ l. rsp_of s d ∷ l)
                (map-kept (rsp_of first.after) (rsp_of s) c (drop 1 (before ++ (a ∷ []))) out_next
                  first.kept)
              ∙ sym next);
    ring = subst (IsRingOf later.after_ran) (append_assoc (a ∷ after) (c ∷ []) before) later.ring;
    saved =
        ap₂ (λ x l. x ∷ l) (later.kept c (Absent-left c before (a ∷ after) out) ∙ first.saved)
          later.saved;
    kept = λ i (ne, ab). later.kept i ab ∙ first.kept i ne;
  }

ticks-Ran :
    (regs before after : List ℕ) (a : ℕ) (s : Sched)
    → IsRingOf s (before ++ (a ∷ after))
    → length regs ≡ length before
    → Ran regs s before a after
ticks-Ran [] [] after a s ring e = record {
  after_ran = s;
  result = refl;
  ring = subst (IsRingOf s) (sym (append-nil (a ∷ after))) ring;
  saved = refl;
  kept = λ i ab. refl;
}
ticks-Ran [] (c ∷ before) after a s ring e = absurd (omega (arith, e))
ticks-Ran (r ∷ regs) [] after a s ring e = absurd (omega (arith, e))
ticks-Ran (r ∷ regs) (c ∷ []) after a s ring e =
    let first = sched_tick-Ticked r c a after s ring in
    ticks_after-Ran r c a after regs s first [] after a refl ring.distinct.0 refl tt
      (ticks-Ran regs [] (after ++ (c ∷ [])) a first.after first.ring (omega (arith, e)))
ticks-Ran (r ∷ regs) (c ∷ d ∷ before) after a s ring e =
    let first = sched_tick-Ticked r c d (before ++ (a ∷ after)) s ring in
    ticks_after-Ran r c d (before ++ (a ∷ after)) regs s first (d ∷ before) after a refl
      ring.distinct.0 refl (Absent-until c a before after ring.distinct.0.1)
      (ticks-Ran regs (d ∷ before) (after ++ (c ∷ [])) a first.after
        (subst (IsRingOf first.after) (append_assoc (d ∷ before) (a ∷ after) (c ∷ [])) first.ring)
        (omega (arith, e)))

-- After one tick for each task of a ring of at least two the ring is as it was. The ticks have loaded
-- what was kept for the other tasks, in their order, and then what the first tick kept for the first
-- task; what is kept for each task is the frame of the tick that ended its turn.
pub ticks_round :
    (r : ℕ) (regs : List ℕ) (c d : ℕ) (ds : List ℕ) (s : Sched)
    → IsRing s c (d ∷ ds)
    → length regs ≡ suc (length ds)
    → (s' : Sched) × (ticks (r ∷ regs) s ≡ some (map (rsp_of s) (d ∷ ds) ++ (r ∷ []), s'))
      × IsRing s' c (d ∷ ds)
      × (map (rsp_of s') (c ∷ d ∷ ds) ≡ r ∷ regs)
ticks_round r regs c d ds s ring e =
    let first = sched_tick-Ticked r c d ds s ring in
    let later = ticks-Ran regs (d ∷ ds) [] c first.after first.ring (omega (arith, e)) in
    let loaded : rsp_of s d ∷ map (rsp_of first.after) (ds ++ (c ∷ []))
        ≡ map (rsp_of s) (d ∷ ds) ++ (r ∷ []) =
      ap (λ l. rsp_of s d ∷ l)
        (map-snoc (rsp_of first.after) ds c
          ∙ ap₂ (λ k x. k ++ (x ∷ []))
              (map-kept (rsp_of first.after) (rsp_of s) c ds ring.distinct.0.1 first.kept)
              first.saved) in
    (
      later.after_ran,
      ticks-cons r regs s (rsp_of s d) first.after (map (rsp_of first.after) (ds ++ (c ∷ [])))
            later.after_ran first.result later.result
          ∙ ap (λ l. some (l, later.after_ran)) loaded,
      later.ring,
      ap₂ (λ x l. x ∷ l) (later.kept c ring.distinct.0 ∙ first.saved) later.saved,
    )
