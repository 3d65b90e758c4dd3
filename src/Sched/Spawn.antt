-- ===== src/Sched/Spawn.antt =====
-- kernel/main/cpu/sched.c: sched_spawn links the new task into the ring behind the current one.
use osfix_operating_system.Base.{
  ℕ, ◌<◌, ◌≡◌, ◌≢◌, refl, sym, ap, ◌∙◌, subst, false, none, some, List, ◌∷◌, leb, ◌==◌, arith,
  Bool-cases, ==_iff, inl, inr,
}
use osfix_operating_system.Base.Int.{ℤ, pos, minus_one}
use osfix_operating_system.Sched.{
  Task, Sched, Registers, Pool, max_tasks, stack_size, start_frame, update, setup_frame, link_after,
  prepare, link_task, spawn_after, sched_spawn,
}
use osfix_operating_system.Sched.Ring.{
  IsRing, Absent, next_of, Linked-insert, Linked-congr, AllBelow-suc, Absent-fresh,
}

link_after-next :
    (c i : ℕ) (tasks : ℕ → Task)
    → c ≢ i
    → ((link_after c i tasks c).next ≡ some i)
      × ((link_after c i tasks i).next ≡ (tasks c).next)
      × ((j : ℕ) → j ≢ c → j ≢ i → (tasks j).next ≡ (link_after c i tasks j).next)
unfolding link_after update
link_after-next c i tasks ne = (ground arith, ground arith, λ j n n'. ground arith)

-- The new task is linked in behind the current one.
link_task-IsRing :
    (s : Sched) (c : ℕ) (others : List ℕ)
    → IsRing s c others
    → s.task_count < max_tasks
    → IsRing (link_task c s.task_count s) c (s.task_count ∷ others)
unfolding link_task
link_task-IsRing s c others ring room =
    let (c_lt, others_lt) = ring.below in
    let (c_out, others_distinct) = ring.distinct in
    let fresh : Absent s.task_count others = Absent-fresh s.task_count others others_lt in
    let c_ne : c ≢ s.task_count = λ q. absurd (omega (arith, q)) in
    let (at_c, at_i, elsewhere) = link_after-next c s.task_count s.tasks c_ne in
    record {
      current = ring.current;
      linked = (
        at_c,
        Linked-insert (next_of s) (next_of (link_task c s.task_count s)) c s.task_count others c
            at_i elsewhere c_out fresh ring.linked,
      );
      distinct = ((c_ne, c_out), (fresh, others_distinct));
      below = (omega arith, (omega arith, AllBelow-suc s.task_count others others_lt));
      all = omega (arith, ring.all);
      bounded = omega arith;
    }

-- What an element's change leaves alone.
pub update-keeps :
    {B C : Type 0} (f : B → C) (g : ℕ → B) (i : ℕ) (x : B) (j : ℕ)
    → f x ≡ f (g i)
    → f (update g i x j) ≡ f (g j)
unfolding update
update-keeps f g i x j e = elim (Bool-cases (j == i)) [
  | inl hit ↦ rw hit (e ∙ ap (λ k. f (g k)) (sym ((==_iff j i).0 hit)))
  | inr miss ↦ rw miss refl
]

prepare-next :
    (stack entry i : ℕ) (s : Sched) (j : ℕ) → next_of s j ≡ next_of (prepare stack entry i s) j
unfolding prepare setup_frame
prepare-next stack entry i s j =
    let given = record (s.tasks i) { stack_base = stack; id = i } in
    sym (
      update-keeps (λ t. t.next) (update s.tasks i given) i _ j refl
      ∙ update-keeps (λ t. t.next) s.tasks i given j refl)

prepare-frame :
    (stack entry i : ℕ) (s : Sched)
    → (prepare stack entry i s).frames ((prepare stack entry i s).tasks i).rsp
      ≡ some (start_frame entry)
unfolding prepare setup_frame update
prepare-frame stack entry i s = ground arith

prepare-count :
    (stack entry i : ℕ) (s : Sched) → (prepare stack entry i s).task_count ≡ s.task_count
unfolding prepare setup_frame
prepare-count stack entry i s = refl

prepare-IsRing :
    (stack entry i c : ℕ) (others : List ℕ) (s : Sched)
    → IsRing s c others
    → IsRing (prepare stack entry i s) c others
unfolding prepare setup_frame
prepare-IsRing stack entry i c others s ring = record {
  current = ring.current;
  linked =
      Linked-congr (next_of s) (next_of (prepare stack entry i s)) c others c
        (prepare-next stack entry i s) ring.linked;
  distinct = ring.distinct;
  below = ring.below;
  all = ring.all;
  bounded = ring.bounded;
}

link_after-rsp : (c i : ℕ) (tasks : ℕ → Task) (j : ℕ) → (link_after c i tasks j).rsp ≡ (tasks j).rsp
unfolding link_after
link_after-rsp c i tasks j =
    let linked = record (tasks i) { next = (tasks c).next } in
    update-keeps (λ t. t.rsp) (update tasks i linked) c _ j refl
    ∙ update-keeps (λ t. t.rsp) tasks i linked j refl

link_task-frame :
    (c i : ℕ) (s : Sched) (f : Registers)
    → s.frames (s.tasks i).rsp ≡ some f
    → (link_task c i s).frames ((link_task c i s).tasks i).rsp ≡ some f
unfolding link_task
link_task-frame c i s f e = rw (link_after-rsp c i s.tasks i) e

module _ {A : Type 0} (pool : Pool A) where
  spawn_after_lem :
      (c entry : ℕ) (s : Sched) (a : A)
      → (pool.malloc stack_size a).0 ≢ 0
      → spawn_after pool c entry s a ≡ (
        pos s.task_count,
        link_task c s.task_count (prepare (pool.malloc stack_size a).0 entry s.task_count s),
        (pool.malloc stack_size a).1,
      )
  unfolding spawn_after
  spawn_after_lem c entry s a given =
      let e : ((pool.malloc stack_size a).0 == 0) ≡ false = ground arith in rw e refl

  spawn-current :
      (c entry : ℕ) (s : Sched) (a : A)
      → s.task_count < max_tasks
      → s.current ≡ some c
      → sched_spawn pool entry s a ≡ spawn_after pool c entry s a
  unfolding sched_spawn
  spawn-current c entry s a room e =
      let full : leb max_tasks s.task_count ≡ false = ground arith in
      rw full (
        ap
          (λ o. elim o as (λ _. ℤ × Sched × A) [
            | none ↦ (minus_one, s, a)
            | some c' ↦ spawn_after pool c' entry s a
          ])
          e)

  -- What a spawn leaves: the new task stands behind the current one, to run next, and at the rsp
  -- kept for it lies a frame that goes to its entry.
  pub record Spawned (entry : ℕ) (s : Sched) (c : ℕ) (others : List ℕ) (r : ℤ × Sched × A)
      : Type 0 where
    pub returned : r.0 ≡ pos s.task_count
    pub ring : IsRing r.1 c (s.task_count ∷ others)
    pub frame : r.1.frames (r.1.tasks s.task_count).rsp ≡ some (start_frame entry)

  -- While there is room and the pool gives a stack, sched_spawn returns the new task's index and
  -- puts it into the ring behind the current task, so that it runs next; the frame kept for it has
  -- its entry as rip and zero in rsp and ss.
  pub sched_spawn-Spawned :
      (entry c : ℕ) (others : List ℕ) (s : Sched) (a : A)
      → IsRing s c others
      → s.task_count < max_tasks
      → (pool.malloc stack_size a).0 ≢ 0
      → Spawned entry s c others (sched_spawn pool entry s a)
  sched_spawn-Spawned entry c others s a ring room given =
      let i = s.task_count in
      let stack = (pool.malloc stack_size a).0 in
      let s' = prepare stack entry i s in
      let done = spawn-current c entry s a room ring.current ∙ spawn_after_lem c entry s a given in
      let count = prepare-count stack entry i s in
      subst (Spawned entry s c others) (sym done) (record {
        returned = refl;
        ring =
            subst (λ k. IsRing (link_task c k s') c (k ∷ others)) count
              (link_task-IsRing s' c others (prepare-IsRing stack entry i c others s ring)
                (omega (arith, count)));
        frame = link_task-frame c i s' (start_frame entry) (prepare-frame stack entry i s);
      })
