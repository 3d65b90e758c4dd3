-- ===== src/Sched.antt =====
-- kernel/main/cpu/sched.c: the round robin scheduler. The array `tasks` is a function of the index,
-- a `task_t *` is an index, and the frames on the tasks' stacks are a function of their address.
pub mod Ring
pub mod Spawn
pub mod Rounds
mod Tests
use osfix_operating_system.Base.{
  ℕ, zero, suc, ◌+◌, ◌-◌, Option, none, some, List, [], ◌∷◌, leb, ◌==◌, if◌then◌else◌, replicate,
  add64, sub64,
}
use osfix_operating_system.Base.Int.{ℤ, pos, minus_one}

abbrev pub max_tasks : ℕ
max_tasks = 16

abbrev pub stack_size : ℕ
stack_size = 8192

-- task_t; `next` is none for NULL.
pub record Task : Type 0 where
  pub rsp : ℕ
  pub stack_base : ℕ
  pub id : ℕ
  pub next : Option ℕ

-- Registers_t; `general` is r15 to rax.
pub record Registers : Type 0 where
  pub general : List ℕ
  pub interrupt : ℕ
  pub error : ℕ
  pub rip : ℕ
  pub cs : ℕ
  pub rflags : ℕ
  pub rsp : ℕ
  pub ss : ℕ

-- sizeof(Registers_t)
abbrev pub registers_size : ℕ
registers_size = 176

-- The static variables of sched.c, and the frames that setup_frame has written.
pub record Sched : Type 0 where
  pub tasks : ℕ → Task
  pub current : Option ℕ
  pub task_count : ℕ
  pub frames : ℕ → Option Registers

-- tlsf_malloc on the kernel's pool, which has a state of its own; 0 is NULL.
pub record Pool (A : Type 0) : Type 0 where
  pub malloc : ℕ → A → ℕ × A

unfoldable pub update : {A : Type 0} → (ℕ → A) → ℕ → A → ℕ → A
update f i x j = if j == i then x else f j

abbrev pub no_task : Task
no_task = record { rsp = 0; stack_base = 0; id = 0; next = none }

abbrev pub frame_addr : (stack_base : ℕ) → ℕ
frame_addr stack_base = sub64 (add64 stack_base stack_size) (registers_size + 8)

-- The frame that a task starts from: all zero but three fields.
abbrev pub start_frame : (entry : ℕ) → Registers
start_frame entry = record {
  general = replicate 15 0;
  interrupt = 0;
  error = 0;
  rip = entry;
  cs = 0x08;
  rflags = 0x202;
  rsp = 0;
  ss = 0;
}

-- For the task t of index i.
unfoldable pub setup_frame : (stack_base entry i : ℕ) → Sched → Sched
unfolding update
setup_frame stack_base entry i s = record s {
  frames = update s.frames (frame_addr stack_base) (some (start_frame entry));
  tasks = update s.tasks i (record (s.tasks i) { rsp = frame_addr stack_base });
}

-- t->next = current->next; current->next = t;
unfoldable pub link_after : (c i : ℕ) → (ℕ → Task) → ℕ → Task
unfolding update
link_after c i tasks =
    let tasks' = update tasks i (record (tasks i) { next = (tasks c).next }) in
    update tasks' c (record (tasks' c) { next = some i })

-- The fields of the new task, from t->stack_base to setup_frame.
unfoldable pub prepare : (stack entry i : ℕ) → Sched → Sched
prepare stack entry i s =
    setup_frame stack entry i
      (record s { tasks = update s.tasks i (record (s.tasks i) { stack_base = stack; id = i }) })

-- From t->next = current->next to task_count++.
unfoldable pub link_task : (c i : ℕ) → Sched → Sched
link_task c i s = record s { tasks = link_after c i s.tasks; task_count = i + 1 }

module _ {A : Type 0} (pool : Pool A) where
  -- sched_spawn past its two tests, `c` the current task
  unfoldable pub spawn_after : (c entry : ℕ) → Sched → A → ℤ × Sched × A
  spawn_after c entry s a =
      let i = s.task_count in
      let (stack, a') = pool.malloc stack_size a in
      if stack == 0
      then (
        minus_one,
        record s { tasks = update s.tasks i (record (s.tasks i) { stack_base = stack }) },
        a',
      )
      else (pos i, link_task c i (prepare stack entry i s), a')

  unfoldable pub sched_spawn : (entry : ℕ) → Sched → A → ℤ × Sched × A
  sched_spawn entry s a =
      if leb max_tasks s.task_count
      then (minus_one, s, a)
      else elim s.current [ none ↦ (minus_one, s, a) | some c ↦ spawn_after c entry s a ]

  -- `idle` is the address of idle_task. Task 1 is the code that runs already.
  unfoldable pub sched_init : (idle : ℕ) → Sched → A → Sched × A
  sched_init idle s a =
      let (stack, a') = pool.malloc stack_size a in
      let first = record no_task { stack_base = stack } in
      let s' = setup_frame stack idle 0 (record s { tasks = update (λ i. no_task) 0 first }) in
      let tasks₁ = update s'.tasks 1 (record (s'.tasks 1) { id = 1; stack_base = 0; rsp = 0 }) in
      let tasks₂ = update tasks₁ 0 (record (tasks₁ 0) { next = some 1 }) in
      let tasks₃ = update tasks₂ 1 (record (tasks₂ 1) { next = some 0 }) in
      (record s' { tasks = tasks₃; current = some 1; task_count = 2 }, a')

-- The timer's interrupt with the frame at `regs`: the rsp that is loaded, and the state. `none` is a
-- NULL pointer that is followed.
unfoldable pub sched_tick : (regs : ℕ) → Sched → Option (ℕ × Sched)
sched_tick regs s = elim s.current [
  | none ↦ none
  | some old ↦
      let tasks' = update s.tasks old (record (s.tasks old) { rsp = regs }) in
      elim (s.tasks old).next [
        | none ↦ none
        | some new ↦ some ((tasks' new).rsp, record s { tasks = tasks'; current = some new })
      ]
]
