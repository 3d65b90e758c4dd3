-- ===== src/Sched/Tests.antt =====
-- The theorems about kernel/main/cpu/sched.c at the ring that sched_init leaves.
use osfix_operating_system.Base.{map, ◌++◌, ℕ, ◌+◌, ◌≡◌, ◌≢◌, refl, some, none, [], ◌∷◌, arith}
use osfix_operating_system.Sched.{Sched, Pool, no_task, sched_init, sched_spawn}
use osfix_operating_system.Sched.Ring.{IsRing}
use osfix_operating_system.Sched.Spawn.{Spawned, sched_spawn-Spawned}
use osfix_operating_system.Sched.Rounds.{
  sched_init-IsRing, Ticked, sched_tick-Ticked, rsp_of, ticks, ticks_round,
}

-- Stacks are handed out one behind the other.
abbrev pool : Pool ℕ
pool = record { malloc = λ size a. (a, a + size) }

abbrev blank : Sched
blank = record { tasks = λ i. no_task; current = none; task_count = 0; frames = λ a. none }

abbrev booted : Sched
booted = (sched_init pool 500 blank 65536).0

booted-IsRing : IsRing booted 1 (0 ∷ [])
booted-IsRing = sched_init-IsRing pool 500 blank 65536

given : (pool.malloc 8192 73728).0 ≢ 0
given q = absurd (omega (arith, q))

sched_spawn-Spawned_example : Spawned pool 600 booted 1 (0 ∷ []) (sched_spawn pool 600 booted 73728)
unfolding sched_init
sched_spawn-Spawned_example =
    sched_spawn-Spawned pool 600 1 (0 ∷ []) booted 73728 booted-IsRing (omega arith) given

sched_tick-Ticked_example : Ticked 9000 booted 1 0 []
sched_tick-Ticked_example = sched_tick-Ticked 9000 1 0 [] booted booted-IsRing

ticks_round_example :
    (s' : Sched) × (ticks (9000 ∷ 9100 ∷ []) booted
      ≡ some (map (rsp_of booted) (0 ∷ []) ++ (9000 ∷ []), s'))
    × IsRing s' 1 (0 ∷ [])
    × (map (rsp_of s') (1 ∷ 0 ∷ []) ≡ 9000 ∷ 9100 ∷ [])
ticks_round_example = ticks_round 9000 (9100 ∷ []) 1 0 [] booted booted-IsRing refl
