-- ===== src/Sched/Ring.antt =====
-- kernel/main/cpu/sched.c: the tasks form a ring, in which each of them stands once.
use osfix_operating_system.Base.{
  ℕ, suc, ◌+◌, ◌≤◌, ◌<◌, ◌≡◌, ◌≢◌, sym, ◌∙◌, Option, some, List, [], ◌∷◌, ◌++◌, length, arith,
}
use osfix_operating_system.Sched.{Sched, max_tasks}

-- From `c` the links lead through the list, and then to `h`.
abbrev pub Linked : (ℕ → Option ℕ) → ℕ → List ℕ → ℕ → Type 0
Linked next c [] h = next c ≡ some h
Linked next c (d ∷ ds) h = (next c ≡ some d) × Linked next d ds h

abbrev pub Absent : ℕ → List ℕ → Type 0
Absent i [] = Unit
Absent i (x ∷ xs) = (i ≢ x) × Absent i xs

abbrev pub Distinct : List ℕ → Type 0
Distinct [] = Unit
Distinct (x ∷ xs) = Absent x xs × Distinct xs

abbrev pub AllBelow : ℕ → List ℕ → Type 0
AllBelow n [] = Unit
AllBelow n (x ∷ xs) = (x < n) × AllBelow n xs

abbrev pub next_of : Sched → ℕ → Option ℕ
next_of s i = (s.tasks i).next

-- The scheduler's abstract state is the list of its tasks in the order in which they will run,
-- the current one first: all tasks, each once, linked to a ring.
pub record IsRing (s : Sched) (c : ℕ) (others : List ℕ) : Type 0 where
  pub current : s.current ≡ some c
  pub linked : Linked (next_of s) c others c
  pub distinct : Distinct (c ∷ others)
  pub below : AllBelow s.task_count (c ∷ others)
  pub all : suc (length others) ≡ s.task_count
  pub bounded : s.task_count ≤ max_tasks

pub Linked-congr :
    (f g : ℕ → Option ℕ) (c : ℕ) (ds : List ℕ) (h : ℕ)
    → ((i : ℕ) → f i ≡ g i)
    → Linked f c ds h
    → Linked g c ds h
Linked-congr f g c [] h e l = sym (e c) ∙ l
Linked-congr f g c (d ∷ ds) h e (l, ls) = (sym (e c) ∙ l, Linked-congr f g d ds h e ls)

-- Links that are changed outside of the list.
Linked-frame :
    (f g : ℕ → Option ℕ) (x y c : ℕ) (ds : List ℕ) (h : ℕ)
    → ((i : ℕ) → i ≢ x → i ≢ y → f i ≡ g i)
    → Absent x (c ∷ ds)
    → Absent y (c ∷ ds)
    → Linked f c ds h
    → Linked g c ds h
Linked-frame f g x y c [] h e (x_ne, _) (y_ne, _) l =
    sym (e c (λ q. x_ne (sym q)) (λ q. y_ne (sym q))) ∙ l
Linked-frame f g x y c (d ∷ ds) h e (x_ne, abx) (y_ne, aby) (l, ls) = (
  sym (e c (λ q. x_ne (sym q)) (λ q. y_ne (sym q))) ∙ l,
  Linked-frame f g x y d ds h e abx aby ls,
)

-- The list behind `c` is then the list behind `i`.
pub Linked-insert :
    (f g : ℕ → Option ℕ) (c i : ℕ) (ds : List ℕ) (h : ℕ)
    → g i ≡ f c
    → ((j : ℕ) → j ≢ c → j ≢ i → f j ≡ g j)
    → Absent c ds
    → Absent i ds
    → Linked f c ds h
    → Linked g i ds h
Linked-insert f g c i [] h q e abc abi l = q ∙ l
Linked-insert f g c i (d ∷ ds) h q e abc abi (l, ls) =
    (q ∙ l, Linked-frame f g c i d ds h e abc abi ls)

pub Linked-snoc :
    (f : ℕ → Option ℕ) (c : ℕ) (ds : List ℕ) (x h : ℕ)
    → Linked f c ds x
    → f x ≡ some h
    → Linked f c (ds ++ (x ∷ [])) h
Linked-snoc f c [] x h l e = (l, e)
Linked-snoc f c (d ∷ ds) x h (l, ls) e = (l, Linked-snoc f d ds x h ls e)

pub Absent-snoc : (i : ℕ) (xs : List ℕ) (x : ℕ) → Absent i xs → i ≢ x → Absent i (xs ++ (x ∷ []))
Absent-snoc i [] x ab ne = (ne, tt)
Absent-snoc i (y ∷ ys) x (n, ab) ne = (n, Absent-snoc i ys x ab ne)

pub Distinct-snoc : (xs : List ℕ) (x : ℕ) → Distinct xs → Absent x xs → Distinct (xs ++ (x ∷ []))
Distinct-snoc [] x d ab = (tt, tt)
Distinct-snoc (y ∷ ys) x (n, d) (ne, ab) =
    (Absent-snoc y ys x n (λ q. ne (sym q)), Distinct-snoc ys x d ab)

pub AllBelow-snoc :
    (n : ℕ) (xs : List ℕ) (x : ℕ) → AllBelow n xs → x < n → AllBelow n (xs ++ (x ∷ []))
AllBelow-snoc n [] x b lt = (lt, tt)
AllBelow-snoc n (y ∷ ys) x (l, b) lt = (l, AllBelow-snoc n ys x b lt)

pub AllBelow-suc : (n : ℕ) (xs : List ℕ) → AllBelow n xs → AllBelow (n + 1) xs
AllBelow-suc n [] b = tt
AllBelow-suc n (y ∷ ys) (l, b) = (omega arith, AllBelow-suc n ys b)

-- The first free place is in no list of tasks.
pub Absent-fresh : (n : ℕ) (xs : List ℕ) → AllBelow n xs → Absent n xs
Absent-fresh n [] b = tt
Absent-fresh n (y ∷ ys) (l, b) = ((λ q. absurd (omega (arith, q))), Absent-fresh n ys b)
