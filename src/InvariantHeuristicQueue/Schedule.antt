-- ===== src/InvariantHeuristicQueue/Schedule.antt =====
-- The cost of the queue is that of a schedule in which each task goes to the robot that is free first.
use mathlib.Core.List.{Perm}
use mathlib.Core.List.Perm
use mathlib.Core.Path.{subst}
use rmf_task.Base.{
  ℕ, ◌+◌, ◌-◌, ◌≤◌, ◌≡◌, refl, sym, ◌∙◌, ap, true, false, some, if◌then◌else◌, leb, List, [], ◌∷◌,
  map, All, arith, Bool-cases, inl, inr, if_true, if_false,
}
use rmf_task.InvariantHeuristicQueue.{
  Stack, rotate_front, push_element, make_queue, add, stack_cost, compute_cost, add_invariants,
}

-- A schedule of tasks, each from an earliest start to an earliest finish, on robots that are free
-- from the given times, and what it costs: each task goes to a robot that is free first and takes
-- it for its duration; its cost is by how much it ends after its earliest start.
pub data Schedules : List (ℕ × ℕ) → List ℕ → ℕ → Type 0 where
  all_done : (free : List ℕ) → Schedules [] free 0
  goes_first :
      {start finish m c : ℕ} {tasks : List (ℕ × ℕ)} {free others : List ℕ}
      → Perm free (m ∷ others)
      → All (λ t. m ≤ t) others
      → Schedules tasks ((m + (finish - start)) ∷ others) c
      → Schedules ((start, finish) ∷ tasks) free ((m + (finish - start) - start) + c)

abbrev ends : List Stack → List ℕ
ends = map (λ (s : Stack). s.back.end)

IsSorted : List ℕ → Type 0
IsSorted [] = Unit
IsSorted (x ∷ xs) = All (λ t. x ≤ t) xs × IsSorted xs

HasFront : List Stack → Type 0
HasFront [] = ⊥
HasFront (s ∷ rest) = Unit

All-mono : {P Q : ℕ → Type 0} (xs : List ℕ) → ((x : ℕ) → P x → Q x) → All P xs → All Q xs
All-mono [] h a = tt
All-mono (x ∷ xs) h a = (h x a.0, All-mono xs h a.1)

rotate_front-Perm :
    (f : Stack) (q : List Stack) → Perm (ends (rotate_front f q)) (f.back.end ∷ ends q)
unfolding rotate_front
rotate_front-Perm f [] = Perm.refl _
rotate_front-Perm f (s ∷ q) =
    elim (leb f.back.end s.back.end)
      as (λ b.
        Perm (ends (if b then f ∷ s ∷ q else s ∷ rotate_front f q))
          (f.back.end ∷ s.back.end ∷ ends q)) [
            | true ↦ Perm.refl _
            | false ↦
                Perm.trans (Perm.cons s.back.end (rotate_front-Perm f q))
                  (Perm.swap f.back.end s.back.end (ends q))
          ]

rotate_front-All :
    (P : ℕ → Type 0) (f : Stack) (q : List Stack)
    → P f.back.end
    → All P (ends q)
    → All P (ends (rotate_front f q))
unfolding rotate_front
rotate_front-All P f [] h a = (h, tt)
rotate_front-All P f (s ∷ q) h a =
    elim (leb f.back.end s.back.end)
      as (λ b. All P (ends (if b then f ∷ s ∷ q else s ∷ rotate_front f q))) [
        | true ↦ (h, a)
        | false ↦ (a.0, rotate_front-All P f q h a.1)
      ]

rotate_front-IsSorted :
    (f : Stack) (q : List Stack) → IsSorted (ends q) → IsSorted (ends (rotate_front f q))
unfolding rotate_front IsSorted
rotate_front-IsSorted f [] h = (tt, tt)
rotate_front-IsSorted f (s ∷ q) h = elim (Bool-cases (leb f.back.end s.back.end)) [
  | inl before ↦
      subst (λ l. IsSorted (ends l)) (sym (if_true (leb f.back.end s.back.end) _ _ before))
        ((first_end before, All-mono (ends q) (λ x le. through x before le) h.0), h)
  | inr after ↦
      subst (λ l. IsSorted (ends l)) (sym (if_false (leb f.back.end s.back.end) _ _ after))
        (
          rotate_front-All (λ t. s.back.end ≤ t) f q (last_end after) h.0,
          rotate_front-IsSorted f q h.1,
        )
]
  where
    first_end : leb f.back.end s.back.end ≡ true → f.back.end ≤ s.back.end
    first_end h = ground (arith, h)

    through : (x : ℕ) → leb f.back.end s.back.end ≡ true → s.back.end ≤ x → f.back.end ≤ x
    through x h g = ground (arith, h, g)

    last_end : leb f.back.end s.back.end ≡ false → s.back.end ≤ f.back.end
    last_end h = ground (arith, h)

rotate_front-cost :
    (f : Stack) (q : List Stack)
    → compute_cost (rotate_front f q) ≡ stack_cost f.back f.earlier + compute_cost q
unfolding rotate_front compute_cost
rotate_front-cost f [] = refl
rotate_front-cost f (s ∷ q) =
    elim (leb f.back.end s.back.end)
      as (λ b.
        compute_cost (if b then f ∷ s ∷ q else s ∷ rotate_front f q)
        ≡ stack_cost f.back f.earlier + (stack_cost s.back s.earlier + compute_cost q)) [
          | true ↦ refl
          | false ↦ later (rotate_front-cost f q)
        ]
  where
    later :
        compute_cost (rotate_front f q) ≡ stack_cost f.back f.earlier + compute_cost q
        → stack_cost s.back s.earlier + compute_cost (rotate_front f q)
          ≡ stack_cost f.back f.earlier + (stack_cost s.back s.earlier + compute_cost q)
    later h = omega (arith, h)

rotate_front-HasFront : (f : Stack) (q : List Stack) → HasFront (rotate_front f q)
unfolding rotate_front HasFront
rotate_front-HasFront f [] = tt
rotate_front-HasFront f (s ∷ q) =
    elim (leb f.back.end s.back.end)
      as (λ b. HasFront (if b then f ∷ s ∷ q else s ∷ rotate_front f q)) [ true ↦ tt | false ↦ tt ]

make_queue-IsSorted : (values : List ℕ) → IsSorted (ends (make_queue values))
unfolding make_queue IsSorted
make_queue-IsSorted [] = tt
make_queue-IsSorted (v ∷ values) =
    rotate_front-IsSorted _ (make_queue values) (make_queue-IsSorted values)

make_queue-Perm : (values : List ℕ) → Perm values (ends (make_queue values))
unfolding make_queue
make_queue-Perm [] = Perm.refl []
make_queue-Perm (v ∷ values) = Perm.trans (Perm.cons v (make_queue-Perm values)) (
    Perm.symm (
      rotate_front-Perm (record { back = record { start = 0; end = v }; earlier = [] })
        (make_queue values)))

make_queue-cost : (values : List ℕ) → compute_cost (make_queue values) ≡ 0
unfolding make_queue compute_cost stack_cost
make_queue-cost [] = refl
make_queue-cost (v ∷ values) =
    rotate_front-cost (record { back = record { start = 0; end = v }; earlier = [] })
      (make_queue values)
    ∙ ap (λ x. 0 + x) (make_queue-cost values)

make_queue-HasFront : (v : ℕ) (values : List ℕ) → HasFront (make_queue (v ∷ values))
unfolding make_queue
make_queue-HasFront v values = rotate_front-HasFront _ (make_queue values)

-- What the queue adds to its cost is the cost of a schedule.
data Adds (tasks : List (ℕ × ℕ)) (q : List Stack) (free : List ℕ) : Type 0 where
  adds :
      (q' : List Stack) (c : ℕ)
      → add_invariants tasks q ≡ some q'
      → compute_cost q' ≡ compute_cost q + c
      → Schedules tasks free c
      → Adds tasks q free

add_invariants-Adds :
    (tasks : List (ℕ × ℕ)) (q : List Stack) (free : List ℕ)
    → HasFront q
    → IsSorted (ends q)
    → Perm free (ends q)
    → Adds tasks q free
unfolding add_invariants add IsSorted HasFront push_element compute_cost stack_cost
add_invariants-Adds [] q free h sorted p = adds q 0 refl (omega arith) (all_done free)
add_invariants-Adds (task ∷ tasks) [] free h sorted p = absurd h
add_invariants-Adds ((start, finish) ∷ tasks) (front ∷ rest) free h sorted p =
    let m = front.back.end in
    let pushed = push_element (record { start = start; end = m + (finish - start) }) front in
    let sum = rotate_front-cost pushed rest in
    elim (add_invariants-Adds tasks (rotate_front pushed rest) ((m + (finish - start)) ∷ ends rest)
      (rotate_front-HasFront pushed rest) (rotate_front-IsSorted pushed rest sorted.1)
      (Perm.symm (rotate_front-Perm pushed rest))) [
        | adds q' c e cost s ↦
            adds q' ((m + (finish - start) - start) + c) e (omega (arith, cost, sum))
              (goes_first p sorted.0 s)
      ]

-- The queue that is made of the times at which robots are free takes any invariants, and its cost is
-- that of a schedule in which each goes to a robot that is free first and takes it for its duration.
pub compute_cost-Schedules :
    (v : ℕ) (values : List ℕ) (tasks : List (ℕ × ℕ))
    → (q : List Stack) × (add_invariants tasks (make_queue (v ∷ values)) ≡ some q)
      × Schedules tasks (v ∷ values) (compute_cost q)
compute_cost-Schedules v values tasks =
    elim (add_invariants-Adds tasks (make_queue (v ∷ values)) (v ∷ values)
      (make_queue-HasFront v values) (make_queue-IsSorted (v ∷ values))
      (make_queue-Perm (v ∷ values))) [
        | adds q c e cost s ↦ (
          q,
          e,
          subst (Schedules tasks (v ∷ values)) (omega (arith, cost, make_queue-cost (v ∷ values)))
              s,
        )
      ]
