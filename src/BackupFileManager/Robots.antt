-- ===== src/BackupFileManager/Robots.antt =====
-- One object for each robot of a group, while it is in use.
use mathlib.Core.Path.{subst}
use rmf_task.Base.{
  ℕ, zero, suc, ◌≡◌, refl, sym, ◌∙◌, ap, inl, inr, Bool, true, false, List, [], ◌∷◌, ◌++◌, Option,
  Option-cases, none, some, if◌then◌else◌, ◌==◌, beq_self, Bool-cases, if_true, if_false, length,
  get_elem?, maybe, maybe-none, maybe-some,
}
use rmf_task.BackupFileManager.{
  Robot, Group, Manager, find_entry, set_entry, set_at, lock_robot, fresh_robot, make_robot,
}

find_entry-set_entry :
    (name i : ℕ) (table : List (ℕ × ℕ)) → find_entry name (set_entry name i table) ≡ some i
unfolding find_entry set_entry
find_entry-set_entry name i [] = if_true (name == name) _ _ (beq_self name)
find_entry-set_entry name i ((n, j) ∷ table) = elim (Bool-cases (name == n)) [
  | inl h ↦ ap (find_entry name) (if_true (name == n) _ _ h) ∙ if_true (name == n) _ _ h
  | inr h ↦
      ap (find_entry name) (if_false (name == n) _ _ h)
      ∙ if_false (name == n) _ _ h
      ∙ find_entry-set_entry name i table
]

module _ {A : Type 0} where
  get_elem?-set_at :
      (i : ℕ) (a b : A) (xs : List A)
      → get_elem? xs i ≡ some b
      → get_elem? (set_at i a xs) i ≡ some a
  unfolding set_at
  get_elem?-set_at i a b [] h = absurd (cc)
  get_elem?-set_at zero a b (x ∷ xs) h = refl
  get_elem?-set_at (suc i) a b (x ∷ xs) h = get_elem?-set_at i a b xs h

  get_elem?-last : (a : A) (xs : List A) → get_elem? (xs ++ a ∷ []) (length xs) ≡ some a
  get_elem?-last a [] = refl
  get_elem?-last a (x ∷ xs) = get_elem?-last a xs

lock_robot-same : (robots : List Robot) (i j : ℕ) → lock_robot robots i ≡ some j → j ≡ i
unfolding lock_robot
lock_robot-same robots i j e = elim (Option-cases (get_elem? robots i)) [
  | inl h ↦ absurd (none_some (sym (maybe-none (get_elem? robots i) _ _ h) ∙ e))
  | inr (r, h) ↦ alive_same r.alive (sym (maybe-some (get_elem? robots i) _ _ h) ∙ e)
]
  where
    none_some : ◌≡◌ {A = Option ℕ} none (some j) → ⊥
    none_some e = cc

    alive_same : (b : Bool) → (if b then some i else none) ≡ some j → j ≡ i
    alive_same true e = cc
    alive_same false e = absurd (none_some e)

lock_robot-last :
    (robots : List Robot) (r : Robot)
    → r.alive ≡ true
    → lock_robot (robots ++ r ∷ []) (length robots) ≡ some (length robots)
unfolding lock_robot
lock_robot-last robots r h =
    maybe-some (get_elem? (robots ++ r ∷ []) (length robots)) _ _ (get_elem?-last r robots)
    ∙ if_true r.alive _ _ h

-- A robot that the table of its group has, and that is in use.
make_robot-reuses :
    (group name i : ℕ) (g : Group) (m : Manager)
    → get_elem? m.all_groups group ≡ some g
    → find_entry name g.robots ≡ some i
    → lock_robot m.all_robots i ≡ some i
    → make_robot group name m ≡ some (i, m)
unfolding make_robot
make_robot-reuses group name i g m a b c =
    maybe-some (get_elem? m.all_groups group) _ _ a
    ∙ ap (λ (x : ℕ × Manager). some x)
        (maybe-some (find_entry name g.robots) _ _ b ∙ maybe-some (lock_robot m.all_robots i) _ _ c)

-- A call of `make_robot` with the same names after one that gave a result.
abbrev Again : ℕ → ℕ → ℕ × Manager → Type 0
Again group name r = make_robot group name r.1 ≡ some r

fresh_robot-Again :
    (group name : ℕ) (g : Group) (m : Manager)
    → get_elem? m.all_groups group ≡ some g
    → Again group name (fresh_robot group name g m)
unfolding fresh_robot
fresh_robot-Again group name g m a =
    make_robot-reuses group name (length m.all_robots)
      (record g { robots = set_entry name (length m.all_robots) g.robots })
      (fresh_robot group name g m).1 (get_elem?-set_at group _ g m.all_groups a)
      (find_entry-set_entry name (length m.all_robots) g.robots)
      (lock_robot-last m.all_robots _ refl)

made-Again :
    (group name : ℕ) (g : Group) (m : Manager)
    → get_elem? m.all_groups group ≡ some g
    → Again group name (
        maybe
          (find_entry name g.robots)
          (fresh_robot group name g m)
          λ i. maybe (lock_robot m.all_robots i) (fresh_robot group name g m) λ j. (j, m))
made-Again group name g m a = elim (Option-cases (find_entry name g.robots)) [
  | inl h ↦
      subst (Again group name) (sym (maybe-none (find_entry name g.robots) _ _ h))
        (fresh_robot-Again group name g m a)
  | inr (i, h) ↦ elim (Option-cases (lock_robot m.all_robots i)) [
    | inl l ↦
        subst (Again group name)
          (sym (
            maybe-some (find_entry name g.robots) _ _ h
            ∙ maybe-none (lock_robot m.all_robots i) _ _ l))
          (fresh_robot-Again group name g m a)
    | inr (j, l) ↦
        subst (Again group name)
          (sym (
            maybe-some (find_entry name g.robots) _ _ h
            ∙ maybe-some (lock_robot m.all_robots i) _ _ l))
          (make_robot-reuses group name j g m a
            (h ∙ ap (λ (x : ℕ). some x) (sym (lock_robot-same m.all_robots i j l)))
            (subst (λ (x : ℕ). lock_robot m.all_robots x ≡ some j)
              (sym (lock_robot-same m.all_robots i j l)) l))
  ]
]

-- Right after a call of `make_robot` that gave a robot, another call with the same names gives the
-- same one and changes nothing.
pub make_robot_again :
    (group name i : ℕ) (m m' : Manager)
    → make_robot group name m ≡ some (i, m')
    → make_robot group name m' ≡ some (i, m')
unfolding make_robot
make_robot_again group name i m m' e = elim (Option-cases (get_elem? m.all_groups group)) [
  | inl h ↦ absurd (none_some (sym (maybe-none (get_elem? m.all_groups group) _ _ h) ∙ e))
  | inr (g, h) ↦
      subst (Again group name) (same (sym (maybe-some (get_elem? m.all_groups group) _ _ h) ∙ e))
        (made-Again group name g m h)
]
  where
    none_some : ◌≡◌ {A = Option (ℕ × Manager)} none (some (i, m')) → ⊥
    none_some e = cc

    same : {a b : ℕ × Manager} → ◌≡◌ {A = Option (ℕ × Manager)} (some a) (some b) → a ≡ b
    same e = cc
