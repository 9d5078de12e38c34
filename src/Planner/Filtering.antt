-- ===== src/Planner/Filtering.antt =====
-- What the filter of hashes ignores, after some nodes that it was asked about.
use mathlib.Core.Logic.{◌↔◌}
use mathlib.Core.Path.{subst}
use rmf_task.Base.{
  true-ne-false, ℕ, ◌≡◌, refl, sym, ◌∙◌, ap, inl, inr, Bool, true, false, ◌&&◌, ◌||◌, Bool-cases,
  List, [], ◌∷◌, ◌++◌, append-nil, if_true, if_false, ◌==◌, beq_self, eq_of_beq,
}
use rmf_task.Planner.Filter.{
  hash, AgentTable, empty, Filter, make_filter, same_ids, same_assignments, seen, ignore_ids,
}

-- A filter after it was asked about the assignments of some nodes, one after another.
abbrev pub filter_after : List (List (List ℕ)) → Filter → Filter
filter_after [] f = f
filter_after (ids ∷ rest) f = filter_after rest (ignore_ids ids f).1

pub data Occurs {A : Type 0} (a : A) : List A → Type 0 where
  now : {rest : List A} → Occurs a (a ∷ rest)
  later : {b : A} {rest : List A} → Occurs a rest → Occurs a (b ∷ rest)

Occurs-append : {A : Type 0} {a : A} (xs ys : List A) → Occurs a ys → Occurs a (xs ++ ys)
Occurs-append [] ys h = h
Occurs-append (x ∷ xs) ys h = later (Occurs-append xs ys h)

Occurs-known :
    {A : Type 0} {a b : A} (xs ys : List A)
    → Occurs b ys
    → Occurs a (b ∷ xs ++ ys)
    → Occurs a (xs ++ ys)
Occurs-known xs ys h now = Occurs-append xs ys h
Occurs-known xs ys h (later o) = o

Occurs-swap :
    {A : Type 0} {a b : A} {zs : List A} (x : A) → Occurs a (b ∷ zs) → Occurs a (b ∷ x ∷ zs)
Occurs-swap x now = now
Occurs-swap x (later o) = later (later o)

Occurs-first :
    {A : Type 0} {a b : A} (xs ys : List A) → Occurs a (xs ++ b ∷ ys) → Occurs a (b ∷ xs ++ ys)
Occurs-first [] ys h = h
Occurs-first (x ∷ xs) ys now = later now
Occurs-first (x ∷ xs) ys (later h) = Occurs-swap x (Occurs-first xs ys h)

Occurs-middle :
    {A : Type 0} {a b : A} (xs ys : List A) → Occurs a (b ∷ xs ++ ys) → Occurs a (xs ++ b ∷ ys)
Occurs-middle [] ys h = h
Occurs-middle (x ∷ xs) ys now = later (Occurs-middle xs ys now)
Occurs-middle (x ∷ xs) ys (later now) = now
Occurs-middle (x ∷ xs) ys (later (later o)) = later (Occurs-middle xs ys (later o))

same_ids-eq : (xs ys : List ℕ) → same_ids xs ys ≡ true → xs ≡ ys
unfolding same_ids
same_ids-eq [] [] h = refl
same_ids-eq [] (y ∷ ys) h = absurd (cc)
same_ids-eq (x ∷ xs) [] h = absurd (cc)
same_ids-eq (x ∷ xs) (y ∷ ys) h = elim (Bool-cases (x == y)) [
  | inl e ↦
      cons_eq (eq_of_beq x y e)
        (same_ids-eq xs ys (sym (ap (λ (c : Bool). c && same_ids xs ys) e) ∙ h))
  | inr e ↦ absurd (true-ne-false (sym h ∙ ap (λ (c : Bool). c && same_ids xs ys) e))
]
  where
    cons_eq : x ≡ y → xs ≡ ys → ◌≡◌ {A = List ℕ} (x ∷ xs) (y ∷ ys)
    cons_eq e f = cc

same_ids_self : (xs : List ℕ) → same_ids xs xs ≡ true
unfolding same_ids
same_ids_self [] = refl
same_ids_self (x ∷ xs) = ap (λ (b : Bool). b && same_ids xs xs) (beq_self x) ∙ same_ids_self xs

same_assignments-eq : (xs ys : List (List ℕ)) → same_assignments xs ys ≡ true → xs ≡ ys
unfolding same_assignments
same_assignments-eq [] [] h = refl
same_assignments-eq [] (y ∷ ys) h = absurd (cc)
same_assignments-eq (x ∷ xs) [] h = absurd (cc)
same_assignments-eq (x ∷ xs) (y ∷ ys) h = elim (Bool-cases (same_ids x y)) [
  | inl e ↦
      cons_eq (same_ids-eq x y e)
        (same_assignments-eq xs ys (sym (ap (λ (c : Bool). c && same_assignments xs ys) e) ∙ h))
  | inr e ↦ absurd (true-ne-false (sym h ∙ ap (λ (c : Bool). c && same_assignments xs ys) e))
]
  where
    cons_eq : x ≡ y → xs ≡ ys → ◌≡◌ {A = List (List ℕ)} (x ∷ xs) (y ∷ ys)
    cons_eq e f = cc

same_assignments_self : (xs : List (List ℕ)) → same_assignments xs xs ≡ true
unfolding same_assignments
same_assignments_self [] = refl
same_assignments_self (x ∷ xs) =
    ap (λ (b : Bool). b && same_assignments xs xs) (same_ids_self x) ∙ same_assignments_self xs

seen-Occurs :
    (ids : List (List ℕ)) (set : List (List (List ℕ))) → seen ids set ≡ true → Occurs ids set
unfolding seen
seen-Occurs ids [] h = absurd (cc)
seen-Occurs ids (b ∷ set) h = elim (Bool-cases (same_assignments ids b)) [
  | inl e ↦ subst (λ (x : List (List ℕ)). Occurs ids (x ∷ set)) (same_assignments-eq ids b e) now
  | inr e ↦ later (seen-Occurs ids set (sym (ap (λ (c : Bool). c || seen ids set) e) ∙ h))
]

Occurs-seen :
    (ids : List (List ℕ)) (set : List (List (List ℕ))) → Occurs ids set → seen ids set ≡ true
unfolding seen
Occurs-seen ids [] h = elim h [ ]
Occurs-seen ids (_ ∷ set) now = ap (λ (c : Bool). c || seen ids set) (same_assignments_self ids)
Occurs-seen ids (b ∷ set) (later h) =
    ap (λ (c : Bool). same_assignments ids b || c) (Occurs-seen ids set h)
    ∙ or_true (same_assignments ids b)
  where
    or_true : (b : Bool) → (b || true) ≡ true
    or_true true = refl
    or_true false = refl

abbrev hash_filter : AgentTable → List (List (List ℕ)) → Filter
hash_filter root set = record { type = hash; root = root; set = set }

-- A filter of hashes keeps its type, and holds what it has seen.
hash-filter_after :
    (before set : List (List (List ℕ))) (root : AgentTable)
    → (set' : List (List (List ℕ))) × (filter_after before (hash_filter root set)
        ≡ hash_filter root set')
      × ((x : List (List ℕ)) → Occurs x set' → Occurs x (before ++ set))
      × ((x : List (List ℕ)) → Occurs x (before ++ set) → Occurs x set')
unfolding ignore_ids
hash-filter_after [] set root = (set, refl, (λ x h. h), (λ x h. h))
hash-filter_after (ids ∷ before) set root = elim (Bool-cases (seen ids set)) [
  | inl h ↦
      let (set', e, f, g) = hash-filter_after before set root in
      (
        set',
        ap (λ (r : Bool × Filter). filter_after before r.1) (if_true (seen ids set) _ _ h) ∙ e,
        (λ x o. later (f x o)),
        (λ x o. g x (Occurs-known before set (seen-Occurs ids set h) o)),
      )
  | inr h ↦
      let (set', e, f, g) = hash-filter_after before (ids ∷ set) root in
      (
        set',
        ap (λ (r : Bool × Filter). filter_after before r.1) (if_false (seen ids set) _ _ h) ∙ e,
        (λ x o. Occurs-first before set (f x o)),
        (λ x o. g x (Occurs-middle before set o)),
      )
]

-- A filter of hashes ignores the assignments of a node exactly if it was asked before about a node
-- with the same ones, whatever it was asked about.
pub hash_filter_iff :
    (before : List (List (List ℕ))) (ids : List (List ℕ))
    → ((ignore_ids ids (filter_after before (make_filter hash))).0 ≡ true) ↔ Occurs ids before
unfolding ignore_ids
hash_filter_iff before ids =
    let (set, e, f, g) = hash-filter_after before [] empty in
    (
      (λ h. subst (Occurs ids) (append-nil before) (
          f ids (
            seen-Occurs ids set
              (sym (asked set) ∙ ap (λ (x : Filter). (ignore_ids ids x).0) (sym e) ∙ h)))),
      (λ o.
          ap (λ (x : Filter). (ignore_ids ids x).0) e
          ∙ asked set
          ∙ Occurs-seen ids set (g ids (subst (Occurs ids) (sym (append-nil before)) o))),
    )
  where
    asked : (set : List (List (List ℕ))) → (ignore_ids ids (hash_filter empty set)).0 ≡ seen ids set
    asked set = elim (Bool-cases (seen ids set)) [
      | inl h ↦ ap (λ (r : Bool × Filter). r.0) (if_true (seen ids set) _ _ h) ∙ sym h
      | inr h ↦ ap (λ (r : Bool × Filter). r.0) (if_false (seen ids set) _ _ h) ∙ sym h
    ]
