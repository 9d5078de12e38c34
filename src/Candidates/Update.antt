-- ===== src/Candidates/Update.antt =====
-- The iterators of a set of candidates and its map, when a candidate is updated.
use mathlib.Core.Path.{subst}
use rmf_task.Base.{
  ℕ, zero, suc, ◌≤◌, ◌<◌, ◌≡◌, refl, sym, ◌∙◌, ap, inl, inr, Bool, true, false, List, [], ◌∷◌,
  Option, none, some, if◌then◌else◌, All, arith, ◌==◌, ltb, Bool-cases, beq_self, if_true, if_false,
  ok, deref-some,
}
use rmf_task.Candidates.{Node, Candidates, put, slot, insert_node, erase_node, update_candidate}
use rmf_task.Candidates.Best.{IsSorted}

module _ {S : Type 0} where
  -- The node of a candidate.
  abbrev pub lookup : ℕ → List (Node S) → Option (Node S)
  lookup c [] = none
  lookup c (n ∷ nodes) = if n.entry.candidate == c then some n else lookup c nodes

  abbrev pub iterator : Option (Node S) → Option ℕ
  iterator none = none
  iterator (some n) = some n.node

  -- Two nodes have different names and different candidates.
  abbrev pub Apart : Node S → Node S → Type 0
  Apart n m = ((m.node == n.node) ≡ false) × ((m.entry.candidate == n.entry.candidate) ≡ false)

  abbrev pub Distinct : List (Node S) → Type 0
  Distinct [] = Unit
  Distinct (n ∷ nodes) = All (Apart n) nodes × Distinct nodes

-- The map is sorted by finish time, holds each candidate once, and the vector has the iterator of
-- each candidate that the map holds, and no other.
pub record IsLinked {S : Type 0} (cs : Candidates S) : Type 0 where
  pub sorted : IsSorted cs.value_map
  pub fresh : All (λ n. n.node < cs.next_node) cs.value_map
  pub distinct : Distinct cs.value_map
  pub linked : (c : ℕ) → slot c cs.candidate_map ≡ iterator (lookup c cs.value_map)

slot-put :
    (c c' i : ℕ) (xs : List (Option ℕ))
    → slot c' (put c i xs) ≡ (if c == c' then some i else slot c' xs)
unfolding put
slot-put zero zero i [] = refl
slot-put zero (suc c') i [] = ground arith
slot-put zero zero i (x ∷ xs) = refl
slot-put zero (suc c') i (x ∷ xs) = ground arith
slot-put (suc c) zero i [] = ground arith
slot-put (suc c) (suc c') i [] = ground (arith, slot-put c c' i [])
slot-put (suc c) zero i (x ∷ xs) = ground arith
slot-put (suc c) (suc c') i (x ∷ xs) = ground (arith, slot-put c c' i xs)

module _ {S : Type 0} where
  pub All-insert_node {ℓ} :
      (P : Node S → Type ℓ) (n : Node S) (nodes : List (Node S))
      → P n
      → All P nodes
      → All P (insert_node n nodes)
  unfolding insert_node
  All-insert_node P n [] h l = (h, tt)
  All-insert_node P n (m ∷ nodes) h l = elim (Bool-cases (ltb n.key m.key)) [
    | inl first ↦ subst (All P) (sym (if_true (ltb n.key m.key) _ _ first)) (h, l)
    | inr later ↦
        subst (All P) (sym (if_false (ltb n.key m.key) _ _ later))
          (l.0, All-insert_node P n nodes h l.1)
  ]

  All-erase_node {ℓ} :
      (P : Node S → Type ℓ) (i : ℕ) (nodes : List (Node S))
      → All P nodes
      → All P (erase_node i nodes)
  unfolding erase_node
  All-erase_node P i [] l = tt
  All-erase_node P i (m ∷ nodes) l = elim (Bool-cases (m.node == i)) [
    | inl hit ↦ subst (All P) (sym (if_true (m.node == i) _ _ hit)) l.1
    | inr miss ↦
        subst (All P) (sym (if_false (m.node == i) _ _ miss)) (l.0, All-erase_node P i nodes l.1)
  ]

  All-mono :
      {P Q : Node S → Type 0} (nodes : List (Node S))
      → ((m : Node S) → P m → Q m)
      → All P nodes
      → All Q nodes
  All-mono [] f l = tt
  All-mono (m ∷ nodes) f l = (f m l.0, All-mono nodes f l.1)

  insert_node-IsSorted :
      (n : Node S) (nodes : List (Node S)) → IsSorted nodes → IsSorted (insert_node n nodes)
  unfolding insert_node
  insert_node-IsSorted n [] s = (tt, tt)
  insert_node-IsSorted n (m ∷ nodes) s = elim (Bool-cases (ltb n.key m.key)) [
    | inl first ↦
        subst IsSorted (sym (if_true (ltb n.key m.key) _ _ first))
          ((ground arith, All-mono nodes (λ x h. ground arith) s.0), s)
    | inr later ↦ subst IsSorted (sym (if_false (ltb n.key m.key) _ _ later)) (
      All-insert_node (λ x. m.key ≤ x.key) n nodes (ground arith) s.0,
      insert_node-IsSorted n nodes s.1,
    )
  ]

  erase_node-IsSorted :
      (i : ℕ) (nodes : List (Node S)) → IsSorted nodes → IsSorted (erase_node i nodes)
  unfolding erase_node
  erase_node-IsSorted i [] s = tt
  erase_node-IsSorted i (m ∷ nodes) s = elim (Bool-cases (m.node == i)) [
    | inl hit ↦ subst IsSorted (sym (if_true (m.node == i) _ _ hit)) s.1
    | inr miss ↦
        subst IsSorted (sym (if_false (m.node == i) _ _ miss))
          (All-erase_node (λ x. m.key ≤ x.key) i nodes s.0, erase_node-IsSorted i nodes s.1)
  ]

  insert_node-Distinct :
      (n : Node S) (nodes : List (Node S))
      → All (Apart n) nodes
      → Distinct nodes
      → Distinct (insert_node n nodes)
  unfolding insert_node
  insert_node-Distinct n [] a d = (tt, tt)
  insert_node-Distinct n (m ∷ nodes) a d = elim (Bool-cases (ltb n.key m.key)) [
    | inl first ↦ subst Distinct (sym (if_true (ltb n.key m.key) _ _ first)) (a, d)
    | inr later ↦ subst Distinct (sym (if_false (ltb n.key m.key) _ _ later)) (
      All-insert_node (Apart m) n nodes (ground arith, ground arith) d.0,
      insert_node-Distinct n nodes a.1 d.1,
    )
  ]

  erase_node-Distinct :
      (i : ℕ) (nodes : List (Node S)) → Distinct nodes → Distinct (erase_node i nodes)
  unfolding erase_node
  erase_node-Distinct i [] d = tt
  erase_node-Distinct i (m ∷ nodes) d = elim (Bool-cases (m.node == i)) [
    | inl hit ↦ subst Distinct (sym (if_true (m.node == i) _ _ hit)) d.1
    | inr miss ↦
        subst Distinct (sym (if_false (m.node == i) _ _ miss))
          (All-erase_node (Apart m) i nodes d.0, erase_node-Distinct i nodes d.1)
  ]

  lookup-insert_node :
      (c : ℕ) (n : Node S) (nodes : List (Node S))
      → All (λ m. (m.entry.candidate == n.entry.candidate) ≡ false) nodes
      → lookup c (insert_node n nodes) ≡ (if n.entry.candidate == c then some n else lookup c nodes)
  unfolding insert_node
  lookup-insert_node c n [] l = refl
  lookup-insert_node c n (m ∷ nodes) l = elim (Bool-cases (ltb n.key m.key)) [
    | inl first ↦ ap (lookup c) (if_true (ltb n.key m.key) _ _ first)
    | inr later ↦
        ap (lookup c) (if_false (ltb n.key m.key) _ _ later)
        ∙ ground (arith, l.0, lookup-insert_node c n nodes l.1)
  ]

  lookup-All {ℓ} :
      (P : Node S → Type ℓ) (c : ℕ) (nodes : List (Node S)) (n : Node S)
      → lookup c nodes ≡ some n
      → All P nodes
      → P n
  lookup-All P c [] n e l = absurd (cc)
  lookup-All P c (m ∷ nodes) n e l = elim (Bool-cases (m.entry.candidate == c)) [
    | inl hit ↦ subst P (same (sym (if_true (m.entry.candidate == c) _ _ hit) ∙ e)) l.0
    | inr miss ↦ lookup-All P c nodes n (sym (if_false (m.entry.candidate == c) _ _ miss) ∙ e) l.1
  ]
    where
      same : ◌≡◌ {A = Option (Node S)} (some m) (some n) → m ≡ n
      same h = cc

  lookup-absent :
      (c : ℕ) (nodes : List (Node S))
      → All (λ m. (m.entry.candidate == c) ≡ false) nodes
      → lookup c nodes ≡ none
  lookup-absent c [] l = refl
  lookup-absent c (m ∷ nodes) l =
      if_false (m.entry.candidate == c) _ _ l.0 ∙ lookup-absent c nodes l.1

  absent-lookup :
      (c : ℕ) (nodes : List (Node S))
      → lookup c nodes ≡ none
      → All (λ m. (m.entry.candidate == c) ≡ false) nodes
  absent-lookup c [] e = tt
  absent-lookup c (m ∷ nodes) e = elim (Bool-cases (m.entry.candidate == c)) [
    | inl hit ↦ absurd (clash (sym (if_true (m.entry.candidate == c) _ _ hit) ∙ e))
    | inr miss ↦
        (miss, absent-lookup c nodes (sym (if_false (m.entry.candidate == c) _ _ miss) ∙ e))
  ]
    where
      clash : ◌≡◌ {A = Option (Node S)} (some m) none → ⊥
      clash h = cc

  zip_Apart :
      (n : Node S) (nodes : List (Node S))
      → All (λ m. m.node < n.node) nodes
      → All (λ m. (m.entry.candidate == n.entry.candidate) ≡ false) nodes
      → All (Apart n) nodes
  zip_Apart n [] f a = tt
  zip_Apart n (m ∷ nodes) f a = ((ground (arith, f.0), a.0), zip_Apart n nodes f.1 a.1)

  -- Erasing the node of a candidate takes away that candidate, and no other.
  lookup-erase_node :
      (c c' : ℕ) (old : Node S) (nodes : List (Node S))
      → Distinct nodes
      → lookup c nodes ≡ some old
      → lookup c' (erase_node old.node nodes) ≡ (if c == c' then none else lookup c' nodes)
  unfolding erase_node
  lookup-erase_node c c' old [] d e = absurd (cc)
  lookup-erase_node c c' old (n ∷ nodes) d e = elim (Bool-cases (n.entry.candidate == c)) [
    | inl hit ↦
        let named : n.node ≡ old.node = same (sym (if_true (n.entry.candidate == c) _ _ hit) ∙ e) in
        ap (lookup c') (if_true (n.node == old.node) _ _ (ground (arith, named)))
        ∙ ground (arith, hit, absent hit)
    | inr miss ↦
        let e' = sym (if_false (n.entry.candidate == c) _ _ miss) ∙ e in
        let apart = lookup-All (Apart n) c nodes old e' d.0 in
        ap (lookup c') (if_false (n.node == old.node) _ _ (ground (arith, apart.0)))
        ∙ ground (arith, miss, lookup-erase_node c c' old nodes d.1 e')
  ]
    where
      same : ◌≡◌ {A = Option (Node S)} (some n) (some old) → n.node ≡ old.node
      same h = cc

      absent : (n.entry.candidate == c) ≡ true → lookup c nodes ≡ none
      absent hit = lookup-absent c nodes (
          All-mono {P = Apart n} {Q = λ m. (m.entry.candidate == c) ≡ false} nodes
            (λ m h. ground (arith, h.1, hit)) d.0)

  -- Updating a candidate that the map holds succeeds. It keeps the map sorted and the iterators
  -- true, gives the candidate its new entry under the time of the new state, and leaves every
  -- other candidate its node.
  pub update_candidate_lem :
      (time : S → ℕ) (c : ℕ) (state : S) (wait_until : ℕ) (previous_state : S) (charge : Bool)
      (cs : Candidates S) (old : Node S)
      → IsLinked cs
      → lookup c cs.value_map ≡ some old
      → (cs' : Candidates S) × (new : Node S) × (update_candidate time c state wait_until
            previous_state charge cs
          ≡ ok cs')
        × IsLinked cs'
        × (new.key ≡ time state)
        × (new.entry.state ≡ state)
        × (new.entry.wait_until ≡ wait_until)
        × ((c' : ℕ)
            → lookup c' cs'.value_map ≡ (if c == c' then some new else lookup c' cs.value_map))
  unfolding update_candidate
  update_candidate_lem time c state wait_until previous_state charge cs old v e = (
    after,
    new,
    deref-some (slot c cs.candidate_map) _ (v.linked c ∙ ap iterator e),
    record {
      sorted = insert_node-IsSorted new erased (erase_node-IsSorted old.node cs.value_map v.sorted);
      fresh =
          All-insert_node (λ n. n.node < suc cs.next_node) new erased (omega arith)
            (All-mono {P = λ m. m.node < cs.next_node} erased (λ m h. omega arith) older);
      distinct =
          insert_node-Distinct new erased (zip_Apart new erased older others)
            (erase_node-Distinct old.node cs.value_map v.distinct);
      linked =
          λ c'. slot-put c c' cs.next_node cs.candidate_map ∙ ground (arith, v.linked c', found c');
    },
    refl,
    refl,
    refl,
    found,
  )
    where
      new : Node S
      new = record {
        key = time state;
        node = cs.next_node;
        entry = record {
          candidate = c;
          state = state;
          wait_until = wait_until;
          previous_state = previous_state;
          require_charge_battery = charge;
        };
      }

      erased : List (Node S)
      erased = erase_node old.node cs.value_map

      older : All (λ m. m.node < cs.next_node) erased
      older = All-erase_node (λ m. m.node < cs.next_node) old.node cs.value_map v.fresh

      others : All (λ m. (m.entry.candidate == c) ≡ false) erased
      others =
          absent-lookup c erased (
            lookup-erase_node c c old cs.value_map v.distinct e ∙ if_true (c == c) _ _ (beq_self c))

      after : Candidates S
      after = record {
        value_map = insert_node new erased;
        candidate_map = put c cs.next_node cs.candidate_map;
        next_node = suc cs.next_node;
      }

      found :
          (c' : ℕ)
          → lookup c' after.value_map ≡ (if c == c' then some new else lookup c' cs.value_map)
      found c' =
          lookup-insert_node c' new erased others
          ∙ ground (arith, lookup-erase_node c c' old cs.value_map v.distinct e)
