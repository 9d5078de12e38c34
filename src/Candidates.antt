-- ===== src/Candidates.antt =====
-- rmf_task/src/rmf_task/internal_task_planning.hpp and internal_task_planning.cpp: the candidates
-- for a pending task, in a multimap by finish time with an iterator for each candidate.
pub mod Best
pub mod Update
pub mod Construct
mod Examples
use rmf_task.Base.{
  ℕ, zero, suc, ◌+◌, Bool, false, List, [], ◌∷◌, Option, none, some, if◌then◌else◌, ◌==◌, ltb,
  Result, ok, err, past_end, ◌>>=◌, deref, get_elem?,
}

-- `Candidates::Entry`; `S` stands for the state of a robot.
pub record Entry (S : Type 0) : Type 0 where
  pub candidate : ℕ
  pub state : S
  pub wait_until : ℕ
  pub previous_state : S
  pub require_charge_battery : Bool

-- A node of the multimap. The number names the node, as an iterator does.
pub record Node (S : Type 0) : Type 0 where
  pub key : ℕ
  pub node : ℕ
  pub entry : Entry S

-- The multimap in its order; an iterator for each candidate, where there is one; and a number that
-- no node has.
pub record Candidates (S : Type 0) : Type 0 where
  pub value_map : List (Node S)
  pub candidate_map : List (Option ℕ)
  pub next_node : ℕ

-- Assigns an element of the vector of iterators, after a resize if there is none yet.
unfoldable pub put : ℕ → ℕ → List (Option ℕ) → List (Option ℕ)
put zero node [] = some node ∷ []
put zero node (x ∷ xs) = some node ∷ xs
put (suc c) node [] = none ∷ put c node []
put (suc c) node (x ∷ xs) = x ∷ put c node xs

-- The iterator of a candidate, if the vector reaches it and it was assigned.
abbrev pub slot : ℕ → List (Option ℕ) → Option ℕ
slot c [] = none
slot zero (x ∷ xs) = x
slot (suc c) (x ∷ xs) = slot c xs

module _ {S : Type 0} where
  -- `std::multimap::insert`: behind the nodes whose key is the same.
  unfoldable pub insert_node : Node S → List (Node S) → List (Node S)
  insert_node n [] = n ∷ []
  insert_node n (m ∷ nodes) =
      let rest = insert_node n nodes in if ltb n.key m.key then n ∷ m ∷ nodes else m ∷ rest

  -- `std::multimap::erase` at an iterator.
  unfoldable pub erase_node : ℕ → List (Node S) → List (Node S)
  erase_node i [] = []
  erase_node i (m ∷ nodes) =
      let rest = erase_node i nodes in if m.node == i then nodes else m ∷ rest

  -- The loop of `update_map`.
  unfoldable pub update_map : List (Node S) → List (Option ℕ) → List (Option ℕ)
  update_map [] candidate_map = candidate_map
  update_map (n ∷ nodes) candidate_map =
      update_map nodes (put n.entry.candidate n.node candidate_map)

  -- The constructor, over entries under their keys in the order in which they were inserted.
  unfoldable pub insert_all : List (ℕ × Entry S) → ℕ → List (Node S) → List (Node S)
  insert_all [] next nodes = nodes
  insert_all ((key, entry) ∷ entries) next nodes =
      insert_all entries (suc next)
        (insert_node (record { key = key; node = next; entry = entry }) nodes)

  count_entries : List (ℕ × Entry S) → ℕ
  count_entries [] = 0
  count_entries (_ ∷ entries) = suc (count_entries entries)

  unfoldable pub construct : List (ℕ × Entry S) → Candidates S
  unfolding insert_all count_entries
  construct entries =
      let nodes = insert_all entries 0 [] in
      record {
        value_map = nodes;
        candidate_map = update_map nodes [];
        next_node = count_entries entries;
      }

  -- `at` throws where the vector is too short; erasing at an iterator that was never assigned is
  -- undefined.
  -- `time` is the time of a state.
  unfoldable pub update_candidate :
      (S → ℕ) → ℕ → S → ℕ → S → Bool → Candidates S → Result (Candidates S)
  update_candidate time candidate state wait_until previous_state require_charge_battery cs = do
    old ← deref (slot candidate cs.candidate_map)
    let new : Node S = record {
      key = time state;
      node = cs.next_node;
      entry = record {
        candidate = candidate;
        state = state;
        wait_until = wait_until;
        previous_state = previous_state;
        require_charge_battery = require_charge_battery;
      };
    }
    ok (record {
      value_map = insert_node new (erase_node old cs.value_map);
      candidate_map = put candidate cs.next_node cs.candidate_map;
      next_node = suc cs.next_node;
    })

  unfoldable pub best_finish_time : Candidates S → Result ℕ
  best_finish_time cs = elim cs.value_map [ [] ↦ err past_end | n ∷ nodes ↦ ok n.key ]

  -- The loop of `best_candidates`: it reads the key at the iterator without a test for the end.
  unfoldable pub same_key : ℕ → List (Node S) → Result (List (Node S))
  same_key key [] = err past_end
  same_key key (n ∷ nodes) =
      let rest = same_key key nodes in
      if n.key == key then rest >>= (λ more. ok (n ∷ more)) else ok []

  unfoldable pub best_range : List (Node S) → Result (List (Node S))
  unfolding same_key
  best_range [] = err past_end
  best_range (n ∷ nodes) = same_key n.key (n ∷ nodes)

  unfoldable pub best_candidates : Candidates S → Result (List (Node S))
  unfolding best_range
  best_candidates cs = best_range cs.value_map
