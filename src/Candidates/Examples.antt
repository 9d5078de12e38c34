-- ===== src/Candidates/Examples.antt =====
-- Tests of the candidates, and the theorems about them at concrete inputs.
use rmf_task.Base.{
  ℕ, zero, suc, ◌≡◌, refl, true, false, [], ◌∷◌, some, arith, if◌then◌else◌, ◌==◌, ok, err,
  past_end,
}
use rmf_task.Candidates.{
  Entry, Node, Candidates, slot, update_candidate, best_finish_time, best_candidates,
}
use rmf_task.Candidates.Best.{BestOf, best_candidates-cases}
use rmf_task.Candidates.Update.{IsLinked, lookup, iterator, update_candidate_lem}

abbrev entry_of : ℕ → ℕ → Entry ℕ
entry_of c state = record {
  candidate = c;
  state = state;
  wait_until = 0;
  previous_state = 0;
  require_charge_battery = false;
}

abbrev first_node : Node ℕ
first_node = record { key = 5; node = 1; entry = entry_of 1 5 }

abbrev second_node : Node ℕ
second_node = record { key = 8; node = 0; entry = entry_of 0 8 }

abbrev two_candidates : Candidates ℕ
two_candidates = record {
  value_map = first_node ∷ second_node ∷ [];
  candidate_map = some 0 ∷ some 1 ∷ [];
  next_node = 2;
}

two_candidates-IsLinked : IsLinked two_candidates
two_candidates-IsLinked = record {
  sorted = ((omega arith, tt), (tt, tt));
  fresh = (omega arith, (omega arith, tt));
  distinct = (((refl, refl), tt), (tt, tt));
  linked = linked_at;
}
  where
    linked_at :
        (c : ℕ) → slot c two_candidates.candidate_map ≡ iterator (lookup c two_candidates.value_map)
    linked_at zero = refl
    linked_at (suc zero) = refl
    linked_at (suc (suc c)) = ground arith

best_of_two : best_candidates two_candidates ≡ ok (first_node ∷ [])
unfolding best_candidates
best_of_two = refl

best_of_one_reads_past_the_end :
    best_candidates (record two_candidates { value_map = first_node ∷ [] }) ≡ err past_end
unfolding best_candidates
best_of_one_reads_past_the_end = refl

best_candidates-cases_example :
    (best_finish_time two_candidates ≡ ok 5)
    × BestOf 5 two_candidates.value_map (best_candidates two_candidates)
best_candidates-cases_example =
    best_candidates-cases two_candidates first_node (second_node ∷ []) refl
      two_candidates-IsLinked.sorted

update_candidate_lem_example :
    (cs' : Candidates ℕ) × (new : Node ℕ) × (update_candidate (λ x. x) 1 9 4 3 true two_candidates
      ≡ ok cs')
    × IsLinked cs'
    × (new.key ≡ 9)
    × (new.entry.state ≡ 9)
    × (new.entry.wait_until ≡ 4)
    × ((c' : ℕ)
        → lookup c' cs'.value_map
          ≡ (if 1 == c' then some new else lookup c' two_candidates.value_map))
update_candidate_lem_example =
    update_candidate_lem (λ x. x) 1 9 4 3 true two_candidates first_node two_candidates-IsLinked
      refl
