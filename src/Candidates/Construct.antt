-- ===== src/Candidates/Construct.antt =====
-- The candidates that the constructor makes.
use rmf_task.Base.{ℕ, suc, List, [], ◌∷◌, All}
use rmf_task.Candidates.{Entry, Node, insert_node, insert_all, construct}
use rmf_task.Candidates.Update.{All-insert_node}

module _ {S : Type 0} where
  insert_all-All :
      (P : Entry S → Type 0) (entries : List (ℕ × Entry S)) (next : ℕ) (nodes : List (Node S))
      → All (λ (e : ℕ × Entry S). P e.1) entries
      → All (λ n. P n.entry) nodes
      → All (λ n. P n.entry) (insert_all entries next nodes)
  unfolding insert_all
  insert_all-All P [] next nodes h l = l
  insert_all-All P ((key, e) ∷ entries) next nodes h l =
      insert_all-All P entries (suc next)
        (insert_node (record { key = key; node = next; entry = e }) nodes) h.1
        (All-insert_node (λ n. P n.entry) (record { key = key; node = next; entry = e }) nodes h.0
          l)

  -- What holds of the entries holds of the nodes.
  pub construct-All :
      (P : Entry S → Type 0) (entries : List (ℕ × Entry S))
      → All (λ (e : ℕ × Entry S). P e.1) entries
      → All (λ n. P n.entry) (construct entries).value_map
  unfolding construct
  construct-All P entries h = insert_all-All P entries 0 [] h tt
