-- ===== src/Planner/Filter.antt =====
-- TaskPlanner.cpp: the filter for nodes whose assignments have been seen.
use rmf_task.Base.{
  ℕ, suc, Bool, true, false, not, ◌&&◌, ◌||◌, List, [], ◌∷◌, ◌++◌, map, if◌then◌else◌, ◌==◌,
}
use rmf_task.Planner.{AssignmentWrapper, SearchNode}

pub data FilterType : Type 0 where
  passthrough trie hash : FilterType

-- `AgentTable` with its `TaskTable`s: a child for each agent and task.
pub data AgentTable : Type 0 where
  empty : AgentTable
  child : ℕ → ℕ → AgentTable → AgentTable → AgentTable

-- `Filter`; `set` has the identifiers of the assignments.
pub record Filter : Type 0 where
  pub type : FilterType
  pub root : AgentTable
  pub set : List (List (List ℕ))

abbrev pub make_filter : FilterType → Filter
make_filter type = record { type = type; root = empty; set = [] }

-- `AssignmentEqual`: the sizes and the identifiers.
unfoldable pub same_ids : List ℕ → List ℕ → Bool
same_ids [] [] = true
same_ids (i ∷ is) (j ∷ js) = (i == j) && same_ids is js
same_ids _ _ = false

unfoldable pub same_assignments : List (List ℕ) → List (List ℕ) → Bool
unfolding same_ids
same_assignments [] [] = true
same_assignments (a ∷ more) (b ∷ bs) = same_ids a b && same_assignments more bs
same_assignments _ _ = false

unfoldable pub seen : List (List ℕ) → List (List (List ℕ)) → Bool
unfolding same_assignments
seen a [] = false
seen a (b ∷ set) = same_assignments a b || seen a set

-- The agents and tasks that the loop of the trie visits, in order.
unfoldable pub path_from : ℕ → List (List ℕ) → List (ℕ × ℕ)
path_from a [] = []
path_from a (tasks ∷ agents) = map (λ t. (a, t)) tasks ++ path_from (suc a) agents

-- A path through the tables, with the tables that were missing.
unfoldable pub grow : List (ℕ × ℕ) → AgentTable
grow [] = empty
grow ((a, t) ∷ path) = child a t (grow path) empty

-- Whether a table on the path is new, and the tables afterwards.
unfoldable pub walk : List (ℕ × ℕ) → AgentTable → Bool × AgentTable
unfolding grow
walk [] table = (false, table)
walk ((a, t) ∷ path) empty = (true, grow ((a, t) ∷ path))
walk ((a, t) ∷ path) (child b u below others) =
    let hit = walk path below in
    let miss = walk ((a, t) ∷ path) others in
    if (a == b) && (t == u)
    then (hit.0, child b u hit.1 others)
    else (miss.0, child b u below miss.1)

module _ {S D : Type 0} where
  abbrev pub ids_of : List (List (AssignmentWrapper S D)) → List (List ℕ)
  ids_of = map (map (λ a. a.internal_id))

-- `Filter::ignore`, with the filter afterwards.
unfoldable pub ignore_ids : List (List ℕ) → Filter → Bool × Filter
unfolding path_from walk
ignore_ids ids f = elim f.type [
  | passthrough ↦ (false, f)
  | hash ↦ if seen ids f.set then (true, f) else (false, record f { set = ids ∷ f.set })
  | trie ↦ let (new, root) = walk (path_from 0 ids) f.root in (not new, record f { root = root })
]

abbrev pub ignore : {S D C : Type 0} → SearchNode S D C → Filter → Bool × Filter
ignore n f = ignore_ids (ids_of n.assigned_tasks) f
