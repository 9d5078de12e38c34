-- ===== src/Planner/Tries.antt =====
-- What the filter with a trie ignores, after some nodes that it was asked about.
use rmf_task.Base.{
  ℕ, ◌≡◌, refl, ◌∙◌, ap, Bool, true, false, not, ◌&&◌, ◌||◌, List, [], ◌∷◌, null, if◌then◌else◌,
  arith, ◌==◌,
}
use rmf_task.Planner.Filter.{
  trie, AgentTable, empty, child, Filter, make_filter, path_from, grow, walk, ignore_ids,
}
use rmf_task.Planner.Filtering.{filter_after}

-- The paths that lead through a trie.
abbrev has_path : List (ℕ × ℕ) → AgentTable → Bool
has_path [] table = true
has_path ((a, t) ∷ path) empty = false
has_path ((a, t) ∷ path) (child b u below others) =
    if (a == b) && (t == u) then has_path path below else has_path ((a, t) ∷ path) others

abbrev pub begins_with : List (ℕ × ℕ) → List (ℕ × ℕ) → Bool
begins_with path [] = true
begins_with [] (e ∷ start) = false
begins_with ((a, t) ∷ path) ((b, u) ∷ start) =
    if (b == a) && (u == t) then begins_with path start else false

walk-has_path :
    (path : List (ℕ × ℕ)) (table : AgentTable) → (walk path table).0 ≡ not (has_path path table)
unfolding walk
walk-has_path [] table = refl
walk-has_path ((a, t) ∷ path) empty = refl
walk-has_path ((a, t) ∷ path) (child b u below others) =
    ground (arith, walk-has_path path below, walk-has_path ((a, t) ∷ path) others)

has_path-grow : (path start : List (ℕ × ℕ)) → has_path start (grow path) ≡ begins_with path start
unfolding grow
has_path-grow path [] = refl
has_path-grow [] (e ∷ start) = refl
has_path-grow ((a, t) ∷ path) ((b, u) ∷ start) = ground (arith, has_path-grow path start)

has_path-walk :
    (path start : List (ℕ × ℕ)) (table : AgentTable)
    → has_path start (walk path table).1 ≡ (has_path start table || begins_with path start)
unfolding walk
has_path-walk [] [] table = refl
has_path-walk [] (e ∷ start) table = or_false (has_path (e ∷ start) table)
  where
    or_false : (b : Bool) → b ≡ (b || false)
    or_false true = refl
    or_false false = refl
has_path-walk ((a, t) ∷ path) [] table = refl
has_path-walk ((a, t) ∷ path) ((b, u) ∷ start) empty =
    has_path-grow ((a, t) ∷ path) ((b, u) ∷ start)
has_path-walk ((a, t) ∷ path) ((b, u) ∷ start) (child c v below others) =
    ground
      (arith, has_path-walk path start below, has_path-walk ((a, t) ∷ path) ((b, u) ∷ start) others)

-- Some list of pairs has a path that begins with another one.
abbrev pub some_begins : List (List (List ℕ)) → List (ℕ × ℕ) → Bool
some_begins [] start = false
some_begins (ids ∷ before) start = begins_with (path_from 0 ids) start || some_begins before start

trie-filter_after :
    (before : List (List (List ℕ))) (start : List (ℕ × ℕ)) (root : AgentTable)
    (set : List (List (List ℕ)))
    → (root' : AgentTable) × (filter_after before (record { type = trie; root = root; set = set })
        ≡ record { type = trie; root = root'; set = set })
      × (has_path start root' ≡ (has_path start root || some_begins before start))
unfolding ignore_ids
trie-filter_after [] start root set = (root, refl, or_false (has_path start root))
  where
    or_false : (b : Bool) → b ≡ (b || false)
    or_false true = refl
    or_false false = refl
trie-filter_after (ids ∷ before) start root set =
    let (root', e, h) = trie-filter_after before start (walk (path_from 0 ids) root).1 set in
    (
      root',
      e,
      h
          ∙ ap (λ (b : Bool). b || some_begins before start)
              (has_path-walk (path_from 0 ids) start root)
          ∙ or_assoc (has_path start root) (begins_with (path_from 0 ids) start)
              (some_begins before start),
    )
  where
    or_assoc : (a b c : Bool) → ((a || b) || c) ≡ (a || (b || c))
    or_assoc true b c = refl
    or_assoc false b c = refl

-- A filter with a trie ignores a node exactly if the path of its assignments is empty, or begins the
-- path of a node that it was asked about before: it also ignores nodes that it has not seen.
pub trie_filter_lem :
    (before : List (List (List ℕ))) (ids : List (List ℕ))
    → (ignore_ids ids (filter_after before (make_filter trie))).0
      ≡ (null (path_from 0 ids) || some_begins before (path_from 0 ids))
unfolding ignore_ids
trie_filter_lem before ids =
    let start = path_from 0 ids in
    let (root, e, h) = trie-filter_after before start empty [] in
    ap (λ (x : Filter). (ignore_ids ids x).0) e
    ∙ ap not (walk-has_path start root)
    ∙ twice (has_path start root)
    ∙ h
    ∙ ap (λ (b : Bool). b || some_begins before start) (no_path start)
  where
    twice : (b : Bool) → not (not b) ≡ b
    twice true = refl
    twice false = refl

    no_path : (start : List (ℕ × ℕ)) → has_path start empty ≡ null start
    no_path [] = refl
    no_path (x ∷ start) = refl
