-- ===== src/Log/Examples.antt =====
-- Tests of the log and its reader, and the theorems about them at concrete inputs.
use rmf_task.Base.{ℕ, ◌≡◌, refl, List, [], ◌∷◌, arith, length, Result, ok, ◌>>=◌}
use rmf_task.Log.{
  info, warning, LogEntry, Log, is_uninitialized, recall, store, make_iterable, increment, push,
  insert, view, seq_at, give, catch_up, read, collect,
}
use rmf_task.Log.Deliver.{Delivers}
use rmf_task.Log.Read.{IsNumbered, push-IsNumbered, read_lem}

abbrev started : LogEntry ℕ
started = record { tier = info; seq = 0; time = 10; text = 100 }

abbrev delayed : LogEntry ℕ
delayed = record { tier = warning; seq = 1; time = 11; text = 101 }

abbrev one_entry : Log ℕ
one_entry = record { address = 7; generation = 2; entries = started ∷ []; seq = 1 }

abbrev reads : Log ℕ → Log ℕ → Result (List (LogEntry ℕ))
reads before after = do
  first ← read before.entries (view before) []
  second ← read after.entries (view after) first.0
  collect after.entries (length after.entries) second.1

second_read : (push warning 11 101 one_entry >>= reads one_entry) ≡ ok (delayed ∷ [])
unfolding push is_uninitialized read view recall store give make_iterable catch_up seq_at collect
    increment
second_read = refl

-- An inserted entry with a number of another log is never given out.
inserted_is_lost : reads one_entry (insert started one_entry) ≡ ok []
unfolding insert read view recall store give make_iterable catch_up seq_at collect increment
inserted_is_lost = refl

push-IsNumbered_example :
    (log' : Log ℕ) × (push warning 11 101 one_entry ≡ ok log')
    × IsNumbered log'
    × (log'.entries ≡ started ∷ delayed ∷ [])
unfolding is_uninitialized
push-IsNumbered_example = push-IsNumbered warning 11 101 one_entry refl ((refl, tt), refl)

read_lem_example :
    Delivers 7 2
      (started ∷ [])
      (started ∷ delayed ∷ [])
      0
      []
      (read (started ∷ delayed ∷ []) (view one_entry) [])
unfolding recall
read_lem_example =
    read_lem one_entry (delayed ∷ []) [] (refl, (refl, tt)) (omega arith) (omega arith)
