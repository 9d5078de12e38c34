-- ===== src/Log.antt =====
-- rmf_task/src/rmf_task/Log.cpp: a log of entries, the views of it, and a reader that remembers
-- what it has given out.
pub mod Deliver
pub mod Read
mod Examples
use rmf_task.Base.{
  ℕ, zero, suc, ◌+◌, ◌-◌, ◌%◌, Bool, true, false, List, [], ◌∷◌, ◌++◌, Option, none, some,
  if◌then◌else◌, ◌==◌, leb, length, null, get_elem?, Result, ok, err, mismatch, past_end, diverges,
  ◌>>=◌, deref,
}

-- The numbers of the entries have the type `uint32_t`.
abbrev pub u32 : ℕ → ℕ
u32 n = n % 4294967296

pub data Tier : Type 0 where
  uninitialized info warning error : Tier

-- `Log::Entry`; `A` stands for texts.
pub record LogEntry (A : Type 0) : Type 0 where
  pub tier : Tier
  pub seq : ℕ
  pub time : ℕ
  pub text : A

-- A log holds the only list with its address and generation: an address comes back after a list has
-- expired, with another generation.
pub record Log (A : Type 0) : Type 0 where
  pub address : ℕ
  pub generation : ℕ
  pub entries : List (LogEntry A)
  pub seq : ℕ

-- `Log::View`: the list it shares with the log, and iterators into it. The list only grows at its
-- back, and an iterator is a position in it.
pub record View : Type 0 where
  pub address : ℕ
  pub generation : ℕ
  pub begin : Option ℕ
  pub last : Option ℕ

-- `Reader::Memory`: the list that the weak pointer is for, and the last position.
pub record Memory : Type 0 where
  pub weak : Option ℕ
  pub last : Option ℕ

pub record Iterator : Type 0 where
  pub it : ℕ
  pub last : ℕ

abbrev pub no_memory : Memory
no_memory = record { weak = none; last = none }

-- `memories`, by address.
abbrev pub Memories : Type 0
Memories = List (ℕ × Memory)

-- The memory for an address, a new one if there is none.
unfoldable pub recall : ℕ → Memories → Memory
recall a [] = no_memory
recall a ((b, m) ∷ ms) = if b == a then m else recall a ms

unfoldable pub store : ℕ → Memory → Memories → Memories
store a m ms = (a, m) ∷ ms

-- `weak.lock()`, where the list of a view is alive: another list with its address has expired.
abbrev pub locks : Option ℕ → ℕ → Bool
locks none generation = false
locks (some g) generation = g == generation

-- `Iterable::Implementation::make`; `value` throws on a view that has no last entry.
unfoldable pub make_iterable : Option ℕ → Option ℕ → Result (Option Iterator)
make_iterable none last = ok none
make_iterable (some b) none = err mismatch
make_iterable (some b) (some l) = ok (some (record { it = b; last = l }))

-- `operator++`; the end has no position.
unfoldable pub increment : Iterator → Option Iterator
increment i = if i.it == i.last then none else some (record { it = suc i.it; last = i.last })

unfoldable pub is_uninitialized : Tier → Bool
is_uninitialized uninitialized = true
is_uninitialized _ = false

-- What `read` returns once it has set the start, and the memory it leaves.
unfoldable pub give : View → Option ℕ → Option ℕ → Memories → Result (Memories × Option Iterator)
give v weak start memories = do
  iterable ← make_iterable start v.last
  ok (store v.address (record { weak = weak; last = v.last }) memories, iterable)

module _ {A : Type 0} where
  unfoldable pub push : Tier → ℕ → A → Log A → Result (Log A)
  unfolding is_uninitialized
  push tier time text log =
      if is_uninitialized tier
      then err mismatch
      else ok (record log {
        entries =
            log.entries ++ record { tier = tier; seq = log.seq; time = time; text = text } ∷ [];
        seq = u32 (suc log.seq);
      })

  unfoldable pub insert : LogEntry A → Log A → Log A
  insert entry log = record log { entries = log.entries ++ entry ∷ [] }

  unfoldable pub view : Log A → View
  view log =
      if null log.entries
      then record { address = log.address; generation = log.generation; begin = none; last = none }
      else record {
        address = log.address;
        generation = log.generation;
        begin = some 0;
        last = some (length log.entries - 1);
      }

  -- The number of the entry at a position.
  unfoldable pub seq_at : List (LogEntry A) → ℕ → Result ℕ
  seq_at entries i = elim (get_elem? entries i) [ none ↦ err past_end | some e ↦ ok e.seq ]

  -- The branch of a memory with a last position, for a view with a last entry.
  unfoldable pub catch_up :
      List (LogEntry A) → View → ℕ → ℕ → Memory → Memories → Result (Memories × Option Iterator)
  unfolding seq_at give
  catch_up live v seen last memory memories = do
    s ← seq_at live seen
    l ← seq_at live last
    if leb l s
        then ok (store v.address memory memories, none)
        else give v memory.weak (some (suc seen)) memories

  -- `Reader::read`, over the entries that the list of the view holds now.
  unfoldable pub read : List (LogEntry A) → View → Memories → Result (Memories × Option Iterator)
  unfolding catch_up give
  read live v memories =
      let memory = recall v.address memories in
      if locks memory.weak v.generation
      then elim memory.last [
        | none ↦ give v memory.weak v.begin memories
        | some seen ↦ elim v.last [
          | none ↦ ok (store v.address memory memories, none)
          | some last ↦ catch_up live v seen last memory memories
        ]
      ]
      else give v (some v.generation) v.begin memories

  -- A range loop over what `read` returns.
  unfoldable pub collect : List (LogEntry A) → ℕ → Option Iterator → Result (List (LogEntry A))
  collect live fuel none = ok []
  collect live zero (some i) = err diverges
  collect live (suc fuel) (some i) = do
    e ← deref (get_elem? live i.it)
    rest ← collect live fuel (increment i)
    ok (e ∷ rest)
