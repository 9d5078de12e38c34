-- ===== src/Log/Read.antt =====
-- Pushing to a log and reading a view of it.
use mathlib.Core.Path.{subst}
use rmf_task.Base.{
  ℕ, suc, ◌-◌, ◌≤◌, ◌≡◌, refl, sym, ◌∙◌, ap, inl, inr, true, false, List, [], ◌∷◌, ◌++◌, Option,
  none, some, if◌then◌else◌, arith, ◌==◌, leb, length, Result, ok, >>=-ok, if_true, if_false,
  Bool-cases, Option-cases, maybe-none, maybe-some, length-append, beq_self, le_of_leb, lt_of_leb,
}
use rmf_task.Log.{
  u32, Tier, is_uninitialized, LogEntry, Log, Memory, Memories, Iterator, View, make_iterable,
  recall, store, locks, push, view, seq_at, give, catch_up, read,
}
use rmf_task.Log.Deliver.{
  Delivers, NumberedFrom, NumberedFrom-append, delivered, given, seq_at-Numbered, keep-Delivers,
  give-Delivers,
}

locks-some : (o : Option ℕ) (g : ℕ) → locks o g ≡ true → (w : ℕ) × (o ≡ some w) × ((w == g) ≡ true)
locks-some none g h = absurd (cc)
locks-some (some w) g h = (w, refl, h)

module _ {A : Type 0} where
  -- The entries are numbered, and the next number is that of the next entry.
  abbrev pub IsNumbered : Log A → Type 0
  IsNumbered log = NumberedFrom 0 log.entries × (log.seq ≡ u32 (length log.entries))

  -- Pushing an entry of a tier that is not the uninitialized one appends it and keeps the entries
  -- numbered in order.
  pub push-IsNumbered :
      (tier : Tier) (time : ℕ) (text : A) (log : Log A)
      → is_uninitialized tier ≡ false
      → IsNumbered log
      → (log' : Log A) × (push tier time text log ≡ ok log')
        × IsNumbered log'
        × (log'.entries
            ≡ log.entries ++ record { tier = tier; seq = log.seq; time = time; text = text } ∷ [])
  unfolding push
  push-IsNumbered tier time text log t h = (
    log',
    if_false (is_uninitialized tier) _ _ t,
    (
      NumberedFrom-append 0 log.entries _ h.0 (h.1 ∙ ap u32 (omega arith)),
      ap (λ n. u32 (suc n)) h.1 ∙ wrap ∙ ap u32 count,
    ),
    refl,
  )
    where
      log' : Log A
      log' = record log {
        entries =
            log.entries ++ record { tier = tier; seq = log.seq; time = time; text = text } ∷ [];
        seq = u32 (suc log.seq);
      }

      wrap : u32 (suc (u32 (length log.entries))) ≡ u32 (suc (length log.entries))
      wrap = omega arith

      count : suc (length log.entries) ≡ length log'.entries
      count = omega (
        arith,
        length-append log.entries
            (record { tier = tier; seq = log.seq; time = time; text = text } ∷ []),
      )

  catch_up-numbers :
      (live : List (LogEntry A)) (v : View) (seen last : ℕ) (m : Memory) (ms : Memories)
      → seq_at live seen ≡ ok seen
      → seq_at live last ≡ ok last
      → catch_up live v seen last m ms ≡ (
          if leb last seen
          then ok (store v.address m ms, none)
          else give v m.weak (some (suc seen)) ms)
  unfolding catch_up
  catch_up-numbers live v seen last m ms p q =
      >>=-ok (seq_at live seen) _ p ∙ >>=-ok (seq_at live last) _ q

  -- A read by a memory that does not follow the list.
  read_unknown :
      (before later : List (LogEntry A)) (a g s : ℕ) (ms : Memories)
      → locks (recall a ms).weak g ≡ false
      → Delivers a g before (before ++ later) 0 ms (
          read
            (before ++ later)
            (view (record { address = a; generation = g; entries = before; seq = s }))
            ms)
  unfolding read view give make_iterable
  read_unknown [] later a g s ms l =
      subst (Delivers a g [] later 0 ms) (sym (if_false (locks (recall a ms).weak g) _ _ l)) (
        keep-Delivers a g [] later 0 ms (record { weak = some g; last = none }) (omega arith)
          (beq_self g) refl)
  read_unknown (x ∷ xs) later a g s ms l =
      subst (Delivers a g (x ∷ xs) (x ∷ xs ++ later) 0 ms)
        (sym (if_false (locks (recall a ms).weak g) _ _ l))
        (give-Delivers x xs later a g g 0 ms (beq_self g) (omega arith))

  -- A read by a memory that follows the list and has given out `k` entries of it.
  read_known :
      (before later : List (LogEntry A)) (a g s : ℕ) (ms : Memories) (k : ℕ)
      → locks (recall a ms).weak g ≡ true
      → given (recall a ms).last ≡ k
      → NumberedFrom 0 (before ++ later)
      → length (before ++ later) ≤ 4294967296
      → k ≤ length (before ++ later)
      → Delivers a g before (before ++ later) k ms (
          read
            (before ++ later)
            (view (record { address = a; generation = g; entries = before; seq = s }))
            ms)
  unfolding read view give make_iterable
  read_known [] later a g s ms k l q n bound d = elim (Option-cases (recall a ms).last) [
    | inl fresh ↦
        subst (Delivers a g [] later k ms)
          (sym (if_true (locks m.weak g) _ _ l ∙ maybe-none m.last _ _ fresh))
          (keep-Delivers a g [] later k ms (record { weak = m.weak; last = none }) (omega arith) l
            (ap given (sym fresh) ∙ q))
    | inr seen ↦
        subst (Delivers a g [] later k ms)
          (sym (if_true (locks m.weak g) _ _ l ∙ maybe-some m.last _ _ seen.1))
          (keep-Delivers a g [] later k ms m (omega arith) l q)
  ]
    where
      m : Memory
      m = recall a ms
  read_known (x ∷ xs) later a g s ms k l q n bound d = elim (Option-cases (recall a ms).last) [
    | inl fresh ↦
        subst D
          (sym (
            if_true (locks m.weak g) _ _ l
            ∙ maybe-none m.last _ _ fresh
            ∙ start 0 (ap given (sym fresh) ∙ q)))
          (give-Delivers x xs later a g w.0 k ms w.2 (omega (arith, ap given (sym fresh) ∙ q)))
    | inr seen ↦
        let at_seen =
          seq_at-Numbered (x ∷ xs ++ later) seen.0 n bound
            (omega (arith, ap given (sym seen.1) ∙ q, d)) in
        let at_last =
          seq_at-Numbered (x ∷ xs ++ later) last n bound
            (omega (arith, length-append (x ∷ xs) later)) in
        subst D
          (sym (
            if_true (locks m.weak g) _ _ l
            ∙ maybe-some m.last _ _ seen.1
            ∙ catch_up-numbers (x ∷ xs ++ later) v seen.0 last m ms at_seen at_last))
          (elim (Bool-cases (leb last seen.0)) [
            | inl all ↦ subst D (sym (if_true (leb last seen.0) _ _ all)) (
                keep-Delivers a g (x ∷ xs) (x ∷ xs ++ later) k ms m
                  (omega (arith, le_of_leb last seen.0 all, ap given (sym seen.1) ∙ q)) l q)
            | inr some_left ↦
                subst D
                  (sym (
                    if_false (leb last seen.0) _ _ some_left
                    ∙ start (suc seen.0) (ap given (sym seen.1) ∙ q)))
                  (give-Delivers x xs later a g w.0 k ms w.2
                    (omega (arith, lt_of_leb last seen.0 some_left, ap given (sym seen.1) ∙ q)))
          ])
  ]
    where
      m : Memory
      m = recall a ms

      last : ℕ
      last = length (x ∷ xs) - 1

      v : View
      v = record { address = a; generation = g; begin = some 0; last = some last }

      D : Result (Memories × Option Iterator) → Type 0
      D r = Delivers a g (x ∷ xs) (x ∷ xs ++ later) k ms r

      w : (w : ℕ) × (m.weak ≡ some w) × ((w == g) ≡ true)
      w = locks-some m.weak g l

      start : (i : ℕ) → i ≡ k → give v m.weak (some i) ms ≡ give v (some w.0) (some k) ms
      start i h = ap (λ o. give v o (some i) ms) w.1 ∙ ap (λ i. give v (some w.0) (some i) ms) h

  -- Reading a view of a log gives out exactly the entries of the view that the reader has not given
  -- out before, in order, and from then on counts them as given out, whatever was pushed to the
  -- log after the view was taken. What the reader has given out of other lists stays. The log may
  -- hold up to 2^32 entries, numbered in order, and the reader has given out no more than it holds.
  pub read_lem :
      (log : Log A) (later : List (LogEntry A)) (ms : Memories)
      → NumberedFrom 0 (log.entries ++ later)
      → length (log.entries ++ later) ≤ 4294967296
      → delivered (recall log.address ms) log.generation ≤ length (log.entries ++ later)
      → Delivers log.address log.generation log.entries
          (log.entries ++ later)
          (delivered (recall log.address ms) log.generation)
          ms
          (read (log.entries ++ later) (view log) ms)
  read_lem log later ms n bound d =
      let m = recall log.address ms in
      elim (Bool-cases (locks m.weak log.generation)) [
        | inl l ↦
            read_known log.entries later log.address log.generation log.seq ms
              (delivered m log.generation) l (sym (if_true (locks m.weak log.generation) _ _ l)) n
              bound d
        | inr l ↦
            subst
              (λ k.
                Delivers log.address log.generation log.entries (log.entries ++ later) k ms
                  (read (log.entries ++ later) (view log) ms))
              (sym (if_false (locks m.weak log.generation) _ _ l))
              (read_unknown log.entries later log.address log.generation log.seq ms l)
      ]
