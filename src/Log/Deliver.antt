-- ===== src/Log/Deliver.antt =====
-- What one read of a view gives out.
use mathlib.Core.Path.{subst}
use rmf_task.Base.{
  ℕ, zero, suc, ◌+◌, ◌-◌, ◌≤◌, ◌<◌, ◌≡◌, refl, sym, ◌∙◌, ap, max, true, List, [], ◌∷◌, ◌++◌, Option,
  none, some, if◌then◌else◌, arith, ◌==◌, length, get_elem?, Result, ok, >>=-ok, deref-some,
  if_true, if_false, maybe-some, length-append, beq_self,
}
use rmf_task.Log.{
  u32, LogEntry, Memory, Memories, Iterator, recall, store, locks, make_iterable, increment, seq_at,
  give, collect,
}

module _ {ℓ} {B : Type ℓ} where
  abbrev pub take : ℕ → List B → List B
  take zero xs = []
  take (suc n) [] = []
  take (suc n) (x ∷ xs) = x ∷ take n xs

  abbrev pub drop : ℕ → List B → List B
  drop zero xs = xs
  drop (suc n) [] = []
  drop (suc n) (x ∷ xs) = drop n xs

  get-drop :
      (xs : List B) (i : ℕ)
      → i < length xs
      → (x : B) × (get_elem? xs i ≡ some x) × (drop i xs ≡ x ∷ drop (suc i) xs)
  get-drop [] i h = absurd (omega (arith, h))
  get-drop (x ∷ xs) zero h = (x, refl, refl)
  get-drop (x ∷ xs) (suc i) h = get-drop xs i (omega arith)

  take-drop :
      (k : ℕ) (xs ys : List B)
      → k ≤ length xs
      → take (length xs - k) (drop k (xs ++ ys)) ≡ drop k xs
  take-drop zero [] ys h = refl
  take-drop zero (x ∷ xs) ys h =
      ap (λ n. take n (x ∷ xs ++ ys)) {x = suc (length xs) - 0} {y = suc (length xs - 0)}
        (omega arith)
      ∙ ap (λ l. x ∷ l) (take-drop zero xs ys (omega arith))
  take-drop (suc k) [] ys h = absurd (omega (arith, h))
  take-drop (suc k) (x ∷ xs) ys h =
      ap (λ n. take n (drop k (xs ++ ys))) {x = suc (length xs) - suc k} {y = length xs - k}
        (omega arith)
      ∙ take-drop k xs ys (omega arith)

  drop-all : (k : ℕ) (xs : List B) → length xs ≤ k → drop k xs ≡ []
  drop-all zero [] h = refl
  drop-all zero (x ∷ xs) h = absurd (omega (arith, h))
  drop-all (suc k) [] h = refl
  drop-all (suc k) (x ∷ xs) h = drop-all k xs (omega arith)

-- The entries have the numbers 0, 1, 2, ... in order.
abbrev pub NumberedFrom : {A : Type 0} → ℕ → List (LogEntry A) → Type 0
NumberedFrom n [] = Unit
NumberedFrom n (e ∷ es) = (e.seq ≡ u32 n) × NumberedFrom (suc n) es

-- What a reader has given out of a list: the entries up to the last position it remembers.
abbrev pub given : Option ℕ → ℕ
given none = 0
given (some i) = suc i

abbrev pub delivered : Memory → ℕ → ℕ
delivered m generation = if locks m.weak generation then given m.last else 0

recall-store :
    (a b : ℕ) (m : Memory) (ms : Memories)
    → recall b (store a m ms) ≡ (if a == b then m else recall b ms)
unfolding recall store
recall-store a b m ms = refl

-- A result that gives out what is missing of `before` after the first `k` entries, for a list at the
-- address `a`, and leaves the memories of other addresses.
abbrev pub Delivers :
    {A : Type 0}
    → ℕ
    → ℕ
    → List (LogEntry A)
    → List (LogEntry A)
    → ℕ
    → Memories
    → Result (Memories × Option Iterator)
    → Type 0
Delivers a g before live k ms result =
    (ms' : Memories) × (it : Option Iterator) × (result ≡ ok (ms', it))
    × (collect live (length live) it ≡ ok (drop k before))
    × (delivered (recall a ms') g ≡ max k (length before))
    × ((b : ℕ) → recall b ms' ≡ (if a == b then recall a ms' else recall b ms))

module _ {A : Type 0} where
  pub NumberedFrom-append :
      (n : ℕ) (es : List (LogEntry A)) (e : LogEntry A)
      → NumberedFrom n es
      → e.seq ≡ u32 (n + length es)
      → NumberedFrom n (es ++ e ∷ [])
  NumberedFrom-append n [] e l h = (h ∙ ap u32 (omega arith), tt)
  NumberedFrom-append n (x ∷ es) e l h =
      (l.0, NumberedFrom-append (suc n) es e l.1 (h ∙ ap u32 (omega arith)))

  NumberedFrom-get :
      (n i : ℕ) (es : List (LogEntry A))
      → NumberedFrom n es
      → i < length es
      → (e : LogEntry A) × (get_elem? es i ≡ some e) × (e.seq ≡ u32 (n + i))
  NumberedFrom-get n i [] l h = absurd (omega (arith, h))
  NumberedFrom-get n zero (e ∷ es) l h = (e, refl, l.0 ∙ ap u32 (omega arith))
  NumberedFrom-get n (suc i) (e ∷ es) l h =
      let found = NumberedFrom-get (suc n) i es l.1 (omega arith) in
      (found.0, found.1, found.2 ∙ ap u32 (omega arith))

  pub seq_at-Numbered :
      (es : List (LogEntry A)) (i : ℕ)
      → NumberedFrom 0 es
      → length es ≤ 4294967296
      → i < length es
      → seq_at es i ≡ ok i
  unfolding seq_at
  seq_at-Numbered es i l bound h =
      let found = NumberedFrom-get 0 i es l h in
      let small : u32 (0 + i) ≡ i = omega arith in
      maybe-some (get_elem? es i) _ _ found.1 ∙ ap ok (found.2 ∙ small)

  collect-drop :
      (es : List (LogEntry A)) (n i last fuel : ℕ)
      → last ≡ i + n
      → last < length es
      → n < fuel
      → collect es fuel (some (record { it = i; last = last })) ≡ ok (take (suc n) (drop i es))
  unfolding collect increment
  collect-drop es n i last zero q h f = absurd (omega (arith, f))
  collect-drop es zero i last (suc fuel) q h f =
      let found = get-drop es i (omega arith) in
      deref-some (get_elem? es i) _ found.1
      ∙ >>=-ok (collect es fuel (increment (record { it = i; last = last }))) _
          (ap (collect es fuel) (if_true (i == last) _ _ (ground (arith, q))))
      ∙ ap (λ l. ok (take 1 l)) (sym found.2)
  collect-drop es (suc n) i last (suc fuel) q h f =
      let found = get-drop es i (omega arith) in
      deref-some (get_elem? es i) _ found.1
      ∙ >>=-ok (collect es fuel (increment (record { it = i; last = last }))) _ (
          ap (collect es fuel) (if_false (i == last) _ _ (ground (arith, q)))
          ∙ collect-drop es n (suc i) last fuel (omega arith) h (omega arith))
      ∙ ap (λ l. ok (take (suc (suc n)) l)) (sym found.2)

  -- What a view of `before` gives when the reader starts at `start`.
  give-drop :
      (before later : List (LogEntry A)) (n a g w start : ℕ) (ms : Memories)
      → length before ≡ suc n
      → start ≤ n
      → (ms' : Memories) × (it : Option Iterator) × (give
            (record { address = a; generation = g; begin = some 0; last = some n })
            (some w)
            (some start)
            ms
          ≡ ok (ms', it))
        × (collect (before ++ later) (length (before ++ later)) it ≡ ok (drop start before))
        × ((b : ℕ)
            → recall b ms'
              ≡ (if a == b then record { weak = some w; last = some n } else recall b ms))
  unfolding give make_iterable
  give-drop before later n a g w start ms q h = (
    store a (record { weak = some w; last = some n }) ms,
    some (record { it = start; last = n }),
    refl,
    collect-drop (before ++ later) (n - start) start n (length (before ++ later)) (omega arith)
          (omega (arith, length-append before later)) (omega (arith, length-append before later))
        ∙ ap (λ k. ok (take k (drop start (before ++ later)))) {x = suc (n - start)}
            {y = length before - start} (omega arith)
        ∙ ap ok (take-drop start before later (omega arith)),
    λ b. recall-store a b _ ms,
  )

  -- A memory that has been stored for the address.
  deliver :
      (a g : ℕ) (before live : List (LogEntry A)) (k : ℕ) (ms ms' : Memories) (m : Memory)
      (it : Option Iterator)
      → collect live (length live) it ≡ ok (drop k before)
      → locks m.weak g ≡ true
      → given m.last ≡ max k (length before)
      → ((b : ℕ) → recall b ms' ≡ (if a == b then m else recall b ms))
      → Delivers a g before live k ms (ok (ms', it))
  deliver a g before live k ms ms' m it c l q r = (
    ms',
    it,
    refl,
    c,
    ap (λ x. delivered x g) here ∙ if_true (locks m.weak g) _ _ l ∙ q,
    λ b. r b ∙ ap (λ x. if a == b then x else recall b ms) (sym here),
  )
    where
      here : recall a ms' ≡ m
      here = r a ∙ if_true (a == a) _ _ (beq_self a)

  -- Nothing is missing.
  pub keep-Delivers :
      (a g : ℕ) (before live : List (LogEntry A)) (k : ℕ) (ms : Memories) (m : Memory)
      → length before ≤ k
      → locks m.weak g ≡ true
      → given m.last ≡ k
      → Delivers a g before live k ms (ok (store a m ms, none))
  unfolding collect
  keep-Delivers a g before live k ms m h l q =
      deliver a g before live k ms (store a m ms) m none (ap ok (sym (drop-all k before h))) l
        (omega arith) (λ b. recall-store a b m ms)

  pub give-Delivers :
      (x : LogEntry A) (xs later : List (LogEntry A)) (a g w start : ℕ) (ms : Memories)
      → (w == g) ≡ true
      → start ≤ length xs
      → Delivers a g (x ∷ xs) (x ∷ xs ++ later) start ms (
          give
            (record {
              address = a;
              generation = g;
              begin = some 0;
              last = some (length (x ∷ xs) - 1);
            })
            (some w)
            (some start)
            ms)
  give-Delivers x xs later a g w start ms l h =
      let n = length (x ∷ xs) - 1 in
      let r = give-drop (x ∷ xs) later n a g w start ms (omega arith) (omega arith) in
      subst (Delivers a g (x ∷ xs) (x ∷ xs ++ later) start ms) (sym r.2)
        (deliver a g (x ∷ xs) (x ∷ xs ++ later) start ms r.0 _ r.1 r.3 l (omega arith) r.4)
