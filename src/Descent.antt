-- ===== src/Descent.antt =====
-- Lists of numbers in lexicographic order, for the loops over a queue whose elements are replaced by
-- any number of smaller ones.
use mathlib.Core.WellFounded.{Acc}
use mathlib.Core.Path.{subst}
use rmf_task.Base.{
  ℕ, zero, suc, ◌<◌, ◌≤◌, ◌≡◌, refl, sym, ◌∙◌, ap, ◌⊎◌, inl, inr, Bool, true, false, if◌then◌else◌,
  max, List, [], ◌∷◌, Option, maybe, Result, err, ◌>>=◌, >>=-ok, >>=-err, arith, length,
}
use rmf_task.Yields.{Yields, Yields-cases, stopped, OnSome, absent, present}

pub data Lower : List ℕ → List ℕ → Type 0 where
  here : {a b : ℕ} {xs ys : List ℕ} → a < b → length xs ≡ length ys → Lower (a ∷ xs) (b ∷ ys)
  there : {a : ℕ} {xs ys : List ℕ} → Lower xs ys → Lower (a ∷ xs) (a ∷ ys)

Acc-below : (k n : ℕ) → n < k → Acc ◌<◌ n
Acc-below zero n h = absurd (omega (arith, h))
Acc-below (suc k) n h = Acc.intro n (λ m hm. Acc-below k m (omega arith))

Lower-cases :
    (zs : List ℕ) (b : ℕ) (ys : List ℕ)
    → Lower zs (b ∷ ys)
    → ((a : ℕ) × (xs : List ℕ) × (zs ≡ a ∷ xs) × (a < b) × (length xs ≡ length ys))
      ⊎ ((xs : List ℕ) × (zs ≡ b ∷ xs) × Lower xs ys)
Lower-cases [] b ys h = elim h [ ]
Lower-cases (a ∷ xs) b ys (Lower.here h e) = inl (a, xs, refl, h, e)
Lower-cases (_ ∷ xs) b ys (Lower.there h) = inr (xs, refl, h)

Lower-length : (xs ys : List ℕ) → Lower xs ys → length xs ≡ length ys
Lower-length [] ys h = elim h [ ]
Lower-length (a ∷ xs) [] h = elim h [ ]
Lower-length (a ∷ xs) (b ∷ ys) (Lower.here h e) = ap suc e
Lower-length (a ∷ xs) (_ ∷ ys) (Lower.there h) = ap suc (Lower-length xs ys h)

-- The lists with a first element, where those with a smaller one are known to be accessible.
tail_Acc :
    (k b : ℕ)
    → ((a : ℕ) → a < b → (xs : List ℕ) → length xs ≡ k → Acc Lower (a ∷ xs))
    → (ys : List ℕ) → length ys ≡ k
    → Acc Lower ys
    → Acc Lower (b ∷ ys)
tail_Acc k b smaller ys e (Acc.intro _ lower) = Acc.intro (b ∷ ys) λ zs h.
    elim (Lower-cases zs b ys h) [
      | inl (a, xs, q, less, l) ↦ subst (Acc Lower) (sym q) (smaller a less xs (l ∙ e))
      | inr (xs, q, h') ↦
          subst (Acc Lower) (sym q)
            (tail_Acc k b smaller xs (Lower-length xs ys h' ∙ e) (lower xs h'))
    ]

cons_Acc :
    (k : ℕ)
    → ((ys : List ℕ) → length ys ≡ k → Acc Lower ys)
    → (b : ℕ) → Acc ◌<◌ b
    → (ys : List ℕ) → length ys ≡ k
    → Acc Lower (b ∷ ys)
cons_Acc k all b (Acc.intro _ smaller) ys e =
    tail_Acc k b (λ a h. cons_Acc k all a (smaller a h)) ys e (all ys e)

pub Lower-Acc : (k : ℕ) (ys : List ℕ) → length ys ≡ k → Acc Lower ys
Lower-Acc zero [] e = Acc.intro [] λ zs h. absurd (none_below zs h)
  where
    none_below : (zs : List ℕ) → Lower zs [] → ⊥
    none_below zs h = elim h [ ]
Lower-Acc zero (b ∷ ys) e = absurd (omega (arith, e))
Lower-Acc (suc k) [] e = absurd (omega (arith, e))
Lower-Acc (suc k) (b ∷ ys) e =
    cons_Acc k (Lower-Acc k) b (Acc-below (suc b) b (omega arith)) ys (omega (arith, e))

-- A loop that has one result from some number of rounds on, which has a property or is a fault
-- other than running out of rounds.
pub record Settles {A : Type 0} (P : A → Type 0) (loop : ℕ → Result A) : Type 0 where
  pub rounds : ℕ
  pub result : Result A
  pub returns : (r : ℕ) → rounds ≤ r → loop r ≡ result
  pub right : Yields P result

module _ {A : Type 0} {P : A → Type 0} {loop : ℕ → Result A} where
  -- A loop that ends in its first round.
  pub Settles-now : (x : Result A) → Yields P x → ((r : ℕ) → loop (suc r) ≡ x) → Settles P loop
  Settles-now x h g = record { rounds = 1; result = x; returns = from; right = h }
    where
      from : (r : ℕ) → 1 ≤ r → loop r ≡ x
      from zero l = absurd (omega (arith, l))
      from (suc r) l = g r

  -- A loop whose first round leads to another one.
  pub Settles-later :
      {rest : ℕ → Result A} → Settles P rest → ((r : ℕ) → loop (suc r) ≡ rest r) → Settles P loop
  Settles-later {rest} s g = record {
    rounds = suc s.rounds;
    result = s.result;
    returns = from;
    right = s.right;
  }
    where
      from : (r : ℕ) → suc s.rounds ≤ r → loop r ≡ s.result
      from zero l = absurd (omega (arith, l))
      from (suc r) l = g r ∙ s.returns r (omega (arith, l))

-- A result that takes no rounds.
pub Settles-const : {A : Type 0} {P : A → Type 0} {x : Result A} → Yields P x → Settles P (λ _. x)
Settles-const {x} h = record { rounds = 0; result = x; returns = λ r l. refl; right = h }

module _ {A B : Type 0} {P : A → Type 0} {Q : B → Type 0} where
  -- A loop and then another one, each with the rounds.
  pub Settles-bind :
      {loop : ℕ → Result A} (next : A → ℕ → Result B)
      → Settles P loop
      → ((a : A) → P a → Settles Q (next a))
      → Settles Q (λ r. loop r >>= (λ a. next a r))
  Settles-bind {loop} next s g = elim (Yields-cases s.right) [
    | inr (e, h, n) ↦ record {
      rounds = s.rounds;
      result = err e;
      returns = λ r l. >>=-err (loop r) (λ a. next a r) (s.returns r l ∙ h);
      right = stopped n;
    }
    | inl (a, h, p) ↦
        let t = g a p in
        record {
          rounds = max s.rounds t.rounds;
          result = t.result;
          returns = λ r l.
              >>=-ok (loop r) (λ a. next a r) (s.returns r (omega (arith, l)) ∙ h)
              ∙ t.returns r (omega (arith, l));
          right = t.right;
        }
  ]

  pub Settles-OnSome :
      {o : Option A} {x : Result B} (next : A → ℕ → Result B)
      → OnSome P o
      → Yields Q x
      → ((a : A) → P a → Settles Q (next a))
      → Settles Q (λ r. maybe o x (λ a. next a r))
  Settles-OnSome next absent h g = Settles-const h
  Settles-OnSome next (present p) h g = g _ p

pub Settles-if :
    {A : Type 0} {P : A → Type 0} (b : Bool) {x : Result A} {loop : ℕ → Result A}
    → (b ≡ true → Yields P x)
    → (b ≡ false → Settles P loop)
    → Settles P (λ r. if b then x else loop r)
Settles-if true h g = Settles-const (h refl)
Settles-if false h g = g refl
