-- ===== src/Yields.antt =====
-- What an operation that may be stopped by a fault yields, where it does not go on for ever.
use mathlib.Core.Path.{subst}
use rmf_task.Base.{
  ◌≡◌, ◌≢◌, ◌⊎◌, inl, inr, refl, Bool, true, false, Option, none, some, if◌then◌else◌, Result, ok,
  err, Fault, diverges, ◌>>=◌, deref, maybe,
}

-- The result has a property, or the operation was stopped by a fault other than a loop that does
-- not end.
pub data Yields {A : Type 0} (P : A → Type 0) : Result A → Type 0 where
  yields : {a : A} → P a → Yields P (ok a)
  stopped : {e : Fault} → e ≢ diverges → Yields P (err e)

-- There is no result, or it has a property.
pub data OnSome {A : Type 0} (P : A → Type 0) : Option A → Type 0 where
  absent : OnSome P none
  present : {a : A} → P a → OnSome P (some a)

module _ {A B : Type 0} {P : A → Type 0} {Q : B → Type 0} where
  pub Yields-bind :
      {r : Result A} {f : A → Result B}
      → Yields P r
      → ((a : A) → P a → Yields Q (f a))
      → Yields Q (r >>= f)
  Yields-bind (yields h) g = g _ h
  Yields-bind (stopped n) g = stopped n

  pub OnSome-map :
      {o : Option A} (f : A → B)
      → OnSome P o
      → ((a : A) → P a → Q (f a))
      → OnSome Q (maybe o none (λ a. some (f a)))
  OnSome-map f absent g = absent
  OnSome-map f (present h) g = present (g _ h)

module _ {A B : Type 0} {Q : B → Type 0} where
  pub Yields-maybe :
      (o : Option A) {b : Result B} {f : A → Result B}
      → Yields Q b
      → ((a : A) → o ≡ some a → Yields Q (f a))
      → Yields Q (maybe o b f)
  Yields-maybe none h g = h
  Yields-maybe (some a) h g = g a refl

module _ {A : Type 0} {P : A → Type 0} where
  pub Yields-if :
      (b : Bool) {x y : Result A}
      → (b ≡ true → Yields P x)
      → (b ≡ false → Yields P y)
      → Yields P (if b then x else y)
  Yields-if true h g = h refl
  Yields-if false h g = g refl

  pub Yields-mono :
      {Q : A → Type 0} {r : Result A} → Yields P r → ((a : A) → P a → Q a) → Yields Q r
  Yields-mono (yields h) g = yields (g _ h)
  Yields-mono (stopped n) g = stopped n

  pub Yields-both :
      {Q : A → Type 0} {r : Result A} → Yields P r → Yields Q r → Yields (λ a. P a × Q a) r
  Yields-both (yields h) (yields g) = yields (h, g)
  Yields-both (stopped n) _ = stopped n

  pub OnSome-mono :
      {Q : A → Type 0} {o : Option A} → OnSome P o → ((a : A) → P a → Q a) → OnSome Q o
  OnSome-mono absent g = absent
  OnSome-mono (present h) g = present (g _ h)

pub OnSome-some :
    {A : Type 0} {P : A → Type 0} {o : Option A} {a : A} → OnSome P o → o ≡ some a → P a
OnSome-some absent e = absurd (cc)
OnSome-some {P} (present h) e = subst P (same e) h
  where
    same : {A : Type 0} {a b : A} → ◌≡◌ {A = Option A} (some a) (some b) → a ≡ b
    same e = cc

pub Yields-cases :
    {A : Type 0} {P : A → Type 0} {r : Result A}
    → Yields P r
    → ((a : A) × (r ≡ ok a) × P a) ⊎ ((e : Fault) × (r ≡ err e) × (e ≢ diverges))
Yields-cases (yields h) = inl (_, refl, h)
Yields-cases (stopped n) = inr (_, refl, n)

pub Yields-self :
    {A : Type 0} {P : A → Type 0} {r : Result A} → Yields P r → Yields (λ a. r ≡ ok a) r
Yields-self (yields h) = yields refl
Yields-self (stopped n) = stopped n

pub Yields-deref : {A : Type 0} (o : Option A) → Yields (λ a. o ≡ some a) (deref o)
Yields-deref none = stopped (λ e. absurd (cc))
Yields-deref (some a) = yields refl
