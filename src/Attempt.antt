-- ===== src/Attempt.antt =====
-- What an operation that may throw, or return early with `nullopt`, yields.
use mathlib.Core.Path.{subst}
use rmf_task.Base.{◌≡◌, refl, Bool, true, false, Option, none, some, if◌then◌else◌}

pub data Attempt (A : Type 0) : Type 0 where
  throws : Attempt A
  refuses : Attempt A
  gives : A → Attempt A

infixl 5 ◌>>=◌ ◌>>◌
abbrev pub ◌>>=◌ : {A B : Type 0} → Attempt A → (A → Attempt B) → Attempt B
throws >>= f = throws
refuses >>= f = refuses
gives a >>= f = f a

abbrev pub ◌>>◌ : {B : Type 0} → Attempt (Unit {0}) → Attempt B → Attempt B
m >> k = m >>= λ _. k

-- `value()` of an optional.
abbrev pub value : {A : Type 0} → Option A → Attempt A
value none = throws
value (some a) = gives a

-- The return of `nullopt` where an optional has no value.
abbrev pub or_refuse : {A : Type 0} → Option A → Attempt A
or_refuse none = refuses
or_refuse (some a) = gives a

-- The return of `nullopt` where a test fails.
abbrev pub require : Bool → Attempt (Unit {0})
require true = gives tt
require false = refuses

-- The exception where a test fails.
abbrev pub check : Bool → Attempt (Unit {0})
check true = gives tt
check false = throws

-- It throws or refuses for a reason, or gives a result with a property.
pub data Ensures {A : Type 0} (T R : Type 0) (P : A → Type 0) : Attempt A → Type 0 where
  thrown : T → Ensures T R P throws
  refused : R → Ensures T R P refuses
  given : {a : A} → P a → Ensures T R P (gives a)

pub Ensures-bind :
    {A B T R : Type 0} {P : A → Type 0} {Q : B → Type 0} {m : Attempt A} {f : A → Attempt B}
    → Ensures T R P m
    → ((a : A) → P a → Ensures T R Q (f a))
    → Ensures T R Q (m >>= f)
Ensures-bind (thrown t) g = thrown t
Ensures-bind (refused r) g = refused r
Ensures-bind (given p) g = g _ p

pub Ensures-mono :
    {A T R : Type 0} {P Q : A → Type 0} {m : Attempt A}
    → Ensures T R P m
    → ((a : A) → P a → Q a)
    → Ensures T R Q m
Ensures-mono (thrown t) g = thrown t
Ensures-mono (refused r) g = refused r
Ensures-mono (given p) g = given (g _ p)

pub Ensures-if :
    {A T R : Type 0} {P : A → Type 0} (b : Bool) {m k : Attempt A}
    → (b ≡ true → Ensures T R P m)
    → (b ≡ false → Ensures T R P k)
    → Ensures T R P (if b then m else k)
Ensures-if true h g = h refl
Ensures-if false h g = g refl

module _ {T R : Type 0} where
  pub value-Ensures :
      {A : Type 0} (o : Option A) → (o ≡ none → T) → Ensures T R (λ a. o ≡ some a) (value o)
  value-Ensures none h = thrown (h refl)
  value-Ensures (some a) h = given refl

  pub or_refuse-Ensures :
      {A : Type 0} (o : Option A) → (o ≡ none → R) → Ensures T R (λ a. o ≡ some a) (or_refuse o)
  or_refuse-Ensures none h = refused (h refl)
  or_refuse-Ensures (some a) h = given refl

  pub require-Ensures :
      (b : Bool) → (b ≡ false → R) → Ensures T R (λ (_ : Unit {0}). b ≡ true) (require b)
  require-Ensures true h = given refl
  require-Ensures false h = refused (h refl)

  pub check-Ensures :
      (b : Bool) → (b ≡ false → T) → Ensures T R (λ (_ : Unit {0}). b ≡ true) (check b)
  check-Ensures true h = given refl
  check-Ensures false h = thrown (h refl)

-- Another attempt where the first gives nothing, but where it throws.
abbrev pub or_else : {A : Type 0} → Attempt A → Attempt A → Attempt A
or_else throws k = throws
or_else refuses k = k
or_else (gives a) k = gives a

pub Ensures-or_else :
    {A T R : Type 0} {P : A → Type 0} {m k : Attempt A}
    → Ensures T R P m
    → Ensures T R P k
    → Ensures T R P (or_else m k)
Ensures-or_else (thrown t) k = thrown t
Ensures-or_else (refused r) k = k
Ensures-or_else (given p) k = given p

pub Ensures-gives :
    {A T R : Type 0} {P : A → Type 0} {m : Attempt A} (a : A) → Ensures T R P m → m ≡ gives a → P a
Ensures-gives a (thrown t) e = absurd (cc)
Ensures-gives a (refused r) e = absurd (cc)
Ensures-gives {P = P} a (given p) e = subst P (gives-eq _ a e) p
  where
    gives-eq : {A : Type 0} (b a : A) → gives b ≡ gives a → b ≡ a
    gives-eq b a e = cc
