-- ===== src/Planner/Numbering.antt =====
-- The identifiers of the unassigned tasks, when one more is added.
use rmf_task.Base.{
  ℕ, suc, ◌<◌, ◌≡◌, refl, ◌∙◌, ap, false, List, [], ◌∷◌, ◌++◌, All, arith, ◌==◌, if_false,
}
use rmf_task.Planner.{Request, PendingTask, is_charging}
use rmf_task.Planner.Initial.{has_id}
use rmf_task.Planner.Tasks.{keys, requests, DistinctIds, NoCharging}

-- The identifiers lie below a bound.
abbrev pub IdsBelow : {D : Type 0} → ℕ → List (ℕ × Request D) → Type 0
IdsBelow next = All (λ (e : ℕ × Request _). e.0 < next)

module _ {S D : Type 0} where
  pub has_id-below :
      (id : ℕ) (us : List (ℕ × PendingTask S D)) → IdsBelow id (keys us) → has_id id us ≡ false
  unfolding has_id
  has_id-below id [] l = refl
  has_id-below id ((i, u) ∷ rest) l =
      if_false (i == id) _ _ (ground (arith, l.0)) ∙ has_id-below id rest l.1

  pub keys-append : (us vs : List (ℕ × PendingTask S D)) → keys (us ++ vs) ≡ keys us ++ keys vs
  keys-append [] vs = refl
  keys-append ((i, u) ∷ us) vs =
      ap (λ (K : List (ℕ × Request D)). (i, u.request) ∷ K) (keys-append us vs)

module _ {D : Type 0} where
  pub requests-append : (K L : List (ℕ × Request D)) → requests (K ++ L) ≡ requests K ++ requests L
  requests-append [] L = refl
  requests-append ((i, r) ∷ K) L = ap (λ (l : List (Request D)). r ∷ l) (requests-append K L)

  pub IdsBelow-append :
      (next : ℕ) (r : Request D) (K : List (ℕ × Request D))
      → IdsBelow next K
      → IdsBelow (suc next) (K ++ (next, r) ∷ [])
  IdsBelow-append next r [] l = (omega arith, tt)
  IdsBelow-append next r (e ∷ K) l = (omega (arith, l.0), IdsBelow-append next r K l.1)

  apart_last :
      (i next : ℕ) (r : Request D) (K : List (ℕ × Request D))
      → i < next
      → All (λ (e : ℕ × Request D). (i == e.0) ≡ false) K
      → All (λ (e : ℕ × Request D). (i == e.0) ≡ false) (K ++ (next, r) ∷ [])
  apart_last i next r [] h l = (ground (arith, h), tt)
  apart_last i next r (e ∷ K) h l = (l.0, apart_last i next r K h l.1)

  pub DistinctIds-append :
      (next : ℕ) (r : Request D) (K : List (ℕ × Request D))
      → IdsBelow next K
      → DistinctIds K
      → DistinctIds (K ++ (next, r) ∷ [])
  DistinctIds-append next r [] l d = (tt, tt)
  DistinctIds-append next r ((i, s) ∷ K) l d =
      (apart_last i next r K l.0 d.0, DistinctIds-append next r K l.1 d.1)

  pub NoCharging-append :
      (next : ℕ) (r : Request D) (K : List (ℕ × Request D))
      → NoCharging K
      → is_charging r.description ≡ false
      → NoCharging (K ++ (next, r) ∷ [])
  NoCharging-append next r [] l p = (p, tt)
  NoCharging-append next r (e ∷ K) l p = (l.0, NoCharging-append next r K l.1 p)
