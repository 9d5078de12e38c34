-- ===== src/Resume.antt =====
-- rmf_task/src/rmf_task/detail/Resume.cpp and internal_Resume.hpp: a callback that runs once, when
-- it is triggered or when its holder is destroyed. The mutex is recursive and serialises the calls.
use rmf_task.Base.{Bool, true, false, List, [], ◌∷◌, if◌then◌else◌}

-- `callback` is a name for the function; an operation returns the names of the functions it ran.
pub record Resume {ℓ} (A : Type ℓ) : Type ℓ where
  pub callback : A
  pub called : Bool

module _ {ℓ} {A : Type ℓ} where
  unfoldable pub make : A → Resume A
  make callback = record { callback = callback; called = false }

  -- `Implementation::trigger`, which `operator()` calls.
  unfoldable pub trigger : Resume A → Resume A × List A
  trigger r = if r.called then (r, []) else (record r { called = true }, r.callback ∷ [])

  -- `~Implementation`.
  unfoldable pub destroy : Resume A → List A
  unfolding trigger
  destroy r = (trigger r).1
