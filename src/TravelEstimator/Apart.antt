-- ===== src/TravelEstimator/Apart.antt =====
-- What a step of a call leaves as it is.
use rmf_task.Base.{
  ℕ, ◌≡◌, refl, true, false, Option, none, some, maybe, ◌==◌, arith, beq_self, if_true, if_false,
}
use rmf_task.Requests.{Doubles, Start, Goal, Travel, Parameters}
use rmf_task.TravelEstimator.{
  Key, key_of, equal_keys, Phase, calling, reading, computing, computed, returned, Estimator,
  assign_value, set_phase, estimate_phase,
}

pub eq_of_equal_keys : (a b : Key) → equal_keys a b ≡ true → a ≡ b
unfolding equal_keys
eq_of_equal_keys (a, b) (c, e) h = ground arith

pub equal_keys_refl : (a : Key) → equal_keys a a ≡ true
unfolding equal_keys
equal_keys_refl (a, b) = ground arith

module _ {R : Type 0} where
  pub set_phase-same : (i : ℕ) (p : Phase R) (f : ℕ → Phase R) → set_phase i p f i ≡ p
  unfolding set_phase
  set_phase-same i p f = if_true (i == i) _ _ (beq_self i)

  pub set_phase-other :
      (i j : ℕ) (p : Phase R) (f : ℕ → Phase R) → (j == i) ≡ false → set_phase i p f j ≡ f j
  unfolding set_phase
  set_phase-other i j p f h = if_false (j == i) _ _ h

  pub assign_value-same :
      (k : Key) (v : Option R) (cache : Key → Option (Option R)) → assign_value k v cache k ≡ some v
  unfolding assign_value
  assign_value-same k v cache = if_true (equal_keys k k) _ _ (equal_keys_refl k)

  pub assign_value-other :
      (k x : Key) (v : Option R) (cache : Key → Option (Option R))
      → equal_keys x k ≡ false
      → assign_value k v cache x ≡ cache x
  unfolding assign_value
  assign_value-other k x v cache h = if_false (equal_keys x k) _ _ h

pub maybe-either :
    {A B : Type 0} (P : B → Type 0) (o : Option A) (b : B) (f : A → B)
    → P b
    → ((a : A) → P (f a))
    → P (maybe o b f)
maybe-either P none b f h g = h
maybe-either P (some a) b f h g = g a

module _ {O B J : Type 0} (d : Doubles B) (p : Parameters O B J) where
  -- A step of a call changes no other call, and nothing that is kept of other waypoints.
  pub phase-other :
      (call : Start O × Goal O) (i j : ℕ) (at : Phase (Travel B)) (e : Estimator (Travel B))
      → (j == i) ≡ false
      → (estimate_phase d p call i at e).phase j ≡ e.phase j
  unfolding estimate_phase
  phase-other call i j calling e h =
      maybe-either (λ (x : Estimator (Travel B)). x.phase j ≡ e.phase j) (e.cache (key_of call)) _ _
        (set_phase-other i j computing e.phase h) (λ v. set_phase-other i j reading e.phase h)
  phase-other call i j reading e h = set_phase-other i j _ e.phase h
  phase-other call i j computing e h = set_phase-other i j _ e.phase h
  phase-other call i j (computed r) e h = set_phase-other i j _ e.phase h
  phase-other call i j (returned r) e h = refl

  pub cache-other :
      (call : Start O × Goal O) (i : ℕ) (k : Key) (at : Phase (Travel B)) (e : Estimator (Travel B))
      → equal_keys k (key_of call) ≡ false
      → (estimate_phase d p call i at e).cache k ≡ e.cache k
  unfolding estimate_phase
  cache-other call i k calling e h =
      maybe-either (λ (x : Estimator (Travel B)). x.cache k ≡ e.cache k) (e.cache (key_of call)) _ _
        (assign_value-other (key_of call) k none e.cache h) (λ v. refl)
  cache-other call i k reading e h = refl
  cache-other call i k computing e h = refl
  cache-other call i k (computed r) e h = assign_value-other (key_of call) k r e.cache h
  cache-other call i k (returned r) e h = refl
