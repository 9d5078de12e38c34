-- ===== src/TravelEstimator/Owner.antt =====
-- One call computes the estimate of a pair of waypoints, whatever the order of the steps.
use mathlib.Core.Path.{subst}
use rmf_task.Base.{
  ℕ, ◌≡◌, refl, sym, ◌∙◌, ap, ◌⊎◌, inl, inr, false, Option, none, some, List, [], ◌∷◌, maybe-some,
  maybe-none, ◌==◌, arith, Bool-cases, eq_of_beq, true-ne-false,
}
use rmf_task.Requests.{Doubles, Start, Goal, Travel, Parameters}
use rmf_task.TravelEstimator.{
  Key, key_of, equal_keys, Phase, calling, reading, computing, computed, returned, Estimator,
  fresh_estimator, calculate_result, estimate_phase, estimate_run,
}
use rmf_task.TravelEstimator.Apart.{
  eq_of_equal_keys, equal_keys_refl, set_phase-same, set_phase-other, assign_value-same,
  phase-other, cache-other,
}

-- A call that has not computed: it has answered nothing yet, or `none`, or the answer that is kept.
pub data Bystander {R : Type 0} (kept : Option R) : Phase R → Type 0 where
  not_begun : Bystander kept calling
  found : Bystander kept reading
  answered_none : Bystander kept (returned none)
  answered : Bystander kept (returned kept)

module _ {O B J : Type 0} (d : Doubles B) (p : Parameters O B J) where
  module _ (calls : ℕ → Start O × Goal O) where
    abbrev result : ℕ → Option (Travel B)
    result i = calculate_result d p (calls i).0 (calls i).1

    -- What is known of a pair of waypoints: no call has begun for it; one call is computing and all
    -- others that have answered answered `none`; or that call has answered, its answer is kept, and
    -- all others answered `none` or the same.
    pub data Owned (k : Key) (e : Estimator (Travel B)) : Type 0 where
      untouched :
          e.cache k ≡ none → ((i : ℕ) → key_of (calls i) ≡ k → e.phase i ≡ calling) → Owned k e
      pending :
          (j : ℕ)
          → key_of (calls j) ≡ k
          → e.cache k ≡ some none
          → (e.phase j ≡ computing) ⊎ (e.phase j ≡ computed (result j))
          → ((i : ℕ) → key_of (calls i) ≡ k → (i == j) ≡ false → Bystander none (e.phase i))
          → Owned k e
      done :
          (j : ℕ)
          → key_of (calls j) ≡ k
          → e.cache k ≡ some (result j)
          → e.phase j ≡ returned (result j)
          → ((i : ℕ) → key_of (calls i) ≡ k → (i == j) ≡ false → Bystander (result j) (e.phase i))
          → Owned k e

    Owned-same :
        (k : Key) (e e' : Estimator (Travel B))
        → e'.cache k ≡ e.cache k
        → ((i : ℕ) → key_of (calls i) ≡ k → e'.phase i ≡ e.phase i)
        → Owned k e
        → Owned k e'
    Owned-same k e e' c f (untouched n w) = untouched (c ∙ n) (λ i h. f i h ∙ w i h)
    Owned-same k e e' c f (pending j h n w b) =
        pending j h (c ∙ n) (elim w [ inl x ↦ inl (f j h ∙ x) | inr x ↦ inr (f j h ∙ x) ])
          λ i g ne. subst (Bystander none) (sym (f i g)) (b i g ne)
    Owned-same k e e' c f (done j h n w b) =
        done j h (c ∙ n) (f j h ∙ w) λ i g ne. subst (Bystander (result j)) (sym (f i g)) (b i g ne)

    -- A call that does not compute finds what is kept.
    step_aside :
        (i : ℕ) (kept : Option (Travel B)) (at : Phase (Travel B)) (e : Estimator (Travel B))
        → e.cache (key_of (calls i)) ≡ some kept
        → e.phase i ≡ at
        → Bystander kept at
        → Bystander kept ((estimate_phase d p (calls i) i at e).phase i)
          × ((estimate_phase d p (calls i) i at e).cache (key_of (calls i)) ≡ some kept)
    unfolding estimate_phase
    step_aside i kept _ e c f not_begun =
        subst
          (λ (x : Estimator (Travel B)).
            Bystander kept (x.phase i) × (x.cache (key_of (calls i)) ≡ some kept))
          (sym (maybe-some (e.cache (key_of (calls i))) _ _ c))
          (subst (Bystander kept) (sym (set_phase-same i reading e.phase)) found, c)
    step_aside i kept _ e c f found = (
      subst (Bystander kept)
          (sym (
            set_phase-same i _ e.phase
            ∙ ap (λ (r : Option (Travel B)). returned r)
                (maybe-some (e.cache (key_of (calls i))) _ _ c)))
          answered,
      c,
    )
    step_aside i kept _ e c f answered_none = (subst (Bystander kept) (sym f) answered_none, c)
    step_aside i kept _ e c f answered = (subst (Bystander kept) (sym f) answered, c)

    -- The owner's own step, on what it has computed.
    own_pending :
        (j : ℕ) (at : Phase (Travel B)) (e : Estimator (Travel B))
        → e.phase j ≡ at
        → e.cache (key_of (calls j)) ≡ some none
        → (at ≡ computing) ⊎ (at ≡ computed (result j))
        → ((i : ℕ)
            → key_of (calls i) ≡ key_of (calls j)
            → (i == j) ≡ false
            → Bystander none (e.phase i))
        → Owned (key_of (calls j)) (estimate_phase d p (calls j) j at e)
    unfolding estimate_phase
    own_pending j calling e f c w b = elim w [ inl x ↦ absurd (cc) | inr x ↦ absurd (cc) ]
    own_pending j reading e f c w b = elim w [ inl x ↦ absurd (cc) | inr x ↦ absurd (cc) ]
    own_pending j (returned r) e f c w b = elim w [ inl x ↦ absurd (cc) | inr x ↦ absurd (cc) ]
    own_pending j computing e f c w b =
        pending j refl c (inr (set_phase-same j _ e.phase))
          λ i g ne. subst (Bystander none) (sym (set_phase-other j i _ e.phase ne)) (b i g ne)
    own_pending j (computed r) e f c w b = elim w [
      | inl x ↦ absurd (cc)
      | inr x ↦
          let same : r ≡ result j = cc in
          done j refl
            (assign_value-same (key_of (calls j)) r e.cache
              ∙ ap (λ (v : Option (Travel B)). some v) same)
            (set_phase-same j _ e.phase ∙ ap (λ (v : Option (Travel B)). returned v) same)
            λ i g ne.
              subst (Bystander (result j)) (sym (set_phase-other j i _ e.phase ne))
                (later (b i g ne))
    ]
      where
        later :
            {kept : Option (Travel B)} {at : Phase (Travel B)}
            → Bystander none at
            → Bystander kept at
        later not_begun = not_begun
        later found = found
        later answered_none = answered_none
        later answered = answered_none

    -- The first step of the first call of its waypoints.
    own_first :
        (i : ℕ) (e : Estimator (Travel B))
        → e.cache (key_of (calls i)) ≡ none
        → ((j : ℕ) → key_of (calls j) ≡ key_of (calls i) → e.phase j ≡ calling)
        → Owned (key_of (calls i)) (estimate_phase d p (calls i) i calling e)
    unfolding estimate_phase
    own_first i e c w =
        subst (Owned (key_of (calls i))) (sym (maybe-none (e.cache (key_of (calls i))) _ _ c)) (
          pending i refl (assign_value-same (key_of (calls i)) none e.cache)
            (inl (set_phase-same i computing e.phase))
            λ j g ne.
              subst (Bystander none) (sym (set_phase-other i j computing e.phase ne ∙ w j g))
                not_begun)

    -- A step of a call that is not the owner leaves the others what they are.
    aside_others :
        (i j : ℕ) (kept : Option (Travel B)) (e : Estimator (Travel B))
        → e.cache (key_of (calls i)) ≡ some kept
        → (i == j) ≡ false
        → ((l : ℕ)
            → key_of (calls l) ≡ key_of (calls i)
            → (l == j) ≡ false
            → Bystander kept (e.phase l))
        → (l : ℕ) → key_of (calls l) ≡ key_of (calls i)
        → (l == j) ≡ false
        → Bystander kept ((estimate_phase d p (calls i) i (e.phase i) e).phase l)
    aside_others i j kept e c ne b l g nl = elim (Bool-cases (l == i)) [
      | inl same ↦
          subst (λ x. Bystander kept ((estimate_phase d p (calls i) i (e.phase i) e).phase x))
            (sym (eq_of_beq l i same)) (step_aside i kept (e.phase i) e c refl (b i refl ne)).0
      | inr other ↦
          subst (Bystander kept) (sym (phase-other d p (calls i) i l (e.phase i) e other))
            (b l g nl)
    ]

    beq_swap : (i j : ℕ) → (i == j) ≡ false → (j == i) ≡ false
    beq_swap i j h = ground arith

    -- A step of a call of these waypoints.
    step_same :
        (i : ℕ) (e : Estimator (Travel B))
        → Owned (key_of (calls i)) e
        → Owned (key_of (calls i)) (estimate_phase d p (calls i) i (e.phase i) e)
    unfolding estimate_phase
    step_same i e (untouched n w) =
        subst (λ at. Owned (key_of (calls i)) (estimate_phase d p (calls i) i at e))
          (sym (w i refl)) (own_first i e n w)
    step_same i e (pending j h n w b) = elim (Bool-cases (i == j)) [
      | inl same ↦
          subst (λ x. Owned (key_of (calls x)) (estimate_phase d p (calls x) x (e.phase x) e))
            (sym (eq_of_beq i j same))
            (own_pending j (e.phase j) e refl (ap e.cache h ∙ n) w λ l g. b l (g ∙ h))
      | inr ne ↦
          let kept = phase-other d p (calls i) i j (e.phase i) e (beq_swap i j ne) in
          pending j h (step_aside i none (e.phase i) e n refl (b i refl ne)).1
            (elim w [ inl x ↦ inl (kept ∙ x) | inr x ↦ inr (kept ∙ x) ])
            (aside_others i j none e n ne b)
    ]
    step_same i e (done j h n w b) = elim (Bool-cases (i == j)) [
      | inl same ↦
          subst (λ at. Owned (key_of (calls i)) (estimate_phase d p (calls i) i at e))
            (sym (ap e.phase (eq_of_beq i j same) ∙ w)) (done j h n w b)
      | inr ne ↦
          done j h (step_aside i (result j) (e.phase i) e n refl (b i refl ne)).1
            (phase-other d p (calls i) i j (e.phase i) e (beq_swap i j ne) ∙ w)
            (aside_others i j (result j) e n ne b)
    ]

    step-Owned :
        (i : ℕ) (k : Key) (e : Estimator (Travel B))
        → Owned k e
        → Owned k (estimate_phase d p (calls i) i (e.phase i) e)
    step-Owned i k e o = elim (Bool-cases (equal_keys k (key_of (calls i)))) [
      | inl same ↦
          let at = eq_of_equal_keys k (key_of (calls i)) same in
          subst (λ x. Owned x (estimate_phase d p (calls i) i (e.phase i) e)) (sym at)
            (step_same i e (subst (λ x. Owned x e) at o))
      | inr other ↦
          Owned-same k e (estimate_phase d p (calls i) i (e.phase i) e)
            (cache-other d p (calls i) i k (e.phase i) e other)
            (λ l g. phase-other d p (calls i) i l (e.phase i) e (apart l k i g other)) o
    ]
      where
        apart :
            (l : ℕ) (k : Key) (i : ℕ)
            → key_of (calls l) ≡ k
            → equal_keys k (key_of (calls i)) ≡ false
            → (l == i) ≡ false
        apart l k i g other = elim (Bool-cases (l == i)) [
          | inl same ↦ absurd (
              true-ne-false (
                sym (equal_keys_refl (key_of (calls i)))
                ∙ ap (λ x. equal_keys x (key_of (calls i)))
                    (sym (ap (λ (x : ℕ). key_of (calls x)) (eq_of_beq l i same)) ∙ g)
                ∙ other))
          | inr ne ↦ ne
        ]

    run-Owned :
        (schedule : List ℕ) (k : Key) (e : Estimator (Travel B))
        → Owned k e
        → Owned k (estimate_run d p calls schedule e)
    unfolding estimate_run
    run-Owned [] k e o = o
    run-Owned (i ∷ schedule) k e o = run-Owned schedule k _ (step-Owned i k e o)

  -- Whatever calls of an estimator that has not been called take their steps in whatever order, for
  -- any two waypoints either no call has begun, or one call computes: until it answers, all others
  -- that answer answer `none`, and from then on its result is kept, and all others have answered
  -- `none` or that result.
  pub estimate_run-Owned :
      (calls : ℕ → Start O × Goal O) (schedule : List ℕ) (k : Key)
      → Owned calls k (estimate_run d p calls schedule fresh_estimator)
  estimate_run-Owned calls schedule k =
      run-Owned calls schedule k fresh_estimator (untouched refl (λ i h. refl))
