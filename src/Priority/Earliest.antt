-- ===== src/Priority/Earliest.antt =====
-- The values of the agents that the loop over the tasks without an agent lowers, against the least
-- of the times that are listed with an agent.
use mathlib.Core.Path.{subst}
use rmf_task.Base.{
  ℕ, zero, suc, ◌+◌, ◌<◌, ◌≡◌, refl, sym, ◌∙◌, ap, Option, none, some, maybe, List, [], ◌∷◌, ◌++◌,
  Result, ok, err, err-ne-ok, ◌>>=◌, >>=-ok, if◌then◌else◌, if_true, if_false, ◌==◌, ltb, length,
  All, arith, Bool, true, false,
}
use rmf_task.Priority.Costs.{lower_value}

pub bind_cong :
    {A B : Type 0} (m : Result A) (f g : A → Result B)
    → ((a : A) → f a ≡ g a)
    → (m >>= f) ≡ (m >>= g)
bind_cong (ok a) f g h = h a
bind_cong (err e) f g h = refl

pub bind_cong2 :
    {A B : Type 0} {m m' : Result A} {f g : A → Result B}
    → m ≡ m'
    → ((a : A) → f a ≡ g a)
    → (m >>= f) ≡ (m' >>= g)
bind_cong2 {m' = m'} {f = f} {g = g} e h = ap (λ r. r >>= f) e ∙ bind_cong m' f g h

bind_assoc :
    {A B C : Type 0} (m : Result A) (f : A → Result B) (g : B → Result C)
    → (m >>= f >>= g) ≡ (m >>= (λ a. f a >>= g))
bind_assoc (ok a) f g = refl
bind_assoc (err e) f g = refl

pub bind_inv :
    {A B : Type 0} (m : Result A) (f : A → Result B) (b : B)
    → (m >>= f) ≡ ok b
    → (a : A) × (m ≡ ok a) × (f a ≡ ok b)
bind_inv (ok a) f b e = (a, refl, e)
bind_inv (err e') f b e = absurd (err-ne-ok e)

-- The least of the times that are listed with an agent.
abbrev pub earliest : ℕ → List (ℕ × ℕ) → Option ℕ
earliest k [] = none
earliest k ((c, v) ∷ pairs) =
    let rest = earliest k pairs in
    if c == k then some (maybe rest v (λ w. if ltb v w then v else w)) else rest

-- The lesser one of two times; `none` is infinity.
abbrev pub better : Option ℕ → Option ℕ → Option ℕ
better none x = x
better (some v) x = if maybe x true (ltb v) then some v else x

better_assoc :
    (v : ℕ) (b : Bool) (rest x : Option ℕ)
    → better rest (better (if b then some v else none) x)
      ≡ better (if b then some (maybe rest v (λ w. if ltb v w then v else w)) else rest) x
better_assoc v false rest x = refl
better_assoc v true none x = refl
better_assoc v true (some w) none = ground arith
better_assoc v true (some w) (some y) = ground arith

better-earliest :
    (k c v : ℕ) (pairs : List (ℕ × ℕ)) (x : Option ℕ)
    → better (earliest k pairs) (better (earliest k ((c, v) ∷ [])) x)
      ≡ better (earliest k ((c, v) ∷ pairs)) x
better-earliest k c v pairs x = better_assoc v (c == k) (earliest k pairs) x

-- The values, of the agents from k on, lowered to the times that are listed with them.
abbrev pub merge : ℕ → List (ℕ × ℕ) → List (Option ℕ) → List (Option ℕ)
merge k pairs [] = []
merge k pairs (x ∷ values) = better (earliest k pairs) x ∷ merge (suc k) pairs values

merge_nothing : (k : ℕ) (values : List (Option ℕ)) → merge k [] values ≡ values
merge_nothing k [] = refl
merge_nothing k (x ∷ values) = ap (λ l. x ∷ l) (merge_nothing (suc k) values)

merge_cons :
    (k c v : ℕ) (pairs : List (ℕ × ℕ)) (values : List (Option ℕ))
    → merge k pairs (merge k ((c, v) ∷ []) values) ≡ merge k ((c, v) ∷ pairs) values
merge_cons k c v pairs [] = refl
merge_cons k c v pairs (x ∷ values) =
    ap (λ y. y ∷ merge (suc k) pairs (merge (suc k) ((c, v) ∷ []) values))
      (better-earliest k c v pairs x)
    ∙ ap (λ l. better (earliest k ((c, v) ∷ pairs)) x ∷ l) (merge_cons (suc k) c v pairs values)

earliest_other : (k c v : ℕ) → (c == k) ≡ false → earliest k ((c, v) ∷ []) ≡ none
earliest_other k c v e = if_false _ _ _ e

merge_before :
    (k c v : ℕ) (values : List (Option ℕ)) → c < k → merge k ((c, v) ∷ []) values ≡ values
merge_before k c v [] l = refl
merge_before k c v (x ∷ values) l =
    ap (λ o. better o x ∷ merge (suc k) ((c, v) ∷ []) values) (earliest_other k c v (ground arith))
    ∙ ap (λ l. x ∷ l) (merge_before (suc k) c v values (omega arith))

lower_value_lem :
    (k c v d : ℕ) (values : List (Option ℕ))
    → d ≡ k + c
    → c < length values
    → lower_value c v values ≡ ok (merge k ((d, v) ∷ []) values)
unfolding lower_value
lower_value_lem k c v d [] e l = absurd (omega arith)
lower_value_lem k zero v d (x ∷ values) e l = sym (
    ap (λ o. ok (better o x ∷ merge (suc k) ((d, v) ∷ []) values))
      (if_true (d == k) (some v) none (ground arith))
    ∙ ap (λ l. ok (better (some v) x ∷ l)) (merge_before (suc k) d v values (omega arith)))
lower_value_lem k (suc c) v d (x ∷ values) e l =
    >>=-ok _ _ (lower_value_lem (suc k) c v d values (omega arith) (omega arith))
    ∙ ap (λ o. ok (better o x ∷ merge (suc k) ((d, v) ∷ []) values))
        (sym (earliest_other k d v (ground arith)))

-- The values lowered by a list of agents with times.
abbrev pub lower_pairs : List (ℕ × ℕ) → List (Option ℕ) → Result (List (Option ℕ))
lower_pairs [] values = ok values
lower_pairs ((c, v) ∷ pairs) values = lower_value c v values >>= lower_pairs pairs

length-merge :
    (k : ℕ) (pairs : List (ℕ × ℕ)) (values : List (Option ℕ))
    → length (merge k pairs values) ≡ length values
length-merge k pairs [] = refl
length-merge k pairs (x ∷ values) = ap suc (length-merge (suc k) pairs values)

-- Every agent that is listed is one of a number of agents.
abbrev pub AreAgents : ℕ → List (ℕ × ℕ) → Type 0
AreAgents count = All (λ (p : ℕ × ℕ). p.0 < count)

pub lower_pairs_lem :
    (pairs : List (ℕ × ℕ)) (values : List (Option ℕ))
    → AreAgents (length values) pairs
    → lower_pairs pairs values ≡ ok (merge 0 pairs values)
lower_pairs_lem [] values h = ap ok (sym (merge_nothing 0 values))
lower_pairs_lem ((c, v) ∷ pairs) values h =
    >>=-ok _ (lower_pairs pairs) (lower_value_lem 0 c v c values (omega arith) h.0)
    ∙ lower_pairs_lem pairs (merge 0 ((c, v) ∷ []) values)
        (subst (λ n. AreAgents n pairs) (sym (length-merge 0 ((c, v) ∷ []) values)) h.1)
    ∙ ap ok (merge_cons 0 c v pairs values)

pub lower_pairs-append :
    (ps qs : List (ℕ × ℕ)) (values : List (Option ℕ))
    → lower_pairs (ps ++ qs) values ≡ (lower_pairs ps values >>= lower_pairs qs)
lower_pairs-append [] qs values = refl
lower_pairs-append ((c, v) ∷ ps) qs values =
    bind_cong (lower_value c v values) _ _ (λ values'. lower_pairs-append ps qs values')
    ∙ sym (bind_assoc (lower_value c v values) (lower_pairs ps) (lower_pairs qs))
