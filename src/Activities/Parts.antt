-- ===== src/Activities/Parts.antt =====
-- The estimates of single activities, against what they promise.
use mathlib.Core.Path.{subst}
use rmf_task.Base.{
  ℕ, ◌+◌, ◌≤◌, ◌≡◌, refl, sym, ◌∙◌, inl, inr, true, false, Option, none, some, arith, Bool-cases,
  true-ne-false, if_true, if_false,
}
use rmf_task.Attempt.{
  Attempt, gives, ◌>>=◌, ◌>>◌, value, given, Ensures-bind, Ensures-mono, Ensures-if,
  require-Ensures, check-Ensures,
}
use rmf_task.Requests.{
  Doubles, State, Constraints, Finish, in_range, extract_plan_start, set_battery_soc,
}
use rmf_task.Requests.Parts.{not-true}
use rmf_task.Activities.{spend, spend_at_most, require_charge}
use rmf_task.Activities.Spec.{Answers, Agrees, Later, IsReady, ready, IsCharged, Finishes, finishes}

pub known : {A : Type 0} (o : Option A) (a : A) → o ≡ some a → Answers (λ x. o ≡ some x) (value o)
known none a h = absurd (cc)
known (some b) a h = given refl

module _ {B : Type 0} (d : Doubles B) where
  in_range_from :
      (soc : B) → d.lt soc d.zero ≡ false → d.lt d.one soc ≡ false → in_range d soc ≡ true
  unfolding in_range
  in_range_from soc l h = ground (arith, l, h)

  below_one : (soc : B) → in_range d soc ≡ true → d.lt d.one soc ≡ false
  unfolding in_range
  below_one soc h = ground (arith, h)

  in_range_moved :
      {O : Type 0} (s : State O B) (soc soc' : B)
      → s.battery_soc ≡ some soc
      → s.battery_soc ≡ some soc'
      → in_range d soc ≡ true
      → in_range d soc' ≡ true
  in_range_moved s soc soc' a b h = subst (λ x. in_range d x ≡ true) (cc) h

module _ {O B : Type 0} (d : Doubles B) where
  set_known :
      (soc : B) (s : State O B)
      → in_range d soc ≡ true
      → Answers (λ s'. s' ≡ record s { battery_soc = some soc }) (set_battery_soc d soc s)
  unfolding set_battery_soc
  set_known soc s h =
      Ensures-bind (check-Ensures (in_range d soc) (λ no. true-ne-false (sym h ∙ no)))
        λ _ _. given refl

  pub extract_known :
      (s : State O B)
      → IsReady d s
      → Answers (λ start. extract_plan_start s ≡ some start) (value (extract_plan_start s))
  unfolding extract_plan_start
  extract_known s (ready t w o soc ht hw ho hb hr) =
      known _ (record { time = t; waypoint = w; orientation = o }) (ground (arith, ht, hw, ho))

  -- A ready state that another one is, but for the charge.
  pub data Spent (s s' : State O B) : Type 0 where
    spent : IsReady d s' → s'.waypoint ≡ s.waypoint → s'.time ≡ s.time → Spent s s'

  recharge-Answers :
      (soc : B) (s : State O B)
      → IsReady d s
      → in_range d soc ≡ true
      → Answers (Spent s) (set_battery_soc d soc s)
  recharge-Answers soc s (ready t w o _ ht hw ho hb hr) h =
      Ensures-mono (set_known soc s h)
        λ s' e. subst (Spent s) (sym e) (spent (ready t w o soc ht hw ho refl h) refl refl)

  module _ (c : Constraints B)
      (sub_below : (a b : B)
        → d.lt d.one a ≡ false
        → d.lt b d.zero ≡ false
        → d.lt d.one (d.sub a b) ≡ false) where
    pub spend-Answers :
        (drain : B) (s : State O B)
        → IsReady d s
        → d.lt drain d.zero ≡ false
        → Answers (Spent s) (spend d c drain s)
    unfolding spend
    spend-Answers drain s r h =
        Ensures-if c.drain_battery
          (λ on. elim r [
            | ready t w o soc ht hw ho hb hr ↦ Ensures-bind (known s.battery_soc soc hb) λ soc' e.
                Ensures-bind (require-Ensures _ (λ _. tt)) λ _ some_left.
                  recharge-Answers (d.sub soc' drain) s (ready t w o soc ht hw ho hb hr) (
                    in_range_from d _ (not-true _ some_left) (
                      sub_below soc' drain (below_one d soc' (in_range_moved d s soc soc' hb e hr))
                        h))
          ])
          (λ off. given (spent r refl refl))

    pub spend_at_most-Answers :
        (drain : B) (s : State O B)
        → in_range d d.zero ≡ true
        → ((a b : B) → d.lt a b ≡ true → d.lt b a ≡ false)
        → IsReady d s
        → d.lt drain d.zero ≡ false
        → Answers (Spent s) (spend_at_most d c drain s)
    unfolding spend_at_most
    spend_at_most-Answers drain s zero_in_range lt_asym r h =
        Ensures-if c.drain_battery
          (λ on. elim r [
            | ready t w o soc ht hw ho hb hr ↦ Ensures-bind (known s.battery_soc soc hb) λ soc' e.
                let left = d.sub soc' drain in
                recharge-Answers _ s (ready t w o soc ht hw ho hb hr)
                  (elim (Bool-cases (d.lt d.zero left)) [
                    | inl more ↦
                        subst (λ x. in_range d x ≡ true) (sym (if_true (d.lt d.zero left) _ _ more))
                          (in_range_from d left (lt_asym d.zero left more) (
                            sub_below soc' drain
                              (below_one d soc' (in_range_moved d s soc soc' hb e hr)) h))
                    | inr nothing ↦
                        subst (λ x. in_range d x ≡ true)
                          (sym (if_false (d.lt d.zero left) _ _ nothing)) zero_in_range
                  ])
          ])
          (λ off. given (spent r refl refl))

  module _ (c : Constraints B) where
    require_charge-Answers :
        (s : State O B)
        → IsReady d s
        → Answers (λ (_ : Unit {0}). IsCharged d c s) (require_charge d c s)
    unfolding require_charge
    require_charge-Answers s (ready t w o soc ht hw ho hb hr) =
        Ensures-bind (known s.battery_soc soc hb) λ soc' e.
          Ensures-mono (require-Ensures _ (λ _. tt)) λ _ high x h.
            subst (λ y. d.le y c.threshold_soc ≡ false) (same soc' x (sym e ∙ h)) (not-true _ high)
      where
        same : (a b : B) → ◌≡◌ {A = Option B} (some a) (some b) → a ≡ b
        same a b h = cc

    pub Later-from :
        (n t t' : ℕ) (s s' : State O B)
        → s.time ≡ some t
        → s'.time ≡ some t'
        → t + n ≤ t'
        → Later n s s'
    Later-from n t t' s s' e e' h u u' f f' =
        subst (λ x. x + n ≤ u') (same t u (sym e ∙ f))
          (subst (λ x. t + n ≤ x) (same t' u' (sym e' ∙ f')) h)
      where
        same : (a b : ℕ) → ◌≡◌ {A = Option ℕ} (some a) (some b) → a ≡ b
        same a b h = cc

    -- What the three estimates have in common, once the state without the new charge is known.
    pub after_spending :
        (n : ℕ) (s invariant there : State O B) (m : Attempt (State O B)) (wait_until : ℕ)
        → Answers (Spent there) m
        → Agrees there invariant
        → Later n s there
        → Answers
            (λ (e : Finish O B). Finishes d c n true s invariant e.finish_state)
            (do
              finish ← m
              require_charge d c finish
              gives (record { finish_state = finish; wait_until = wait_until }))
    after_spending n s invariant there m wait_until spends at late = Ensures-bind spends λ s' sp.
        elim sp [
          | spent r ew et ↦ Ensures-bind (require_charge-Answers s' r) λ _ high.
              given (
                finishes r (λ w h. ew ∙ at w h) (λ t t' e e'. late t t' e (sym et ∙ e'))
                  (λ _. high))
        ]
