-- ===== src/Requests/Parts.antt =====
-- The parts that the estimates of requests are made of, against their description.
use rmf_task.Base.{
  ℕ, ◌-◌, max, ◌≡◌, refl, sym, ◌∙◌, ap, ◌⊎◌, inl, inr, Bool, true, false, not, ◌&&◌, Option, none,
  some, ltb, ◌==◌, arith, eq_of_beq, if_false, true-ne-false,
}
use rmf_task.Attempt.{
  value, Ensures, given, Ensures-bind, Ensures-if, value-Ensures, or_refuse-Ensures,
  require-Ensures, check-Ensures, Ensures-mono,
}
use rmf_task.Requests.{
  Doubles, Start, to_waypoint, Travel, Travels, State, Constraints, Parameters, is_at,
  extract_plan_start, in_range, set_battery_soc, load_basic, charge_left, travel_to, way_back,
  wait_from, wait_drain,
}
use rmf_task.Requests.Spec.{is_complete, Low, High, Drives, at_start, drives, Waits, charged, waits}

pub not-true : (b : Bool) → not b ≡ true → b ≡ false
not-true true h = absurd (cc)
not-true false h = refl

pub not-false : (b : Bool) → not b ≡ false → b ≡ true
not-false true h = refl
not-false false h = absurd (cc)

pub wait_from-max : (time earliest v : ℕ) → wait_from time earliest v ≡ max time (earliest - v)
unfolding wait_from
wait_from-max time earliest v = ground arith

module _ {O B : Type 0} (s : State O B) where
  pub time-is_complete : s.time ≡ none → is_complete s ≡ false
  time-is_complete e = ground (arith, e)

  pub orientation-is_complete : s.orientation ≡ none → is_complete s ≡ false
  orientation-is_complete e = ground (arith, e)

  pub charging-is_complete : s.charging_waypoint ≡ none → is_complete s ≡ false
  charging-is_complete e = ground (arith, e)

  pub battery-is_complete : s.battery_soc ≡ none → is_complete s ≡ false
  battery-is_complete e = ground (arith, e)

  pub extract-is_complete : extract_plan_start s ≡ none → is_complete s ≡ false
  unfolding extract_plan_start
  extract-is_complete e = ground (arith, e)

module _ {O B J : Type 0} (d : Doubles B) (p : Parameters O B J) (travels : Travels O B)
    (c : Constraints B) where
  pub Drives-undrained :
      (s : State O B) (w : ℕ) (soc : B) (r : ℕ × B)
      → c.drain_battery ≡ false
      → Drives d p travels c s w soc r
      → r.1 ≡ soc
  Drives-undrained s w soc _ off (at_start h) = refl
  Drives-undrained s w soc _ off (drives start t e g) = if_false c.drain_battery _ _ off

  pub Waits-undrained :
      (s : State O B) (time w : ℕ) (soc left : B)
      → c.drain_battery ≡ false
      → Waits d p travels c s time w soc left
      → left ≡ soc
  Waits-undrained s time w soc _ off (charged h) = refl
  Waits-undrained s time w soc _ off (waits on) = absurd (true-ne-false (sym on ∙ off))

module _ {O B J T R : Type 0} (d : Doubles B) (p : Parameters O B J) (travels : Travels O B)
    (c : Constraints B) where
  pub travel_to-Drives :
      (s : State O B) (w : ℕ) (soc : B)
      → (is_complete s ≡ false → T)
      → ((start : Start O)
          → extract_plan_start s ≡ some start
          → travels start (to_waypoint w) ≡ none
          → R)
      → ((r : ℕ × B) → Drives d p travels c s w soc r → Low d p travels c r.1 → R)
      → Ensures T R (Drives d p travels c s w soc) (travel_to d travels c s w soc)
  unfolding travel_to charge_left
  travel_to-Drives s w soc t r l =
      Ensures-if (is_at s.waypoint w) (λ h. given (at_start h))
        λ h.
          Ensures-bind (value-Ensures (extract_plan_start s) (λ e. t (extract-is_complete s e)))
            λ start e.
              Ensures-bind (or_refuse-Ensures (travels start (to_waypoint w)) (r start e))
                λ travel g.
                  let way = drives start travel e g in
                  Ensures-bind (require-Ensures _ (λ low. l _ way (not-false _ low)))
                    λ _ high. given way

  pub wait_drain-Waits :
      (s : State O B) (time w : ℕ) (soc : B)
      → (is_complete s ≡ false → T)
      → ((left : B) → Waits d p travels c s time w soc left → Low d p travels c left → R)
      → Ensures T R (Waits d p travels c s time w soc) (wait_drain d p c s time w soc)
  unfolding wait_drain
  wait_drain-Waits s time w soc t l =
      Ensures-if (c.drain_battery && ltb time w)
        (λ on.
          Ensures-bind (value-Ensures s.charging_waypoint (λ e. t (charging-is_complete s e)))
            λ charger e.
              Ensures-if (is_at s.waypoint charger) (λ at. given (charged (inr (charger, e, at))))
                λ away.
                  let spent = waits (and_left c.drain_battery _ on) in
                  Ensures-bind (require-Ensures _ (λ low. l _ spent (not-false _ low)))
                    λ _ high. given spent)
        (λ off. given (charged (inl off)))
    where
      and_left : (a b : Bool) → (a && b) ≡ true → a ≡ true
      and_left true b h = refl
      and_left false b h = h

  -- The way back from a state at the finish.
  pub way_back-Ensures :
      (s : State O B) (start : Start O) (finish charger : ℕ) (soc : B)
      → extract_plan_start s ≡ some start
      → (travels start (to_waypoint charger) ≡ none → R)
      → ((t : Travel B)
          → travels start (to_waypoint charger) ≡ some t
          → Low d p travels c (d.sub soc t.change_in_charge)
          → R)
      → Ensures T R
          (λ (_ : Unit {0}).
            (finish ≡ charger)
            ⊎ ((t : Travel B) × (travels start (to_waypoint charger) ≡ some t)
                × High d p travels c (d.sub soc t.change_in_charge)))
          (way_back d travels c s finish charger soc)
  unfolding way_back
  way_back-Ensures s start finish charger soc e r l =
      Ensures-if (finish == charger) (λ h. given (inl (eq_of_beq finish charger h)))
        λ h. Ensures-bind (value_known (extract_plan_start s) e) λ start' same.
          let to = λ (x : Start O). travels x (to_waypoint charger) in
          Ensures-bind
            (or_refuse-Ensures (travels start' (to_waypoint charger)) (λ g. r (ap to same ∙ g)))
            λ t g.
              Ensures-mono (require-Ensures _ (λ low. l t (ap to same ∙ g) (not-false _ low)))
                λ _ high. inr (t, ap to same ∙ g, not-true _ high)
    where
      value_known : (o : Option (Start O)) → o ≡ some start → Ensures T R (λ a. start ≡ a) (value o)
      value_known none h = absurd (cc)
      value_known (some a) h = given (cc)

  pub set_battery_soc-Ensures :
      (soc : B) (s : State O B)
      → (in_range d soc ≡ false → T)
      → Ensures T R (λ s'. s' ≡ record s { battery_soc = some soc }) (set_battery_soc d soc s)
  unfolding set_battery_soc
  set_battery_soc-Ensures soc s t =
      Ensures-bind (check-Ensures (in_range d soc) t) λ _ h. given refl

  pub load_basic-Ensures :
      (start : Start O) (charger : ℕ) (soc : B)
      → (in_range d soc ≡ false → T)
      → Ensures T R
          (λ s'. s' ≡ record {
            time = some start.time;
            waypoint = some start.waypoint;
            orientation = some start.orientation;
            charging_waypoint = some charger;
            battery_soc = some soc;
          })
          (load_basic d start charger soc)
  unfolding load_basic set_battery_soc
  load_basic-Ensures start charger soc t =
      Ensures-bind (check-Ensures (in_range d soc) t) λ _ h. given refl
