-- ===== src/Intent/Sound.antt =====
-- What the validator promises to the services behind it.
use dibs_reservation_sniper.Prelude.{
  ℕ, ◌+◌, ◌≤◌, ◌≡◌, ◌⊎◌, refl, subst, length, inl, inr, String, Bool, true, false, not, ◌||◌,
  Option, none, some, List, [], ◌∷◌, arith, is_some, is_some_and, ltb,
}
use dibs_reservation_sniper.Model.{TimeWindow, IsoDate}
use dibs_reservation_sniper.Calendar.{ordinal}
use dibs_reservation_sniper.Intent.Schemas.{
  IntentAction, IntentStatus, OrchestratorRoute, MissingField, ReservationExtraction,
  ReservationIntent, validate_state, validate_calendar_date, validate_question, is_ready,
  is_clarification,
}
use dibs_reservation_sniper.Intent.Times.{
  Reference, TimeProblem, resolve_date, resolve_time, next_slot_boundary, same_day, is_inverted,
  is_within, max_days_ahead,
}
use dibs_reservation_sniper.Intent.Lengths.{Fits, build_question-Fits}
use dibs_reservation_sniper.Intent.Candidates.{candidates-IsShort, missing_of-length}
use dibs_reservation_sniper.Intent.Validator.{
  ResolvedVenue, resolve_name, missing_of, has_time, route_for, validate, missing_if, conclude,
  draft, question_for, missing_in,
}

missing-none :
    (b : Bool) (f : MissingField) (fs : List MissingField)
    → missing_if b f fs ≡ []
    → (b ≡ false) × (fs ≡ [])
missing-none true f fs e = ground (arith, e)
missing-none false f fs e = (refl, e)

List-cases :
    (fs : List MissingField)
    → (fs ≡ []) ⊎ ((f : MissingField) × ((gs : List MissingField) × (fs ≡ f ∷ gs)))
List-cases [] = inl refl
List-cases (f ∷ fs) = inr (f, (fs, refl))

known : (b : Bool) → not b ≡ false → b ≡ true
known b e = ground (arith, e)

named_of : (a b : Bool) → not a || not b ≡ false → (a ≡ true) × (b ≡ true)
named_of a b e = (ground (arith, e), ground (arith, e))

module _
    (intent : IntentStatus
      → OrchestratorRoute
      → List MissingField
      → Option String
      → ReservationIntent)
    (route : OrchestratorRoute) (question : List MissingField → String) where
  conclude-ready :
      (fs : List MissingField)
      → ((s : IntentStatus) (r : OrchestratorRoute) (m : List MissingField) (q : Option String)
          → (intent s r m q).status ≡ s)
      → is_ready (conclude intent route question fs).status ≡ true
      → fs ≡ []
  conclude-ready [] p h = refl
  conclude-ready (f ∷ fs) p h = ground (
    arith,
    h,
    p IntentStatus.needs_clarification OrchestratorRoute.clarification (f ∷ fs)
        (some (question (f ∷ fs))),
  )

module _ (normalize : String → String) (words : String → List String) where
  -- The fields of an extraction of which nothing is missing.
  record IsComplete (e : ReservationExtraction) (venue : ResolvedVenue) (target : Option IsoDate)
      (timed : Bool) : Type 0 where
    action_known : is_some e.action ≡ true
    venue_known : is_some venue.name ≡ true
    party_known : is_some e.party_size ≡ true
    date_known : is_some target ≡ true
    time_known : timed ≡ true

  missing_of-IsComplete :
      (e : ReservationExtraction) (venue : ResolvedVenue) (target : Option IsoDate) (timed : Bool)
      → missing_of normalize words e venue target timed ≡ []
      → IsComplete e venue target timed
  missing_of-IsComplete e venue target timed h =
      let a = missing-none _ MissingField.action _ h in
      let v = missing-none _ MissingField.venue_name _ a.1 in
      let p = missing-none _ MissingField.party_size _ v.1 in
      let d = missing-none _ MissingField.date _ p.1 in
      let t = missing-none _ MissingField.time _ d.1 in
      record {
        action_known = known _ a.0;
        venue_known = (named_of _ _ v.0).0;
        party_known = known _ p.0;
        date_known = known _ d.0;
        time_known = known _ t.0;
      }

  resolved-valid :
      (d : Option IsoDate) (today : IsoDate)
      → validate_calendar_date (resolve_date d today).0 ≡ true
  unfolding resolve_date
  resolved-valid none today = refl
  resolved-valid (some d) today = ground arith

  some_time :
      (times : Option ℕ × (Option TimeWindow × Option TimeProblem))
      → has_time normalize words times ≡ true
      → is_some times.0 || is_some times.1.0 ≡ true
  some_time (p, (w, q)) e = ground (arith, e)

  routed : (a : Option IntentAction) → is_clarification (route_for a) ≡ false
  routed a = ground arith

  Fits-valid : (q : String) → Fits q → validate_question (some q) ≡ true
  Fits-valid q (low, high) = ground (arith, low, high)

  -- Whatever was extracted and whatever the time is, the validator makes an intent that the schema
  -- accepts as far as it is the validator's own: its date is a day of the calendar; a ready intent
  -- has every required value, no question and a service to go to; any other is a clarification with
  -- missing fields and a question; and a question has from 1 to 400 characters.
  pub validate-valid :
      (e : ReservationExtraction) (reference : Reference)
      → let i = validate normalize words e reference in
        (validate_state i ≡ true)
        × ((validate_calendar_date i.date ≡ true)
            × (validate_question i.clarification_question ≡ true))
  unfolding validate validate_state
  validate-valid e reference =
      let venue = resolve_name normalize words e in
      let target = resolve_date e.date reference.today in
      let times = resolve_time e.preferred_time e.time_window reference target.0 in
      let valid = resolved-valid e.date reference.today in
      let timed = has_time normalize words times in
      elim (List-cases (missing_of normalize words e venue target.0 timed)) [
        | inl h ↦
            let c = missing_of-IsComplete e venue target.0 timed h in
            rw
              (
                h,
                validate,
                c.action_known,
                c.venue_known,
                c.party_known,
                c.date_known,
                some_time times c.time_known,
                routed e.action,
              )
              (refl, (valid, refl))
        | inr (f, (fs, h)) ↦
            let few =
              subst (λ xs. length xs ≤ 5) h
                (missing_of-length normalize words e venue target.0 timed) in
            let asked = Fits-valid (question_for normalize words e reference (f ∷ fs)) (
              build_question-Fits (f ∷ fs) target.1 times.1.1 venue.candidates few
                (candidates-IsShort normalize words e)) in
            rw (h, validate) (refl, (valid, asked))
      ]

  -- No preferred time is out of its window, and what is asked for on the reference day does not
  -- start before its next slot.
  abbrev pub IsTimely : Option ℕ → Option TimeWindow → Option IsoDate → Reference → Type 0
  IsTimely preferred window target reference =
      (is_some_and preferred (λ t. is_some_and window (λ w. not (is_within t w))) ≡ false)
      × ((is_some_and target (λ d. same_day d reference.today) ≡ false)
          ⊎ ((is_some_and preferred (λ t. ltb t (next_slot_boundary reference.now)) ≡ false)
              × (is_some_and window (λ w. ltb w.start (next_slot_boundary reference.now)) ≡ false)))

  resolve_time-IsTimely :
      (preferred : Option ℕ) (window : Option TimeWindow) (reference : Reference)
      (target : Option IsoDate)
      → is_some_and window is_inverted ≡ false
      → has_time normalize words (resolve_time preferred window reference target) ≡ true
      → let times = resolve_time preferred window reference target in
        IsTimely times.0 times.1.0 target reference
  unfolding resolve_time
  resolve_time-IsTimely none none reference target i h = ground (arith, i, h)
  resolve_time-IsTimely (some t) none reference target i h = ground (arith, i, h)
  resolve_time-IsTimely none (some w) reference target i h = ground (arith, i, h)
  resolve_time-IsTimely (some t) (some w) reference target i h = ground (arith, i, h)

  resolve_date-within :
      (d : Option IsoDate) (today : IsoDate)
      → is_some (resolve_date d today).0 ≡ true
      → (day : IsoDate) × (((resolve_date d today).0 ≡ some day)
          × ((ordinal today ≤ ordinal day) × (ordinal day ≤ ordinal today + max_days_ahead)))
  unfolding resolve_date
  resolve_date-within none today h = ground (arith, h)
  resolve_date-within (some d) today h = (d, ground (arith, h))

  ready_missing :
      (e : ReservationExtraction) (reference : Reference)
      → is_ready (validate normalize words e reference).status ≡ true
      → missing_in normalize words e reference ≡ []
  unfolding validate
  ready_missing e reference h =
      conclude-ready (draft normalize words e reference) (route_for e.action)
        (question_for normalize words e reference) (missing_in normalize words e reference)
        (λ s r m q. refl) h

  -- A ready intent of an extraction whose time window, if any, does not end before it starts: its
  -- date is from today to 365 days ahead, its preferred time, if both are given, is within its
  -- window, and if it is for today, neither its preferred time nor the start of its window is before
  -- the next slot.
  pub ready_intent-IsTimely :
      (e : ReservationExtraction) (reference : Reference)
      → is_ready (validate normalize words e reference).status ≡ true
      → is_some_and e.time_window is_inverted ≡ false
      → let i = validate normalize words e reference in
        ((day : IsoDate) × ((i.date ≡ some day)
            × ((ordinal reference.today ≤ ordinal day)
                × (ordinal day ≤ ordinal reference.today + max_days_ahead))))
        × IsTimely i.preferred_time i.time_window i.date reference
  unfolding validate
  ready_intent-IsTimely e reference h i =
      let m = ready_missing e reference h in
      let target = (resolve_date e.date reference.today).0 in
      let times = resolve_time e.preferred_time e.time_window reference target in
      let c =
        missing_of-IsComplete e (resolve_name normalize words e) target
          (has_time normalize words times) m in
      rw (m, validate)
        (
          resolve_date-within e.date reference.today c.date_known,
          resolve_time-IsTimely e.preferred_time e.time_window reference target i c.time_known,
        )
