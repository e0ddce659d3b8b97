-- ===== src/Intent/Validator.antt =====
-- `IntentValidator.validate`. The normalization of names is that of the venue catalogue.
use dibs_reservation_sniper.Prelude.{
  ℕ, String, Bool, true, false, not, ◌&&◌, ◌||◌, Option, none, some, List, [], ◌∷◌, map, is_some,
}
use dibs_reservation_sniper.Model.{VenueType, TimeWindow, IsoDate}
use dibs_reservation_sniper.Venues.Matching.{
  VenueResolution, resolved, ambiguous, unknown, resolve_venue,
}
use dibs_reservation_sniper.Intent.Schemas.{
  IntentAction, create_watch, IntentStatus, OrchestratorRoute, MissingField, ReservationExtraction,
  ReservationIntent,
}
use dibs_reservation_sniper.Intent.Times.{
  Reference, DateProblem, TimeProblem, conflicting, resolve_date, resolve_time,
}
use dibs_reservation_sniper.Intent.Questions.{build_question}

abbrev pub market : String
market = "Kitchener-Waterloo-Cambridge, ON"

abbrev pub route_for : Option IntentAction → OrchestratorRoute
route_for (some create_watch) = OrchestratorRoute.watch_service
route_for _ = OrchestratorRoute.booking_service

abbrev pub is_conflicting : Option TimeProblem → Bool
is_conflicting (some conflicting) = true
is_conflicting _ = false

abbrev pub no_names : List String → Bool
no_names [] = true
no_names (x ∷ xs) = false

-- The field is among the missing ones if the test holds.
abbrev pub missing_if : Bool → MissingField → List MissingField → List MissingField
missing_if true f fs = f ∷ fs
missing_if false f fs = fs

pub record ResolvedVenue : Type 0 where
  pub name : Option String
  pub kind : VenueType
  pub candidates : List String

abbrev pub passed_through : ReservationExtraction → List String → ResolvedVenue
passed_through e candidates = record {
  name = e.venue_name;
  kind = e.venue_type;
  candidates = candidates;
}

-- A resolved resolution always has its venue.
abbrev pub named : ReservationExtraction → VenueResolution → ResolvedVenue
named e r = elim r.status [
  | resolved ↦ elim r.venue [
    | none ↦ passed_through e []
    | some v ↦ record { name = some v.name; kind = v.venue_type; candidates = [] }
  ]
  | ambiguous ↦ passed_through e (map (λ v. v.name) r.candidates)
  | unknown ↦ passed_through e []
]

-- Nothing is missing, or the user is asked.
abbrev pub conclude :
    (IntentStatus → OrchestratorRoute → List MissingField → Option String → ReservationIntent)
    → OrchestratorRoute
    → (List MissingField → String)
    → List MissingField
    → ReservationIntent
conclude intent route question [] = intent IntentStatus.ready route [] none
conclude intent route question (f ∷ fs) =
    intent IntentStatus.needs_clarification OrchestratorRoute.clarification (f ∷ fs)
      (some (question (f ∷ fs)))

module _ (normalize : String → String) (words : String → List String) where
  -- `_resolve_venue`
  unfoldable pub resolve_name : ReservationExtraction → ResolvedVenue
  resolve_name e = elim e.venue_name [
    | none ↦ passed_through e []
    | some n ↦ named e (resolve_venue normalize words n)
  ]

  abbrev pub missing_of :
      ReservationExtraction → ResolvedVenue → Option IsoDate → Bool → List MissingField
  missing_of e venue target has_time = missing_if (not (is_some e.action)) MissingField.action (
      missing_if (not (is_some venue.name) || not (no_names venue.candidates))
        MissingField.venue_name
        (missing_if (not (is_some e.party_size)) MissingField.party_size (
          missing_if (not (is_some target)) MissingField.date
            (missing_if (not has_time) MissingField.time []))))

  -- The intent with the fields that both of its kinds share.
  abbrev pub intent_of :
      ReservationExtraction
      → ResolvedVenue
      → Option IsoDate
      → Option ℕ
      → Option TimeWindow
      → IntentStatus
      → OrchestratorRoute
      → List MissingField
      → Option String
      → ReservationIntent
  intent_of e venue target preferred window status route missing question = record {
    status = status;
    route = route;
    action = e.action;
    venue_name = venue.name;
    venue_type = venue.kind;
    market = market;
    party_size = e.party_size;
    date = target;
    preferred_time = preferred;
    time_window = window;
    duration_minutes = e.duration_minutes;
    special_requests = e.special_requests;
    missing_fields = missing;
    clarification_question = question;
  }

  abbrev pub has_time : Option ℕ × (Option TimeWindow × Option TimeProblem) → Bool
  has_time (preferred, (window, problem)) =
      (is_some preferred || is_some window) && not (is_conflicting problem)

  abbrev pub target_of : ReservationExtraction → Reference → Option IsoDate × Option DateProblem
  target_of e reference = resolve_date e.date reference.today

  abbrev pub times_of :
      ReservationExtraction → Reference → Option ℕ × (Option TimeWindow × Option TimeProblem)
  times_of e reference =
      resolve_time e.preferred_time e.time_window reference (target_of e reference).0

  abbrev pub missing_in : ReservationExtraction → Reference → List MissingField
  missing_in e reference =
      missing_of e (resolve_name e) (target_of e reference).0 (has_time (times_of e reference))

  abbrev pub draft :
      ReservationExtraction
      → Reference
      → IntentStatus
      → OrchestratorRoute
      → List MissingField
      → Option String
      → ReservationIntent
  draft e reference =
      intent_of e (resolve_name e) (target_of e reference).0 (times_of e reference).0
        (times_of e reference).1.0

  abbrev pub question_for : ReservationExtraction → Reference → List MissingField → String
  question_for e reference fields =
      build_question fields (target_of e reference).1 (times_of e reference).1.1
        (resolve_name e).candidates

  unfoldable pub validate : ReservationExtraction → Reference → ReservationIntent
  validate e reference =
      conclude (draft e reference) (route_for e.action) (question_for e reference)
        (missing_in e reference)
