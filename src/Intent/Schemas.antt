-- ===== src/Intent/Schemas.antt =====
-- The extraction and the intent. The length and range limits of the fields that the intent takes
-- over are checked when the extraction is parsed, before the validator, and are left out; that of
-- the question, which the validator builds, is here.
use Prim.Native.String.{count}
use dibs_reservation_sniper.Prelude.{
  ℕ, leb, String, Bool, true, false, not, ◌&&◌, ◌||◌, Option, none, some, List, [], ◌∷◌, is_some,
  if◌then◌else◌,
}
use dibs_reservation_sniper.Model.{IsoDate, TimeWindow, VenueType}
use dibs_reservation_sniper.Calendar.{is_calendar_day}

pub data IntentAction : Type 0 where
  book_reservation search_availability create_watch : IntentAction

pub data IntentStatus : Type 0 where
  ready needs_clarification : IntentStatus

pub data OrchestratorRoute : Type 0 where
  booking_service watch_service clarification : OrchestratorRoute

pub data MissingField : Type 0 where
  action venue_name party_size date time : MissingField

pub record ReservationExtraction : Type 0 where
  pub action : Option IntentAction
  pub venue_name : Option String
  pub venue_type : VenueType
  pub party_size : Option ℕ
  pub date : Option IsoDate
  pub preferred_time : Option ℕ
  pub time_window : Option TimeWindow
  pub duration_minutes : Option ℕ
  pub special_requests : List String

pub record ReservationIntent : Type 0 where
  pub status : IntentStatus
  pub route : OrchestratorRoute
  pub action : Option IntentAction
  pub venue_name : Option String
  pub venue_type : VenueType
  pub market : String
  pub party_size : Option ℕ
  pub date : Option IsoDate
  pub preferred_time : Option ℕ
  pub time_window : Option TimeWindow
  pub duration_minutes : Option ℕ
  pub special_requests : List String
  pub missing_fields : List MissingField
  pub clarification_question : Option String

abbrev pub is_ready : IntentStatus → Bool
is_ready ready = true
is_ready needs_clarification = false

abbrev pub is_clarification : OrchestratorRoute → Bool
is_clarification clarification = true
is_clarification _ = false

abbrev pub no_fields : List MissingField → Bool
no_fields [] = true
no_fields (f ∷ fs) = false

-- `validate_calendar_date`: `false` is the error that it raises.
abbrev pub validate_calendar_date : Option IsoDate → Bool
validate_calendar_date none = true
validate_calendar_date (some d) = is_calendar_day d

-- The length of a clarification question, in characters: `false` is the field's error.
abbrev pub validate_question : Option String → Bool
validate_question none = true
validate_question (some q) = leb 1 (count q) && leb (count q) 400

-- `validate_state`: `false` is one of its five errors.
unfoldable pub validate_state : ReservationIntent → Bool
validate_state i =
    let has_time = is_some i.preferred_time || is_some i.time_window in
    let required =
      is_some i.action
      && (is_some i.venue_name && (is_some i.party_size && (is_some i.date && has_time))) in
    if is_ready i.status
    then required
      && (not (is_clarification i.route)
          && (no_fields i.missing_fields && not (is_some i.clarification_question)))
    else is_clarification i.route
      && (not (no_fields i.missing_fields) && is_some i.clarification_question)
