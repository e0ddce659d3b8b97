-- ===== src/Tests/Requests.antt =====
-- The theorems on the venues, the validator and the coordinator at concrete inputs.
use dibs_reservation_sniper.Prelude.{
  ℕ, ◌≤◌, ◌+◌, ◌≡◌, ◌⊎◌, refl, String, true, false, none, some, List, [], ◌∷◌, arith, Option,
  is_some, is_some_and, ltb, length, All,
}
use dibs_reservation_sniper.Dict.{get, put}
use dibs_reservation_sniper.Model.{
  AvailabilitySlot, IsoDate, VenueType, ScheduleMarker, is_active, is_exhausted,
}
use dibs_reservation_sniper.Calendar.{
  date, is_calendar_day, ordinal, days_in_month, is_leap, days_of_months, days_before_year,
}
use dibs_reservation_sniper.Venues.Holidays.{mem_text}
use dibs_reservation_sniper.Venues.Matching.{resolve_venue, match_tokens, IsDecided}
use dibs_reservation_sniper.Venues.Resolved.{Matches, Covers, resolve_venue-IsDecided}
use dibs_reservation_sniper.Venues.Catalogue.{venue_catalog}
use dibs_reservation_sniper.Intent.Schemas.{
  IntentAction, ReservationExtraction, validate_state, validate_calendar_date, validate_question,
}
use dibs_reservation_sniper.Intent.Times.{
  Reference, resolve_date, resolve_time, next_slot_boundary, max_days_ahead,
}
use dibs_reservation_sniper.Intent.Validator.{validate, resolve_name}
use dibs_reservation_sniper.Intent.Sound.{validate-valid, ready_intent-IsTimely, IsTimely}
use dibs_reservation_sniper.Reconcile.Ports.{CoordinatorSettings}
use dibs_reservation_sniper.Reconcile.Pass.{Action, reconcile_one}
use dibs_reservation_sniper.Reconcile.Mended.{memory_ports, reconcile_one_mends}
use dibs_reservation_sniper.Dispatcher.{DispatchSweepResult}
use dibs_reservation_sniper.Repo.{Repo, candidate, create_with_schedule, new_repo, set_marker}
use dibs_reservation_sniper.Venues.Matching.{profile_for}
use dibs_reservation_sniper.Offers.Generate.{generate}
use dibs_reservation_sniper.Offers.Within.{IsOffered, generate-IsOffered}
use dibs_reservation_sniper.Tests.Data.{some_query, same_text, some_day, some_watch, created}

-- Stands for the splitting of text: one word.
abbrev one_word : String → List String
one_word s = s ∷ []

resolve_venue-IsDecided_example :
    IsDecided
      (Matches same_text one_word "bauer" (match_tokens same_text one_word "bauer"))
      (Covers same_text one_word "bauer" (match_tokens same_text one_word "bauer"))
      (resolve_venue same_text one_word "bauer")
resolve_venue-IsDecided_example = resolve_venue-IsDecided same_text one_word "bauer" refl

-- A dinner today at seven, of a watch for two.
abbrev dinner : ReservationExtraction
dinner = record {
  action = some IntentAction.create_watch;
  venue_name = some "bauer";
  venue_type = VenueType.restaurant;
  party_size = some 2;
  date = some some_day;
  preferred_time = some 1140;
  time_window = none;
  duration_minutes = none;
  special_requests = [];
}

abbrev noon : Reference
noon = record { today = some_day; now = 720 }

validate-valid_example :
    let i = validate same_text one_word dinner noon in
    (validate_state i ≡ true)
    × ((validate_calendar_date i.date ≡ true) × (validate_question i.clarification_question ≡ true))
validate-valid_example = validate-valid same_text one_word dinner noon

ready_intent-IsTimely_example :
    (let i = validate same_text one_word dinner noon in
      ((day : IsoDate) × ((i.date ≡ some day)
          × ((ordinal some_day ≤ ordinal day) × (ordinal day ≤ ordinal some_day + max_days_ahead))))
      × IsTimely same_text one_word i.preferred_time i.time_window i.date noon)
unfolding validate resolve_name resolve_venue venue_catalog resolve_date resolve_time mem_text
    is_calendar_day days_in_month is_leap next_slot_boundary ordinal date days_of_months
    days_before_year match_tokens
ready_intent-IsTimely_example = ready_intent-IsTimely same_text one_word dinner noon refl refl

abbrev idle : Repo → Repo × Option DispatchSweepResult
idle s = (s, none)

abbrev coordinator : CoordinatorSettings
coordinator = record {
  owner_id = "a";
  distributed = false;
  leader_lease = 1000;
  earliest_delay = 1000;
  cleanup_batch_size = 256;
}

-- The created watch of the store, which has lost its marker.
abbrev unmarked : Repo
unmarked = record created { markers = [] }

reconcile_one_mends_example :
    let (s', action) =
      reconcile_one
        (memory_ports same_text 20 idle)
        coordinator
        unmarked
        (candidate unmarked 15 "w" some_watch)
        10 in
    ((is_exhausted some_watch 10 ≡ true)
      × ((action ≡ some Action.expired)
          × (is_some_and (get s'.watches "w") (λ v. is_active v.status) ≡ false)))
    ⊎ (((s' ≡ unmarked)
          × ((is_some_and (get unmarked.claims "w") (λ held. ltb 15 held.expires_at) ≡ true)
              ⊎ (is_some (get unmarked.markers "w") ≡ true)))
        ⊎ ((action ≡ some Action.synthesized)
            × ((m : ScheduleMarker) × ((get s'.markers "w" ≡ some m)
                  × (m.scheduled_for ≤ some_watch.expires_at)))))
unfolding create_with_schedule new_repo set_marker get put
reconcile_one_mends_example =
    reconcile_one_mends same_text 20 idle coordinator unmarked "w" some_watch 10 15 refl refl
      (omega arith) (omega arith)

-- Stand for the digest and for the text of a date.
abbrev no_byte : String → ℕ
no_byte s = 0

abbrev no_text : IsoDate → String
no_text d = ""

abbrev offers : List AvailabilitySlot
offers = generate same_text one_word same_text same_text no_byte no_text [] some_query

generate-IsOffered_example :
    (length offers ≤ 16)
    × All (IsOffered some_query (profile_for same_text one_word some_query.venue_name)) offers
generate-IsOffered_example =
    generate-IsOffered same_text one_word same_text same_text no_byte no_text [] some_query
