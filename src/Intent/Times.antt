-- ===== src/Intent/Times.antt =====
-- The resolution of a date and of a time preference against the clock.
use dibs_reservation_sniper.Prelude.{
  ℕ, ◌+◌, ◌*◌, Bool, not, ◌&&◌, Option, none, some, ◌==◌, ltb, leb, if◌then◌else◌, is_some_and,
}
use dibs_reservation_sniper.Model.{IsoDate, TimeWindow, ceil_div}
use dibs_reservation_sniper.Calendar.{is_calendar_day, ordinal}

-- The reference time: a local day, and the minutes since its midnight.
pub record Reference : Type 0 where
  pub today : IsoDate
  pub now : ℕ

pub data DateProblem : Type 0 where
  impossible past too_far : DateProblem

pub data TimeProblem : Type 0 where
  invalid_window conflicting past_time : TimeProblem

abbrev pub max_days_ahead : ℕ
max_days_ahead = 365

date_known : IsoDate → IsoDate → Option IsoDate × Option DateProblem
date_known d today =
    if not (is_calendar_day d)
    then (none, some impossible)
    else if ltb (ordinal d) (ordinal today)
    then (none, some past)
    else if ltb (ordinal today + max_days_ahead) (ordinal d)
    then (none, some too_far)
    else (some d, none)

unfoldable pub resolve_date : Option IsoDate → IsoDate → Option IsoDate × Option DateProblem
unfolding date_known
resolve_date none today = (none, none)
resolve_date (some d) today = date_known d today

abbrev pub slot_interval_minutes : ℕ
slot_interval_minutes = 15

unfoldable pub next_slot_boundary : ℕ → ℕ
unfolding ceil_div
next_slot_boundary now =
    let rounded = ceil_div now slot_interval_minutes * slot_interval_minutes in
    if leb 1440 rounded then 1439 else rounded

abbrev pub same_day : IsoDate → IsoDate → Bool
same_day a b = a.year == b.year && (a.month == b.month && a.day == b.day)

abbrev pub is_inverted : TimeWindow → Bool
is_inverted w = ltb w.end w.start

abbrev pub is_within : ℕ → TimeWindow → Bool
is_within t w = leb w.start t && leb t w.end

abbrev Resolved : Type 0
Resolved = Option ℕ × (Option TimeWindow × Option TimeProblem)

-- The window of a time preference for today that has not passed, from the earliest slot on.
clip : Option ℕ → Option TimeWindow → ℕ → Resolved
clip preferred none earliest = (preferred, (none, none))
clip preferred (some w) earliest =
    if ltb w.end earliest
    then (none, (none, some past_time))
    else if ltb w.start earliest
    then (preferred, (some (record { start = earliest; end = w.end }), none))
    else (preferred, (some w, none))

against_clock : Option ℕ → Option TimeWindow → ℕ → Resolved
unfolding clip
against_clock preferred window earliest =
    if is_some_and preferred (λ t. ltb t earliest)
    then (none, (none, some past_time))
    else clip preferred window earliest

unfoldable pub resolve_time :
    Option ℕ
    → Option TimeWindow
    → Reference
    → Option IsoDate
    → Option ℕ × (Option TimeWindow × Option TimeProblem)
unfolding against_clock
resolve_time preferred window reference target =
    if is_some_and window is_inverted
    then (preferred, (none, some invalid_window))
    else if is_some_and window (λ w. is_some_and preferred (λ t. not (is_within t w)))
    then (preferred, (window, some conflicting))
    else if is_some_and target (λ d. same_day d reference.today)
    then against_clock preferred window (next_slot_boundary reference.now)
    else (preferred, (window, none))
