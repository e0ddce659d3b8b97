-- ===== src/Venues/Profiles.antt =====
-- The scheduling rules of a venue and its weekly hours. A time is its minutes since midnight.
use dibs_reservation_sniper.Prelude.{
  ℕ, zero, suc, String, Bool, false, Option, none, some, List, [], ◌∷◌, ◌++◌, if◌then◌else◌,
}
use dibs_reservation_sniper.Model.{VenueType}
use dibs_reservation_sniper.Calendar.{weekday}
use dibs_reservation_sniper.Venues.Holidays.{
  mem_day, statutory_closures, recreation_closures, common_sellout_dates, recreation_sellout_dates,
}

pub record OpeningHours : Type 0 where
  pub open_time : ℕ
  pub close_time : ℕ

pub record VenueProfile : Type 0 where
  pub weekly_hours : List (Option OpeningHours)
  pub max_party_size : ℕ
  pub minimum_stay_minutes : ℕ
  pub closed_dates : List ℕ
  pub sold_out_dates : List ℕ

pub record Venue : Type 0 where
  pub name : String
  pub venue_type : VenueType
  pub profile : VenueProfile
  pub aliases : List String

abbrev hours_at : List (Option OpeningHours) → ℕ → Option OpeningHours
hours_at [] n = none
hours_at (h ∷ hs) zero = h
hours_at (h ∷ hs) (suc n) = hours_at hs n

unfoldable pub hours_for : VenueProfile → ℕ → Option OpeningHours
hours_for p day = if mem_day day p.closed_dates then none else hours_at p.weekly_hours (weekday day)

unfoldable pub is_sold_out : VenueProfile → ℕ → Bool
is_sold_out p day = mem_day day p.sold_out_dates

abbrev pub hours : ℕ → ℕ → Option OpeningHours
hours open_time close_time = some (record { open_time = open_time; close_time = close_time })

-- `h or d`: an `OpeningHours` is never false.
abbrev or_hours : Option OpeningHours → Option OpeningHours → Option OpeningHours
or_hours none d = d
or_hours (some h) d = some h

unfoldable pub week :
    (weekday friday saturday sunday monday : Option OpeningHours) (monday_closed : Bool)
    → List (Option OpeningHours)
week weekday friday saturday sunday monday monday_closed =
    let on_friday = or_hours friday weekday in
    let on_monday = if monday_closed then none else or_hours monday weekday in
    on_monday
    ∷ weekday
    ∷ weekday
    ∷ weekday
    ∷ on_friday
    ∷ or_hours saturday on_friday
    ∷ or_hours sunday weekday
    ∷ []

unfoldable pub restaurant_profile : List (Option OpeningHours) → ℕ → List ℕ → VenueProfile
restaurant_profile weekly_hours max_party_size extra_closures = record {
  weekly_hours = weekly_hours;
  max_party_size = max_party_size;
  minimum_stay_minutes = 90;
  closed_dates = statutory_closures ++ extra_closures;
  sold_out_dates = common_sellout_dates;
}

unfoldable pub recreation_profile : List (Option OpeningHours) → ℕ → VenueProfile
recreation_profile weekly_hours max_party_size = record {
  weekly_hours = weekly_hours;
  max_party_size = max_party_size;
  minimum_stay_minutes = 60;
  closed_dates = recreation_closures;
  sold_out_dates = recreation_sellout_dates;
}

unfoldable pub default_venue_profile : VenueProfile
unfolding week
default_venue_profile = record {
  weekly_hours = week (hours 660 1320) (hours 660 1380) none none none false;
  max_party_size = 12;
  minimum_stay_minutes = 90;
  closed_dates = statutory_closures;
  sold_out_dates = common_sellout_dates;
}
