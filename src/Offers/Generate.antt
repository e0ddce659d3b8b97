-- ===== src/Offers/Generate.antt =====
-- `MockBookingAdapter._generate`. Case folding, UUIDs, SHA-256 and the text of a date are Python's:
-- `first_byte` is the first byte of a text's digest.
use Prim.Native.String.{◌++◌ as str_append}
use dibs_reservation_sniper.Prelude.{
  ℕ, ◌+◌, ◌/◌, ◌%◌, min, String, ◌||◌, Option, none, some, List, [], ◌∷◌, ltb, ◌==◌, if◌then◌else◌,
}
use dibs_reservation_sniper.Text.{decimal}
use dibs_reservation_sniper.Model.{AvailabilityQuery, AvailabilitySlot, IsoDate}
use dibs_reservation_sniper.Calendar.{ordinal}
use dibs_reservation_sniper.Venues.Holidays.{mem_text}
use dibs_reservation_sniper.Venues.Profiles.{OpeningHours, VenueProfile, hours_for, is_sold_out}
use dibs_reservation_sniper.Venues.Matching.{profile_for}
use dibs_reservation_sniper.Offers.Times.{candidate_times, minutes_per_day}

two_digits : ℕ → String
two_digits n = if ltb n 10 then str_append "0" (decimal n) else decimal n

unfoldable pub from_minutes : ℕ → String
unfolding two_digits
from_minutes value = str_append (two_digits (value / 60)) (str_append ":" (two_digits (value % 60)))

-- `SLOT_CAPACITIES[i]` for i below 5
abbrev capacity_at : ℕ → ℕ
capacity_at i =
    if i == 0 then 2 else if i == 1 then 4 else if i == 2 then 6 else if i == 3 then 8 else 10

abbrev end_time : ℕ → Option ℕ → Option ℕ
end_time start_time none = none
end_time start_time (some duration) = some ((start_time + duration) % minutes_per_day)

bar_joined : List String → String
bar_joined [] = ""
bar_joined (x ∷ []) = x
bar_joined (x ∷ y ∷ xs) = str_append x (str_append "|" (bar_joined (y ∷ xs)))

abbrev duration_text : Option ℕ → String
duration_text none = "none"
duration_text (some n) = if n == 0 then "none" else decimal n

module _ (normalize : String → String) (words : String → List String) (casefold : String → String)
    (uuid_hex : String → String) (first_byte : String → ℕ) (date_text : IsoDate → String)
    (unavailable_venues : List String) where
  unfoldable pub slot_capacity : AvailabilityQuery → ℕ → VenueProfile → ℕ
  unfolding bar_joined from_minutes
  slot_capacity q start_time p =
      let identity =
        bar_joined (casefold q.venue_name ∷ date_text q.date ∷ from_minutes start_time ∷ []) in
      min (capacity_at (first_byte identity % 5)) p.max_party_size

  slot_at : AvailabilityQuery → ℕ → ℕ → AvailabilitySlot
  unfolding bar_joined from_minutes
  slot_at q start_time capacity =
      let identity = bar_joined (
        q.market
        ∷ casefold q.venue_name
        ∷ date_text q.date
        ∷ from_minutes start_time
        ∷ decimal q.party_size
        ∷ duration_text q.duration_minutes
        ∷ []) in
      record {
        slot_id = str_append "mock_" (uuid_hex identity);
        provider = "mock";
        venue_name = q.venue_name;
        venue_type = q.venue_type;
        date = q.date;
        start_time = start_time;
        end_time = end_time start_time q.duration_minutes;
        party_size = q.party_size;
        max_party_size = capacity;
      }

  unfoldable pub slots_at : AvailabilityQuery → VenueProfile → List ℕ → List AvailabilitySlot
  unfolding slot_at
  slots_at q p [] = []
  slots_at q p (t ∷ ts) =
      let rest = slots_at q p ts in
      if ltb (slot_capacity q t p) q.party_size
      then rest
      else slot_at q t (slot_capacity q t p) ∷ rest

  slots_open : AvailabilityQuery → VenueProfile → Option OpeningHours → List AvailabilitySlot
  unfolding slots_at
  slots_open q p none = []
  slots_open q p (some h) = slots_at q p (candidate_times q p h)

  -- The date of a query is a day of the calendar, so reading it does not raise.
  unfoldable pub generate : AvailabilityQuery → List AvailabilitySlot
  unfolding slots_open
  generate q =
      let p = profile_for normalize words q.venue_name in
      let day = ordinal q.date in
      if mem_text (casefold q.venue_name) unavailable_venues
      then []
      else if is_sold_out p day || ltb p.max_party_size q.party_size
      then []
      else slots_open q p (hours_for p day)
