-- ===== src/Offers/Times.antt =====
-- The start times of `MockBookingAdapter._candidate_times`, in minutes since midnight.
use dibs_reservation_sniper.Prelude.{
  ℕ, zero, suc, ◌+◌, ◌-◌, ◌*◌, ◌%◌, min, max, Bool, false, ◌&&◌, ◌||◌, Option, none, some, List, [],
  ◌∷◌, take, ◌==◌, ltb, leb, if◌then◌else◌,
}
use dibs_reservation_sniper.Model.{AvailabilityQuery, TimeWindow}
use dibs_reservation_sniper.Venues.Profiles.{OpeningHours, VenueProfile}

abbrev pub grid : ℕ
grid = 15

abbrev pub max_generated_slots : ℕ
max_generated_slots = 16

abbrev pub minutes_per_day : ℕ
minutes_per_day = 1440

-- `n or d`: zero is false too.
abbrev pub or_positive : Option ℕ → ℕ → ℕ
or_positive none d = d
or_positive (some n) d = if n == 0 then d else n

unfoldable pub snap_to_grid : ℕ → ℕ
snap_to_grid minutes =
    let offset = minutes % grid in
    if offset == 0
    then minutes
    else if leb (offset * 2) grid
    then minutes - offset
    else minutes - offset + grid

-- A closing time at or before the opening is on the next day.
abbrev pub closes_at : OpeningHours → ℕ
closes_at h = if leb h.close_time h.open_time then h.close_time + minutes_per_day else h.close_time

abbrev pub stay_of : AvailabilityQuery → VenueProfile → ℕ
stay_of q p = or_positive q.duration_minutes p.minimum_stay_minutes

-- `range(first, last + 1, 15)`; the fuel is a bound on its length.
unfoldable pub grid_range : ℕ → ℕ → ℕ → List ℕ
grid_range zero first last = []
grid_range (suc fuel) first last =
    let rest = grid_range fuel (first + grid) last in if ltb last first then [] else first ∷ rest

abbrev pub mem_time : ℕ → List ℕ → Bool
mem_time t [] = false
mem_time t (x ∷ xs) = t == x || mem_time t xs

-- `list.remove`: the first occurrence
unfoldable pub remove_time : ℕ → List ℕ → List ℕ
remove_time t [] = []
remove_time t (x ∷ xs) = let rest = remove_time t xs in if t == x then xs else x ∷ rest

unfoldable pub prefer : Option ℕ → List ℕ → List ℕ
unfolding remove_time
prefer none times = times
prefer (some t) times = if mem_time t times then t ∷ remove_time t times else times

exact_time : Option ℕ → ℕ → ℕ → List ℕ
unfolding snap_to_grid
exact_time none opens latest_start = []
exact_time (some t) opens latest_start =
    if leb opens (snap_to_grid t) && leb (snap_to_grid t) latest_start
    then snap_to_grid t ∷ []
    else []

times_within : Option ℕ → Option TimeWindow → ℕ → ℕ → List ℕ
unfolding exact_time grid_range prefer snap_to_grid
times_within preferred none opens latest_start = exact_time preferred opens latest_start
times_within preferred (some w) opens latest_start =
    let first = max opens (snap_to_grid w.start) in
    let last = min latest_start w.end in
    take max_generated_slots (prefer preferred (grid_range (suc last) first last))

unfoldable pub candidate_times : AvailabilityQuery → VenueProfile → OpeningHours → List ℕ
unfolding times_within
candidate_times q p h =
    if ltb (closes_at h) (h.open_time + stay_of q p)
    then []
    else times_within q.preferred_time q.time_window h.open_time (closes_at h - stay_of q p)
