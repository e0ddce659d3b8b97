-- ===== src/Offers/Within.antt =====
-- What the generated slots keep to.
use dibs_reservation_sniper.Prelude.{
  ℕ, zero, suc, ◌+◌, ◌-◌, ◌≤◌, ◌≡◌, refl, inl, inr, min, max, String, true, false, Option, none,
  some, List, [], ◌∷◌, arith, All, take-All, length, length-take-le, Bool-cases, Option-cases, ltb,
  leb, subst, ◌==◌, ◌&&◌, ◌<◌, ap,
}
use dibs_reservation_sniper.Model.{AvailabilityQuery, AvailabilitySlot, IsoDate, TimeWindow}
use dibs_reservation_sniper.Calendar.{ordinal}
use dibs_reservation_sniper.Venues.Holidays.{mem_text}
use dibs_reservation_sniper.Venues.Profiles.{OpeningHours, VenueProfile, hours_for, is_sold_out}
use dibs_reservation_sniper.Venues.Matching.{profile_for}
use dibs_reservation_sniper.Offers.Times.{
  candidate_times, grid_range, remove_time, prefer, snap_to_grid, mem_time, closes_at, stay_of,
}
use dibs_reservation_sniper.Offers.Generate.{slots_at, generate, slot_capacity}

abbrev Between : ℕ → ℕ → ℕ → Type 0
Between first last t = (first ≤ t) × (t ≤ last)

grid_range-All :
    (fuel first last low : ℕ) → low ≤ first → All (Between low last) (grid_range fuel first last)
unfolding grid_range
grid_range-All zero first last low l = tt
grid_range-All (suc fuel) first last low l = elim (Bool-cases (ltb last first)) [
  | inl e ↦ rw e tt
  | inr e ↦
      rw e ((l, ground (arith, e)), grid_range-All fuel (first + 15) last low (omega (arith, l)))
]

-- Fuel that reaches past the last time is enough: more of it changes nothing.
pub grid_range_enough :
    (fuel first last : ℕ)
    → last < first + fuel
    → grid_range (suc fuel) first last ≡ grid_range fuel first last
unfolding grid_range
grid_range_enough zero first last l = let e : ltb last first ≡ true = ground (arith, l) in rw e refl
grid_range_enough (suc fuel) first last l = elim (Bool-cases (ltb last first)) [
  | inl e ↦ rw e refl
  | inr e ↦
      rw e (ap (λ xs. first ∷ xs) (grid_range_enough fuel (first + 15) last (omega (arith, l))))
]

module _ (P : ℕ → Type 0) where
  remove_time-All : (t : ℕ) (xs : List ℕ) → All P xs → All P (remove_time t xs)
  unfolding remove_time
  remove_time-All t [] h = tt
  remove_time-All t (x ∷ xs) h = elim (Bool-cases (t == x)) [
    | inl e ↦ rw e (h.1)
    | inr e ↦ rw e (h.0, remove_time-All t xs h.1)
  ]

  mem-All : (t : ℕ) (xs : List ℕ) → mem_time t xs ≡ true → All P xs → P t
  mem-All t [] e h = ground (arith, e)
  mem-All t (x ∷ xs) e h = elim (Bool-cases (t == x)) [
    | inl q ↦ let same : x ≡ t = ground (arith, q) in subst P same h.0
    | inr q ↦ mem-All t xs (ground (arith, e, q)) h.1
  ]

  prefer-All : (preferred : Option ℕ) (xs : List ℕ) → All P xs → All P (prefer preferred xs)
  unfolding prefer
  prefer-All none xs h = h
  prefer-All (some t) xs h = elim (Bool-cases (mem_time t xs)) [
    | inl e ↦ rw e (mem-All t xs e h, remove_time-All t xs h)
    | inr e ↦ rw e h
  ]

map-All :
    {A : Type 0} (P Q : A → Type 0) (xs : List A) → ((x : A) → P x → Q x) → All P xs → All Q xs
map-All P Q [] f h = tt
map-All P Q (x ∷ xs) f h = (f x h.0, map-All P Q xs f h.1)

-- The reservation starts after the opening and ends by the closing.
abbrev pub InHours : AvailabilityQuery → VenueProfile → OpeningHours → ℕ → Type 0
InHours q p h t = (h.open_time ≤ t) × (t + stay_of q p ≤ closes_at h)

exact-InHours :
    (q : AvailabilityQuery) (p : VenueProfile) (h : OpeningHours)
    → q.time_window ≡ none
    → (length (candidate_times q p h) ≤ 16) × All (InHours q p h) (candidate_times q p h)
unfolding candidate_times
exact-InHours q p h e = elim (Bool-cases (ltb (closes_at h) (h.open_time + stay_of q p))) [
  | inl c ↦ rw c (omega arith, tt)
  | inr c ↦ elim (Option-cases q.preferred_time) [
    | inl f ↦ rw (c, e, f) (omega arith, tt)
    | inr (t, f) ↦
        let x = snap_to_grid t in
        elim (Bool-cases (leb h.open_time x && leb x (closes_at h - stay_of q p))) [
          | inl g ↦ rw (c, e, f, g) (omega arith, ((ground (arith, g), ground (arith, c, g)), tt))
          | inr g ↦ rw (c, e, f, g) (omega arith, tt)
        ]
  ]
]

window-InHours :
    (q : AvailabilityQuery) (p : VenueProfile) (h : OpeningHours) (w : TimeWindow)
    → q.time_window ≡ some w
    → (length (candidate_times q p h) ≤ 16) × All (InHours q p h) (candidate_times q p h)
unfolding candidate_times
window-InHours q p h w e = elim (Bool-cases (ltb (closes_at h) (h.open_time + stay_of q p))) [
  | inl c ↦ rw c (omega arith, tt)
  | inr c ↦
      let latest = closes_at h - stay_of q p in
      let first = max h.open_time (snap_to_grid w.start) in
      let last = min latest w.end in
      let times = prefer q.preferred_time (grid_range (suc last) first last) in
      let within =
        prefer-All (Between h.open_time last) q.preferred_time (grid_range (suc last) first last)
          (grid_range-All (suc last) first last h.open_time (omega arith)) in
      rw (c, e)
        (
          length-take-le 16 times,
          take-All (InHours q p h) 16 times (
              map-All (Between h.open_time last) (InHours q p h) times
                (λ t b. (b.0, ground (arith, c, b.1))) within),
        )
]

candidates-InHours :
    (q : AvailabilityQuery) (p : VenueProfile) (h : OpeningHours)
    → (length (candidate_times q p h) ≤ 16) × All (InHours q p h) (candidate_times q p h)
candidates-InHours q p h = elim (Option-cases q.time_window) [
  | inl e ↦ exact-InHours q p h e
  | inr (w, e) ↦ window-InHours q p h w e
]

-- A slot for the query's party, at a table that seats it and that the venue has, on a day on which
-- the venue is open and not sold out, from its opening on and over by its closing.
abbrev pub IsOffered : AvailabilityQuery → VenueProfile → AvailabilitySlot → Type 0
IsOffered q p s =
    ((s.party_size ≡ q.party_size)
      × ((q.party_size ≤ s.max_party_size) × (s.max_party_size ≤ p.max_party_size)))
    × ((is_sold_out p (ordinal q.date) ≡ false)
        × ((h : OpeningHours) × ((hours_for p (ordinal q.date) ≡ some h)
              × InHours q p h s.start_time)))

module _ (normalize : String → String) (words : String → List String) (casefold : String → String)
    (uuid_hex : String → String) (first_byte : String → ℕ) (date_text : IsoDate → String)
    (unavailable : List String) where
  capacity_le :
      (q : AvailabilityQuery) (t : ℕ) (p : VenueProfile)
      → slot_capacity normalize words casefold uuid_hex first_byte date_text unavailable q t p
        ≤ p.max_party_size
  unfolding slot_capacity
  capacity_le q t p = omega arith

  slots_at-IsOffered :
      (q : AvailabilityQuery) (p : VenueProfile) (h : OpeningHours) (ts : List ℕ)
      → is_sold_out p (ordinal q.date) ≡ false
      → hours_for p (ordinal q.date) ≡ some h
      → All (InHours q p h) ts
      → All
          (IsOffered q p)
          (slots_at normalize words casefold uuid_hex first_byte date_text unavailable q p ts)
        × (length
              (slots_at normalize words casefold uuid_hex first_byte date_text unavailable q p ts)
            ≤ length ts)
  unfolding slots_at
  slots_at-IsOffered q p h [] o e i = (tt, omega arith)
  slots_at-IsOffered q p h (t ∷ ts) o e i =
      let (rest, short) = slots_at-IsOffered q p h ts o e i.1 in
      let capacity =
        slot_capacity normalize words casefold uuid_hex first_byte date_text unavailable q t p in
      elim (Bool-cases (ltb capacity q.party_size)) [
        | inl c ↦ rw c (rest, omega (arith, short))
        | inr c ↦ rw c (
          (((refl, (ground (arith, c), capacity_le q t p)), (o, (h, (e, i.0)))), rest),
          omega (arith, short),
        )
      ]

  -- A query generates at most 16 slots. Each is for the query's party, at a table that seats it and
  -- is no larger than the venue allows; its day is neither sold out nor closed; and it starts from
  -- the opening on and ends by the closing, where a closing at or before the opening is on the next
  -- day.
  pub generate-IsOffered :
      (q : AvailabilityQuery)
      → let slots = generate normalize words casefold uuid_hex first_byte date_text unavailable q in
        (length slots ≤ 16) × All (IsOffered q (profile_for normalize words q.venue_name)) slots
  unfolding generate
  generate-IsOffered q =
      let p = profile_for normalize words q.venue_name in
      let day = ordinal q.date in
      elim (Bool-cases (mem_text (casefold q.venue_name) unavailable)) [
        | inl u ↦ rw u (omega arith, tt)
        | inr u ↦ elim (Bool-cases (is_sold_out p day)) [
          | inl o ↦ rw (u, o) (omega arith, tt)
          | inr o ↦ elim (Bool-cases (ltb p.max_party_size q.party_size)) [
            | inl b ↦ rw (u, o, b) (omega arith, tt)
            | inr b ↦ elim (Option-cases (hours_for p day)) [
              | inl e ↦ rw (u, o, b, e) (omega arith, tt)
              | inr (h, e) ↦
                  let (few, within) = candidates-InHours q p h in
                  let (offered, short) =
                    slots_at-IsOffered q p h (candidate_times q p h) o e within in
                  rw (u, o, b, e) (omega (arith, few, short), offered)
            ]
          ]
        ]
      ]
