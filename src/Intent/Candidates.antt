-- ===== src/Intent/Candidates.antt =====
-- The names that a user is asked about, and how many fields may be missing.
use dibs_reservation_sniper.Prelude.{
  ℕ, suc, ◌≤◌, String, Option, none, some, List, [], ◌∷◌, arith, length, map, All, Bool, true,
  false, Bool-cases, inl, not, ◌||◌, is_some, inr, str_eq,
}
use dibs_reservation_sniper.Venues.Profiles.{Venue}
use dibs_reservation_sniper.Venues.Catalogue.{venue_catalog}
use dibs_reservation_sniper.Venues.Matching.{
  VenueResolution, VenueResolutionStatus, resolve_venue, decide, keep, by_tokens, match_tokens,
  is_exact, is_partial, unresolved,
}
use dibs_reservation_sniper.Model.{IsoDate}
use dibs_reservation_sniper.Intent.Validator.{
  ResolvedVenue, resolve_name, named, missing_if, missing_of, passed_through, no_names,
}
use dibs_reservation_sniper.Intent.Schemas.{
  ReservationExtraction, MissingField, action, venue_name, party_size, date, time,
}
use dibs_reservation_sniper.Intent.Lengths.{IsShort}

catalog-IsShort : All (λ v. IsShort v.name) venue_catalog
unfolding venue_catalog
catalog-IsShort = (
  omega arith,
  (
    omega arith,
    (
      omega arith,
      (omega arith, (omega arith, (omega arith, (omega arith, (omega arith, (omega arith, tt)))))),
    ),
  ),
)

names-IsShort :
    (P : Venue → Type 0) (vs : List Venue)
    → ((v : Venue) → P v → IsShort v.name)
    → All P vs
    → All IsShort (map (λ v. v.name) vs)
names-IsShort P [] f h = tt
names-IsShort P (v ∷ vs) f h = (f v h.0, names-IsShort P vs f h.1)

module _ (P : Venue → Type 0) where
  keep-All : (p : Venue → Bool) (vs : List Venue) → All P vs → All P (keep p vs)
  keep-All p [] h = tt
  keep-All p (v ∷ vs) h =
      let rest = keep-All p vs h.1 in
      elim (Bool-cases (p v)) [ inl e ↦ rw e (h.0, rest) | inr e ↦ rw e rest ]

  decide-All :
      (vs : List Venue) (other : VenueResolution)
      → All P vs
      → All P other.candidates
      → All P (decide vs other).candidates
  decide-All [] other h o = o
  decide-All (v ∷ []) other h o = h
  decide-All (v ∷ w ∷ vs) other h o = h

  module _ (normalize : String → String) (words : String → List String)
      (h : All P venue_catalog) where
    tokens-All : (ts : List String) → All P (by_tokens normalize words ts).candidates
    tokens-All [] = tt
    tokens-All (t ∷ ts) =
        let p = is_partial normalize words (t ∷ ts) in
        decide-All (keep p venue_catalog) unresolved (keep-All p venue_catalog h) tt

    resolve_venue-All : (name : String) → All P (resolve_venue normalize words name).candidates
    unfolding resolve_venue
    resolve_venue-All name =
        let p = is_exact normalize words (normalize name) in
        let found =
          decide-All (keep p venue_catalog)
            (by_tokens normalize words (match_tokens normalize words name))
            (keep-All p venue_catalog h) (tokens-All (match_tokens normalize words name)) in
        elim (Bool-cases (str_eq (normalize name) "")) [ inl e ↦ rw e tt | inr e ↦ rw e found ]

named-IsShort :
    (e : ReservationExtraction) (status : VenueResolutionStatus) (venue : Option Venue)
    (cs : List Venue)
    → All (λ v. IsShort v.name) cs
    → All IsShort (named e (record { status = status; venue = venue; candidates = cs })).candidates
named-IsShort e VenueResolutionStatus.resolved none cs h = tt
named-IsShort e VenueResolutionStatus.resolved (some v) cs h = tt
named-IsShort e VenueResolutionStatus.unknown venue cs h = tt
named-IsShort e VenueResolutionStatus.ambiguous venue cs h =
    names-IsShort (λ v. IsShort v.name) cs (λ v s. s) h

-- The names that a user is asked about are those of the catalogue.
pub candidates-IsShort :
    (normalize : String → String) (words : String → List String) (e : ReservationExtraction)
    → All IsShort (resolve_name normalize words e).candidates
unfolding resolve_name
candidates-IsShort normalize words e =
    elim e.venue_name
      as (λ o.
        All IsShort
          (elim o as (λ x. ResolvedVenue) [
            | none ↦ passed_through e []
            | some n ↦ named e (resolve_venue normalize words n)
          ]).candidates) [
            | none ↦ tt
            | some n ↦
                let r = resolve_venue normalize words n in
                named-IsShort e r.status r.venue r.candidates
                  (resolve_venue-All (λ v. IsShort v.name) normalize words catalog-IsShort n)
          ]

missing_if-length :
    (b : Bool) (f : MissingField) (fs : List MissingField) (n : ℕ)
    → length fs ≤ n
    → length (missing_if b f fs) ≤ suc n
missing_if-length true f fs n h = omega (arith, h)
missing_if-length false f fs n h = omega (arith, h)

-- At most the five fields are missing.
pub missing_of-length :
    (normalize : String → String) (words : String → List String) (e : ReservationExtraction)
    (venue : ResolvedVenue) (target : Option IsoDate) (timed : Bool)
    → length (missing_of normalize words e venue target timed) ≤ 5
missing_of-length normalize words e venue target timed =
    let times = missing_if (not timed) time [] in
    let dates = missing_if (not (is_some target)) date times in
    let parties = missing_if (not (is_some e.party_size)) party_size dates in
    let unnamed = not (is_some venue.name) || not (no_names venue.candidates) in
    let venues = missing_if unnamed venue_name parties in
    missing_if-length (not (is_some e.action)) action venues 4 (
      missing_if-length unnamed venue_name parties 3 (
        missing_if-length (not (is_some e.party_size)) party_size dates 2 (
          missing_if-length (not (is_some target)) date times 1
            (missing_if-length (not timed) time [] 0 (omega arith)))))
