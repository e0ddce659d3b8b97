-- ===== src/Venues/Matching.antt =====
-- The resolution of a typed name. Unicode normalization and the splitting of text into words are
-- Python's, so they are arguments.
use dibs_reservation_sniper.Prelude.{
  String, Bool, true, false, ◌&&◌, ◌||◌, Option, none, some, List, [], ◌∷◌, str_eq, if◌then◌else◌,
  map, ◌≡◌, ◌≤◌, length, All,
}
use dibs_reservation_sniper.Venues.Holidays.{mem_text}
use dibs_reservation_sniper.Venues.Profiles.{Venue, VenueProfile, default_venue_profile}
use dibs_reservation_sniper.Venues.Catalogue.{venue_catalog}

pub data VenueResolutionStatus : Type 0 where
  resolved ambiguous unknown : VenueResolutionStatus

pub record VenueResolution : Type 0 where
  pub status : VenueResolutionStatus
  pub venue : Option Venue
  pub candidates : List Venue

abbrev ignored_words : List String
ignored_words = "the" ∷ "and" ∷ "of" ∷ "at" ∷ "a" ∷ []

-- A set difference, of sets as lists.
abbrev without : List String → List String → List String
without [] ys = []
without (x ∷ xs) ys = let rest = without xs ys in if mem_text x ys then rest else x ∷ rest

-- `xs <= ys` of sets
abbrev subset : List String → List String → Bool
subset [] ys = true
subset (x ∷ xs) ys = mem_text x ys && subset xs ys

abbrev pub keep : (Venue → Bool) → List Venue → List Venue
keep p [] = []
keep p (v ∷ vs) = let rest = keep p vs in if p v then v ∷ rest else rest

abbrev pub unresolved : VenueResolution
unresolved = record { status = VenueResolutionStatus.unknown; venue = none; candidates = [] }

-- One match is the answer, several are a question, and none leaves it to the next attempt.
abbrev pub decide : List Venue → VenueResolution → VenueResolution
decide [] other = other
decide (v ∷ []) other = record {
  status = VenueResolutionStatus.resolved;
  venue = some v;
  candidates = v ∷ [];
}
decide (v ∷ w ∷ vs) other = record {
  status = VenueResolutionStatus.ambiguous;
  venue = none;
  candidates = v ∷ w ∷ vs;
}

module _ (normalize : String → String) (words : String → List String) where
  abbrev pub match_tokens : String → List String
  match_tokens value = without (words (normalize value)) ignored_words

  abbrev venue_keys : Venue → List String
  venue_keys v = normalize v.name ∷ map normalize v.aliases

  abbrev pub is_exact : String → Venue → Bool
  is_exact query v = mem_text query (venue_keys v)

  abbrev any_key : List String → List String → Bool
  any_key tokens [] = false
  any_key tokens (key ∷ keys) = subset tokens (match_tokens key) || any_key tokens keys

  abbrev pub is_partial : List String → Venue → Bool
  is_partial tokens v = any_key tokens (v.name ∷ v.aliases)

  abbrev pub by_tokens : List String → VenueResolution
  by_tokens [] = unresolved
  by_tokens (t ∷ ts) = decide (keep (is_partial (t ∷ ts)) venue_catalog) unresolved

  unfoldable pub resolve_venue : String → VenueResolution
  resolve_venue venue_name =
      let query = normalize venue_name in
      if str_eq query ""
      then unresolved
      else decide (keep (is_exact query) venue_catalog) (by_tokens (match_tokens venue_name))

  unfoldable pub profile_for : String → VenueProfile
  profile_for venue_name = elim (resolve_venue venue_name).venue [
    | some v ↦ v.profile
    | none ↦ default_venue_profile
  ]

-- What a resolution says, where `P` tells what a candidate satisfies and `Q` which venues the
-- candidates leave out: a resolved name has its venue as its only candidate; several candidates are
-- asked about and none of them is chosen.
abbrev pub IsDecided : (Venue → Type 0) → (List Venue → Type 0) → VenueResolution → Type 0
IsDecided P Q r = Q r.candidates × elim r.status [
  | resolved ↦ (v : Venue) × ((r.venue ≡ some v) × ((r.candidates ≡ v ∷ []) × P v))
  | ambiguous ↦ (r.venue ≡ none) × ((2 ≤ length r.candidates) × All P r.candidates)
  | unknown ↦ (r.venue ≡ none) × (r.candidates ≡ [])
]
