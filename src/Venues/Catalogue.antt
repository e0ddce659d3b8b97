-- ===== src/Venues/Catalogue.antt =====
-- The venues of the catalogue.
use dibs_reservation_sniper.Prelude.{String, true, false, none, List, [], ◌∷◌}
use dibs_reservation_sniper.Model.{VenueType}
use dibs_reservation_sniper.Venues.Profiles.{
  Venue, VenueProfile, hours, week, restaurant_profile, recreation_profile,
}

abbrev restaurant : String → List String → VenueProfile → Venue
restaurant name aliases profile = record {
  name = name;
  venue_type = VenueType.restaurant;
  profile = profile;
  aliases = aliases;
}

abbrev recreation : String → List String → VenueProfile → Venue
recreation name aliases profile = record {
  name = name;
  venue_type = VenueType.recreation;
  profile = profile;
  aliases = aliases;
}

unfoldable pub venue_catalog : List Venue
unfolding week restaurant_profile recreation_profile
venue_catalog =
    restaurant "The Bauer Kitchen" ("bauer" ∷ []) (
      restaurant_profile (week (hours 690 1320) (hours 690 1380) none (hours 600 1260) none false)
        10 [])
    ∷ restaurant "Proof Kitchen + Lounge" ("proof" ∷ []) (
        restaurant_profile (week (hours 660 1320) (hours 660 1410) none (hours 660 1260) none false)
          12 [])
    ∷ restaurant "The Charcoal Steak House" ("charcoal" ∷ []) (
        restaurant_profile (week (hours 990 1320) (hours 990 1380) none (hours 960 1260) none true)
          14 [])
    ∷ restaurant "Golf's Steak House" ("golfs" ∷ [])
        (restaurant_profile (week (hours 1020 1320) (hours 1020 1380) none none none true) 8 [])
    ∷ restaurant "Ethel's Lounge" ("ethels" ∷ [])
        (restaurant_profile (week (hours 720 1380) (hours 720 1425) none none none false) 8 [])
    ∷ restaurant "Grand Trunk Saloon" ("grand trunk" ∷ []) (
        restaurant_profile (week (hours 960 1380) (hours 960 1425) none (hours 960 1320) none false)
          12 [])
    ∷ recreation "Grand River Rocks" ("grr" ∷ "grand river rocks climbing gym" ∷ []) (
        recreation_profile (week (hours 360 1380) none (hours 540 1320) (hours 540 1260) none false)
          20)
    ∷ recreation "Waterloo Bowling Lanes" ("waterloo bowling" ∷ []) (
        recreation_profile
          (week (hours 720 1320) (hours 720 0) (hours 600 0) (hours 600 1260) none false) 24)
    ∷ recreation "Chicopee Tube Park" ("chicopee" ∷ []) (
        recreation_profile (week none (hours 960 1260) (hours 600 1260) (hours 600 1020) none false)
          30)
    ∷ []
