-- ===== src/Service/Documents/Built.antt =====
-- The builders of `Service.Builders` against `Watch.validate_state`.
use dibs_reservation_sniper.Prelude.{
  ℕ, ◌≡◌, String, Bool, true, false, Option, some, List, ◌∷◌, arith,
}
use dibs_reservation_sniper.Model.{
  Watch, is_active, AvailabilitySlot, BookingConfirmation, validate_state,
}
use dibs_reservation_sniper.Service.Builders.{
  found_watch, booked_watch, cancelled_watch, expired_watch, attempted_watch, outage_watch,
}

-- The documents that a poll builds from a valid, active one are valid.
module _ (watch : Watch) (now : ℕ) (ok : validate_state watch ≡ true)
    (active : is_active watch.status ≡ true) where
  pub found_valid :
      (slot : AvailabilitySlot) (slots : List AvailabilitySlot)
      → validate_state (found_watch watch (slot ∷ slots) now) ≡ true
  unfolding validate_state found_watch
  found_valid slot slots = ground arith

  pub booked_valid :
      (confirmation : BookingConfirmation) (counted : Bool)
      → validate_state (booked_watch watch now confirmation counted) ≡ true
  unfolding validate_state booked_watch
  booked_valid confirmation true = ground arith
  booked_valid confirmation false = ground arith

  pub cancelled_valid : validate_state (cancelled_watch watch now) ≡ true
  unfolding validate_state cancelled_watch
  cancelled_valid = ground arith

  pub expired_valid : (checked : Bool) → validate_state (expired_watch watch now checked) ≡ true
  unfolding validate_state expired_watch
  expired_valid true = ground arith
  expired_valid false = ground arith

  pub missed_valid :
      (error : Option String)
      → validate_state (expired_watch (attempted_watch watch now error) now true) ≡ true
  unfolding validate_state expired_watch attempted_watch
  missed_valid error = ground arith

  pub successor_valid :
      (error : Option String) (t : ℕ)
      → validate_state (record (attempted_watch watch now error) { next_check_at = some t }) ≡ true
  unfolding validate_state attempted_watch
  successor_valid error t = ground arith

  pub outage_valid :
      (error : String) (t : ℕ) → validate_state (outage_watch watch now error t) ≡ true
  unfolding validate_state outage_watch
  outage_valid error t = ground arith
