-- ===== src/MockStore/Bookings.antt =====
-- Booking a slot idempotently, looking a booking up, and the bounded cleanup.
use dibs_reservation_sniper.Prelude.{
  ℕ, ◌+◌, String, Bool, not, ◌&&◌, Option, none, some, List, [], ◌∷◌, ltb, leb, str_eq,
  if◌then◌else◌, is_some_and, length, take,
}
use dibs_reservation_sniper.Dict.{Dict, get, put, pop}
use dibs_reservation_sniper.Model.{AvailabilitySlot, BookingConfirmation}
use dibs_reservation_sniper.MockStore.State.{
  SlotEntry, Tombstone, MockState, expire_pins, is_pinned,
}

pub data ReconciliationResult : Type 0 where
  confirmed : BookingConfirmation → ReconciliationResult
  definitively_absent : ReconciliationResult

-- What `book_slot` returns or raises.
pub data BookResult : Type 0 where
  booked : BookingConfirmation → BookResult
  slot_unavailable : BookResult
  slot_not_found : BookResult

unfoldable pub get_booking : MockState → String → ℕ → Option BookingConfirmation
get_booking s key now = elim (get s.bookings key) [
  | none ↦ none
  | some b ↦ if leb b.protected_until now then none else some b.confirmation
]

unfoldable pub reconcile_booking : MockState → String → ℕ → ReconciliationResult
reconcile_booking s key now = elim (get s.bookings key) [
  | none ↦ definitively_absent
  | some b ↦ if ltb now b.protected_until then confirmed b.confirmation else definitively_absent
]

-- Someone else's booking of the slot is still protected.
unfoldable pub taken_by_other : Option Tombstone → String → ℕ → Bool
taken_by_other o key now = is_some_and o (λ t. ltb now t.protected_until && not (str_eq t.key key))

record_booking : MockState → String → String → BookingConfirmation → ℕ → MockState
record_booking s slot_id key confirmation protected_until = record s {
  bookings =
      put s.bookings key
        (record { confirmation = confirmation; protected_until = protected_until });
  tombstones = put s.tombstones slot_id (record { key = key; protected_until = protected_until });
  slots = pop s.slots slot_id;
  pins = pop s.pins slot_id;
}

book_new :
    MockState
    → String
    → String
    → (AvailabilitySlot → BookingConfirmation)
    → ℕ
    → MockState × BookResult
unfolding record_booking
book_new s slot_id key confirmation_factory now =
    if taken_by_other (get s.tombstones slot_id) key now
    then (s, slot_unavailable)
    else elim (get s.slots slot_id) [
      | none ↦ (s, slot_not_found)
      | some entry ↦ (
        record_booking s slot_id key (confirmation_factory entry.slot) (now + s.retention),
        booked (confirmation_factory entry.slot),
      )
    ]

unfoldable pub book_slot :
    MockState
    → String
    → String
    → (AvailabilitySlot → BookingConfirmation)
    → ℕ
    → MockState × BookResult
unfolding book_new
book_slot s slot_id key confirmation_factory now = elim (get s.bookings key) [
  | none ↦ book_new s slot_id key confirmation_factory now
  | some b ↦
      if ltb now b.protected_until
      then (s, booked b.confirmation)
      else book_new s slot_id key confirmation_factory now
]

-- The keys whose entry passes a test, oldest first.
unfoldable pub keys_where : {V : Type 0} → (String → V → Bool) → Dict V → List String
keys_where p [] = []
keys_where p ((k, v) ∷ d) = let rest = keys_where p d in if p k v then k ∷ rest else rest

unfoldable pub pop_all : {V : Type 0} → Dict V → List String → Dict V
pop_all d [] = d
pop_all d (k ∷ ks) = pop_all (pop d k) ks

pub record CleanupCounts : Type 0 where
  pub idle_slots : ℕ
  pub expired_records : ℕ

-- Unpinned slots that no search has touched for the idle time.
unfoldable pub is_idle : MockState → ℕ → String → SlotEntry → Bool
is_idle s now id entry = not (is_pinned s.pins now id) && leb (entry.last_touch + s.idle_ttl) now

unfoldable pub cleanup : MockState → ℕ → ℕ → MockState × CleanupCounts
unfolding keys_where pop_all is_idle
cleanup s now batch_size =
    let s' = expire_pins s now in
    let idle = take batch_size (keys_where (is_idle s' now) s'.slots) in
    let keys = take batch_size (keys_where (λ k b. leb b.protected_until now) s'.bookings) in
    let tombs = take batch_size (keys_where (λ k t. leb t.protected_until now) s'.tombstones) in
    (
      record s' {
        slots = pop_all s'.slots idle;
        bookings = pop_all s'.bookings keys;
        tombstones = pop_all s'.tombstones tombs;
      },
      record { idle_slots = length idle; expired_records = length keys },
    )
