-- ===== src/MockStore/Double/Booked.antt =====
-- Any interleaving of searches, bookings, releases and cleanups on the mock store.
use dibs_reservation_sniper.Prelude.{
  ℕ, ◌+◌, ◌<◌, ◌≡◌, ◌≢◌, ap, ◌⊎◌, inl, inr, String, none, List, [], ◌∷◌, arith, eq_iff, eq_refl,
  str_eq, ltb, All, Option-cases, Bool-cases,
}
use dibs_reservation_sniper.Dict.{get, put, pop, get-put, get-pop}
use dibs_reservation_sniper.Model.{AvailabilitySlot, BookingConfirmation}
use dibs_reservation_sniper.MockStore.State.{MockState, release_operation}
use dibs_reservation_sniper.MockStore.Search.{publish_and_filter}
use dibs_reservation_sniper.MockStore.Bookings.{
  book_slot, BookResult, booked, slot_unavailable, cleanup, get_booking, taken_by_other,
}
use dibs_reservation_sniper.MockStore.Double.Entries.{Distinct, put-Only, put_other-Only}
use dibs_reservation_sniper.MockStore.Double.Kept.{
  Keyed, NotOffered, pop-Keyed, tombstone, booking, IsBooked, search-IsBooked, release-IsBooked,
  cleanup-IsBooked,
}

pub data MockOp : Type 0 where
  search : List AvailabilitySlot → String → MockOp
  book : String → String → (AvailabilitySlot → BookingConfirmation) → MockOp
  release : String → MockOp
  sweep : ℕ → MockOp

-- The state after an operation at an instant.
unfoldable pub step : MockState → ℕ × MockOp → MockState
step s (now, search candidates operation_id) = (publish_and_filter s candidates operation_id now).0
step s (now, book slot_id key factory) = (book_slot s slot_id key factory now).0
step s (now, release operation_id) = release_operation s operation_id
step s (now, sweep batch_size) = (cleanup s now batch_size).0

unfoldable pub run : MockState → List (ℕ × MockOp) → MockState
run s [] = s
run s (o ∷ os) = run (step s o) os

abbrev pub Before : ℕ → List (ℕ × MockOp) → Type 0
Before until os = All (λ (o : ℕ × MockOp). o.0 < until) os

-- A booking that is made anew.
abbrev recorded : MockState → String → String → BookingConfirmation → ℕ → MockState
recorded s slot_id key c until = record s {
  bookings = put s.bookings key (booking c until);
  tombstones = put s.tombstones slot_id (tombstone key until);
  slots = pop s.slots slot_id;
  pins = pop s.pins slot_id;
}

book_effect :
    (s : MockState) (slot_id key : String) (f : AvailabilitySlot → BookingConfirmation) (now : ℕ)
    → ((book_slot s slot_id key f now).0 ≡ s)
      ⊎ ((c : BookingConfirmation) × ((book_slot s slot_id key f now).0
            ≡ recorded s slot_id key c (now + s.retention))
          × ((book_slot s slot_id key f now).1 ≡ booked c))
unfolding book_slot
book_effect s slot_id key f now = elim (Option-cases (get s.slots slot_id)) [
  | inl e ↦ inl (ground arith)
  | inr (entry, e) ↦ elim (Bool-cases (taken_by_other (get s.tombstones slot_id) key now)) [
    | inl p ↦ inl (ground arith)
    | inr p ↦ elim (Option-cases (get s.bookings key)) [
      | inl q ↦ inr (f entry.slot, ground arith, ground arith)
      | inr (b, q) ↦ elim (Bool-cases (ltb now b.protected_until)) [
        | inl r ↦ inl (ground arith)
        | inr r ↦ inr (f entry.slot, ground arith, ground arith)
      ]
    ]
  ]
]

module _ (id key : String) (c : BookingConfirmation) (until : ℕ) (s : MockState)
    (h : IsBooked id key c until s) where
  -- The key's own retries change nothing, and neither do other keys' attempts on the slot.
  book_same :
      (slot_id : String) (f : AvailabilitySlot → BookingConfirmation) (now : ℕ)
      → now < until
      → book_slot s slot_id key f now ≡ (s, booked c)
  unfolding book_slot
  book_same slot_id f now t = rw (book_slot, h.booked_as) (ground arith)

  book_taken :
      (key' : String) (f : AvailabilitySlot → BookingConfirmation) (now : ℕ)
      → now < until
      → key' ≢ key
      → ((book_slot s id key' f now).0 ≡ s)
        × (get_booking s key' now ≡ none → (book_slot s id key' f now).1 ≡ slot_unavailable)
  unfolding book_slot get_booking taken_by_other
  book_taken key' f now t n =
      let tomb = h.tomb in
      let gone = h.gone in (ground (arith, eq_iff key key'), λ e. ground (arith, eq_iff key key'))

  record_other :
      (slot_id key' : String) (c' : BookingConfirmation) (until' : ℕ)
      → slot_id ≢ id
      → key' ≢ key
      → IsBooked id key c until (recorded s slot_id key' c' until')
  record_other slot_id key' c' until' n m = record {
    tomb_only = put_other-Only id (tombstone key until) s.tombstones slot_id _ n h.tomb_only;
    tomb =
        ground (
          arith,
          get-put s.tombstones slot_id id (tombstone key' until'),
          eq_iff slot_id id,
          h.tomb,
        );
    booking_only = put_other-Only key (booking c until) s.bookings key' _ m h.booking_only;
    booked_as =
        ground
          (arith, get-put s.bookings key' key (booking c' until'), eq_iff key' key, h.booked_as);
    gone = ground (arith, get-pop s.slots slot_id id, h.gone);
    keyed = pop-Keyed s.slots slot_id h.keyed;
  }

  book-IsBooked :
      (slot_id key' : String) (f : AvailabilitySlot → BookingConfirmation) (now : ℕ)
      → now < until
      → IsBooked id key c until (book_slot s slot_id key' f now).0
  book-IsBooked slot_id key' f now t = elim (Bool-cases (str_eq key' key)) [
    | inl e ↦
        let same : (book_slot s slot_id key' f now).0 ≡ s =
          rw ((eq_iff key' key).0 e) (ap (λ x. x.0) (book_same slot_id f now t)) in
        rw same h
    | inr e ↦
        let m : key' ≢ key = ground (arith, eq_iff key' key) in
        elim (Bool-cases (str_eq slot_id id)) [
          | inl q ↦
              let same : (book_slot s slot_id key' f now).0 ≡ s =
                rw ((eq_iff slot_id id).0 q) (book_taken key' f now t m).0 in
              rw same h
          | inr q ↦
              let n : slot_id ≢ id = ground (arith, eq_iff slot_id id) in
              elim (book_effect s slot_id key' f now) [
                | inl same ↦ rw same h
                | inr (c', same, r) ↦ rw same (record_other slot_id key' c' (now + s.retention) n m)
              ]
        ]
  ]

step-IsBooked :
    (id key : String) (c : BookingConfirmation) (until : ℕ) (s : MockState) (o : ℕ × MockOp)
    → o.0 < until
    → IsBooked id key c until s
    → IsBooked id key c until (step s o)
unfolding step
step-IsBooked id key c until s (now, search candidates operation_id) t h =
    (search-IsBooked id key c until s h candidates operation_id now t).0
step-IsBooked id key c until s (now, book slot_id key' f) t h =
    book-IsBooked id key c until s h slot_id key' f now t
step-IsBooked id key c until s (now, release operation_id) t h =
    release-IsBooked id key c until s h operation_id
step-IsBooked id key c until s (now, sweep batch_size) t h =
    cleanup-IsBooked id key c until s h now batch_size t

run-IsBooked :
    (id key : String) (c : BookingConfirmation) (until : ℕ) (s : MockState) (os : List (ℕ × MockOp))
    → Before until os
    → IsBooked id key c until s
    → IsBooked id key c until (run s os)
unfolding run
run-IsBooked id key c until s [] t h = h
run-IsBooked id key c until s (o ∷ os) t h =
    run-IsBooked id key c until (step s o) os t.1 (step-IsBooked id key c until s o t.0 h)

new_recorded :
    (s : MockState) (id key : String) (f : AvailabilitySlot → BookingConfirmation) (now : ℕ)
    {c : BookingConfirmation}
    → get_booking s key now ≡ none
    → (book_slot s id key f now).1 ≡ booked c
    → (book_slot s id key f now).0 ≡ recorded s id key c (now + s.retention)
unfolding book_slot get_booking
new_recorded s id key f now e r = elim (Option-cases (get s.slots id)) [
  | inl p ↦ absurd (ground arith)
  | inr (entry, p) ↦ ground arith
]

recorded-IsBooked :
    (s : MockState) (id key : String) (c : BookingConfirmation) (until : ℕ)
    → Distinct s.tombstones
    → Distinct s.bookings
    → Keyed s.slots
    → IsBooked id key c until (recorded s id key c until)
recorded-IsBooked s id key c until d e k = record {
  tomb_only = put-Only id (tombstone key until) s.tombstones d;
  tomb = simp (get-put, eq_refl);
  booking_only = put-Only key (booking c until) s.bookings e;
  booked_as = simp (get-put, eq_refl);
  gone = simp (get-pop, eq_refl);
  keyed = pop-Keyed s.slots id k;
}

-- When a slot is newly booked under a key, in a store whose dictionaries have distinct keys and
-- whose slots stand under their own ids, then until the retention has passed, whatever searches,
-- bookings, releases and cleanups come in between: asking again under the key, for whichever slot,
-- returns the same confirmation and changes nothing; a key without a booking of its own gets
-- `slot_unavailable` for the slot and changes nothing; and no search offers the slot.
pub booked_slot_kept :
    (s : MockState) (id key : String) (f : AvailabilitySlot → BookingConfirmation) (now : ℕ)
    (os : List (ℕ × MockOp)) (now' : ℕ) {c : BookingConfirmation}
    → Distinct s.tombstones
    → Distinct s.bookings
    → Keyed s.slots
    → get_booking s key now ≡ none
    → (book_slot s id key f now).1 ≡ booked c
    → Before (now + s.retention) os
    → now' < now + s.retention
    → ((slot_id : String) (g : AvailabilitySlot → BookingConfirmation)
        → book_slot (run (book_slot s id key f now).0 os) slot_id key g now'
          ≡ (run (book_slot s id key f now).0 os, booked c))
      × ((key' : String) (g : AvailabilitySlot → BookingConfirmation)
          → key' ≢ key
          → get_booking (run (book_slot s id key f now).0 os) key' now' ≡ none
          → book_slot (run (book_slot s id key f now).0 os) id key' g now'
            ≡ (run (book_slot s id key f now).0 os, slot_unavailable))
      × ((candidates : List AvailabilitySlot) (operation_id : String)
          → All
              (NotOffered id)
              (publish_and_filter
                (run (book_slot s id key f now).0 os)
                candidates
                operation_id
                now').1)
booked_slot_kept s id key f now os now' {c} d e k none_yet ok before t =
    let until = now + s.retention in
    let start : IsBooked id key c until (book_slot s id key f now).0 =
      rw (new_recorded s id key f now none_yet ok) (recorded-IsBooked s id key c until d e k) in
    let s' = run (book_slot s id key f now).0 os in
    let h : IsBooked id key c until s' =
      run-IsBooked id key c until (book_slot s id key f now).0 os before start in
    (
      λ slot_id g. book_same id key c until s' h slot_id g now' t,
      λ key' g n q.
          let (same, refused) = book_taken id key c until s' h key' g now' t n in
          pair same (refused q),
      λ candidates operation_id.
          (search-IsBooked id key c until s' h candidates operation_id now' t).1,
    )
  where
    pair :
        {x : MockState × BookResult} {a : MockState} {b : BookResult}
        → x.0 ≡ a
        → x.1 ≡ b
        → x ≡ (a, b)
    pair p q = cc (p, q)
