-- ===== src/Tests/Mock.antt =====
-- The theorems on the mock store at a slot that is searched for and booked.
use dibs_reservation_sniper.Prelude.{
  ℕ, ◌≤◌, ◌≡◌, ◌≢◌, refl, String, List, [], ◌∷◌, none, arith, eq_iff, All, length,
}
use dibs_reservation_sniper.Dict.{get}
use dibs_reservation_sniper.Model.{AvailabilitySlot, BookingConfirmation}
use dibs_reservation_sniper.MockStore.{
  MockState, publish_and_filter, book_slot, booked, slot_unavailable, get_booking, taken_by_other,
}
use dibs_reservation_sniper.MockStore.Double.Kept.{Keyed, NotOffered}
use dibs_reservation_sniper.MockStore.Double.Booked.{MockOp, search, book, run, booked_slot_kept}
use dibs_reservation_sniper.MockStore.Offered.{search_within_capacity}
use dibs_reservation_sniper.MockStore.Bookable.{IsStored, offered_slots-IsStored}
use dibs_reservation_sniper.Tests.Data.{some_slot, some_confirmation}

abbrev stocked : MockState
stocked = record {
  capacity = 1;
  idle_ttl = 50;
  retention = 1000;
  pin = 120;
  slots = ("s", record { slot = some_slot; last_touch = 1 }) ∷ [];
  tombstones = [];
  bookings = [];
  pins = [];
}

abbrev confirm : AvailabilitySlot → BookingConfirmation
confirm slot = some_confirmation

stocked-Keyed : Keyed stocked.slots
unfolding get
stocked-Keyed i e q = ground (arith, eq_iff "s" i)

abbrev other_slot : AvailabilitySlot
other_slot = record some_slot { slot_id = "t" }

-- Another search, and another key's attempt, after the booking.
abbrev later_ops : List (ℕ × MockOp)
later_ops = (20, search (some_slot ∷ other_slot ∷ []) "o") ∷ (30, book "s" "k2" confirm) ∷ []

abbrev later_state : MockState
later_state = run (book_slot stocked "s" "k" confirm 10).0 later_ops

booked_slot_kept_example :
    ((slot_id : String) (g : AvailabilitySlot → BookingConfirmation)
      → book_slot later_state slot_id "k" g 40 ≡ (later_state, booked some_confirmation))
    × ((key' : String) (g : AvailabilitySlot → BookingConfirmation)
        → key' ≢ "k"
        → get_booking later_state key' 40 ≡ none
        → book_slot later_state "s" key' g 40 ≡ (later_state, slot_unavailable))
    × ((candidates : List AvailabilitySlot) (operation_id : String)
        → All (NotOffered "s") (publish_and_filter later_state candidates operation_id 40).1)
unfolding book_slot get_booking get taken_by_other
booked_slot_kept_example =
    booked_slot_kept stocked "s" "k" confirm 10 later_ops 40 tt tt stocked-Keyed refl refl
      (omega arith, (omega arith, tt)) (omega arith)

search_within_capacity_example :
    length (publish_and_filter stocked (some_slot ∷ other_slot ∷ []) "o" 20).0.slots ≤ 1
search_within_capacity_example =
    search_within_capacity stocked (some_slot ∷ other_slot ∷ []) "o" 20 (omega arith)

offered_slots-IsStored_example :
    All
      (IsStored (publish_and_filter stocked (some_slot ∷ other_slot ∷ []) "o" 20).0.slots)
      (publish_and_filter stocked (some_slot ∷ other_slot ∷ []) "o" 20).1
    × Keyed (publish_and_filter stocked (some_slot ∷ other_slot ∷ []) "o" 20).0.slots
offered_slots-IsStored_example =
    offered_slots-IsStored stocked (some_slot ∷ other_slot ∷ []) "o" 20 stocked-Keyed
