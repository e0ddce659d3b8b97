-- ===== src/MockStore/Search.antt =====
-- `publish_and_filter`: which candidates of a search are offered, and which slot makes room.
use dibs_reservation_sniper.Prelude.{
  ℕ, ◌+◌, String, Bool, true, false, not, ◌&&◌, ◌||◌, Option, none, some, List, [], ◌∷◌, ltb,
  str_eq, if◌then◌else◌, length,
}
use dibs_reservation_sniper.Dict.{Dict, get, put, pop}
use dibs_reservation_sniper.Model.{AvailabilitySlot}
use dibs_reservation_sniper.MockStore.State.{
  SlotEntry, Tombstone, Pin, MockState, expire_pins, is_pinned, protected_tombstone,
}

abbrev pub member : String → List String → Bool
member id [] = false
member id (x ∷ xs) = str_eq x id || member id xs

-- `oldest_touch is None or entry.last_touch < oldest_touch`
abbrev pub older : ℕ → Option (String × ℕ) → Bool
older touch none = true
older touch (some (id, t)) = ltb touch t

-- The loop of `_evict_one`: the first of the oldest slots that are not protected.
unfoldable pub oldest : (String → Bool) → Option (String × ℕ) → Dict SlotEntry → Option (String × ℕ)
oldest protected best [] = best
oldest protected best ((id, entry) ∷ d) =
    oldest protected
      (if not (protected id) && older entry.last_touch best
        then some (id, entry.last_touch)
        else best)
      d

-- `_evict_one`
unfoldable pub evict_one : Dict SlotEntry → (String → Bool) → Dict SlotEntry × Bool
unfolding oldest
evict_one slots protected = elim (oldest protected none slots) [
  | none ↦ (slots, false)
  | some (id, touch) ↦ (pop slots id, true)
]

-- What the loop over the candidates changes.
pub record Admission : Type 0 where
  pub slots : Dict SlotEntry
  pub admitted : List String
  pub result : List AvailabilitySlot

unfoldable pub admit_new : Admission → AvailabilitySlot → Dict SlotEntry → ℕ → Admission
admit_new a slot slots now = record {
  slots = put slots slot.slot_id (record { slot = slot; last_touch = now });
  admitted = slot.slot_id ∷ a.admitted;
  result = slot ∷ a.result;
}

unfoldable pub admit_known : Admission → String → SlotEntry → ℕ → Admission
admit_known a id entry now = record {
  slots = put a.slots id (record entry { last_touch = now });
  admitted = id ∷ a.admitted;
  result = entry.slot ∷ a.result;
}

-- At the capacity, a new candidate needs an eviction; below it, none is tried.
unfoldable pub admit_room : ℕ → Dict Pin → ℕ → Admission → AvailabilitySlot → Admission
unfolding evict_one admit_new
admit_room capacity pins now a slot =
    let (slots, evicted) =
      evict_one a.slots (λ id. is_pinned pins now id || member id a.admitted) in
    if ltb (length a.slots) capacity
    then admit_new a slot a.slots now
    else if evicted
    then admit_new a slot slots now
    else a

-- One round of the loop.
unfoldable pub admit : ℕ → Dict Tombstone → Dict Pin → ℕ → Admission → AvailabilitySlot → Admission
unfolding admit_known admit_room
admit capacity tombstones pins now a slot =
    if protected_tombstone (get tombstones slot.slot_id) now
    then a
    else elim (get a.slots slot.slot_id) [
      | some entry ↦ admit_known a slot.slot_id entry now
      | none ↦ admit_room capacity pins now a slot
    ]

unfoldable pub admit_all :
    ℕ → Dict Tombstone → Dict Pin → ℕ → Admission → List AvailabilitySlot → Admission
unfolding admit
admit_all capacity tombstones pins now a [] = a
admit_all capacity tombstones pins now a (slot ∷ slots) =
    admit_all capacity tombstones pins now (admit capacity tombstones pins now a slot) slots

-- Every admitted slot is pinned to this operation. The source goes through a set, so the order of
-- new pins is open there; nothing depends on it.
unfoldable pub pin_all : Dict Pin → List String → String → ℕ → Dict Pin
pin_all pins [] operation_id expires = pins
pin_all pins (id ∷ ids) operation_id expires =
    pin_all (put pins id (record { operation_id = operation_id; expires_at = expires })) ids
      operation_id expires

abbrev pub reverse_onto : List AvailabilitySlot → List AvailabilitySlot → List AvailabilitySlot
reverse_onto [] acc = acc
reverse_onto (x ∷ xs) acc = reverse_onto xs (x ∷ acc)

unfoldable pub publish_and_filter :
    MockState → List AvailabilitySlot → String → ℕ → MockState × List AvailabilitySlot
unfolding admit_all pin_all
publish_and_filter s candidates operation_id now =
    let s' = expire_pins s now in
    let start : Admission = record { slots = s'.slots; admitted = []; result = [] } in
    let a = admit_all s'.capacity s'.tombstones s'.pins now start candidates in
    (
      record s' { slots = a.slots; pins = pin_all s'.pins a.admitted operation_id (now + s.pin) },
      reverse_onto a.result [],
    )
