-- ===== src/MockStore/Bookable.antt =====
-- What a search offers can be booked: later candidates never evict an earlier one.
use dibs_reservation_sniper.Prelude.{
  ℕ, ◌≡◌, refl, inl, inr, String, true, ◌||◌, some, List, [], ◌∷◌, arith, eq_iff, eq_refl, ltb,
  length, is_some, All, Option-cases, Bool-cases,
}
use dibs_reservation_sniper.Dict.{Dict, get, get-put}
use dibs_reservation_sniper.Model.{AvailabilitySlot}
use dibs_reservation_sniper.MockStore.State.{
  SlotEntry, Tombstone, Pin, MockState, expire_pins, is_pinned, protected_tombstone,
}
use dibs_reservation_sniper.MockStore.Search.{
  Admission, evict_one, admit_new, admit_known, admit_room, admit, admit_all, member, reverse_onto,
  publish_and_filter,
}
use dibs_reservation_sniper.MockStore.Double.Kept.{Keyed, put-Keyed, evict_one-Keyed}
use dibs_reservation_sniper.MockStore.Offered.{evict_one_lem}

abbrev pub IsStored : Dict SlotEntry → AvailabilitySlot → Type 0
IsStored d slot = is_some (get d slot.slot_id) ≡ true

-- Every admitted id is stored, and every result is admitted.
record IsBacked (a : Admission) : Type 0 where
  stored : (k : String) → member k a.admitted ≡ true → is_some (get a.slots k) ≡ true
  results : All (λ r. member r.slot_id a.admitted ≡ true) a.result
  keyed : Keyed a.slots

abbrev Admitted : List String → AvailabilitySlot → Type 0
Admitted ids r = member r.slot_id ids ≡ true

grow :
    (ids : List String) (id : String) (rs : List AvailabilitySlot)
    → All (Admitted ids) rs
    → All (Admitted (id ∷ ids)) rs
grow ids id [] h = tt
grow ids id (r ∷ rs) h = (ground (arith, h.0), grow ids id rs h.1)

admit_new-IsBacked :
    (a : Admission) (slot : AvailabilitySlot) (d : Dict SlotEntry) (now : ℕ)
    → IsBacked a
    → ((k : String) → member k a.admitted ≡ true → is_some (get d k) ≡ true)
    → Keyed d
    → IsBacked (admit_new a slot d now)
unfolding admit_new
admit_new-IsBacked a slot d now h kept k = record {
  stored = λ j q.
      ground (arith, get-put d slot.slot_id j (record { slot = slot; last_touch = now }), kept j);
  results = (ground (arith, eq_refl slot.slot_id), grow a.admitted slot.slot_id a.result h.results);
  keyed = put-Keyed d slot.slot_id (record { slot = slot; last_touch = now }) k refl;
}

admit_known-IsBacked :
    (a : Admission) (i : String) (e : SlotEntry) (now : ℕ)
    → IsBacked a
    → get a.slots i ≡ some e
    → IsBacked (admit_known a i e now)
unfolding admit_known
admit_known-IsBacked a i e now h g = record {
  stored = λ j q. ground (arith, get-put a.slots i j (record e { last_touch = now }), h.stored j);
  results = (
    ground (arith, eq_iff i e.slot.slot_id, h.keyed i e g),
    grow a.admitted i a.result h.results,
  );
  keyed = put-Keyed a.slots i (record e { last_touch = now }) h.keyed (h.keyed i e g);
}

admit-IsBacked :
    (capacity : ℕ) (tombs : Dict Tombstone) (pins : Dict Pin) (now : ℕ) (a : Admission)
    (slot : AvailabilitySlot)
    → IsBacked a
    → IsBacked (admit capacity tombs pins now a slot)
unfolding admit admit_room
admit-IsBacked capacity tombs pins now a slot h =
    let protected = λ (id : String). is_pinned pins now id || member id a.admitted in
    elim (Bool-cases (protected_tombstone (get tombs slot.slot_id) now)) [
      | inl e ↦ rw (admit, e) h
      | inr e ↦ elim (Option-cases (get a.slots slot.slot_id)) [
        | inr (entry, q) ↦ rw (admit, e, q) (admit_known-IsBacked a slot.slot_id entry now h q)
        | inl q ↦ elim (Bool-cases (ltb (length a.slots) capacity)) [
          | inl r ↦ rw (admit, e, q, r) (admit_new-IsBacked a slot a.slots now h h.stored h.keyed)
          | inr r ↦ elim (Bool-cases (evict_one a.slots protected).1) [
            | inr u ↦ rw (admit, e, q, r, u) h
            | inl u ↦
                rw (admit, e, q, r, u)
                  (admit_new-IsBacked a slot (evict_one a.slots protected).0 now h
                    (λ k m.
                      ground (
                        arith,
                        (evict_one_lem a.slots protected u).1 k (ground arith),
                        h.stored k m,
                      ))
                    (evict_one-Keyed a.slots protected h.keyed))
          ]
        ]
      ]
    ]

admit_all-IsBacked :
    (capacity : ℕ) (tombs : Dict Tombstone) (pins : Dict Pin) (now : ℕ)
    (slots : List AvailabilitySlot) (a : Admission)
    → IsBacked a
    → IsBacked (admit_all capacity tombs pins now a slots)
unfolding admit_all
admit_all-IsBacked capacity tombs pins now [] a h = h
admit_all-IsBacked capacity tombs pins now (slot ∷ slots) a h =
    admit_all-IsBacked capacity tombs pins now slots (admit capacity tombs pins now a slot)
      (admit-IsBacked capacity tombs pins now a slot h)

reverse_onto-IsStored :
    (a : Admission) (xs acc : List AvailabilitySlot)
    → IsBacked a
    → All (Admitted a.admitted) xs
    → All (IsStored a.slots) acc
    → All (IsStored a.slots) (reverse_onto xs acc)
reverse_onto-IsStored a [] acc b h g = g
reverse_onto-IsStored a (x ∷ xs) acc b h g =
    reverse_onto-IsStored a xs (x ∷ acc) b h.1 (b.stored x.slot_id h.0, g)

-- In a store whose slots stand under their own ids, every slot that a search returns is stored
-- after it, under its id: evictions for later candidates never take back an offer of the same
-- search, and the slots still stand under their own ids.
pub offered_slots-IsStored :
    (s : MockState) (candidates : List AvailabilitySlot) (operation_id : String) (now : ℕ)
    → Keyed s.slots
    → All
        (IsStored (publish_and_filter s candidates operation_id now).0.slots)
        (publish_and_filter s candidates operation_id now).1
      × Keyed (publish_and_filter s candidates operation_id now).0.slots
unfolding publish_and_filter expire_pins
offered_slots-IsStored s candidates operation_id now k =
    let start : Admission = record { slots = s.slots; admitted = []; result = [] } in
    let b =
      admit_all-IsBacked s.capacity s.tombstones (expire_pins s now).pins now candidates start
        (record { stored = λ j q. absurd (ground arith); results = tt; keyed = k }) in
    (
      reverse_onto-IsStored
          (admit_all s.capacity s.tombstones (expire_pins s now).pins now start candidates) _ [] b
          b.results tt,
      b.keyed,
    )
