-- ===== src/MockStore/Double/Kept.antt =====
-- What every operation of the mock store keeps of a protected booking.
use dibs_reservation_sniper.Prelude.{
  ℕ, ◌<◌, ◌≡◌, ◌≢◌, refl, sym, ◌∙◌, inl, inr, String, Bool, true, false, none, some, List, [], ◌∷◌,
  arith, eq_iff, leb, take, if_keeps, All, Option-cases, Bool-cases,
}
use dibs_reservation_sniper.Dict.{Dict, get, put, pop, get-put, get-pop}
use dibs_reservation_sniper.Model.{AvailabilitySlot, BookingConfirmation}
use dibs_reservation_sniper.MockStore.State.{
  SlotEntry, Booking, Tombstone, Pin, MockState, expire_pins, protected_tombstone,
  release_operation,
}
use dibs_reservation_sniper.MockStore.Search.{
  oldest, Admission, evict_one, admit_new, admit_known, admit_room, admit, admit_all, reverse_onto,
  publish_and_filter,
}
use dibs_reservation_sniper.MockStore.Bookings.{cleanup, pop_all, keys_where, is_idle}
use dibs_reservation_sniper.MockStore.Double.Entries.{
  Only, pop_all-Only, get-pop_all-keys_where, gone-pop_all,
}

-- A slot is stored under its own id.
abbrev pub Keyed : Dict SlotEntry → Type 0
Keyed d = (i : String) (e : SlotEntry) → get d i ≡ some e → e.slot.slot_id ≡ i

abbrev pub NotOffered : String → AvailabilitySlot → Type 0
NotOffered id slot = slot.slot_id ≢ id

pub put-Keyed :
    (d : Dict SlotEntry) (id : String) (e : SlotEntry)
    → Keyed d
    → e.slot.slot_id ≡ id
    → Keyed (put d id e)
put-Keyed d id e h same i u q = grind (arith, get-put, eq_iff, h i u)

pub pop-Keyed : (d : Dict SlotEntry) (id : String) → Keyed d → Keyed (pop d id)
pop-Keyed d id h i u q = grind (arith, get-pop, eq_iff, h i u)

pop_all-Keyed : (ks : List String) (d : Dict SlotEntry) → Keyed d → Keyed (pop_all d ks)
unfolding pop_all
pop_all-Keyed [] d h = h
pop_all-Keyed (k ∷ ks) d h = pop_all-Keyed ks (pop d k) (pop-Keyed d k h)

-- While a search goes through its candidates, the slot `id` stays away.
record IsAway (id : String) (a : Admission) : Type 0 where
  gone : get a.slots id ≡ none
  keyed : Keyed a.slots
  unoffered : All (NotOffered id) a.result

pub evict_one-Keyed : (d : Dict SlotEntry) (p : String → Bool) → Keyed d → Keyed (evict_one d p).0
unfolding evict_one
evict_one-Keyed d p h = elim (Option-cases (oldest p none d)) [
  | inl e ↦ rw (evict_one, e) h
  | inr (b, e) ↦ rw (evict_one, e) (pop-Keyed d b.0 h)
]

evict_one-gone :
    (d : Dict SlotEntry) (p : String → Bool) (id : String)
    → get d id ≡ none
    → get (evict_one d p).0 id ≡ none
unfolding evict_one
evict_one-gone d p id h = elim (Option-cases (oldest p none d)) [
  | inl e ↦ rw (evict_one, e) h
  | inr (b, e) ↦ rw (evict_one, e) (ground (arith, get-pop d b.0 id))
]

admit_new-IsAway :
    (id : String) (a : Admission) (slot : AvailabilitySlot) (d : Dict SlotEntry) (now : ℕ)
    → IsAway id a
    → get d id ≡ none
    → Keyed d
    → slot.slot_id ≢ id
    → IsAway id (admit_new a slot d now)
unfolding admit_new
admit_new-IsAway id a slot d now h g k n = record {
  gone = ground (
    arith,
    get-put d slot.slot_id id (record { slot = slot; last_touch = now }),
    eq_iff slot.slot_id id,
  );
  keyed = put-Keyed d slot.slot_id (record { slot = slot; last_touch = now }) k refl;
  unoffered = (n, h.unoffered);
}

admit_known-IsAway :
    (id : String) (a : Admission) (i : String) (e : SlotEntry) (now : ℕ)
    → IsAway id a
    → get a.slots i ≡ some e
    → i ≢ id
    → IsAway id (admit_known a i e now)
unfolding admit_known
admit_known-IsAway id a i e now h g n = record {
  gone = ground (arith, get-put a.slots i id (record e { last_touch = now }), eq_iff i id, h.gone);
  keyed = put-Keyed a.slots i (record e { last_touch = now }) h.keyed (h.keyed i e g);
  unoffered = (λ s. n (sym (h.keyed i e g) ∙ s), h.unoffered);
}

admit-IsAway :
    (capacity : ℕ) (tombs : Dict Tombstone) (pins : Dict Pin) (now : ℕ) (id : String)
    (a : Admission) (slot : AvailabilitySlot)
    → protected_tombstone (get tombs id) now ≡ true
    → IsAway id a
    → IsAway id (admit capacity tombs pins now a slot)
unfolding admit admit_room
admit-IsAway capacity tombs pins now id a slot t h =
    elim (Bool-cases (protected_tombstone (get tombs slot.slot_id) now)) [
      | inl e ↦ rw (admit, e) h
      | inr e ↦
          let n : slot.slot_id ≢ id = λ s. cc (s, t, e) in
          elim (Option-cases (get a.slots slot.slot_id)) [
            | inr (entry, q) ↦
                rw (admit, e, q) (admit_known-IsAway id a slot.slot_id entry now h q n)
            | inl q ↦
                rw (admit, e, q)
                  (if_keeps (IsAway id) _
                    (admit_new-IsAway id a slot a.slots now h h.gone h.keyed n)
                    (if_keeps (IsAway id) _
                      (admit_new-IsAway id a slot _ now h (evict_one-gone a.slots _ id h.gone)
                        (evict_one-Keyed a.slots _ h.keyed) n)
                      h))
          ]
    ]

admit_all-IsAway :
    (capacity : ℕ) (tombs : Dict Tombstone) (pins : Dict Pin) (now : ℕ) (id : String)
    (slots : List AvailabilitySlot) (a : Admission)
    → protected_tombstone (get tombs id) now ≡ true
    → IsAway id a
    → IsAway id (admit_all capacity tombs pins now a slots)
unfolding admit_all
admit_all-IsAway capacity tombs pins now id [] a t h = h
admit_all-IsAway capacity tombs pins now id (slot ∷ slots) a t h =
    admit_all-IsAway capacity tombs pins now id slots (admit capacity tombs pins now a slot) t
      (admit-IsAway capacity tombs pins now id a slot t h)

reverse_onto-All :
    (id : String) (xs acc : List AvailabilitySlot)
    → All (NotOffered id) xs
    → All (NotOffered id) acc
    → All (NotOffered id) (reverse_onto xs acc)
reverse_onto-All id [] acc h g = g
reverse_onto-All id (x ∷ xs) acc h g = reverse_onto-All id xs (x ∷ acc) h.1 (h.0, g)

abbrev pub tombstone : String → ℕ → Tombstone
tombstone key until = record { key = key; protected_until = until }

abbrev pub booking : BookingConfirmation → ℕ → Booking
booking c until = record { confirmation = c; protected_until = until }

-- The slot `id` is booked under `key`, both records are protected until then, and it is not
-- among the slots that are offered.
pub record IsBooked (id key : String) (c : BookingConfirmation) (until : ℕ) (s : MockState)
    : Type 0 where
  pub tomb_only : Only id (tombstone key until) s.tombstones
  pub tomb : get s.tombstones id ≡ some (tombstone key until)
  pub booking_only : Only key (booking c until) s.bookings
  pub booked_as : get s.bookings key ≡ some (booking c until)
  pub gone : get s.slots id ≡ none
  pub keyed : Keyed s.slots

module _ (id key : String) (c : BookingConfirmation) (until : ℕ) (s : MockState)
    (h : IsBooked id key c until s) where
  away :
      (candidates : List AvailabilitySlot) (now : ℕ)
      → now < until
      → IsAway id (
          admit_all s.capacity s.tombstones
            (expire_pins s now).pins
            now
            (record { slots = s.slots; admitted = []; result = [] })
            candidates)
  away candidates now t =
      admit_all-IsAway s.capacity s.tombstones (expire_pins s now).pins now id candidates
        (record { slots = s.slots; admitted = []; result = [] }) (rw h.tomb (ground arith))
        (record { gone = h.gone; keyed = h.keyed; unoffered = tt })

  pub search-IsBooked :
      (candidates : List AvailabilitySlot) (operation_id : String) (now : ℕ)
      → now < until
      → IsBooked id key c until (publish_and_filter s candidates operation_id now).0
        × All (NotOffered id) (publish_and_filter s candidates operation_id now).1
  unfolding publish_and_filter expire_pins
  search-IsBooked candidates operation_id now t =
      let a = away candidates now t in
      (
        record {
          tomb_only = h.tomb_only;
          tomb = h.tomb;
          booking_only = h.booking_only;
          booked_as = h.booked_as;
          gone = a.gone;
          keyed = a.keyed;
        },
        reverse_onto-All id _ [] a.unoffered tt,
      )

  pub release-IsBooked :
      (operation_id : String) → IsBooked id key c until (release_operation s operation_id)
  unfolding release_operation
  release-IsBooked operation_id = record {
    tomb_only = h.tomb_only;
    tomb = h.tomb;
    booking_only = h.booking_only;
    booked_as = h.booked_as;
    gone = h.gone;
    keyed = h.keyed;
  }

  pub cleanup-IsBooked :
      (now batch_size : ℕ) → now < until → IsBooked id key c until (cleanup s now batch_size).0
  unfolding cleanup expire_pins
  cleanup-IsBooked now batch_size t =
      let unexpired : leb until now ≡ false = ground arith in
      let idle = take batch_size (keys_where (is_idle (expire_pins s now) now) s.slots) in
      let keys = take batch_size (keys_where (λ k b. leb b.protected_until now) s.bookings) in
      let tombs = take batch_size (keys_where (λ k t. leb t.protected_until now) s.tombstones) in
      record {
        tomb_only = pop_all-Only id (tombstone key until) tombs s.tombstones h.tomb_only;
        tomb =
            get-pop_all-keys_where id (tombstone key until) (λ k t. leb t.protected_until now)
              batch_size s.tombstones unexpired h.tomb_only
            ∙ h.tomb;
        booking_only = pop_all-Only key (booking c until) keys s.bookings h.booking_only;
        booked_as =
            get-pop_all-keys_where key (booking c until) (λ k b. leb b.protected_until now)
              batch_size s.bookings unexpired h.booking_only
            ∙ h.booked_as;
        gone = gone-pop_all id idle s.slots h.gone;
        keyed = pop_all-Keyed idle s.slots h.keyed;
      }
