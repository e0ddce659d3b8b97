-- ===== src/MockStore/Offered.antt =====
-- The slots that a search offers, and the bound on those that are kept.
use dibs_reservation_sniper.Prelude.{
  ℕ, ◌≤◌, ◌<◌, ◌≡◌, inl, inr, String, Bool, true, false, not, ◌&&◌, ◌||◌, Option, none, some, List,
  [], ◌∷◌, arith, eq_iff, ltb, length, is_some, Option-cases, Bool-cases,
}
use dibs_reservation_sniper.Dict.{Dict, get, put, pop, get-pop, length-put, length-pop-le}
use dibs_reservation_sniper.Model.{AvailabilitySlot}
use dibs_reservation_sniper.MockStore.State.{
  SlotEntry, Tombstone, Pin, MockState, expire_pins, is_pinned,
}
use dibs_reservation_sniper.MockStore.Search.{
  Admission, oldest, older, evict_one, admit_new, admit_known, admit_room, admit, admit_all, member,
  publish_and_filter,
}

pop-length :
    {V : Type 0} (d : Dict V) (k : String) → is_some (get d k) ≡ true → length (pop d k) < length d
unfolding get pop
pop-length [] k h = ground arith
pop-length ((i, v) ∷ d) k h = ground (arith, pop-length d k, length-pop-le d k)

-- The slot that `_evict_one` finds is stored, and not protected.
abbrev IsVictim : (String → Bool) → Dict SlotEntry → Option (String × ℕ) → Type 0
IsVictim p d none = Unit {0}
IsVictim p d (some (id, t)) = (is_some (get d id) ≡ true) × (p id ≡ false)

abbrev Within : Dict SlotEntry → Dict SlotEntry → Type 0
Within d whole = (k : String) → is_some (get d k) ≡ true → is_some (get whole k) ≡ true

tail-Within :
    (whole d : Dict SlotEntry) (id : String) (e : SlotEntry)
    → Within ((id, e) ∷ d) whole
    → Within d whole × (is_some (get whole id) ≡ true)
unfolding get
tail-Within whole d id e h = (λ k q. h k (ground arith), h id (ground (arith, eq_iff id id)))

oldest-IsVictim :
    (p : String → Bool) (whole d : Dict SlotEntry) (best : Option (String × ℕ))
    → IsVictim p whole best
    → Within d whole
    → IsVictim p whole (oldest p best d)
unfolding oldest
oldest-IsVictim p whole [] best h w = h
oldest-IsVictim p whole ((id, e) ∷ d) best h w =
    let (tail, here) = tail-Within whole d id e w in
    elim (Bool-cases (not (p id) && older e.last_touch best)) [
      | inl q ↦ rw q (oldest-IsVictim p whole d (some (id, e.last_touch)) (here, ground arith) tail)
      | inr q ↦ rw q (oldest-IsVictim p whole d best h tail)
    ]

-- An eviction that happens makes room, and takes a slot that is not protected.
pub evict_one_lem :
    (d : Dict SlotEntry) (p : String → Bool)
    → (evict_one d p).1 ≡ true
    → (length (evict_one d p).0 < length d)
      × ((k : String) → p k ≡ true → get (evict_one d p).0 k ≡ get d k)
unfolding evict_one
evict_one_lem d p h = go (oldest p none d) (oldest-IsVictim p d d none tt (λ k q. q)) h
  where
    go :
        (o : Option (String × ℕ))
        → IsVictim p d o
        → (elim o as (λ x. Dict SlotEntry × Bool) [
          | none ↦ (d, false)
          | some (id, t) ↦ (pop d id, true)
        ]).1
          ≡ true
        → (length
              (elim o as (λ x. Dict SlotEntry × Bool) [
                | none ↦ (d, false)
                | some (id, t) ↦ (pop d id, true)
              ]).0
            < length d)
          × ((k : String)
              → p k ≡ true
              → get
                  (elim o as (λ x. Dict SlotEntry × Bool) [
                    | none ↦ (d, false)
                    | some (id, t) ↦ (pop d id, true)
                  ]).0
                  k
                ≡ get d k)
    go none v h = absurd (ground arith)
    go (some (id, t)) v h =
        (pop-length d id v.0, λ k q. ground (arith, get-pop d id k, eq_iff id k, v.1, q))

put-length-le :
    (d : Dict SlotEntry) (k : String) (e : SlotEntry) (n : ℕ)
    → length d < n
    → length (put d k e) ≤ n
put-length-le d k e n h = ground (arith, length-put d k e)

put-length-same :
    (d : Dict SlotEntry) (k : String) (e v : SlotEntry)
    → get d k ≡ some v
    → length (put d k e) ≡ length d
put-length-same d k e v h = ground (arith, length-put d k e)

admit-length :
    (capacity : ℕ) (tombs : Dict Tombstone) (pins : Dict Pin) (now : ℕ) (a : Admission)
    (slot : AvailabilitySlot)
    → length a.slots ≤ capacity
    → length (admit capacity tombs pins now a slot).slots ≤ capacity
unfolding admit admit_room admit_new admit_known
admit-length capacity tombs pins now a slot h =
    let e : SlotEntry = record { slot = slot; last_touch = now } in
    let d = evict_one a.slots (λ id. is_pinned pins now id || member id a.admitted) in
    elim (Option-cases (get a.slots slot.slot_id)) [
      | inr (v, q) ↦
          ground (arith, put-length-same a.slots slot.slot_id (record v { last_touch = now }) v q)
      | inl q ↦ elim (Bool-cases (ltb (length a.slots) capacity)) [
        | inl r ↦ ground (arith, put-length-le a.slots slot.slot_id e capacity (ground arith))
        | inr r ↦ elim (Bool-cases d.1) [
          | inr u ↦ ground arith
          | inl u ↦
              let (less, kept) =
                evict_one_lem a.slots (λ id. is_pinned pins now id || member id a.admitted) u in
              ground (arith, put-length-le d.0 slot.slot_id e capacity (omega (arith, less, h)))
        ]
      ]
    ]

admit_all-length :
    (capacity : ℕ) (tombs : Dict Tombstone) (pins : Dict Pin) (now : ℕ)
    (slots : List AvailabilitySlot) (a : Admission)
    → length a.slots ≤ capacity
    → length (admit_all capacity tombs pins now a slots).slots ≤ capacity
unfolding admit_all
admit_all-length capacity tombs pins now [] a h = h
admit_all-length capacity tombs pins now (slot ∷ slots) a h =
    admit_all-length capacity tombs pins now slots (admit capacity tombs pins now a slot)
      (admit-length capacity tombs pins now a slot h)

-- A search of any number of candidates never takes the store over its capacity.
pub search_within_capacity :
    (s : MockState) (candidates : List AvailabilitySlot) (operation_id : String) (now : ℕ)
    → length s.slots ≤ s.capacity
    → length (publish_and_filter s candidates operation_id now).0.slots ≤ s.capacity
unfolding publish_and_filter expire_pins
search_within_capacity s candidates operation_id now h =
    admit_all-length s.capacity s.tombstones (expire_pins s now).pins now candidates
      (record { slots = s.slots; admitted = []; result = [] }) h
