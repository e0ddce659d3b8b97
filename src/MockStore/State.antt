-- ===== src/MockStore/State.antt =====
-- The store's fields, and the pins of search operations.
use dibs_reservation_sniper.Prelude.{
  ℕ, String, Bool, not, Option, [], ◌∷◌, ltb, str_eq, if◌then◌else◌, is_some_and,
}
use dibs_reservation_sniper.Dict.{Dict, get}
use dibs_reservation_sniper.Model.{AvailabilitySlot, BookingConfirmation}

pub record SlotEntry : Type 0 where
  pub slot : AvailabilitySlot
  pub last_touch : ℕ

pub record Booking : Type 0 where
  pub confirmation : BookingConfirmation
  pub protected_until : ℕ

pub record Tombstone : Type 0 where
  pub key : String
  pub protected_until : ℕ

pub record Pin : Type 0 where
  pub operation_id : String
  pub expires_at : ℕ

pub record MockState : Type 0 where
  pub capacity : ℕ
  pub idle_ttl : ℕ
  pub retention : ℕ
  pub pin : ℕ
  pub slots : Dict SlotEntry
  pub tombstones : Dict Tombstone
  pub bookings : Dict Booking
  pub pins : Dict Pin

-- The entries whose value passes a test, as a dict comprehension keeps them.
unfoldable pub keep_where : {V : Type 0} → (V → Bool) → Dict V → Dict V
keep_where p [] = []
keep_where p ((k, v) ∷ d) = let rest = keep_where p d in if p v then (k, v) ∷ rest else rest

-- `_expire_pins`
unfoldable pub expire_pins : MockState → ℕ → MockState
unfolding keep_where
expire_pins s now = record s { pins = keep_where (λ pin. ltb now pin.expires_at) s.pins }

-- `slot_id in self._pinned_ids(now)`
unfoldable pub is_pinned : Dict Pin → ℕ → String → Bool
is_pinned pins now id = is_some_and (get pins id) (λ pin. ltb now pin.expires_at)

unfoldable pub release_operation : MockState → String → MockState
unfolding keep_where
release_operation s operation_id = record s {
  pins = keep_where (λ pin. not (str_eq pin.operation_id operation_id)) s.pins;
}

-- A record that is there and still protected.
abbrev pub protected_tombstone : Option Tombstone → ℕ → Bool
protected_tombstone o now = is_some_and o (λ t. ltb now t.protected_until)

abbrev pub protected_booking : Option Booking → ℕ → Bool
protected_booking o now = is_some_and o (λ b. ltb now b.protected_until)
