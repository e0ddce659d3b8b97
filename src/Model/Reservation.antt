-- ===== src/Model/Reservation.antt =====
-- backend/models/reservation.py and the enums of backend/orchestrator/schemas.py that it uses. An
-- `HourMinute` is its minutes since midnight, which order as the zero-padded texts do, and an
-- `IsoDate` is the three numbers that its digits spell, whether or not the calendar has that day.
use dibs_reservation_sniper.Prelude.{ℕ, String, Option, List}

pub data VenueType : Type 0 where
  restaurant recreation unknown : VenueType

pub record IsoDate : Type 0 where
  pub year : ℕ
  pub month : ℕ
  pub day : ℕ

pub record TimeWindow : Type 0 where
  pub start : ℕ
  pub end : ℕ

pub record AvailabilityQuery : Type 0 where
  pub venue_name : String
  pub venue_type : VenueType
  pub market : String
  pub party_size : ℕ
  pub date : IsoDate
  pub preferred_time : Option ℕ
  pub time_window : Option TimeWindow
  pub duration_minutes : Option ℕ
  pub special_requests : List String

pub record AvailabilitySlot : Type 0 where
  pub slot_id : String
  pub provider : String
  pub venue_name : String
  pub venue_type : VenueType
  pub date : IsoDate
  pub start_time : ℕ
  pub end_time : Option ℕ
  pub party_size : ℕ
  pub max_party_size : ℕ

pub data BookingStatus : Type 0 where
  mock_confirmed confirmed : BookingStatus

pub record BookingConfirmation : Type 0 where
  pub booking_id : String
  pub provider : String
  pub status : BookingStatus
  pub slot : AvailabilitySlot
  pub created_at : ℕ
