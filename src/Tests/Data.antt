-- ===== src/Tests/Data.antt =====
-- A watch for a table, its sidecar and its claims, on which the theorems are tried.
use dibs_reservation_sniper.Prelude.{String, true, false, none, some, []}
use dibs_reservation_sniper.Model.{
  IsoDate, VenueType, AvailabilityQuery, AvailabilitySlot, BookingStatus, BookingConfirmation,
  WatchStatus, Watch, WatchRuntime, RuntimePhase, WindowClaim,
}
use dibs_reservation_sniper.Repo.{Repo, new_repo, create_with_schedule, claim_window}

-- Stands for `hashlib.sha1`: what the theorems use of it is that it is a function.
abbrev pub same_text : String → String
same_text s = s

abbrev pub some_day : IsoDate
some_day = record { year = 2026; month = 3; day = 14 }

abbrev pub some_query : AvailabilityQuery
some_query = record {
  venue_name = "Golf's Steak House";
  venue_type = VenueType.restaurant;
  market = "madison";
  party_size = 2;
  date = some_day;
  preferred_time = some 1140;
  time_window = none;
  duration_minutes = none;
  special_requests = [];
}

abbrev pub some_slot : AvailabilitySlot
some_slot = record {
  slot_id = "s";
  provider = "mock";
  venue_name = "Golf's Steak House";
  venue_type = VenueType.restaurant;
  date = some_day;
  start_time = 1140;
  end_time = none;
  party_size = 2;
  max_party_size = 4;
}

abbrev pub some_confirmation : BookingConfirmation
some_confirmation = record {
  booking_id = "b";
  provider = "mock";
  status = BookingStatus.mock_confirmed;
  slot = some_slot;
  created_at = 20;
}

abbrev pub some_watch : Watch
some_watch = record {
  watch_id = "w";
  status = WatchStatus.active;
  query = some_query;
  auto_book = true;
  created_at = 0;
  updated_at = 0;
  expires_at = 900000000;
  attempts = 0;
  max_attempts = 5;
  last_checked_at = none;
  next_check_at = some 0;
  found_slots = [];
  booking = none;
  last_error = none;
}

abbrev pub some_runtime : WatchRuntime
some_runtime = record {
  revision = 0;
  required_attempts = 5;
  supports_deadline = true;
  consecutive_outages = 0;
  cadence_sequence = 0;
  window_id = some "w:0";
  scheduled_for = some 0;
  phase = none;
  cancel_requested = false;
  terminal_delete_at = none;
}

abbrev pub booking_runtime : WatchRuntime
booking_runtime = record some_runtime { phase = some RuntimePhase.booking }

abbrev pub first_claim : WindowClaim
first_claim = record {
  watch = some_watch;
  runtime = some_runtime;
  owner_id = "a";
  window_id = "w:0";
  token = 1;
  lease_expires_at = 110;
}

-- Taken after the first claim's permit, once its lease had run out.
abbrev pub second_claim : WindowClaim
second_claim = record {
  watch = some_watch;
  runtime = booking_runtime;
  owner_id = "b";
  window_id = "w:0";
  token = 2;
  lease_expires_at = 300;
}

abbrev pub cancelled_watch : Watch
cancelled_watch = record some_watch {
  status = WatchStatus.cancelled;
  next_check_at = none;
  updated_at = 30;
}

-- A store with the watch in it, and the store after the first claim.
abbrev pub created : Repo
created = (create_with_schedule (new_repo 1000) some_watch some_runtime).0

abbrev pub claimed : Repo
claimed = (claim_window created "w" "w:0" "a" 100 false 10).0
