-- ===== src/Model/Runtime.antt =====
-- backend/models/watch_runtime.py: the sidecar that holds a watch's revision and cadence window.
use dibs_reservation_sniper.Prelude.{
  ℕ, ◌+◌, ◌-◌, ◌/◌, max, String, Bool, false, Option, none, some, leb, if◌then◌else◌, or_default,
}
use dibs_reservation_sniper.Text.{numbered}
use dibs_reservation_sniper.Model.Watches.{Watch, is_terminal}

pub data RuntimePhase : Type 0 where
  polling booking : RuntimePhase

unfoldable pub window_id_for : String → ℕ → String
window_id_for watch_id cadence_sequence = numbered watch_id cadence_sequence

pub record WatchRuntime : Type 0 where
  pub revision : ℕ
  pub required_attempts : ℕ
  pub supports_deadline : Bool
  pub consecutive_outages : ℕ
  pub cadence_sequence : ℕ
  pub window_id : Option String
  pub scheduled_for : Option ℕ
  pub phase : Option RuntimePhase
  pub cancel_requested : Bool
  pub terminal_delete_at : Option ℕ

unfoldable pub initial_runtime : Watch → ℕ → Bool → Option RuntimePhase → WatchRuntime
initial_runtime watch required_attempts supports_deadline phase = record {
  revision = 0;
  required_attempts = required_attempts;
  supports_deadline = supports_deadline;
  consecutive_outages = 0;
  cadence_sequence = 0;
  window_id = some (window_id_for watch.watch_id 0);
  scheduled_for = watch.next_check_at;
  phase = phase;
  cancel_requested = false;
  terminal_delete_at = none;
}

-- -(-a // b) for b > 0
unfoldable pub ceil_div : ℕ → ℕ → ℕ
ceil_div a b = (a + (b - 1)) / b

-- `earliest` is the earliest delay in microseconds, already rounded to an integer.
unfoldable pub forward_required : Watch → ℕ → ℕ → ℕ
unfolding ceil_div
forward_required watch earliest now = ceil_div (watch.expires_at - now) (max 1 earliest) + 1

unfoldable pub migrate_legacy_watch : Watch → ℕ → ℕ → WatchRuntime
unfolding forward_required
migrate_legacy_watch watch earliest now =
    let required = watch.attempts + forward_required watch earliest now in
    let base : WatchRuntime = record {
      revision = 0;
      required_attempts = required;
      supports_deadline = leb required watch.max_attempts;
      consecutive_outages = 0;
      cadence_sequence = 0;
      window_id = none;
      scheduled_for = none;
      phase = none;
      cancel_requested = false;
      terminal_delete_at = none;
    } in
    if is_terminal watch.status then base else record base {
      window_id = some (window_id_for watch.watch_id 0);
      scheduled_for = some (or_default watch.next_check_at now);
    }
