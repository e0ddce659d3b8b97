-- ===== src/Repo/State.antt =====
-- The store's fields, and the internal helpers that its methods share.
use Prim.Native.String.{◌++◌ as str_append}
use dibs_reservation_sniper.Prelude.{
  ℕ, ◌+◌, String, Bool, true, false, ◌&&◌, Option, none, some, List, [], ◌∷◌, ◌==◌, ltb, str_eq,
  if◌then◌else◌, is_some_and,
}
use dibs_reservation_sniper.Dict.{Dict, get, put, pop}
use dibs_reservation_sniper.Text.{numbered}
use dibs_reservation_sniper.Model.{
  WatchStatus, Watch, status_value, WatchRuntime, ScheduleMarker, WindowClaim,
}

pub record ClaimLease : Type 0 where
  pub window_id : String
  pub owner_id : String
  pub token : ℕ
  pub expires_at : ℕ

pub record DispatchLease : Type 0 where
  pub window_id : String
  pub owner_id : String
  pub generation : ℕ
  pub expires_at : ℕ

pub record Repo : Type 0 where
  pub retention : ℕ
  pub watches : Dict Watch
  pub runtimes : Dict WatchRuntime
  pub fence : Dict ℕ
  pub claims : Dict ClaimLease
  pub dispatch_fence : Dict ℕ
  pub dispatch_leases : Dict DispatchLease
  pub markers : Dict ScheduleMarker
  pub terminal_delete_at : Dict ℕ
  pub events : List String

unfoldable pub new_repo : ℕ → Repo
new_repo retention = record {
  retention = retention;
  watches = [];
  runtimes = [];
  fence = [];
  claims = [];
  dispatch_fence = [];
  dispatch_leases = [];
  markers = [];
  terminal_delete_at = [];
  events = [];
}

-- `set.add`
unfoldable pub add_event : String → List String → List String
add_event e [] = e ∷ []
add_event e (x ∷ xs) = if str_eq x e then x ∷ xs else x ∷ add_event e xs

-- A window that is set and due at an instant gets a marker; any other has none.
unfoldable pub marker_of : String → WatchRuntime → Option ScheduleMarker
marker_of id r = elim r.window_id [
  | none ↦ none
  | some w ↦ elim r.scheduled_for [
    | none ↦ none
    | some t ↦ some (record { watch_id = id; window_id = w; scheduled_for = t })
  ]
]

-- `if m is not None: d[id] = m else: d.pop(id, None)`
abbrev pub put_or_pop {ℓ} : {V : Type ℓ} → Dict V → String → Option V → Dict V
put_or_pop d id none = pop d id
put_or_pop d id (some m) = put d id m

unfoldable pub set_marker : Repo → String → WatchRuntime → Repo
set_marker s id r = record s { markers = put_or_pop s.markers id (marker_of id r) }

-- The claim still holds an unexpired lease, and no transition has been made since it was granted.
unfoldable pub owns : Repo → WindowClaim → WatchRuntime → ℕ → Bool
owns s claim current now =
    current.revision == claim.runtime.revision
    && is_some_and (get s.claims claim.watch.watch_id) (λ held.
      held.token == claim.token && (str_eq held.owner_id claim.owner_id && ltb now held.expires_at))

abbrev pub next_revision : Option WatchRuntime → ℕ
next_revision none = 0
next_revision (some r) = r.revision + 1

abbrev pub closed_runtime : WatchRuntime → ℕ → WatchRuntime
closed_runtime r deadline = record r {
  revision = r.revision + 1;
  window_id = none;
  scheduled_for = none;
  phase = none;
  cancel_requested = false;
  terminal_delete_at = some deadline;
}

abbrev pub close_runtime : Dict WatchRuntime → String → Option WatchRuntime → ℕ → Dict WatchRuntime
close_runtime d id none deadline = d
close_runtime d id (some r) deadline = put d id (closed_runtime r deadline)

-- `_apply_terminal` returns the new revision too, which is `next_revision runtime`.
unfoldable pub apply_terminal : Repo → String → Watch → Option WatchRuntime → ℕ → Repo
apply_terminal s id watch runtime now = record s {
  watches = put s.watches id watch;
  runtimes = close_runtime s.runtimes id runtime (now + s.retention);
  claims = pop s.claims id;
  dispatch_leases = pop s.dispatch_leases id;
  markers = pop s.markers id;
  terminal_delete_at = put s.terminal_delete_at id (now + s.retention);
}

-- The statuses whose transitions are announced.
abbrev pub is_event_status : WatchStatus → Bool
is_event_status WatchStatus.found = true
is_event_status WatchStatus.booked = true
is_event_status WatchStatus.expired = true
is_event_status _ = false

-- SHA-1 in hexadecimal is `hashlib`'s.
module _ (sha1_hex : String → String) where
  unfoldable pub terminal_event_id : String → WatchStatus → ℕ → String
  terminal_event_id id status revision =
      sha1_hex (numbered (str_append id (str_append ":" (status_value status))) revision)

  unfoldable pub issue_event : Repo → String → WatchStatus → ℕ → Repo × Option String
  issue_event s id status revision =
      if is_event_status status
      then (
        record s { events = add_event (terminal_event_id id status revision) s.events },
        some (terminal_event_id id status revision),
      )
      else (s, none)
