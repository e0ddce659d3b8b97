-- ===== src/Redis/Tied.antt =====
-- What the in-memory store's entries have to satisfy for a keyspace to show the same decisions:
-- the schedule and the leases say what the sidecar says, in whole milliseconds.
use dibs_reservation_sniper.Prelude.{
  ℕ, ◌<◌, ◌≡◌, String, Bool, true, false, Option, none, some, arith, eq_iff,
}
use dibs_reservation_sniper.Dict.{get, get-put, get-pop}
use dibs_reservation_sniper.Model.{Watch, is_active, WatchRuntime, ScheduleMarker}
use dibs_reservation_sniper.Repo.{Repo, ClaimLease, marker_of}
use dibs_reservation_sniper.Redis.State.{Whole}

-- A document is stored under its own id.
abbrev pub OwnId : String → Option Watch → Type 0
OwnId id none = Unit {0}
OwnId id (some w) = w.watch_id ≡ id

-- An active watch has the marker of its sidecar, or none if that has none.
abbrev pub MarkerTied : String → Option Watch → Option WatchRuntime → Option ScheduleMarker → Type 0
MarkerTied id (some w) (some r) m = is_active w.status ≡ true → m ≡ marker_of id r
MarkerTied id _ _ m = Unit {0}

-- A claim is for the window of its sidecar.
abbrev pub ClaimTied : Option WatchRuntime → Option ClaimLease → Type 0
ClaimTied (some r) (some c) = r.window_id ≡ some c.window_id
ClaimTied _ _ = Unit {0}

abbrev pub DueWhole : Option ℕ → Type 0
DueWhole none = Unit {0}
DueWhole (some t) = Whole t

abbrev pub RuntimeWhole : Option WatchRuntime → Type 0
RuntimeWhole none = Unit {0}
RuntimeWhole (some r) = DueWhole r.scheduled_for

abbrev pub LeaseWhole : Option ClaimLease → Type 0
LeaseWhole none = Unit {0}
LeaseWhole (some c) = Whole c.expires_at

-- A claim's lease is not over.
abbrev pub InTime : Option ClaimLease → ℕ → Type 0
InTime none now = Unit {0}
InTime (some held) now = now < held.expires_at

pub record IsTied (s : Repo) (id : String) : Type 0 where
  pub own_id : OwnId id (get s.watches id)
  pub marker_tied : MarkerTied id (get s.watches id) (get s.runtimes id) (get s.markers id)
  pub claim_tied : ClaimTied (get s.runtimes id) (get s.claims id)
  pub runtime_whole : RuntimeWhole (get s.runtimes id)
  pub lease_whole : LeaseWhole (get s.claims id)

pub ruleset tied_rules = (arith, eq_iff, get-put, get-pop)
