-- ===== src/Repo/Coherent.antt =====
-- What the entries of one watch have to do with one another.
pub mod Claims
pub mod Repairs
use dibs_reservation_sniper.Prelude.{
  ℕ, ◌≤◌, ◌≡◌, String, true, Option, none, some, arith, is_some, eq_iff,
}
use dibs_reservation_sniper.Dict.{get, get-put, get-pop}
use dibs_reservation_sniper.Model.{Watch, is_active, is_terminal, WatchRuntime, ScheduleMarker}
use dibs_reservation_sniper.Repo.State.{Repo, ClaimLease, DispatchLease, marker_of}

-- A claim is held on an active watch only, under a token that the fence has reached.
abbrev pub ClaimOk : Option Watch → Option ℕ → Option ClaimLease → Type 0
ClaimOk w f none = Unit {0}
ClaimOk (some w) (some n) (some c) = (is_active w.status ≡ true) × (c.token ≤ n)
ClaimOk _ _ (some c) = ⊥

-- A marker belongs to an active watch, and shows the window of its sidecar.
abbrev pub MarkerOk : String → Option Watch → Option WatchRuntime → Option ScheduleMarker → Type 0
MarkerOk id w r none = Unit {0}
MarkerOk id (some w) (some r) (some m) = (is_active w.status ≡ true) × (marker_of id r ≡ some m)
MarkerOk id _ _ (some m) = ⊥

-- Exactly the finished watches have a retention deadline.
abbrev pub DeadlineOk : Option Watch → Option ℕ → Type 0
DeadlineOk none d = d ≡ none
DeadlineOk (some w) d = is_some d ≡ is_terminal w.status

-- A finished watch has no publication lease, and a lease's generation is one that was given out.
-- The lease of a document that is gone stays until it is over.
abbrev pub LeaseOk : Option Watch → Option ℕ → Option DispatchLease → Type 0
LeaseOk w f none = Unit {0}
LeaseOk none (some n) (some l) = l.generation ≤ n
LeaseOk (some w) (some n) (some l) = (is_active w.status ≡ true) × (l.generation ≤ n)
LeaseOk w none (some l) = ⊥

-- A document, its sidecar and its fence come and go together.
abbrev pub RecordOk : Option Watch → Option WatchRuntime → Option ℕ → Type 0
RecordOk w r f = (is_some r ≡ is_some w) × (is_some f ≡ is_some w)

pub ruleset coherent_rules = (arith, eq_iff, get-put, get-pop)

pub record IsCoherent (s : Repo) (id : String) : Type 0 where
  pub record_ok : RecordOk (get s.watches id) (get s.runtimes id) (get s.fence id)
  pub claim_ok : ClaimOk (get s.watches id) (get s.fence id) (get s.claims id)
  pub marker_ok : MarkerOk id (get s.watches id) (get s.runtimes id) (get s.markers id)
  pub deadline_ok : DeadlineOk (get s.watches id) (get s.terminal_delete_at id)
  pub lease_ok : LeaseOk (get s.watches id) (get s.dispatch_fence id) (get s.dispatch_leases id)
