-- ===== src/Repo/Claims.antt =====
-- The fenced life of one cadence window: create, claim, booking permit, commit, release.
use dibs_reservation_sniper.Prelude.{
  ℕ, ◌+◌, String, Bool, true, false, not, ◌&&◌, Option, none, some, ◌==◌, ltb, str_eq,
  if◌then◌else◌, is_some_and, or_default,
}
use dibs_reservation_sniper.Dict.{get, put, pop}
use dibs_reservation_sniper.Text.{numbered}
use dibs_reservation_sniper.Model.{
  Watch, is_terminal, WatchRuntime, RuntimePhase, WindowClaim, CreateStatus, CreateResult,
  ClaimStatus, ClaimResult, BookingPermitStatus, BookingPermit, CommitStatus, CommitResult,
}
use dibs_reservation_sniper.Repo.State.{Repo, set_marker, owns, issue_event}

unfoldable pub create_with_schedule : Repo → Watch → WatchRuntime → Repo × CreateResult
create_with_schedule s watch runtime = elim (get s.watches watch.watch_id) [
  | some old ↦ (
    s,
    record {
      status = CreateStatus.already_exists;
      watch = some old;
      runtime = get s.runtimes watch.watch_id;
    },
  )
  | none ↦ (
    set_marker
        (record s {
          watches = put s.watches watch.watch_id watch;
          runtimes = put s.runtimes watch.watch_id runtime;
          fence = put s.fence watch.watch_id 0;
        })
        watch.watch_id runtime,
    record { status = CreateStatus.created; watch = some watch; runtime = some runtime },
  )
]

abbrev pub refuse_claim : ClaimStatus → ClaimResult
refuse_claim status = record { status = status; claim = none }

-- The window is not due yet, and its delivery is not its own authority.
unfoldable pub not_due : Bool → WatchRuntime → ℕ → Bool
not_due ignore_schedule runtime now =
    not ignore_schedule && is_some_and runtime.scheduled_for (λ t. ltb now t)

abbrev pub window_is : Option String → String → Bool
window_is current window_id = is_some_and current (λ w. str_eq w window_id)

unfoldable pub lease_held : Repo → String → String → ℕ → Bool
lease_held s id window_id now =
    is_some_and (get s.claims id)
      (λ held. str_eq held.window_id window_id && ltb now held.expires_at)

abbrev pub next_token : Repo → String → ℕ
next_token s id = or_default (get s.fence id) 0 + 1

unfoldable pub grant_claim :
    Repo → Watch → WatchRuntime → String → String → String → ℕ → ℕ → Repo × ClaimResult
grant_claim s watch runtime id window_id owner_id expires token = (
  record s {
    fence = put s.fence id token;
    claims = put s.claims id (record {
      window_id = window_id;
      owner_id = owner_id;
      token = token;
      expires_at = expires;
    });
  },
  record {
    status = ClaimStatus.owned;
    claim = some (record {
      watch = watch;
      runtime = runtime;
      owner_id = owner_id;
      window_id = window_id;
      token = token;
      lease_expires_at = expires;
    });
  },
)

claim_known :
    Repo → Watch → WatchRuntime → String → String → String → ℕ → Bool → ℕ → Repo × ClaimResult
claim_known s watch runtime id window_id owner_id lease ignore_schedule now =
    if is_terminal watch.status
    then (s, refuse_claim ClaimStatus.terminal)
    else if not (window_is runtime.window_id window_id)
    then (s, refuse_claim ClaimStatus.stale)
    else if not_due ignore_schedule runtime now
    then (s, refuse_claim ClaimStatus.early)
    else if lease_held s id window_id now
    then (s, refuse_claim ClaimStatus.busy)
    else grant_claim s watch runtime id window_id owner_id (now + lease) (next_token s id)

-- The last argument is the instant at which the clock is read.
unfoldable pub claim_window : Repo → String → String → String → ℕ → Bool → ℕ → Repo × ClaimResult
unfolding claim_known
claim_window s id window_id owner_id lease ignore_schedule now = elim (get s.watches id) [
  | none ↦ (s, refuse_claim ClaimStatus.unknown)
  | some watch ↦ elim (get s.runtimes id) [
    | none ↦ (s, refuse_claim ClaimStatus.unknown)
    | some runtime ↦ claim_known s watch runtime id window_id owner_id lease ignore_schedule now
  ]
]

abbrev pub deny_permit : BookingPermitStatus → BookingPermit
deny_permit status = record { status = status; permit_id = none }

begin_known : Repo → WindowClaim → Watch → WatchRuntime → ℕ → Repo × BookingPermit
begin_known s claim watch runtime now =
    if is_terminal watch.status
    then (s, deny_permit BookingPermitStatus.fenced)
    else if not (owns s claim runtime now)
    then (s, deny_permit BookingPermitStatus.fenced)
    else if runtime.cancel_requested
    then (s, deny_permit BookingPermitStatus.cancelled)
    else (
      record s {
        runtimes =
            put s.runtimes claim.watch.watch_id
              (record runtime { phase = some RuntimePhase.booking });
      },
      record {
        status = BookingPermitStatus.granted;
        permit_id = some (numbered claim.watch.watch_id claim.token);
      },
    )

unfoldable pub begin_booking : Repo → WindowClaim → ℕ → Repo × BookingPermit
unfolding begin_known
begin_booking s claim now = elim (get s.watches claim.watch.watch_id) [
  | none ↦ (s, deny_permit BookingPermitStatus.fenced)
  | some watch ↦ elim (get s.runtimes claim.watch.watch_id) [
    | none ↦ (s, deny_permit BookingPermitStatus.fenced)
    | some runtime ↦ begin_known s claim watch runtime now
  ]
]

abbrev refuse_commit : CommitStatus → Option Watch → CommitResult
refuse_commit status watch = record { status = status; watch = watch; event_id = none }

-- What both kinds of commit store: the caller's sidecar at the next revision, out of any phase.
abbrev pub committed_runtime : WatchRuntime → ℕ → WatchRuntime
committed_runtime r revision = record r { revision = revision; phase = none }

commit_successor : Repo → String → Watch → WatchRuntime → Repo
commit_successor s id watch runtime =
    set_marker
      (record s {
        watches = put s.watches id watch;
        runtimes = put s.runtimes id runtime;
        claims = pop s.claims id;
      })
      id runtime

commit_final : Repo → String → Watch → WatchRuntime → ℕ → Repo
commit_final s id watch runtime deadline = record s {
  watches = put s.watches id watch;
  runtimes = put s.runtimes id (record runtime { terminal_delete_at = some deadline });
  claims = pop s.claims id;
  markers = pop s.markers id;
  dispatch_leases = pop s.dispatch_leases id;
  terminal_delete_at = put s.terminal_delete_at id deadline;
}

-- Releasing is by token and owner alone, so an expired lease is released too.
unfoldable pub release_claim : Repo → WindowClaim → Repo × Bool
release_claim s claim =
    if is_some_and (get s.claims claim.watch.watch_id)
      (λ held. held.token == claim.token && str_eq held.owner_id claim.owner_id)
    then (record s { claims = pop s.claims claim.watch.watch_id }, true)
    else (s, false)

module _ (sha1_hex : String → String) where
  commit_owned : Repo → WindowClaim → WatchRuntime → Watch → WatchRuntime → ℕ → Repo × CommitResult
  unfolding commit_successor commit_final
  commit_owned s claim runtime new_watch new_runtime later =
      let id = claim.watch.watch_id in
      let revision = runtime.revision + 1 in
      let stored = committed_runtime new_runtime revision in
      let final =
        issue_event sha1_hex (commit_final s id new_watch stored (later + s.retention)) id
          new_watch.status revision in
      if is_terminal new_watch.status
      then (
        final.0,
        record { status = CommitStatus.committed; watch = some new_watch; event_id = final.1 },
      )
      else (
        commit_successor s id new_watch stored,
        record { status = CommitStatus.committed; watch = some new_watch; event_id = none },
      )

  commit_known :
      Repo → WindowClaim → Watch → WatchRuntime → Watch → WatchRuntime → ℕ → ℕ → Repo × CommitResult
  unfolding commit_owned
  commit_known s claim watch runtime new_watch new_runtime now later =
      if is_terminal watch.status
      then (s, refuse_commit CommitStatus.terminal (some watch))
      else if not (owns s claim runtime now)
      then (s, refuse_commit CommitStatus.fenced none)
      else commit_owned s claim runtime new_watch new_runtime later

  -- The clock is read for the lease (`now`) and once more for the retention deadline (`later`).
  unfoldable pub commit_window :
      Repo → WindowClaim → Watch → WatchRuntime → ℕ → ℕ → Repo × CommitResult
  unfolding commit_known
  commit_window s claim new_watch new_runtime now later =
      elim (get s.watches claim.watch.watch_id) [
        | none ↦ (s, refuse_commit CommitStatus.unknown none)
        | some watch ↦ elim (get s.runtimes claim.watch.watch_id) [
          | none ↦ (s, refuse_commit CommitStatus.unknown none)
          | some runtime ↦ commit_known s claim watch runtime new_watch new_runtime now later
        ]
      ]
