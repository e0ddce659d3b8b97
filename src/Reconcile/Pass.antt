-- ===== src/Reconcile/Pass.antt =====
-- One pass: leadership, the candidates one by one, the due markers, the cleanups.
use dibs_reservation_sniper.Prelude.{
  ℕ, ◌+◌, min, String, Bool, true, false, not, ◌&&◌, ◌||◌, Option, none, some, List, [], ◌∷◌,
  length, ◌==◌, ltb, if◌then◌else◌, or_default,
}
use dibs_reservation_sniper.Model.{
  Watch, is_terminal, is_exhausted, WatchRuntime, window_id_for, migrate_legacy_watch,
  RecoveryCandidate, TransitionStatus, CleanupResult,
}
use dibs_reservation_sniper.Dispatcher.{DispatchSweepResult}
use dibs_reservation_sniper.Reconcile.Ports.{Ports, CoordinatorSettings}

pub record RecoveryOutcome : Type 0 where
  pub is_leader : Bool
  pub considered : ℕ
  pub pruned : ℕ
  pub expired : ℕ
  pub synthesized : ℕ
  pub dispatched : ℕ
  pub dispatch_failed : ℕ
  pub failed : ℕ
  pub cleanup_removed : ℕ
  pub backlog : Bool

-- An outcome with no more than the leadership and a failure to show.
abbrev pub bare : Bool → ℕ → Bool → RecoveryOutcome
bare is_leader failed backlog = record {
  is_leader = is_leader;
  considered = 0;
  pruned = 0;
  expired = 0;
  synthesized = 0;
  dispatched = 0;
  dispatch_failed = 0;
  failed = failed;
  cleanup_removed = 0;
  backlog = backlog;
}

unfoldable pub ready : RecoveryOutcome → Bool
ready o = o.is_leader && (o.failed == 0 && not o.backlog)

pub data Action : Type 0 where
  pruned expired synthesized noop deferred preserved : Action

abbrev is_applied : TransitionStatus → Bool
is_applied TransitionStatus.applied = true
is_applied _ = false

-- A due time that is set, capped at the watch's deadline.
abbrev capped : WatchRuntime → Watch → Option WatchRuntime
capped r watch = elim r.window_id [
  | none ↦ none
  | some w ↦ elim r.scheduled_for [
    | none ↦ none
    | some t ↦ some (record r { scheduled_for = some (min t watch.expires_at) })
  ]
]

unfoldable pub marker_runtime : ℕ → String → Watch → Option WatchRuntime → ℕ → Option WatchRuntime
marker_runtime earliest_delay id watch (some r) now = some (record r {
  window_id = some (or_default r.window_id (window_id_for id r.cadence_sequence));
  scheduled_for =
      some (min (or_default r.scheduled_for (or_default watch.next_check_at now)) watch.expires_at);
})
marker_runtime earliest_delay id watch none now =
    capped (migrate_legacy_watch watch earliest_delay now) watch

-- The calls' answers, with an error passed on.
abbrev answer {ℓ} : {S A B : Type ℓ} → S × Option A → (A → B) → S × Option B
answer (s, none) f = (s, none)
answer (s, some a) f = (s, some (f a))

module _ {S : Type 0} (ports : Ports S) (settings : CoordinatorSettings) where
  repair_known : S → String → Option WatchRuntime → S × Option Action
  repair_known s id none = (s, some Action.noop)
  repair_known s id (some r) =
      answer (ports.synthesize_marker s id r)
        (λ done. if done then Action.synthesized else Action.noop)

  reconcile_known : S → RecoveryCandidate → Watch → ℕ → S × Option Action
  unfolding repair_known
  reconcile_known s c watch now =
      if is_terminal watch.status
      then answer (ports.prune_index_member s c.watch_id false) (λ u. Action.pruned)
      else if is_exhausted watch now
      then answer (ports.expire s c.watch_id)
          (λ status. if is_applied status then Action.expired else Action.noop)
      else if c.has_live_claim
      then (s, some Action.deferred)
      else if not c.has_marker
      then repair_known s c.watch_id
          (marker_runtime settings.earliest_delay c.watch_id watch c.runtime now)
      else (s, some Action.preserved)

  unfoldable pub reconcile_one : S → RecoveryCandidate → ℕ → S × Option Action
  unfolding reconcile_known
  reconcile_one s c now = elim c.watch [
    | none ↦ answer (ports.prune_index_member s c.watch_id true) (λ u. Action.pruned)
    | some watch ↦ reconcile_known s c watch now
  ]

  -- An error is counted, and the other candidates are still looked at.
  unfoldable pub tally : Option Action → RecoveryOutcome → RecoveryOutcome
  tally none o = record o { failed = o.failed + 1 }
  tally (some Action.pruned) o = record o { pruned = o.pruned + 1 }
  tally (some Action.expired) o = record o { expired = o.expired + 1 }
  tally (some Action.synthesized) o = record o { synthesized = o.synthesized + 1 }
  tally (some _) o = o

  unfoldable pub reconcile_all :
      S → List RecoveryCandidate → ℕ → RecoveryOutcome → S × RecoveryOutcome
  unfolding reconcile_one tally
  reconcile_all s [] now o = (s, o)
  reconcile_all s (c ∷ cs) now o =
      let (s', action) = reconcile_one s c now in reconcile_all s' cs now (tally action o)

  abbrev swept : Option DispatchSweepResult → RecoveryOutcome → RecoveryOutcome
  swept none o = record o { dispatched = 0; dispatch_failed = 1; backlog = true }
  swept (some r) o = record o {
    dispatched = r.dispatched;
    dispatch_failed = r.failed;
    backlog = o.backlog || ltb 0 r.failed;
  }

  abbrev cleaned : Option CleanupResult → RecoveryOutcome → RecoveryOutcome
  cleaned none o = record o { backlog = true }
  cleaned (some r) o = record o { cleanup_removed = r.removed; backlog = o.backlog || r.remaining }

  abbrev mock_cleaned : Option (Unit {0}) → RecoveryOutcome → RecoveryOutcome
  mock_cleaned none o = record o { backlog = true }
  mock_cleaned (some u) o = o

  clean_mock : S → ℕ → RecoveryOutcome → S × RecoveryOutcome
  clean_mock s now o = elim ports.cleanup_mock [
    | none ↦ (s, o)
    | some clean ↦
        let (s', done) = clean s now settings.cleanup_batch_size in (s', mock_cleaned done o)
  ]

  run_listed : S → List RecoveryCandidate → ℕ → S × RecoveryOutcome
  unfolding reconcile_all clean_mock
  run_listed s candidates now =
      let start = record (bare true 0 false) { considered = length candidates } in
      let (s1, o1) = reconcile_all s candidates now start in
      let (s2, sweep) = ports.dispatch_due s1 in
      let o2 = swept sweep (record o1 { backlog = ltb 0 o1.failed }) in
      let (s3, cleanup) = ports.cleanup_due s2 now settings.cleanup_batch_size in
      clean_mock s3 now (cleaned cleanup o2)

  unfoldable pub run_pass : S → ℕ → S × RecoveryOutcome
  unfolding run_listed
  run_pass s now =
      let (s', listed) = ports.list_recovery_candidates s in
      elim listed [ none ↦ (s', bare true 1 true) | some candidates ↦ run_listed s' candidates now ]

  unfoldable pub hold_leadership : S → S × Option Bool
  hold_leadership s =
      if not settings.distributed
      then (s, some true)
      else let (s', renewed) = ports.renew_leadership s settings.owner_id settings.leader_lease in
        elim renewed [
          | none ↦ (s', none)
          | some held ↦
              if held
              then (s', some true)
              else ports.acquire_leadership s' settings.owner_id settings.leader_lease
        ]

  -- `now` is read when the pass starts.
  unfoldable pub reconcile_once : S → ℕ → S × RecoveryOutcome
  unfolding hold_leadership run_pass
  reconcile_once s now =
      let (s', leading) = hold_leadership s in
      elim leading [
        | none ↦ (s', bare false 1 true)
        | some leads ↦ if leads then run_pass s' now else (s', bare false 0 false)
      ]

  -- `release`: an error is swallowed.
  unfoldable pub release : S → S
  release s = if settings.distributed then (ports.release_leadership s settings.owner_id).0 else s
