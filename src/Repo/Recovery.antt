-- ===== src/Repo/Recovery.antt =====
-- Retention cleanup, and the surface through which recovery repairs the store.
use dibs_reservation_sniper.Prelude.{
  ℕ, ◌+◌, String, Bool, true, false, not, ◌||◌, none, some, List, [], ◌∷◌, take, ltb, leb,
  if◌then◌else◌, is_some, is_some_and, sort_by,
}
use dibs_reservation_sniper.Dict.{Dict, get, put, pop}
use dibs_reservation_sniper.Model.{
  Watch, is_active, is_terminal, WatchRuntime, RecoveryCandidate, CleanupResult,
}
use dibs_reservation_sniper.Repo.State.{Repo, set_marker}
use dibs_reservation_sniper.Repo.Documents.{forget}

-- The ids whose deadline has passed, with the deadline, in insertion order.
unfoldable pub due_ids : ℕ → Dict ℕ → Dict ℕ
due_ids now [] = []
due_ids now ((id, deadline) ∷ d) =
    let rest = due_ids now d in if leb deadline now then (id, deadline) ∷ rest else rest

drop_deadline : Repo → String → Repo
drop_deadline s id = record s { terminal_delete_at = pop s.terminal_delete_at id }

-- One round of the loop: the document is looked at again before anything is deleted.
unfoldable pub cleanup_one : Repo → String → Repo × Bool
unfolding drop_deadline
cleanup_one s id =
    if is_some_and (get s.watches id) (λ w. is_terminal w.status)
    then (forget s id, true)
    else (drop_deadline s id, false)

abbrev count_removed : Bool → ℕ → ℕ
count_removed true n = n + 1
count_removed false n = n

unfoldable pub cleanup_all : Repo → ℕ → Dict ℕ → Repo × ℕ
cleanup_all s removed [] = (s, removed)
cleanup_all s removed ((id, deadline) ∷ due) =
    let (s', gone) = cleanup_one s id in cleanup_all s' (count_removed gone removed) due

abbrev any_due : ℕ → Dict ℕ → Bool
any_due now [] = false
any_due now ((id, deadline) ∷ d) = leb deadline now || any_due now d

unfoldable pub cleanup_due : Repo → ℕ → ℕ → Repo × CleanupResult
unfolding cleanup_all due_ids
cleanup_due s now batch_size =
    let due = sort_by (λ e. e.1) (due_ids now s.terminal_delete_at) in
    let (s', removed) = cleanup_all s 0 (take batch_size due) in
    (s', record { removed = removed; remaining = any_due now s'.terminal_delete_at })

abbrev pub candidate : Repo → ℕ → String → Watch → RecoveryCandidate
candidate s now id watch = record {
  watch_id = id;
  watch = some watch;
  runtime = get s.runtimes id;
  has_marker = is_some (get s.markers id);
  has_live_claim = is_some_and (get s.claims id) (λ held. ltb now held.expires_at);
}

candidates : Repo → ℕ → Dict Watch → List RecoveryCandidate
candidates s now [] = []
candidates s now ((id, watch) ∷ d) =
    let rest = candidates s now d in
    if is_active watch.status then candidate s now id watch ∷ rest else rest

unfoldable pub list_recovery_candidates : Repo → ℕ → List RecoveryCandidate
unfolding candidates
list_recovery_candidates s now = candidates s now s.watches

-- The two dispatch dictionaries are left as they are.
unfoldable pub prune_index_member : Repo → String → Bool → Repo
prune_index_member s id from_all =
    if from_all
    then record s {
      watches = pop s.watches id;
      runtimes = pop s.runtimes id;
      fence = pop s.fence id;
      claims = pop s.claims id;
      markers = pop s.markers id;
      terminal_delete_at = pop s.terminal_delete_at id;
    }
    else s

abbrev pub set_default : Dict ℕ → String → ℕ → Dict ℕ
set_default d id v = elim (get d id) [ none ↦ put d id v | some _ ↦ d ]

synthesize_known : Repo → String → WatchRuntime → Repo × Bool
synthesize_known s id runtime =
    let s' =
      set_marker
        (record s { runtimes = put s.runtimes id runtime; fence = set_default s.fence id 0 }) id
        runtime in
    (s', is_some (get s'.markers id))

unfoldable pub synthesize_marker : Repo → String → WatchRuntime → ℕ → Repo × Bool
unfolding synthesize_known
synthesize_marker s id runtime now =
    if not (is_some_and (get s.watches id) (λ w. is_active w.status))
    then (s, false)
    else if is_some_and (get s.claims id) (λ held. ltb now held.expires_at)
    then (s, false)
    else if is_some (get s.markers id)
    then (s, false)
    else synthesize_known s id runtime
