-- ===== src/Redis/Recovery.antt =====
-- Retention cleanup, leadership and repair in the Redis store.
use dibs_reservation_sniper.Prelude.{
  ℕ, ◌+◌, max, String, Bool, true, false, not, ◌||◌, Option, none, some, List, [], ◌∷◌, leb, str_eq,
  if◌then◌else◌, is_some, is_some_and,
}
use dibs_reservation_sniper.Dict.{Dict, get, put, pop}
use dibs_reservation_sniper.Model.{
  is_active, is_terminal, WatchRuntime, RecoveryCandidate, CleanupResult,
}
use dibs_reservation_sniper.Repo.{set_default}
use dibs_reservation_sniper.Redis.State.{Keyspace, to_ms, srem, is_live}
use dibs_reservation_sniper.Redis.Dispatch.{due_members}
use dibs_reservation_sniper.Redis.Methods.{get_watch}

-- One round of the script's loop.
unfoldable pub cleanup_member : Keyspace → String → Keyspace × Bool
cleanup_member k id =
    if is_some_and (get k.documents id) (λ w. is_terminal w.status)
    then (
      record k {
        documents = pop k.documents id;
        runtimes = pop k.runtimes id;
        fences = pop k.fences id;
        claims = pop k.claims id;
        all_index = srem k.all_index id;
        active_index = srem k.active_index id;
        schedule = pop k.schedule id;
        terminal = pop k.terminal id;
      },
      true,
    )
    else (record k { terminal = pop k.terminal id }, false)

abbrev count_removed : Bool → ℕ → ℕ
count_removed true n = n + 1
count_removed false n = n

unfoldable pub cleanup_members : Keyspace → ℕ → Dict ℕ → Keyspace × ℕ
cleanup_members k removed [] = (k, removed)
cleanup_members k removed ((id, score) ∷ due) =
    let (k', gone) = cleanup_member k id in cleanup_members k' (count_removed gone removed) due

-- ZCOUNT up to a score is not zero.
abbrev any_due : Dict ℕ → ℕ → Bool
any_due [] now_ms = false
any_due ((id, score) ∷ d) now_ms = leb score now_ms || any_due d now_ms

unfoldable pub cleanup_due : Keyspace → ℕ → ℕ → Keyspace × CleanupResult
unfolding due_members
cleanup_due k now batch_size =
    let (k', removed) = cleanup_members k 0 (due_members k.terminal (to_ms now) batch_size) in
    (k', record { removed = removed; remaining = any_due k'.terminal (to_ms now) })

-- The leader key's native expiry is the authority here, so `server_ms` is the server's clock.
unfoldable pub leader_at : Keyspace → ℕ → Option String
leader_at k server_ms = elim k.leader [
  | none ↦ none
  | some l ↦ if leb l.until_ms server_ms then none else some l.owner
]

-- `max(1, int(lease_seconds * 1000))`
abbrev lease_ms : ℕ → ℕ
lease_ms lease = max 1 (to_ms lease)

abbrev lead : Keyspace → String → ℕ → Keyspace
lead k owner_id until_ms = record k {
  leader = some (record { owner = owner_id; until_ms = until_ms });
}

unfoldable pub acquire_leadership : Keyspace → String → ℕ → ℕ → Keyspace × Bool
acquire_leadership k owner_id lease server_ms =
    if is_some (leader_at k server_ms)
    then (k, false)
    else (lead k owner_id (server_ms + lease_ms lease), true)

unfoldable pub renew_leadership : Keyspace → String → ℕ → ℕ → Keyspace × Bool
renew_leadership k owner_id lease server_ms =
    if is_some_and (leader_at k server_ms) (λ o. str_eq o owner_id)
    then (lead k owner_id (server_ms + lease_ms lease), true)
    else (k, false)

unfoldable pub release_leadership : Keyspace → String → ℕ → Keyspace × Bool
release_leadership k owner_id server_ms =
    if is_some_and (leader_at k server_ms) (λ o. str_eq o owner_id)
    then (record k { leader = none }, true)
    else (k, false)

candidate : Keyspace → ℕ → String → RecoveryCandidate
candidate k now_ms id = record {
  watch_id = id;
  watch = get_watch k id;
  runtime = get k.runtimes id;
  has_marker = is_some (get k.schedule id);
  has_live_claim = is_live (get k.claims id) now_ms;
}

candidates : Keyspace → ℕ → List String → List RecoveryCandidate
unfolding candidate
candidates k now_ms [] = []
candidates k now_ms (id ∷ ids) = candidate k now_ms id ∷ candidates k now_ms ids

module _ (sorted_ids : List String → List String) where
  unfoldable pub list_recovery_candidates : Keyspace → ℕ → List RecoveryCandidate
  unfolding candidates
  list_recovery_candidates k now = candidates k (to_ms now) (sorted_ids k.active_index)

unfoldable pub prune_index_member : Keyspace → String → Bool → Keyspace
prune_index_member k id from_all =
    if from_all
    then record k {
      active_index = srem k.active_index id;
      all_index = srem k.all_index id;
      runtimes = pop k.runtimes id;
      fences = pop k.fences id;
      claims = pop k.claims id;
      schedule = pop k.schedule id;
    }
    else record k { active_index = srem k.active_index id }

unfoldable pub synthesize_script : Keyspace → String → WatchRuntime → ℕ → ℕ → Keyspace × Bool
synthesize_script k id runtime scheduled_ms now_ms =
    if not (is_some_and (get k.documents id) (λ w. is_active w.status))
    then (k, false)
    else if is_live (get k.claims id) now_ms
    then (k, false)
    else if is_some (get k.schedule id)
    then (k, false)
    else (
      record k {
        runtimes = put k.runtimes id runtime;
        fences = set_default k.fences id 0;
        schedule = put k.schedule id scheduled_ms;
      },
      true,
    )

unfoldable pub synthesize_marker : Keyspace → String → WatchRuntime → ℕ → Keyspace × Bool
synthesize_marker k id runtime now = elim runtime.window_id [
  | none ↦ (k, false)
  | some w ↦ elim runtime.scheduled_for [
    | none ↦ (k, false)
    | some t ↦ synthesize_script k id runtime (to_ms t) (to_ms now)
  ]
]
