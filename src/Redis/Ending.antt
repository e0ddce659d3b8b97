-- ===== src/Redis/Ending.antt =====
-- Cancelling and expiring a watch in the keyspace and in the in-memory store, while no other client
-- writes between the round trips.
use dibs_reservation_sniper.Prelude.{
  ℕ, ◌+◌, ◌≡◌, refl, String, Bool, true, false, not, ◌&&◌, Option, some, List, arith, eq_iff,
  Option-cases, Bool-cases, inl, inr, str_eq, ◌==◌, subst,
}
use dibs_reservation_sniper.Dict.{get}
use dibs_reservation_sniper.Model.{Watch, is_terminal, is_exhausted, WatchRuntime, TransitionStatus}
use dibs_reservation_sniper.Repo
use dibs_reservation_sniper.Repo.{
  Repo, ClaimLease, in_booking, apply_terminal, issue_event, revision_moved,
}
use dibs_reservation_sniper.Redis.State.{Keyspace, to_ms, srem}
use dibs_reservation_sniper.Redis.Scripts.{cancel_script, expire_script}
use dibs_reservation_sniper.Redis.Methods
use dibs_reservation_sniper.Redis.Methods.{get_watch, cancel_mode}
use dibs_reservation_sniper.Redis.Tied.{IsTied, OwnId}
use dibs_reservation_sniper.Redis.View.{view, pop-map_values, put-map_values, held_of, score_of}

-- No other client writes.
abbrev pub quiet : ℕ → Keyspace → Keyspace
quiet n k = k

abbrev ended_index : TransitionStatus → String → List String → List String
ended_index TransitionStatus.applied id ids = srem ids id
ended_index _ id ids = ids

-- A transition that was applied drops the watch from the active index.
abbrev pub ended : Keyspace → TransitionStatus → String → Keyspace
ended k status id = record k { active_index = ended_index status id k.active_index }

reads_own : (id : String) (w : Watch) → OwnId id (some w) → str_eq w.watch_id id ≡ true
reads_own id w e = ground (arith, e, eq_iff w.watch_id id)

unmoved : (r : WatchRuntime) → not (r.revision == r.revision) ≡ false
unmoved r = ground arith

module _ (s : Repo) (k : Keyspace) (id : String) (now : ℕ) where
  attempt_refines :
      IsTied s id
      → Methods.cancel_attempt quiet (λ n. now) (view s k) id 0 ≡ (
          let (s', result) = Repo.cancel_if_active s id now in
          (view s' (ended k result.status id), some result))
  unfolding view Methods.cancel_attempt Repo.cancel_if_active cancel_script get get_watch
      cancel_mode apply_terminal
  attempt_refines t = elim (Option-cases (get s.watches id)) [
    | inl e ↦ rw (e, Methods.cancel_attempt, Repo.cancel_if_active) refl
    | inr (w, e) ↦
        let own = reads_own id w (subst (OwnId id) e t.own_id) in
        elim (Bool-cases (is_terminal w.status)) [
          | inl a ↦ rw (e, own, a, Methods.cancel_attempt, Repo.cancel_if_active) refl
          | inr a ↦
              rw (e, own, a, Methods.cancel_attempt, Repo.cancel_if_active)
                (elim (Option-cases (get s.runtimes id)) [
                  | inl f ↦
                      rw (f, e, a, f)
                        (rw
                          (
                            ← pop-map_values held_of s.claims id,
                            ← pop-map_values score_of s.markers id,
                            ← put-map_values to_ms s.terminal_delete_at id (now + s.retention),
                          )
                          refl)
                  | inr (r, f) ↦ elim (Bool-cases (in_booking r)) [
                    | inl b ↦ rw (f, e, a, f) (rw (unmoved r, b) refl)
                    | inr b ↦
                        rw (f, e, a, f)
                          (rw
                            (
                              unmoved r,
                              b,
                              ← pop-map_values held_of s.claims id,
                              ← pop-map_values score_of s.markers id,
                              ← put-map_values to_ms s.terminal_delete_at id (now + s.retention),
                            )
                            refl)
                  ]
                ])
        ]
  ]

  pub cancel_refines :
      IsTied s id
      → Methods.cancel_if_active quiet (λ n. now) (view s k) id ≡ (
          let (s', result) = Repo.cancel_if_active s id now in
          (view s' (ended k result.status id), result))
  unfolding Methods.cancel_if_active
  cancel_refines t = rw (attempt_refines t) refl

  module _ (sha1_hex : String → String) (expected : Option ℕ) (force : Bool) where
    pub expire_refines :
        IsTied s id
        → Methods.expire_if_eligible sha1_hex quiet (view s k) id expected force now now ≡ (
            let (s', result) = Repo.expire_if_eligible sha1_hex s id expected force now in
            (view s' (ended k result.status id), result))
    unfolding view Methods.expire_if_eligible Repo.expire_if_eligible expire_script get get_watch
        apply_terminal issue_event
    expire_refines t = elim (Option-cases (get s.watches id)) [
      | inl e ↦ rw (e, Methods.expire_if_eligible, Repo.expire_if_eligible) refl
      | inr (w, e) ↦
          let own = reads_own id w (subst (OwnId id) e t.own_id) in
          elim (Bool-cases (is_terminal w.status)) [
            | inl a ↦ rw (e, own, a, Methods.expire_if_eligible, Repo.expire_if_eligible) refl
            | inr a ↦ elim (Bool-cases (revision_moved expected (get s.runtimes id))) [
              | inl m ↦ rw (e, own, a, m, Methods.expire_if_eligible, Repo.expire_if_eligible) refl
              | inr m ↦ elim (Bool-cases (not force && not (is_exhausted w now))) [
                | inl x ↦
                    rw (e, own, a, m, x, Methods.expire_if_eligible, Repo.expire_if_eligible) refl
                | inr x ↦
                    rw (e, own, a, m, x, Methods.expire_if_eligible, Repo.expire_if_eligible)
                      (elim (Option-cases (get s.runtimes id)) [
                        | inl f ↦
                            rw (f, e, a, f)
                              (rw
                                (
                                  ← pop-map_values held_of s.claims id,
                                  ← pop-map_values score_of s.markers id,
                                  ← put-map_values to_ms s.terminal_delete_at id
                                      (now + s.retention),
                                )
                                refl)
                        | inr (r, f) ↦
                            rw (f, e, a, f)
                              (rw
                                (
                                  unmoved r,
                                  ← pop-map_values held_of s.claims id,
                                  ← pop-map_values score_of s.markers id,
                                  ← put-map_values to_ms s.terminal_delete_at id
                                      (now + s.retention),
                                )
                                refl)
                      ])
              ]
            ]
          ]
    ]
