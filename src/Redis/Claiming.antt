-- ===== src/Redis/Claiming.antt =====
-- Claiming a window in the keyspace and in the in-memory store.
use dibs_reservation_sniper.Prelude.{
  ℕ, ◌+◌, ◌*◌, ◌≡◌, refl, String, Bool, true, false, not, ◌&&◌, Option, some, arith, ltb,
  is_some_and, Option-cases, Bool-cases, inl, inr, str_eq,
}
use dibs_reservation_sniper.Dict.{get}
use dibs_reservation_sniper.Model.{Watch, is_terminal, WatchRuntime}
use dibs_reservation_sniper.Repo
use dibs_reservation_sniper.Repo.{
  Repo, ClaimLease, marker_of, window_is, not_due, lease_held, grant_claim, next_token,
}
use dibs_reservation_sniper.Repo.Coherent.{IsCoherent}
use dibs_reservation_sniper.Redis.State.{Keyspace, to_ms, Whole, is_live}
use dibs_reservation_sniper.Redis.Scripts.{claim_script}
use dibs_reservation_sniper.Redis.Methods
use dibs_reservation_sniper.Redis.View.{
  view, map_values, on_some, get-map_values, put-map_values, held_of, score_of,
}
use dibs_reservation_sniper.Redis.Tied.{IsTied, ClaimTied, DueWhole, LeaseWhole}

-- The score of the due window says whether it is early, for whole milliseconds.
early_agrees :
    (id win : String) (r : WatchRuntime) (ig : Bool) (now : ℕ)
    → window_is r.window_id win ≡ true
    → DueWhole r.scheduled_for
    → Whole now
    → not ig && is_some_and (on_some score_of (marker_of id r)) (λ due. ltb (to_ms now) due)
      ≡ not_due ig r now
unfolding marker_of not_due
early_agrees id win r ig now e q p = ground (arith, e, q, p)

busy_agrees :
    (r : WatchRuntime) (win : String) (held : Option ClaimLease) (now : ℕ)
    → window_is r.window_id win ≡ true
    → ClaimTied (some r) held
    → LeaseWhole held
    → Whole now
    → is_live (on_some held_of held) (to_ms now)
      ≡ is_some_and held (λ c. str_eq c.window_id win && ltb now c.expires_at)
busy_agrees r win held now e t q p = ground (arith, e, t, q, p)

-- The sum of whole milliseconds is the sum of their counts.
sum_ms : (a b : ℕ) → Whole a → Whole b → to_ms (a + b) ≡ to_ms a + to_ms b
sum_ms a b p q = omega arith

sum_from_ms : (a b : ℕ) → Whole a → Whole b → to_ms (a + b) * 1000 ≡ a + b
sum_from_ms a b p q = omega arith

module _ (s : Repo) (k : Keyspace) (id win owner : String) (lease : ℕ) (ig : Bool) (now : ℕ) where
  -- On an active watch whose window it is, both ask in the same order whether it is early or busy.
  active_refines :
      (w : Watch) (r : WatchRuntime)
      → window_is r.window_id win ≡ true
      → IsTied s id
      → get s.watches id ≡ some w
      → get s.runtimes id ≡ some r
      → is_terminal w.status ≡ false
      → Whole now
      → Whole lease
      → Methods.claim_window (view s k) id win owner lease ig now
        ≡ (let (s', result) = Repo.claim_window s id win owner lease ig now in (view s' k, result))
  unfolding view grant_claim lease_held Methods.claim_window Repo.claim_window claim_script get
      not_due map_values
  active_refines w r d t e f a p q =
      let early = early_agrees id win r ig now d (ground (arith, t.runtime_whole, f)) p in
      let tied : get s.markers id ≡ marker_of id r = ground (arith, t.marker_tied, e, f, a) in
      let busy =
        busy_agrees r win (get s.claims id) now d (rw (← f) t.claim_tied) t.lease_whole p in
      let granted : ClaimLease = record {
        window_id = win;
        owner_id = owner;
        token = next_token s id;
        expires_at = now + lease;
      } in
      rw (e, f, a, d, Methods.claim_window, Repo.claim_window)
        (rw
          (
            get-map_values score_of s.markers id,
            get-map_values held_of s.claims id,
            tied,
            early,
            busy,
          )
          (elim (Bool-cases (not_due ig r now)) [
            | inl g ↦ rw g refl
            | inr g ↦ elim (Bool-cases (lease_held s id win now)) [
              | inl h ↦ rw (g, h) refl
              | inr h ↦
                  rw
                    (
                      g,
                      h,
                      ← sum_ms now lease p q,
                      ← put-map_values held_of s.claims id granted,
                      sum_from_ms now lease p q,
                    )
                    refl
            ]
          ]))

  pub claim_refines :
      IsCoherent s id
      → IsTied s id
      → Whole now
      → Whole lease
      → Methods.claim_window (view s k) id win owner lease ig now
        ≡ (let (s', result) = Repo.claim_window s id win owner lease ig now in (view s' k, result))
  unfolding view Methods.claim_window Repo.claim_window claim_script get
  claim_refines c t p q = elim (Option-cases (get s.watches id)) [
    | inl e ↦ rw (e, Repo.claim_window, Methods.claim_window) refl
    | inr (w, e) ↦ elim (Option-cases (get s.runtimes id)) [
      | inl f ↦ ground (arith, c.record_ok, e, f)
      | inr (r, f) ↦ elim (Bool-cases (is_terminal w.status)) [
        | inl a ↦ rw (e, f, a, Repo.claim_window, Methods.claim_window) refl
        | inr a ↦ elim (Bool-cases (window_is r.window_id win)) [
          | inl d ↦ active_refines w r d t e f a p q
          | inr d ↦ rw (e, f, a, d, Repo.claim_window, Methods.claim_window) refl
        ]
      ]
    ]
  ]
