-- ===== src/Reconcile/Mended.antt =====
-- The coordinator over the in-memory store.
use dibs_reservation_sniper.Prelude.{
  ℕ, ◌≤◌, ◌≡◌, ◌⊎◌, refl, inl, inr, String, true, false, Option, none, some, arith, Bool-cases,
  is_some, is_some_and, ltb, eq_refl,
}
use dibs_reservation_sniper.Dict.{get, get-put}
use dibs_reservation_sniper.Model.{
  Watch, is_active, is_terminal, is_exhausted, WatchRuntime, migrate_legacy_watch, ScheduleMarker,
  TransitionStatus,
}
use dibs_reservation_sniper.Dispatcher.{DispatchSweepResult}
use dibs_reservation_sniper.Repo.{
  Repo, candidate, marker_of, set_marker, expire_if_eligible, synthesize_marker, prune_index_member,
  cleanup_due, list_recovery_candidates, apply_terminal, issue_event,
}
use dibs_reservation_sniper.Reconcile.Ports.{Ports, CoordinatorSettings}
use dibs_reservation_sniper.Reconcile.Pass.{expired, synthesized, marker_runtime, reconcile_one}

-- The in-memory store at an instant of its clock. It has no leader lease, so those calls raise; the
-- dispatcher's sweep is an argument.
module _ (sha1_hex : String → String) (clock : ℕ)
    (dispatch_due : Repo → Repo × Option DispatchSweepResult) where
  abbrev pub memory_ports : Ports Repo
  memory_ports = record {
    renew_leadership = λ s o l. (s, none);
    acquire_leadership = λ s o l. (s, none);
    release_leadership = λ s o. (s, none);
    list_recovery_candidates = λ s. (s, some (list_recovery_candidates s clock));
    prune_index_member = λ s id from_all. (prune_index_member s id from_all, some tt);
    expire = λ s id.
        let (s', result) = expire_if_eligible sha1_hex s id none false clock in
        (s', some result.status);
    synthesize_marker =
        λ s id r. let (s', done) = synthesize_marker s id r clock in (s', some done);
    dispatch_due = dispatch_due;
    cleanup_due = λ s now batch. let (s', result) = cleanup_due s now batch in (s', some result);
    cleanup_mock = none;
  }

-- The sidecar of a repair has a marker, due at the watch's deadline or before it.
marker_runtime-due :
    (earliest : ℕ) (id : String) (w : Watch) (r : Option WatchRuntime) (now : ℕ)
    → is_terminal w.status ≡ false
    → (r' : WatchRuntime) × ((marker_runtime earliest id w r now ≡ some r')
        × ((m : ScheduleMarker) × ((marker_of id r' ≡ some m) × (m.scheduled_for ≤ w.expires_at))))
unfolding marker_runtime marker_of migrate_legacy_watch
marker_runtime-due earliest id w (some r) now a = (_, (refl, (_, (refl, omega arith))))
marker_runtime-due earliest id w none now a = rw a (_, (refl, (_, (refl, omega arith))))

later-exhausted :
    (w : Watch) (now clock : ℕ)
    → now ≤ clock
    → is_exhausted w now ≡ true
    → is_exhausted w clock ≡ true
unfolding is_exhausted
later-exhausted w now clock l e = ground (arith, l, e)

module _ (sha1_hex : String → String) (clock : ℕ)
    (dispatch_due : Repo → Repo × Option DispatchSweepResult) (settings : CoordinatorSettings)
    (s : Repo) (id : String) (w : Watch) where
  expire_ends :
      get s.watches id ≡ some w
      → is_terminal w.status ≡ false
      → is_exhausted w clock ≡ true
      → let (s', result) = expire_if_eligible sha1_hex s id none false clock in
        (result.status ≡ TransitionStatus.applied)
        × (is_some_and (get s'.watches id) (λ v. is_active v.status) ≡ false)
  unfolding expire_if_eligible apply_terminal issue_event
  expire_ends e a x = rw (e, a, x, expire_if_eligible) (refl, rw (get-put, eq_refl) refl)

  synthesize_marks :
      (r : WatchRuntime) (m : ScheduleMarker)
      → get s.watches id ≡ some w
      → is_terminal w.status ≡ false
      → is_some_and (get s.claims id) (λ held. ltb clock held.expires_at) ≡ false
      → is_some (get s.markers id) ≡ false
      → marker_of id r ≡ some m
      → let (s', done) = synthesize_marker s id r clock in
        (done ≡ true) × (get s'.markers id ≡ some m)
  unfolding synthesize_marker set_marker
  synthesize_marks r m e a c n q =
      let active : is_active w.status ≡ true = ground (arith, a) in
      rw (e, active, c, n, q) (rw (get-put, eq_refl) (refl, refl))

  -- Of an active watch of the store, in a pass that read its clock, listed the watch then or later
  -- and reaches it then or later: if its attempts or its time were used up when the pass started, it
  -- is expired and no longer active; otherwise nothing is changed if a claim that was live at the
  -- listing holds it or it has some marker; and otherwise it has a marker afterwards, due no later
  -- than its deadline.
  pub reconcile_one_mends :
      (now listed : ℕ)
      → get s.watches id ≡ some w
      → is_terminal w.status ≡ false
      → now ≤ listed
      → listed ≤ clock
      → let (s', action) =
          reconcile_one
            (memory_ports sha1_hex clock dispatch_due)
            settings
            s
            (candidate s listed id w)
            now in
        ((is_exhausted w now ≡ true)
          × ((action ≡ some expired)
              × (is_some_and (get s'.watches id) (λ v. is_active v.status) ≡ false)))
        ⊎ (((s' ≡ s)
              × ((is_some_and (get s.claims id) (λ held. ltb listed held.expires_at) ≡ true)
                  ⊎ (is_some (get s.markers id) ≡ true)))
            ⊎ ((action ≡ some synthesized)
                × ((m : ScheduleMarker) × ((get s'.markers id ≡ some m)
                      × (m.scheduled_for ≤ w.expires_at)))))
  unfolding reconcile_one
  reconcile_one_mends now listed e a l p = elim (Bool-cases (is_exhausted w now)) [
    | inl x ↦
        let ends = expire_ends e a (later-exhausted w now clock (omega arith) x) in
        rw (a, x, reconcile_one) (inl (refl, (rw ends.0 refl, ends.1)))
    | inr x ↦
        elim (Bool-cases (is_some_and (get s.claims id) (λ held. ltb listed held.expires_at))) [
          | inl c ↦ rw (a, x, c, reconcile_one) (inr (inl (refl, inl refl)))
          | inr c ↦ elim (Bool-cases (is_some (get s.markers id))) [
            | inl n ↦ rw (a, x, c, n, reconcile_one) (inr (inl (refl, inr refl)))
            | inr n ↦
                let (r, (q, (m, (k, d)))) =
                  marker_runtime-due settings.earliest_delay id w (get s.runtimes id) now a in
                let marks = synthesize_marks r m e a (ground (arith, l, p, c)) n k in
                rw (a, x, c, n, q, reconcile_one) (inr (inr (rw marks.0 refl, (m, (marks.1, d)))))
          ]
        ]
  ]
