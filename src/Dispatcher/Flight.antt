-- ===== src/Dispatcher/Flight.antt =====
-- What a sweep counts, and how a lease keeps a publication single.
use dibs_reservation_sniper.Prelude.{
  ℕ, ◌+◌, ◌-◌, ◌≤◌, ◌<◌, ◌≡◌, refl, ◌∙◌, inl, inr, max, String, Bool, true, none, some, List, [],
  ◌∷◌, arith, eq_iff, eq_refl, length, length-take-le, Option-cases, Bool-cases,
}
use dibs_reservation_sniper.Dict.{get, get-put}
use dibs_reservation_sniper.Model.{ScheduleMarker, DispatchClaim}
use dibs_reservation_sniper.Repo.{
  Repo, due_schedule_markers, claim_dispatch, mark_dispatched, owns_dispatch, dispatch_held,
}
use dibs_reservation_sniper.Dispatcher.Sweep.{
  task_id, Publish, Outcome, DispatchSweepResult, DispatcherSettings, publish_claimed, dispatch_one,
  count, dispatch_all, dispatch_due,
}

abbrev pub total : DispatchSweepResult → ℕ
total r = r.dispatched + r.deferred + r.failed

due-length :
    (s : Repo) (now horizon limit : ℕ) → length (due_schedule_markers s now horizon limit) ≤ limit
unfolding due_schedule_markers
due-length s now horizon limit = length-take-le limit _

module _ (enqueue : Repo → Publish → Repo × Bool) (settings : DispatcherSettings) where
  count-total :
      (o : Outcome) (r : DispatchSweepResult)
      → (total (count enqueue settings o r) ≡ total r + 1)
        × ((count enqueue settings o r).considered ≡ r.considered)
  unfolding count
  count-total Outcome.dispatched r = (omega arith, refl)
  count-total Outcome.deferred r = (omega arith, refl)
  count-total Outcome.failed r = (omega arith, refl)

  dispatch_all-total :
      (markers : List ScheduleMarker) (s : Repo) (now : ℕ) (readings : ℕ → ℕ)
      (r : DispatchSweepResult)
      → (total (dispatch_all enqueue settings s markers now readings r).1
          ≡ total r + length markers)
        × ((dispatch_all enqueue settings s markers now readings r).1.considered ≡ r.considered)
  unfolding dispatch_all
  dispatch_all-total [] s now readings r = (omega arith, refl)
  dispatch_all-total (marker ∷ markers) s now readings r =
      let one = dispatch_one enqueue settings s marker now (readings (length markers)) in
      let rest = dispatch_all-total markers one.0 now readings (count enqueue settings one.1 r) in
      let (more, same) = count-total one.1 r in (omega (arith, rest.0, more), rest.1 ∙ same)

  -- Every marker that a sweep considers is counted once, as dispatched, deferred or failed, and no
  -- sweep considers more than its batch.
  pub dispatch_due-total :
      (s : Repo) (now : ℕ) (readings : ℕ → ℕ)
      → (total (dispatch_due enqueue settings s now readings).1
          ≡ (dispatch_due enqueue settings s now readings).1.considered)
        × ((dispatch_due enqueue settings s now readings).1.considered ≤ settings.batch_size)
  unfolding dispatch_due
  dispatch_due-total s now readings =
      let markers = due_schedule_markers s now settings.horizon settings.batch_size in
      let h =
        dispatch_all-total markers s now readings
          (record { considered = length markers; dispatched = 0; deferred = 0; failed = 0 }) in
      (
        omega (arith, h.0, h.1),
        omega (arith, h.1, due-length s now settings.horizon settings.batch_size),
      )

-- A granted lease, once it has been extended, refuses the same window until it runs out.
marked_holds :
    (s : Repo) (marker : ScheduleMarker) (owner_id : String) (lease at until at' : ℕ)
    {c : DispatchClaim}
    → (claim_dispatch s marker owner_id lease at).1.claim ≡ some c
    → at' < until
    → dispatch_held
        (get
          (mark_dispatched (claim_dispatch s marker owner_id lease at).0 c until).0.dispatch_leases
          marker.watch_id)
        marker.window_id
        at'
      ≡ true
unfolding claim_dispatch mark_dispatched owns_dispatch dispatch_held
marked_holds s marker owner_id lease at until at' e t = grind (arith, get-put, eq_refl, eq_iff)

held_refuses :
    (s : Repo) (marker : ScheduleMarker) (owner_id : String) (lease at : ℕ)
    → dispatch_held (get s.dispatch_leases marker.watch_id) marker.window_id at ≡ true
    → ((claim_dispatch s marker owner_id lease at).1.claim ≡ none)
      × ((claim_dispatch s marker owner_id lease at).0 ≡ s)
unfolding claim_dispatch
held_refuses s marker owner_id lease at h = (ground arith, ground arith)

held_defers :
    (enqueue : Repo → Publish → Repo × Bool) (settings : DispatcherSettings) (s : Repo)
    (marker : ScheduleMarker) (now at : ℕ)
    → dispatch_held (get s.dispatch_leases marker.watch_id) marker.window_id at ≡ true
    → dispatch_one enqueue settings s marker now at ≡ (s, Outcome.deferred)
unfolding dispatch_one
held_defers enqueue settings s marker now at h =
    let (refused, same) = held_refuses s marker settings.owner_id settings.lease at h in
    rw (dispatch_one, refused, same) refl

-- What a dispatched publication leaves in the store, if publishing itself changes nothing.
dispatched_store :
    (enqueue : Repo → Publish → Repo × Bool) (settings : DispatcherSettings) (s : Repo)
    (marker : ScheduleMarker) (now at : ℕ)
    → ((r : Repo) (q : Publish) → (enqueue r q).0 ≡ r)
    → (dispatch_one enqueue settings s marker now at).1 ≡ Outcome.dispatched
    → (c : DispatchClaim) × ((claim_dispatch s marker settings.owner_id settings.lease at).1.claim
        ≡ some c)
      × ((dispatch_one enqueue settings s marker now at).0
          ≡ (mark_dispatched
              (claim_dispatch s marker settings.owner_id settings.lease at).0
              c
              (max marker.scheduled_for now + settings.recovery_grace)).0)
unfolding dispatch_one publish_claimed
dispatched_store enqueue settings s marker now at quiet ok =
    let s1 = (claim_dispatch s marker settings.owner_id settings.lease at).0 in
    elim (Option-cases (claim_dispatch s marker settings.owner_id settings.lease at).1.claim) [
      | inl e ↦ absurd (ground arith)
      | inr (c, e) ↦
          let q : Publish = record {
            watch_id = marker.watch_id;
            window_id = marker.window_id;
            delay = marker.scheduled_for - now;
            due_at = marker.scheduled_for;
            task_id = task_id c;
          } in
          elim (Bool-cases (enqueue s1 q).1) [
            | inl p ↦ (c, e, rw (dispatch_one, e, p, quiet s1 q) refl)
            | inr p ↦ absurd (ground arith)
          ]
    ]

-- If publishing changes nothing in the store and a sweep has dispatched a marker, then until the
-- recovery grace after its due time (or after the sweep, if that is later), the next attempt on the
-- same marker, of whichever dispatcher and queue, is deferred: it publishes nothing and changes
-- nothing.
pub dispatched_once :
    (enqueue enqueue' : Repo → Publish → Repo × Bool) (settings settings' : DispatcherSettings)
    (s : Repo) (marker : ScheduleMarker) (now now' at at' : ℕ)
    → ((r : Repo) (q : Publish) → (enqueue r q).0 ≡ r)
    → (dispatch_one enqueue settings s marker now at).1 ≡ Outcome.dispatched
    → at' < max marker.scheduled_for now + settings.recovery_grace
    → dispatch_one enqueue' settings'
        (dispatch_one enqueue settings s marker now at).0
        marker
        now'
        at'
      ≡ ((dispatch_one enqueue settings s marker now at).0, Outcome.deferred)
dispatched_once enqueue enqueue' settings settings' s marker now now' at at' quiet ok t =
    let (c, granted, same) = dispatched_store enqueue settings s marker now at quiet ok in
    held_defers enqueue' settings' (dispatch_one enqueue settings s marker now at).0 marker now' at'
      (rw same (
        marked_holds s marker settings.owner_id settings.lease at
          (max marker.scheduled_for now + settings.recovery_grace) at' granted t))
