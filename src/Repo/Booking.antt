-- ===== src/Repo/Booking.antt =====
-- The race between a booking and a cancellation, and the exclusion of two owners of one window.
use dibs_reservation_sniper.Prelude.{
  ℕ, ◌+◌, ◌<◌, ◌≡◌, ◌≢◌, inl, inr, String, Bool, true, some, arith, eq_refl, refl, Option-cases,
}
use dibs_reservation_sniper.Dict.{get, put, get-put}
use dibs_reservation_sniper.Model.{
  WindowClaim, BookingPermitStatus, ClaimStatus, TransitionStatus, WatchRuntime, Watch, is_active,
  RuntimePhase,
}
use dibs_reservation_sniper.Repo.State.{Repo, ClaimLease, owns}
use dibs_reservation_sniper.Repo.Claims.{claim_window, grant_claim, lease_held, begin_booking}
use dibs_reservation_sniper.Repo.Transitions.{in_booking, cancel_if_active}

-- What a granted permit says of the store, and the one change that it makes.
permit_granted :
    (s : Repo) (c : WindowClaim) (now : ℕ)
    → (begin_booking s c now).1.status ≡ BookingPermitStatus.granted
    → (w : Watch) × (r : WatchRuntime) × (get s.watches c.watch.watch_id ≡ some w)
      × (is_active w.status ≡ true)
      × (owns s c r now ≡ true)
      × ((begin_booking s c now).0 ≡ record s {
        runtimes = put s.runtimes c.watch.watch_id (record r { phase = some RuntimePhase.booking });
      })
unfolding begin_booking
permit_granted s c now e = elim (Option-cases (get s.watches c.watch.watch_id)) [
  | inl p ↦ absurd (ground arith)
  | inr (w, p) ↦ elim (Option-cases (get s.runtimes c.watch.watch_id)) [
    | inl q ↦ absurd (ground arith)
    | inr (r, q) ↦ (w, r, p, ground arith, ground arith, ground arith)
  ]
]

-- The same of a cancellation that meets a permit.
cancel_in_booking :
    (s : Repo) (id : String) (w : Watch) (r : WatchRuntime) (now : ℕ)
    → get s.watches id ≡ some w
    → is_active w.status ≡ true
    → get s.runtimes id ≡ some r
    → in_booking r ≡ true
    → (cancel_if_active s id now).0
        ≡ record s { runtimes = put s.runtimes id (record r { cancel_requested = true }) }
      × ((cancel_if_active s id now).1.status ≡ TransitionStatus.not_eligible)
unfolding cancel_if_active
cancel_in_booking s id w r now p a q b = (ground arith, ground arith)

-- A permit asked under a running lease after a recorded cancellation.
begin_cancelled :
    (s : Repo) (c : WindowClaim) (w : Watch) (r : WatchRuntime) (now : ℕ)
    → get s.watches c.watch.watch_id ≡ some w
    → is_active w.status ≡ true
    → get s.runtimes c.watch.watch_id ≡ some r
    → r.cancel_requested ≡ true
    → owns s c r now ≡ true
    → (begin_booking s c now).1.status ≡ BookingPermitStatus.cancelled
unfolding begin_booking
begin_cancelled s c w r now p a q b o = ground arith

-- Ownership reads the revision and the claim only, and lasts as long as the lease.
owns_later :
    (s s' : Repo) (c : WindowClaim) (r r' : WatchRuntime) (l : ClaimLease) (now now' : ℕ)
    → owns s c r now ≡ true
    → get s.claims c.watch.watch_id ≡ some l
    → now' < l.expires_at
    → s'.claims ≡ s.claims
    → r'.revision ≡ r.revision
    → owns s' c r' now' ≡ true
unfolding owns
owns_later s s' c r r' l now now' o q t e f = rw e (ground arith)

-- After a booking permit was granted, a cancellation is not applied: it answers NOT_ELIGIBLE and
-- keeps the documents and the claims, and it is recorded: a further permit asked under the same
-- claim, while the lease that the store holds for it runs, is answered CANCELLED.
pub permit_then_cancel :
    (s : Repo) (c : WindowClaim) (now now' now'' : ℕ) (l : ClaimLease)
    → (begin_booking s c now).1.status ≡ BookingPermitStatus.granted
    → get s.claims c.watch.watch_id ≡ some l
    → now'' < l.expires_at
    → ((cancel_if_active (begin_booking s c now).0 c.watch.watch_id now').1.status
        ≡ TransitionStatus.not_eligible)
      × ((cancel_if_active (begin_booking s c now).0 c.watch.watch_id now').0.watches ≡ s.watches)
      × ((cancel_if_active (begin_booking s c now).0 c.watch.watch_id now').0.claims ≡ s.claims)
      × ((begin_booking
            (cancel_if_active (begin_booking s c now).0 c.watch.watch_id now').0
            c
            now'').1.status
          ≡ BookingPermitStatus.cancelled)
permit_then_cancel s c now now' now'' l e held t =
    let id = c.watch.watch_id in
    let (w, r, p, a, o, stored) = permit_granted s c now e in
    let r1 : WatchRuntime = record r { phase = some RuntimePhase.booking } in
    let s1 : Repo = record s { runtimes = put s.runtimes id r1 } in
    let seen : get s1.runtimes id ≡ some r1 = simp (get-put, eq_refl) in
    let (cancelled, answer) = cancel_in_booking s1 id w r1 now' p a seen refl in
    let r2 : WatchRuntime = record r1 { cancel_requested = true } in
    let s2 : Repo = record s1 { runtimes = put s1.runtimes id r2 } in
    let seen2 : get s2.runtimes id ≡ some r2 = simp (get-put, eq_refl) in
    rw (stored, cancelled)
      (
        answer,
        refl,
        refl,
        begin_cancelled s2 c w r2 now'' p a seen2 refl
            (owns_later s s2 c r r2 l now now'' o held t refl refl),
      )

owned_holds :
    (s : Repo) (id window_id owner_id : String) (lease : ℕ) (ig : Bool) (now now' : ℕ)
    → (claim_window s id window_id owner_id lease ig now).1.status ≡ ClaimStatus.owned
    → now' < now + lease
    → lease_held (claim_window s id window_id owner_id lease ig now).0 id window_id now' ≡ true
unfolding claim_window grant_claim lease_held
owned_holds s id window_id owner_id lease ig now now' e t = grind (arith, get-put, eq_refl)

held_excludes :
    (s : Repo) (id window_id owner_id : String) (lease : ℕ) (ig : Bool) (now : ℕ)
    → lease_held s id window_id now ≡ true
    → ((claim_window s id window_id owner_id lease ig now).1.status ≢ ClaimStatus.owned)
      × ((claim_window s id window_id owner_id lease ig now).0 ≡ s)
unfolding claim_window
held_excludes s id window_id owner_id lease ig now h = ground arith

-- Until the lease of a granted claim has run out, nobody is granted the same window again by the
-- next delivery, however it names itself, and that delivery changes nothing.
pub claim_exclusive :
    (s : Repo) (id window_id owner_id owner_id' : String) (lease lease' : ℕ) (ig ig' : Bool)
    (now now' : ℕ)
    → (claim_window s id window_id owner_id lease ig now).1.status ≡ ClaimStatus.owned
    → now' < now + lease
    → ((claim_window
          (claim_window s id window_id owner_id lease ig now).0
          id
          window_id
          owner_id'
          lease'
          ig'
          now').1.status
        ≢ ClaimStatus.owned)
      × ((claim_window
            (claim_window s id window_id owner_id lease ig now).0
            id
            window_id
            owner_id'
            lease'
            ig'
            now').0
          ≡ (claim_window s id window_id owner_id lease ig now).0)
claim_exclusive s id window_id owner_id owner_id' lease lease' ig ig' now now' e t =
    held_excludes _ id window_id owner_id' lease' ig' now'
      (owned_holds s id window_id owner_id lease ig now now' e t)
