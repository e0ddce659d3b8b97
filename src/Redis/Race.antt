-- ===== src/Redis/Race.antt =====
-- A cancellation that reads the sidecar before a booking permit is granted, and runs its script
-- after.
use dibs_reservation_sniper.Prelude.{
  ℕ, ◌+◌, ◌≡◌, String, false, Option, none, some, arith, eq_iff, ◌==◌, if◌then◌else◌, ap,
}
use dibs_reservation_sniper.Dict.{get, get-put}
use dibs_reservation_sniper.Model.{
  Watch, is_terminal, WatchRuntime, RuntimePhase, WindowClaim, BookingPermitStatus,
  TransitionStatus, TransitionResult,
}
use dibs_reservation_sniper.Repo.{in_booking}
use dibs_reservation_sniper.Redis.State.{Keyspace, to_ms}
use dibs_reservation_sniper.Redis.Scripts.{begin_script, cancel_script, CancelMode, TransitionReply}
use dibs_reservation_sniper.Redis.Methods.{
  get_watch, cancel_mode, begin_booking, cancel_attempt, cancel_if_active, retry, cancelled_result,
}

-- What a granted permit leaves: the documents as they are, and the claim's sidecar in booking.
granted_sidecar :
    (k : Keyspace) (c : WindowClaim) (w : Watch) (r : WatchRuntime) (t : ℕ)
    → get k.documents c.watch.watch_id ≡ some w
    → get k.runtimes c.watch.watch_id ≡ some r
    → (begin_booking k c t).1.status ≡ BookingPermitStatus.granted
    → let id = c.watch.watch_id in
      let k' = (begin_booking k c t).0 in
      (get k'.documents id ≡ some w)
      × ((get k'.runtimes id ≡ some (record c.runtime { phase = some RuntimePhase.booking }))
          × (c.runtime.revision ≡ r.revision))
unfolding begin_booking begin_script
granted_sidecar k c w r t e f g = grind (arith, eq_iff, get-put)

read_document :
    (k : Keyspace) (id : String) (w : Watch) → get_watch k id ≡ some w → get k.documents id ≡ some w
unfolding get_watch
read_document k id w e = ground (arith, e)

-- The script fences on the revision alone.
script_applies :
    (k : Keyspace) (id : String) (w : Watch) (r : WatchRuntime) (revision : ℕ) (watch : Watch)
    (runtime : Option WatchRuntime) (delete_ms : Option ℕ)
    → get k.documents id ≡ some w
    → is_terminal w.status ≡ false
    → get k.runtimes id ≡ some r
    → r.revision ≡ revision
    → (cancel_script k id (some revision) (CancelMode.cancel watch runtime delete_ms)).1
      ≡ TransitionReply.applied watch
unfolding cancel_script
script_applies k id w r revision watch runtime delete_ms e a f q =
    rw (e, a, f, cancel_script) (ground (arith, q))

-- The permit's change comes before the second of two further round trips.
abbrev pub permit_between : WindowClaim → ℕ → ℕ → Keyspace → Keyspace
permit_between c t n k = if n == 1 then (begin_booking k c t).0 else k

abbrev status_of : Option TransitionResult → Option TransitionStatus
status_of none = none
status_of (some x) = some x.status

-- An attempt that was answered is the last.
retry-answered :
    (a : Keyspace × Option TransitionResult) (again : Keyspace → Keyspace × TransitionResult)
    (v : TransitionStatus)
    → status_of a.1 ≡ some v
    → (retry a again).1.status ≡ v
retry-answered (k, none) again v e = ground (arith, e)
retry-answered (k, some x) again v e = ground (arith, e)

module _ (clock : ℕ → ℕ) (k : Keyspace) (c : WindowClaim) (w : Watch) (r : WatchRuntime)
    (t : ℕ) where
  overtaken :
      get_watch k c.watch.watch_id ≡ some w
      → is_terminal w.status ≡ false
      → get k.runtimes c.watch.watch_id ≡ some r
      → in_booking r ≡ false
      → (begin_booking k c t).1.status ≡ BookingPermitStatus.granted
      → status_of (cancel_attempt (permit_between c t) clock k c.watch.watch_id 0).1
        ≡ some TransitionStatus.applied
  unfolding cancel_attempt cancel_mode cancel_script
  overtaken e a f b g =
      let booked : WatchRuntime = record c.runtime { phase = some RuntimePhase.booking } in
      let x = granted_sidecar k c w r t (read_document k c.watch.watch_id w e) f g in
      rw (e, a, cancel_attempt)
        (rw (f, b)
          (ap (λ reply. status_of (cancelled_result w (some r) reply))
            (script_applies (begin_booking k c t).0 c.watch.watch_id w booked r.revision _ _
              (some (to_ms (clock 0 + k.retention))) x.0 a x.1.0 x.1.1)))

  -- Of an active watch whose sidecar is not in booking: a booking permit that is granted between
  -- the second read and the script of a cancellation does not stop the cancellation, which is
  -- applied.
  pub cancel_overtakes_permit :
      get_watch k c.watch.watch_id ≡ some w
      → is_terminal w.status ≡ false
      → get k.runtimes c.watch.watch_id ≡ some r
      → in_booking r ≡ false
      → (begin_booking k c t).1.status ≡ BookingPermitStatus.granted
      → (cancel_if_active (permit_between c t) clock k c.watch.watch_id).1.status
        ≡ TransitionStatus.applied
  unfolding cancel_if_active
  cancel_overtakes_permit e a f b g =
      retry-answered (cancel_attempt (permit_between c t) clock k c.watch.watch_id 0) _
        TransitionStatus.applied (overtaken e a f b g)
