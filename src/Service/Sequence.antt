-- ===== src/Service/Sequence.antt =====
-- The bounded provider interaction of one poll, which ends in a plan and commits nothing.
use dibs_reservation_sniper.Prelude.{
  ℕ, zero, suc, String, Bool, Option, none, some, List, [], ◌∷◌, if◌then◌else◌, is_some_and,
}
use dibs_reservation_sniper.Model.{
  Watch, WindowClaim, AvailabilitySlot, BookingConfirmation, BookingPermitStatus,
}
use dibs_reservation_sniper.Repo.{begin_booking, get_runtime}
use dibs_reservation_sniper.Service.Env.{World, Adapter, Reply, Reconciliation}
use dibs_reservation_sniper.Service.Builders.{idempotency_key}

-- `_Sequence`, and the ways in which an exception leaves it. `broken` is the exception that passes
-- through the whole poll: one that nothing catches, or that of `_booked_watch` for a booked plan
-- without a confirmation.
pub data Plan : Type 0 where
  miss : Plan
  found : List AvailabilitySlot → Plan
  booked : BookingConfirmation → Plan
  booked_replay : BookingConfirmation → Plan
  cancelled : Plan
  noop : Plan
  timed_out : Plan
  slot_race : Plan
  outage : String → Plan
  broken : Plan

-- How `_book` ends.
pub data Booked : Type 0 where
  got : BookingConfirmation → Booked
  exhausted : Booked
  errored : String → Booked
  late : Booked
  escaped : Booked

-- _RECONCILE_ATTEMPTS
abbrev pub reconcile_attempts : ℕ
reconcile_attempts = 3

module _ {A : Type 0} (p : Adapter A) where
  -- `_book`: the first slot that is still there.
  unfoldable pub book : World A → String → List AvailabilitySlot → World A × Booked
  book w key [] = (w, exhausted)
  book w key (slot ∷ slots) =
      let (w', reply) = p.book_slot w slot.slot_id key in
      elim reply [
        | Reply.value confirmation ↦ (w', got confirmation)
        | Reply.slot_unavailable ↦ book w' key slots
        | Reply.slot_not_found ↦ book w' key slots
        | Reply.failed message ↦ (w', errored message)
        | Reply.timed_out ↦ (w', late)
        | Reply.raised ↦ (w', escaped)
      ]

  unfoldable pub cancel_requested : World A → String → Bool
  cancel_requested w id = is_some_and (get_runtime w.repo id) (λ r. r.cancel_requested)

  -- `_resolve_ambiguous`, whose first argument is the attempts that are left.
  unfoldable pub resolve : ℕ → World A → String → String → String → World A × Plan
  resolve zero w key id message = (w, outage message)
  resolve (suc n) w key id message =
      let (w', reply) = p.reconcile_booking w key in
      elim reply [
        | Reply.value answer ↦ elim answer [
          | Reconciliation.confirmed (some confirmation) ↦ (w', booked confirmation)
          | Reconciliation.confirmed none ↦ (w', broken)
          | Reconciliation.definitively_absent ↦
              (w', if cancel_requested w' id then cancelled else outage message)
          | Reconciliation.unresolved ↦ resolve n w' key id message
        ]
        | Reply.slot_unavailable ↦ (w', slot_race)
        | Reply.slot_not_found ↦ (w', slot_race)
        | Reply.failed message' ↦ (w', outage message')
        | Reply.timed_out ↦ (w', timed_out)
        | Reply.raised ↦ (w', broken)
      ]

  unfoldable pub after_book : World A → Watch → Booked → World A × Plan
  unfolding resolve cancel_requested
  after_book w watch (got confirmation) = (w, booked confirmation)
  after_book w watch exhausted = (w, if cancel_requested w watch.watch_id then cancelled else miss)
  after_book w watch (errored message) =
      resolve reconcile_attempts w (idempotency_key watch) watch.watch_id message
  after_book w watch late = (w, timed_out)
  after_book w watch escaped = (w, broken)

  unfoldable pub with_permit :
      World A → Watch → List AvailabilitySlot → BookingPermitStatus → World A × Plan
  unfolding book after_book
  with_permit w watch slots BookingPermitStatus.cancelled = (w, cancelled)
  with_permit w watch slots BookingPermitStatus.fenced = (w, noop)
  with_permit w watch slots BookingPermitStatus.granted =
      let (w', outcome) = book w (idempotency_key watch) slots in after_book w' watch outcome

  -- `_auto_book_sequence`
  unfoldable pub auto_book_sequence :
      World A → ℕ → WindowClaim → Watch → List AvailabilitySlot → World A × Plan
  unfolding with_permit
  auto_book_sequence w permit_at claim watch slots =
      let (repo, permit) = begin_booking w.repo claim permit_at in
      with_permit (record w { repo = repo }) watch slots permit.status

  unfoldable pub after_search :
      World A → ℕ → WindowClaim → Watch → Reply (List AvailabilitySlot) → World A × Plan
  unfolding auto_book_sequence
  after_search w permit_at claim watch (Reply.value []) = (w, miss)
  after_search w permit_at claim watch (Reply.value (slot ∷ slots)) =
      if watch.auto_book
      then auto_book_sequence w permit_at claim watch (slot ∷ slots)
      else (w, found (slot ∷ slots))
  after_search w permit_at claim watch Reply.slot_unavailable = (w, slot_race)
  after_search w permit_at claim watch Reply.slot_not_found = (w, slot_race)
  after_search w permit_at claim watch (Reply.failed message) = (w, outage message)
  after_search w permit_at claim watch Reply.timed_out = (w, timed_out)
  after_search w permit_at claim watch Reply.raised = (w, broken)

  search_step : World A → ℕ → WindowClaim → Watch → World A × Plan
  unfolding after_search
  search_step w permit_at claim watch =
      let (w', reply) = p.search_availability w watch.query in
      after_search w' permit_at claim watch reply

  unfoldable pub after_get :
      World A → ℕ → WindowClaim → Watch → Reply (Option BookingConfirmation) → World A × Plan
  unfolding search_step
  after_get w permit_at claim watch (Reply.value (some existing)) = (w, booked_replay existing)
  after_get w permit_at claim watch (Reply.value none) = search_step w permit_at claim watch
  after_get w permit_at claim watch Reply.slot_unavailable = (w, slot_race)
  after_get w permit_at claim watch Reply.slot_not_found = (w, slot_race)
  after_get w permit_at claim watch (Reply.failed message) = (w, outage message)
  after_get w permit_at claim watch Reply.timed_out = (w, timed_out)
  after_get w permit_at claim watch Reply.raised = (w, broken)

  replay_step : World A → ℕ → WindowClaim → Watch → World A × Plan
  unfolding after_get
  replay_step w permit_at claim watch =
      let (w', reply) = p.get_booking w (idempotency_key watch) in
      after_get w' permit_at claim watch reply

  -- `_provider_sequence`
  unfoldable pub provider_sequence : World A → ℕ → WindowClaim → Watch → World A × Plan
  unfolding replay_step search_step
  provider_sequence w permit_at claim watch =
      if watch.auto_book
      then replay_step w permit_at claim watch
      else search_step w permit_at claim watch
