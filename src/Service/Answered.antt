-- ===== src/Service/Answered.antt =====
-- Which plans a provider that keeps to its interface leads to.
use dibs_reservation_sniper.Prelude.{
  ℕ, zero, suc, String, Option, none, some, List, [], ◌∷◌, if◌then◌else◌, if_keeps,
}
use dibs_reservation_sniper.Model.{
  Watch, AvailabilityQuery, AvailabilitySlot, BookingConfirmation, WindowClaim, BookingPermitStatus,
}
use dibs_reservation_sniper.Repo.{begin_booking}
use dibs_reservation_sniper.Service.Env.{World, Adapter, Reply, Reconciliation}
use dibs_reservation_sniper.Service.Builders.{idempotency_key}
use dibs_reservation_sniper.Service.Sequence
use dibs_reservation_sniper.Service.Sequence.{
  Plan, provider_sequence, after_book, with_permit, after_search, after_get, resolve,
  auto_book_sequence, cancel_requested, reconcile_attempts, Booked, got, exhausted, errored, late,
  escaped, miss, found, booked, booked_replay, cancelled, noop, timed_out, slot_race, outage,
  broken,
}

-- The reply is a value or one of the exceptions that the service catches.
abbrev pub IsCaught : {B : Type 0} → Reply B → Type 0
IsCaught Reply.raised = ⊥
IsCaught _ = Unit {0}

-- And a confirmed answer carries its confirmation.
abbrev pub IsAnswered : Reply Reconciliation → Type 0
IsAnswered Reply.raised = ⊥
IsAnswered (Reply.value (Reconciliation.confirmed none)) = ⊥
IsAnswered _ = Unit {0}

-- A provider that keeps to the interface, in whatever state the world is: it raises nothing but
-- adapter errors, the poll is not cancelled from outside while it waits, and a reconciliation that
-- confirms a booking returns it.
pub record IsRegular {A : Type 0} (p : Adapter A) : Type 0 where
  pub search : (w : World A) (q : AvailabilityQuery) → IsCaught (p.search_availability w q).1
  pub lookup : (w : World A) (key : String) → IsCaught (p.get_booking w key).1
  pub book : (w : World A) (slot key : String) → IsCaught (p.book_slot w slot key).1
  pub reconcile : (w : World A) (key : String) → IsAnswered (p.reconcile_booking w key).1

abbrev pub IsWhole : Plan → Type 0
IsWhole broken = ⊥
IsWhole _ = Unit {0}

abbrev HasEnded : Booked → Type 0
HasEnded escaped = ⊥
HasEnded _ = Unit {0}

module _ {A : Type 0} (p : Adapter A) (k : IsRegular p) where
  book_reply :
      (w : World A) (reply : Reply BookingConfirmation) (rest : World A × Booked)
      → IsCaught reply
      → HasEnded rest.1
      → HasEnded
          (elim reply as (λ x. World A × Booked) [
            | Reply.value confirmation ↦ (w, got confirmation)
            | Reply.slot_unavailable ↦ rest
            | Reply.slot_not_found ↦ rest
            | Reply.failed message ↦ (w, errored message)
            | Reply.timed_out ↦ (w, late)
            | Reply.raised ↦ (w, escaped)
          ]).1
  book_reply w (Reply.value c) rest h g = tt
  book_reply w Reply.slot_unavailable rest h g = g
  book_reply w Reply.slot_not_found rest h g = g
  book_reply w (Reply.failed m) rest h g = tt
  book_reply w Reply.timed_out rest h g = tt
  book_reply w Reply.raised rest h g = h

  book-HasEnded :
      (w : World A) (key : String) (slots : List AvailabilitySlot)
      → HasEnded (Sequence.book p w key slots).1
  unfolding Sequence.book
  book-HasEnded w key [] = tt
  book-HasEnded w key (slot ∷ slots) =
      let w' = (p.book_slot w slot.slot_id key).0 in
      book_reply w' (p.book_slot w slot.slot_id key).1 (Sequence.book p w' key slots)
        (k.book w slot.slot_id key) (book-HasEnded w' key slots)

  resolve_reply :
      (w : World A) (id message : String) (reply : Reply Reconciliation) (rest : World A × Plan)
      → IsAnswered reply
      → IsWhole rest.1
      → IsWhole
          (elim reply as (λ x. World A × Plan) [
            | Reply.value answer ↦ elim answer [
              | Reconciliation.confirmed (some confirmation) ↦ (w, booked confirmation)
              | Reconciliation.confirmed none ↦ (w, broken)
              | Reconciliation.definitively_absent ↦
                  (w, if cancel_requested p w id then cancelled else outage message)
              | Reconciliation.unresolved ↦ rest
            ]
            | Reply.slot_unavailable ↦ (w, slot_race)
            | Reply.slot_not_found ↦ (w, slot_race)
            | Reply.failed message' ↦ (w, outage message')
            | Reply.timed_out ↦ (w, timed_out)
            | Reply.raised ↦ (w, broken)
          ]).1
  resolve_reply w id message (Reply.value (Reconciliation.confirmed (some c))) rest h g = tt
  resolve_reply w id message (Reply.value (Reconciliation.confirmed none)) rest h g = h
  resolve_reply w id message (Reply.value Reconciliation.definitively_absent) rest h g =
      if_keeps IsWhole (cancel_requested p w id) tt tt
  resolve_reply w id message (Reply.value Reconciliation.unresolved) rest h g = g
  resolve_reply w id message Reply.slot_unavailable rest h g = tt
  resolve_reply w id message Reply.slot_not_found rest h g = tt
  resolve_reply w id message (Reply.failed m) rest h g = tt
  resolve_reply w id message Reply.timed_out rest h g = tt
  resolve_reply w id message Reply.raised rest h g = h

  resolve-IsWhole :
      (n : ℕ) (w : World A) (key id message : String) → IsWhole (resolve p n w key id message).1
  unfolding resolve
  resolve-IsWhole zero w key id message = tt
  resolve-IsWhole (suc n) w key id message =
      let w' = (p.reconcile_booking w key).0 in
      resolve_reply w' id message (p.reconcile_booking w key).1 (resolve p n w' key id message)
        (k.reconcile w key) (resolve-IsWhole n w' key id message)

  after_book-IsWhole :
      (w : World A) (watch : Watch) (o : Booked) → HasEnded o → IsWhole (after_book p w watch o).1
  unfolding after_book
  after_book-IsWhole w watch (got c) h = tt
  after_book-IsWhole w watch exhausted h =
      if_keeps IsWhole (cancel_requested p w watch.watch_id) tt tt
  after_book-IsWhole w watch (errored message) h =
      resolve-IsWhole reconcile_attempts w (idempotency_key watch) watch.watch_id message
  after_book-IsWhole w watch late h = tt
  after_book-IsWhole w watch escaped h = h

  with_permit-IsWhole :
      (w : World A) (watch : Watch) (slots : List AvailabilitySlot) (status : BookingPermitStatus)
      → IsWhole (with_permit p w watch slots status).1
  unfolding with_permit
  with_permit-IsWhole w watch slots BookingPermitStatus.cancelled = tt
  with_permit-IsWhole w watch slots BookingPermitStatus.fenced = tt
  with_permit-IsWhole w watch slots BookingPermitStatus.granted =
      let (w', o) = Sequence.book p w (idempotency_key watch) slots in
      after_book-IsWhole w' watch o (book-HasEnded w (idempotency_key watch) slots)

  after_search-IsWhole :
      (w : World A) (permit_at : ℕ) (claim : WindowClaim) (watch : Watch)
      (reply : Reply (List AvailabilitySlot))
      → IsCaught reply
      → IsWhole (after_search p w permit_at claim watch reply).1
  unfolding after_search auto_book_sequence
  after_search-IsWhole w permit_at claim watch (Reply.value []) h = tt
  after_search-IsWhole w permit_at claim watch (Reply.value (slot ∷ slots)) h =
      if_keeps (λ (x : World A × Plan). IsWhole x.1) watch.auto_book
        (with_permit-IsWhole (record w { repo = (begin_booking w.repo claim permit_at).0 }) watch
          (slot ∷ slots) (begin_booking w.repo claim permit_at).1.status)
        tt
  after_search-IsWhole w permit_at claim watch Reply.slot_unavailable h = tt
  after_search-IsWhole w permit_at claim watch Reply.slot_not_found h = tt
  after_search-IsWhole w permit_at claim watch (Reply.failed message) h = tt
  after_search-IsWhole w permit_at claim watch Reply.timed_out h = tt
  after_search-IsWhole w permit_at claim watch Reply.raised h = h

  after_get-IsWhole :
      (w : World A) (permit_at : ℕ) (claim : WindowClaim) (watch : Watch)
      (reply : Reply (Option BookingConfirmation))
      → IsCaught reply
      → IsWhole (after_get p w permit_at claim watch reply).1
  unfolding after_get
  after_get-IsWhole w permit_at claim watch (Reply.value (some existing)) h = tt
  after_get-IsWhole w permit_at claim watch (Reply.value none) h =
      let (w', reply) = p.search_availability w watch.query in
      after_search-IsWhole w' permit_at claim watch reply (k.search w watch.query)
  after_get-IsWhole w permit_at claim watch Reply.slot_unavailable h = tt
  after_get-IsWhole w permit_at claim watch Reply.slot_not_found h = tt
  after_get-IsWhole w permit_at claim watch (Reply.failed message) h = tt
  after_get-IsWhole w permit_at claim watch Reply.timed_out h = tt
  after_get-IsWhole w permit_at claim watch Reply.raised h = h

  pub sequence-IsWhole :
      (w : World A) (permit_at : ℕ) (claim : WindowClaim) (watch : Watch)
      → IsWhole (provider_sequence p w permit_at claim watch).1
  unfolding provider_sequence
  sequence-IsWhole w permit_at claim watch =
      if_keeps (λ (x : World A × Plan). IsWhole x.1) watch.auto_book
        (after_get-IsWhole (p.get_booking w (idempotency_key watch)).0 permit_at claim watch
          (p.get_booking w (idempotency_key watch)).1 (k.lookup w (idempotency_key watch)))
        (after_search-IsWhole (p.search_availability w watch.query).0 permit_at claim watch
          (p.search_availability w watch.query).1 (k.search w watch.query))
