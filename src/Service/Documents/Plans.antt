-- ===== src/Service/Documents/Plans.antt =====
-- The provider interaction keeps the documents valid, and its plans can be carried out.
use dibs_reservation_sniper.Prelude.{
  ℕ, zero, suc, ◌≡◌, ap, sym, ◌∙◌, String, Option, none, some, List, [], ◌∷◌, arith, if◌then◌else◌,
  if_keeps,
}
use dibs_reservation_sniper.Dict.{get}
use dibs_reservation_sniper.Model.{
  Watch, AvailabilityQuery, AvailabilitySlot, BookingConfirmation, WindowClaim, BookingPermitStatus,
}
use dibs_reservation_sniper.Repo.{Repo, begin_booking}
use dibs_reservation_sniper.Service.Env.{World, Adapter, Reply, Reconciliation}
use dibs_reservation_sniper.Service.Builders.{idempotency_key}
use dibs_reservation_sniper.Service.Sequence
use dibs_reservation_sniper.Service.Sequence.{
  Plan, provider_sequence, after_book, with_permit, after_search, after_get, resolve,
  auto_book_sequence, cancel_requested, reconcile_attempts, Booked, got, exhausted, errored, late,
  escaped, miss, found, booked, booked_replay, cancelled, noop, timed_out, slot_race, outage,
  broken,
}
use dibs_reservation_sniper.Service.Documents.{StoredValid, IsRecordable}

-- The rest of the program, which runs while a provider call is awaited, keeps the documents valid.
pub record KeepsDocuments {A : Type 0} (p : Adapter A) : Type 0 where
  pub search :
      (w : World A) (q : AvailabilityQuery)
      → StoredValid w.repo
      → StoredValid (p.search_availability w q).0.repo
  pub lookup :
      (w : World A) (key : String) → StoredValid w.repo → StoredValid (p.get_booking w key).0.repo
  pub book :
      (w : World A) (slot key : String)
      → StoredValid w.repo
      → StoredValid (p.book_slot w slot key).0.repo
  pub reconcile :
      (w : World A) (key : String)
      → StoredValid w.repo
      → StoredValid (p.reconcile_booking w key).0.repo

permit_keeps :
    (s : Repo) (claim : WindowClaim) (now : ℕ) → (begin_booking s claim now).0.watches ≡ s.watches
unfolding begin_booking
permit_keeps s claim now = ground arith

-- A world and a plan that are as they should be.
abbrev Good : {A : Type 0} → World A × Plan → Type 0
Good x = StoredValid x.0.repo × IsRecordable x.1

module _ {A : Type 0} (p : Adapter A) (k : KeepsDocuments p) where
  book_reply :
      (w : World A) (reply : Reply BookingConfirmation) (rest : World A × Booked)
      → StoredValid w.repo
      → StoredValid rest.0.repo
      → StoredValid
          (elim reply as (λ x. World A × Booked) [
            | Reply.value confirmation ↦ (w, got confirmation)
            | Reply.slot_unavailable ↦ rest
            | Reply.slot_not_found ↦ rest
            | Reply.failed message ↦ (w, errored message)
            | Reply.timed_out ↦ (w, late)
            | Reply.raised ↦ (w, escaped)
          ]).0.repo
  book_reply w (Reply.value c) rest h g = h
  book_reply w Reply.slot_unavailable rest h g = g
  book_reply w Reply.slot_not_found rest h g = g
  book_reply w (Reply.failed m) rest h g = h
  book_reply w Reply.timed_out rest h g = h
  book_reply w Reply.raised rest h g = h

  book_keeps :
      (w : World A) (key : String) (slots : List AvailabilitySlot)
      → StoredValid w.repo
      → StoredValid (Sequence.book p w key slots).0.repo
  unfolding Sequence.book
  book_keeps w key [] h = h
  book_keeps w key (slot ∷ slots) h =
      let w' = (p.book_slot w slot.slot_id key).0 in
      let next : StoredValid w'.repo = k.book w slot.slot_id key h in
      book_reply w' (p.book_slot w slot.slot_id key).1 (Sequence.book p w' key slots) next
        (book_keeps w' key slots next)

  resolve_reply :
      (w : World A) (id message : String) (reply : Reply Reconciliation) (rest : World A × Plan)
      → StoredValid w.repo
      → Good rest
      → Good (elim reply as (λ x. World A × Plan) [
        | Reply.value answer ↦ elim answer [
          | Reconciliation.confirmed (some confirmation) ↦ (w, booked confirmation)
          | Reconciliation.confirmed none ↦ (w, broken)
          | Reconciliation.definitively_absent ↦
              (w, if cancel_requested p w id then cancelled else outage message)
          | Reconciliation.unresolved ↦ rest
        ]
        | Reply.slot_unavailable ↦ (w, slot_race)
        | Reply.slot_not_found ↦ (w, slot_race)
        | Reply.failed message' ↦ (w, outage message')
        | Reply.timed_out ↦ (w, timed_out)
        | Reply.raised ↦ (w, broken)
      ])
  resolve_reply w id message (Reply.value (Reconciliation.confirmed (some c))) rest h g = (h, tt)
  resolve_reply w id message (Reply.value (Reconciliation.confirmed none)) rest h g = (h, tt)
  resolve_reply w id message (Reply.value Reconciliation.definitively_absent) rest h g =
      (h, if_keeps IsRecordable (cancel_requested p w id) tt tt)
  resolve_reply w id message (Reply.value Reconciliation.unresolved) rest h g = g
  resolve_reply w id message Reply.slot_unavailable rest h g = (h, tt)
  resolve_reply w id message Reply.slot_not_found rest h g = (h, tt)
  resolve_reply w id message (Reply.failed m) rest h g = (h, tt)
  resolve_reply w id message Reply.timed_out rest h g = (h, tt)
  resolve_reply w id message Reply.raised rest h g = (h, tt)

  resolve_keeps :
      (n : ℕ) (w : World A) (key id message : String)
      → StoredValid w.repo
      → Good (resolve p n w key id message)
  unfolding resolve
  resolve_keeps zero w key id message h = (h, tt)
  resolve_keeps (suc n) w key id message h =
      let w' = (p.reconcile_booking w key).0 in
      let next : StoredValid w'.repo = k.reconcile w key h in
      resolve_reply w' id message (p.reconcile_booking w key).1 (resolve p n w' key id message) next
        (resolve_keeps n w' key id message next)

  after_book_keeps :
      (w : World A) (watch : Watch) (o : Booked)
      → StoredValid w.repo
      → Good (after_book p w watch o)
  unfolding after_book
  after_book_keeps w watch (got c) h = (h, tt)
  after_book_keeps w watch exhausted h =
      (h, if_keeps IsRecordable (cancel_requested p w watch.watch_id) tt tt)
  after_book_keeps w watch (errored message) h =
      resolve_keeps reconcile_attempts w (idempotency_key watch) watch.watch_id message h
  after_book_keeps w watch late h = (h, tt)
  after_book_keeps w watch escaped h = (h, tt)

  with_permit_keeps :
      (w : World A) (watch : Watch) (slots : List AvailabilitySlot) (status : BookingPermitStatus)
      → StoredValid w.repo
      → Good (with_permit p w watch slots status)
  unfolding with_permit
  with_permit_keeps w watch slots BookingPermitStatus.cancelled h = (h, tt)
  with_permit_keeps w watch slots BookingPermitStatus.fenced h = (h, tt)
  with_permit_keeps w watch slots BookingPermitStatus.granted h =
      after_book_keeps (Sequence.book p w (idempotency_key watch) slots).0 watch
        (Sequence.book p w (idempotency_key watch) slots).1
        (book_keeps w (idempotency_key watch) slots h)

  permitted_keeps :
      (w : World A) (permit_at : ℕ) (claim : WindowClaim) (watch : Watch)
      (slots : List AvailabilitySlot)
      → StoredValid w.repo
      → Good (auto_book_sequence p w permit_at claim watch slots)
  unfolding auto_book_sequence
  permitted_keeps w permit_at claim watch slots h =
      with_permit_keeps (record w { repo = (begin_booking w.repo claim permit_at).0 }) watch slots
        (begin_booking w.repo claim permit_at).1.status
        (λ i v e. h i v (ap (λ d. get d i) (sym (permit_keeps w.repo claim permit_at)) ∙ e))

  after_search_keeps :
      (w : World A) (permit_at : ℕ) (claim : WindowClaim) (watch : Watch)
      (reply : Reply (List AvailabilitySlot))
      → StoredValid w.repo
      → Good (after_search p w permit_at claim watch reply)
  unfolding after_search
  after_search_keeps w permit_at claim watch (Reply.value []) h = (h, tt)
  after_search_keeps w permit_at claim watch (Reply.value (slot ∷ slots)) h =
      if_keeps Good watch.auto_book (permitted_keeps w permit_at claim watch (slot ∷ slots) h)
        (h, tt)
  after_search_keeps w permit_at claim watch Reply.slot_unavailable h = (h, tt)
  after_search_keeps w permit_at claim watch Reply.slot_not_found h = (h, tt)
  after_search_keeps w permit_at claim watch (Reply.failed message) h = (h, tt)
  after_search_keeps w permit_at claim watch Reply.timed_out h = (h, tt)
  after_search_keeps w permit_at claim watch Reply.raised h = (h, tt)

  after_get_keeps :
      (w : World A) (permit_at : ℕ) (claim : WindowClaim) (watch : Watch)
      (reply : Reply (Option BookingConfirmation))
      → StoredValid w.repo
      → Good (after_get p w permit_at claim watch reply)
  unfolding after_get
  after_get_keeps w permit_at claim watch (Reply.value (some existing)) h = (h, tt)
  after_get_keeps w permit_at claim watch (Reply.value none) h =
      after_search_keeps (p.search_availability w watch.query).0 permit_at claim watch
        (p.search_availability w watch.query).1 (k.search w watch.query h)
  after_get_keeps w permit_at claim watch Reply.slot_unavailable h = (h, tt)
  after_get_keeps w permit_at claim watch Reply.slot_not_found h = (h, tt)
  after_get_keeps w permit_at claim watch (Reply.failed message) h = (h, tt)
  after_get_keeps w permit_at claim watch Reply.timed_out h = (h, tt)
  after_get_keeps w permit_at claim watch Reply.raised h = (h, tt)

  pub sequence_keeps :
      (w : World A) (permit_at : ℕ) (claim : WindowClaim) (watch : Watch)
      → StoredValid w.repo
      → Good (provider_sequence p w permit_at claim watch)
  unfolding provider_sequence
  sequence_keeps w permit_at claim watch h =
      if_keeps Good watch.auto_book
        (after_get_keeps (p.get_booking w (idempotency_key watch)).0 permit_at claim watch
          (p.get_booking w (idempotency_key watch)).1 (k.lookup w (idempotency_key watch) h))
        (after_search_keeps (p.search_availability w watch.query).0 permit_at claim watch
          (p.search_availability w watch.query).1 (k.search w watch.query h))
