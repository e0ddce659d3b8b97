-- ===== src/Service/Isolation.antt =====
-- What a poll cannot do: work without a claim, and book without being asked to or after losing its window.
use dibs_reservation_sniper.Prelude.{
  false, List, some, subst, sym, [], ◌∷◌, ℕ, ◌≡◌, ◌≢◌, refl, String, Bool, not, Option, arith,
}
use dibs_reservation_sniper.Model.{Watch, AvailabilitySlot, WindowClaim, ClaimStatus}
use dibs_reservation_sniper.Repo.{Repo, claim_window, grant_claim}
use dibs_reservation_sniper.Repo.Steps.{Op, run, CreatesOther, AllOps}
use dibs_reservation_sniper.Repo.Fencing.Stale.{IsRefused, superseded_claim-IsRefused}
use dibs_reservation_sniper.Service.Env.{Reply, World, Settings, Readings, Adapter}
use dibs_reservation_sniper.Service.Commit.{noop_result}
use dibs_reservation_sniper.Service.Sequence.{
  provider_sequence, auto_book_sequence, after_search, with_permit, noop,
}
use dibs_reservation_sniper.Service.Poll.{with_claim, poll_window}

-- A claim that is not granted changes nothing.
refused_unchanged :
    (s : Repo) (id window_id owner_id : String) (lease : ℕ) (ig : Bool) (now : ℕ)
    → (claim_window s id window_id owner_id lease ig now).1.status ≢ ClaimStatus.owned
    → (claim_window s id window_id owner_id lease ig now).0 ≡ s
unfolding claim_window grant_claim
refused_unchanged s id window_id owner_id lease ig now h = ground arith

module _ {A : Type 0} (sha1_hex : String → String) (settings : Settings) (p : Adapter A) where
  idle :
      (at : Readings) (draw : ℕ) (w : World A) (id : String) (status : ClaimStatus)
      (claim : Option WindowClaim)
      → status ≢ ClaimStatus.owned
      → (with_claim sha1_hex settings p at draw w id status claim).0 ≡ w
  unfolding with_claim noop_result
  idle at draw w id ClaimStatus.unknown claim h = refl
  idle at draw w id ClaimStatus.owned claim h = absurd (h refl)
  idle at draw w id _ claim h = ground arith

  -- A delivery that is not granted the window (it is unknown, finished, stale, early or busy) leaves
  -- the whole world as it was: no provider call, no commit, no history, no announcement and no
  -- publication.
  pub unclaimed_poll_idle :
      (at : Readings) (draw : ℕ) (w : World A) (id window_id owner : String) (enforce_due : Bool)
      → (claim_window w.repo id window_id owner settings.poll_lease
          (not enforce_due)
          at.claimed_at).1.status
        ≢ ClaimStatus.owned
      → (poll_window sha1_hex settings p at draw w id window_id owner enforce_due).0 ≡ w
  unfolding poll_window
  unclaimed_poll_idle at draw w id window_id owner enforce_due h =
      rw
        (refused_unchanged w.repo id window_id owner settings.poll_lease (not enforce_due)
          at.claimed_at h)
        (idle at draw w id _ _ h)

module _ {A : Type 0} (p q : Adapter A) (permit_at : ℕ) (claim : WindowClaim) (watch : Watch) where
  search_alone :
      (w : World A) (reply : Reply (List AvailabilitySlot))
      → watch.auto_book ≡ false
      → after_search p w permit_at claim watch reply ≡ after_search q w permit_at claim watch reply
  unfolding after_search
  search_alone w (Reply.value []) e = refl
  search_alone w (Reply.value (slot ∷ slots)) e = rw e refl
  search_alone w Reply.slot_unavailable e = refl
  search_alone w Reply.slot_not_found e = refl
  search_alone w (Reply.failed message) e = refl
  search_alone w Reply.timed_out e = refl
  search_alone w Reply.raised e = refl

  -- A watch that does not book automatically uses the provider's search and nothing else: with two
  -- adapters that search alike, the provider interaction of a poll leads to the same world and the
  -- same plan, however they differ in booking, looking up and reconciling.
  pub watch_only_never_books :
      (w : World A)
      → watch.auto_book ≡ false
      → ((v : World A) → p.search_availability v watch.query ≡ q.search_availability v watch.query)
      → provider_sequence p w permit_at claim watch ≡ provider_sequence q w permit_at claim watch
  unfolding provider_sequence
  watch_only_never_books w e same = simp e (
      rw (same w) (
        search_alone (q.search_availability w watch.query).0 (q.search_availability w watch.query).1
          e))

-- A claim that the store refuses books nothing.
refused_never_books :
    {A : Type 0} (p : Adapter A) (permit_at : ℕ) (claim : WindowClaim) (watch : Watch)
    (sha1_hex : String → String) (w : World A) (slots : List AvailabilitySlot)
    → IsRefused sha1_hex w.repo claim
    → auto_book_sequence p w permit_at claim watch slots ≡ (w, noop)
unfolding auto_book_sequence with_permit
refused_never_books p permit_at claim watch sha1_hex w slots h =
    rw (h.no_permit permit_at, h.permit_unchanged permit_at) refl

module _ (sha1_hex : String → String) (s : Repo) (id window_id owner_id : String) (lease : ℕ)
    (ignore_schedule : Bool) (now : ℕ) (os : List (ℕ × Op)) {c : WindowClaim}
    (granted : (claim_window s id window_id owner_id lease ignore_schedule now).1.claim ≡ some c)
    (of_id : c.watch.watch_id ≡ id) (made_once : AllOps (CreatesOther id) os) where
  -- A worker that has lost its window books nothing. Its claim was granted on a document with its
  -- own id; then any operations followed, another claim of the watch was granted, and any operations
  -- followed, none of them a second creation of the id. If its search returns slots in a world with
  -- that store, no provider is asked to book, however the provider answers: the automatic booking
  -- leaves the whole world as it was, with the plan to do nothing.
  pub superseded_never_books :
      {A : Type 0} (p : Adapter A) (w : World A) (permit_at : ℕ) (slots : List AvailabilitySlot)
      (window_id' owner_id' : String) (lease' : ℕ) (ignore' : Bool) (now' : ℕ) (os' : List (ℕ × Op))
      {c' : WindowClaim}
      → let later =
          run sha1_hex (claim_window s id window_id owner_id lease ignore_schedule now).0 os in
        (claim_window later id window_id' owner_id' lease' ignore' now').1.claim ≡ some c'
        → AllOps (CreatesOther id) os'
        → w.repo
          ≡ run sha1_hex (claim_window later id window_id' owner_id' lease' ignore' now').0 os'
        → auto_book_sequence p w permit_at c c.watch slots ≡ (w, noop)
  superseded_never_books p w permit_at slots window_id' owner_id' lease' ignore' now' os' e q same =
      refused_never_books p permit_at c c.watch sha1_hex w slots (
        subst (λ x. IsRefused sha1_hex x c) (sym same)
          (superseded_claim-IsRefused sha1_hex s id window_id owner_id lease ignore_schedule now os
            granted of_id made_once window_id' owner_id' lease' ignore' now' os' e q).0)
