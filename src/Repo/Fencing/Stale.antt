-- ===== src/Repo/Fencing/Stale.antt =====
-- What a fenced-out claim can still do, and how a claim comes to be fenced out.
use dibs_reservation_sniper.Prelude.{
  ℕ, ◌-◌, ◌≤◌, ◌<◌, ◌≡◌, ◌≢◌, String, Bool, some, List, arith, subst, sym,
}
use dibs_reservation_sniper.Dict.{get}
use dibs_reservation_sniper.Model.{
  Watch, WatchRuntime, WindowClaim, BookingPermitStatus, CommitStatus, TransitionStatus,
}
use dibs_reservation_sniper.Repo.State.{Repo, owns, set_marker, apply_terminal, issue_event}
use dibs_reservation_sniper.Repo.Claims.{claim_window, grant_claim, begin_booking, commit_window}
use dibs_reservation_sniper.Repo.Transitions.{cancel_if_active}
use dibs_reservation_sniper.Repo.Steps.{Op, run, CreatesOther, AllOps, run_keeps}
use dibs_reservation_sniper.Repo.Coherent.{IsCoherent}
use dibs_reservation_sniper.Repo.Fencing.{IsFenced, fence_rules}
use dibs_reservation_sniper.Repo.Fencing.Keeps.{step-IsFenced}

run-IsFenced :
    (sha1_hex : String → String) (t u : ℕ) (id : String) (s : Repo) (os : List (ℕ × Op))
    → AllOps (CreatesOther id) os
    → IsFenced t u id s
    → IsFenced t u id (run sha1_hex s os)
run-IsFenced sha1_hex t u id s os q h =
    run_keeps sha1_hex (IsFenced t u id) (CreatesOther id)
      (λ s o. step-IsFenced t u id sha1_hex s o) s os q h

-- What is refused to a claim: the booking permit, the commit, and any change of the store by them.
pub record IsRefused (sha1_hex : String → String) (s : Repo) (c : WindowClaim) : Type 0 where
  pub no_permit : (now : ℕ) → (begin_booking s c now).1.status ≡ BookingPermitStatus.fenced
  pub permit_unchanged : (now : ℕ) → (begin_booking s c now).0 ≡ s
  pub no_commit :
      (w : Watch) (r : WatchRuntime) (now later : ℕ)
      → (commit_window sha1_hex s c w r now later).1.status ≢ CommitStatus.committed
  pub commit_unchanged :
      (w : Watch) (r : WatchRuntime) (now later : ℕ)
      → (commit_window sha1_hex s c w r now later).0 ≡ s

fenced-IsRefused :
    (sha1_hex : String → String) (u : ℕ) (s : Repo) (c : WindowClaim)
    → IsFenced c.token u c.watch.watch_id s
    → IsRefused sha1_hex s c
unfolding begin_booking commit_window owns
fenced-IsRefused sha1_hex u s c h = record {
  no_permit = λ now. ground arith;
  permit_unchanged = λ now. ground arith;
  no_commit = λ w r now later. ground arith;
  commit_unchanged = λ w r now later. ground arith;
}

-- The new claim's token is the fence, and the number below it is fenced.
grant-IsFenced :
    (s : Repo) (id win own : String) (lease : ℕ) (ig : Bool) (now : ℕ) {c : WindowClaim}
    → (claim_window s id win own lease ig now).1.claim ≡ some c
    → IsFenced (c.token - 1) c.token id (claim_window s id win own lease ig now).0
      × (1 ≤ c.token)
      × ((w : Watch) × (get s.watches id ≡ some w) × (c.watch ≡ w))
unfolding claim_window grant_claim
grant-IsFenced s id win own lease ig now e = grind fence_rules

-- Any later grant fences the tokens that the fence has reached.
regrant-IsFenced :
    (s : Repo) (t u : ℕ) (id win own : String) (lease : ℕ) (ig : Bool) (now : ℕ) {c : WindowClaim}
    → IsFenced t u id s
    → (claim_window s id win own lease ig now).1.claim ≡ some c
    → IsFenced u u id (claim_window s id win own lease ig now).0 × (u < c.token)
unfolding claim_window grant_claim
regrant-IsFenced s t u id win own lease ig now h e = grind fence_rules

cancel-fences :
    (s : Repo) (t u : ℕ) (id : String) (now : ℕ)
    → IsFenced t u id s
    → (cancel_if_active s id now).1.status ≡ TransitionStatus.applied
    → IsFenced u u id (cancel_if_active s id now).0
unfolding cancel_if_active apply_terminal
cancel-fences s t u id now h e = grind fence_rules

commit-fences :
    (sha1_hex : String → String) (s : Repo) (c : WindowClaim) (w : Watch) (r : WatchRuntime)
    (now later : ℕ)
    → IsCoherent s c.watch.watch_id
    → (commit_window sha1_hex s c w r now later).1.status ≡ CommitStatus.committed
    → IsFenced c.token c.token c.watch.watch_id (commit_window sha1_hex s c w r now later).0
unfolding commit_window issue_event set_marker owns
commit-fences sha1_hex s c w r now later h e = grind fence_rules

-- A claim is refused at an id once its token is fenced there.
token_at-IsRefused :
    (sha1_hex : String → String) (u : ℕ) (id : String) (s : Repo) (c : WindowClaim)
    → c.watch.watch_id ≡ id
    → IsFenced c.token u id s
    → IsRefused sha1_hex s c
token_at-IsRefused sha1_hex u id s c e h =
    fenced-IsRefused sha1_hex u s c (subst (λ i. IsFenced c.token u i s) (sym e) h)

module _ (sha1_hex : String → String) (s : Repo) (id window_id owner_id : String) (lease : ℕ)
    (ignore_schedule : Bool) (now : ℕ) (os : List (ℕ × Op)) {c : WindowClaim}
    (granted : (claim_window s id window_id owner_id lease ignore_schedule now).1.claim ≡ some c)
    (of_id : c.watch.watch_id ≡ id) (made_once : AllOps (CreatesOther id) os) where
  -- The store after the grant and the operations behind it.
  abbrev later : Repo
  later = run sha1_hex (claim_window s id window_id owner_id lease ignore_schedule now).0 os

  later-IsFenced : IsFenced (c.token - 1) c.token id later
  later-IsFenced =
      run-IsFenced sha1_hex _ _ id _ os made_once
        (grant-IsFenced s id window_id owner_id lease ignore_schedule now granted).0

  -- If a claim is granted on a document with its own id, then any operations follow, then the same
  -- watch is claimed again, then
  -- any operations follow (none of them a second creation of the id), the first claim is refused
  -- from then on: it gets no booking permit, commits nothing and changes nothing in the store. And
  -- the second claim's token is larger.
  pub superseded_claim-IsRefused :
      (window_id' owner_id' : String) (lease' : ℕ) (ignore' : Bool) (now' : ℕ) (os' : List (ℕ × Op))
      {c' : WindowClaim}
      → (claim_window later id window_id' owner_id' lease' ignore' now').1.claim ≡ some c'
      → AllOps (CreatesOther id) os'
      → IsRefused sha1_hex
          (run sha1_hex (claim_window later id window_id' owner_id' lease' ignore' now').0 os')
          c
        × (c.token < c'.token)
  superseded_claim-IsRefused window_id' owner_id' lease' ignore' now' os' e q =
      let h =
        regrant-IsFenced later (c.token - 1) c.token id window_id' owner_id' lease' ignore' now'
          later-IsFenced e in
      (
        token_at-IsRefused sha1_hex c.token id _ c of_id
            (run-IsFenced sha1_hex c.token c.token id _ os' q h.0),
        h.1,
      )

  -- If a claim is granted on a document with its own id, any operations follow but a second
  -- creation, and then a cancellation of the watch is applied,
  -- the claim is refused from then on, whatever operations follow but a second creation.
  pub cancelled_claim-IsRefused :
      (now' : ℕ) (os' : List (ℕ × Op))
      → (cancel_if_active later id now').1.status ≡ TransitionStatus.applied
      → AllOps (CreatesOther id) os'
      → IsRefused sha1_hex (run sha1_hex (cancel_if_active later id now').0 os') c
  cancelled_claim-IsRefused now' os' e q = token_at-IsRefused sha1_hex c.token id _ c of_id (
      run-IsFenced sha1_hex c.token c.token id _ os' q
        (cancel-fences later (c.token - 1) c.token id now' later-IsFenced e))

-- In a coherent store a claim commits at most once: after a commit under it, and any operations
-- but a second creation of the id, the claim is refused.
pub committed_claim-IsRefused :
    (sha1_hex : String → String) (s : Repo) (c : WindowClaim) (w : Watch) (r : WatchRuntime)
    (now later : ℕ) (os : List (ℕ × Op))
    → IsCoherent s c.watch.watch_id
    → (commit_window sha1_hex s c w r now later).1.status ≡ CommitStatus.committed
    → AllOps (CreatesOther c.watch.watch_id) os
    → IsRefused sha1_hex (run sha1_hex (commit_window sha1_hex s c w r now later).0 os) c
committed_claim-IsRefused sha1_hex s c w r now later os h e q =
    fenced-IsRefused sha1_hex c.token _ c (
      run-IsFenced sha1_hex c.token c.token c.watch.watch_id _ os q
        (commit-fences sha1_hex s c w r now later h e))
