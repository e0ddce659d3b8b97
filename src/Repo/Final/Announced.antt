-- ===== src/Repo/Final/Announced.antt =====
-- Terminal events over a whole run.
use dibs_reservation_sniper.Prelude.{
  ℕ, ◌≤◌, ◌≡◌, refl, ◌⊎◌, inl, inr, String, Bool, true, Option, some, none, List, [], ◌∷◌, ◌++◌,
  arith, eq_iff, str_eq, if◌then◌else◌, length, subst, ap, Bool-cases, Option-cases,
}
use mathlib.Core.List.{append-nil}
use dibs_reservation_sniper.Dict.{get}
use dibs_reservation_sniper.Model.{Watch, WatchStatus, WatchRuntime, WindowClaim, is_terminal}
use dibs_reservation_sniper.Repo.State.{Repo, set_marker, apply_terminal, issue_event}
use dibs_reservation_sniper.Repo.Claims.{commit_window}
use dibs_reservation_sniper.Repo.Transitions.{finish_as, cancel_if_active, expire_if_eligible}
use dibs_reservation_sniper.Repo.Steps.{
  Op, commit, cancel, expire, step, run, CreatesOther, AllOps, run_keeps,
}
use dibs_reservation_sniper.Repo.Final.{IsFinal, SameOrGone, final_rules}
use dibs_reservation_sniper.Repo.Final.Keeps.{step-IsFinal}

-- The event of an operation on the watch, if it issued one.
event_for : String → String → Option String → List String
event_for id subject none = []
event_for id subject (some e) = if str_eq subject id then e ∷ [] else []

event_for-none : (id subject : String) → event_for id subject none ≡ []
unfolding event_for
event_for-none id subject = refl

kept_cases : (w : Watch) (o : Option Watch) → SameOrGone w o → (o ≡ some w) ⊎ (o ≡ none)
kept_cases w none h = inr refl
kept_cases w (some v) h = inl (ap some h)

event_cases :
    {P : Type 0} (id subject : String) (o : Option String)
    → ((e : String) → o ≡ some e → subject ≡ id → P)
    → (event_for id subject o ≡ []) ⊎ ((length (event_for id subject o) ≡ 1) × P)
unfolding event_for
event_cases id subject none f = inl refl
event_cases id subject (some e) f = elim (Bool-cases (str_eq subject id)) [
  | inl p ↦ inr (rw p refl, f e refl ((eq_iff subject id).0 p))
  | inr p ↦ inl (rw p refl)
]

-- Commits, cancellations and expiries are about one watch; nothing else issues events.
subject : ℕ × Op → String
subject (now, commit c w r later) = c.watch.watch_id
subject (now, cancel id) = id
subject (now, expire id expected force) = id
subject _ = ""

module _ (sha1_hex : String → String) where
  -- The events that a run issued for one watch, in order.
  pub announced : String → Repo → List (ℕ × Op) → List String
  unfolding subject event_for
  announced id s [] = []
  announced id s (o ∷ os) =
      event_for id (subject o) (step sha1_hex s o).1 ++ announced id (step sha1_hex s o).0 os

  -- Over a finished watch, no operation issues an event.
  commit_quiet :
      (w : Watch) (id : String) (s : Repo) (c : WindowClaim) (v : Watch) (r : WatchRuntime)
      (now later : ℕ)
      → IsFinal w id s
      → str_eq c.watch.watch_id id ≡ true
      → (commit_window sha1_hex s c v r now later).1.event_id ≡ none
  unfolding commit_window issue_event
  commit_quiet w id s c v r now later h e = grind (arith, eq_iff)

  cancel_quiet : (s : Repo) (id : String) (now : ℕ) → (cancel_if_active s id now).1.event_id ≡ none
  unfolding cancel_if_active
  cancel_quiet s id now = ground arith

  expire_quiet :
      (w : Watch) (id : String) (s : Repo) (i : String) (expected : Option ℕ) (force : Bool)
      (now : ℕ)
      → IsFinal w id s
      → str_eq i id ≡ true
      → (expire_if_eligible sha1_hex s i expected force now).1.event_id ≡ none
  unfolding expire_if_eligible issue_event
  expire_quiet w id s i expected force now h e = grind (arith, eq_iff)

  -- An event is issued with the transition to a finished watch.
  commit_finishes :
      (s : Repo) (c : WindowClaim) (v : Watch) (r : WatchRuntime) (now later : ℕ) {e : String}
      → (commit_window sha1_hex s c v r now later).1.event_id ≡ some e
      → IsFinal v c.watch.watch_id (commit_window sha1_hex s c v r now later).0
  unfolding commit_window issue_event set_marker
  commit_finishes s c v r now later e = grind final_rules

  expire_finishes :
      (s : Repo) (id : String) (expected : Option ℕ) (force : Bool) (now : ℕ) {e : String}
      → (expire_if_eligible sha1_hex s id expected force now).1.event_id ≡ some e
      → (w : Watch) × IsFinal w id (expire_if_eligible sha1_hex s id expected force now).0
  unfolding expire_if_eligible issue_event apply_terminal
  expire_finishes s id expected force now e = elim (Option-cases (get s.watches id)) [
    | inl p ↦ absurd (ground arith)
    | inr (w, p) ↦ (finish_as WatchStatus.expired w now, grind final_rules)
  ]

  quiet :
      (w : Watch) (id : String) (s : Repo) (o : ℕ × Op)
      → IsFinal w id s
      → event_for id (subject o) (step sha1_hex s o).1 ≡ []
  unfolding event_for subject step
  quiet w id s (now, commit c v r later) h = ground (arith, commit_quiet w id s c v r now later h)
  quiet w id s (now, cancel i) h = rw (cancel_quiet s i now)
  quiet w id s (now, expire i expected force) h =
      ground (arith, expire_quiet w id s i expected force now h)
  quiet w id s _ h = refl

  announced_final :
      (w : Watch) (id : String) (s : Repo) (os : List (ℕ × Op))
      → AllOps (CreatesOther id) os
      → IsFinal w id s
      → announced id s os ≡ []
  unfolding announced
  announced_final w id s [] q h = refl
  announced_final w id s (o ∷ os) q h =
      rw (quiet w id s o h)
        (announced_final w id (step sha1_hex s o).0 os q.1 (step-IsFinal w id sha1_hex s o q.0 h))

  -- An operation is quiet about the watch, or issues one event and leaves it finished.
  quiet_or_IsFinal :
      (id : String) (s : Repo) (o : ℕ × Op)
      → (event_for id (subject o) (step sha1_hex s o).1 ≡ [])
        ⊎ ((length (event_for id (subject o) (step sha1_hex s o).1) ≡ 1)
            × ((w : Watch) × IsFinal w id (step sha1_hex s o).0))
  unfolding subject step
  quiet_or_IsFinal id s (now, commit c v r later) = event_cases id c.watch.watch_id _ λ e p q. (
    v,
    subst (λ i. IsFinal v i (commit_window sha1_hex s c v r now later).0) q
        (commit_finishes s c v r now later p),
  )
  quiet_or_IsFinal id s (now, cancel i) = inl (rw (cancel_quiet s i now) (event_for-none id i))
  quiet_or_IsFinal id s (now, expire i expected force) = event_cases id i _ λ e p q.
      let (w, h) = expire_finishes s i expected force now p in
      (w, subst (λ k. IsFinal w k (expire_if_eligible sha1_hex s i expected force now).0) q h)
  quiet_or_IsFinal id s o = inl (event_for-none id (subject o))

  -- In any run in which the id is not created again, at most one terminal event is issued for the
  -- watch, whatever claims, commits, expiries and sweeps race.
  pub announced-le-one :
      (id : String) (s : Repo) (os : List (ℕ × Op))
      → AllOps (CreatesOther id) os
      → length (announced id s os) ≤ 1
  unfolding announced
  announced-le-one id s [] q = omega arith
  announced-le-one id s (o ∷ os) q = elim (quiet_or_IsFinal id s o) [
    | inl e ↦ rw e (announced-le-one id (step sha1_hex s o).0 os q.1)
    | inr (e, (w, h)) ↦
        rw (announced_final w id (step sha1_hex s o).0 os q.1 h) (rw append-nil (omega arith))
  ]

  -- From a store in which the watch is finished, whatever operations follow (but a second creation
  -- of the id), its document is unchanged or gone, and no event is issued for it.
  pub finished_watch_final :
      (w : Watch) (id : String) (s : Repo) (os : List (ℕ × Op))
      → get s.watches id ≡ some w
      → is_terminal w.status ≡ true
      → AllOps (CreatesOther id) os
      → ((get (run sha1_hex s os).watches id ≡ some w)
          ⊎ (get (run sha1_hex s os).watches id ≡ none))
        × (announced id s os ≡ [])
  finished_watch_final w id s os e t q =
      let start : IsFinal w id s = ground arith in
      let end =
        run_keeps sha1_hex (IsFinal w id) (CreatesOther id) (λ s o. step-IsFinal w id sha1_hex s o)
          s os q start in
      (
        kept_cases w (get (run sha1_hex s os).watches id) end.kept,
        announced_final w id s os q start,
      )
