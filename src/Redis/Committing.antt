-- ===== src/Redis/Committing.antt =====
-- Taking a booking permit and committing a window in the keyspace and in the in-memory store.
use dibs_reservation_sniper.Prelude.{
  ℕ, ◌+◌, ◌≡◌, refl, String, true, false, Option, none, some, List, arith, is_some_and,
  Option-cases, Bool-cases, inl, inr, str_eq, ◌==◌, ◌&&◌, ltb, if◌then◌else◌, ap, ◌∙◌, subst,
}
use dibs_reservation_sniper.Dict.{Dict, get}
use dibs_reservation_sniper.Model.{
  Watch, is_terminal, WatchRuntime, CommitStatus, RuntimePhase, WindowClaim, ScheduleMarker,
  CommitResult,
}
use dibs_reservation_sniper.Repo
use dibs_reservation_sniper.Repo.{
  Repo, ClaimLease, owns, issue_event, set_marker, marker_of, put_or_pop, committed_runtime,
  is_event_status,
}
use dibs_reservation_sniper.Repo.Coherent.{IsCoherent}
use dibs_reservation_sniper.Redis.State.{Keyspace, to_ms, holds, Whole, srem}
use dibs_reservation_sniper.Redis.Scripts.{begin_script, passes, commit_script, reschedule}
use dibs_reservation_sniper.Redis.Methods
use dibs_reservation_sniper.Redis.Methods.{scheduled_ms}
use dibs_reservation_sniper.Redis.Tied.{LeaseWhole, IsTied}
use dibs_reservation_sniper.Redis.View.{
  view, map_values, on_some, get-map_values, put-map_values, pop-map_values, held_of, score_of,
}

holds-held_of :
    (held : Option ClaimLease) (owner : String) (token now : ℕ)
    → LeaseWhole held
    → Whole now
    → holds (on_some held_of held) owner token (to_ms now)
      ≡ is_some_and held
          (λ c. c.token == token && (str_eq c.owner_id owner && ltb now c.expires_at))
holds-held_of held owner token now q p = ground (arith, q, p)

-- A claim whose sidecar is the stored one but for the phase, while that is at its revision and
-- has no cancellation recorded. This is what `claim_window` returns.
abbrev pub Genuine : Option WatchRuntime → WindowClaim → Type 0
Genuine none c = Unit {0}
Genuine (some r) c =
    r.revision ≡ c.runtime.revision
    → r.cancel_requested ≡ false
    → record c.runtime { phase = none } ≡ record r { phase = none }

module _ (s : Repo) (k : Keyspace) (claim : WindowClaim) where
  passes_agrees :
      (r : WatchRuntime) (now : ℕ)
      → IsTied s claim.watch.watch_id
      → Whole now
      → passes
          (view s k)
          claim.watch.watch_id
          r
          claim.runtime.revision
          claim.token
          claim.owner_id
          (to_ms now)
        ≡ owns s claim r now
  unfolding view owns
  passes_agrees r now t p =
      let id = claim.watch.watch_id in
      let held = holds-held_of (get s.claims id) claim.owner_id claim.token now t.lease_whole p in
      rw (get-map_values held_of s.claims id, held) refl

  -- Both stores put the same sidecar for a granted permit.
  stored_booking :
      (r : WatchRuntime) (now : ℕ)
      → Genuine (get s.runtimes claim.watch.watch_id) claim
      → get s.runtimes claim.watch.watch_id ≡ some r
      → owns s claim r now ≡ true
      → r.cancel_requested ≡ false
      → record claim.runtime { phase = some RuntimePhase.booking }
        ≡ record r { phase = some RuntimePhase.booking; cancel_requested = false }
  unfolding owns
  stored_booking r now g f o c =
      let same = subst (λ x. Genuine x claim) f g (ground (arith, o)) c in
      ap (λ (x : WatchRuntime). record x { phase = some RuntimePhase.booking }) same
      ∙ ap (λ b. record r { phase = some RuntimePhase.booking; cancel_requested = b }) c

  pub begin_refines :
      (now : ℕ)
      → IsTied s claim.watch.watch_id
      → Genuine (get s.runtimes claim.watch.watch_id) claim
      → Whole now
      → Methods.begin_booking (view s k) claim now
        ≡ (let (s', result) = Repo.begin_booking s claim now in (view s' k, result))
  unfolding view Methods.begin_booking Repo.begin_booking begin_script get
  begin_refines now t g p =
      let id = claim.watch.watch_id in
      elim (Option-cases (get s.watches id)) [
        | inl e ↦ rw (e, Methods.begin_booking, Repo.begin_booking) refl
        | inr (w, e) ↦ elim (Option-cases (get s.runtimes id)) [
          | inl f ↦ elim (Bool-cases (is_terminal w.status)) [
            | inl a ↦ rw (e, f, a, Methods.begin_booking, Repo.begin_booking) refl
            | inr a ↦ rw (e, f, a, Methods.begin_booking, Repo.begin_booking) refl
          ]
          | inr (r, f) ↦ elim (Bool-cases (is_terminal w.status)) [
            | inl a ↦ rw (e, f, a, Methods.begin_booking, Repo.begin_booking) refl
            | inr a ↦
                let pass = passes_agrees r now t p in
                elim (Bool-cases (owns s claim r now)) [
                  | inr o ↦ rw (e, f, a, Methods.begin_booking, Repo.begin_booking, pass, o) refl
                  | inl o ↦ elim (Bool-cases r.cancel_requested) [
                    | inl c ↦
                        rw (e, f, a, Methods.begin_booking, Repo.begin_booking, pass, o, c) refl
                    | inr c ↦
                        rw
                          (
                            e,
                            f,
                            a,
                            Methods.begin_booking,
                            Repo.begin_booking,
                            pass,
                            o,
                            c,
                            stored_booking r now g f o c,
                          )
                          refl
                  ]
                ]
          ]
        ]
      ]

-- What both answers to a commit say: the status and the event. A refused commit of a finished watch
-- comes with that watch from the in-memory store alone.
abbrev pub outcome : CommitResult → CommitStatus × Option String
outcome r = (r.status, r.event_id)

abbrev pub with_outcome : Keyspace × CommitResult → Keyspace × (CommitStatus × Option String)
with_outcome (k, r) = (k, outcome r)

abbrev left : CommitStatus → Watch → String → List String → List String
left CommitStatus.committed w id ids = if is_terminal w.status then srem ids id else ids
left _ w id ids = ids

-- A commit that finishes the watch drops it from the active index.
abbrev pub retired : Keyspace → CommitStatus → Watch → String → Keyspace
retired k status w id = record k { active_index = left status w id k.active_index }

reschedule-marker :
    (d : Dict ScheduleMarker) (id : String) (r : WatchRuntime)
    → reschedule (map_values score_of d) id (scheduled_ms r)
      ≡ map_values score_of (put_or_pop d id (marker_of id r))
unfolding marker_of
reschedule-marker d id r = elim (Option-cases r.window_id) [
  | inl a ↦ rw (a, pop-map_values score_of d id) refl
  | inr (w, a) ↦ elim (Option-cases r.scheduled_for) [
    | inl b ↦ rw (a, b, pop-map_values score_of d id) refl
    | inr (t, b) ↦
        let m : ScheduleMarker = record { watch_id = id; window_id = w; scheduled_for = t } in
        rw (a, b) (put-map_values score_of d id m)
  ]
]

same_revision :
    (s : Repo) (claim : WindowClaim) (r : WatchRuntime) (now : ℕ)
    → owns s claim r now ≡ true
    → claim.runtime.revision ≡ r.revision
unfolding owns
same_revision s claim r now o = ground (arith, o)

module _ (sha1_hex : String → String) (s : Repo) (k : Keyspace) (claim : WindowClaim) where
  pub commit_refines :
      (w : Watch) (r : WatchRuntime) (now : ℕ)
      → IsCoherent s claim.watch.watch_id
      → IsTied s claim.watch.watch_id
      → Whole now
      → with_outcome (Methods.commit_window sha1_hex (view s k) claim w r now now) ≡ (
          let (s', result) = Repo.commit_window sha1_hex s claim w r now now in
          with_outcome (view s' (retired k result.status w claim.watch.watch_id), result))
  unfolding view Methods.commit_window Repo.commit_window commit_script get issue_event set_marker
  commit_refines w r now c t p =
      let id = claim.watch.watch_id in
      elim (Option-cases (get s.watches id)) [
        | inl e ↦ rw (e, Methods.commit_window, Repo.commit_window) refl
        | inr (old, e) ↦ elim (Option-cases (get s.runtimes id)) [
          | inl f ↦ ground (arith, c.record_ok, e, f)
          | inr (current, f) ↦ elim (Bool-cases (is_terminal old.status)) [
            | inl a ↦ rw (e, f, a, Methods.commit_window, Repo.commit_window) refl
            | inr a ↦
                let pass = passes_agrees s k claim current now t p in
                elim (Bool-cases (owns s claim current now)) [
                  | inr o ↦ rw (e, f, a, Methods.commit_window, Repo.commit_window, pass, o) refl
                  | inl o ↦ elim (Bool-cases (is_terminal w.status)) [
                    | inl b ↦
                        rw
                          (
                            e,
                            f,
                            a,
                            Methods.commit_window,
                            Repo.commit_window,
                            pass,
                            o,
                            b,
                            same_revision s claim current now o,
                            pop-map_values held_of s.claims id,
                            pop-map_values score_of s.markers id,
                            put-map_values to_ms s.terminal_delete_at id (now + s.retention),
                          )
                          (elim (Bool-cases (is_event_status w.status)) [
                            | inl v ↦ rw (v, b) refl
                            | inr v ↦ rw (v, b) refl
                          ])
                    | inr b ↦
                        rw
                          (
                            e,
                            f,
                            a,
                            Methods.commit_window,
                            Repo.commit_window,
                            pass,
                            o,
                            b,
                            same_revision s claim current now o,
                            pop-map_values held_of s.claims id,
                            reschedule-marker s.markers id
                                (committed_runtime r (current.revision + 1)),
                            b,
                          )
                          refl
                  ]
                ]
          ]
        ]
      ]
