-- ===== src/Redis/Creating.antt =====
-- Creating a watch and releasing a claim in the keyspace and in the in-memory store.
use dibs_reservation_sniper.Prelude.{
  ℕ, ◌<◌, ◌≡◌, leb, subst, false, refl, String, Option, none, some, List, arith, Option-cases,
  Bool-cases, inl, inr, str_eq, ◌==◌, ◌&&◌,
}
use dibs_reservation_sniper.Dict.{Dict, get}
use dibs_reservation_sniper.Model.{Watch, WatchRuntime, WindowClaim, ScheduleMarker}
use dibs_reservation_sniper.Repo
use dibs_reservation_sniper.Repo.{Repo, ClaimLease, marker_of, put_or_pop, add_event, set_marker}
use dibs_reservation_sniper.Repo.Coherent.{IsCoherent}
use dibs_reservation_sniper.Redis.State.{Keyspace, is_of, Whole, to_ms}
use dibs_reservation_sniper.Redis.Scripts.{create_script, zadd, release_script}
use dibs_reservation_sniper.Redis.Tied.{IsTied, LeaseWhole, InTime}
use dibs_reservation_sniper.Redis.Methods
use dibs_reservation_sniper.Redis.Methods.{scheduled_ms}
use dibs_reservation_sniper.Redis.View.{
  view, map_values, get-map_values, put-map_values, pop-map_values, pop_absent, held_of, score_of,
}

-- Both stores schedule a new watch exactly where its sidecar has a marker.
zadd-marker :
    (d : Dict ScheduleMarker) (id : String) (r : WatchRuntime)
    → get d id ≡ none
    → zadd (map_values score_of d) id (scheduled_ms r)
      ≡ map_values score_of (put_or_pop d id (marker_of id r))
unfolding marker_of
zadd-marker d id r e = elim (Option-cases r.window_id) [
  | inl a ↦ rw (a, pop_absent d id e) refl
  | inr (w, a) ↦ elim (Option-cases r.scheduled_for) [
    | inl b ↦ rw (a, b, pop_absent d id e) refl
    | inr (t, b) ↦
        let m : ScheduleMarker = record { watch_id = id; window_id = w; scheduled_for = t } in
        rw (a, b) (put-map_values score_of d id m)
  ]
]

-- The keys that a creation adds to the indexes.
abbrev added : Option Watch → String → List String → List String
added none id ids = add_event id ids
added (some w) id ids = ids

abbrev pub indexed : Keyspace → Repo → String → Keyspace
indexed k s id = record k {
  all_index = added (get s.watches id) id k.all_index;
  active_index = added (get s.watches id) id k.active_index;
}

-- The in-memory store asks for the token first.
pub is_of-held_of :
    (c : ClaimLease) (owner : String) (token : ℕ)
    → is_of (held_of c) owner token ≡ (c.token == token && str_eq c.owner_id owner)
is_of-held_of c owner token = ground arith

-- A lease that is not over is not over in milliseconds.
in_time :
    (c : ClaimLease) (now : ℕ)
    → Whole c.expires_at
    → Whole now
    → now < c.expires_at
    → leb (to_ms c.expires_at) (to_ms now) ≡ false
in_time c now p q l = ground (arith, p, q, l)

module _ (s : Repo) (k : Keyspace) where
  pub create_refines :
      (w : Watch) (r : WatchRuntime)
      → IsCoherent s w.watch_id
      → Methods.create_with_schedule (view s k) w r ≡ (
          let (s', result) = Repo.create_with_schedule s w r in
          (view s' (indexed k s w.watch_id), some result))
  unfolding view Methods.create_with_schedule Repo.create_with_schedule create_script get set_marker
  create_refines w r c =
      let id = w.watch_id in
      elim (Option-cases (get s.watches id)) [
        | inl e ↦
            let absent : get s.markers id ≡ none = ground (arith, c.marker_ok, e) in
            rw
              (
                e,
                Methods.create_with_schedule,
                Repo.create_with_schedule,
                zadd-marker s.markers id r absent,
              )
              refl
        | inr (old, e) ↦ elim (Option-cases (get s.runtimes id)) [
          | inl f ↦ ground (arith, c.record_ok, e, f)
          | inr (r', f) ↦ rw (e, f, Methods.create_with_schedule, Repo.create_with_schedule) refl
        ]
      ]

  pub release_refines :
      (claim : WindowClaim) (now : ℕ)
      → IsTied s claim.watch.watch_id
      → Whole now
      → InTime (get s.claims claim.watch.watch_id) now
      → Methods.release_claim (view s k) claim now
        ≡ (let (s', result) = Repo.release_claim s claim in (view s' k, result))
  unfolding view Methods.release_claim Repo.release_claim release_script
  release_refines claim now t p q =
      let id = claim.watch.watch_id in
      elim (Option-cases (get s.claims id)) [
        | inl e ↦ rw (get-map_values held_of s.claims id, e) refl
        | inr (c, e) ↦
            let live =
              in_time c now (subst LeaseWhole e t.lease_whole) p (subst (λ x. InTime x now) e q) in
            let of = is_of-held_of c claim.owner_id claim.token in
            elim (Bool-cases (c.token == claim.token && str_eq c.owner_id claim.owner_id)) [
              | inl d ↦
                  rw
                    (
                      get-map_values held_of s.claims id,
                      e,
                      of,
                      d,
                      live,
                      pop-map_values held_of s.claims id,
                    )
                    refl
              | inr d ↦ rw (get-map_values held_of s.claims id, e, of, d) refl
            ]
      ]
