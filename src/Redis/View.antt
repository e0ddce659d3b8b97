-- ===== src/Redis/View.antt =====
-- What the keyspace shows of an in-memory store: leases and markers in milliseconds.
use dibs_reservation_sniper.Prelude.{
  ℕ, ◌≡◌, refl, String, Option, none, some, [], ◌∷◌, str_eq, Bool-cases, inl, inr, ap, arith,
}
use dibs_reservation_sniper.Dict.{Dict, get, put, pop}
use dibs_reservation_sniper.Model.{ScheduleMarker}
use dibs_reservation_sniper.Repo.{Repo, ClaimLease}
use dibs_reservation_sniper.Redis.State.{Keyspace, Held, to_ms}

module _ {ℓ κ} {V : Type ℓ} {W : Type κ} (f : V → W) where
  unfoldable pub map_values : Dict V → Dict W
  map_values [] = []
  map_values ((k, v) ∷ d) = (k, f v) ∷ map_values d

  abbrev pub on_some : Option V → Option W
  on_some none = none
  on_some (some v) = some (f v)

  pub get-map_values : (d : Dict V) (k : String) → get (map_values d) k ≡ on_some (get d k)
  unfolding get map_values
  get-map_values [] k = refl
  get-map_values ((j, v) ∷ d) k = elim (Bool-cases (str_eq j k)) [
    | inl e ↦ rw e refl
    | inr e ↦ rw e (get-map_values d k)
  ]

  pub put-map_values :
      (d : Dict V) (k : String) (v : V) → put (map_values d) k (f v) ≡ map_values (put d k v)
  unfolding put map_values
  put-map_values [] k v = refl
  put-map_values ((j, w) ∷ d) k v = elim (Bool-cases (str_eq j k)) [
    | inl e ↦ rw e refl
    | inr e ↦ rw e (ap (λ x. (j, f w) ∷ x) (put-map_values d k v))
  ]

  pub pop-map_values : (d : Dict V) (k : String) → pop (map_values d) k ≡ map_values (pop d k)
  unfolding pop map_values
  pop-map_values [] k = refl
  pop-map_values ((j, w) ∷ d) k = elim (Bool-cases (str_eq j k)) [
    | inl e ↦ rw e (pop-map_values d k)
    | inr e ↦ rw e (ap (λ x. (j, f w) ∷ x) (pop-map_values d k))
  ]

-- Nothing is popped under a key that is not there.
pub pop_absent {ℓ} : {V : Type ℓ} (d : Dict V) (k : String) → get d k ≡ none → pop d k ≡ d
unfolding pop get
pop_absent [] k e = refl
pop_absent ((j, w) ∷ d) k e = elim (Bool-cases (str_eq j k)) [
  | inl p ↦ ground (arith, p)
  | inr p ↦ rw p (ap (λ x. (j, w) ∷ x) (pop_absent d k (ground (arith, p, e))))
]

abbrev pub held_of : ClaimLease → Held
held_of c = record { owner = c.owner_id; token = c.token; expires_ms = to_ms c.expires_at }

abbrev pub score_of : ScheduleMarker → ℕ
score_of m = to_ms m.scheduled_for

-- The keyspace `k` with the entries of the store `s`. The indexes, the dispatch keys and the
-- leader stay those of `k`.
unfoldable pub view : Repo → Keyspace → Keyspace
view s k = record k {
  retention = s.retention;
  documents = s.watches;
  runtimes = s.runtimes;
  fences = s.fence;
  claims = map_values held_of s.claims;
  schedule = map_values score_of s.markers;
  terminal = map_values to_ms s.terminal_delete_at;
  events = s.events;
}
