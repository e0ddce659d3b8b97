-- ===== src/Redis/Leader.antt =====
-- The leader lease has one owner at a time.
use dibs_reservation_sniper.Prelude.{
  ℕ, ◌+◌, ◌<◌, ◌≡◌, ◌≢◌, ◌⊎◌, String, true, false, some, arith, eq_iff, max,
}
use dibs_reservation_sniper.Redis.State.{Keyspace, to_ms}
use dibs_reservation_sniper.Redis.Recovery.{
  leader_at, acquire_leadership, renew_leadership, release_leadership,
}

-- Once a lease was taken or renewed, and while it lasts on the server, no other owner can take,
-- renew or release it, and its attempts change nothing; the lease lasts a millisecond at least.
pub leader_exclusive :
    (k k' : Keyspace) (owner other : String) (lease lease' now later : ℕ)
    → (acquire_leadership k owner lease now ≡ (k', true))
      ⊎ (renew_leadership k owner lease now ≡ (k', true))
    → owner ≢ other
    → later < now + max 1 (to_ms lease)
    → (leader_at k' now ≡ some owner)
      × ((acquire_leadership k' other lease' later ≡ (k', false))
          × ((renew_leadership k' other lease' later ≡ (k', false))
              × (release_leadership k' other later ≡ (k', false))))
unfolding leader_at acquire_leadership renew_leadership release_leadership
leader_exclusive k k' owner other lease lease' now later e n l =
    ground (arith, e, n, l, eq_iff owner other)
