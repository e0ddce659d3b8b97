-- ===== src/Repo/Fencing.antt =====
-- Fence tokens: a claim that was superseded, committed or cancelled away never writes again.
pub mod Keeps
pub mod Stale
use dibs_reservation_sniper.Prelude.{ℕ, ◌≤◌, ◌<◌, String, Option, none, some, arith, eq_iff}
use dibs_reservation_sniper.Dict.{get, get-put, get-pop}
use dibs_reservation_sniper.Model.{Watch}
use dibs_reservation_sniper.Repo.State.{Repo, ClaimLease}

abbrev pub ClaimAbove : ℕ → Option ClaimLease → Type 0
ClaimAbove t none = Unit {0}
ClaimAbove t (some c) = t < c.token

abbrev pub FenceReached : ℕ → Option Watch → Option ℕ → Type 0
FenceReached t none f = Unit {0}
FenceReached t (some w) none = ⊥
FenceReached t (some w) (some n) = t ≤ n

-- A held claim of the watch has a token above `t`, and later claims get one above `u`.
pub record IsFenced (t u : ℕ) (id : String) (s : Repo) : Type 0 where
  pub ordered : t ≤ u
  pub above : ClaimAbove t (get s.claims id)
  pub reached : FenceReached u (get s.watches id) (get s.fence id)

pub ruleset fence_rules = (arith, eq_iff, get-put, get-pop)
