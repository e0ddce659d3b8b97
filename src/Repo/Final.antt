-- ===== src/Repo/Final.antt =====
-- A finished watch stays as it is until retention removes it, and is announced at most once.
pub mod Keeps
pub mod Announced
use dibs_reservation_sniper.Prelude.{◌≡◌, String, Bool, true, Option, none, some, arith, eq_iff}
use dibs_reservation_sniper.Dict.{get, get-put, get-pop}
use dibs_reservation_sniper.Model.{Watch, is_terminal}
use dibs_reservation_sniper.Repo.State.{Repo}

abbrev pub SameOrGone : Watch → Option Watch → Type 0
SameOrGone w none = Unit {0}
SameOrGone w (some v) = v ≡ w

-- The document of the id is the finished watch `w`, or is gone.
pub record IsFinal (w : Watch) (id : String) (s : Repo) : Type 0 where
  pub finished : is_terminal w.status ≡ true
  pub kept : SameOrGone w (get s.watches id)

pub ruleset final_rules = (arith, eq_iff, get-put, get-pop)
