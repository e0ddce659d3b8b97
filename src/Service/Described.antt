-- ===== src/Service/Described.antt =====
-- What a watch says of its own monitoring policy.
use dibs_reservation_sniper.Prelude.{ℕ, ◌≡◌, String, Bool, some}
use dibs_reservation_sniper.Model.{AvailabilityQuery}
use dibs_reservation_sniper.Policy.{AvailabilityPolicy, derive, derive_again}
use dibs_reservation_sniper.Service.Env.{Settings}
use dibs_reservation_sniper.Service.Create.{new_watch, describe_policy}

-- The policy that is recovered from a created watch, by deriving against its own budget as the
-- ceiling, is the one that it was created under: nothing more needs to be stored.
pub described_as_created :
    (settings : Settings) (watch_id : String) (query : AvailabilityQuery) (auto_book : Bool)
    (now expires_at ceiling : ℕ) {policy : AvailabilityPolicy}
    → derive settings.schedule now expires_at ceiling ≡ some policy
    → describe_policy settings (new_watch watch_id query auto_book now expires_at policy)
      ≡ some policy
unfolding describe_policy new_watch
described_as_created settings watch_id query auto_book now expires_at ceiling e =
    derive_again settings.schedule now expires_at ceiling e
