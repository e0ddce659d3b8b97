-- ===== src/Redis/State.antt =====
-- The keyspace under the `watch:` prefix, as the values that its keys hold. A document key holds
-- JSON that the scripts store verbatim, so a value stands for its JSON; a claim and a dispatch key
-- hold "owner|token|expires_ms". These two keys are set to expire natively, `PX`, when their lease
-- is over; the server's clock is taken to agree with the callers', so a script finds such a key
-- only before its `expires_ms`. Most scripts compare `expires_ms` themselves; a release does not,
-- and there the model does. A dispatch lease that is marked with an instant that is not ahead is
-- over at once here, and one millisecond later on the server.
-- A set is the list of its members, a sorted set the dictionary of its scores in milliseconds.
use Prim.Native.String.{◌++◌ as str_append}
use dibs_reservation_sniper.Prelude.{
  ℕ, ◌*◌, ◌/◌, ◌%◌, ◌≡◌, String, Bool, ◌&&◌, not, Option, none, List, [], ◌∷◌, ◌==◌, leb, ltb,
  str_eq, if◌then◌else◌, is_some_and,
}
use dibs_reservation_sniper.Dict.{Dict}
use dibs_reservation_sniper.Model.{Watch, WatchRuntime}

pub record Held : Type 0 where
  pub owner : String
  pub token : ℕ
  pub expires_ms : ℕ

-- The recovery leader, and when its key expires on the server.
pub record Leader : Type 0 where
  pub owner : String
  pub until_ms : ℕ

pub record Keyspace : Type 0 where
  pub retention : ℕ
  pub documents : Dict Watch
  pub runtimes : Dict WatchRuntime
  pub fences : Dict ℕ
  pub claims : Dict Held
  pub dispatch_fences : Dict ℕ
  pub dispatches : Dict Held
  pub all_index : List String
  pub active_index : List String
  pub schedule : Dict ℕ
  pub terminal : Dict ℕ
  pub events : List String
  pub leader : Option Leader

unfoldable pub new_keyspace : ℕ → Keyspace
new_keyspace retention = record {
  retention = retention;
  documents = [];
  runtimes = [];
  fences = [];
  claims = [];
  dispatch_fences = [];
  dispatches = [];
  all_index = [];
  active_index = [];
  schedule = [];
  terminal = [];
  events = [];
  leader = none;
}

-- Epoch milliseconds, rounded down.
abbrev pub to_ms : ℕ → ℕ
to_ms t = t / 1000

abbrev pub from_ms : ℕ → ℕ
from_ms m = m * 1000

-- An instant or a duration of whole milliseconds.
abbrev pub Whole : ℕ → Type 0
Whole t = t % 1000 ≡ 0

-- SREM
unfoldable pub srem : List String → String → List String
srem [] id = []
srem (x ∷ xs) id = let rest = srem xs id in if str_eq x id then rest else x ∷ rest

abbrev pub is_live : Option Held → ℕ → Bool
is_live held now_ms = is_some_and held (λ h. ltb now_ms h.expires_ms)

abbrev pub is_of : Held → String → ℕ → Bool
is_of h owner_id token = str_eq h.owner owner_id && h.token == token

-- The lease test that booking and committing share: the holder's, under its token, unexpired. It is
-- also when a release finds the holder's key.
abbrev pub holds : Option Held → String → ℕ → ℕ → Bool
holds held owner_id token now_ms =
    is_some_and held (λ h. is_of h owner_id token && not (leb h.expires_ms now_ms))

-- The key of a window's dispatch lease; the digest of the window is a parameter.
module _ (dispatch_window_hash : String → String) where
  abbrev pub dispatch_key : String → String → String
  dispatch_key id window_id =
      str_append id (str_append ":dispatch:" (dispatch_window_hash window_id))
