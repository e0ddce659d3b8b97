-- ===== src/Redis/Refine.antt =====
-- The keyspace answers as the in-memory store does.
use dibs_reservation_sniper.Prelude.{◌≡◌, String}
use dibs_reservation_sniper.Repo.{Repo}
use dibs_reservation_sniper.Repo.Coherent.{IsCoherent}
use dibs_reservation_sniper.Repo.Coherent.Claims
use dibs_reservation_sniper.Redis.State.{Keyspace}
use dibs_reservation_sniper.Redis.View.{view}
use dibs_reservation_sniper.Redis.Tied.{IsTied}
use dibs_reservation_sniper.Redis.Keeps
use dibs_reservation_sniper.Redis.Calls.{Answer}

-- Every id's entries fit together, in one store and between its parts.
record IsSound (s : Repo) : Type 0 where
  coherent : (id : String) → IsCoherent s id
  tied : (id : String) → IsTied s id

-- The in-memory store's state is shown, by some keyspace.
record Shown (s : Repo) (x : Keyspace × Answer) (y : Repo × Answer) : Type 0 where
  rest : Keyspace
  state : x.0 ≡ view y.0 rest
  answer : x.1 ≡ y.1
