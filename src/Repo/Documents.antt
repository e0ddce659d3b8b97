-- ===== src/Repo/Documents.antt =====
-- The plain document surface: save, read, list and delete.
use dibs_reservation_sniper.Prelude.{
  String, Bool, Option, List, [], ◌∷◌, if◌then◌else◌, is_some, sort_by_desc,
}
use dibs_reservation_sniper.Dict
use dibs_reservation_sniper.Dict.{Dict, put, pop}
use dibs_reservation_sniper.Model.{Watch, is_active, WatchRuntime, ScheduleMarker}
use dibs_reservation_sniper.Repo.State.{Repo}

unfoldable pub save : Repo → Watch → Repo × Watch
save s watch = (record s { watches = put s.watches watch.watch_id watch }, watch)

unfoldable pub get_watch : Repo → String → Option Watch
get_watch s id = Dict.get s.watches id

unfoldable pub get_runtime : Repo → String → Option WatchRuntime
get_runtime s id = Dict.get s.runtimes id

unfoldable pub schedule_marker : Repo → String → Option ScheduleMarker
schedule_marker s id = Dict.get s.markers id

unfoldable pub values {ℓ} : {V : Type ℓ} → Dict V → List V
values [] = []
values ((k, v) ∷ d) = v ∷ values d

-- Newest first; watches of one instant stay in insertion order.
unfoldable pub list_all : Repo → List Watch
unfolding values
list_all s = sort_by_desc (λ w. w.created_at) (values s.watches)

unfoldable pub keep_active : List Watch → List Watch
keep_active [] = []
keep_active (w ∷ ws) = let rest = keep_active ws in if is_active w.status then w ∷ rest else rest

unfoldable pub list_active : Repo → List Watch
list_active s = keep_active (list_all s)

-- The eight dictionaries that `delete` and the cleanup pop.
unfoldable pub forget : Repo → String → Repo
forget s id = record s {
  watches = pop s.watches id;
  runtimes = pop s.runtimes id;
  fence = pop s.fence id;
  claims = pop s.claims id;
  dispatch_fence = pop s.dispatch_fence id;
  dispatch_leases = pop s.dispatch_leases id;
  markers = pop s.markers id;
  terminal_delete_at = pop s.terminal_delete_at id;
}

unfoldable pub delete : Repo → String → Repo × Bool
unfolding forget
delete s id = (forget s id, is_some (Dict.get s.watches id))
