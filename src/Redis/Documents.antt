-- ===== src/Redis/Documents.antt =====
-- The plain document surface of the Redis store. A pipeline is one transaction; a listing takes
-- several round trips, here with no other client in between.
use dibs_reservation_sniper.Prelude.{
  String, Bool, Option, none, some, List, [], ◌∷◌, if◌then◌else◌, is_some, sort_by_desc,
}
use dibs_reservation_sniper.Dict.{get, put, pop}
use dibs_reservation_sniper.Model.{Watch, is_active, WatchRuntime}
use dibs_reservation_sniper.Repo.{add_event}
use dibs_reservation_sniper.Redis.State.{Keyspace, srem}
use dibs_reservation_sniper.Redis.Methods.{get_watch}

unfoldable pub save : Keyspace → Watch → Keyspace × Watch
save k watch = (
  record k {
    documents = put k.documents watch.watch_id watch;
    all_index = add_event watch.watch_id k.all_index;
    active_index =
        if is_active watch.status
        then add_event watch.watch_id k.active_index
        else srem k.active_index watch.watch_id;
  },
  watch,
)

unfoldable pub get_runtime : Keyspace → String → Option WatchRuntime
get_runtime k id = get k.runtimes id

-- The documents of the members, and the members that have none.
unfoldable pub load : Keyspace → List String → List Watch × List String
load k [] = ([], [])
load k (id ∷ ids) =
    let (found, stale) = load k ids in
    elim (get_watch k id) [ none ↦ (found, id ∷ stale) | some w ↦ (w ∷ found, stale) ]

unfoldable pub srem_all : List String → List String → List String
srem_all xs [] = xs
srem_all xs (id ∷ ids) = srem_all (srem xs id) ids

-- `sorted` of the members of a set is by text.
module _ (sorted_ids : List String → List String) where
  abbrev newest_first : List Watch → List Watch
  newest_first ws = sort_by_desc (λ w. w.created_at) ws

  unfoldable pub list_all : Keyspace → Keyspace × List Watch
  unfolding load srem_all
  list_all k =
      let (found, stale) = load k (sorted_ids k.all_index) in
      (record k { all_index = srem_all k.all_index stale }, newest_first found)

  -- The watches that are still active, and the ids of the others.
  split_active : List Watch → List Watch × List String
  split_active [] = ([], [])
  split_active (w ∷ ws) =
      let (active, stale) = split_active ws in
      if is_active w.status then (w ∷ active, stale) else (active, w.watch_id ∷ stale)

  unfoldable pub list_active : Keyspace → Keyspace × List Watch
  unfolding load srem_all split_active
  list_active k =
      let (found, missing) = load k (sorted_ids k.active_index) in
      let (active, stale) = split_active (newest_first found) in
      (record k { active_index = srem_all (srem_all k.active_index missing) stale }, active)

-- The eight commands of the pipeline; the dispatch keys stay. The answer is whether a document was
-- deleted.
unfoldable pub delete : Keyspace → String → Keyspace × Bool
delete k id = (
  record k {
    documents = pop k.documents id;
    runtimes = pop k.runtimes id;
    fences = pop k.fences id;
    claims = pop k.claims id;
    all_index = srem k.all_index id;
    active_index = srem k.active_index id;
    schedule = pop k.schedule id;
    terminal = pop k.terminal id;
  },
  is_some (get k.documents id),
)
