-- ===== src/Tests/Dispatches.antt =====
-- The theorems on the dispatcher at the marker of a created watch.
use dibs_reservation_sniper.Prelude.{◌≤◌, ◌≡◌, refl, true, Bool, arith}
use dibs_reservation_sniper.Dict.{get, put}
use dibs_reservation_sniper.Model.{ScheduleMarker}
use dibs_reservation_sniper.Repo.{
  Repo, new_repo, create_with_schedule, set_marker, marker_of, claim_dispatch, marker_is_current,
  dispatch_held,
}
use dibs_reservation_sniper.Dispatcher.{
  Publish, Outcome, DispatcherSettings, dispatch_one, dispatch_due,
}
use dibs_reservation_sniper.Dispatcher.Flight.{total, dispatch_due-total, dispatched_once}
use dibs_reservation_sniper.Tests.Data.{created}

abbrev accepting : Repo → Publish → Repo × Bool
accepting s q = (s, true)

abbrev some_dispatcher : DispatcherSettings
some_dispatcher = record {
  owner_id = "d1";
  horizon = 30;
  lease = 20;
  recovery_grace = 60;
  batch_size = 5;
}

abbrev other_dispatcher : DispatcherSettings
other_dispatcher = record some_dispatcher { owner_id = "d2" }

abbrev some_marker : ScheduleMarker
some_marker = record { watch_id = "w"; window_id = "w:0"; scheduled_for = 0 }

dispatched_once_example :
    dispatch_one accepting other_dispatcher
      (dispatch_one accepting some_dispatcher created some_marker 10 11).0
      some_marker
      40
      41
    ≡ ((dispatch_one accepting some_dispatcher created some_marker 10 11).0, Outcome.deferred)
unfolding create_with_schedule new_repo set_marker marker_of get put claim_dispatch
    marker_is_current dispatch_held dispatch_one
dispatched_once_example =
    dispatched_once accepting accepting some_dispatcher other_dispatcher created some_marker 10 40
      11 41 (λ r q. refl) refl (omega arith)

dispatch_due-total_example :
    (total (dispatch_due accepting some_dispatcher created 10 (λ n. 11)).1
      ≡ (dispatch_due accepting some_dispatcher created 10 (λ n. 11)).1.considered)
    × ((dispatch_due accepting some_dispatcher created 10 (λ n. 11)).1.considered ≤ 5)
dispatch_due-total_example = dispatch_due-total accepting some_dispatcher created 10 (λ n. 11)
