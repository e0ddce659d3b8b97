-- ===== src/Tests/Polls.antt =====
-- The theorems on polls at a concrete world, provider and claim.
use dibs_reservation_sniper.Prelude.{
  ◌≡◌, refl, true, false, none, some, [], ◌∷◌, arith, eq_iff, is_some,
}
use dibs_reservation_sniper.Dict.{get, put}
use dibs_reservation_sniper.Model.{Watch, validate_state}
use dibs_reservation_sniper.Repo.{
  Repo, new_repo, create_with_schedule, claim_window, begin_booking, set_marker, marker_of, owns,
  grant_claim, lease_held, not_due,
}
use dibs_reservation_sniper.Repo.Steps.{Op, step, run}
use dibs_reservation_sniper.Schedule.{earliest_delay}
use dibs_reservation_sniper.Policy.{AvailabilityPolicy, PolicyLimit, derive}
use dibs_reservation_sniper.Service.{World, Adapter, Settings, Readings, Reply, Reconciliation}
use dibs_reservation_sniper.Service.{miss, noop, provider_sequence, auto_book_sequence}
use dibs_reservation_sniper.Service.{carry_out, poll_window}
use dibs_reservation_sniper.Service.{new_watch, describe_policy}
use dibs_reservation_sniper.Service.Answered.{IsRegular}
use dibs_reservation_sniper.Service.Total.{poll_window_total}
use dibs_reservation_sniper.Service.Isolation.{
  unclaimed_poll_idle, watch_only_never_books, superseded_never_books,
}
use dibs_reservation_sniper.Service.Effects.{Sends, carry_out-Sends}
use dibs_reservation_sniper.Service.Described.{described_as_created}
use dibs_reservation_sniper.Service.Documents.{StoredValid}
use dibs_reservation_sniper.Service.Documents.Plans.{KeepsDocuments}
use dibs_reservation_sniper.Service.Documents.Polls.{poll_window_keeps_valid}
use dibs_reservation_sniper.Tests.Data.{
  same_text, some_query, some_slot, some_confirmation, some_watch, first_claim, second_claim,
  created, claimed,
}

abbrev some_settings : Settings
some_settings = record {
  schedule = record { interval = 60000000; jitter = 10000000 };
  max_attempts = 5;
  backoff_max = 600000000;
  poll_lease = 120000000;
}

abbrev some_readings : Readings
some_readings = record {
  claimed_at = 10;
  started_at = 11;
  permit_at = 12;
  commit_at = 13;
  retain_at = 14;
}

-- A provider that has a slot and books it, and one that fails to.
abbrev willing : Adapter (Unit {0})
willing = record {
  search_availability = λ w query. (w, Reply.value (some_slot ∷ []));
  get_booking = λ w key. (w, Reply.value none);
  book_slot = λ w slot_id key. (w, Reply.value some_confirmation);
  reconcile_booking = λ w key. (w, Reply.value Reconciliation.unresolved);
}

abbrev failing : Adapter (Unit {0})
failing = record willing { book_slot = λ w slot_id key. (w, Reply.failed "down") }

abbrev world_of : Repo → World (Unit {0})
world_of repo = record { repo = repo; provider = tt; published = []; history = []; notices = [] }

willing-IsRegular : IsRegular willing
willing-IsRegular = record {
  search = λ w q. tt;
  lookup = λ w key. tt;
  book = λ w slot_id key. tt;
  reconcile = λ w key. tt;
}

willing-KeepsDocuments : KeepsDocuments willing
willing-KeepsDocuments = record {
  search = λ w q h. h;
  lookup = λ w key h. h;
  book = λ w slot_id key h. h;
  reconcile = λ w key h. h;
}

created-StoredValid : StoredValid created
unfolding create_with_schedule new_repo set_marker marker_of get put validate_state
created-StoredValid i v e = ground (arith, eq_iff "w" i)

poll_window_keeps_valid_example :
    StoredValid
      (poll_window same_text some_settings willing some_readings 0
        (world_of created)
        "w"
        "w:0"
        "a"
        true).0.repo
poll_window_keeps_valid_example =
    poll_window_keeps_valid same_text some_settings willing willing-KeepsDocuments some_readings 0
      (world_of created) "w" "w:0" "a" true created-StoredValid

poll_window_total_example :
    is_some
      (poll_window same_text some_settings willing some_readings 0
        (world_of created)
        "w"
        "w:0"
        "a"
        true).1
    ≡ true
poll_window_total_example =
    poll_window_total same_text some_settings willing willing-IsRegular some_readings 0
      (world_of created) "w" "w:0" "a" true

carry_out-Sends_example :
    Sends first_claim
      (world_of claimed)
      (carry_out same_text some_settings willing some_readings 5
        (world_of claimed)
        first_claim
        some_watch
        11
        miss).0
carry_out-Sends_example =
    carry_out-Sends same_text some_settings willing some_readings 5 (world_of claimed) first_claim
      11 miss refl

unclaimed_poll_idle_example :
    (poll_window same_text some_settings willing some_readings 0
      (world_of created)
      "w"
      "w:9"
      "a"
      true).0
    ≡ world_of created
unfolding create_with_schedule new_repo set_marker marker_of get put claim_window
unclaimed_poll_idle_example =
    unclaimed_poll_idle same_text some_settings willing some_readings 0 (world_of created) "w" "w:9"
      "a" true (ground arith)

abbrev watch_only : Watch
watch_only = record some_watch { auto_book = false }

watch_only_never_books_example :
    provider_sequence willing (world_of claimed) 12 first_claim watch_only
    ≡ provider_sequence failing (world_of claimed) 12 first_claim watch_only
watch_only_never_books_example =
    watch_only_never_books willing failing 12 first_claim watch_only (world_of claimed) refl
      (λ v. refl)

-- The claim's lease is over, and another worker has claimed the window.
abbrev taken_over : Repo
taken_over =
    run same_text
      (claim_window
        (run same_text (claim_window created "w" "w:0" "a" 100 false 10).0
          ((20, Op.begin first_claim) ∷ []))
        "w" "w:0" "b" 100 false 200).0
      ((210, Op.begin second_claim) ∷ [])

superseded_never_books_example :
    auto_book_sequence willing (world_of taken_over) 220 first_claim some_watch (some_slot ∷ [])
    ≡ (world_of taken_over, noop)
unfolding create_with_schedule new_repo claim_window grant_claim begin_booking set_marker marker_of
    get put lease_held not_due owns step run
superseded_never_books_example =
    superseded_never_books same_text created "w" "w:0" "a" 100 false 10
      ((20, Op.begin first_claim) ∷ []) refl refl (tt, tt) willing (world_of taken_over) 220
      (some_slot ∷ []) "w:0" "b" 100 false 200 ((210, Op.begin second_claim) ∷ []) refl (tt, tt)
      refl

-- Fourteen minutes at a check every fifty seconds at the earliest, of which five are granted.
abbrev some_policy : AvailabilityPolicy
some_policy = record {
  required_attempts = 19;
  effective_attempts = 5;
  supports_deadline = false;
  limiting_reason = PolicyLimit.safety_ceiling;
}

described_as_created_example :
    describe_policy some_settings (new_watch "w" some_query true 0 900000000 some_policy)
    ≡ some some_policy
unfolding derive earliest_delay
described_as_created_example =
    described_as_created some_settings "w" some_query true 0 900000000 5 refl
