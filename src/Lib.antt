-- ===== src/Lib.antt =====
-- Dibs watches for a reservation: a user creates a watch, workers poll a provider for it at a
-- jittered pace, and the watch ends found, booked, expired or cancelled. This library models the
-- core of the backend and shows what it promises.
--
-- The parts, and the files that model them:
--   Model            backend/models/watch.py, watch_runtime.py, reservation.py, and the decisions
--                    of backend/db/repositories/watch_decisions.py: documents, sidecars, validators
--   Repo             InMemoryWatchRepository of backend/db/repositories/watches.py; State has the
--                    fields and internal helpers, Claims the life of a cadence window, Transitions
--                    cancellation and expiry, Dispatch the publication leases, Documents the plain
--                    surface, Recovery cleanup and repair
--   Redis            RedisWatchRepository of backend/db/repositories/watches.py over the Lua scripts
--                    of watch_scripts.py: State has the keyspace, Scripts and Methods the life of a
--                    window, Dispatch, Documents and Recovery the rest
--   Schedule         backend/workers/scheduler.py
--   Policy           backend/services/watch_policy.py
--   Backoff          the outage backoff of backend/services/watch_service.py
--   Service          WatchService of backend/services/watch_service.py: Env has what a poll reads
--                    and writes, Builders the documents, Sequence the provider interaction, Commit
--                    and Poll the fenced poll, Legacy the unfenced one, Create the requests
--   MockStore        InMemoryMockBookingStateRepository of backend/db/repositories/mock_booking.py
--   Dispatcher       WatchScheduleDispatcher of backend/workers/dispatcher.py
--   Throttle         SlidingWindowThrottle of backend/services/throttle.py; Window has the methods
--   Calendar         Python's `date`, as the ordinal of a day
--   Venues           backend/data/venues.py: Holidays, Profiles, Catalogue and Matching
--   Intent           backend/orchestrator/schemas.py and validator.py: Schemas, Times, Questions and
--                    Validator
--   Offers           the slot generator of backend/integrations/mock_booking.py: Times has the start
--                    times, Generate the slots
--   Reconcile        RecoveryCoordinator of backend/services/watch_recovery.py: Ports has the calls
--                    that it makes, Pass the coordinator, Mended the in-memory store as its ports
--   Prelude, Dict,   shared: tests and lists over native numbers, Python's dict in insertion
--   Text             order, decimal numbers in text
--   Tests            the theorems at concrete inputs
--
-- How they interact. A poll (Service.Poll) claims a window in the repository, asks the provider for
-- slots, takes a booking permit before it books, and commits one transition under its claim. Every
-- repository method is one critical section under the store's lock, so it is a function from a
-- state to a state and a result, and any interleaving of workers, sweeps and requests is a list of
-- operations (Repo.Steps), each with its clock reading. A provider call is an await during which
-- other tasks run, so an adapter is a function that may change the whole world, store included.
--
-- How values are represented. Instants and durations are microseconds, an HourMinute its minutes
-- since midnight, an IsoDate its three numbers. A jitter drawn from [-j, j] is an argument in
-- [0, 2 * j]. A dict is an association list in insertion order. A revision of -1 is `none`. Clock
-- readings, fresh ids, SHA-1, the time zone's midnight and the adapter are arguments. A raised
-- exception is a constructor or `none`. A commit reads the clock for its lease and, if it finishes
-- the watch, once more for the retention deadline, so it takes two instants.
--
-- Fuel. The doubling loop of the exponent limit runs on the maximum as fuel, which is enough since
-- every round adds at least one to a positive value. The
-- range of start times runs on its last time plus one, more than its length. The decimal print of
-- a number runs on the number itself. Reconciliation has three attempts, as in
-- the source. All other loops are structural.
--
-- The keyspace of the Redis store holds values where the server holds their JSON, so codecs and
-- corrupt documents are left out; so is the native expiry of the watch keys, a backstop. A claim
-- and a publication lease expire natively with their lease, on a server clock that agrees with the
-- callers'. A script is one step. A method with several round trips takes the changes that other clients make in between
-- as an argument.
--
-- Not modelled. The Redis store of mock bookings, PostgreSQL, Celery, SMTP, HTTP and the
-- language model are services whose code is elsewhere or is glue around them. Cancellation of an
-- asyncio task, an exception that nothing catches and the provider deadline appear only as outcomes
-- of a provider call. The field
-- validators that pydantic runs on the reservation models and the extraction are not modelled, and
-- Unicode normalization is an argument. The plain `save`
-- is modelled, and used by the legacy path, but it is not among the operations of Repo.Steps.
pub mod Prelude
pub mod Dict
pub mod Text
pub mod Model
pub mod Offers
pub mod Repo
pub mod Schedule
pub mod Policy
pub mod Redis
pub mod Reconcile
pub mod Backoff
pub mod Calendar
pub mod Service
pub mod MockStore
pub mod Throttle
pub mod Venues
pub mod Dispatcher
pub mod Intent
pub mod Tests
