-- ===== src/Batching/Trips.antt =====
-- The trip sessions of `BatchingAdapter`, which share one session of the engine
-- (gps/batching/BatchingAdapter.cpp). `none` says that the code follows the end of a map.
use android_device_xiaomi_ms.Base.{
  ℕ, Bool, true, false, not, ◌&&◌, ◌||◌, Option, none, some, List, [], ◌∷◌, ◌++◌, ◌==◌, ltb, leb,
  length, find, insert, erase, nat_key, is_empty, if◌then◌else◌,
}
use android_device_xiaomi_ms.Core.{
  LocationError, EngineLockState, is_success, is_disabled, add32, sub32, SessionKey,
}
use android_device_xiaomi_ms.Batching.Types.{
  BatchingMode, BatchingOptions, TripSessionStatus, BatchingCallbacks, BatchingAdapter,
  start_trip_request, query_new_trip_request, restart_new_trip_request, stop_trip_request,
  query_restart_request, restart_trips_request, restart_sessions_trip_request,
  restart_session_request, stop_last_trip_request, Output, batch_full_event, ask, trips_completed,
  is_trip,
}
use android_device_xiaomi_ms.Batching.Sessions.{
  Step, outputs_first, save_batching_session, erase_batching_session,
  auto_report_batching_sessions_count, none_reports, start_batching, respond,
}
use mathlib.Core.Option

abbrev pub Trips : Type 0
Trips = List (ℕ × TripSessionStatus)

-- Changes the status of every trip.
abbrev pub each_trip : (TripSessionStatus → TripSessionStatus) → Trips → Trips
each_trip f [] = []
each_trip f ((id, s) ∷ rest) = (id, f s) ∷ each_trip f rest

unfoldable pub start_trip_batching_multiplex : ℕ → ℕ → BatchingOptions → BatchingAdapter → Step
unfolding insert save_batching_session auto_report_batching_sessions_count
start_trip_batching_multiplex client id options a =
    let fresh : TripSessionStatus = record {
      accumulated_distance_ongoing_batch = 0;
      accumulated_distance_this_trip = 0;
      accumulated_distance_on_trip_restart = 0;
      trip_distance = options.min_distance;
      trip_tbf_interval = options.min_interval;
    } in
    if is_empty a.trip_sessions
    then (
      record (save_batching_session client id options a) {
        trip_sessions = insert id fresh a.trip_sessions;
      },
      (if none_reports a then batch_full_event true ∷ [] else [])
          ++ ask (start_trip_request client id options) ∷ [],
    )
    else (a, ask (query_new_trip_request client id options) ∷ [])

-- The handler of the answer where the trip is the first.
unfoldable pub trip_started :
    ℕ → ℕ → BatchingOptions → EngineLockState → LocationError → BatchingAdapter → Step
unfolding erase erase_batching_session auto_report_batching_sessions_count respond
trip_started client id options lock err a =
    let erased = record (erase_batching_session client id a) {
      trip_sessions = erase id a.trip_sessions;
    } in
    if is_disabled lock || is_success err
    then (
      record a {
        ongoing_trip_distance = options.min_distance;
        ongoing_trip_tbf_interval = options.min_interval;
      },
      respond client err id a,
    )
    else (
      erased,
      (if none_reports erased then batch_full_event false ∷ [] else [])
          ++ respond client err id erased,
    )

-- What the handler below does to every trip before it restarts the engine's session.
abbrev pub rebase_on_report : TripSessionStatus → TripSessionStatus
rebase_on_report s = record s {
  accumulated_distance_ongoing_batch = 0;
  accumulated_distance_on_trip_restart = s.accumulated_distance_this_trip;
}

-- The handler of the distance that the engine has accumulated, where there are trips already.
unfoldable pub new_trip_queried :
    ℕ → ℕ → BatchingOptions → LocationError → ℕ → BatchingAdapter → Step
unfolding insert sub32 respond
new_trip_queried client id options err accumulated a =
    let faster = ltb options.min_interval a.ongoing_trip_tbf_interval in
    let interval = if faster then options.min_interval else a.ongoing_trip_tbf_interval in
    let remaining = sub32 a.ongoing_trip_distance accumulated in
    let shorter =
      ltb options.min_distance (if is_success err then remaining else a.ongoing_trip_distance) in
    let distance =
      if shorter
      then options.min_distance
      else if is_success err && faster
      then remaining
      else a.ongoing_trip_distance in
    let fresh : TripSessionStatus = record {
      accumulated_distance_ongoing_batch = accumulated;
      accumulated_distance_this_trip = 0;
      accumulated_distance_on_trip_restart = 0;
      trip_distance = options.min_distance;
      trip_tbf_interval = options.min_interval;
    } in
    let trips = if is_success err then insert id fresh a.trip_sessions else a.trip_sessions in
    if faster || shorter
    then (
      record a {
        trip_sessions = each_trip rebase_on_report trips;
        ongoing_trip_distance = distance;
        ongoing_trip_tbf_interval = interval;
      },
      ask (restart_new_trip_request client id distance interval) ∷ [],
    )
    else (record a { trip_sessions = trips }, respond client LocationError.success id a)

-- The loop over the trips that finds the smallest remaining distance and the smallest interval, where 0
-- stands for none.
abbrev pub remaining_distance : TripSessionStatus → ℕ
remaining_distance s = sub32 s.trip_distance s.accumulated_distance_this_trip

abbrev pub smaller : ℕ → ℕ → ℕ
smaller least n = if least == 0 || ltb n least then n else least

unfoldable pub min_loop : (TripSessionStatus → ℕ) → ℕ → Trips → ℕ
min_loop f least [] = least
min_loop f least ((id, s) ∷ rest) = min_loop f (smaller least (f s)) rest

unfoldable pub restart_trip_batching : Bool → ℕ → BatchingAdapter → Step
unfolding min_loop sub32 auto_report_batching_sessions_count
restart_trip_batching query accumulated a =
    if is_empty a.trip_sessions
    then (
      record a { ongoing_trip_distance = 0; ongoing_trip_tbf_interval = 0 },
      ask stop_last_trip_request ∷ (if none_reports a then batch_full_event false ∷ [] else []),
    )
    else (
      a,
      ask (
            query_restart_request query (min_loop remaining_distance 0 a.trip_sessions)
              (min_loop (λ s. s.trip_tbf_interval) 0 a.trip_sessions) accumulated)
          ∷ [],
    )

-- The handler of the accumulated distance.
unfoldable pub restart_queried : Bool → ℕ → ℕ → ℕ → ℕ → BatchingAdapter → Step
unfolding sub32
restart_queried query min_remaining min_tbf acc_dist answered a =
    let accumulated = if query then answered else acc_dist in
    let left = sub32 a.ongoing_trip_distance accumulated in
    let running = not a.trip_with_ongoing_trip_distance_dropped && not (left == 0) in
    let new_distance = if running then ltb min_remaining left else not (min_remaining == 0) in
    let new_interval =
      ltb min_tbf a.ongoing_trip_tbf_interval
      || (not (min_tbf == a.ongoing_trip_tbf_interval) && a.trip_with_ongoing_tbf_dropped) in
    let distance = if new_distance then min_remaining else a.ongoing_trip_distance in
    let interval = if new_interval then min_tbf else a.ongoing_trip_tbf_interval in
    (
      a,
      if new_distance || new_interval
          then ask (restart_trips_request accumulated distance interval) ∷ []
          else [],
    )

-- The distance of a trip when the engine has accumulated so much.
unfoldable pub trip_distance_at : ℕ → TripSessionStatus → ℕ
unfolding add32 sub32
trip_distance_at accumulated s =
    add32 s.accumulated_distance_on_trip_restart
      (sub32 accumulated s.accumulated_distance_ongoing_batch)

-- What a restart that succeeds does to every trip.
abbrev pub rebase_at : ℕ → TripSessionStatus → TripSessionStatus
rebase_at accumulated s = record s {
  accumulated_distance_this_trip = trip_distance_at accumulated s;
  accumulated_distance_ongoing_batch = 0;
  accumulated_distance_on_trip_restart = trip_distance_at accumulated s;
}

-- The handler of the restart.
unfoldable pub trips_restarted : ℕ → ℕ → ℕ → LocationError → BatchingAdapter → Step
unfolding trip_distance_at
trips_restarted accumulated distance interval err a = (
  if is_success err
      then record a {
        trip_sessions = each_trip (rebase_at accumulated) a.trip_sessions;
        ongoing_trip_distance = distance;
        ongoing_trip_tbf_interval = interval;
      }
      else a,
  [],
)

-- `stopTripBatchingMultiplexCommon`.
unfoldable pub stop_trip_batching_multiplex_common :
    LocationError → ℕ → ℕ → Bool → BatchingOptions → BatchingAdapter → Option Step
unfolding find erase restart_trip_batching erase_batching_session start_batching
    start_trip_batching_multiplex respond
stop_trip_batching_multiplex_common err client id restart_needed options a =
    elim (find id a.trip_sessions) [
      | none ↦ none
      | some s ↦
          let dropped = record a {
            trip_with_ongoing_tbf_dropped =
                s.trip_tbf_interval == a.ongoing_trip_tbf_interval
                || a.trip_with_ongoing_tbf_dropped;
            trip_with_ongoing_trip_distance_dropped =
                s.trip_distance == a.ongoing_trip_distance
                || a.trip_with_ongoing_trip_distance_dropped;
            trip_sessions = erase id a.trip_sessions;
          } in
          let (left, sent) : Step =
            if is_empty dropped.trip_sessions
            then (record dropped { ongoing_trip_distance = 0; ongoing_trip_tbf_interval = 0 }, [])
            else restart_trip_batching true 0 dropped in
          let erased = erase_batching_session client id left in
          let (b, more) : Step =
            if restart_needed
            then elim options.batching_mode [
              | BatchingMode.routine ↦ start_batching client id options false erased
              | BatchingMode.no_auto_report ↦ start_batching client id options false erased
              | BatchingMode.trip ↦ start_trip_batching_multiplex client id options erased
              | BatchingMode.other _ ↦ (erased, [])
            ]
            else (left, []) in
          some (b, sent ++ more ++ respond client err id b)
    ]

unfoldable pub stop_trip_batching_multiplex :
    ℕ → ℕ → Bool → BatchingOptions → BatchingAdapter → Option Step
unfolding stop_trip_batching_multiplex_common
stop_trip_batching_multiplex client id restart_needed options a =
    if length a.trip_sessions == 1
    then some (a, ask (stop_trip_request client id restart_needed options) ∷ [])
    else stop_trip_batching_multiplex_common LocationError.success client id restart_needed options
        a

-- The handler of the stop of the engine's session.
unfoldable pub trip_stopped :
    ℕ → ℕ → Bool → BatchingOptions → LocationError → BatchingAdapter → Option Step
unfolding auto_report_batching_sessions_count stop_trip_batching_multiplex_common
trip_stopped client id restart_needed options err a =
    Option.map
      (outputs_first (
        if is_success err && auto_report_batching_sessions_count a == 1
        then batch_full_event false ∷ []
        else []))
      (stop_trip_batching_multiplex_common err client id restart_needed options a)

-- `restartSessions`: the ordinary sessions are started again. The loop over the trips changes copies of
-- their status, so theirs stays.
unfoldable pub restart_sessions_loop : List (SessionKey × BatchingOptions) → List Output
restart_sessions_loop [] = []
restart_sessions_loop ((key, options) ∷ rest) =
    let later = restart_sessions_loop rest in
    if is_trip options.batching_mode
    then later
    else ask (restart_session_request key.id options) ∷ later

unfoldable pub restart_batching_sessions : BatchingAdapter → Step
unfolding restart_sessions_loop min_loop sub32 auto_report_batching_sessions_count
restart_batching_sessions a =
    let distance = min_loop remaining_distance 0 a.trip_sessions in
    let interval = min_loop (λ s. s.trip_tbf_interval) 0 a.trip_sessions in
    let sent =
      (if none_reports a then [] else batch_full_event true ∷ [])
      ++ restart_sessions_loop a.batching_sessions in
    if is_empty a.trip_sessions then (a, sent) else (
      record a { ongoing_trip_distance = distance; ongoing_trip_tbf_interval = interval },
      sent ++ ask (restart_sessions_trip_request distance interval) ∷ [],
    )

-- The handler of its answer.
unfoldable pub sessions_trip_restarted : LocationError → BatchingAdapter → Step
sessions_trip_restarted err a = (
  if is_success err
      then a
      else record a { ongoing_trip_distance = 0; ongoing_trip_tbf_interval = 0 },
  [],
)

-- The loop of `reportCompletedTripsEvent`: the trips that go on, those that are completed, and whether
-- one with the ongoing interval, or with the ongoing distance, was dropped. The code compares the status
-- of a completed trip after it has freed it: `freed` is what it then reads.
pub record Completion : Type 0 where
  pub running : Trips
  pub completed : List ℕ
  pub tbf_dropped : Bool
  pub distance_dropped : Bool

unfoldable pub completion_loop : (ℕ → TripSessionStatus) → ℕ → BatchingAdapter → Trips → Completion
unfolding trip_distance_at
completion_loop freed accumulated a [] = record {
  running = [];
  completed = [];
  tbf_dropped = a.trip_with_ongoing_tbf_dropped;
  distance_dropped = a.trip_with_ongoing_trip_distance_dropped;
}
completion_loop freed accumulated a ((id, s) ∷ rest) =
    let later = completion_loop freed accumulated a rest in
    let now = record s { accumulated_distance_this_trip = trip_distance_at accumulated s } in
    if leb s.trip_distance (trip_distance_at accumulated s)
    then record {
      running = later.running;
      completed = id ∷ later.completed;
      tbf_dropped =
          (freed id).trip_tbf_interval == a.ongoing_trip_tbf_interval || later.tbf_dropped;
      distance_dropped =
          (freed id).trip_distance == a.ongoing_trip_distance || later.distance_dropped;
    }
    else record later { running = (id, now) ∷ later.running }

-- `reportBatchStatusChange` for completed trips.
unfoldable pub report_batch_status_change : List (ℕ × BatchingCallbacks) → List ℕ → List Output
report_batch_status_change [] ids = []
report_batch_status_change ((client, c) ∷ rest) ids =
    let later = report_batch_status_change rest ids in
    if c.batching_status_cb then trips_completed client ids ∷ later else later

unfoldable pub report_completed_trips : (ℕ → TripSessionStatus) → ℕ → BatchingAdapter → Step
unfolding completion_loop report_batch_status_change restart_trip_batching
report_completed_trips freed accumulated a =
    let done = completion_loop freed accumulated a a.trip_sessions in
    let left = record a {
      trip_sessions = done.running;
      trip_with_ongoing_tbf_dropped = done.tbf_dropped;
      trip_with_ongoing_trip_distance_dropped = done.distance_dropped;
    } in
    if is_empty done.completed
    then (left, [])
    else outputs_first (report_batch_status_change a.client_data done.completed)
        (restart_trip_batching false accumulated left)
