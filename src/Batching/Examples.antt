-- ===== src/Batching/Examples.antt =====
-- Tests of the batching model: one client with an ordinary session and two trips.
use android_device_xiaomi_ms.Base.{
  ℕ, ◌≡◌, refl, true, false, List, [], ◌∷◌, ◌++◌, some, is_empty, filter, find, nat_key, arith,
  if◌then◌else◌,
}
use android_device_xiaomi_ms.Core.{
  LocationError, EngineLockState, SessionKey, session_key, session_key_eq, add32,
}
use android_device_xiaomi_ms.Batching.Types.{
  BatchingMode, BatchingOptions, TripSessionStatus, BatchingAdapter, Output, ask,
  query_restart_request, restart_sessions_trip_request, batch_full_event, query_new_trip_request,
  start_message, stop_message, update_message,
}
use android_device_xiaomi_ms.Batching.Sessions.{
  has_batching_callback, none_reports, is_trip_session,
}
use android_device_xiaomi_ms.Batching.Trips.{
  remaining_distance, restart_trip_batching, restart_sessions_loop, restart_batching_sessions,
  report_completed_trips, trips_restarted, trip_distance_at,
}
use android_device_xiaomi_ms.Batching.Messages.{Answer, Surroundings, answer_request, proc}
use android_device_xiaomi_ms.Batching.Minimum.{IsLeast, restart_trip_batching-IsLeast}
use android_device_xiaomi_ms.Batching.Completed.{
  reached, unreached, told, is_trips_completed, report_completed_trips_lem,
}
use android_device_xiaomi_ms.Batching.Progress.{trips_restarted_keep_distance}
use android_device_xiaomi_ms.Batching.Leftovers.{new_trip_unstoppable}

abbrev options : BatchingMode → BatchingOptions
options mode = record {
  size = 10;
  min_interval = 400;
  min_distance = 50;
  mode = 0;
  batching_mode = mode;
}

abbrev status : ℕ → ℕ → ℕ → TripSessionStatus
status distance interval gone = record {
  accumulated_distance_ongoing_batch = 20;
  accumulated_distance_this_trip = gone;
  accumulated_distance_on_trip_restart = gone;
  trip_distance = distance;
  trip_tbf_interval = interval;
}

abbrev key : ℕ → SessionKey
key id = record { client = 7; id = id }

abbrev adapter : BatchingAdapter
adapter = record {
  batching_sessions =
      (key 1, options BatchingMode.routine) ∷ (key 2, options BatchingMode.trip) ∷ [];
  trip_sessions = (2, status 100 500 30) ∷ (3, status 90 300 10) ∷ [];
  ongoing_trip_distance = 60;
  ongoing_trip_tbf_interval = 300;
  trip_with_ongoing_tbf_dropped = false;
  trip_with_ongoing_trip_distance_dropped = false;
  client_data =
      (7, record { batching_cb = true; batching_status_cb = true; response_cb = true })
      ∷ (8, record { batching_cb = true; batching_status_cb = false; response_cb = true })
      ∷ [];
  is_engine_capabilities_known = true;
  pending_msgs = [];
  pending_gnss_enabled_msgs = [];
}

restart_trip_batching-IsLeast_example :
    (distance interval : ℕ) × IsLeast remaining_distance distance adapter.trip_sessions
    × IsLeast (λ s. s.trip_tbf_interval) interval adapter.trip_sessions
    × (restart_trip_batching true 0 adapter
        ≡ (adapter, ask (query_restart_request true distance interval 0) ∷ []))
    × ((restart_batching_sessions adapter).1
        ≡ ((if none_reports adapter then [] else batch_full_event true ∷ [])
            ++ restart_sessions_loop adapter.batching_sessions)
          ++ ask (restart_sessions_trip_request distance interval) ∷ [])
    × ((restart_batching_sessions adapter).0.ongoing_trip_distance ≡ distance)
    × ((restart_batching_sessions adapter).0.ongoing_trip_tbf_interval ≡ interval)
restart_trip_batching-IsLeast_example =
    restart_trip_batching-IsLeast true 0 adapter (λ e. ground arith)
      ((omega arith, omega arith, omega arith), ((omega arith, omega arith, omega arith), tt))

smallest :
    restart_trip_batching true 0 adapter ≡ (adapter, ask (query_restart_request true 70 300 0) ∷ [])
unfolding restart_trip_batching
smallest = refl

abbrev freed : ℕ → TripSessionStatus
freed id = status 0 0 0

report_completed_trips_lem_example :
    let (b, sent) = report_completed_trips freed 95 adapter in
    let ids = reached 95 adapter.trip_sessions in
    (b.trip_sessions ≡ unreached 95 adapter.trip_sessions)
    × (filter is_trips_completed sent ≡ (if is_empty ids then [] else told ids adapter.client_data))
report_completed_trips_lem_example = report_completed_trips_lem freed 95 adapter

second_goes_on : reached 95 adapter.trip_sessions ≡ 2 ∷ []
unfolding trip_distance_at
second_goes_on = refl

trips_restarted_keep_distance_example :
    (t : TripSessionStatus) × (find 3
        (trips_restarted 25 60 300 LocationError.success adapter).0.trip_sessions
      ≡ some t)
    × (t.trip_distance ≡ 90)
    × (t.trip_tbf_interval ≡ 300)
    × (t.accumulated_distance_this_trip ≡ trip_distance_at 25 (status 90 300 10))
    × (trip_distance_at 40 t ≡ trip_distance_at (add32 25 40) (status 90 300 10))
unfolding find
trips_restarted_keep_distance_example =
    trips_restarted_keep_distance 25 60 300 40 3 (status 90 300 10) adapter refl (omega arith)

abbrev answered : Answer
answered = record {
  lock = EngineLockState.enabled;
  err = LocationError.success;
  accumulated_distance = 25;
}

abbrev around : Surroundings
around = record { is_supported = true; unset = options BatchingMode.trip }

new_trip_unstoppable_example :
    (proc around (start_message 7 4 (options BatchingMode.trip)) adapter
      ≡ some (adapter, ask (query_new_trip_request 7 4 (options BatchingMode.trip)) ∷ []))
    × (b : BatchingAdapter) × (sent : List Output) × (answer_request answered
          (query_new_trip_request 7 4 (options BatchingMode.trip))
          adapter
        ≡ some (b, sent))
    × (is_trip_session 4 b ≡ true)
    × (b.batching_sessions ≡ adapter.batching_sessions)
    × (proc around (stop_message 7 4) b ≡ some (b, []))
    × (proc around (update_message 7 4 (options BatchingMode.routine)) b ≡ some (b, []))
unfolding has_batching_callback find session_key_eq
new_trip_unstoppable_example =
    new_trip_unstoppable around 7 4 (options BatchingMode.trip) (options BatchingMode.routine)
      answered adapter refl refl refl refl refl refl refl refl
