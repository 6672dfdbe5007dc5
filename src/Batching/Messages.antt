-- ===== src/Batching/Messages.antt =====
-- The commands of `BatchingAdapter` when their messages are handled, and the handlers of the LocApi's
-- answers (gps/batching/BatchingAdapter.cpp).
use android_device_xiaomi_ms.Base.{
  ℕ, Bool, true, false, not, ◌&&◌, ◌||◌, Option, none, some, List, [], ◌∷◌, ◌++◌, ◌==◌, nat_key,
  map, if◌then◌else◌,
}
use android_device_xiaomi_ms.Core.{
  LocationError, EngineLockState, is_success, is_enabled, SessionKey,
}
use android_device_xiaomi_ms.Batching.Types.{
  BatchingMode, BatchingOptions, BatchingAdapter, Message, start_message, update_message,
  stop_message, get_message, Request, start_batching_request, stop_batching_request,
  start_trip_request, query_new_trip_request, restart_new_trip_request, stop_trip_request,
  query_restart_request, restart_trips_request, get_trip_locations_request, get_locations_request,
  restart_session_request, restart_sessions_trip_request, stop_last_trip_request, batch_full_event,
  ask, send_message, is_no_auto_report, is_trip,
}
use android_device_xiaomi_ms.Batching.Sessions.{
  Step, outputs_first, has_batching_callback, is_batching_session, is_trip_session, respond,
  start_batching, batching_started, stop_batching, save_batching_session,
  auto_report_batching_sessions_count, none_reports,
}
use android_device_xiaomi_ms.Batching.Trips.{
  start_trip_batching_multiplex, trip_started, new_trip_queried, restart_queried, trips_restarted,
  stop_trip_batching_multiplex, trip_stopped, restart_batching_sessions, sessions_trip_restarted,
}
use mathlib.Core.Option

-- A command that starts: `is_supported` says whether the engine supports batching by distance.
unfoldable pub proc_start : Bool → ℕ → ℕ → BatchingOptions → BatchingAdapter → Step
unfolding has_batching_callback start_batching start_trip_batching_multiplex respond
proc_start is_supported client id options a =
    if not (has_batching_callback client a) || (options.size == 0 || not is_supported)
    then (a, [])
    else elim options.batching_mode [
      | BatchingMode.routine ↦ start_batching client id options true a
      | BatchingMode.no_auto_report ↦ start_batching client id options true a
      | BatchingMode.trip ↦ start_trip_batching_multiplex client id options a
      | BatchingMode.other _ ↦ (a, respond client LocationError.invalid_parameter id a)
    ]

abbrev pub is_other : BatchingMode → Bool
is_other (BatchingMode.other _) = true
is_other _ = false

unfoldable pub proc_update : ℕ → ℕ → BatchingOptions → BatchingAdapter → Option Step
unfolding is_batching_session is_trip_session stop_batching stop_trip_batching_multiplex
proc_update client id options a =
    if not (is_batching_session client id a)
      || (options.size == 0 || is_other options.batching_mode)
    then some (a, [])
    else if is_trip_session id a
    then stop_trip_batching_multiplex client id true options a
    else some (stop_batching client id true options a)

-- A command that stops; `unset` is what the options of the call hold that nothing has initialised.
unfoldable pub proc_stop : BatchingOptions → ℕ → ℕ → BatchingAdapter → Option Step
unfolding is_batching_session is_trip_session stop_batching stop_trip_batching_multiplex
proc_stop unset client id a =
    if not (is_batching_session client id a)
    then some (a, [])
    else if is_trip_session id a
    then stop_trip_batching_multiplex client id false unset a
    else some (stop_batching client id false unset a)

unfoldable pub proc_get : ℕ → ℕ → ℕ → BatchingAdapter → Step
unfolding has_batching_callback is_batching_session is_trip_session respond
proc_get client id count a =
    if not (has_batching_callback client a)
    then (a, respond client LocationError.callback_missing id a)
    else if not (is_batching_session client id a)
    then (a, respond client LocationError.id_unknown id a)
    else if is_trip_session id a
    then (a, ask (get_trip_locations_request client id count) ∷ [])
    else (a, ask (get_locations_request client id count) ∷ [])

-- What a message finds in its surroundings besides the adapter.
pub record Surroundings : Type 0 where
  pub is_supported : Bool
  pub unset : BatchingOptions

-- `proc` of a message.
unfoldable pub proc : Surroundings → Message → BatchingAdapter → Option Step
unfolding proc_start proc_update proc_stop proc_get
proc s message a =
    let handled : Option Step = elim message [
      | start_message client id options ↦ some (proc_start s.is_supported client id options a)
      | update_message client id options ↦ proc_update client id options a
      | stop_message client id ↦ proc_stop s.unset client id a
      | get_message client id count ↦ some (proc_get client id count a)
    ] in
    if a.is_engine_capabilities_known
    then handled
    else some (record a { pending_msgs = a.pending_msgs ++ message ∷ [] }, [])

-- The handler of the answer to the stop of an ordinary session.
unfoldable pub batching_stopped :
    ℕ
    → ℕ
    → BatchingOptions
    → Bool
    → BatchingOptions
    → EngineLockState
    → LocationError
    → BatchingAdapter
    → Step
unfolding save_batching_session auto_report_batching_sessions_count start_batching
    start_trip_batching_multiplex respond
batching_stopped client id old restart_needed options lock err a =
    let mask =
      if none_reports a && not (is_no_auto_report old.batching_mode)
      then batch_full_event false ∷ []
      else [] in
    let (b, sent) : Step =
      if restart_needed
      then elim options.batching_mode [
        | BatchingMode.routine ↦ start_batching client id options false a
        | BatchingMode.no_auto_report ↦ start_batching client id options false a
        | BatchingMode.trip ↦ start_trip_batching_multiplex client id options a
        | BatchingMode.other _ ↦ (a, [])
      ]
      else (a, []) in
    if is_enabled lock && not (is_success err)
    then (save_batching_session client id options a, respond client err id a)
    else (b, mask ++ sent ++ respond client err id b)

-- An answer of the LocApi: the lock of the engine when it comes, the error, and the distance that the
-- engine says it has accumulated.
pub record Answer : Type 0 where
  pub lock : EngineLockState
  pub err : LocationError
  pub accumulated_distance : ℕ

unfoldable pub answer_request : Answer → Request → BatchingAdapter → Option Step
unfolding batching_started batching_stopped trip_started new_trip_queried trip_stopped
    restart_queried trips_restarted sessions_trip_restarted respond
answer_request r (start_batching_request client id options p) a =
    some (batching_started client id options p r.lock r.err a)
answer_request r (stop_batching_request client id old restart options) a =
    some (batching_stopped client id old restart options r.lock r.err a)
answer_request r (start_trip_request client id options) a =
    some (trip_started client id options r.lock r.err a)
answer_request r (query_new_trip_request client id options) a =
    some (new_trip_queried client id options r.err r.accumulated_distance a)
answer_request r (restart_new_trip_request client id distance interval) a =
    some (a, respond client r.err id a)
answer_request r (stop_trip_request client id restart options) a =
    trip_stopped client id restart options r.err a
answer_request r (query_restart_request query min_remaining min_tbf acc_dist) a =
    some (restart_queried query min_remaining min_tbf acc_dist r.accumulated_distance a)
answer_request r (restart_trips_request accumulated distance interval) a =
    some (trips_restarted accumulated distance interval r.err a)
answer_request r (get_trip_locations_request client id count) a =
    some (a, respond client r.err id a)
answer_request r (get_locations_request client id count) a = some (a, respond client r.err id a)
answer_request r (restart_session_request id options) a = some (a, [])
answer_request r (restart_sessions_trip_request distance interval) a =
    some (sessions_trip_restarted r.err a)
answer_request r stop_last_trip_request a = some (a, [])

-- The loop of `stopClientSessions` over the sessions that the client had.
unfoldable pub stop_sessions :
    BatchingOptions → ℕ → List (SessionKey × BatchingOptions) → BatchingAdapter → Option Step
unfolding stop_batching stop_trip_batching_multiplex
stop_sessions unset client [] a = some (a, [])
stop_sessions unset client ((key, options) ∷ rest) a =
    let this : Option Step =
      if is_trip options.batching_mode
      then stop_trip_batching_multiplex client key.id false unset a
      else some (stop_batching client key.id false unset a) in
    if client == key.client
    then elim this [
      | none ↦ none
      | some (b, sent) ↦ Option.map (outputs_first sent) (stop_sessions unset client rest b)
    ]
    else stop_sessions unset client rest a

unfoldable pub stop_batching_client : BatchingOptions → ℕ → BatchingAdapter → Option Step
unfolding stop_sessions
stop_batching_client unset client a = stop_sessions unset client a.batching_sessions a

-- The handling of `handleEngineUpEvent`.
unfoldable pub engine_up : EngineLockState → BatchingAdapter → Step
unfolding restart_batching_sessions
engine_up lock a =
    let known = record a { is_engine_capabilities_known = true } in
    let (b, sent) = restart_batching_sessions known in
    if is_enabled lock
    then (record b { pending_msgs = [] }, sent ++ map send_message a.pending_msgs)
    else (known, [])

-- `handleEngineLockStatus`.
unfoldable pub engine_lock_status : EngineLockState → BatchingAdapter → Step
engine_lock_status lock a =
    if is_enabled lock
    then (record a { pending_gnss_enabled_msgs = [] }, map send_message a.pending_gnss_enabled_msgs)
    else (a, [])
