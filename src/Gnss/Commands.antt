-- ===== src/Gnss/Commands.antt =====
-- The commands on tracking when their messages are handled, the answers of the LocApi, and the restart
-- (gps/gnss/GnssAdapter.cpp).
use android_device_xiaomi_ms.Base.{
  ℕ, Bool, false, not, ◌&&◌, ◌||◌, Option, none, some, List, [], ◌∷◌, ◌++◌, ltb, ◌==◌, is_empty,
  filter, if◌then◌else◌,
}
use android_device_xiaomi_ms.Core.{
  LocationError, EngineLockState, is_success, is_enabled, is_disabled, SessionKey,
}
use android_device_xiaomi_ms.Gnss.Types.{
  LocationOptions, TrackingOptions, GnssAdapter, start_tracking_message, update_tracking_message,
  Handler, no_handler, time_started, time_stopped, time_updated, distance_started, distance_stopped,
  client_distance_stopped, distance_to_time, distance_to_restart, distance_restarted, Output,
  start_time_based_tracking, stop_fix, start_distance_based_tracking, stop_distance_based_tracking,
  hub_start_fix, hub_stop_fix, check_update_dgnss_ntrip, stop_dgnss_ntrip,
}
use android_device_xiaomi_ms.Gnss.Sessions.{
  Step, ◌then_do◌, to_location_options, is_time_based_tracking_session,
  is_distance_based_tracking_session, has_callbacks_to_start_tracking, report_to,
  save_tracking_session, erase_tracking_session,
}
use android_device_xiaomi_ms.Gnss.Multiplex.{
  Sessions, min_tracking_interval, check_and_set_spe_to_run_for_nhz, unset_options, interval_loop,
  none_skipped, start_time_based_tracking_multiplex, update_tracking_multiplex,
  stop_time_based_tracking_multiplex,
}

-- The interval is at least the smallest one.
abbrev pub clamp : TrackingOptions → TrackingOptions
clamp o = record o {
  min_interval =
      if ltb o.min_interval min_tracking_interval then min_tracking_interval else o.min_interval;
}

-- `GNSS_POWER_MODE_M4` with measurements farther apart than `TRACKING_TBM_THRESHOLD_MILLIS` is
-- `GNSS_POWER_MODE_M2`.
abbrev pub fall_back : TrackingOptions → TrackingOptions
fall_back o = record o {
  power_mode = if (o.power_mode == 4) && ltb 480000 o.tbm then 2 else o.power_mode;
}

-- The client is told of a success at once if so is said.
unfoldable pub report_with_no_wait : (client id : ℕ) → Bool → GnssAdapter → Step
unfolding report_to
report_with_no_wait client id no_wait a =
    if no_wait then report_to client LocationError.success id a else (a, [])

-- Starts a time based session: multiplexes it, saves it and reports.
unfoldable pub start_time_based : Bool → (client id : ℕ) → TrackingOptions → GnssAdapter → Step
unfolding start_time_based_tracking_multiplex save_tracking_session report_with_no_wait
start_time_based is_supported client id options a =
    let (no_wait, step) = start_time_based_tracking_multiplex client id options a in
    ((step then_do save_tracking_session is_supported client id options)
      then_do report_with_no_wait client id no_wait)

-- A command that starts.
unfoldable pub proc_start : Bool → (client id : ℕ) → TrackingOptions → GnssAdapter → Step
unfolding has_callbacks_to_start_tracking save_tracking_session start_time_based
proc_start is_supported client id options a =
    let o = clamp options in
    if not a.is_engine_capabilities_known && ltb 0 options.min_distance
    then (
      record a { pending_msgs = a.pending_msgs ++ start_tracking_message client id options ∷ [] },
      [],
    )
    else if not (has_callbacks_to_start_tracking client a) || options.size == 0
    then (a, [])
    else if ltb 0 o.min_distance && is_supported
    then (save_tracking_session is_supported client id o a then_do (λ b. (
      b,
      start_distance_based_tracking id (to_location_options o) (distance_started client id) ∷ [],
    )))
    else start_time_based is_supported client id (fall_back o) a

-- Stops a time based session: multiplexes the others, erases it and reports.
unfoldable pub stop_time_based : (client id : ℕ) → GnssAdapter → Step
unfolding stop_time_based_tracking_multiplex erase_tracking_session report_with_no_wait
stop_time_based client id a =
    let (no_wait, step) = stop_time_based_tracking_multiplex client id a in
    ((step then_do erase_tracking_session client id) then_do report_with_no_wait client id no_wait)

-- Updates a time based session that stays one.
unfoldable pub update_time_based :
    Bool → (client id : ℕ) → TrackingOptions → GnssAdapter → Option Step
unfolding update_tracking_multiplex save_tracking_session report_with_no_wait
update_time_based is_supported client id options a =
    elim (update_tracking_multiplex client id options a) [
      | none ↦ none
      | some (no_wait, step) ↦ some (
          (step then_do save_tracking_session is_supported client id options)
          then_do report_with_no_wait client id no_wait)
    ]

-- A command that updates.
unfoldable pub proc_update : Bool → (client id : ℕ) → TrackingOptions → GnssAdapter → Option Step
unfolding is_time_based_tracking_session is_distance_based_tracking_session report_to
    stop_time_based save_tracking_session erase_tracking_session update_time_based
proc_update is_supported client id options a =
    let o = clamp (fall_back options) in
    let is_time_based = is_time_based_tracking_session client id a in
    let is_distance_based = is_distance_based_tracking_session client id a in
    if not a.is_engine_capabilities_known && ltb 0 options.min_distance
    then some (
      record a { pending_msgs = a.pending_msgs ++ update_tracking_message client id options ∷ [] },
      [],
    )
    else if not is_time_based && not is_distance_based
    then some (report_to client LocationError.id_unknown id a)
    else if options.size == 0
    then some (report_to client LocationError.invalid_parameter id a)
    else if is_time_based && ltb 0 o.min_distance
    then some (
        (stop_time_based client id a then_do save_tracking_session is_supported client id o)
        then_do (λ b.
            (b, start_distance_based_tracking id (to_location_options o) no_handler ∷ [])))
    else if is_distance_based && o.min_distance == 0
    then some (
        erase_tracking_session client id a
        then_do (λ b. (b, stop_distance_based_tracking id (distance_to_time client id o) ∷ [])))
    else if is_time_based
    then update_time_based is_supported client id o a
    else some (a, stop_distance_based_tracking id (distance_to_restart client id o) ∷ [])

-- A command that stops.
unfoldable pub proc_stop : (client id : ℕ) → GnssAdapter → Step
unfolding is_time_based_tracking_session is_distance_based_tracking_session report_to
    stop_time_based
proc_stop client id a =
    if is_time_based_tracking_session client id a
    then stop_time_based client id a
    else if is_distance_based_tracking_session client id a
    then (a, stop_distance_based_tracking id (distance_stopped client id) ∷ [])
    else report_to client LocationError.id_unknown id a

-- The handlers of the LocApi's answers.
unfoldable pub answer : Bool → EngineLockState → LocationError → Handler → GnssAdapter → Step
unfolding report_to save_tracking_session erase_tracking_session start_time_based
answer is_supported lock err no_handler a = (a, [])
answer is_supported lock err (time_started client id) a =
    ((if is_enabled lock && not (is_success err)
        then erase_tracking_session client id a
        else (a, check_update_dgnss_ntrip ∷ []))
      then_do report_to client err id)
answer is_supported lock err (time_stopped client id) a = report_to client err id a
answer is_supported lock err (time_updated client id old) a =
    ((if is_enabled lock && not (is_success err)
        then save_tracking_session is_supported client id old a
        else (a, []))
      then_do report_to client err id)
answer is_supported lock err (distance_started client id) a =
    ((if is_enabled lock && not (is_success err)
        then erase_tracking_session client id a
        else (a, []))
      then_do report_to client err id)
answer is_supported lock err (distance_stopped client id) a =
    ((if is_disabled lock || is_success err then erase_tracking_session client id a else (a, []))
      then_do report_to client err id)
answer is_supported lock err (client_distance_stopped client id) a =
    if is_success err then erase_tracking_session client id a else (a, [])
answer is_supported lock err (distance_to_time client id options) a =
    start_time_based is_supported client id options a
answer is_supported lock err (distance_to_restart client id options) a =
    if is_success err
    then (
      a,
      start_distance_based_tracking id (to_location_options options)
            (distance_restarted client id options)
          ∷ [],
    )
    else (a, [])
answer is_supported lock err (distance_restarted client id options) a =
    ((if is_disabled lock || is_success err
        then save_tracking_session is_supported client id options a
        else (a, []))
      then_do report_to client err id)

-- The loops of `stopClientSessions`: over the keys of the client's time based sessions, and over the
-- sessions by distance.
unfoldable pub stop_time_based_loop : List (SessionKey × TrackingOptions) → GnssAdapter → Step
unfolding stop_time_based_tracking_multiplex erase_tracking_session
stop_time_based_loop [] a = (a, [])
stop_time_based_loop ((key, options) ∷ rest) a =
    (((stop_time_based_tracking_multiplex key.client key.id a).1
        then_do erase_tracking_session key.client key.id)
      then_do stop_time_based_loop rest)

unfoldable pub stop_distance_loop : ℕ → List (SessionKey × LocationOptions) → List Output
stop_distance_loop client [] = []
stop_distance_loop client ((key, options) ∷ rest) =
    let later = stop_distance_loop client rest in
    if client == key.client
    then stop_distance_based_tracking key.id (client_distance_stopped client key.id) ∷ later
    else later

unfoldable pub stop_client_sessions : ℕ → GnssAdapter → Step
unfolding stop_time_based_loop stop_distance_loop
stop_client_sessions client a =
    (stop_time_based_loop (filter (λ e. client == e.0.client) a.time_based_tracking_sessions) a
      then_do (λ b. (b, stop_distance_loop client b.distance_based_tracking_sessions)))

-- The loop of `checkAndRestartTimeBasedSession` that finds the options with the smallest valid power mode.
unfoldable pub highest_power_loop : TrackingOptions → Sessions → TrackingOptions
highest_power_loop best [] = best
highest_power_loop best ((key, o) ∷ rest) =
    highest_power_loop
      (if best.size == 0 || (not (o.power_mode == 0) && ltb o.power_mode best.power_mode)
        then o
        else best)
      rest

-- `sizeof(TrackingOptions)`.
abbrev pub tracking_options_size : ℕ
tracking_options_size = 28

unfoldable pub check_and_restart_time_based_session : GnssAdapter → Step
unfolding interval_loop highest_power_loop check_and_set_spe_to_run_for_nhz
check_and_restart_time_based_session a =
    let smallest = interval_loop none_skipped unset_options a.time_based_tracking_sessions in
    let highest = highest_power_loop unset_options a.time_based_tracking_sessions in
    let (running, out, b) =
      check_and_set_spe_to_run_for_nhz
        (record smallest {
          size = tracking_options_size;
          power_mode = highest.power_mode;
          tbm = highest.tbm;
        })
        a in
    if is_empty a.time_based_tracking_sessions
    then (a, [])
    else (b, if running then [] else start_time_based_tracking out no_handler ∷ [])

unfoldable pub restart_distance_loop : List (SessionKey × LocationOptions) → List Output
restart_distance_loop [] = []
restart_distance_loop ((key, options) ∷ rest) =
    start_distance_based_tracking key.id options no_handler ∷ restart_distance_loop rest

unfoldable pub check_and_restart_spe_session : GnssAdapter → Step
unfolding check_and_restart_time_based_session restart_distance_loop
check_and_restart_spe_session a =
    (check_and_restart_time_based_session
        (record a { spe_already_running_at_highest_interval = false })
      then_do (λ b. (b, restart_distance_loop b.distance_based_tracking_sessions)))

-- `restartSessions`, but for the on demand requests.
unfoldable pub restart_sessions : GnssAdapter → Step
unfolding check_and_restart_spe_session
restart_sessions a =
    (((
      a,
      if is_empty a.time_based_tracking_sessions
          then []
          else hub_start_fix a.loc_position_mode ∷ check_update_dgnss_ntrip ∷ [],
    ))
      then_do check_and_restart_spe_session)

unfoldable pub suspend_sessions : GnssAdapter → Step
suspend_sessions a = if is_empty a.time_based_tracking_sessions then (a, []) else (
  record a { spe_already_running_at_highest_interval = false },
  hub_stop_fix ∷ stop_fix no_handler ∷ stop_dgnss_ntrip ∷ [],
)

-- What the engine hub says of the need for a high rate.
unfoldable pub update_nhz_requirement : Bool → GnssAdapter → Step
unfolding check_and_restart_spe_session
update_nhz_requirement nhz_needed a =
    let is_same = (nhz_needed && a.nhz_needed) || (not nhz_needed && not a.nhz_needed) in
    if is_same
    then (a, [])
    else check_and_restart_spe_session (record a { nhz_needed = nhz_needed })
