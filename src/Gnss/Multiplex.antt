-- ===== src/Gnss/Multiplex.antt =====
-- The one session of the engine that serves all the time based sessions (gps/gnss/GnssAdapter.cpp).
use android_device_xiaomi_ms.Base.{
  ℕ, Bool, true, false, not, ◌&&◌, ◌||◌, Option, none, some, List, [], ◌∷◌, ltb, ◌==◌, length, find,
  nat_key, is_empty, if◌then◌else◌,
}
use android_device_xiaomi_ms.Core.{LocationError, SessionKey, session_key, session_key_eq}
use android_device_xiaomi_ms.Gnss.Types.{
  GnssSuplMode, TrackingOptions, GnssAdapter, Handler, time_started, time_stopped, time_updated,
  start_time_based_tracking, stop_fix, hub_start_fix, hub_stop_fix, reset_nmea_time,
  stop_dgnss_ntrip,
}
use android_device_xiaomi_ms.Gnss.Sessions.{Step, ◌then_do◌, key_of, convert_options, report_to}

abbrev pub Sessions : Type 0
Sessions = List (SessionKey × TrackingOptions)

-- `MIN_TRACKING_INTERVAL`.
abbrev pub min_tracking_interval : ℕ
min_tracking_interval = 100

-- `checkAndSetSPEToRunforNHz`: whether the engine runs at its highest rate already, the options as they
-- are changed, and the adapter.
unfoldable pub check_and_set_spe_to_run_for_nhz :
    TrackingOptions → GnssAdapter → Bool × TrackingOptions × GnssAdapter
check_and_set_spe_to_run_for_nhz out a =
    if not a.nhz_needed
    then (false, out, a)
    else if a.spe_already_running_at_highest_interval
    then (true, out, a)
    else if ltb min_tracking_interval out.min_interval
    then (
      false,
      record out { min_interval = min_tracking_interval },
      record a { spe_already_running_at_highest_interval = true },
    )
    else (false, out, a)

-- The common part of `startTimeBasedTracking` and `updateTracking`.
unfoldable pub start_engine : Handler → (client id : ℕ) → TrackingOptions → GnssAdapter → Step
unfolding convert_options check_and_set_spe_to_run_for_nhz report_to
start_engine handler client id options a =
    let (running, out, b) =
      check_and_set_spe_to_run_for_nhz options
        (record a { loc_position_mode = convert_options options }) in
    ((b, hub_start_fix (convert_options options) ∷ []) then_do (λ c.
      if running
      then report_to client LocationError.success id c
      else (c, start_time_based_tracking out handler ∷ [])))

unfoldable pub start_tracking_of : (client id : ℕ) → TrackingOptions → GnssAdapter → Step
unfolding start_engine
start_tracking_of client id options a = start_engine (time_started client id) client id options a

unfoldable pub update_tracking :
    (client id : ℕ) → TrackingOptions → (old : TrackingOptions) → GnssAdapter → Step
unfolding start_engine
update_tracking client id options old a =
    start_engine (time_updated client id old) client id options a

unfoldable pub stop_tracking_of : (client id : ℕ) → GnssAdapter → Step
stop_tracking_of client id a = (
  record a { spe_already_running_at_highest_interval = false },
  hub_stop_fix ∷ stop_fix (time_stopped client id) ∷ stop_dgnss_ntrip ∷ [],
)

-- Options all of whose bytes are 0: a size of 0 says that nothing is set.
abbrev pub unset_options : TrackingOptions
unset_options = record {
  size = 0;
  min_interval = 0;
  min_distance = 0;
  mode = GnssSuplMode.standalone;
  loc_req_eng_type_mask = 0;
  power_mode = 0;
  tbm = 0;
}

-- The loops that find the options with the smallest interval, and the smallest power mode, of the sessions
-- that are not skipped.
unfoldable pub interval_loop : (SessionKey → Bool) → TrackingOptions → Sessions → TrackingOptions
interval_loop skips best [] = best
interval_loop skips best ((key, o) ∷ rest) =
    interval_loop skips
      (if not (skips key) && (best.size == 0 || ltb o.min_interval best.min_interval)
        then o
        else best)
      rest

unfoldable pub power_loop : (SessionKey → Bool) → ℕ → Sessions → ℕ
power_loop skips best [] = best
power_loop skips best ((key, o) ∷ rest) =
    power_loop skips
      (if not (skips key) && (best == 0 || ltb o.power_mode best) then o.power_mode else best) rest

abbrev pub none_skipped : SessionKey → Bool
none_skipped key = false

-- The result says first whether the client is answered at once.
unfoldable pub start_time_based_tracking_multiplex :
    (client id : ℕ) → TrackingOptions → GnssAdapter → Bool × Step
unfolding start_tracking_of interval_loop power_loop
start_time_based_tracking_multiplex client id options a =
    let best = interval_loop none_skipped unset_options a.time_based_tracking_sessions in
    let power = power_loop none_skipped 0 a.time_based_tracking_sessions in
    let faster = ltb options.min_interval best.min_interval in
    let stronger = ltb options.power_mode power in
    let multiplexed = record best {
      min_interval = if faster then options.min_interval else best.min_interval;
      power_mode = if stronger then options.power_mode else best.power_mode;
    } in
    if is_empty a.time_based_tracking_sessions
    then (false, ((a, reset_nmea_time ∷ []) then_do start_tracking_of client id options))
    else if faster || stronger
    then (false, start_tracking_of client id multiplexed a)
    else (true, (a, []))

-- Where the session is not found the code reads the end of the map; the caller has looked it up.
unfoldable pub update_tracking_multiplex :
    (client id : ℕ) → TrackingOptions → GnssAdapter → Option (Bool × Step)
unfolding find update_tracking interval_loop power_loop session_key_eq
update_tracking_multiplex client id options a =
    let key = key_of client id in
    let best =
      interval_loop (λ k. session_key_eq k key) unset_options a.time_based_tracking_sessions in
    let power = power_loop (λ k. session_key_eq k key) 0 a.time_based_tracking_sessions in
    let faster = ltb options.min_interval best.min_interval in
    let stronger = ltb options.power_mode power in
    let is_only = length a.time_based_tracking_sessions == 1 in
    let multiplexed = record best {
      min_interval = if faster then options.min_interval else best.min_interval;
      power_mode = if stronger then options.power_mode else best.power_mode;
    } in
    elim (find key a.time_based_tracking_sessions) [
      | none ↦ none
      | some old ↦
          if (old.min_interval == options.min_interval) && (old.power_mode == options.power_mode)
          then some (true, (a, []))
          else if is_only
          then some (false, update_tracking client id options old a)
          else if faster || stronger
          then some (false, update_tracking client id multiplexed old a)
          else some (true, (a, []))
    ]

unfoldable pub stop_time_based_tracking_multiplex : (client id : ℕ) → GnssAdapter → Bool × Step
unfolding find start_tracking_of stop_tracking_of interval_loop power_loop session_key_eq
stop_time_based_tracking_multiplex client id a =
    let key = key_of client id in
    let best =
      interval_loop (λ k. session_key_eq k key) unset_options a.time_based_tracking_sessions in
    let power = power_loop (λ k. session_key_eq k key) 0 a.time_based_tracking_sessions in
    if length a.time_based_tracking_sessions == 1
    then (false, stop_tracking_of client id a)
    else elim (find key a.time_based_tracking_sessions) [
      | none ↦ (true, (a, []))
      | some old ↦
          if ltb old.min_interval best.min_interval || ltb old.power_mode power
          then (false, start_tracking_of client id (record best { power_mode = power }) a)
          else (true, (a, []))
    ]
