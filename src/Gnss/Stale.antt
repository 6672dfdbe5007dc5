-- ===== src/Gnss/Stale.antt =====
-- The flag of the highest rate after a start that fails (gps/gnss/GnssAdapter.cpp).
use android_device_xiaomi_ms.Base.{
  ℕ, ◌≡◌, refl, ◌∙◌, ap, Bool, true, false, not, ◌&&◌, ◌||◌, Option, none, some, List, [], ◌∷◌,
  ◌++◌, arith, ltb, ◌==◌, ◌⊎◌, inl, inr, if_cases, find, insert, erase, is_empty,
}
use android_device_xiaomi_ms.Core.{
  LocationError, EngineLockState, is_success, session_key, session_key_eq, session_key_eq_iff,
}
use android_device_xiaomi_ms.Gnss.Types.{TrackingOptions, GnssAdapter, Output, time_started}
use android_device_xiaomi_ms.Gnss.Sessions.{
  Step, key_of, save_tracking_session, erase_tracking_session, is_time_based_tracking_session,
  has_callbacks_to_start_tracking, convert_options,
}
use android_device_xiaomi_ms.Gnss.Multiplex.{
  min_tracking_interval, check_and_set_spe_to_run_for_nhz, start_engine, start_tracking_of,
  start_time_based_tracking_multiplex,
}
use android_device_xiaomi_ms.Gnss.Commands.{
  clamp, fall_back, report_with_no_wait, start_time_based, proc_start, answer,
}
use android_device_xiaomi_ms.Gnss.Served.{
  engine_after, engine_after-append, report_to_lem, save-Leaves, erase-Leaves,
  report_with_no_wait-Leaves,
}

-- No time based session, and the flag as it is.
abbrev pub IsIdle : Bool → GnssAdapter → Type 0
IsIdle flag a =
    (a.time_based_tracking_sessions ≡ [])
    × (a.nhz_needed ≡ true)
    × (a.spe_already_running_at_highest_interval ≡ flag)

-- Whatever session by time the engine runs, it runs the same after these outputs.
abbrev pub IsUnasked : List Output → Type 0
IsUnasked sent = (engine : Option TrackingOptions) → engine_after engine sent ≡ engine

-- What the engine is asked for by a start while no session is there.
start_tracking_of-idle :
    (flag : Bool) (client id : ℕ) (options : TrackingOptions) (a : GnssAdapter)
    → IsIdle flag a
    → ltb min_tracking_interval options.min_interval ≡ true
    → let (b, sent) = start_tracking_of client id options a in
      (b.time_based_tracking_sessions ≡ [])
      × (b.nhz_needed ≡ true)
      × (b.spe_already_running_at_highest_interval ≡ true)
      × (IsUnasked sent ⊎ (flag ≡ false))
unfolding start_tracking_of start_engine check_and_set_spe_to_run_for_nhz
start_tracking_of-idle true client id options a (no_session, needed, flag) slow =
    let b = record a {
      nhz_needed = true;
      spe_already_running_at_highest_interval = true;
      loc_position_mode = convert_options options;
    } in
    let same = (report_to_lem none client LocationError.success id b).0 in
    rw (needed, flag)
      (
        ap (λ c. c.time_based_tracking_sessions) same ∙ no_session,
        ap (λ c. c.nhz_needed) same,
        ap (λ c. c.spe_already_running_at_highest_interval) same,
        inl (λ engine. (report_to_lem engine client LocationError.success id b).1),
      )
start_tracking_of-idle false client id options a (no_session, needed, flag) slow =
    rw (needed, flag, slow) (no_session, refl, refl, inr refl)

start_time_based-idle :
    (is_supported flag : Bool) (client id : ℕ) (options : TrackingOptions) (a : GnssAdapter)
    → IsIdle flag a
    → (ltb 0 options.min_distance && is_supported) ≡ false
    → ltb min_tracking_interval options.min_interval ≡ true
    → let (b, sent) = start_time_based is_supported client id options a in
      (b.time_based_tracking_sessions ≡ (key_of client id, options) ∷ [])
      × (b.nhz_needed ≡ true)
      × (b.spe_already_running_at_highest_interval ≡ true)
      × (IsUnasked sent ⊎ (flag ≡ false))
unfolding start_time_based start_time_based_tracking_multiplex insert
start_time_based-idle is_supported flag client id options a idle near slow =
    let (b, sent) = start_tracking_of client id options a in
    let (none_left, needed, flagged, asked) =
      start_tracking_of-idle flag client id options a idle slow in
    let saved = save-Leaves is_supported client id options b in
    let c = (save_tracking_session is_supported client id options b).0 in
    let later = report_with_no_wait-Leaves client id false c in
    let first : is_empty a.time_based_tracking_sessions ≡ true = rw (idle.0) refl in
    let one : c.time_based_tracking_sessions ≡ (key_of client id, options) ∷ [] =
      saved.sessions ∙ rw (near, none_left) refl in
    let out2 = (save_tracking_session is_supported client id options b).1 in
    let out3 = (report_with_no_wait client id false c).1 in
    let quiet : (engine : Option TrackingOptions) → _ = λ engine.
      engine_after-append engine (sent ++ out2) out3
      ∙ (later.quiet (engine_after engine (sent ++ out2))
          ∙ (engine_after-append engine sent out2 ∙ saved.quiet (engine_after engine sent))) in
    rw (start_time_based, start_time_based_tracking_multiplex, first)
      (
        later.sessions ∙ one,
        later.same_need ∙ (saved.same_need ∙ needed),
        later.same_flag ∙ (saved.same_flag ∙ flagged),
        elim asked [
          | inl unasked ↦ inl (λ engine. quiet engine ∙ unasked engine)
          | inr fresh ↦ inr fresh
        ],
      )

-- The answer to a start that has failed.
failed_start-IsIdle :
    (is_supported : Bool) (err : LocationError) (client id : ℕ) (options : TrackingOptions)
    (a : GnssAdapter)
    → is_success err ≡ false
    → a.time_based_tracking_sessions ≡ (key_of client id, options) ∷ []
    → a.nhz_needed ≡ true
    → a.spe_already_running_at_highest_interval ≡ true
    → IsIdle true (answer is_supported EngineLockState.enabled err (time_started client id) a).0
unfolding answer find erase
failed_start-IsIdle is_supported err client id options a bad one needed flagged =
    let key = key_of client id in
    let itself : session_key_eq key key ≡ true = (session_key_eq_iff key key).1 refl in
    let found : find key a.time_based_tracking_sessions ≡ some options =
      rw (one, find, itself) refl in
    let there : is_time_based_tracking_session client id a ≡ true =
      rw (is_time_based_tracking_session, found) refl in
    let erased = erase-Leaves client id a there in
    let b = (erase_tracking_session client id a).0 in
    let same = (report_to_lem none client err id b).0 in
    let gone : erase key a.time_based_tracking_sessions ≡ [] = rw (one, erase, itself) refl in
    rw bad (
      ap (λ c. c.time_based_tracking_sessions) same ∙ (erased.sessions ∙ gone),
      ap (λ c. c.nhz_needed) same ∙ (erased.same_need ∙ needed),
      ap (λ c. c.spe_already_running_at_highest_interval) same ∙ (erased.same_flag ∙ flagged),
    )

-- The adapter after a start that the engine answers with an error while its lock is enabled.
abbrev pub after_failure :
    Bool → LocationError → (client id : ℕ) → TrackingOptions → GnssAdapter → GnssAdapter
after_failure is_supported err client id options a =
    (answer is_supported EngineLockState.enabled err (time_started client id)
      (proc_start is_supported client id options a).0).0

-- The options as they are saved.
abbrev pub adjusted : TrackingOptions → TrackingOptions
adjusted options = fall_back (clamp options)

-- A start that is refused for no reason of its own, is no session by distance and needs no highest rate.
pub record IsPlain (client : ℕ) (options : TrackingOptions) (a : GnssAdapter) : Type 0 where
  pub granted : has_callbacks_to_start_tracking client a ≡ true
  pub sized : (options.size == 0) ≡ false
  pub near : options.min_distance ≡ 0
  pub slow : ltb min_tracking_interval options.min_interval ≡ true

-- The session is saved, with the flag standing, and the engine asked unless it stood before.
abbrev Starts : Bool → (client id : ℕ) → TrackingOptions → Step → Type 0
Starts flag client id options (b, sent) =
    (b.time_based_tracking_sessions ≡ (key_of client id, adjusted options) ∷ [])
    × (b.nhz_needed ≡ true)
    × (b.spe_already_running_at_highest_interval ≡ true)
    × (IsUnasked sent ⊎ (flag ≡ false))

proc_start-idle :
    (is_supported flag : Bool) (client id : ℕ) (options : TrackingOptions) (a : GnssAdapter)
    → IsIdle flag a
    → IsPlain client options a
    → Starts flag client id options (proc_start is_supported client id options a)
unfolding proc_start
proc_start-idle is_supported flag client id options a idle plain =
    let near : ltb 0 options.min_distance ≡ false = rw (plain.near) refl in
    let no_distance : (ltb 0 options.min_distance && is_supported) ≡ false = rw near refl in
    let known : (not a.is_engine_capabilities_known && ltb 0 options.min_distance) ≡ false =
      ground arith in
    let accepted : (not (has_callbacks_to_start_tracking client a) || options.size == 0) ≡ false =
      rw (plain.granted, plain.sized) refl in
    let slow = plain.slow in
    let still_slow : ltb min_tracking_interval (adjusted options).min_interval ≡ true =
      ground arith in
    if_cases (Starts flag client id options)
      (not a.is_engine_capabilities_known && ltb 0 options.min_distance)
      (λ h. absurd (ground arith))
      (λ h.
        if_cases (Starts flag client id options)
          (not (has_callbacks_to_start_tracking client a) || options.size == 0)
          (λ g. absurd (ground arith))
          (λ g.
            if_cases (Starts flag client id options) (ltb 0 options.min_distance && is_supported)
              (λ k. absurd (ground arith))
              (λ k.
                start_time_based-idle is_supported flag client id (adjusted options) a idle
                  no_distance still_slow)))

-- Suppose that a high rate is needed, no time based session is there, and the flag of the highest rate does
-- not stand. If the engine answers the start of a plain session by time with any error, while its lock is
-- enabled, then no time based session is there and the flag stands; the next plain start is saved as the
-- only session by time, the flag still stands, and whatever session by time the engine runs, or none, it
-- runs the same after what is sent to it. A plain start has a client with a callback for it, options that
-- are set, no distance and an interval above the smallest one.
pub failed_start_stale :
    (is_supported : Bool) (err : LocationError) (client id second new_id : ℕ)
    (options later : TrackingOptions) (a : GnssAdapter)
    → is_success err ≡ false
    → IsIdle false a
    → IsPlain client options a
    → IsPlain second later (after_failure is_supported err client id options a)
    → let failed = after_failure is_supported err client id options a in
      let (b, sent) = proc_start is_supported second new_id later failed in
      (failed.time_based_tracking_sessions ≡ [])
      × (failed.spe_already_running_at_highest_interval ≡ true)
      × (b.time_based_tracking_sessions ≡ (key_of second new_id, adjusted later) ∷ [])
      × (b.spe_already_running_at_highest_interval ≡ true)
      × IsUnasked sent
failed_start_stale is_supported err client id second new_id options later a bad idle plain next =
    let (one, needed, flagged, asked) =
      proc_start-idle is_supported false client id options a idle plain in
    let started = (proc_start is_supported client id options a).0 in
    let failed =
      failed_start-IsIdle is_supported err client id (adjusted options) started bad one needed
        flagged in
    let (saved, still_needed, still_flagged, unasked) =
      proc_start-idle is_supported true second new_id later _ failed next in
    (
      failed.0,
      failed.2,
      saved,
      still_flagged,
      elim unasked [ inl quiet ↦ quiet | inr wrong ↦ absurd (ground arith) ],
    )
