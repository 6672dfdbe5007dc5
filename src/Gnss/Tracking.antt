-- ===== src/Gnss/Tracking.antt =====
-- The commands on tracking keep the engine serving all sessions (gps/gnss/GnssAdapter.cpp).
use android_device_xiaomi_ms.Base.{
  ℕ, ◌≤◌, ◌≡◌, inl, inr, refl, Bool, true, not, ◌&&◌, ◌||◌, Option, some, List, [], ◌∷◌, ◌++◌,
  arith, ltb, ◌==◌, Bool-cases, if_cases, erase,
}
use android_device_xiaomi_ms.Core.{LocationError, session_key}
use android_device_xiaomi_ms.Gnss.Types.{
  TrackingOptions, GnssAdapter, Message, Output, start_tracking_message, update_tracking_message,
}
use android_device_xiaomi_ms.Gnss.Sessions.{
  Step, ◌then_do◌, key_of, save_tracking_session, erase_tracking_session,
  is_time_based_tracking_session, is_distance_based_tracking_session,
  has_callbacks_to_start_tracking,
}
use android_device_xiaomi_ms.Gnss.Multiplex.{min_tracking_interval}
use android_device_xiaomi_ms.Gnss.Commands.{
  clamp, fall_back, proc_start, stop_time_based, proc_update, proc_stop,
}
use android_device_xiaomi_ms.Gnss.Order.{All-map, All-erase, erase-IsSorted}
use android_device_xiaomi_ms.Gnss.Served.{
  engine_after, IsFast, IsProper, erase-Leaves, erase_far-Leaves,
}
use android_device_xiaomi_ms.Gnss.Bounds.{IsServing}
use android_device_xiaomi_ms.Gnss.Serving.{
  KeepsServing, asking, chaining, leaving, staying, reporting, far_save,
  start_time_based-KeepsServing, stop_time_based-KeepsServing, update_time_based-KeepsServing,
}

clamp_le : (o : TrackingOptions) → min_tracking_interval ≤ (clamp o).min_interval
clamp_le o = ground arith

module _ (client id : ℕ) (options : TrackingOptions) (a : GnssAdapter)
    (engine : Option TrackingOptions) (serving : IsServing engine a) where
  waiting :
      (message : Message)
      → IsServing engine (record a { pending_msgs = a.pending_msgs ++ message ∷ [] })
  waiting message = record {
    sorted = serving.sorted;
    proper = serving.proper;
    served = serving.served;
    highest = serving.highest;
  }

  proc_start-KeepsServing :
      (is_supported : Bool) → KeepsServing engine (proc_start is_supported client id options a)
  unfolding proc_start
  proc_start-KeepsServing is_supported =
      let o = clamp options in
      if_cases (KeepsServing engine)
        (not a.is_engine_capabilities_known && ltb 0 options.min_distance)
        (λ unknown. waiting (start_tracking_message client id options))
        (λ known.
          if_cases (KeepsServing engine)
            (not (has_callbacks_to_start_tracking client a) || options.size == 0)
            (λ refused. serving)
            (λ granted.
              if_cases (KeepsServing engine) (ltb 0 o.min_distance && is_supported)
                (λ far.
                  asking engine (save_tracking_session is_supported client id o a) _ (λ e. refl)
                    (staying engine a serving _ (far_save is_supported client id o a far)))
                (λ near.
                  start_time_based-KeepsServing client id a engine serving is_supported
                    (fall_back o) near (clamp_le options) (λ e. ground arith))))

  proc_stop-KeepsServing : KeepsServing engine (proc_stop client id a)
  unfolding proc_stop
  proc_stop-KeepsServing =
      if_cases (KeepsServing engine) (is_time_based_tracking_session client id a)
        (λ there. stop_time_based-KeepsServing client id a engine serving there)
        (λ other.
          if_cases (KeepsServing engine) (is_distance_based_tracking_session client id a)
            (λ far. serving)
            (λ unknown. reporting engine a serving client LocationError.id_unknown id))

  -- What is left where a session is erased that is a distance based one, or stands in both maps.
  erasing : KeepsServing engine (erase_tracking_session client id a)
  erasing = elim (Bool-cases (is_time_based_tracking_session client id a)) [
    | inl there ↦
        let s = a.time_based_tracking_sessions in
        let key = key_of client id in
        leaving engine a (erase key s) (erase_tracking_session client id a)
          (erase-IsSorted key s serving.sorted)
          (All-erase IsProper key s (All-map s (λ e p other. p) serving.proper))
          (All-erase (λ e. IsFast e.1.min_interval engine) key s
            (All-map s (λ e p other. p) serving.served))
          serving.highest (erase-Leaves client id a there)
    | inr far ↦
        staying engine a serving (erase_tracking_session client id a)
          (erase_far-Leaves client id a far)
  ]

  -- The update is handled, and keeps the engine serving.
  abbrev Updates : Option Step → Type 0
  Updates handled = (step : Step) × (handled ≡ some step) × KeepsServing engine step

  proc_update-KeepsServing : Updates (proc_update true client id options a)
  unfolding proc_update
  proc_update-KeepsServing =
      let o = clamp (fall_back options) in
      let time = is_time_based_tracking_session client id a in
      let far = is_distance_based_tracking_session client id a in
      if_cases Updates (not a.is_engine_capabilities_known && ltb 0 options.min_distance)
        (λ unknown. (_, refl, waiting (update_tracking_message client id options)))
        (λ known.
          if_cases Updates (not time && not far)
            (λ no_id. (_, refl, reporting engine a serving client LocationError.id_unknown id))
            (λ some_id.
              if_cases Updates (options.size == 0)
                (λ no_size.
                  (_, refl, reporting engine a serving client LocationError.invalid_parameter id))
                (λ set.
                  if_cases Updates (time && ltb 0 o.min_distance)
                    (λ to_distance.
                      let stopped = stop_time_based client id a in
                      let there : time ≡ true = ground arith in
                      let far_away : (ltb 0 o.min_distance && true) ≡ true = ground arith in
                      let kept =
                        chaining engine stopped (save_tracking_session true client id o)
                          (stop_time_based-KeepsServing client id a engine serving there)
                          (λ e k.
                            staying e stopped.0 k _
                              (far_save true client id o stopped.0 far_away)) in
                      (
                        _,
                        refl,
                        asking engine (stopped then_do save_tracking_session true client id o) _
                            (λ e. refl) kept,
                      ))
                    (λ no_switch.
                      if_cases Updates (far && o.min_distance == 0)
                        (λ to_time. (
                          _,
                          refl,
                          asking engine (erase_tracking_session client id a) _ (λ e. refl) erasing,
                        ))
                        (λ same_kind.
                          if_cases Updates time
                            (λ there.
                              update_time_based-KeepsServing client id a engine serving true o there
                                (ground arith) (clamp_le (fall_back options)) (λ e. ground arith))
                            (λ other. (_, refl, serving)))))))

-- If, for the engine as it has last been asked to run, every time based session is proper (its options are
-- set and its interval is at least the smallest one) and needs no shorter interval than the engine's, the
-- keys are in order, and the engine runs at the highest rate where that is needed and flagged, then all of
-- this holds again after any command to start or to stop a session, and, where the engine supports tracking
-- by distance, after any command to update one, which is handled without reading the end of a map.
pub commands-IsServing :
    (is_supported : Bool) (client id : ℕ) (options : TrackingOptions) (a : GnssAdapter)
    (engine : Option TrackingOptions)
    → IsServing engine a
    → (let (b, sent) = proc_start is_supported client id options a in
        IsServing (engine_after engine sent) b)
      × (let (b, sent) = proc_stop client id a in IsServing (engine_after engine sent) b)
      × (b : GnssAdapter) × (sent : List Output) × (proc_update true client id options a
          ≡ some (b, sent))
      × IsServing (engine_after engine sent) b
commands-IsServing is_supported client id options a engine serving =
    let (step, handled, kept) = proc_update-KeepsServing client id options a engine serving in
    (
      proc_start-KeepsServing client id options a engine serving is_supported,
      proc_stop-KeepsServing client id options a engine serving,
      step.0,
      step.1,
      handled,
      kept,
    )
