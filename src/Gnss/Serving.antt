-- ===== src/Gnss/Serving.antt =====
-- The engine serves every time based session, whatever the clients do (gps/gnss/GnssAdapter.cpp).
use android_device_xiaomi_ms.Base.{
  ℕ, ◌≤◌, ◌≡◌, ◌≢◌, inl, inr, refl, ◌∙◌, ap, Bool, true, false, ◌&&◌, Option, some, List, All,
  arith, ltb, Option-cases, find, insert, erase,
}
use android_device_xiaomi_ms.Core.{LocationError, session_key}
use android_device_xiaomi_ms.Gnss.Types.{TrackingOptions, GnssAdapter, Output}
use android_device_xiaomi_ms.Gnss.Sessions.{
  Step, ◌then_do◌, key_of, report_to, save_tracking_session, erase_tracking_session,
  is_time_based_tracking_session,
}
use android_device_xiaomi_ms.Gnss.Multiplex.{
  Sessions, min_tracking_interval, start_time_based_tracking_multiplex,
  stop_time_based_tracking_multiplex,
}
use android_device_xiaomi_ms.Gnss.Commands.{
  report_with_no_wait, start_time_based, stop_time_based, update_time_based,
}
use android_device_xiaomi_ms.Gnss.Order.{
  IsSorted, All-map, All-insert, All-erase, insert-IsSorted, erase-IsSorted,
}
use android_device_xiaomi_ms.Gnss.Served.{
  engine_after, engine_after-append, AllFast, IsProper, IsHighest, report_to_lem, Leaves,
  then_do-Serves, save-Leaves, erase-Leaves, report_with_no_wait-Leaves,
}
use android_device_xiaomi_ms.Gnss.Bounds.{
  IsServing, Multiplexes, start_multiplex-Multiplexes, stop_multiplex-Multiplexes,
  update_multiplex-Multiplexes,
}

-- The step keeps the engine serving.
abbrev pub KeepsServing : Option TrackingOptions → Step → Type 0
KeepsServing engine (b, sent) = IsServing (engine_after engine sent) b

-- A step that leaves some of the sessions.
pub leaving :
    (engine : Option TrackingOptions) (a : GnssAdapter) (s : Sessions) (step : Step)
    → IsSorted s
    → All IsProper s
    → AllFast engine s
    → IsHighest engine a
    → Leaves a s step
    → KeepsServing engine step
leaving engine a s step sorted proper fast highest leaves =
    let same = leaves.quiet engine in
    let left = leaves.sessions in
    record {
      sorted = rw left sorted;
      proper = rw left proper;
      served = rw (left, same) fast;
      highest = rw (same, leaves.same_need, leaves.same_flag) highest;
    }

-- A step that leaves all sessions.
module _ (engine : Option TrackingOptions) (a : GnssAdapter) (serving : IsServing engine a) where
  pub staying :
      (step : Step) → Leaves a a.time_based_tracking_sessions step → KeepsServing engine step
  staying step leaves =
      leaving engine a a.time_based_tracking_sessions step serving.sorted serving.proper
        serving.served serving.highest leaves

  pub reporting :
      (client : ℕ) (err : LocationError) (id : ℕ) → KeepsServing engine (report_to client err id a)
  reporting client err id =
      let (same, quiet) = report_to_lem engine client err id a in rw (quiet, same) serving

-- A step that multiplexes, one that leaves the sessions it serves, and a report.
multiplexed :
    (engine : Option TrackingOptions) (a : GnssAdapter) (s : Sessions) (step : Step)
    (f g : GnssAdapter → Step)
    → Multiplexes engine a s step
    → IsSorted s
    → All IsProper s
    → Leaves step.0 s (f step.0)
    → ((b : GnssAdapter) → Leaves b b.time_based_tracking_sessions (g b))
    → KeepsServing engine ((step then_do f) then_do g)
multiplexed engine a s step f g m sorted proper saves reports =
    let serves1 = then_do-Serves engine s s step f m.serves saves in
    let b = (f step.0).0 in
    let serves2 =
      then_do-Serves engine s b.time_based_tracking_sessions (step then_do f) g serves1
        (reports b) in
    let left = (reports b).sessions ∙ saves.sessions in
    record {
      sorted = rw left sorted;
      proper = rw left proper;
      served = rw left serves2.served;
      highest = serves2.highest;
    }

-- A step after another.
pub chaining :
    (engine : Option TrackingOptions) (step : Step) (f : GnssAdapter → Step)
    → KeepsServing engine step
    → ((e : Option TrackingOptions) → IsServing e step.0 → KeepsServing e (f step.0))
    → KeepsServing engine (step then_do f)
chaining engine (b, sent) f keeps go_on =
    rw (engine_after-append engine sent (f b).1) (go_on (engine_after engine sent) keeps)

-- A request that does not start or stop the engine.
pub asking :
    (engine : Option TrackingOptions) (step : Step) (sent : List Output)
    → ((e : Option TrackingOptions) → engine_after e sent ≡ e)
    → KeepsServing engine step
    → KeepsServing engine (step then_do (λ b. (b, sent)))
asking engine (b, first) sent quiet keeps =
    rw (engine_after-append engine first sent ∙ quiet (engine_after engine first)) keeps

pub resting :
    {a : GnssAdapter} {s t : Sessions} {step : Step} → Leaves a s step → s ≡ t → Leaves a t step
resting leaves e = record {
  sessions = leaves.sessions ∙ e;
  same_need = leaves.same_need;
  same_flag = leaves.same_flag;
  quiet = leaves.quiet;
}

near_save :
    (is_supported : Bool) (client id : ℕ) (options : TrackingOptions) (a b : GnssAdapter)
    → (ltb 0 options.min_distance && is_supported) ≡ false
    → b.time_based_tracking_sessions ≡ a.time_based_tracking_sessions
    → Leaves b
        (insert (key_of client id) options a.time_based_tracking_sessions)
        (save_tracking_session is_supported client id options b)
near_save is_supported client id options a b near same =
    resting (save-Leaves is_supported client id options b) (rw (near, same) refl)

pub far_save :
    (is_supported : Bool) (client id : ℕ) (options : TrackingOptions) (b : GnssAdapter)
    → (ltb 0 options.min_distance && is_supported) ≡ true
    → Leaves b b.time_based_tracking_sessions
        (save_tracking_session is_supported client id options b)
far_save is_supported client id options b far =
    resting (save-Leaves is_supported client id options b) (rw far refl)

module _ (client id : ℕ) (a : GnssAdapter) (engine : Option TrackingOptions)
    (serving : IsServing engine a) where
  pub start_time_based-KeepsServing :
      (is_supported : Bool) (options : TrackingOptions)
      → (ltb 0 options.min_distance && is_supported) ≡ false
      → min_tracking_interval ≤ options.min_interval
      → options.size ≢ 0
      → KeepsServing engine (start_time_based is_supported client id options a)
  unfolding start_time_based
  start_time_based-KeepsServing is_supported options near long set =
      let s = a.time_based_tracking_sessions in
      let key = key_of client id in
      let (no_wait, step) = start_time_based_tracking_multiplex client id options a in
      let m = start_multiplex-Multiplexes client id options a engine serving long in
      multiplexed engine a (insert key options s) step
        (save_tracking_session is_supported client id options)
        (report_with_no_wait client id no_wait) m (insert-IsSorted key options s serving.sorted)
        (All-insert IsProper key options s (set, long) serving.proper)
        (near_save is_supported client id options a step.0 near m.same_sessions)
        (report_with_no_wait-Leaves client id no_wait)

  pub stop_time_based-KeepsServing :
      is_time_based_tracking_session client id a ≡ true
      → KeepsServing engine (stop_time_based client id a)
  unfolding stop_time_based is_time_based_tracking_session
  stop_time_based-KeepsServing there =
      let s = a.time_based_tracking_sessions in
      let key = key_of client id in
      let (no_wait, step) = stop_time_based_tracking_multiplex client id a in
      elim (Option-cases (find key s)) [
        | inl missing ↦ absurd (ground arith)
        | inr (old, found) ↦
            let m = stop_multiplex-Multiplexes client id a engine serving found in
            let still : is_time_based_tracking_session client id step.0 ≡ true =
              rw (is_time_based_tracking_session, m.same_sessions, found) refl in
            multiplexed engine a (erase key s) step (erase_tracking_session client id)
              (report_with_no_wait client id no_wait) m (erase-IsSorted key s serving.sorted)
              (All-erase IsProper key s (All-map s (λ e p other. p) serving.proper))
              (resting (erase-Leaves client id step.0 still) (ap (erase key) m.same_sessions))
              (report_with_no_wait-Leaves client id no_wait)
      ]

  pub update_time_based-KeepsServing :
      (is_supported : Bool) (options : TrackingOptions)
      → is_time_based_tracking_session client id a ≡ true
      → (ltb 0 options.min_distance && is_supported) ≡ false
      → min_tracking_interval ≤ options.min_interval
      → options.size ≢ 0
      → (step : Step) × (update_time_based is_supported client id options a ≡ some step)
        × KeepsServing engine step
  unfolding update_time_based is_time_based_tracking_session
  update_time_based-KeepsServing is_supported options there near long set =
      let s = a.time_based_tracking_sessions in
      let key = key_of client id in
      elim (Option-cases (find key s)) [
        | inl missing ↦ absurd (ground arith)
        | inr (old, found) ↦
            let (r, made, m) =
              update_multiplex-Multiplexes client id options a engine serving found long in
            (
              ((r.1 then_do save_tracking_session is_supported client id options)
                  then_do report_with_no_wait client id r.0),
              rw (update_time_based, made) refl,
              multiplexed engine a (insert key options s) r.1
                  (save_tracking_session is_supported client id options)
                  (report_with_no_wait client id r.0) m
                  (insert-IsSorted key options s serving.sorted)
                  (All-insert IsProper key options s (set, long) serving.proper)
                  (near_save is_supported client id options a r.1.0 near m.same_sessions)
                  (report_with_no_wait-Leaves client id r.0),
            )
      ]
