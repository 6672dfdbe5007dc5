-- ===== src/Gnss/Served.antt =====
-- The engine as the adapter has last asked it to run, and the sessions that this serves
-- (gps/gnss/GnssAdapter.cpp).
use android_device_xiaomi_ms.Base.{
  ℕ, ◌≤◌, ◌≡◌, ◌≢◌, ◌⊎◌, inl, inr, refl, ◌∙◌, ap, Bool, true, false, not, ◌&&◌, ◌||◌, Option, none,
  some, List, [], ◌∷◌, ◌++◌, All, arith, ltb, ◌==◌, Bool-cases, if_both, if◌then◌else◌, insert,
  erase, nat_key,
}
use android_device_xiaomi_ms.Core.{LocationError, SessionKey, session_key}
use android_device_xiaomi_ms.Gnss.Types.{
  TrackingOptions, GnssAdapter, Handler, Output, start_time_based_tracking, stop_fix, hub_start_fix,
  response,
}
use android_device_xiaomi_ms.Gnss.Sessions.{
  Step, ◌then_do◌, key_of, to_location_options, convert_options, report_to,
  report_power_state_if_changed, save_tracking_session, erase_tracking_session,
  is_time_based_tracking_session,
}
use android_device_xiaomi_ms.Gnss.Commands.{report_with_no_wait}
use android_device_xiaomi_ms.Gnss.Multiplex.{
  Sessions, min_tracking_interval, check_and_set_spe_to_run_for_nhz, start_engine, interval_loop,
}
use android_device_xiaomi_ms.Gnss.Order.{All-map}

-- What the engine runs after these outputs, if it does what it is asked.
abbrev pub engine_after : Option TrackingOptions → List Output → Option TrackingOptions
engine_after engine [] = engine
engine_after engine (start_time_based_tracking o h ∷ rest) = engine_after (some o) rest
engine_after engine (stop_fix h ∷ rest) = engine_after none rest
engine_after engine (_ ∷ rest) = engine_after engine rest

-- The engine runs with an interval of at most `n`.
pub record IsFast (n : ℕ) (engine : Option TrackingOptions) : Type 0 where
  pub options : TrackingOptions
  pub runs : engine ≡ some options
  pub fast : options.min_interval ≤ n

-- Where the flag stands for a high rate that is needed, the engine runs at that rate.
abbrev pub IsHighest : Option TrackingOptions → GnssAdapter → Type 0
IsHighest engine a =
    ((a.nhz_needed && a.spe_already_running_at_highest_interval) ≡ false)
    ⊎ IsFast min_tracking_interval engine

abbrev pub AllFast : Option TrackingOptions → Sessions → Type 0
AllFast engine = All (λ e. IsFast e.1.min_interval engine)

abbrev pub IsProper : SessionKey × TrackingOptions → Type 0
IsProper e = (e.1.size ≢ 0) × (min_tracking_interval ≤ e.1.min_interval)

pub engine_after-append :
    (engine : Option TrackingOptions) (xs ys : List Output)
    → engine_after engine (xs ++ ys) ≡ engine_after (engine_after engine xs) ys
engine_after-append engine [] ys = refl
engine_after-append engine (start_time_based_tracking o h ∷ xs) ys =
    engine_after-append (some o) xs ys
engine_after-append engine (stop_fix h ∷ xs) ys = engine_after-append none xs ys
engine_after-append engine (Output.start_distance_based_tracking id o h ∷ xs) ys =
    engine_after-append engine xs ys
engine_after-append engine (Output.stop_distance_based_tracking id h ∷ xs) ys =
    engine_after-append engine xs ys
engine_after-append engine (hub_start_fix m ∷ xs) ys = engine_after-append engine xs ys
engine_after-append engine (Output.hub_stop_fix ∷ xs) ys = engine_after-append engine xs ys
engine_after-append engine (Output.reset_nmea_time ∷ xs) ys = engine_after-append engine xs ys
engine_after-append engine (Output.check_update_dgnss_ntrip ∷ xs) ys =
    engine_after-append engine xs ys
engine_after-append engine (Output.stop_dgnss_ntrip ∷ xs) ys = engine_after-append engine xs ys
engine_after-append engine (Output.power_state on ∷ xs) ys = engine_after-append engine xs ys
engine_after-append engine (response client err id ∷ xs) ys = engine_after-append engine xs ys

-- A report to a client changes nothing.
pub report_to_lem :
    (engine : Option TrackingOptions) (client : ℕ) (err : LocationError) (id : ℕ) (a : GnssAdapter)
    → ((report_to client err id a).0 ≡ a)
      × (engine_after engine (report_to client err id a).1 ≡ engine)
unfolding report_to
report_to_lem engine client err id a = (ground arith, ground arith)

-- What a start of the engine leaves, for sessions `s`.
pub record Starts (engine : Option TrackingOptions) (a : GnssAdapter) (s : Sessions)
    (b : GnssAdapter) (sent : List Output) : Type 0 where
  pub served : AllFast (engine_after engine sent) s
  pub highest : IsHighest (engine_after engine sent) b
  pub same_sessions : b.time_based_tracking_sessions ≡ a.time_based_tracking_sessions

pub slower : (engine : Option TrackingOptions) (n m : ℕ) → n ≤ m → IsFast n engine → IsFast m engine
slower engine n m le f =
    let fast = f.fast in record { options = f.options; runs = f.runs; fast = omega arith }

abbrev pub AtMost : TrackingOptions → SessionKey × TrackingOptions → Type 0
AtMost options e =
    (options.min_interval ≤ e.1.min_interval) × (min_tracking_interval ≤ e.1.min_interval)

pub start_engine-Starts :
    (on_answer : Handler) (client id : ℕ) (options : TrackingOptions) (a : GnssAdapter)
    (engine : Option TrackingOptions) (s : Sessions)
    → All (AtMost options) s
    → IsHighest engine a
    → let (b, sent) = start_engine on_answer client id options a in Starts engine a s b sent
unfolding start_engine check_and_set_spe_to_run_for_nhz
start_engine-Starts on_answer client id options a engine s bounds highest =
    elim (Bool-cases a.nhz_needed) [
      | inr unneeded ↦ rw unneeded (record {
        served = All-map s (λ e b. record { options = options; runs = refl; fast = b.0 }) bounds;
        highest = inl refl;
        same_sessions = refl;
      })
      | inl needed ↦ elim (Bool-cases a.spe_already_running_at_highest_interval) [
        | inl runs ↦
            let fast : IsFast min_tracking_interval engine = elim highest [
              | inl off ↦ absurd (ground arith)
              | inr quick ↦ quick
            ] in
            let b = record a {
              nhz_needed = true;
              spe_already_running_at_highest_interval = true;
              loc_position_mode = convert_options options;
            } in
            let (same, quiet) = report_to_lem engine client LocationError.success id b in
            rw (needed, runs)
              (record {
                served = rw quiet (
                    All-map s (λ e c. slower engine min_tracking_interval e.1.min_interval c.1 fast)
                      bounds);
                highest = inr (rw quiet fast);
                same_sessions = ap (λ c. c.time_based_tracking_sessions) same;
              })
        | inr starts ↦ elim (Bool-cases (ltb min_tracking_interval options.min_interval)) [
          | inl slow ↦
              let out = record options { min_interval = min_tracking_interval } in
              rw (needed, starts, slow)
                (record {
                  served =
                      All-map s (λ e b. record { options = out; runs = refl; fast = b.1 }) bounds;
                  highest = inr (record { options = out; runs = refl; fast = omega arith });
                  same_sessions = refl;
                })
          | inr quick ↦
              rw (needed, starts, quick)
                (record {
                  served =
                      All-map s (λ e b. record { options = options; runs = refl; fast = b.0 })
                        bounds;
                  highest = inl refl;
                  same_sessions = refl;
                })
        ]
      ]
    ]

-- One round of the loop.
abbrev next : Bool → TrackingOptions → TrackingOptions → TrackingOptions
next skipped best o =
    if not skipped && (best.size == 0 || ltb o.min_interval best.min_interval) then o else best

-- The interval of `r` is set, and at most that of `o`.
abbrev pub IsBelow : TrackingOptions → TrackingOptions → Type 0
IsBelow r o = (r.size ≢ 0) × (r.min_interval ≤ o.min_interval)

next-IsBelow :
    (skipped : Bool) (best o r : TrackingOptions)
    → o.size ≢ 0
    → ((next skipped best o).size ≡ 0) ⊎ IsBelow r (next skipped best o)
    → ((best.size ≡ 0) ⊎ IsBelow r best) × ((skipped ≡ true) ⊎ IsBelow r o)
next-IsBelow skipped best o r set h = ground arith

-- The loop finds an interval that is at most each that is not skipped.
pub interval_loop-IsBelow :
    (skips : SessionKey → Bool) (best : TrackingOptions) (s : Sessions)
    → All IsProper s
    → let r = interval_loop skips best s in
      ((best.size ≡ 0) ⊎ IsBelow r best) × All (λ e. (skips e.0 ≡ true) ⊎ IsBelow r e.1) s
unfolding interval_loop
interval_loop-IsBelow skips best [] h = (ground arith, tt)
interval_loop-IsBelow skips best ((key, o) ∷ rest) (p, h) =
    let (below, others) = interval_loop-IsBelow skips (next (skips key) best o) rest h in
    let (below_best, below_o) =
      next-IsBelow (skips key) best o (interval_loop skips (next (skips key) best o) rest) p.0
        below in
    (below_best, (below_o, others))

-- What holds of all intervals holds of the one that the loop finds.
pub interval_loop-All :
    (Q : ℕ → Type 0) (skips : SessionKey → Bool) (best : TrackingOptions) (s : Sessions)
    → All (λ e. Q e.1.min_interval) s
    → (best.size ≡ 0) ⊎ Q best.min_interval
    → let r = interval_loop skips best s in (r.size ≡ 0) ⊎ Q r.min_interval
unfolding interval_loop
interval_loop-All Q skips best [] h p = p
interval_loop-All Q skips best ((key, o) ∷ rest) (q, h) p =
    interval_loop-All Q skips (next (skips key) best o) rest h (
      if_both (λ (r : TrackingOptions). (r.size ≡ 0) ⊎ Q r.min_interval)
        (not (skips key) && (best.size == 0 || ltb o.min_interval best.min_interval)) {yes = o}
        {no = best} (inr q) p)

-- A step that leaves the sessions `s`, and neither changes nor asks anything about the engine.
pub record Leaves (a : GnssAdapter) (s : Sessions) (step : Step) : Type 0 where
  pub sessions : step.0.time_based_tracking_sessions ≡ s
  pub same_need : step.0.nhz_needed ≡ a.nhz_needed
  pub same_flag :
      step.0.spe_already_running_at_highest_interval ≡ a.spe_already_running_at_highest_interval
  pub quiet : (engine : Option TrackingOptions) → engine_after engine step.1 ≡ engine

-- What a step has made of the engine, for sessions `s`.
pub record Serves (engine : Option TrackingOptions) (s : Sessions) (step : Step) : Type 0 where
  pub served : AllFast (engine_after engine step.1) s
  pub highest : IsHighest (engine_after engine step.1) step.0

pub then_do-Serves :
    (engine : Option TrackingOptions) (s t : Sessions) (step : Step) (f : GnssAdapter → Step)
    → Serves engine s step
    → Leaves step.0 t (f step.0)
    → Serves engine s (step then_do f)
then_do-Serves engine s t (a, sent) f serves leaves =
    let after = engine_after-append engine sent (f a).1 ∙ leaves.quiet (engine_after engine sent) in
    record {
      served = rw after serves.served;
      highest = rw (after, leaves.same_need, leaves.same_flag) serves.highest;
    }

report_power-Leaves :
    (a : GnssAdapter) → Leaves a a.time_based_tracking_sessions (report_power_state_if_changed a)
unfolding report_power_state_if_changed
report_power-Leaves a = record {
  sessions = refl;
  same_need = refl;
  same_flag = refl;
  quiet = λ engine. ground arith;
}

reported :
    (a b : GnssAdapter) {s : Sessions} {step : Step}
    → Leaves b s step
    → b.nhz_needed ≡ a.nhz_needed
    → b.spe_already_running_at_highest_interval ≡ a.spe_already_running_at_highest_interval
    → Leaves a s step
reported a b leaves need flag = record {
  sessions = leaves.sessions;
  same_need = leaves.same_need ∙ need;
  same_flag = leaves.same_flag ∙ flag;
  quiet = leaves.quiet;
}

pub save-Leaves :
    (is_supported : Bool) (client id : ℕ) (options : TrackingOptions) (a : GnssAdapter)
    → Leaves a
        (if ltb 0 options.min_distance && is_supported
          then a.time_based_tracking_sessions
          else insert (key_of client id) options a.time_based_tracking_sessions)
        (save_tracking_session is_supported client id options a)
unfolding save_tracking_session
save-Leaves is_supported client id options a =
    elim (Bool-cases (ltb 0 options.min_distance && is_supported)) [
      | inl far ↦
          let b = record a {
            distance_based_tracking_sessions =
                insert (key_of client id) (to_location_options options)
                  a.distance_based_tracking_sessions;
          } in
          rw (save_tracking_session, far) (reported a b (report_power-Leaves b) refl refl)
      | inr near ↦
          let b = record a {
            time_based_tracking_sessions =
                insert (key_of client id) options a.time_based_tracking_sessions;
          } in
          rw (save_tracking_session, near) (reported a b (report_power-Leaves b) refl refl)
    ]

pub erase-Leaves :
    (client id : ℕ) (a : GnssAdapter)
    → is_time_based_tracking_session client id a ≡ true
    → Leaves a
        (erase (key_of client id) a.time_based_tracking_sessions)
        (erase_tracking_session client id a)
unfolding erase_tracking_session
erase-Leaves client id a there =
    let b = record a {
      time_based_tracking_sessions = erase (key_of client id) a.time_based_tracking_sessions;
    } in
    rw (erase_tracking_session, there) (reported a b (report_power-Leaves b) refl refl)

pub erase_far-Leaves :
    (client id : ℕ) (a : GnssAdapter)
    → is_time_based_tracking_session client id a ≡ false
    → Leaves a a.time_based_tracking_sessions (erase_tracking_session client id a)
unfolding erase_tracking_session
erase_far-Leaves client id a other =
    let b = record a {
      distance_based_tracking_sessions =
          erase (key_of client id) a.distance_based_tracking_sessions;
    } in
    rw (erase_tracking_session, other) (reported a b (report_power-Leaves b) refl refl)

pub report_with_no_wait-Leaves :
    (client id : ℕ) (no_wait : Bool) (a : GnssAdapter)
    → Leaves a a.time_based_tracking_sessions (report_with_no_wait client id no_wait a)
unfolding report_with_no_wait
report_with_no_wait-Leaves client id no_wait a = elim (Bool-cases no_wait) [
  | inl at_once ↦
      let same = (report_to_lem none client LocationError.success id a).0 in
      rw (report_with_no_wait, at_once)
        (record {
          sessions = ap (λ b. b.time_based_tracking_sessions) same;
          same_need = ap (λ b. b.nhz_needed) same;
          same_flag = ap (λ b. b.spe_already_running_at_highest_interval) same;
          quiet = λ engine. (report_to_lem engine client LocationError.success id a).1;
        })
  | inr later ↦
      rw (report_with_no_wait, later)
        (record { sessions = refl; same_need = refl; same_flag = refl; quiet = λ engine. refl })
]
