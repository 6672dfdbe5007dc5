-- ===== src/Batching/Completed.antt =====
-- Which trips are completed, and who hears of it (gps/batching/BatchingAdapter.cpp).
use android_device_xiaomi_ms.Base.{
  ℕ, ◌≡◌, refl, sym, ◌∙◌, ap, Bool, true, false, not, List, [], ◌∷◌, ◌++◌, leb, arith, is_empty,
  filter, map, Bool-cases, inl, inr, if◌then◌else◌,
}
use android_device_xiaomi_ms.Batching.Types.{
  TripSessionStatus, BatchingCallbacks, BatchingAdapter, Output, trips_completed,
}
use android_device_xiaomi_ms.Batching.Trips.{
  Trips, trip_distance_at, completion_loop, report_batch_status_change, restart_trip_batching,
  report_completed_trips,
}
use android_device_xiaomi_ms.Batching.Sessions.{auto_report_batching_sessions_count}

-- When the engine has accumulated so much, has the trip reached its distance?
abbrev pub is_reached : ℕ → ℕ × TripSessionStatus → Bool
is_reached accumulated (id, s) = leb s.trip_distance (trip_distance_at accumulated s)

-- The trip with its distance brought up to date.
abbrev pub advanced : ℕ → ℕ × TripSessionStatus → ℕ × TripSessionStatus
advanced accumulated (id, s) =
    (id, record s { accumulated_distance_this_trip = trip_distance_at accumulated s })

-- The trips that are reached, and those that are not.
abbrev pub reached : ℕ → Trips → List ℕ
reached accumulated trips = map (λ e. e.0) (filter (is_reached accumulated) trips)

abbrev pub unreached : ℕ → Trips → Trips
unreached accumulated trips =
    map (advanced accumulated) (filter (λ e. not (is_reached accumulated e)) trips)

completion_loop_lem :
    (freed : ℕ → TripSessionStatus) (accumulated : ℕ) (a : BatchingAdapter) (trips : Trips)
    → ((completion_loop freed accumulated a trips).running ≡ unreached accumulated trips)
      × ((completion_loop freed accumulated a trips).completed ≡ reached accumulated trips)
unfolding completion_loop
completion_loop_lem freed accumulated a [] = (refl, refl)
completion_loop_lem freed accumulated a ((id, s) ∷ rest) =
    let (kept, done) = completion_loop_lem freed accumulated a rest in
    elim (Bool-cases (leb s.trip_distance (trip_distance_at accumulated s))) [
      | inl hit ↦ rw hit (kept, ap (λ l. id ∷ l) done)
      | inr miss ↦ rw miss (ap (λ l. advanced accumulated (id, s) ∷ l) kept, done)
    ]

-- Is it a call about completed trips?
abbrev pub is_trips_completed : Output → Bool
is_trips_completed (trips_completed client ids) = true
is_trips_completed _ = false

-- The calls that name these trips, one to each client that has the callback.
abbrev pub told : List ℕ → List (ℕ × BatchingCallbacks) → List Output
told ids clients = map (λ e. trips_completed e.0 ids) (filter (λ e. e.1.batching_status_cb) clients)

report_batch_status_change-told :
    (clients : List (ℕ × BatchingCallbacks)) (ids : List ℕ) (more : List Output)
    → filter is_trips_completed more ≡ []
    → filter is_trips_completed (report_batch_status_change clients ids ++ more) ≡ told ids clients
unfolding report_batch_status_change
report_batch_status_change-told [] ids more quiet = quiet
report_batch_status_change-told ((client, c) ∷ rest) ids more quiet =
    let later = report_batch_status_change-told rest ids more quiet in
    elim (Bool-cases c.batching_status_cb) [
      | inl set ↦ rw set (ap (λ l. trips_completed client ids ∷ l) later)
      | inr unset ↦ rw unset later
    ]

-- A restart of the trips keeps them, and tells no client of completed trips.
restart_trip_batching-quiet :
    (query : Bool) (accumulated : ℕ) (a : BatchingAdapter)
    → ((restart_trip_batching query accumulated a).0.trip_sessions ≡ a.trip_sessions)
      × (filter is_trips_completed (restart_trip_batching query accumulated a).1 ≡ [])
unfolding restart_trip_batching auto_report_batching_sessions_count
restart_trip_batching-quiet query accumulated a = (ground arith, ground arith)

-- When the engine reports an accumulated distance, whatever the code reads of a freed trip: the trips that
-- it reaches are removed and the others stay with their distance brought up to date; and if some trip is
-- reached, then each client that has the callback gets one call, which names just the trips reached, in
-- the order of the clients, while otherwise no client gets such a call.
pub report_completed_trips_lem :
    (freed : ℕ → TripSessionStatus) (accumulated : ℕ) (a : BatchingAdapter)
    → let (b, sent) = report_completed_trips freed accumulated a in
      let ids = reached accumulated a.trip_sessions in
      (b.trip_sessions ≡ unreached accumulated a.trip_sessions)
      × (filter is_trips_completed sent ≡ (if is_empty ids then [] else told ids a.client_data))
unfolding report_completed_trips
report_completed_trips_lem freed accumulated a =
    let done = completion_loop freed accumulated a a.trip_sessions in
    let left = record a {
      trip_sessions = done.running;
      trip_with_ongoing_tbf_dropped = done.tbf_dropped;
      trip_with_ongoing_trip_distance_dropped = done.distance_dropped;
    } in
    let (running, completed) = completion_loop_lem freed accumulated a a.trip_sessions in
    let (kept, quiet) = restart_trip_batching-quiet false accumulated left in
    let calls =
      report_batch_status_change-told a.client_data done.completed
        (restart_trip_batching false accumulated left).1 quiet in
    elim (Bool-cases (is_empty done.completed)) [
      | inl none_done ↦ rw (sym completed, none_done) (running, refl)
      | inr some_done ↦ rw (sym completed, some_done) (kept ∙ running, calls)
    ]
