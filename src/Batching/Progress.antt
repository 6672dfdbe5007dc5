-- ===== src/Batching/Progress.antt =====
-- What a restart of the engine's session does to the trips (gps/batching/BatchingAdapter.cpp).
use android_device_xiaomi_ms.Base.{
  ℕ, ◌<◌, ◌≡◌, refl, some, [], ◌∷◌, arith, ◌==◌, find, nat_key, Bool-cases, inl, inr,
}
use android_device_xiaomi_ms.Core.{LocationError, add32, sub32}
use android_device_xiaomi_ms.Batching.Types.{TripSessionStatus, BatchingAdapter}
use android_device_xiaomi_ms.Batching.Trips.{
  Trips, each_trip, trip_distance_at, rebase_at, trips_restarted,
}
use mathlib.Core.Option

pub find-each_trip :
    (f : TripSessionStatus → TripSessionStatus) (id : ℕ) (trips : Trips)
    → find id (each_trip f trips) ≡ Option.map f (find id trips)
unfolding find
find-each_trip f id [] = refl
find-each_trip f id ((k, s) ∷ rest) = elim (Bool-cases (k == id)) [
  | inl here ↦ rw here refl
  | inr other ↦ rw other (find-each_trip f id rest)
]

-- Distances that are accumulated one after the other add up.
trip_distance_at-rebase_at :
    (accumulated more : ℕ) (s : TripSessionStatus)
    → s.accumulated_distance_ongoing_batch < 4294967296
    → trip_distance_at more (rebase_at accumulated s) ≡ trip_distance_at (add32 accumulated more) s
unfolding trip_distance_at add32 sub32
trip_distance_at-rebase_at accumulated more s word = omega arith

-- When the engine answers with success to the request to restart its trips at an accumulated distance, a
-- trip that is in the map, with an accumulated distance of the ongoing batch of 32 bits, stays in the map
-- with its distance and its interval unchanged, the distance that it has gone is its distance at
-- the restart, and at every later distance of the restarted session it has gone what it would have gone
-- without the restart. This is the restart after a trip has ended or has been stopped, not one for a new trip
-- or of an engine that is up again.
pub trips_restarted_keep_distance :
    (accumulated distance interval more id : ℕ) (s : TripSessionStatus) (a : BatchingAdapter)
    → find id a.trip_sessions ≡ some s
    → s.accumulated_distance_ongoing_batch < 4294967296
    → (t : TripSessionStatus) × (find id
          (trips_restarted accumulated distance interval LocationError.success a).0.trip_sessions
        ≡ some t)
      × (t.trip_distance ≡ s.trip_distance)
      × (t.trip_tbf_interval ≡ s.trip_tbf_interval)
      × (t.accumulated_distance_this_trip ≡ trip_distance_at accumulated s)
      × (trip_distance_at more t ≡ trip_distance_at (add32 accumulated more) s)
unfolding trips_restarted
trips_restarted_keep_distance accumulated distance interval more id s a there word = (
  rebase_at accumulated s,
  rw (find-each_trip (rebase_at accumulated) id a.trip_sessions, there) refl,
  refl,
  refl,
  refl,
  trip_distance_at-rebase_at accumulated more s word,
)
