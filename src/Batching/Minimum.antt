-- ===== src/Batching/Minimum.antt =====
-- What the engine is asked for when the trips are restarted (gps/batching/BatchingAdapter.cpp).
use android_device_xiaomi_ms.Base.{
  ℕ, ◌≤◌, ◌<◌, ◌≡◌, ◌≢◌, refl, sym, Bool, true, false, [], ◌∷◌, ◌++◌, if◌then◌else◌, ◌==◌, arith,
  All, is_empty, Bool-cases, inl, inr,
}
use android_device_xiaomi_ms.Core.{sub32}
use android_device_xiaomi_ms.Batching.Types.{
  TripSessionStatus, BatchingAdapter, query_restart_request, restart_sessions_trip_request,
  batch_full_event, ask,
}
use android_device_xiaomi_ms.Batching.Sessions.{none_reports}
use android_device_xiaomi_ms.Batching.Trips.{
  Trips, remaining_distance, smaller, min_loop, restart_trip_batching, restart_sessions_loop,
  restart_batching_sessions,
}
use mathlib.Core.List.{Memᴰ}

-- The least value of a trip, which some trip has.
pub record IsLeast (f : TripSessionStatus → ℕ) (least : ℕ) (trips : Trips) : Type 0 where
  pub below : All (λ e. least ≤ f e.1) trips
  pub reached : (e : ℕ × TripSessionStatus) × Memᴰ e trips × (f e.1 ≡ least)

-- What the loop finds, from a value that is not 0.
record Found (f : TripSessionStatus → ℕ) (least found : ℕ) (trips : Trips) : Type 0 where
  below : All (λ e. found ≤ f e.1) trips
  under : found ≤ least

smaller_le :
    (least n : ℕ)
    → n ≢ 0
    → least ≢ 0
    → (smaller least n ≤ least) × (smaller least n ≤ n) × (smaller least n ≢ 0)
smaller_le least n p q = (ground arith, ground arith, ground arith)

min_loop-Found :
    (f : TripSessionStatus → ℕ) (least : ℕ) (trips : Trips)
    → least ≢ 0
    → All (λ e. f e.1 ≢ 0) trips
    → Found f least (min_loop f least trips) trips
unfolding min_loop
min_loop-Found f least [] p h = record { below = tt; under = omega arith }
min_loop-Found f least ((id, s) ∷ rest) p (q, h) =
    let (below_least, below_s, positive) = smaller_le least (f s) q p in
    let later = min_loop-Found f (smaller least (f s)) rest positive h in
    let under = later.under in record { below = (omega arith, later.below); under = omega arith }

-- What the loop finds is the value that it starts from or a trip's.
min_loop-reached :
    (f : TripSessionStatus → ℕ) (least : ℕ) (trips : Trips) {found : ℕ}
    → min_loop f least trips ≡ found
    → found ≢ least
    → (e : ℕ × TripSessionStatus) × Memᴰ e trips × (f e.1 ≡ found)
unfolding min_loop
min_loop-reached f least [] e n = absurd (n (sym e))
min_loop-reached f least ((id, s) ∷ rest) {found} e n = elim (Bool-cases (f s == found)) [
  | inl here ↦ ((id, s), Memᴰ.head refl, ground arith)
  | inr other ↦
      let apart : found ≢ smaller least (f s) = (λ same. ground arith) in
      let (x, there, at) = min_loop-reached f (smaller least (f s)) rest e apart in
      (x, Memᴰ.tail there, at)
]

pub min_loop-IsLeast :
    (f : TripSessionStatus → ℕ) (trips : Trips)
    → trips ≢ []
    → All (λ e. f e.1 ≢ 0) trips
    → IsLeast f (min_loop f 0 trips) trips
unfolding min_loop
min_loop-IsLeast f [] n h = absurd (n refl)
min_loop-IsLeast f ((id, s) ∷ rest) n (p, h) =
    let later = min_loop-Found f (f s) rest p h in
    let under = later.under in
    record {
      below = (omega arith, later.below);
      reached = elim (Bool-cases (min_loop f (f s) rest == f s)) [
        | inl first ↦ ((id, s), Memᴰ.head refl, ground arith)
        | inr other ↦
            let apart : min_loop f (f s) rest ≢ f s = (λ same. ground arith) in
            let (x, there, at) = min_loop-reached f (f s) rest refl apart in
            (x, Memᴰ.tail there, at)
      ];
    }

-- The trip has not reached its distance, and its interval is not 0.
abbrev pub IsRunning : ℕ × TripSessionStatus → Type 0
IsRunning (id, s) =
    (s.trip_distance < 4294967296)
    × (s.accumulated_distance_this_trip < s.trip_distance)
    × (s.trip_tbf_interval ≢ 0)

running_remaining :
    (trips : Trips) → All IsRunning trips → All (λ e. remaining_distance e.1 ≢ 0) trips
unfolding sub32
running_remaining [] h = tt
running_remaining ((id, s) ∷ rest) ((word, short, _), h) =
    (λ zero_left. ground arith, running_remaining rest h)

running_interval :
    (trips : Trips) → All IsRunning trips → All (λ e. e.1.trip_tbf_interval ≢ 0) trips
running_interval [] h = tt
running_interval ((id, s) ∷ rest) ((_, _, set), h) = (set, running_interval rest h)

-- If there are trips, none has reached its distance and none has the interval 0, then a restart of the
-- trips queries the engine with the smallest distance that a trip has left and the smallest interval of a
-- trip, and a restart of all sessions asks the engine for a trip of just these, after what it sends for
-- the other sessions, and takes them as the ongoing ones.
pub restart_trip_batching-IsLeast :
    (query : Bool) (accumulated : ℕ) (a : BatchingAdapter)
    → a.trip_sessions ≢ []
    → All IsRunning a.trip_sessions
    → (distance interval : ℕ) × IsLeast remaining_distance distance a.trip_sessions
      × IsLeast (λ s. s.trip_tbf_interval) interval a.trip_sessions
      × (restart_trip_batching query accumulated a
          ≡ (a, ask (query_restart_request query distance interval accumulated) ∷ []))
      × ((restart_batching_sessions a).1
          ≡ ((if none_reports a then [] else batch_full_event true ∷ [])
              ++ restart_sessions_loop a.batching_sessions)
            ++ ask (restart_sessions_trip_request distance interval) ∷ [])
      × ((restart_batching_sessions a).0.ongoing_trip_distance ≡ distance)
      × ((restart_batching_sessions a).0.ongoing_trip_tbf_interval ≡ interval)
unfolding restart_trip_batching restart_batching_sessions
restart_trip_batching-IsLeast query accumulated a some_trip h =
    let not_empty : is_empty a.trip_sessions ≡ false = ground arith in
    (
      min_loop remaining_distance 0 a.trip_sessions,
      min_loop (λ s. s.trip_tbf_interval) 0 a.trip_sessions,
      min_loop-IsLeast remaining_distance a.trip_sessions some_trip (running_remaining _ h),
      min_loop-IsLeast (λ s. s.trip_tbf_interval) a.trip_sessions some_trip (running_interval _ h),
      rw not_empty refl,
      rw not_empty refl,
      rw not_empty refl,
      rw not_empty refl,
    )
