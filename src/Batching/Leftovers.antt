-- ===== src/Batching/Leftovers.antt =====
-- Where the map of the sessions and that of the trips come apart (gps/batching/BatchingAdapter.cpp).
use android_device_xiaomi_ms.Base.{
  ℕ, ◌≡◌, refl, sym, ◌∙◌, ap, subst, Bool, true, false, none, some, List, [], ◌∷◌, ◌++◌, arith,
  ◌==◌, find, insert, erase, nat_key, find-insert_eq, is_empty, ==_iff, Bool-cases, inl, inr,
  if◌then◌else◌, if_both, ◌&&◌, ◌||◌,
}
use android_device_xiaomi_ms.Core.{LocationError, is_success, SessionKey, session_key}
use android_device_xiaomi_ms.Batching.Types.{
  BatchingMode, BatchingOptions, TripSessionStatus, BatchingAdapter, Output, ask, batch_full_event,
  is_trip, query_new_trip_request, start_message, stop_message, update_message,
}
use android_device_xiaomi_ms.Batching.Sessions.{
  Step, has_batching_callback, is_batching_session, is_trip_session, stop_batching,
  erase_batching_session, auto_report_batching_sessions_count, respond,
}
use android_device_xiaomi_ms.Batching.Trips.{
  Trips, each_trip, rebase_on_report, new_trip_queried, start_trip_batching_multiplex,
  stop_trip_batching_multiplex, stop_trip_batching_multiplex_common, trip_stopped,
}
use android_device_xiaomi_ms.Batching.Messages.{
  Answer, Surroundings, answer_request, proc, proc_start, proc_stop, proc_update, stop_sessions,
  stop_batching_client,
}
use android_device_xiaomi_ms.Batching.Progress.{find-each_trip}
use mathlib.Core.List.{Memᴰ}
use mathlib.Core.List.Memᴰ.{not-nil}

-- The trip is there, and the sessions and what is known of the engine are those of `a`.
abbrev Joins : ℕ → BatchingAdapter → Step → Type 0
Joins id a (b, sent) =
    (is_trip_session id b ≡ true)
    × (b.batching_sessions ≡ a.batching_sessions)
    × (b.is_engine_capabilities_known ≡ a.is_engine_capabilities_known)

is_trip_session-find :
    (id : ℕ) (s : TripSessionStatus) (b : BatchingAdapter)
    → find id b.trip_sessions ≡ some s
    → is_trip_session id b ≡ true
unfolding is_trip_session
is_trip_session-find id s b there = rw (is_trip_session, there) refl

find-rebased :
    (id : ℕ) (s : TripSessionStatus) (trips : Trips)
    → find id (each_trip rebase_on_report (insert id s trips)) ≡ some (rebase_on_report s)
find-rebased id s trips =
    rw (find-each_trip rebase_on_report id (insert id s trips), find-insert_eq id id trips s refl)
      refl

new_trip_queried-Joins :
    (client id accumulated : ℕ) (options : BatchingOptions) (a : BatchingAdapter)
    → Joins id a (new_trip_queried client id options LocationError.success accumulated a)
unfolding new_trip_queried
new_trip_queried-Joins client id accumulated options a =
    if_both (Joins id a) _
      (is_trip_session-find id _ _ (find-rebased id _ a.trip_sessions), refl, refl)
      (is_trip_session-find id _ _ (find-insert_eq id id a.trip_sessions _ refl), refl, refl)

stop_batching-trips :
    (client id : ℕ) (restart_needed : Bool) (options : BatchingOptions) (a : BatchingAdapter)
    → (stop_batching client id restart_needed options a).0.trip_sessions ≡ a.trip_sessions
unfolding stop_batching erase_batching_session
stop_batching-trips client id restart_needed options a = ground arith

stop_sessions-none :
    (unset : BatchingOptions) (client id : ℕ) (o : BatchingOptions)
    (sessions : List (SessionKey × BatchingOptions)) (a : BatchingAdapter)
    → a.trip_sessions ≡ []
    → Memᴰ (record { client = client; id = id }, o) sessions
    → o.batching_mode ≡ BatchingMode.trip
    → stop_sessions unset client sessions a ≡ none
unfolding stop_sessions stop_trip_batching_multiplex stop_trip_batching_multiplex_common
    stop_batching erase_batching_session find
stop_sessions-none unset client id o [] a no_trips there trip = absurd (not-nil there)
stop_sessions-none unset client id o ((key, p) ∷ rest) a no_trips (Memᴰ.head e) trip =
    let same_key : client ≡ key.client = cc in
    let is_same : (client == key.client) ≡ true = ground arith in
    let same_mode : p.batching_mode ≡ BatchingMode.trip = cc in
    rw (is_same, same_mode, no_trips) refl
stop_sessions-none unset client id o ((key, p) ∷ rest) a no_trips (Memᴰ.tail there) trip =
    elim (Bool-cases (client == key.client)) [
      | inl own ↦ elim (Bool-cases (is_trip p.batching_mode)) [
        | inl one_more ↦ rw (own, one_more, no_trips) refl
        | inr ordinary ↦
            let b = (stop_batching client key.id false unset a).0 in
            let kept = stop_batching-trips client key.id false unset a in
            rw
              (
                own,
                ordinary,
                stop_sessions-none unset client id o rest b (kept ∙ no_trips) there trip,
              )
              refl
      ]
      | inr other ↦ rw other (stop_sessions-none unset client id o rest a no_trips there trip)
    ]

-- The commands to stop and to update a session that the map does not have.
unknown_session-ignored :
    (s : Surroundings) (client id : ℕ) (options : BatchingOptions) (b : BatchingAdapter)
    → b.is_engine_capabilities_known ≡ true
    → find (record { client = client; id = id }) b.batching_sessions ≡ none
    → (proc s (stop_message client id) b ≡ some (b, []))
      × (proc s (update_message client id options) b ≡ some (b, []))
unfolding proc proc_stop proc_update is_batching_session
unknown_session-ignored s client id options b up absent =
    (rw (up, is_batching_session, absent) refl, rw (up, is_batching_session, absent) refl)

-- If the capabilities of the engine are known and trips are supported, the client's batching callback is
-- set, the size of the options is not 0, and there are trips but the map of the sessions has no session of
-- this client with this id, then the command to start a trip does nothing but query the engine; and when
-- the engine has answered with success, the new trip is one of the trips while the sessions are as
-- before, and the commands to stop and to update it do nothing, with no answer to the client.
pub new_trip_unstoppable :
    (s : Surroundings) (client id : ℕ) (options new_options : BatchingOptions) (r : Answer)
    (a : BatchingAdapter)
    → a.is_engine_capabilities_known ≡ true
    → s.is_supported ≡ true
    → has_batching_callback client a ≡ true
    → (options.size == 0) ≡ false
    → options.batching_mode ≡ BatchingMode.trip
    → is_empty a.trip_sessions ≡ false
    → find (record { client = client; id = id }) a.batching_sessions ≡ none
    → r.err ≡ LocationError.success
    → (proc s (start_message client id options) a
        ≡ some (a, ask (query_new_trip_request client id options) ∷ []))
      × (b : BatchingAdapter) × (sent : List Output) × (answer_request r
            (query_new_trip_request client id options)
            a
          ≡ some (b, sent))
      × (is_trip_session id b ≡ true)
      × (b.batching_sessions ≡ a.batching_sessions)
      × (proc s (stop_message client id) b ≡ some (b, []))
      × (proc s (update_message client id new_options) b ≡ some (b, []))
unfolding proc proc_start start_trip_batching_multiplex answer_request
new_trip_unstoppable s client id options new_options r a up supported set sized trip others absent
      answered =
    let (b, sent) =
      new_trip_queried client id options LocationError.success r.accumulated_distance a in
    let (there, same, known) = new_trip_queried-Joins client id r.accumulated_distance options a in
    let key : SessionKey = record { client = client; id = id } in
    let unknown = ap (find key) same ∙ absent in
    let (not_stopped, not_updated) =
      unknown_session-ignored s client id new_options b (known ∙ up) unknown in
    (
      simp (up, supported, set, sized, trip, others),
      b,
      sent,
      rw answered refl,
      there,
      same,
      not_stopped,
      not_updated,
    )

-- What is left where the trip that ends is the only one.
abbrev Ends : ℕ → ℕ → BatchingOptions → LocationError → BatchingAdapter → Type 0
Ends client id unset err a =
    (b : BatchingAdapter) × (sent : List Output) × (trip_stopped client id false unset err a
      ≡ some (b, sent))
    × (b.trip_sessions ≡ [])
    × (b.batching_sessions ≡ a.batching_sessions)

trip_stopped-Ends :
    (client id : ℕ) (s : TripSessionStatus) (unset : BatchingOptions) (err : LocationError)
    (a : BatchingAdapter)
    → Ends client id unset err (record a { trip_sessions = (id, s) ∷ [] })
unfolding trip_stopped stop_trip_batching_multiplex_common find erase
trip_stopped-Ends client id s unset err a =
    let same : (id == id) ≡ true = (==_iff id id).1 refl in
    let b = record a {
      trip_with_ongoing_tbf_dropped =
          s.trip_tbf_interval == a.ongoing_trip_tbf_interval || a.trip_with_ongoing_tbf_dropped;
      trip_with_ongoing_trip_distance_dropped =
          s.trip_distance == a.ongoing_trip_distance || a.trip_with_ongoing_trip_distance_dropped;
      trip_sessions = [];
      ongoing_trip_distance = 0;
      ongoing_trip_tbf_interval = 0;
    } in
    (
      b,
      (if is_success err
              && auto_report_batching_sessions_count (record a { trip_sessions = (id, s) ∷ [] })
                == 1
            then batch_full_event false ∷ []
            else [])
          ++ respond client err id b,
      rw (stop_trip_batching_multiplex_common, find, erase, same) (rw same refl),
      refl,
      refl,
    )

-- If a trip is the only one, its session is among those of the client, and the engine has answered, with
-- whatever error, to the stop that needs no restart, then the trip is gone and its session is still there,
-- so that the removal of the client's sessions follows the end of the map of the trips.
pub trip_stopped_leftover :
    (client id : ℕ) (s : TripSessionStatus) (o unset : BatchingOptions) (err : LocationError)
    (a : BatchingAdapter)
    → a.trip_sessions ≡ (id, s) ∷ []
    → Memᴰ (record { client = client; id = id }, o) a.batching_sessions
    → o.batching_mode ≡ BatchingMode.trip
    → (b : BatchingAdapter) × (sent : List Output) × (trip_stopped client id false unset err a
        ≡ some (b, sent))
      × (b.trip_sessions ≡ [])
      × (b.batching_sessions ≡ a.batching_sessions)
      × (stop_batching_client unset client b ≡ none)
unfolding stop_batching_client
trip_stopped_leftover client id s o unset err a only there trip =
    let same : record a { trip_sessions = (id, s) ∷ [] } ≡ a =
      ap (λ trips. record a { trip_sessions = trips }) (sym only) in
    let (b, sent, stopped, none_left, kept) : Ends client id unset err a =
      subst (Ends client id unset err) same (trip_stopped-Ends client id s unset err a) in
    (
      b,
      sent,
      stopped,
      none_left,
      kept,
      stop_sessions-none unset client id o b.batching_sessions b none_left (rw kept there) trip,
    )
