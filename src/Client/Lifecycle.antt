-- ===== src/Client/Lifecycle.antt =====
-- The sessions of a client from its commands to the responses: gps/location/LocationAPIClientBase.cpp.
use android_device_xiaomi_ms.Base.{
  ℕ, ◌<◌, ◌≡◌, refl, sym, subst, Bool, Option, none, some, List, [], ◌∷◌, ◌==◌, nat_key, find,
  if_both, if_cases,
}
use android_device_xiaomi_ms.Core.{LocationError}
use android_device_xiaomi_ms.Gnss.Types.{TrackingOptions}
use android_device_xiaomi_ms.Client.BiDict.{has_id, has_session, rm_by_session, get_ext_by_session}
use android_device_xiaomi_ms.Client.Queues.{SessionRequest, dequeue}
use android_device_xiaomi_ms.Client.Sessions.{
  zero_entity, on_fix, on_trip_completed, SessionClient, SessionOutput, SessionStep, entity_of,
  loc_api_start_session, loc_api_stop_session, loc_api_update_session_options,
  loc_api_get_batched_locations,
}
use android_device_xiaomi_ms.Client.Replies.{
  remove_session, session_request, or_session_request, get_request_by_session, ends_session,
  on_request_response, on_response, trips_loop, before_batching_status,
}
use android_device_xiaomi_ms.Client.Sound.{
  SessionDict, IsSound, started-IsSound, updated-IsSound, remove_known-IsSound,
}

remove_session-IsSound :
    (s : ℕ) (c : SessionClient) → IsSound c.sessions → IsSound (remove_session s c).sessions
unfolding remove_session
remove_session-IsSound s c h =
    if_cases (λ (x : SessionClient). IsSound x.sessions) (has_session s c.sessions)
      (remove_known-IsSound s c.sessions h) (λ _. h)

trips_loop-IsSound : (trips : List ℕ) (d : SessionDict) → IsSound d → IsSound (trips_loop trips d).0
unfolding trips_loop
trips_loop-IsSound [] d h = h
trips_loop-IsSound (s ∷ trips) d h =
    let skipped = trips_loop-IsSound trips d h in
    if_cases (λ (x : SessionDict × List ℕ). IsSound x.0) (has_session s d)
      (λ known.
        if_both (λ (x : SessionDict × List ℕ). IsSound x.0)
          ((get_ext_by_session zero_entity s d).session_mode == on_trip_completed)
          (trips_loop-IsSound trips (rm_by_session s d) (remove_known-IsSound s d h known)) skipped)
      (λ _. skipped)

-- Which request waits has nothing to do with the dictionary.
session_request-sessions :
    (s : ℕ) (c : SessionClient) → (session_request s c).1.sessions ≡ c.sessions
session_request-sessions s c =
    if_both (λ (x : Option SessionRequest × SessionClient). x.1.sessions ≡ c.sessions)
      (has_session s c.sessions) refl refl

or_session_request-sessions :
    (s : ℕ) (r : Option SessionRequest) (c : SessionClient)
    → (or_session_request s r c).1.sessions ≡ c.sessions
or_session_request-sessions s none c = session_request-sessions s c
or_session_request-sessions s (some r) c = refl

get_request_by_session-sessions :
    (s : ℕ) (c : SessionClient) → (get_request_by_session s c).1.sessions ≡ c.sessions
unfolding get_request_by_session
get_request_by_session-sessions s c =
    if_both (λ (x : Option SessionRequest × SessionClient). x.1.sessions ≡ c.sessions)
      (c.tracking_queue.session == s)
      (or_session_request-sessions s (dequeue c.tracking_queue).0
        (record c { tracking_queue = (dequeue c.tracking_queue).1 }))
      (if_both (λ (x : Option SessionRequest × SessionClient). x.1.sessions ≡ c.sessions)
        (c.ni_queue.session == s)
        (or_session_request-sessions s (dequeue c.ni_queue).0
          (record c { ni_queue = (dequeue c.ni_queue).1 }))
        (session_request-sessions s c))

on_request_response-IsSound :
    (error : LocationError) (s : ℕ) (x : Option SessionRequest × SessionClient)
    → IsSound x.1.sessions
    → IsSound (on_request_response error s x).0.sessions
unfolding on_request_response
on_request_response-IsSound error s (none, c) h = h
on_request_response-IsSound error s (some request, c) h =
    if_both (λ (x : SessionClient). IsSound x.sessions) (ends_session error request)
      (remove_session-IsSound s c h) h

-- If the dictionary of a client's sessions is sound - ids and sessions belong to one another, and each
-- session has its entity - then it is so after each command on sessions, in any mode and whether the id is
-- known or not, where the API gives a session that is new and not 0, after each response for whatever
-- session, and after a report of completed trips.
pub sessions-IsSound :
    (c : SessionClient) (id mode s count : ℕ) (options : TrackingOptions) (error : LocationError)
    (response_session : ℕ) (is_trip_completed : Bool) (trips : List ℕ)
    → IsSound c.sessions
    → find s c.sessions.backward_map ≡ none
    → 0 < s
    → IsSound (loc_api_start_session id mode options s c).0.sessions
      × IsSound (loc_api_stop_session id c).0.sessions
      × IsSound (loc_api_update_session_options id mode options s c).0.sessions
      × IsSound (loc_api_get_batched_locations id count c).0.sessions
      × IsSound (on_response error response_session c).0.sessions
      × IsSound (before_batching_status is_trip_completed trips c).0.sessions
unfolding loc_api_start_session loc_api_stop_session loc_api_update_session_options
    loc_api_get_batched_locations on_response before_batching_status
sessions-IsSound c id mode s count options error t is_trip_completed trips h fresh pos =
    let Holds : SessionStep → Type 0 = λ x. IsSound x.0.sessions in
    let Kept : SessionClient × List SessionOutput → Type 0 = λ x. IsSound x.0.sessions in
    (
      if_both Holds c.has_api
          (if_cases Holds (has_id id c.sessions) (λ _. h)
            (λ unknown.
              let new = started-IsSound id mode s c.sessions h unknown fresh pos in
              if_both Holds (mode == on_fix) new new))
          h,
      if_both Holds c.has_api
          (if_both Holds (has_id id c.sessions)
            (if_both Holds ((entity_of id c).session_mode == on_fix) h h) h)
          h,
      if_both Holds c.has_api
          (if_cases Holds (has_id id c.sessions)
            (λ known. updated-IsSound id mode s c h known fresh pos) (λ _. h))
          h,
      if_both Holds c.has_api
          (if_both Holds (has_id id c.sessions)
            (if_both Holds ((entity_of id c).session_mode == on_fix) h h) h)
          h,
      on_request_response-IsSound error t (get_request_by_session t c)
          (subst (λ d. IsSound d) (sym (get_request_by_session-sessions t c)) h),
      if_both Kept is_trip_completed (trips_loop-IsSound trips c.sessions h) h,
    )
