-- ===== src/Client/Replies.antt =====
-- What a client's sessions are told: the responses and the completed trips in
-- gps/location/LocationAPIClientBase.cpp, the requests of gps/location/LocationAPIClientBase.h, and the
-- commands whose responses come to queues of their own.
use android_device_xiaomi_ms.Base.{
  ℕ, Bool, true, false, Option, none, some, List, [], ◌∷◌, ltb, ◌==◌, if◌then◌else◌,
}
use android_device_xiaomi_ms.Core.{LocationError, is_success}
use android_device_xiaomi_ms.Gnss.Types.{TrackingOptions}
use android_device_xiaomi_ms.Client.BiDict.{BiDict, has_session, rm_by_session, get_ext_by_session}
use android_device_xiaomi_ms.Client.Queues.{
  SessionRequest, start_tracking, stop_tracking, update_tracking_options, start_batching,
  stop_batching, update_batching_options, get_batched_locations, gnss_ni_response, reset_requests,
  enqueue, dequeue,
}
use android_device_xiaomi_ms.Client.Sessions.{
  SessionEntity, zero_entity, on_trip_completed, SessionClient, SessionOutput, SessionStep,
  api_start_tracking, api_stop_tracking, api_update_tracking, api_gnss_ni_response, answered,
  trips_told,
}

-- `removeSession`.
unfoldable pub remove_session : ℕ → SessionClient → SessionClient
remove_session session c =
    if has_session session c.sessions
    then record c { sessions = rm_by_session session c.sessions }
    else c

-- `getRequestBySession` after the queues of tracking and of NI responses.
abbrev pub session_request : ℕ → SessionClient → Option SessionRequest × SessionClient
session_request session c =
    if has_session session c.sessions
    then ((dequeue c.session_queue).0, record c { session_queue = (dequeue c.session_queue).1 })
    else (none, c)

-- The request that a queue gives, or that of the queue of the sessions.
abbrev pub or_session_request :
    ℕ → Option SessionRequest → SessionClient → Option SessionRequest × SessionClient
or_session_request session none c = session_request session c
or_session_request session (some request) c = (some request, c)

-- `getRequestBySession`.
unfoldable pub get_request_by_session : ℕ → SessionClient → Option SessionRequest × SessionClient
get_request_by_session session c =
    if c.tracking_queue.session == session
    then or_session_request session (dequeue c.tracking_queue).0
        (record c { tracking_queue = (dequeue c.tracking_queue).1 })
    else if c.ni_queue.session == session
    then or_session_request session (dequeue c.ni_queue).0
        (record c { ni_queue = (dequeue c.ni_queue).1 })
    else session_request session c

-- Does a response to the request end its session?
abbrev pub ends_session : LocationError → SessionRequest → Bool
ends_session error start_tracking = if is_success error then false else true
ends_session error start_batching = if is_success error then false else true
ends_session error stop_tracking = is_success error
ends_session error stop_batching = is_success error
ends_session error update_tracking_options = false
ends_session error update_batching_options = false
ends_session error get_batched_locations = false
ends_session error gnss_ni_response = false

-- `onResponse` of the requests.
unfoldable pub on_request_response :
    LocationError → ℕ → Option SessionRequest × SessionClient → SessionClient × List SessionOutput
on_request_response error session (none, c) = (c, [])
on_request_response error session (some request, c) = (
  if ends_session error request then remove_session session c else c,
  answered request error ∷ [],
)

-- `onResponseCb`.
unfoldable pub on_response : LocationError → ℕ → SessionClient → SessionClient × List SessionOutput
on_response error session c = on_request_response error session (get_request_by_session session c)

-- The loop of `beforeBatchingStatusCb`: what is left, and the ids of the completed trips.
unfoldable pub trips_loop : List ℕ → BiDict SessionEntity → BiDict SessionEntity × List ℕ
trips_loop [] d = (d, [])
trips_loop (session ∷ rest) d =
    let e = get_ext_by_session zero_entity session d in
    let skip = trips_loop rest d in
    let next = trips_loop rest (rm_by_session session d) in
    if has_session session d
    then if e.session_mode == on_trip_completed then (next.0, e.id ∷ next.1) else skip
    else skip

-- `beforeBatchingStatusCb`.
unfoldable pub before_batching_status :
    (is_trip_completed : Bool) → List ℕ → SessionClient → SessionClient × List SessionOutput
before_batching_status is_trip_completed trips c =
    let (d, ids) = trips_loop trips c.sessions in
    if is_trip_completed
    then (record c { sessions = d }, trips_told ids ∷ [])
    else (c, trips_told [] ∷ [])

-- `locAPIStartTracking`, with the session that `startTracking` gives.
unfoldable pub loc_api_start_tracking :
    TrackingOptions → (session : ℕ) → SessionClient → SessionStep
loc_api_start_tracking options session c =
    if c.has_api
    then if c.tracking then (c, [], LocationError.success) else (
      record c {
        tracking_queue = enqueue start_tracking (reset_requests session c.tracking_queue);
        tracking = true;
      },
      api_start_tracking options ∷ [],
      LocationError.success,
    )
    else (c, [], LocationError.general_failure)

-- `locAPIStopTracking`.
unfoldable pub loc_api_stop_tracking : SessionClient → SessionClient × List SessionOutput
loc_api_stop_tracking c =
    let session = c.tracking_queue.session in
    let queue = enqueue stop_tracking c.tracking_queue in
    if c.has_api
    then if ltb 0 session
      then (record c { tracking_queue = queue; tracking = false }, api_stop_tracking session ∷ [])
      else (c, [])
    else (c, [])

-- `locAPIUpdateTrackingOptions`.
unfoldable pub loc_api_update_tracking_options :
    TrackingOptions → SessionClient → SessionClient × List SessionOutput
loc_api_update_tracking_options options c =
    let session = c.tracking_queue.session in
    let queue = enqueue update_tracking_options c.tracking_queue in
    if c.has_api
    then if ltb 0 session
      then (record c { tracking_queue = queue }, api_update_tracking session options ∷ [])
      else (c, [])
    else (c, [])

-- `locAPIGnssNiResponse`.
unfoldable pub loc_api_gnss_ni_response : ℕ → SessionClient → SessionClient × List SessionOutput
loc_api_gnss_ni_response id c =
    let queue = enqueue gnss_ni_response (reset_requests id c.ni_queue) in
    if c.has_api then (record c { ni_queue = queue }, api_gnss_ni_response id ∷ []) else (c, [])
