-- ===== src/Client/Sessions.antt =====
-- The sessions of a client: the commands under ids in gps/location/LocationAPIClientBase.cpp, and their
-- data in gps/location/LocationAPIClientBase.h.
use android_device_xiaomi_ms.Base.{ℕ, Bool, List, [], ◌∷◌, ◌==◌, if◌then◌else◌}
use android_device_xiaomi_ms.Core.{LocationError}
use android_device_xiaomi_ms.Batching.Types.{BatchingMode, BatchingOptions}
use android_device_xiaomi_ms.Gnss.Types.{GnssSuplMode, TrackingOptions}
use android_device_xiaomi_ms.Client.BiDict.{BiDict, has_id, set_entry, rm_by_id, get_ext_by_id}
use android_device_xiaomi_ms.Client.Queues.{
  SessionRequest, RequestQueue, start_tracking, stop_tracking, update_tracking_options,
  start_batching, stop_batching, update_batching_options, get_batched_locations, set_session,
  enqueue,
}

pub record SessionEntity : Type 0 where
  pub id : ℕ
  pub tracking_session : ℕ
  pub batching_session : ℕ
  pub session_mode : ℕ

abbrev pub zero_entity : SessionEntity
zero_entity = record { id = 0; tracking_session = 0; batching_session = 0; session_mode = 0 }

-- The codes of `SESSION_MODE`.
abbrev pub on_full : ℕ
on_full = 1

abbrev pub on_fix : ℕ
on_fix = 2

abbrev pub on_trip_completed : ℕ
on_trip_completed = 3

-- `mSessionBiDict`, the queues `mRequestQueues[REQUEST_SESSION]`, `mRequestQueues[REQUEST_TRACKING]` and
-- `mRequestQueues[REQUEST_NIRESPONSE]`, `mTracking`, and whether `mLocationAPI` is set.
pub record SessionClient : Type 0 where
  pub sessions : BiDict SessionEntity
  pub session_queue : RequestQueue
  pub tracking_queue : RequestQueue
  pub ni_queue : RequestQueue
  pub tracking : Bool
  pub has_api : Bool

-- What the `LocationAPI` is asked for, and what the client is told.
pub data SessionOutput : Type 0 where
  api_start_tracking : TrackingOptions → SessionOutput
  api_stop_tracking api_stop_batching api_gnss_ni_response : ℕ → SessionOutput
  api_update_tracking : ℕ → TrackingOptions → SessionOutput
  api_start_batching : BatchingOptions → SessionOutput
  api_update_batching : ℕ → BatchingOptions → SessionOutput
  api_get_batched_locations : (session count : ℕ) → SessionOutput
  answered : SessionRequest → LocationError → SessionOutput
  trips_told : List ℕ → SessionOutput

abbrev pub SessionStep : Type 0
SessionStep = SessionClient × List SessionOutput × LocationError

-- The batching mode for a mode of sessions.
abbrev batching_mode_of : ℕ → BatchingMode
batching_mode_of mode =
    if mode == on_full
    then BatchingMode.routine
    else if mode == on_trip_completed
    then BatchingMode.trip
    else BatchingMode.no_auto_report

abbrev mode_code : GnssSuplMode → ℕ
mode_code GnssSuplMode.standalone = 0
mode_code GnssSuplMode.msb = 1
mode_code GnssSuplMode.msa = 2

-- The options with their size and mode of batching; the rest is 0.
abbrev pub bare_batching_options : ℕ → BatchingOptions
bare_batching_options mode = record {
  size = 24;
  min_interval = 0;
  min_distance = 0;
  mode = 0;
  batching_mode = batching_mode_of mode;
}

-- The same with the values of the client's options.
abbrev pub batching_options_of : ℕ → TrackingOptions → BatchingOptions
batching_options_of mode options = record (bare_batching_options mode) {
  min_interval = options.min_interval;
  min_distance = options.min_distance;
  mode = mode_code options.mode;
}

-- A client with one more request in the queue of the sessions.
abbrev pub queued : SessionRequest → SessionClient → SessionClient
queued request c = record c { session_queue = enqueue request c.session_queue }

-- The session that an entity is entered under.
abbrev pub session_of : SessionEntity → ℕ
session_of e = if e.session_mode == on_fix then e.tracking_session else e.batching_session

abbrev entered : SessionEntity → BiDict SessionEntity → BiDict SessionEntity
entered e d = set_entry e.id (session_of e) e d

-- What is read of an id that is there.
abbrev pub entity_of : ℕ → SessionClient → SessionEntity
entity_of id c = (get_ext_by_id zero_entity id c.sessions).0

abbrev pub started_entity : (id mode session : ℕ) → SessionEntity
started_entity id mode session = record {
  id = id;
  tracking_session = if mode == on_fix then session else 0;
  batching_session = if mode == on_fix then 0 else session;
  session_mode = mode;
}

-- `locAPIStartSession`, with the session that `startTracking` or `startBatching` gives.
unfoldable pub loc_api_start_session :
    (id mode : ℕ) → TrackingOptions → (session : ℕ) → SessionClient → SessionStep
loc_api_start_session id mode options session c =
    let dict = entered (started_entity id mode session) c.sessions in
    let queue = c.session_queue in
    if c.has_api
    then if has_id id c.sessions
      then (c, [], LocationError.already_started)
      else if mode == on_fix
      then (
        record c { sessions = dict; session_queue = enqueue start_tracking queue },
        api_start_tracking options ∷ [],
        LocationError.success,
      )
      else (
        record c {
          sessions = dict;
          session_queue = enqueue start_batching (set_session session queue);
        },
        api_start_batching (batching_options_of mode options) ∷ [],
        LocationError.success,
      )
    else (c, [], LocationError.general_failure)

-- `locAPIStopSession`.
unfoldable pub loc_api_stop_session : ℕ → SessionClient → SessionStep
loc_api_stop_session id c =
    let e = entity_of id c in
    if c.has_api
    then if has_id id c.sessions
      then if e.session_mode == on_fix
        then (
          queued stop_tracking c,
          api_stop_tracking e.tracking_session ∷ [],
          LocationError.success,
        )
        else (
          queued stop_batching c,
          api_stop_batching e.batching_session ∷ [],
          LocationError.success,
        )
      else (c, [], LocationError.id_unknown)
    else (c, [], LocationError.general_failure)

-- An entity after an update to a mode, where a switch between tracking and batching has given a session.
abbrev pub updated_entity : (mode session : ℕ) → SessionEntity → SessionEntity
updated_entity mode session e =
    if mode == on_fix
    then if e.session_mode == on_fix
      then record e { session_mode = mode }
      else record e { tracking_session = session; batching_session = 0; session_mode = mode }
    else if e.session_mode == on_fix
    then record e { tracking_session = 0; batching_session = session; session_mode = mode }
    else record e { session_mode = mode }

abbrev pub updated_queue : (mode session : ℕ) → SessionEntity → RequestQueue → RequestQueue
updated_queue mode session e q =
    if mode == on_fix
    then if e.session_mode == on_fix
      then enqueue update_tracking_options q
      else set_session 0 (enqueue update_tracking_options q)
    else if e.session_mode == on_fix
    then set_session session (enqueue update_batching_options q)
    else enqueue update_batching_options q

abbrev pub update_outputs : ℕ → TrackingOptions → SessionEntity → List SessionOutput
update_outputs mode options e =
    if mode == on_fix
    then if e.session_mode == on_fix
      then api_update_tracking e.tracking_session options ∷ []
      else api_stop_batching e.batching_session ∷ api_start_tracking options ∷ []
    else if e.session_mode == on_fix
    then api_stop_tracking e.tracking_session
      ∷ api_start_batching (batching_options_of mode options)
      ∷ []
    else api_update_batching e.batching_session (bare_batching_options mode) ∷ []

-- The entry of an id is replaced by the one of an entity.
abbrev pub re_entered : ℕ → SessionEntity → BiDict SessionEntity → BiDict SessionEntity
re_entered id e d = set_entry id (session_of e) e (rm_by_id id d)

-- `locAPIUpdateSessionOptions`, with the session that a switch gives.
unfoldable pub loc_api_update_session_options :
    (id mode : ℕ) → TrackingOptions → (session : ℕ) → SessionClient → SessionStep
loc_api_update_session_options id mode options session c =
    let e = entity_of id c in
    if c.has_api
    then if has_id id c.sessions
      then (
        record c {
          sessions = re_entered id (updated_entity mode session e) c.sessions;
          session_queue = updated_queue mode session e c.session_queue;
        },
        update_outputs mode options e,
        LocationError.success,
      )
      else (c, [], LocationError.id_unknown)
    else (c, [], LocationError.general_failure)

-- `locAPIGetBatchedLocations`.
unfoldable pub loc_api_get_batched_locations : (id count : ℕ) → SessionClient → SessionStep
loc_api_get_batched_locations id count c =
    let e = entity_of id c in
    if c.has_api
    then if has_id id c.sessions
      then if e.session_mode == on_fix then (c, [], LocationError.not_supported) else (
        queued get_batched_locations c,
        api_get_batched_locations e.batching_session count ∷ [],
        LocationError.success,
      )
      else (c, [], LocationError.id_unknown)
    else (c, [], LocationError.general_failure)
