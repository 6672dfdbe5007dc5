-- ===== src/Batching/Types.antt =====
-- The data of gps/batching/BatchingAdapter.h. A client is the address of its `LocationAPI`; numbers are
-- `uint32_t`, with their arithmetic on 32 bits written out.
use android_device_xiaomi_ms.Base.{ℕ, Bool, true, false, List}
use android_device_xiaomi_ms.Core.{LocationError, SessionKey}

-- A code that is not one of the three is `other`.
pub data BatchingMode : Type 0 where
  routine trip no_auto_report : BatchingMode
  other : ℕ → BatchingMode

abbrev pub is_no_auto_report : BatchingMode → Bool
is_no_auto_report BatchingMode.no_auto_report = true
is_no_auto_report _ = false

abbrev pub is_trip : BatchingMode → Bool
is_trip BatchingMode.trip = true
is_trip _ = false

pub record BatchingOptions : Type 0 where
  pub size : ℕ
  pub min_interval : ℕ
  pub min_distance : ℕ
  pub mode : ℕ
  pub batching_mode : BatchingMode

pub record TripSessionStatus : Type 0 where
  pub accumulated_distance_ongoing_batch : ℕ
  pub accumulated_distance_this_trip : ℕ
  pub accumulated_distance_on_trip_restart : ℕ
  pub trip_distance : ℕ
  pub trip_tbf_interval : ℕ

-- Which of a client's callbacks are set.
pub record BatchingCallbacks : Type 0 where
  pub batching_cb : Bool
  pub batching_status_cb : Bool
  pub response_cb : Bool

-- The messages of the commands.
pub data Message : Type 0 where
  start_message : (client id : ℕ) (options : BatchingOptions) → Message
  update_message : (client id : ℕ) (options : BatchingOptions) → Message
  stop_message : (client id : ℕ) → Message
  get_message : (client id count : ℕ) → Message

pub record BatchingAdapter : Type 0 where
  pub batching_sessions : List (SessionKey × BatchingOptions)
  pub trip_sessions : List (ℕ × TripSessionStatus)
  pub ongoing_trip_distance : ℕ
  pub ongoing_trip_tbf_interval : ℕ
  pub trip_with_ongoing_tbf_dropped : Bool
  pub trip_with_ongoing_trip_distance_dropped : Bool
  pub client_data : List (ℕ × BatchingCallbacks)
  pub is_engine_capabilities_known : Bool
  pub pending_msgs : List Message
  pub pending_gnss_enabled_msgs : List Message

-- The requests to the LocApi, each with what the handler of its answer has captured.
pub data Request : Type 0 where
  start_batching_request :
      (client id : ℕ) (options : BatchingOptions) (has_pending_msg : Bool) → Request
  stop_batching_request :
      (client id : ℕ) (old : BatchingOptions) (restart_needed : Bool) (options : BatchingOptions)
      → Request
  start_trip_request : (client id : ℕ) (options : BatchingOptions) → Request
  query_new_trip_request : (client id : ℕ) (options : BatchingOptions) → Request
  restart_new_trip_request : (client id distance interval : ℕ) → Request
  stop_trip_request : (client id : ℕ) (restart_needed : Bool) (options : BatchingOptions) → Request
  query_restart_request :
      (query_accumulated_distance : Bool) (min_remaining min_tbf acc_dist : ℕ) → Request
  restart_trips_request : (accumulated distance interval : ℕ) → Request
  get_trip_locations_request get_locations_request : (client id count : ℕ) → Request
  restart_session_request : (id : ℕ) (options : BatchingOptions) → Request
  restart_sessions_trip_request : (distance interval : ℕ) → Request
  stop_last_trip_request : Request

-- What the adapter does to the world: it registers for the event that a batch is full or gives that up,
-- asks the LocApi, answers a client, reports trips or sends a message to itself.
pub data Output : Type 0 where
  batch_full_event : (enabled : Bool) → Output
  ask : Request → Output
  response : (client : ℕ) (err : LocationError) (id : ℕ) → Output
  trips_completed : (client : ℕ) (ids : List ℕ) → Output
  send_message : Message → Output
