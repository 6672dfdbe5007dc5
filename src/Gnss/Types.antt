-- ===== src/Gnss/Types.antt =====
-- The data of tracking in gps/gnss/GnssAdapter.h and gps/location/LocationDataTypes.h. A client is the
-- address of its `LocationAPI`; a power mode is its code, 0 for an invalid one.
use android_device_xiaomi_ms.Base.{ℕ, Bool, List}
use android_device_xiaomi_ms.Core.{LocationError, SessionKey}
use android_device_xiaomi_ms.Location.Types.{LocationCallbacks}

pub data GnssSuplMode : Type 0 where
  standalone msb msa : GnssSuplMode

pub record LocationOptions : Type 0 where
  pub size : ℕ
  pub min_interval : ℕ
  pub min_distance : ℕ
  pub mode : GnssSuplMode
  pub loc_req_eng_type_mask : ℕ

pub record TrackingOptions : Type 0 where
  pub size : ℕ
  pub min_interval : ℕ
  pub min_distance : ℕ
  pub mode : GnssSuplMode
  pub loc_req_eng_type_mask : ℕ
  pub power_mode : ℕ
  pub tbm : ℕ

pub data LocPositionMode : Type 0 where
  standalone_mode ms_based ms_assisted : LocPositionMode

-- The fields of `LocPosMode` that tracking sets.
pub record LocPosMode : Type 0 where
  pub mode : LocPositionMode
  pub min_interval : ℕ
  pub power_mode : ℕ
  pub time_between_measurements : ℕ

-- The messages that wait until the engine is known.
pub data Message : Type 0 where
  start_tracking_message update_tracking_message :
      (client id : ℕ) (options : TrackingOptions) → Message

pub record GnssAdapter : Type 0 where
  pub time_based_tracking_sessions : List (SessionKey × TrackingOptions)
  pub distance_based_tracking_sessions : List (SessionKey × LocationOptions)
  pub nhz_needed : Bool
  pub spe_already_running_at_highest_interval : Bool
  pub loc_position_mode : LocPosMode
  pub power_on : Bool
  pub has_power_state_cb : Bool
  pub client_data : List (ℕ × LocationCallbacks)
  pub is_engine_capabilities_known : Bool
  pub pending_msgs : List Message

-- What handles the LocApi's answer to a request.
pub data Handler : Type 0 where
  no_handler : Handler
  time_started time_stopped : (client id : ℕ) → Handler
  time_updated : (client id : ℕ) (old : TrackingOptions) → Handler
  distance_started distance_stopped client_distance_stopped : (client id : ℕ) → Handler
  distance_to_time distance_to_restart distance_restarted :
      (client id : ℕ) (options : TrackingOptions) → Handler

-- What the adapter does to the world: requests to the LocApi, calls of the engine hub and of the parts
-- that deal with NMEA and DGNSS, and the callbacks.
pub data Output : Type 0 where
  start_time_based_tracking : TrackingOptions → Handler → Output
  stop_fix : Handler → Output
  start_distance_based_tracking : (id : ℕ) → LocationOptions → Handler → Output
  stop_distance_based_tracking : (id : ℕ) → Handler → Output
  hub_start_fix : LocPosMode → Output
  hub_stop_fix reset_nmea_time check_update_dgnss_ntrip stop_dgnss_ntrip : Output
  power_state : Bool → Output
  response : (client : ℕ) (err : LocationError) (id : ℕ) → Output
