-- ===== src/Location/Types.antt =====
-- The data of gps/location/LocationAPI.cpp and the callbacks of gps/location/LocationDataTypes.h.
use android_device_xiaomi_ms.Base.{ℕ, Bool, Option, List}

-- Which callbacks are set.
pub record LocationCallbacks : Type 0 where
  pub capabilities_cb : Bool
  pub response_cb : Bool
  pub collective_response_cb : Bool
  pub tracking_cb : Bool
  pub batching_cb : Bool
  pub geofence_breach_cb : Bool
  pub geofence_status_cb : Bool
  pub gnss_location_info_cb : Bool
  pub gnss_ni_cb : Bool
  pub gnss_sv_cb : Bool
  pub gnss_nmea_cb : Bool
  pub gnss_data_cb : Bool
  pub gnss_measurements_cb : Bool
  pub batching_status_cb : Bool
  pub location_system_info_cb : Bool
  pub engine_locations_info_cb : Bool

-- The bits of `LocationAdapterTypeBits`.
pub data AdapterType : Type 0 where
  gnss_type batching_type geofence_type : AdapterType

-- One value for each adapter; with Booleans, a mask of adapters.
pub record Adapters {ℓ} (A : Type ℓ) : Type ℓ where
  pub gnss : A
  pub batching : A
  pub geofence : A

abbrev pub at {ℓ} : {A : Type ℓ} → AdapterType → Adapters A → A
at AdapterType.gnss_type x = x.gnss
at AdapterType.batching_type x = x.batching
at AdapterType.geofence_type x = x.geofence

abbrev pub set_at {ℓ} : {A : Type ℓ} → AdapterType → A → Adapters A → Adapters A
set_at AdapterType.gnss_type v x = record x { gnss = v }
set_at AdapterType.batching_type v x = record x { batching = v }
set_at AdapterType.geofence_type v x = record x { geofence = v }

-- The pointer to an adapter's table of functions, which is NULL until it is loaded, and the flag that says
-- that its library failed to load.
pub record Interface : Type 0 where
  pub is_loaded : Bool
  pub load_failed : Bool

-- `LocationAPIDestroyCbData`: the callback is empty where it is `none`.
pub record DestroyCbData : Type 0 where
  pub wait_adapter_mask : Adapters Bool
  pub destroy_complete_cb : Option ℕ

-- `LocationAPIData` with the other variables of the file. A client is the address of its `LocationAPI`.
pub record LocationApiData : Type 0 where
  pub client_data : List (ℕ × LocationCallbacks)
  pub destroy_client_data : List (ℕ × DestroyCbData)
  pub interfaces : Adapters Interface
  pub os_framework_ref_count : ℕ

-- What is called: the framework's library, the adapters' tables, the callback of a client that is
-- destroyed (a call of an empty one throws), and the deletion of a client.
pub data Output : Type 0 where
  create_os_framework destroy_os_framework : Output
  initialize : AdapterType → Output
  add_client : AdapterType → (client : ℕ) → LocationCallbacks → Output
  request_capabilities : AdapterType → (client : ℕ) → Output
  remove_client : AdapterType → (client : ℕ) → Output
  start_tracking_call start_batching_call : (client : ℕ) → Output
  stop_tracking_call stop_batching_call update_tracking_call update_batching_call :
      (client id : ℕ) → Output
  get_batched_call : (client id count : ℕ) → Output
  destroy_complete : (client : ℕ) → Option ℕ → Output
  delete_client : (client : ℕ) → Output
