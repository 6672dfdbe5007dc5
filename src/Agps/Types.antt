-- ===== src/Agps/Types.antt =====
-- The data of gps/gnss/Agps.h. A handle, a type mask and a bearer are their bit patterns; a `char *`
-- is the bytes before its terminator, or nothing for NULL.
use android_device_xiaomi_ms.Base.{ℕ, Bool, Option, List}

pub data AgpsState : Type 0 where
  invalid released pending acquired releasing : AgpsState

pub data AgpsEvent : Type 0 where
  invalid subscribe unsubscribe granted released denied : AgpsEvent

pub data AgpsNotificationType : Type 0 where
  invalid for_all_subscribers for_inactive_subscribers for_active_subscribers : AgpsNotificationType

-- The `LOC_AGPS_TYPE_*` constants; any other code is `other`.
pub data AgpsExtType : Type 0 where
  invalid any supl c2k wwan_any wifi supl_es : AgpsExtType
  other : ℕ → AgpsExtType

-- `LOC_GPS_REQUEST_AGPS_DATA_CONN` and `LOC_GPS_RELEASE_AGPS_DATA_CONN`.
pub data DataConnStatus : Type 0 where
  request_agps_data_conn release_agps_data_conn : DataConnStatus

pub record AgpsSubscriber : Type 0 where
  pub conn_handle : ℕ
  pub wait_for_close_complete : Bool
  pub is_inactive : Bool
  pub apn_type_mask : ℕ

-- What `mCurrentSubscriber` points to: nothing, a variable of the caller, the entry of the
-- subscriber list at a position, or memory that is no longer there.
pub data SubscriberPointer : Type 0 where
  null dangling : SubscriberPointer
  outside : AgpsSubscriber → SubscriberPointer
  entry : ℕ → SubscriberPointer

pub record AgpsStateMachine : Type 0 where
  pub subscriber_list : List AgpsSubscriber
  pub current_subscriber : SubscriberPointer
  pub state : AgpsState
  pub agps_type : AgpsExtType
  pub apn_type_mask : ℕ
  pub apn : Option (List ℕ)
  pub apn_len : ℕ
  pub bearer : ℕ

-- The calls of the three callbacks, with their arguments.
pub data Signal : Type 0 where
  atl_open_status :
      (handle is_success : ℕ) (apn : Option (List ℕ)) (apn_len bearer : ℕ) (agps_type : AgpsExtType)
      (mask : ℕ)
      → Signal
  atl_close_status : (handle is_success : ℕ) → Signal
  framework_status : (agps_type : AgpsExtType) (mask : ℕ) (status : DataConnStatus) → Signal
