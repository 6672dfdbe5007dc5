-- ===== src/Geofence/Types.antt =====
-- The data of gps/geofence/GeofenceAdapter.h. A client is the address of its `LocationAPI`, a double is
-- its bit pattern, since the adapter only copies it.
use android_device_xiaomi_ms.Base.{
  ℕ, ◌≡◌, ◌↔◌, Bool, true, ◌&&◌, ◌||◌, List, arith, ◌==◌, ltb, MapKey, nat_key,
}

pub record GeofenceKey : Type 0 where
  pub client : ℕ
  pub id : ℕ

-- `operator ==` and `operator <`.
unfoldable pub key_eq : GeofenceKey → GeofenceKey → Bool
key_eq left right = left.id == right.id && left.client == right.client

unfoldable pub key_lt : GeofenceKey → GeofenceKey → Bool
key_lt left right = ltb left.id right.id || (left.id == right.id && ltb left.client right.client)

pub key_eq_iff : (a b : GeofenceKey) → (key_eq a b ≡ true) ↔ (a ≡ b)
unfolding key_eq
key_eq_iff a b = (λ e. ground arith, λ e. ground arith)

instance abbrev pub geofence_key : MapKey GeofenceKey
geofence_key = record { eq = key_eq; lt = key_lt; eq_iff = key_eq_iff }

-- The fields of `GeofenceOption` and of `GeofenceInfo` that the adapter reads.
pub record GeofenceOption : Type 0 where
  pub breach_type_mask : ℕ
  pub responsiveness : ℕ
  pub dwell_time : ℕ

pub record GeofenceInfo : Type 0 where
  pub latitude : ℕ
  pub longitude : ℕ
  pub radius : ℕ

pub record GeofenceObject : Type 0 where
  pub key : GeofenceKey
  pub breach_mask : ℕ
  pub responsiveness : ℕ
  pub dwell_time : ℕ
  pub latitude : ℕ
  pub longitude : ℕ
  pub radius : ℕ
  pub paused : Bool

-- Which of a client's callbacks are set.
pub record ClientCallbacks : Type 0 where
  pub geofence_breach_cb : Bool
  pub geofence_status_cb : Bool
  pub collective_response_cb : Bool

pub record GeofenceAdapter : Type 0 where
  pub geofences : List (ℕ × GeofenceObject)
  pub geofence_ids : List (GeofenceKey × ℕ)
  pub client_data : List (ℕ × ClientCallbacks)
  pub session_id_counter : ℕ
