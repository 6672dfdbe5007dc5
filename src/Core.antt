-- ===== src/Core.antt =====
-- What the adapters share: the errors of gps/location/LocationDataTypes.h, the lock of the engine in
-- gps/utils/gps_extended_c.h, the session ids and keys of gps/core/LocAdapterBase.h and
-- gps/core/LocAdapterBase.cpp, and arithmetic on 32 bits.
use android_device_xiaomi_ms.Base.{
  ℕ, ◌+◌, ◌-◌, ◌%◌, ◌≡◌, ◌↔◌, Bool, true, false, ◌&&◌, ◌||◌, arith, ◌==◌, ltb, MapKey,
  if◌then◌else◌,
}

pub data LocationError : Type 0 where
  success general_failure callback_missing invalid_parameter id_exists id_unknown already_started :
      LocationError
  geofences_at_max not_supported timeout gnss_disabled : LocationError

abbrev pub is_success : LocationError → Bool
is_success LocationError.success = true
is_success _ = false

pub data EngineLockState : Type 0 where
  invalid enabled disabled : EngineLockState

abbrev pub is_enabled : EngineLockState → Bool
is_enabled EngineLockState.enabled = true
is_enabled _ = false

abbrev pub is_disabled : EngineLockState → Bool
is_disabled EngineLockState.disabled = true
is_disabled _ = false

-- `LocAdapterBase::generateSessionId`: the new counter, which is the id.
unfoldable pub generate_session_id : ℕ → ℕ
generate_session_id counter =
    if (counter + 1) % 4294967296 == 4294967295 then 1 else (counter + 1) % 4294967296

-- `LocationSessionKey` with its `operator ==` and `operator <`.
pub record SessionKey : Type 0 where
  pub client : ℕ
  pub id : ℕ

unfoldable pub session_key_eq : SessionKey → SessionKey → Bool
session_key_eq left right = left.id == right.id && left.client == right.client

unfoldable pub session_key_lt : SessionKey → SessionKey → Bool
session_key_lt left right =
    ltb left.id right.id || (left.id == right.id && ltb left.client right.client)

pub session_key_eq_iff : (a b : SessionKey) → (session_key_eq a b ≡ true) ↔ (a ≡ b)
unfolding session_key_eq
session_key_eq_iff a b = (λ e. ground arith, λ e. ground arith)

instance abbrev pub session_key : MapKey SessionKey
session_key = record { eq = session_key_eq; lt = session_key_lt; eq_iff = session_key_eq_iff }

-- Addition and subtraction of `uint32_t`.
unfoldable pub add32 : ℕ → ℕ → ℕ
add32 a b = (a + b) % 4294967296

unfoldable pub sub32 : ℕ → ℕ → ℕ
sub32 a b = (a + 4294967296 - b) % 4294967296
