-- ===== src/Agps/Manager.antt =====
-- `AgpsManager` (gps/gnss/Agps.h and gps/gnss/Agps.cpp). A method gives nothing where it calls a
-- method on a NULL state machine.
use android_device_xiaomi_ms.Base.{
  ℕ, Bool, true, false, not, ◌&&◌, ◌||◌, Option, none, some, List, [], ◌∷◌, ◌==◌, if◌then◌else◌,
}
use android_device_xiaomi_ms.Agps.Types.{
  AgpsEvent, AgpsExtType, AgpsStateMachine, Signal, outside, entry, dangling, atl_open_status,
}
use android_device_xiaomi_ms.Agps.Subscribers.{get_subscriber}
use android_device_xiaomi_ms.Agps.Machine.{new_state_machine, set_apn, forget_entry}
use android_device_xiaomi_ms.Agps.Events.{process_agps_event}
use mathlib.Core.Option
use Prim.Native.Nat.{bit_and, bit_or}

-- `mAgnssNif` and `mInternetNif`; `none` is NULL.
pub record AgpsManager : Type 0 where
  pub agnss_nif : Option AgpsStateMachine
  pub internet_nif : Option AgpsStateMachine

-- What the manager reads of `ContextBase::mGps_conf`.
pub record GpsConf : Type 0 where
  pub capabilities : ℕ
  pub use_emergency_pdn_for_emergency_supl : ℕ

pub data Nif : Type 0 where
  agnss internet : Nif

unfoldable pub get_nif : Nif → AgpsManager → Option AgpsStateMachine
get_nif agnss mgr = mgr.agnss_nif
get_nif internet mgr = mgr.internet_nif

unfoldable pub set_nif : Nif → AgpsStateMachine → AgpsManager → AgpsManager
set_nif agnss m mgr = record mgr { agnss_nif = some m }
set_nif internet m mgr = record mgr { internet_nif = some m }

abbrev has_bit : ℕ → ℕ → Bool
has_bit mask bit = not (bit_and mask bit == 0)

-- `LOC_GPS_CAPABILITY_MSB` and `LOC_GPS_CAPABILITY_MSA`.
unfoldable pub is_agps_capable : GpsConf → Bool
is_agps_capable conf = has_bit conf.capabilities 4 || has_bit conf.capabilities 2

abbrev is_null {ℓ} : {A : Type ℓ} → Option A → Bool
is_null none = true
is_null (some a) = false

-- `createAgpsStateMachines`: `atl_type` has the bits SUPL (1), SUPL_ES (2) and WWAN (4).
unfoldable pub create_agps_state_machines : GpsConf → ℕ → ℕ → AgpsManager → AgpsManager
unfolding is_agps_capable new_state_machine
create_agps_state_machines conf atl_type stale_mask mgr = record {
  agnss_nif =
      if is_agps_capable conf
        && (is_null mgr.agnss_nif && (has_bit atl_type 1 && has_bit atl_type 2))
      then some (new_state_machine stale_mask AgpsExtType.supl)
      else mgr.agnss_nif;
  internet_nif =
      if is_null mgr.internet_nif && has_bit atl_type 4
      then some (new_state_machine stale_mask AgpsExtType.wwan_any)
      else mgr.internet_nif;
}

-- `getAgpsStateMachine`: the member that it returns.
unfoldable pub get_agps_state_machine : AgpsExtType → Nif
get_agps_state_machine AgpsExtType.invalid = agnss
get_agps_state_machine AgpsExtType.supl = agnss
get_agps_state_machine AgpsExtType.supl_es = agnss
get_agps_state_machine _ = internet

-- Hands the event to a state machine and puts the machine back.
unfoldable pub dispatch :
    Nif → AgpsEvent → AgpsStateMachine → AgpsManager → Option (AgpsManager × List Signal)
dispatch nif event m mgr = Option.map (λ r. (set_nif nif r.0 mgr, r.1)) (process_agps_event event m)

-- `apnTypeMask &= ~EMERGENCY; apnTypeMask |= SUPL` on 32 bits.
unfoldable pub to_supl_mask : ℕ → ℕ
to_supl_mask mask = bit_or (bit_and mask 0xfffffdff) 0x10

-- The type and the mask for which `requestATL` really asks.
unfoldable pub effective_request : GpsConf → AgpsExtType → ℕ → AgpsExtType × ℕ
unfolding to_supl_mask
effective_request conf AgpsExtType.supl_es mask =
    if conf.use_emergency_pdn_for_emergency_supl == 0
    then (AgpsExtType.supl, to_supl_mask mask)
    else (AgpsExtType.supl_es, mask)
effective_request conf type mask = (type, mask)

-- `requestATL` from `getAgpsStateMachine` on. The subscriber is a local variable, so the pointer to it
-- dangles on return.
unfoldable pub request_from : ℕ → AgpsExtType → ℕ → AgpsManager → Option (AgpsManager × List Signal)
unfolding get_agps_state_machine get_nif set_nif
request_from handle type mask mgr = elim (get_nif (get_agps_state_machine type) mgr) [
  | none ↦ some (mgr, atl_open_status handle 0 none 0 0 type mask ∷ [])
  | some m ↦
      Option.map
        (λ r. (
          set_nif (get_agps_state_machine type) (record r.0 { current_subscriber = dangling }) mgr,
          r.1,
        ))
        (process_agps_event AgpsEvent.subscribe (record m {
          agps_type = type;
          apn_type_mask = mask;
          current_subscriber = outside (record {
            conn_handle = handle;
            wait_for_close_complete = true;
            is_inactive = false;
            apn_type_mask = mask;
          });
        }))
]

unfoldable pub request_atl :
    GpsConf → ℕ → AgpsExtType → ℕ → AgpsManager → Option (AgpsManager × List Signal)
unfolding effective_request request_from
request_atl conf handle type mask mgr =
    let (type', mask') = effective_request conf type mask in request_from handle type' mask' mgr

-- A state machine, where it is there and has a subscriber with the handle, and its position.
unfoldable pub find_in : ℕ → Option AgpsStateMachine → Option (AgpsStateMachine × ℕ)
unfolding get_subscriber
find_in handle none = none
find_in handle (some m) = Option.map (λ i. (m, i)) (get_subscriber handle m.subscriber_list)

unfoldable pub unsubscribe_at :
    Nif → AgpsStateMachine → ℕ → AgpsManager → Option (AgpsManager × List Signal)
unfolding dispatch set_nif
unsubscribe_at nif m i mgr =
    dispatch nif AgpsEvent.unsubscribe (record m { current_subscriber = entry i }) mgr

unfoldable pub release_atl : ℕ → AgpsManager → Option (AgpsManager × List Signal)
unfolding find_in unsubscribe_at
release_atl handle mgr = elim (find_in handle mgr.agnss_nif) [
  | some (m, i) ↦ unsubscribe_at agnss m i mgr
  | none ↦ elim (find_in handle mgr.internet_nif) [
    | some (m, i) ↦ unsubscribe_at internet m i mgr
    | none ↦ some (mgr, [])
  ]
]

-- The reports of the framework share this: the machine for the type is changed by `prepare` and
-- given the event.
unfoldable pub report :
    AgpsExtType
    → (AgpsStateMachine → AgpsStateMachine)
    → AgpsEvent
    → AgpsManager
    → Option (AgpsManager × List Signal)
unfolding get_agps_state_machine get_nif dispatch set_nif
report type prepare event mgr = elim (get_nif (get_agps_state_machine type) mgr) [
  | none ↦ none
  | some m ↦ dispatch (get_agps_state_machine type) event (prepare m) mgr
]

unfoldable pub report_atl_open_success :
    AgpsExtType → Option (List ℕ) → ℕ → ℕ → AgpsManager → Option (AgpsManager × List Signal)
unfolding report set_apn
report_atl_open_success type apn apn_len bearer_type =
    report type (λ m. set_apn apn apn_len (record m { bearer = bearer_type })) AgpsEvent.granted

unfoldable pub report_atl_open_failed :
    AgpsExtType → AgpsManager → Option (AgpsManager × List Signal)
unfolding report
report_atl_open_failed type = report type (λ m. m) AgpsEvent.denied

unfoldable pub report_atl_closed : AgpsExtType → AgpsManager → Option (AgpsManager × List Signal)
unfolding report
report_atl_closed type = report type (λ m. m) AgpsEvent.released

-- `dropAllSubscribers`.
unfoldable pub drop_all_subscribers : AgpsStateMachine → AgpsStateMachine
unfolding forget_entry
drop_all_subscribers m = record m {
  subscriber_list = [];
  current_subscriber = forget_entry m.current_subscriber;
}

unfoldable pub handle_modem_ssr : AgpsManager → AgpsManager
unfolding drop_all_subscribers
handle_modem_ssr mgr = record {
  agnss_nif = Option.map drop_all_subscribers mgr.agnss_nif;
  internet_nif = Option.map drop_all_subscribers mgr.internet_nif;
}
