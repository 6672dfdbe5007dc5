-- ===== src/Agps/Examples.antt =====
-- Tests of the AGPS model, and its theorems at concrete inputs.
use android_device_xiaomi_ms.Base.{◌≡◌, refl, true, false, none, some, [], ◌∷◌, arith}
use android_device_xiaomi_ms.Agps.Types.{
  AgpsState, AgpsEvent, AgpsExtType, AgpsStateMachine, AgpsSubscriber, entry, dangling,
  release_agps_data_conn, atl_close_status, framework_status, request_agps_data_conn,
  atl_open_status,
}
use android_device_xiaomi_ms.Agps.Machine.{new_state_machine}
use android_device_xiaomi_ms.Agps.Events.{process_agps_event}
use android_device_xiaomi_ms.Agps.Outcome.{Outcome}
use android_device_xiaomi_ms.Agps.Invariant.{Inv, Returns, new_state_machine-Inv}
use android_device_xiaomi_ms.Agps.Service.{IsServing, process_agps_event-IsServing}
use android_device_xiaomi_ms.Agps.Connection.{conn_calls, due_calls, process_agps_event-conn_calls}
use android_device_xiaomi_ms.Agps.Endings.{
  is_registered, TellsLeavers, process_agps_event-TellsLeavers,
}
use android_device_xiaomi_ms.Agps.Manager.{
  AgpsManager, GpsConf, get_nif, set_nif, get_agps_state_machine, request_from,
}
use android_device_xiaomi_ms.Agps.History.{
  request, release, open_success, closed, modem_ssr, Succeeds,
}
use android_device_xiaomi_ms.Agps.Runs.{run, run-Succeeds}
use android_device_xiaomi_ms.Agps.Requests.{request_while_releasing_lost, session_lifecycle}

abbrev alice : AgpsSubscriber
alice = record {
  conn_handle = 7;
  wait_for_close_complete = true;
  is_inactive = false;
  apn_type_mask = 16;
}

abbrev bob : AgpsSubscriber
bob = record {
  conn_handle = 8;
  wait_for_close_complete = true;
  is_inactive = true;
  apn_type_mask = 16;
}

-- Two subscribers share a connection; the second has left.
abbrev shared : AgpsStateMachine
shared = record {
  subscriber_list = alice ∷ bob ∷ [];
  current_subscriber = entry 0;
  state = AgpsState.acquired;
  agps_type = AgpsExtType.supl;
  apn_type_mask = 16;
  apn = some (b'a' ∷ []);
  apn_len = 1;
  bearer = 1;
}

shared-Inv : Inv shared
shared-Inv = record {
  good = record { distinct = ((omega arith, tt), (tt, tt)); waits = (refl, (refl, tt)) };
  idle = λ e. cc;
  valid = λ e. cc;
}

abbrev closing : AgpsStateMachine
closing = record shared { state = AgpsState.releasing }

closing-Inv : Inv closing
closing-Inv = record { good = shared-Inv.good; idle = λ e. cc; valid = λ e. cc }

process_agps_event-IsServing_example :
    Returns IsServing (process_agps_event AgpsEvent.released closing)
process_agps_event-IsServing_example =
    process_agps_event-IsServing AgpsEvent.released closing closing-Inv tt refl

process_agps_event-conn_calls_example :
    (q : Outcome) × (process_agps_event AgpsEvent.released closing ≡ some q)
    × (conn_calls q.1 ≡ due_calls AgpsState.releasing q.0.state)
process_agps_event-conn_calls_example =
    process_agps_event-conn_calls AgpsEvent.released closing closing-Inv tt

process_agps_event-TellsLeavers_example :
    (q : Outcome) × (process_agps_event AgpsEvent.released closing ≡ some q)
    × TellsLeavers 8 closing q
process_agps_event-TellsLeavers_example =
    process_agps_event-TellsLeavers 8 AgpsEvent.released closing closing-Inv tt

abbrev conf : GpsConf
conf = record { capabilities = 4; use_emergency_pdn_for_emergency_supl = 0 }

abbrev both : AgpsManager
both = record {
  agnss_nif = some closing;
  internet_nif = some (new_state_machine 0 AgpsExtType.wwan_any);
}

run-Succeeds_example :
    Succeeds (run conf (request 9 AgpsExtType.supl_es 512 ∷ modem_ssr ∷ release 9 ∷ []) both)
run-Succeeds_example =
    run-Succeeds conf (request 9 AgpsExtType.supl_es 512 ∷ modem_ssr ∷ release 9 ∷ []) both
      ((λ e. cc), (λ e. cc))
      (record {
        agnss_good = closing-Inv;
        internet_good = new_state_machine-Inv 0 AgpsExtType.wwan_any;
      })

abbrev empty_manager : AgpsManager
empty_manager = record { agnss_nif = none; internet_nif = none }

request_while_releasing_lost_example :
    let after = record closing { current_subscriber = dangling } in
    (request_from 8 AgpsExtType.supl 16 both ≡ some (record both { agnss_nif = some after }, []))
    × (q : Outcome) × (process_agps_event AgpsEvent.released after ≡ some q)
    × (is_registered 8 q.0.subscriber_list ≡ false)
unfolding get_nif get_agps_state_machine set_nif
request_while_releasing_lost_example =
    request_while_releasing_lost 8 AgpsExtType.supl 16 both closing refl refl refl

session_lifecycle_example :
    run conf
      (request 5 AgpsExtType.supl 16
        ∷ open_success AgpsExtType.supl (some (b'x' ∷ [])) 1 2
        ∷ release 5
        ∷ closed AgpsExtType.supl
        ∷ [])
      (record {
        agnss_nif = some (record shared { subscriber_list = []; state = AgpsState.released });
        internet_nif = none;
      })
    ≡ some (
      record {
        agnss_nif = some (record {
          subscriber_list = [];
          current_subscriber = dangling;
          state = AgpsState.released;
          agps_type = AgpsExtType.supl;
          apn_type_mask = 16;
          apn = some (b'x' ∷ []);
          apn_len = 1;
          bearer = 2;
        });
        internet_nif = none;
      },
      framework_status AgpsExtType.supl 16 request_agps_data_conn
          ∷ atl_open_status 5 1 (some (b'x' ∷ [])) 1 2 AgpsExtType.supl 16
          ∷ framework_status AgpsExtType.supl 16 release_agps_data_conn
          ∷ atl_close_status 5 1
          ∷ [],
    )
session_lifecycle_example = session_lifecycle conf 5 16 2 (b'x' ∷ []) shared none (omega arith)
