-- ===== src/Agps/Requests.antt =====
-- What one client of the AGPS manager sees: the life of its connection, and the requests that get no
-- answer.
use android_device_xiaomi_ms.Base.{
  leb, ◌&&◌, if◌then◌else◌, ℕ, ◌≡◌, ◌≤◌, refl, true, false, Option, none, some, List, [], ◌∷◌,
  arith, length, ◌==◌, ltb, Bool, any, filter, not, ap, ◌∙◌, if_both,
}
use android_device_xiaomi_ms.Agps.Types.{
  AgpsState, AgpsEvent, AgpsExtType, AgpsStateMachine, AgpsSubscriber, atl_open_status,
  atl_close_status, framework_status, request_agps_data_conn, release_agps_data_conn, dangling,
  outside,
}
use android_device_xiaomi_ms.Agps.Subscribers.{contains, add_subscriber, any_active_subscribers}
use android_device_xiaomi_ms.Agps.Machine.{set_apn, max_apn_len, notify_loop}
use android_device_xiaomi_ms.Agps.Events.{process_released, process_agps_event}
use android_device_xiaomi_ms.Agps.Endings.{is_registered}
use android_device_xiaomi_ms.Agps.Manager.{
  AgpsManager, GpsConf, get_nif, set_nif, get_agps_state_machine, request_from,
}
use android_device_xiaomi_ms.Agps.History.{
  new_subscriber, request, release, open_success, closed, perform,
}
use android_device_xiaomi_ms.Agps.Runs.{run}
use android_device_xiaomi_ms.Agps.Outcome.{
  Outcome, close_outcome, subscribe_lem, process_released_lem,
}

contains_registered :
    (s : AgpsSubscriber) (xs : List AgpsSubscriber) → contains s xs ≡ is_registered s.conn_handle xs
unfolding contains
contains_registered s [] = refl
contains_registered s (x ∷ xs) = ground (arith, contains_registered s xs)

-- Is there a subscriber with the handle that has not left?
abbrev pub is_active_handle : ℕ → List AgpsSubscriber → Bool
is_active_handle h = any (λ s. s.conn_handle == h && not s.is_inactive)

active_registered :
    (h : ℕ) (xs : List AgpsSubscriber)
    → is_registered h (filter (λ s. not s.is_inactive) xs) ≡ is_active_handle h xs
active_registered h [] = refl
active_registered h (x ∷ xs) = ground (arith, active_registered h xs)

-- The next close while the connection is being released.
closed_next :
    (h : ℕ) (m : AgpsStateMachine)
    → m.state ≡ AgpsState.releasing
    → (q : Outcome) × (process_agps_event AgpsEvent.released m ≡ some q)
      × (is_registered h q.0.subscriber_list ≡ is_active_handle h m.subscriber_list)
unfolding process_agps_event
closed_next h m st =
    let ran =
      ap (λ (k : AgpsState). process_released k m) st
      ∙ process_released_lem AgpsState.releasing m in
    (
      close_outcome m,
      ran,
      if_both
          (λ (q : Outcome).
            is_registered h q.0.subscriber_list ≡ is_active_handle h m.subscriber_list)
          (any_active_subscribers (filter (λ s. not s.is_inactive) m.subscriber_list))
          (active_registered h m.subscriber_list) (active_registered h m.subscriber_list),
    )

-- While the connection is being released, a request for a handle that is still in the list is lost:
-- no callback is made, and the list and the state stay as they were; and when the machine then handles
-- the close of the connection, the handle is in the list exactly if an entry of it was active before the
-- request, so one whose entries had all left is in it no more.
pub request_while_releasing_lost :
    (h : ℕ) (t : AgpsExtType) (mask : ℕ) (mgr : AgpsManager) (m : AgpsStateMachine)
    → get_nif (get_agps_state_machine t) mgr ≡ some m
    → m.state ≡ AgpsState.releasing
    → is_registered h m.subscriber_list ≡ true
    → let after = record m { agps_type = t; apn_type_mask = mask; current_subscriber = dangling } in
      (request_from h t mask mgr ≡ some (set_nif (get_agps_state_machine t) after mgr, []))
      × (q : Outcome) × (process_agps_event AgpsEvent.released after ≡ some q)
      × (is_registered h q.0.subscriber_list ≡ is_active_handle h m.subscriber_list)
unfolding request_from add_subscriber
request_while_releasing_lost h t mask mgr m there st known =
    let s = new_subscriber h mask in
    let ready = record m { agps_type = t; apn_type_mask = mask; current_subscriber = outside s } in
    let same : add_subscriber s m.subscriber_list ≡ m.subscriber_list =
      ground (arith, contains_registered s m.subscriber_list) in
    let ran : process_agps_event AgpsEvent.subscribe ready
        ≡ some (record ready { subscriber_list = add_subscriber s m.subscriber_list }, []) =
      subscribe_lem AgpsState.releasing ready s st refl in
    let after = record m { agps_type = t; apn_type_mask = mask; current_subscriber = dangling } in
    let (q, closed_now, left) = closed_next h after st in
    (rw (there, request_from) (rw (ran, request_from) (rw same refl)), q, closed_now, left)

-- A machine with nothing to do.
abbrev idle : AgpsStateMachine → AgpsStateMachine
idle m = record m { subscriber_list = []; state = AgpsState.released }

-- After `setAPN` either there is no APN, of length 0, or the length is that of the bytes and at most
-- MAX_APN_LEN.
abbrev pub HasGoodApn : AgpsStateMachine → Type 0
HasGoodApn m = elim m.apn [
  | none ↦ m.apn_len ≡ 0
  | some bytes ↦ (length bytes ≡ m.apn_len) × (m.apn_len ≤ max_apn_len)
]

-- From a machine with no subscriber in the state RELEASED, one session runs to its end: a SUPL request,
-- the report of success with an APN of at most MAX_APN_LEN bytes, the release and the report of the
-- close ask for the connection, tell the handle of the APN, give the connection up and tell the handle
-- of the close, in this order, and leave the machine with no subscriber in the state RELEASED.
pub session_lifecycle :
    (conf : GpsConf) (h mask bearer : ℕ) (bytes : List ℕ) (m : AgpsStateMachine)
    (o : Option AgpsStateMachine)
    → length bytes ≤ max_apn_len
    → run conf
        (request h AgpsExtType.supl mask
          ∷ open_success AgpsExtType.supl (some bytes) (length bytes) bearer
          ∷ release h
          ∷ closed AgpsExtType.supl
          ∷ [])
        (record { agnss_nif = some (idle m); internet_nif = o })
      ≡ some (
        record {
          agnss_nif = some (record (idle m) {
            agps_type = AgpsExtType.supl;
            apn_type_mask = mask;
            apn = some bytes;
            apn_len = length bytes;
            bearer = bearer;
            current_subscriber = dangling;
          });
          internet_nif = o;
        },
        framework_status AgpsExtType.supl mask request_agps_data_conn
            ∷ atl_open_status h 1 (some bytes) (length bytes) bearer AgpsExtType.supl mask
            ∷ framework_status AgpsExtType.supl mask release_agps_data_conn
            ∷ atl_close_status h 1
            ∷ [],
      )
unfolding run perform process_agps_event notify_loop
session_lifecycle conf h mask bearer bytes m o len =
    let short : ltb max_apn_len (length bytes) ≡ false = ground arith in
    let exact : (length bytes == length bytes) ≡ true = ground arith in
    let self : (h == h) ≡ true = ground arith in ground arith

-- Whatever APN the framework reports, the machine then holds a well-formed one or none, and it holds the
-- reported one exactly if its length is the stated one and that is at most MAX_APN_LEN.
pub set_apn-HasGoodApn :
    (bytes : List ℕ) (len : ℕ) (m : AgpsStateMachine)
    → HasGoodApn (set_apn (some bytes) len m)
      × HasGoodApn (set_apn none len m)
      × ((set_apn (some bytes) len m).apn
          ≡ (if length bytes == len && leb len max_apn_len then some bytes else none))
unfolding set_apn
set_apn-HasGoodApn bytes len m = (ground arith, refl, ground arith)
