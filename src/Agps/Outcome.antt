-- ===== src/Agps/Outcome.antt =====
-- The events of the AGPS state machine in closed form, for the subscribers that the manager makes:
-- those that wait for the close of the data connection.
use android_device_xiaomi_ms.Base.{
  ℕ, zero, suc, ◌≡◌, ◌≢◌, refl, ap, ◌∙◌, is_empty, true, false, not, some, List, [], ◌∷◌, ◌++◌,
  arith, if◌then◌else◌, filter, get_elem?, set,
}
use android_device_xiaomi_ms.Agps.Types.{
  AgpsState, AgpsEvent, AgpsNotificationType, AgpsSubscriber, AgpsStateMachine, Signal,
  DataConnStatus, outside, entry, framework_status, request_agps_data_conn, release_agps_data_conn,
}
use android_device_xiaomi_ms.Agps.Subscribers.{add_subscriber, any_active_subscribers}
use android_device_xiaomi_ms.Agps.Machine.{
  callbacks, is_meant_for, forget_entry, notify_all_subscribers,
}
use android_device_xiaomi_ms.Agps.Events.{
  process_subscribe, process_unsubscribe, process_granted, process_released, process_denied,
  process_agps_event, close_inactive,
}
use android_device_xiaomi_ms.Agps.Loops.{all_callbacks, notify_loop-fst, notify_loop-snd}

abbrev pub inactive : AgpsSubscriber → AgpsSubscriber
inactive s = record s { is_inactive = true }

-- One request or release of the data connection.
abbrev pub data_conn : AgpsStateMachine → DataConnStatus → List Signal
data_conn m status = framework_status m.agps_type m.apn_type_mask status ∷ []

abbrev pub Outcome : Type 0
Outcome = AgpsStateMachine × List Signal

abbrev pub subscribe_outcome : AgpsState → AgpsStateMachine → AgpsSubscriber → Outcome
subscribe_outcome AgpsState.released m s = (
  record m { subscriber_list = add_subscriber s m.subscriber_list; state = AgpsState.pending },
  data_conn m request_agps_data_conn,
)
subscribe_outcome AgpsState.acquired m s = (
  record m { subscriber_list = add_subscriber s m.subscriber_list },
  callbacks m AgpsEvent.granted s ++ [],
)
subscribe_outcome AgpsState.invalid m s = (m, [])
subscribe_outcome _ m s = (record m { subscriber_list = add_subscriber s m.subscriber_list }, [])

pub process_subscribe_lem :
    (st : AgpsState) (m : AgpsStateMachine) (s : AgpsSubscriber)
    → m.current_subscriber ≡ outside s
    → process_subscribe st m ≡ some (subscribe_outcome st m s)
unfolding process_subscribe
process_subscribe_lem AgpsState.released m s c = ground arith
process_subscribe_lem _ m s c = ground arith

abbrev pub unsubscribe_from : AgpsState → AgpsStateMachine → List AgpsSubscriber → Outcome
unsubscribe_from AgpsState.released m xs = (m, [])
unsubscribe_from AgpsState.invalid m xs = (m, [])
unsubscribe_from AgpsState.releasing m xs = (record m { subscriber_list = xs }, [])
unsubscribe_from _ m xs =
    if any_active_subscribers xs then (record m { subscriber_list = xs }, []) else (
      record m { subscriber_list = xs; state = AgpsState.releasing },
      data_conn m release_agps_data_conn,
    )

pub subscribe_lem :
    (st : AgpsState) (m : AgpsStateMachine) (s : AgpsSubscriber)
    → m.state ≡ st
    → m.current_subscriber ≡ outside s
    → process_agps_event AgpsEvent.subscribe m ≡ some (subscribe_outcome st m s)
unfolding process_agps_event
subscribe_lem st m s h c =
    ap (λ (k : AgpsState). process_subscribe k m) h ∙ process_subscribe_lem st m s c

set-ne-nil :
    (xs : List AgpsSubscriber) (i : ℕ) {s : AgpsSubscriber} (v : AgpsSubscriber)
    → get_elem? xs i ≡ some s
    → is_empty (set xs i v) ≡ false
set-ne-nil [] i v e = cc
set-ne-nil (x ∷ xs) zero v e = refl
set-ne-nil (x ∷ xs) (suc i) v e = refl

pub process_unsubscribe_lem :
    (st : AgpsState) (m : AgpsStateMachine) (i : ℕ) (s : AgpsSubscriber)
    → st ≢ AgpsState.released
    → m.current_subscriber ≡ entry i
    → get_elem? m.subscriber_list i ≡ some s
    → s.wait_for_close_complete ≡ true
    → process_unsubscribe st m ≡ some (unsubscribe_from st m (set m.subscriber_list i (inactive s)))
unfolding process_unsubscribe
process_unsubscribe_lem AgpsState.released m i s n c e w = absurd (n refl)
process_unsubscribe_lem _ m i s n c e w =
    ground (arith, set-ne-nil m.subscriber_list i (inactive s) e)

-- The active ones stay, the others are told that the connection is closed.
abbrev pub close_outcome : AgpsStateMachine → Outcome
close_outcome m =
    let xs = filter (λ s. not s.is_inactive) m.subscriber_list in
    let told = all_callbacks m AgpsEvent.released (filter (λ s. s.is_inactive) m.subscriber_list) in
    let kept = record m {
      subscriber_list = xs;
      current_subscriber = forget_entry m.current_subscriber;
    } in
    if any_active_subscribers xs
    then (record kept { state = AgpsState.pending }, told ++ data_conn m request_agps_data_conn)
    else (record kept { state = AgpsState.released }, told ++ [])

close_inactive_lem : (m : AgpsStateMachine) → close_inactive m ≡ some (close_outcome m)
unfolding close_inactive is_meant_for
close_inactive_lem m = ground (
  arith,
  notify_loop-fst m AgpsEvent.released true AgpsNotificationType.for_inactive_subscribers
      m.subscriber_list,
  notify_loop-snd m AgpsEvent.released true AgpsNotificationType.for_inactive_subscribers
      m.subscriber_list,
)

-- Every subscriber is told of the event, and the list is empty.
abbrev pub end_outcome : AgpsStateMachine → AgpsEvent → Outcome
end_outcome m e = (
  record m {
    subscriber_list = [];
    current_subscriber = forget_entry m.current_subscriber;
    state = AgpsState.released;
  },
  all_callbacks m e m.subscriber_list,
)

filter-true : (xs : List AgpsSubscriber) → filter (λ s. true) xs ≡ xs
filter-true [] = refl
filter-true (x ∷ xs) = ap (◌∷◌ x) (filter-true xs)

filter-false : (xs : List AgpsSubscriber) → filter (λ s. false) xs ≡ []
filter-false [] = refl
filter-false (x ∷ xs) = filter-false xs

callbacks-state :
    (m : AgpsStateMachine) (st : AgpsState) (e : AgpsEvent) (s : AgpsSubscriber)
    → callbacks (record m { state = st }) e s ≡ callbacks m e s
unfolding callbacks
callbacks-state m st AgpsEvent.granted s = refl
callbacks-state m st _ s = refl

all_callbacks-state :
    (m : AgpsStateMachine) (st : AgpsState) (e : AgpsEvent) (xs : List AgpsSubscriber)
    → all_callbacks (record m { state = st }) e xs ≡ all_callbacks m e xs
all_callbacks-state m st e [] = refl
all_callbacks-state m st e (x ∷ xs) = rw (callbacks-state m st e x, all_callbacks-state m st e xs)

end_lem :
    (m : AgpsStateMachine) (e : AgpsEvent)
    → notify_all_subscribers e true AgpsNotificationType.for_all_subscribers
        (record m { state = AgpsState.released })
      ≡ some (end_outcome m e)
unfolding notify_all_subscribers is_meant_for
end_lem m e = ground (
  arith,
  notify_loop-fst (record m { state = AgpsState.released }) e true
      AgpsNotificationType.for_all_subscribers m.subscriber_list,
  notify_loop-snd (record m { state = AgpsState.released }) e true
      AgpsNotificationType.for_all_subscribers m.subscriber_list,
  filter-true m.subscriber_list,
  filter-false m.subscriber_list,
  all_callbacks-state m AgpsState.released e m.subscriber_list,
)

abbrev pub released_outcome : AgpsState → AgpsStateMachine → Outcome
released_outcome AgpsState.acquired m = end_outcome m AgpsEvent.released
released_outcome AgpsState.releasing m = close_outcome m
released_outcome _ m = (m, [])

pub process_released_lem :
    (st : AgpsState) (m : AgpsStateMachine) → process_released st m ≡ some (released_outcome st m)
unfolding process_released
process_released_lem AgpsState.acquired m = rw end_lem
process_released_lem AgpsState.releasing m = close_inactive_lem m
process_released_lem _ m = refl

abbrev pub denied_outcome : AgpsState → AgpsStateMachine → Outcome
denied_outcome AgpsState.pending m = end_outcome m AgpsEvent.denied
denied_outcome AgpsState.releasing m = close_outcome m
denied_outcome _ m = (m, [])

pub process_denied_lem :
    (st : AgpsState) (m : AgpsStateMachine) → process_denied st m ≡ some (denied_outcome st m)
unfolding process_denied
process_denied_lem AgpsState.pending m = rw end_lem
process_denied_lem AgpsState.releasing m = close_inactive_lem m
process_denied_lem _ m = refl

-- Every active subscriber is told of the grant.
abbrev pub granted_outcome : AgpsState → AgpsStateMachine → Outcome
granted_outcome AgpsState.pending m = (
  record m { state = AgpsState.acquired },
  all_callbacks m AgpsEvent.granted (filter (λ s. not s.is_inactive) m.subscriber_list),
)
granted_outcome _ m = (m, [])

pub process_granted_lem :
    (st : AgpsState) (m : AgpsStateMachine) → process_granted st m ≡ some (granted_outcome st m)
unfolding process_granted is_meant_for
process_granted_lem AgpsState.pending m = ground (
  arith,
  notify_loop-fst (record m { state = AgpsState.acquired }) AgpsEvent.granted false
      AgpsNotificationType.for_active_subscribers m.subscriber_list,
  notify_loop-snd (record m { state = AgpsState.acquired }) AgpsEvent.granted false
      AgpsNotificationType.for_active_subscribers m.subscriber_list,
  all_callbacks-state m AgpsState.acquired AgpsEvent.granted
      (filter (λ s. not s.is_inactive) m.subscriber_list),
)
process_granted_lem _ m = refl
