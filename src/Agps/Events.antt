-- ===== src/Agps/Events.antt =====
-- The event handlers of `AgpsStateMachine` (gps/gnss/Agps.cpp), one clause for each state.
use android_device_xiaomi_ms.Base.{true, false, none, some, [], is_empty, if◌then◌else◌}
use android_device_xiaomi_ms.Agps.Types.{AgpsState, AgpsEvent, AgpsNotificationType}
use android_device_xiaomi_ms.Agps.Subscribers.{any_active_subscribers}
use android_device_xiaomi_ms.Agps.Machine.{
  Action, ◌then_do◌, deref, transition_state, request_or_release_data_conn, notify_all_subscribers,
  add_current_subscriber, notify_current_subscriber, set_current_inactive,
}

-- A `break` with nothing done.
abbrev no_op : Action
no_op m = some (m, [])

unfoldable pub process_subscribe : AgpsState → Action
unfolding add_current_subscriber request_or_release_data_conn transition_state
    notify_current_subscriber
process_subscribe AgpsState.released =
    add_current_subscriber
    then_do request_or_release_data_conn true
    then_do transition_state AgpsState.pending
process_subscribe AgpsState.pending = add_current_subscriber
process_subscribe AgpsState.acquired =
    notify_current_subscriber AgpsEvent.granted false then_do add_current_subscriber
process_subscribe AgpsState.releasing = add_current_subscriber
process_subscribe AgpsState.invalid = no_op

-- A subscriber that waits for the close becomes inactive, any other is told and deleted.
unfoldable pub leave : Action
unfolding set_current_inactive notify_current_subscriber deref
leave m = elim (deref m.current_subscriber m.subscriber_list) [
  | none ↦ none
  | some s ↦
      if s.wait_for_close_complete
      then set_current_inactive m
      else notify_current_subscriber AgpsEvent.unsubscribe true m
]

-- With no subscriber, or none active, the data connection is given up.
unfoldable pub release_if_unused : Action
unfolding any_active_subscribers transition_state request_or_release_data_conn
release_if_unused m =
    if is_empty m.subscriber_list
    then (transition_state AgpsState.released then_do request_or_release_data_conn false) m
    else if any_active_subscribers m.subscriber_list
    then some (m, [])
    else (transition_state AgpsState.releasing then_do request_or_release_data_conn false) m

unfoldable pub released_if_empty : Action
unfolding transition_state
released_if_empty m =
    if is_empty m.subscriber_list then transition_state AgpsState.released m else some (m, [])

unfoldable pub process_unsubscribe : AgpsState → Action
unfolding leave release_if_unused released_if_empty notify_current_subscriber
process_unsubscribe AgpsState.released = notify_current_subscriber AgpsEvent.unsubscribe false
process_unsubscribe AgpsState.pending = leave then_do release_if_unused
process_unsubscribe AgpsState.acquired = leave then_do release_if_unused
process_unsubscribe AgpsState.releasing = leave then_do released_if_empty
process_unsubscribe AgpsState.invalid = no_op

unfoldable pub process_granted : AgpsState → Action
unfolding transition_state notify_all_subscribers
process_granted AgpsState.pending =
    transition_state AgpsState.acquired
    then_do notify_all_subscribers AgpsEvent.granted false
        AgpsNotificationType.for_active_subscribers
process_granted _ = no_op

-- What is left of RELEASED and of DENIED in the state RELEASING.
unfoldable pub after_close : Action
unfolding any_active_subscribers transition_state request_or_release_data_conn
after_close m =
    if any_active_subscribers m.subscriber_list
    then (transition_state AgpsState.pending then_do request_or_release_data_conn true) m
    else transition_state AgpsState.released m

unfoldable pub close_inactive : Action
unfolding notify_all_subscribers after_close
close_inactive =
    notify_all_subscribers AgpsEvent.released true AgpsNotificationType.for_inactive_subscribers
    then_do after_close

unfoldable pub process_released : AgpsState → Action
unfolding close_inactive transition_state notify_all_subscribers
process_released AgpsState.acquired =
    transition_state AgpsState.released
    then_do notify_all_subscribers AgpsEvent.released true AgpsNotificationType.for_all_subscribers
process_released AgpsState.releasing = close_inactive
process_released _ = no_op

unfoldable pub process_denied : AgpsState → Action
unfolding close_inactive transition_state notify_all_subscribers
process_denied AgpsState.releasing = close_inactive
process_denied AgpsState.pending =
    transition_state AgpsState.released
    then_do notify_all_subscribers AgpsEvent.denied true AgpsNotificationType.for_all_subscribers
process_denied _ = no_op

unfoldable pub process_agps_event : AgpsEvent → Action
unfolding process_subscribe process_unsubscribe process_granted process_released process_denied
process_agps_event AgpsEvent.subscribe m = process_subscribe m.state m
process_agps_event AgpsEvent.unsubscribe m = process_unsubscribe m.state m
process_agps_event AgpsEvent.granted m = process_granted m.state m
process_agps_event AgpsEvent.released m = process_released m.state m
process_agps_event AgpsEvent.denied m = process_denied m.state m
process_agps_event AgpsEvent.invalid m = some (m, [])
