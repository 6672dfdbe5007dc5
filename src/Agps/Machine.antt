-- ===== src/Agps/Machine.antt =====
-- The methods of `AgpsStateMachine` (gps/gnss/Agps.cpp). A method is an action: it gives the new
-- machine with the callbacks that it made, in their order, or nothing where it follows a pointer
-- that is NULL or dangles.
use android_device_xiaomi_ms.Base.{
  ℕ, Bool, true, false, not, Option, none, some, List, [], ◌∷◌, ◌++◌, ◌==◌, ltb, length, get_elem?,
  set, if◌then◌else◌,
}
use android_device_xiaomi_ms.Agps.Types.{
  AgpsState, AgpsEvent, AgpsNotificationType, AgpsExtType, AgpsSubscriber, SubscriberPointer, null,
  dangling, outside, entry, AgpsStateMachine, Signal, atl_open_status, atl_close_status,
  framework_status, request_agps_data_conn, release_agps_data_conn,
}
use android_device_xiaomi_ms.Agps.Subscribers.{add_subscriber, delete_equal, delete_entry}
use mathlib.Core.Option

abbrev pub Action : Type 0
Action = AgpsStateMachine → Option (AgpsStateMachine × List Signal)

-- One action after the other.
infixr 20 ◌then_do◌
abbrev pub ◌then_do◌ : Action → Action → Action
◌then_do◌ f g m = elim (f m) [
  | none ↦ none
  | some (m', sent) ↦ Option.map (λ r. (r.0, sent ++ r.1)) (g m')
]

-- The constructor. `mApnTypeMask` is not initialised, so its value is the caller's.
unfoldable pub new_state_machine : ℕ → AgpsExtType → AgpsStateMachine
new_state_machine stale_mask agps_type = record {
  subscriber_list = [];
  current_subscriber = null;
  state = AgpsState.released;
  agps_type = agps_type;
  apn_type_mask = stale_mask;
  apn = none;
  apn_len = 0;
  bearer = 0;
}

abbrev pub max_apn_len : ℕ
max_apn_len = 100

unfoldable pub set_apn : Option (List ℕ) → ℕ → AgpsStateMachine → AgpsStateMachine
set_apn none len m = record m { apn = none; apn_len = 0 }
set_apn (some bytes) len m =
    if ltb max_apn_len len
    then record m { apn = none; apn_len = 0 }
    else if length bytes == len
    then record m { apn = some bytes; apn_len = len }
    else record m { apn = none; apn_len = 0 }

-- The subscriber that a pointer points to.
unfoldable pub deref : SubscriberPointer → List AgpsSubscriber → Option AgpsSubscriber
deref null xs = none
deref dangling xs = none
deref (outside s) xs = some s
deref (entry i) xs = get_elem? xs i

-- Where entries were deleted, a pointer to an entry may no longer be followed.
unfoldable pub forget_entry : SubscriberPointer → SubscriberPointer
forget_entry null = null
forget_entry dangling = dangling
forget_entry (outside s) = outside s
forget_entry (entry i) = dangling

unfoldable pub transition_state : AgpsState → Action
transition_state s m = some (record m { state = s }, [])

unfoldable pub request_or_release_data_conn : Bool → Action
request_or_release_data_conn request m = some (
  m,
  framework_status m.agps_type m.apn_type_mask
        (if request then request_agps_data_conn else release_agps_data_conn)
      ∷ [],
)

-- The `switch` of `notifyEventToSubscriber`.
unfoldable pub callbacks : AgpsStateMachine → AgpsEvent → AgpsSubscriber → List Signal
callbacks m AgpsEvent.granted s =
    atl_open_status s.conn_handle 1 m.apn m.apn_len m.bearer m.agps_type m.apn_type_mask ∷ []
callbacks m AgpsEvent.denied s =
    atl_open_status s.conn_handle 0 m.apn m.apn_len m.bearer m.agps_type m.apn_type_mask ∷ []
callbacks m AgpsEvent.unsubscribe s = atl_close_status s.conn_handle 1 ∷ []
callbacks m AgpsEvent.released s = atl_close_status s.conn_handle 1 ∷ []
callbacks m _ s = []

-- `deleteSubscriber`, whose argument may be an entry of the list itself.
unfoldable pub delete_subscriber : SubscriberPointer → Action
unfolding delete_equal delete_entry forget_entry
delete_subscriber null m = none
delete_subscriber dangling m = none
delete_subscriber (outside s) m = some (
  record m {
    subscriber_list = delete_equal s m.subscriber_list;
    current_subscriber = forget_entry m.current_subscriber;
  },
  [],
)
delete_subscriber (entry i) m = elim (get_elem? m.subscriber_list i) [
  | none ↦ none
  | some s ↦
      Option.map
        (λ xs. (
          record m { subscriber_list = xs; current_subscriber = forget_entry m.current_subscriber },
          [],
        ))
        (delete_entry s i m.subscriber_list)
]

unfoldable pub notify_event_to_subscriber : AgpsEvent → SubscriberPointer → Bool → Action
unfolding callbacks delete_subscriber deref
notify_event_to_subscriber event p delete_post_notify m = elim (deref p m.subscriber_list) [
  | none ↦ none
  | some s ↦
      if delete_post_notify
      then Option.map (λ r. (r.0, callbacks m event s ++ r.1)) (delete_subscriber p m)
      else some (m, callbacks m event s)
]

-- Is a notification of the type meant for the subscriber?
unfoldable pub is_meant_for : AgpsNotificationType → AgpsSubscriber → Bool
is_meant_for AgpsNotificationType.for_all_subscribers s = true
is_meant_for AgpsNotificationType.for_inactive_subscribers s = s.is_inactive
is_meant_for AgpsNotificationType.for_active_subscribers s = not s.is_inactive
is_meant_for AgpsNotificationType.invalid s = false

-- The loop of `notifyAllSubscribers`: the entries that stay, and the callbacks.
unfoldable pub notify_loop :
    AgpsStateMachine
    → AgpsEvent
    → Bool
    → AgpsNotificationType
    → List AgpsSubscriber
    → List AgpsSubscriber × List Signal
unfolding is_meant_for callbacks
notify_loop m event delete type [] = ([], [])
notify_loop m event delete type (s ∷ ss) =
    let (kept, sent) = notify_loop m event delete type ss in
    if is_meant_for type s
    then (if delete then kept else s ∷ kept, callbacks m event s ++ sent)
    else (s ∷ kept, sent)

unfoldable pub notify_all_subscribers : AgpsEvent → Bool → AgpsNotificationType → Action
unfolding forget_entry
notify_all_subscribers event delete type m =
    let (kept, sent) = notify_loop m event delete type m.subscriber_list in
    some (
      record m {
        subscriber_list = kept;
        current_subscriber =
            if delete then forget_entry m.current_subscriber else m.current_subscriber;
      },
      sent,
    )

unfoldable pub add_current_subscriber : Action
unfolding add_subscriber deref
add_current_subscriber m = elim (deref m.current_subscriber m.subscriber_list) [
  | none ↦ none
  | some s ↦ some (record m { subscriber_list = add_subscriber s m.subscriber_list }, [])
]

unfoldable pub notify_current_subscriber : AgpsEvent → Bool → Action
unfolding notify_event_to_subscriber
notify_current_subscriber event delete m =
    notify_event_to_subscriber event m.current_subscriber delete m

-- `mCurrentSubscriber->mIsInactive = true`, which changes the list where it points into it.
unfoldable pub set_current_inactive : Action
set_current_inactive m = elim m.current_subscriber [
  | null ↦ none
  | dangling ↦ none
  | outside s ↦
      some (record m { current_subscriber = outside (record s { is_inactive = true }) }, [])
  | entry i ↦ elim (get_elem? m.subscriber_list i) [
    | none ↦ none
    | some s ↦ some (
      record m { subscriber_list = set m.subscriber_list i (record s { is_inactive = true }) },
      [],
    )
  ]
]
