-- ===== src/Agps/Connection.antt =====
-- When the AGPS state machine asks the framework to set up or to release the data connection.
use android_device_xiaomi_ms.Base.{
  ◌≡◌, refl, sym, ◌∙◌, some, append_assoc, append-nil, List, [], ◌∷◌, ◌++◌, filter, arith,
}
use android_device_xiaomi_ms.Agps.Types.{
  AgpsState, AgpsEvent, AgpsSubscriber, AgpsStateMachine, DataConnStatus, Signal, atl_open_status,
  atl_close_status, framework_status, request_agps_data_conn, release_agps_data_conn,
}
use android_device_xiaomi_ms.Agps.Machine.{callbacks}
use android_device_xiaomi_ms.Agps.Events.{process_agps_event}
use android_device_xiaomi_ms.Agps.Loops.{all_callbacks}
use android_device_xiaomi_ms.Agps.Outcome.{
  Outcome, subscribe_outcome, unsubscribe_from, close_outcome, granted_outcome, released_outcome,
  denied_outcome,
}
use android_device_xiaomi_ms.Agps.Invariant.{Inv, Ready, event_cases}

-- The calls of the framework among the callbacks.
abbrev pub conn_calls : List Signal → List DataConnStatus
conn_calls [] = []
conn_calls (framework_status t mask status ∷ rest) = status ∷ conn_calls rest
conn_calls (atl_open_status _ _ _ _ _ _ _ ∷ rest) = conn_calls rest
conn_calls (atl_close_status _ _ ∷ rest) = conn_calls rest

-- The calls that belong to a change of state.
abbrev pub due_calls : AgpsState → AgpsState → List DataConnStatus
due_calls AgpsState.released AgpsState.pending = request_agps_data_conn ∷ []
due_calls AgpsState.releasing AgpsState.pending = request_agps_data_conn ∷ []
due_calls AgpsState.pending AgpsState.releasing = release_agps_data_conn ∷ []
due_calls AgpsState.acquired AgpsState.releasing = release_agps_data_conn ∷ []
due_calls _ _ = []

abbrev IsDue : AgpsStateMachine → Outcome → Type 0
IsDue m q = conn_calls q.1 ≡ due_calls m.state q.0.state

callbacks-conn_calls :
    (m : AgpsStateMachine) (e : AgpsEvent) (s : AgpsSubscriber) (rest : List Signal)
    → conn_calls (callbacks m e s ++ rest) ≡ conn_calls rest
unfolding callbacks
callbacks-conn_calls m AgpsEvent.granted s rest = refl
callbacks-conn_calls m _ s rest = refl

all_callbacks-conn_calls :
    (m : AgpsStateMachine) (e : AgpsEvent) (xs : List AgpsSubscriber) (rest : List Signal)
    → conn_calls (all_callbacks m e xs ++ rest) ≡ conn_calls rest
all_callbacks-conn_calls m e [] rest = refl
all_callbacks-conn_calls m e (x ∷ xs) rest =
    rw (append_assoc (callbacks m e x) (all_callbacks m e xs) rest)
      (callbacks-conn_calls m e x _ ∙ all_callbacks-conn_calls m e xs rest)

all_callbacks-none :
    (m : AgpsStateMachine) (e : AgpsEvent) (xs : List AgpsSubscriber)
    → conn_calls (all_callbacks m e xs) ≡ []
all_callbacks-none m e xs =
    ground (arith, all_callbacks-conn_calls m e xs [], append-nil (all_callbacks m e xs))

stays_due : (st : AgpsState) → due_calls st st ≡ []
stays_due AgpsState.released = refl
stays_due _ = refl

subscribe-IsDue :
    (st : AgpsState) (m : AgpsStateMachine) (s : AgpsSubscriber)
    → m.state ≡ st
    → IsDue m (subscribe_outcome st m s)
subscribe-IsDue AgpsState.released m s h = rw h
subscribe-IsDue AgpsState.acquired m s h = rw (callbacks-conn_calls m AgpsEvent.granted s [], h)
subscribe-IsDue _ m s h = rw h

unsubscribe-IsDue :
    (st : AgpsState) (m : AgpsStateMachine) (xs : List AgpsSubscriber)
    → m.state ≡ st
    → IsDue m (unsubscribe_from st m xs)
unsubscribe-IsDue AgpsState.released m xs h = rw h
unsubscribe-IsDue _ m xs h = ground arith

close-IsDue : (m : AgpsStateMachine) → m.state ≡ AgpsState.releasing → IsDue m (close_outcome m)
close-IsDue m h =
    let others = filter (λ (s : AgpsSubscriber). s.is_inactive) m.subscriber_list in
    ground (
      arith,
      all_callbacks-conn_calls m AgpsEvent.released others [],
      all_callbacks-conn_calls m AgpsEvent.released others
          (framework_status m.agps_type m.apn_type_mask request_agps_data_conn ∷ []),
    )

granted-IsDue :
    (st : AgpsState) (m : AgpsStateMachine) → m.state ≡ st → IsDue m (granted_outcome st m)
granted-IsDue AgpsState.pending m h = rw (h, all_callbacks-none)
granted-IsDue _ m h = rw h

released-IsDue :
    (st : AgpsState) (m : AgpsStateMachine) → m.state ≡ st → IsDue m (released_outcome st m)
released-IsDue AgpsState.acquired m h = rw (h, all_callbacks-none)
released-IsDue AgpsState.releasing m h = close-IsDue m h
released-IsDue _ m h = rw h

denied-IsDue :
    (st : AgpsState) (m : AgpsStateMachine) → m.state ≡ st → IsDue m (denied_outcome st m)
denied-IsDue AgpsState.pending m h = rw (h, all_callbacks-none)
denied-IsDue AgpsState.releasing m h = close-IsDue m h
denied-IsDue _ m h = rw h

-- On a machine with the invariant, an event that the manager sends asks for the data connection exactly
-- when the state goes from RELEASED or RELEASING to PENDING, and gives it up exactly when it goes from
-- PENDING or ACQUIRED to RELEASING, once each.
pub process_agps_event-conn_calls :
    (e : AgpsEvent) (m : AgpsStateMachine)
    → Inv m
    → Ready e m
    → (q : Outcome) × (process_agps_event e m ≡ some q)
      × (conn_calls q.1 ≡ due_calls m.state q.0.state)
process_agps_event-conn_calls e m v ready =
    event_cases (IsDue m) e m v ready (λ s w a. subscribe-IsDue m.state m s refl)
      (λ i s e. unsubscribe-IsDue m.state m _ refl) (granted-IsDue m.state m refl)
      (released-IsDue m.state m refl) (denied-IsDue m.state m refl) (sym (stays_due m.state))
