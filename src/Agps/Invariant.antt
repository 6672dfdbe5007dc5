-- ===== src/Agps/Invariant.antt =====
-- What holds of an AGPS state machine between two events, in whatever order the events come.
use android_device_xiaomi_ms.Base.{
  ℕ, ◌≡◌, refl, ◌≢◌, inl, inr, Bool, true, false, not, Option, some, List, [], ◌∷◌, arith, All,
  All-append, All-set, All-filter, All-get, filter, get_elem?, set, Bool-cases,
}
use android_device_xiaomi_ms.Agps.Types.{
  AgpsState, AgpsEvent, AgpsSubscriber, AgpsStateMachine, Signal, outside, entry, AgpsExtType,
  SubscriberPointer,
}
use android_device_xiaomi_ms.Agps.Subscribers.{add_subscriber, contains, any_active_subscribers}
use android_device_xiaomi_ms.Agps.Machine.{new_state_machine}
use android_device_xiaomi_ms.Agps.Events.{process_agps_event}
use android_device_xiaomi_ms.Agps.Distinct.{
  Distinct, add_subscriber-Distinct, set-Distinct, filter-Distinct,
}
use android_device_xiaomi_ms.Agps.Outcome.{
  inactive, subscribe_outcome, unsubscribe_from, close_outcome, process_subscribe_lem,
  process_unsubscribe_lem, process_granted_lem, process_released_lem, process_denied_lem,
  granted_outcome, released_outcome, denied_outcome, Outcome,
}

abbrev pub Waits : AgpsSubscriber → Type 0
Waits s = s.wait_for_close_complete ≡ true

-- The lists that `requestATL` builds: distinct handles, and all wait for the close.
pub record IsGood (xs : List AgpsSubscriber) : Type 0 where
  pub distinct : Distinct xs
  pub waits : All Waits xs

pub record Inv (m : AgpsStateMachine) : Type 0 where
  pub good : IsGood m.subscriber_list
  pub idle : m.state ≡ AgpsState.released → m.subscriber_list ≡ []
  pub valid : m.state ≢ AgpsState.invalid

-- What the manager sets up before an event: for SUBSCRIBE an active subscriber that waits for the
-- close, for UNSUBSCRIBE an entry of the list.
abbrev pub Ready : AgpsEvent → AgpsStateMachine → Type 0
Ready AgpsEvent.subscribe m =
    (s : AgpsSubscriber) × (m.current_subscriber ≡ outside s) × Waits s × (s.is_inactive ≡ false)
Ready AgpsEvent.unsubscribe m =
    (i : ℕ) × (s : AgpsSubscriber) × (m.current_subscriber ≡ entry i)
    × (get_elem? m.subscriber_list i ≡ some s)
Ready _ m = Unit {0}

-- The call returns, and the new machine is as `P` says.
abbrev pub Returns {ℓ} :
    (AgpsStateMachine → Type ℓ) → Option (AgpsStateMachine × List Signal) → Type ℓ
Returns P r = (q : AgpsStateMachine × List Signal) × (r ≡ some q) × P q.0

IsGood-add :
    (s : AgpsSubscriber) (xs : List AgpsSubscriber)
    → Waits s
    → IsGood xs
    → IsGood (add_subscriber s xs)
unfolding add_subscriber
IsGood-add s xs w g = record {
  distinct = add_subscriber-Distinct s xs g.distinct;
  waits = elim (Bool-cases (contains s xs)) [
    | inl old ↦ rw (old, add_subscriber) g.waits
    | inr new ↦ rw (new, add_subscriber) (All-append Waits xs (s ∷ []) g.waits (w, tt))
  ];
}

IsGood-filter :
    (p : AgpsSubscriber → Bool) (xs : List AgpsSubscriber) → IsGood xs → IsGood (filter p xs)
IsGood-filter p xs g = record {
  distinct = filter-Distinct p xs g.distinct;
  waits = All-filter Waits p xs g.waits;
}

IsGood-inactive :
    (xs : List AgpsSubscriber) (i : ℕ) (s : AgpsSubscriber)
    → get_elem? xs i ≡ some s
    → IsGood xs
    → IsGood (set xs i (record s { is_inactive = true }))
IsGood-inactive xs i s e g = record {
  distinct = set-Distinct xs i true g.distinct e;
  waits =
      All-set Waits xs i (record s { is_inactive = true }) g.waits (All-get Waits xs i g.waits e);
}

subscribe_outcome-Inv :
    (st : AgpsState) (m : AgpsStateMachine) (s : AgpsSubscriber)
    → m.state ≡ st
    → Inv m
    → Waits s
    → Inv (subscribe_outcome st m s).0
subscribe_outcome-Inv AgpsState.released m s h v w = record {
  good = IsGood-add s _ w v.good;
  idle = λ e. cc;
  valid = λ e. cc;
}
subscribe_outcome-Inv AgpsState.invalid m s h v w = v
subscribe_outcome-Inv _ m s h v w = record {
  good = IsGood-add s _ w v.good;
  idle = λ e. cc;
  valid = v.valid;
}

unsubscribe_from-Inv :
    (st : AgpsState) (m : AgpsStateMachine) (xs : List AgpsSubscriber)
    → m.state ≡ st
    → Inv m
    → IsGood xs
    → Inv (unsubscribe_from st m xs).0
unsubscribe_from-Inv AgpsState.released m xs h v g = v
unsubscribe_from-Inv AgpsState.invalid m xs h v g = v
unsubscribe_from-Inv AgpsState.releasing m xs h v g = record {
  good = g;
  idle = λ e. cc;
  valid = v.valid;
}
unsubscribe_from-Inv _ m xs h v g = elim (Bool-cases (any_active_subscribers xs)) [
  | inl some_active ↦ rw some_active (record { good = g; idle = λ e. cc; valid = v.valid })
  | inr none_active ↦ rw none_active (record { good = g; idle = λ e. cc; valid = λ e. cc })
]

no_active :
    (xs : List AgpsSubscriber)
    → any_active_subscribers (filter (λ s. not s.is_inactive) xs) ≡ false
    → filter (λ s. not s.is_inactive) xs ≡ []
unfolding any_active_subscribers
no_active [] h = refl
no_active (x ∷ xs) h = ground (arith, no_active xs)

close_outcome-Inv : (m : AgpsStateMachine) → Inv m → Inv (close_outcome m).0
close_outcome-Inv m v =
    let left = IsGood-filter (λ s. not s.is_inactive) m.subscriber_list v.good in
    elim (Bool-cases (any_active_subscribers (filter (λ s. not s.is_inactive) m.subscriber_list))) [
      | inl some_active ↦ rw some_active (record { good = left; idle = λ e. cc; valid = λ e. cc })
      | inr none_active ↦ rw none_active (record {
        good = left;
        idle = λ e. no_active m.subscriber_list none_active;
        valid = λ e. cc;
      })
    ]

emptied-Inv :
    (m : AgpsStateMachine) (p : SubscriberPointer)
    → Inv (record m { subscriber_list = []; current_subscriber = p; state = AgpsState.released })
emptied-Inv m p = record {
  good = record { distinct = tt; waits = tt };
  idle = λ e. refl;
  valid = λ e. cc;
}

granted_outcome-Inv : (st : AgpsState) (m : AgpsStateMachine) → Inv m → Inv (granted_outcome st m).0
granted_outcome-Inv AgpsState.pending m v = record {
  good = v.good;
  idle = λ e. cc;
  valid = λ e. cc;
}
granted_outcome-Inv _ m v = v

released_outcome-Inv :
    (st : AgpsState) (m : AgpsStateMachine) → Inv m → Inv (released_outcome st m).0
released_outcome-Inv AgpsState.acquired m v = emptied-Inv m _
released_outcome-Inv AgpsState.releasing m v = close_outcome-Inv m v
released_outcome-Inv _ m v = v

denied_outcome-Inv : (st : AgpsState) (m : AgpsStateMachine) → Inv m → Inv (denied_outcome st m).0
denied_outcome-Inv AgpsState.pending m v = emptied-Inv m _
denied_outcome-Inv AgpsState.releasing m v = close_outcome-Inv m v
denied_outcome-Inv _ m v = v

-- In RELEASED there is no subscriber that could leave.
entry_not_released :
    (m : AgpsStateMachine) (i : ℕ) {s : AgpsSubscriber}
    → Inv m
    → get_elem? m.subscriber_list i ≡ some s
    → m.state ≢ AgpsState.released
entry_not_released m i {s} v e idle =
    let gone : get_elem? {A = AgpsSubscriber} [] i ≡ some s = rw (v.idle idle) at e in cc

pub unsubscribe_lem :
    (m : AgpsStateMachine) (i : ℕ) (s : AgpsSubscriber)
    → Inv m
    → m.current_subscriber ≡ entry i
    → get_elem? m.subscriber_list i ≡ some s
    → process_agps_event AgpsEvent.unsubscribe m
      ≡ some (unsubscribe_from m.state m (set m.subscriber_list i (inactive s)))
unfolding process_agps_event
unsubscribe_lem m i s v c e =
    process_unsubscribe_lem m.state m i s (entry_not_released m i v e) c e
      (All-get Waits m.subscriber_list i v.good.waits e)

-- To prove something of the result of an event: a case for each handler.
pub event_cases {ℓ} :
    (P : Outcome → Type ℓ) (e : AgpsEvent) (m : AgpsStateMachine)
    → Inv m
    → Ready e m
    → ((s : AgpsSubscriber) → Waits s → s.is_inactive ≡ false → P (subscribe_outcome m.state m s))
    → ((i : ℕ) (s : AgpsSubscriber)
        → get_elem? m.subscriber_list i ≡ some s
        → P (unsubscribe_from m.state m (set m.subscriber_list i (inactive s))))
    → P (granted_outcome m.state m)
    → P (released_outcome m.state m)
    → P (denied_outcome m.state m)
    → P (m, [])
    → (q : Outcome) × (process_agps_event e m ≡ some q) × P q
unfolding process_agps_event
event_cases P AgpsEvent.subscribe m v (s, c, w, a) sub unsub gr rel den inv =
    (subscribe_outcome m.state m s, process_subscribe_lem m.state m s c, sub s w a)
event_cases P AgpsEvent.unsubscribe m v (i, s, c, e) sub unsub gr rel den inv = (
  unsubscribe_from m.state m (set m.subscriber_list i (inactive s)),
  unsubscribe_lem m i s v c e,
  unsub i s e,
)
event_cases P AgpsEvent.granted m v _ sub unsub gr rel den inv =
    (granted_outcome m.state m, process_granted_lem m.state m, gr)
event_cases P AgpsEvent.released m v _ sub unsub gr rel den inv =
    (released_outcome m.state m, process_released_lem m.state m, rel)
event_cases P AgpsEvent.denied m v _ sub unsub gr rel den inv =
    (denied_outcome m.state m, process_denied_lem m.state m, den)
event_cases P AgpsEvent.invalid m v _ sub unsub gr rel den inv = ((m, []), refl, inv)

-- On a machine whose subscribers have distinct handles and wait for the close, which has none in the
-- state RELEASED, and whose state is a valid one, every event that the manager sends, with the current
-- subscriber that it sets, follows no bad pointer and leaves such a machine.
pub process_agps_event-Inv :
    (e : AgpsEvent) (m : AgpsStateMachine)
    → Inv m
    → Ready e m
    → Returns Inv (process_agps_event e m)
process_agps_event-Inv e m v ready =
    event_cases (λ q. Inv q.0) e m v ready (λ s w _. subscribe_outcome-Inv m.state m s refl v w)
      (λ i s e.
        unsubscribe_from-Inv m.state m _ refl v (IsGood-inactive m.subscriber_list i s e v.good))
      (granted_outcome-Inv m.state m v) (released_outcome-Inv m.state m v)
      (denied_outcome-Inv m.state m v) v

pub new_state_machine-Inv : (mask : ℕ) (t : AgpsExtType) → Inv (new_state_machine mask t)
unfolding new_state_machine
new_state_machine-Inv mask t = record {
  good = record { distinct = tt; waits = tt };
  idle = λ e. refl;
  valid = λ e. cc;
}
