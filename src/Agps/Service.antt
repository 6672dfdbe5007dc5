-- ===== src/Agps/Service.antt =====
-- The AGPS state machine holds a data connection only while somebody wants it. A modem restart
-- (`handleModemSSR`), which drops the subscribers and leaves the state, is not an event here.
use android_device_xiaomi_ms.Base.{
  ℕ, zero, suc, ◌≡◌, refl, inl, inr, Bool, true, false, not, ◌||◌, some, List, [], ◌∷◌, ◌++◌, arith,
  any, filter, get_elem?, set, Bool-cases,
}
use android_device_xiaomi_ms.Agps.Types.{AgpsState, AgpsEvent, AgpsSubscriber, AgpsStateMachine}
use android_device_xiaomi_ms.Agps.Subscribers.{add_subscriber, contains, any_active_subscribers}
use android_device_xiaomi_ms.Agps.Events.{process_agps_event}
use android_device_xiaomi_ms.Agps.Outcome.{
  inactive, subscribe_outcome, unsubscribe_from, close_outcome, granted_outcome, released_outcome,
  denied_outcome,
}
use android_device_xiaomi_ms.Agps.Invariant.{Inv, Ready, Returns, event_cases}

abbrev pub any_inactive_subscribers : List AgpsSubscriber → Bool
any_inactive_subscribers = any (λ s. s.is_inactive)

-- What a state says of the subscribers.
abbrev pub Serves : AgpsState → List AgpsSubscriber → Type 0
Serves AgpsState.pending xs = any_active_subscribers xs ≡ true
Serves AgpsState.acquired xs = any_active_subscribers xs ≡ true
Serves AgpsState.releasing xs = any_inactive_subscribers xs ≡ true
Serves _ xs = Unit {0}

abbrev pub IsServing : AgpsStateMachine → Type 0
IsServing m = Serves m.state m.subscriber_list

any_active-append :
    (xs ys : List AgpsSubscriber)
    → any_active_subscribers (xs ++ ys) ≡ any_active_subscribers xs || any_active_subscribers ys
unfolding any_active_subscribers
any_active-append [] ys = refl
any_active-append (x ∷ xs) ys = ground (arith, any_active-append xs ys)

any_inactive-append :
    (xs ys : List AgpsSubscriber)
    → any_inactive_subscribers (xs ++ ys)
      ≡ any_inactive_subscribers xs || any_inactive_subscribers ys
any_inactive-append [] ys = refl
any_inactive-append (x ∷ xs) ys = ground (arith, any_inactive-append xs ys)

any_active-add :
    (s : AgpsSubscriber) (xs : List AgpsSubscriber)
    → any_active_subscribers xs ≡ true
    → any_active_subscribers (add_subscriber s xs) ≡ true
unfolding add_subscriber
any_active-add s xs h = ground (arith, any_active-append xs (s ∷ []))

any_inactive-add :
    (s : AgpsSubscriber) (xs : List AgpsSubscriber)
    → any_inactive_subscribers xs ≡ true
    → any_inactive_subscribers (add_subscriber s xs) ≡ true
unfolding add_subscriber
any_inactive-add s xs h = ground (arith, any_inactive-append xs (s ∷ []))

any_active-add_empty :
    (s : AgpsSubscriber) (xs : List AgpsSubscriber)
    → xs ≡ []
    → s.is_inactive ≡ false
    → any_active_subscribers (add_subscriber s xs) ≡ true
unfolding add_subscriber any_active_subscribers contains
any_active-add_empty s xs e h = ground arith

any_inactive-set :
    (xs : List AgpsSubscriber) (i : ℕ) {s : AgpsSubscriber}
    → get_elem? xs i ≡ some s
    → any_inactive_subscribers (set xs i (inactive s)) ≡ true
any_inactive-set [] i e = cc
any_inactive-set (x ∷ xs) zero e = refl
any_inactive-set (x ∷ xs) (suc i) e = ground (arith, any_inactive-set xs i e)

subscribe_outcome-Serves :
    (st : AgpsState) (m : AgpsStateMachine) (s : AgpsSubscriber)
    → m.state ≡ st
    → (st ≡ AgpsState.released → m.subscriber_list ≡ [])
    → Serves st m.subscriber_list
    → s.is_inactive ≡ false
    → IsServing (subscribe_outcome st m s).0
subscribe_outcome-Serves AgpsState.released m s h idle v a =
    any_active-add_empty s m.subscriber_list (idle refl) a
subscribe_outcome-Serves AgpsState.pending m s h idle v a = rw h (any_active-add s _ v)
subscribe_outcome-Serves AgpsState.acquired m s h idle v a = rw h (any_active-add s _ v)
subscribe_outcome-Serves AgpsState.releasing m s h idle v a = rw h (any_inactive-add s _ v)
subscribe_outcome-Serves AgpsState.invalid m s h idle v a = rw h tt

unsubscribe_from-Serves :
    (st : AgpsState) (m : AgpsStateMachine) (xs : List AgpsSubscriber)
    → m.state ≡ st
    → any_inactive_subscribers xs ≡ true
    → Serves st m.subscriber_list
    → IsServing (unsubscribe_from st m xs).0
unsubscribe_from-Serves AgpsState.released m xs h e v = rw h tt
unsubscribe_from-Serves AgpsState.invalid m xs h e v = rw h tt
unsubscribe_from-Serves AgpsState.releasing m xs h e v = rw h e
unsubscribe_from-Serves AgpsState.pending m xs h e v =
    elim (Bool-cases (any_active_subscribers xs)) [
      | inl some_active ↦ rw (some_active, h) some_active
      | inr none_active ↦ rw none_active e
    ]
unsubscribe_from-Serves AgpsState.acquired m xs h e v =
    elim (Bool-cases (any_active_subscribers xs)) [
      | inl some_active ↦ rw (some_active, h) some_active
      | inr none_active ↦ rw none_active e
    ]

close_outcome-Serves : (m : AgpsStateMachine) → IsServing (close_outcome m).0
close_outcome-Serves m =
    elim (Bool-cases (any_active_subscribers (filter (λ s. not s.is_inactive) m.subscriber_list))) [
      | inl some_active ↦ rw some_active some_active
      | inr none_active ↦ rw none_active tt
    ]

granted_outcome-Serves :
    (st : AgpsState) (m : AgpsStateMachine)
    → m.state ≡ st
    → Serves st m.subscriber_list
    → IsServing (granted_outcome st m).0
granted_outcome-Serves AgpsState.pending m h v = v
granted_outcome-Serves _ m h v = rw h v

released_outcome-Serves :
    (st : AgpsState) (m : AgpsStateMachine)
    → m.state ≡ st
    → Serves st m.subscriber_list
    → IsServing (released_outcome st m).0
released_outcome-Serves AgpsState.acquired m h v = tt
released_outcome-Serves AgpsState.releasing m h v = close_outcome-Serves m
released_outcome-Serves _ m h v = rw h v

denied_outcome-Serves :
    (st : AgpsState) (m : AgpsStateMachine)
    → m.state ≡ st
    → Serves st m.subscriber_list
    → IsServing (denied_outcome st m).0
denied_outcome-Serves AgpsState.pending m h v = tt
denied_outcome-Serves AgpsState.releasing m h v = close_outcome-Serves m
denied_outcome-Serves _ m h v = rw h v

-- On a machine with the invariant, an event that the manager sends keeps this: in PENDING and ACQUIRED
-- some subscriber is active, and in RELEASING some subscriber is inactive.
pub process_agps_event-IsServing :
    (e : AgpsEvent) (m : AgpsStateMachine)
    → Inv m
    → Ready e m
    → IsServing m
    → Returns IsServing (process_agps_event e m)
process_agps_event-IsServing e m v ready h =
    event_cases (λ q. IsServing q.0) e m v ready
      (λ s w a. subscribe_outcome-Serves m.state m s refl v.idle h a)
      (λ i s e. unsubscribe_from-Serves m.state m _ refl (any_inactive-set m.subscriber_list i e) h)
      (granted_outcome-Serves m.state m refl h) (released_outcome-Serves m.state m refl h)
      (denied_outcome-Serves m.state m refl h) h
