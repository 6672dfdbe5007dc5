-- ===== src/Agps/Endings.antt =====
-- Who is told that its data connection has ended, and who leaves the subscriber list.
use android_device_xiaomi_ms.Base.{
  ℕ, zero, suc, ◌≡◌, refl, sym, subst, ◌∙◌, Bool, true, false, not, ◌&&◌, ◌||◌, some, List, [], ◌∷◌,
  ◌++◌, arith, ◌==◌, any, filter, get_elem?, set, Bool-cases, inl, inr,
}
use android_device_xiaomi_ms.Agps.Types.{
  AgpsState, AgpsEvent, AgpsSubscriber, AgpsStateMachine, Signal, atl_open_status, atl_close_status,
  framework_status, request_agps_data_conn,
}
use android_device_xiaomi_ms.Agps.Subscribers.{add_subscriber}
use android_device_xiaomi_ms.Agps.Machine.{callbacks}
use android_device_xiaomi_ms.Agps.Events.{process_agps_event}
use android_device_xiaomi_ms.Agps.Loops.{all_callbacks}
use android_device_xiaomi_ms.Agps.Distinct.{IsAbsent, Distinct}
use android_device_xiaomi_ms.Agps.Outcome.{
  Outcome, inactive, subscribe_outcome, unsubscribe_from, close_outcome, granted_outcome,
  released_outcome, denied_outcome,
}
use android_device_xiaomi_ms.Agps.Invariant.{Inv, Ready, event_cases}

-- Is there a subscriber with the handle?
abbrev pub is_registered : ℕ → List AgpsSubscriber → Bool
is_registered h = any (λ s. s.conn_handle == h)

-- A close notice, or an open notice that reports a failure, for the handle.
abbrev pub ends : ℕ → Signal → Bool
ends h (atl_close_status handle _) = handle == h
ends h (atl_open_status handle is_success _ _ _ _ _) = handle == h && is_success == 0
ends h (framework_status _ _ _) = false

abbrev pub is_told_end : ℕ → List Signal → Bool
is_told_end h = any (ends h)

-- The handle is told of an end exactly if it was in the list and is no more.
abbrev pub TellsLeavers : ℕ → AgpsStateMachine → Outcome → Type 0
TellsLeavers h m q =
    is_told_end h q.1
    ≡ (is_registered h m.subscriber_list && not (is_registered h q.0.subscriber_list))

any-append {ℓ} :
    {A : Type ℓ} (p : A → Bool) (xs ys : List A) → any p (xs ++ ys) ≡ (any p xs || any p ys)
any-append p [] ys = refl
any-append p (x ∷ xs) ys = ground (arith, any-append p xs ys)

granted_tells_no_end :
    (h : ℕ) (m : AgpsStateMachine) (xs : List AgpsSubscriber)
    → is_told_end h (all_callbacks m AgpsEvent.granted xs) ≡ false
unfolding callbacks
granted_tells_no_end h m [] = refl
granted_tells_no_end h m (x ∷ xs) = ground (arith, granted_tells_no_end h m xs)

released_tells_all :
    (h : ℕ) (m : AgpsStateMachine) (xs : List AgpsSubscriber)
    → is_told_end h (all_callbacks m AgpsEvent.released xs) ≡ is_registered h xs
unfolding callbacks
released_tells_all h m [] = refl
released_tells_all h m (x ∷ xs) = ground (arith, released_tells_all h m xs)

denied_tells_all :
    (h : ℕ) (m : AgpsStateMachine) (xs : List AgpsSubscriber)
    → is_told_end h (all_callbacks m AgpsEvent.denied xs) ≡ is_registered h xs
unfolding callbacks
denied_tells_all h m [] = refl
denied_tells_all h m (x ∷ xs) = ground (arith, denied_tells_all h m xs)

is_registered-add :
    (h : ℕ) (s : AgpsSubscriber) (xs : List AgpsSubscriber)
    → (is_registered h xs && not (is_registered h (add_subscriber s xs))) ≡ false
unfolding add_subscriber
is_registered-add h s xs =
    ground (arith, any-append (λ (t : AgpsSubscriber). t.conn_handle == h) xs (s ∷ []))

is_registered-set :
    (h : ℕ) (xs : List AgpsSubscriber) (i : ℕ) {s : AgpsSubscriber}
    → get_elem? xs i ≡ some s
    → is_registered h (set xs i (inactive s)) ≡ is_registered h xs
is_registered-set h [] i e = refl
is_registered-set h (x ∷ xs) zero e = ground arith
is_registered-set h (x ∷ xs) (suc i) e = ground (arith, is_registered-set h xs i e)

-- Of a list with distinct handles each half has what the other has not.
absent_not_registered :
    (h : ℕ) (xs : List AgpsSubscriber) → IsAbsent h xs → is_registered h xs ≡ false
absent_not_registered h [] a = refl
absent_not_registered h (x ∷ xs) a = ground (arith, absent_not_registered h xs a.1)

filter_not_registered :
    (p : AgpsSubscriber → Bool) (h : ℕ) (xs : List AgpsSubscriber)
    → is_registered h xs ≡ false
    → is_registered h (filter p xs) ≡ false
filter_not_registered p h [] e = refl
filter_not_registered p h (x ∷ xs) e = ground (arith, filter_not_registered p h xs)

is_registered-split :
    (h : ℕ) (xs : List AgpsSubscriber)
    → Distinct xs
    → is_registered h (filter (λ s. s.is_inactive) xs)
      ≡ (is_registered h xs && not (is_registered h (filter (λ s. not s.is_inactive) xs)))
is_registered-split h [] d = refl
is_registered-split h (x ∷ xs) d = elim (Bool-cases (x.conn_handle == h)) [
  | inl hit ↦
      let same : x.conn_handle ≡ h = ground arith in
      let gone : is_registered h xs ≡ false =
        absent_not_registered h xs (subst (λ k. IsAbsent k xs) same d.0) in
      ground (
        arith,
        gone,
        filter_not_registered (λ (s : AgpsSubscriber). s.is_inactive) h xs gone,
        filter_not_registered (λ (s : AgpsSubscriber). not s.is_inactive) h xs gone,
      )
  | inr miss ↦ ground (arith, is_registered-split h xs d.1)
]

and_not_self : (b : Bool) → (b && not b) ≡ false
and_not_self true = refl
and_not_self false = refl

unchanged_TellsLeavers : (h : ℕ) (m : AgpsStateMachine) → TellsLeavers h m (m, [])
unchanged_TellsLeavers h m = sym (and_not_self (is_registered h m.subscriber_list))

subscribe_TellsLeavers :
    (h : ℕ) (st : AgpsState) (m : AgpsStateMachine) (s : AgpsSubscriber)
    → TellsLeavers h m (subscribe_outcome st m s)
unfolding callbacks
subscribe_TellsLeavers h AgpsState.invalid m s = unchanged_TellsLeavers h m
subscribe_TellsLeavers h _ m s = ground (arith, is_registered-add h s m.subscriber_list)

unsubscribe_TellsLeavers :
    (h : ℕ) (st : AgpsState) (m : AgpsStateMachine) (i : ℕ) (s : AgpsSubscriber)
    → get_elem? m.subscriber_list i ≡ some s
    → TellsLeavers h m (unsubscribe_from st m (set m.subscriber_list i (inactive s)))
unsubscribe_TellsLeavers h AgpsState.released m i s e = unchanged_TellsLeavers h m
unsubscribe_TellsLeavers h _ m i s e = ground (
  arith,
  is_registered-set h m.subscriber_list i {s = s} e,
  and_not_self (is_registered h m.subscriber_list),
)

close_TellsLeavers : (h : ℕ) (m : AgpsStateMachine) → Inv m → TellsLeavers h m (close_outcome m)
close_TellsLeavers h m v =
    let others = filter (λ (s : AgpsSubscriber). s.is_inactive) m.subscriber_list in
    let told = all_callbacks m AgpsEvent.released others in
    ground (
      arith,
      any-append (ends h) told [],
      any-append (ends h) told
          (framework_status m.agps_type m.apn_type_mask request_agps_data_conn ∷ []),
      released_tells_all h m others,
      is_registered-split h m.subscriber_list v.good.distinct,
    )

granted_TellsLeavers :
    (h : ℕ) (st : AgpsState) (m : AgpsStateMachine) → TellsLeavers h m (granted_outcome st m)
granted_TellsLeavers h AgpsState.pending m = granted_tells_no_end h m _ ∙ unchanged_TellsLeavers h m
granted_TellsLeavers h _ m = unchanged_TellsLeavers h m

released_TellsLeavers :
    (h : ℕ) (st : AgpsState) (m : AgpsStateMachine)
    → Inv m
    → TellsLeavers h m (released_outcome st m)
released_TellsLeavers h AgpsState.acquired m v =
    ground (arith, released_tells_all h m m.subscriber_list)
released_TellsLeavers h AgpsState.releasing m v = close_TellsLeavers h m v
released_TellsLeavers h _ m v = unchanged_TellsLeavers h m

denied_TellsLeavers :
    (h : ℕ) (st : AgpsState) (m : AgpsStateMachine) → Inv m → TellsLeavers h m (denied_outcome st m)
denied_TellsLeavers h AgpsState.pending m v = ground (arith, denied_tells_all h m m.subscriber_list)
denied_TellsLeavers h AgpsState.releasing m v = close_TellsLeavers h m v
denied_TellsLeavers h _ m v = unchanged_TellsLeavers h m

-- On a machine with the invariant, an event that the manager sends tells a handle that its connection
-- has ended, or could not be opened, exactly if the handle was among the subscribers before the event
-- and is not after it.
pub process_agps_event-TellsLeavers :
    (h : ℕ) (e : AgpsEvent) (m : AgpsStateMachine)
    → Inv m
    → Ready e m
    → (q : Outcome) × (process_agps_event e m ≡ some q) × TellsLeavers h m q
process_agps_event-TellsLeavers h e m v ready =
    event_cases (TellsLeavers h m) e m v ready (λ s w a. subscribe_TellsLeavers h m.state m s)
      (λ i s e. unsubscribe_TellsLeavers h m.state m i s e) (granted_TellsLeavers h m.state m)
      (released_TellsLeavers h m.state m v) (denied_TellsLeavers h m.state m v)
      (unchanged_TellsLeavers h m)
