-- ===== src/Agps/History.antt =====
-- The manager's commands in any order (gps/gnss/Agps.cpp), and what holds after them.
use android_device_xiaomi_ms.Base.{
  ℕ, suc, ◌≡◌, ◌≢◌, refl, true, false, Option, none, some, List, [], ◌∷◌, arith, inl, inr,
  get_elem?, Option-cases, ◌==◌, Bool-cases, subst,
}
use android_device_xiaomi_ms.Agps.Types.{
  AgpsEvent, AgpsExtType, AgpsSubscriber, AgpsStateMachine, Signal, outside, entry, dangling,
}
use android_device_xiaomi_ms.Agps.Subscribers.{get_subscriber}
use android_device_xiaomi_ms.Agps.Machine.{set_apn}
use android_device_xiaomi_ms.Agps.Invariant.{Inv, Ready, process_agps_event-Inv}
use android_device_xiaomi_ms.Agps.Manager.{
  AgpsManager, GpsConf, Nif, agnss, internet, get_nif, set_nif, get_agps_state_machine, dispatch,
  effective_request, request_from, request_atl, find_in, unsubscribe_at, release_atl, report,
  report_atl_open_success, report_atl_open_failed, report_atl_closed, drop_all_subscribers,
  handle_modem_ssr,
}
use mathlib.Core.Option

pub data Command : Type 0 where
  request : (handle : ℕ) (type : AgpsExtType) (mask : ℕ) → Command
  release : (handle : ℕ) → Command
  open_success : AgpsExtType → (apn : Option (List ℕ)) (apn_len bearer : ℕ) → Command
  open_failed closed : AgpsExtType → Command
  modem_ssr : Command

unfoldable pub perform : GpsConf → Command → AgpsManager → Option (AgpsManager × List Signal)
unfolding request_atl release_atl report_atl_open_success report_atl_open_failed report_atl_closed
    handle_modem_ssr
perform conf (request h t mask) mgr = request_atl conf h t mask mgr
perform conf (release h) mgr = release_atl h mgr
perform conf (open_success t apn len bearer) mgr = report_atl_open_success t apn len bearer mgr
perform conf (open_failed t) mgr = report_atl_open_failed t mgr
perform conf (closed t) mgr = report_atl_closed t mgr
perform conf modem_ssr mgr = some (handle_modem_ssr mgr, [])

abbrev pub OptInv : Option AgpsStateMachine → Type 0
OptInv none = Unit {0}
OptInv (some m) = Inv m

pub record ManagerInv (mgr : AgpsManager) : Type 0 where
  pub agnss_good : OptInv mgr.agnss_nif
  pub internet_good : OptInv mgr.internet_nif

-- The machine that a report is for is there.
abbrev pub IsAnswerable : Command → AgpsManager → Type 0
IsAnswerable (open_success t _ _ _) mgr = get_nif (get_agps_state_machine t) mgr ≢ none
IsAnswerable (open_failed t) mgr = get_nif (get_agps_state_machine t) mgr ≢ none
IsAnswerable (closed t) mgr = get_nif (get_agps_state_machine t) mgr ≢ none
IsAnswerable _ mgr = Unit {0}

abbrev pub Succeeds : Option (AgpsManager × List Signal) → Type 0
Succeeds r = (q : AgpsManager × List Signal) × (r ≡ some q) × ManagerInv q.0

-- A machine with the same list and state.
Inv-same :
    (m n : AgpsStateMachine)
    → n.subscriber_list ≡ m.subscriber_list
    → n.state ≡ m.state
    → Inv m
    → Inv n
Inv-same m n xs st v = record {
  good = rw xs v.good;
  idle = λ e. rw xs (v.idle (rw st at e));
  valid = λ e. v.valid (rw st at e);
}

set_nif-Inv :
    (nif : Nif) (m : AgpsStateMachine) (mgr : AgpsManager)
    → Inv m
    → ManagerInv mgr
    → ManagerInv (set_nif nif m mgr)
unfolding set_nif
set_nif-Inv agnss m mgr v g = record { agnss_good = v; internet_good = g.internet_good }
set_nif-Inv internet m mgr v g = record { agnss_good = g.agnss_good; internet_good = v }

get_nif-Inv :
    (nif : Nif) (mgr : AgpsManager) {m : AgpsStateMachine}
    → get_nif nif mgr ≡ some m
    → ManagerInv mgr
    → Inv m
unfolding get_nif
get_nif-Inv agnss mgr e g = subst OptInv e g.agnss_good
get_nif-Inv internet mgr e g = subst OptInv e g.internet_good

dispatch-Succeeds :
    (nif : Nif) (e : AgpsEvent) (m : AgpsStateMachine) (mgr : AgpsManager)
    → Inv m
    → Ready e m
    → ManagerInv mgr
    → Succeeds (dispatch nif e m mgr)
unfolding dispatch
dispatch-Succeeds nif e m mgr v r g =
    let (q, returned, w) = process_agps_event-Inv e m v r in
    ((set_nif nif q.0 mgr, q.1), rw returned, set_nif-Inv nif q.0 mgr w g)

-- The subscriber that `requestATL` makes.
abbrev pub new_subscriber : ℕ → ℕ → AgpsSubscriber
new_subscriber h mask = record {
  conn_handle = h;
  wait_for_close_complete = true;
  is_inactive = false;
  apn_type_mask = mask;
}

request_from-Succeeds :
    (h : ℕ) (t : AgpsExtType) (mask : ℕ) (mgr : AgpsManager)
    → ManagerInv mgr
    → Succeeds (request_from h t mask mgr)
unfolding request_from
request_from-Succeeds h t mask mgr g =
    elim (Option-cases (get_nif (get_agps_state_machine t) mgr)) [
      | inl missing ↦ rw (missing, request_from) (_, refl, g)
      | inr (m, there) ↦
          let ready = record m {
            agps_type = t;
            apn_type_mask = mask;
            current_subscriber = outside (new_subscriber h mask);
          } in
          let v : Inv ready = Inv-same m ready refl refl (get_nif-Inv _ mgr there g) in
          let (q, returned, w) =
            process_agps_event-Inv AgpsEvent.subscribe ready v
              (new_subscriber h mask, refl, refl, refl) in
          rw (there, request_from)
            (rw (returned, request_from)
              (
                _,
                refl,
                set_nif-Inv _ _ mgr
                    (Inv-same q.0 (record q.0 { current_subscriber = dangling }) refl refl w) g,
              ))
    ]

-- `getSubscriber` finds an entry of the list, with the handle.
pub get_subscriber_lem :
    (h : ℕ) (xs : List AgpsSubscriber) {i : ℕ}
    → get_subscriber h xs ≡ some i
    → (s : AgpsSubscriber) × (get_elem? xs i ≡ some s) × (s.conn_handle ≡ h)
unfolding get_subscriber
get_subscriber_lem h [] e = cc
get_subscriber_lem h (x ∷ xs) {i} e = elim (Bool-cases (x.conn_handle == h)) [
  | inl hit ↦ (x, ground arith, ground arith)
  | inr miss ↦ elim (Option-cases (get_subscriber h xs)) [
    | inl missing ↦ absurd (ground arith)
    | inr (j, found) ↦
        let (s, at, handle) = get_subscriber_lem h xs found in
        let next : i ≡ suc j = ground arith in (s, rw next at, handle)
  ]
]

find_in_lem :
    (h : ℕ) (o : Option AgpsStateMachine) {m : AgpsStateMachine} {i : ℕ}
    → find_in h o ≡ some (m, i)
    → (o ≡ some m) × (get_subscriber h m.subscriber_list ≡ some i)
unfolding find_in
find_in_lem h none e = cc
find_in_lem h (some n) e = ground arith

unsubscribe_at-Succeeds :
    (nif : Nif) (h : ℕ) (m : AgpsStateMachine) (i : ℕ) (mgr : AgpsManager)
    → get_nif nif mgr ≡ some m
    → get_subscriber h m.subscriber_list ≡ some i
    → ManagerInv mgr
    → Succeeds (unsubscribe_at nif m i mgr)
unfolding unsubscribe_at
unsubscribe_at-Succeeds nif h m i mgr there found g =
    let (s, at, handle) = get_subscriber_lem h m.subscriber_list found in
    let ready = record m { current_subscriber = entry i } in
    dispatch-Succeeds nif AgpsEvent.unsubscribe ready mgr
      (Inv-same m ready refl refl (get_nif-Inv nif mgr there g)) (i, s, refl, at) g

release_atl-Succeeds : (h : ℕ) (mgr : AgpsManager) → ManagerInv mgr → Succeeds (release_atl h mgr)
unfolding release_atl get_nif
release_atl-Succeeds h mgr g = elim (Option-cases (find_in h mgr.agnss_nif)) [
  | inr ((m, i), found) ↦
      let (there, at) = find_in_lem h mgr.agnss_nif found in
      rw (found, release_atl) (unsubscribe_at-Succeeds agnss h m i mgr there at g)
  | inl missing ↦ elim (Option-cases (find_in h mgr.internet_nif)) [
    | inr ((m, i), found) ↦
        let (there, at) = find_in_lem h mgr.internet_nif found in
        rw (missing, release_atl)
          (rw (found, release_atl) (unsubscribe_at-Succeeds internet h m i mgr there at g))
    | inl absent ↦ rw (missing, release_atl) (rw (absent, release_atl) (_, refl, g))
  ]
]

report-Succeeds :
    (t : AgpsExtType) (prepare : AgpsStateMachine → AgpsStateMachine) (e : AgpsEvent)
    (mgr : AgpsManager)
    → ((m : AgpsStateMachine) → Inv m → Inv (prepare m) × Ready e (prepare m))
    → get_nif (get_agps_state_machine t) mgr ≢ none
    → ManagerInv mgr
    → Succeeds (report t prepare e mgr)
unfolding report
report-Succeeds t prepare e mgr keep there g =
    elim (Option-cases (get_nif (get_agps_state_machine t) mgr)) [
      | inl missing ↦ absurd (there missing)
      | inr (m, found) ↦
          let (v, r) = keep m (get_nif-Inv _ mgr found g) in
          rw (found, report) (dispatch-Succeeds _ e (prepare m) mgr v r g)
    ]

set_apn-Inv :
    (apn : Option (List ℕ)) (len bearer : ℕ) (m : AgpsStateMachine)
    → Inv m
    → Inv (set_apn apn len (record m { bearer = bearer }))
unfolding set_apn
set_apn-Inv apn len bearer m v =
    Inv-same m (set_apn apn len (record m { bearer = bearer })) (ground arith) (ground arith) v

drop_all-OptInv :
    (o : Option AgpsStateMachine) → OptInv o → OptInv (Option.map drop_all_subscribers o)
unfolding drop_all_subscribers
drop_all-OptInv none v = tt
drop_all-OptInv (some m) v = record {
  good = record { distinct = tt; waits = tt };
  idle = λ e. refl;
  valid = v.valid;
}

-- Every command for which the machine is there returns, and keeps the invariant of both machines.
pub perform-Succeeds :
    (conf : GpsConf) (c : Command) (mgr : AgpsManager)
    → IsAnswerable c mgr
    → ManagerInv mgr
    → Succeeds (perform conf c mgr)
unfolding perform
perform-Succeeds conf (request h t mask) mgr a g =
    let (t', mask') = effective_request conf t mask in request_from-Succeeds h t' mask' mgr g
perform-Succeeds conf (release h) mgr a g = release_atl-Succeeds h mgr g
perform-Succeeds conf (open_success t apn len bearer) mgr a g =
    report-Succeeds t _ AgpsEvent.granted mgr (λ m v. (set_apn-Inv apn len bearer m v, tt)) a g
perform-Succeeds conf (open_failed t) mgr a g =
    report-Succeeds t _ AgpsEvent.denied mgr (λ m v. (v, tt)) a g
perform-Succeeds conf (closed t) mgr a g =
    report-Succeeds t _ AgpsEvent.released mgr (λ m v. (v, tt)) a g
perform-Succeeds conf modem_ssr mgr a g = (
  _,
  refl,
  record {
    agnss_good = drop_all-OptInv mgr.agnss_nif g.agnss_good;
    internet_good = drop_all-OptInv mgr.internet_nif g.internet_good;
  },
)
