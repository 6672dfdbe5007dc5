-- ===== src/Agps/Runs.antt =====
-- Histories of the AGPS manager's commands.
use android_device_xiaomi_ms.Base.{
  ℕ, ◌≡◌, ◌≢◌, refl, subst, Option, none, some, List, [], ◌∷◌, ◌++◌, arith, inl, inr, Option-cases,
}
use android_device_xiaomi_ms.Agps.Types.{AgpsEvent, AgpsExtType, AgpsStateMachine, Signal, dangling}
use android_device_xiaomi_ms.Agps.Manager.{
  AgpsManager, GpsConf, Nif, agnss, internet, get_nif, set_nif, get_agps_state_machine,
  effective_request, request_from, release_atl, find_in, report, drop_all_subscribers,
  handle_modem_ssr,
}
use android_device_xiaomi_ms.Agps.History.{
  Command, request, release, open_success, open_failed, closed, modem_ssr, perform, ManagerInv,
  IsAnswerable, Succeeds, perform-Succeeds,
}
use mathlib.Core.Option

-- The commands one after the other, with all callbacks.
unfoldable pub run : GpsConf → List Command → AgpsManager → Option (AgpsManager × List Signal)
run conf [] mgr = some (mgr, [])
run conf (c ∷ cs) mgr = elim (perform conf c mgr) [
  | none ↦ none
  | some (mgr', sent) ↦ Option.map (λ r. (r.0, sent ++ r.1)) (run conf cs mgr')
]

-- Both state machines have been created.
abbrev pub HasBoth : AgpsManager → Type 0
HasBoth mgr = (mgr.agnss_nif ≢ none) × (mgr.internet_nif ≢ none)

-- `r` has no machine less than `mgr`.
abbrev Keeps : AgpsManager → Option (AgpsManager × List Signal) → Type 0
Keeps mgr r = HasBoth mgr → (q : AgpsManager × List Signal) → r ≡ some q → HasBoth q.0

set_nif-HasBoth :
    (nif : Nif) (m : AgpsStateMachine) (mgr : AgpsManager)
    → HasBoth mgr
    → HasBoth (set_nif nif m mgr)
unfolding set_nif
set_nif-HasBoth agnss m mgr b = ((λ e. cc), b.1)
set_nif-HasBoth internet m mgr b = (b.0, (λ e. cc))

get_nif-HasBoth : (nif : Nif) (mgr : AgpsManager) → HasBoth mgr → get_nif nif mgr ≢ none
unfolding get_nif
get_nif-HasBoth agnss mgr b = b.0
get_nif-HasBoth internet mgr b = b.1

map-set_nif-Keeps :
    (nif : Nif) (f : AgpsStateMachine → AgpsStateMachine) (mgr : AgpsManager)
    (r : Option (AgpsStateMachine × List Signal))
    → Keeps mgr (Option.map (λ p. (set_nif nif (f p.0) mgr, p.1)) r)
map-set_nif-Keeps nif f mgr none b q e = absurd (ground arith)
map-set_nif-Keeps nif f mgr (some p) b q e =
    let result : (set_nif nif (f p.0) mgr, p.1) ≡ q = cc in
    subst (λ x. HasBoth x.0) result (set_nif-HasBoth nif (f p.0) mgr b)

same-Keeps : (mgr : AgpsManager) (sent : List Signal) → Keeps mgr (some (mgr, sent))
same-Keeps mgr sent b q e = let result : (mgr, sent) ≡ q = cc in subst (λ x. HasBoth x.0) result b

request_from-Keeps :
    (h : ℕ) (t : AgpsExtType) (mask : ℕ) (mgr : AgpsManager) → Keeps mgr (request_from h t mask mgr)
unfolding request_from
request_from-Keeps h t mask mgr = elim (Option-cases (get_nif (get_agps_state_machine t) mgr)) [
  | inl missing ↦ rw (missing, request_from) (same-Keeps mgr _)
  | inr (m, there) ↦
      rw (there, request_from)
        (map-set_nif-Keeps _ (λ n. record n { current_subscriber = dangling }) mgr _)
]

release_atl-Keeps : (h : ℕ) (mgr : AgpsManager) → Keeps mgr (release_atl h mgr)
unfolding release_atl
release_atl-Keeps h mgr = elim (Option-cases (find_in h mgr.agnss_nif)) [
  | inr ((m, i), found) ↦ rw (found, release_atl) (map-set_nif-Keeps agnss (λ n. n) mgr _)
  | inl missing ↦ elim (Option-cases (find_in h mgr.internet_nif)) [
    | inr ((m, i), found) ↦
        rw (missing, release_atl)
          (rw (found, release_atl) (map-set_nif-Keeps internet (λ n. n) mgr _))
    | inl absent ↦ rw (missing, release_atl) (rw (absent, release_atl) (same-Keeps mgr []))
  ]
]

report-Keeps :
    (t : AgpsExtType) (prepare : AgpsStateMachine → AgpsStateMachine) (e : AgpsEvent)
    (mgr : AgpsManager)
    → Keeps mgr (report t prepare e mgr)
unfolding report
report-Keeps t prepare e mgr = elim (Option-cases (get_nif (get_agps_state_machine t) mgr)) [
  | inl missing ↦ rw (missing, report) (λ b q e. cc)
  | inr (m, there) ↦ rw (there, report) (map-set_nif-Keeps _ (λ n. n) mgr _)
]

dropped : (o : Option AgpsStateMachine) → o ≢ none → Option.map drop_all_subscribers o ≢ none
dropped none n e = n refl
dropped (some m) n e = cc

perform-Keeps : (conf : GpsConf) (c : Command) (mgr : AgpsManager) → Keeps mgr (perform conf c mgr)
unfolding perform
perform-Keeps conf (request h t mask) mgr =
    let (t', mask') = effective_request conf t mask in request_from-Keeps h t' mask' mgr
perform-Keeps conf (release h) mgr = release_atl-Keeps h mgr
perform-Keeps conf (open_success t apn len bearer) mgr = report-Keeps t _ AgpsEvent.granted mgr
perform-Keeps conf (open_failed t) mgr = report-Keeps t _ AgpsEvent.denied mgr
perform-Keeps conf (closed t) mgr = report-Keeps t _ AgpsEvent.released mgr
perform-Keeps conf modem_ssr mgr = λ b q e.
    let result : (handle_modem_ssr mgr, []) ≡ q = cc in
    subst (λ x. HasBoth x.0) result (dropped mgr.agnss_nif b.0, dropped mgr.internet_nif b.1)

answerable : (c : Command) (mgr : AgpsManager) → HasBoth mgr → IsAnswerable c mgr
answerable (request h t mask) mgr b = tt
answerable (open_success t apn len bearer) mgr b = get_nif-HasBoth (get_agps_state_machine t) mgr b
answerable (open_failed t) mgr b = get_nif-HasBoth (get_agps_state_machine t) mgr b
answerable (closed t) mgr b = get_nif-HasBoth (get_agps_state_machine t) mgr b
answerable _ mgr b = tt

-- With both state machines created and with the invariant, every history of commands, modem restarts
-- included, runs to its end, and leaves both machines with distinct handles, with subscribers that all
-- wait for the close, with none in the state RELEASED, and in a valid state.
pub run-Succeeds :
    (conf : GpsConf) (cs : List Command) (mgr : AgpsManager)
    → HasBoth mgr
    → ManagerInv mgr
    → Succeeds (run conf cs mgr)
unfolding run
run-Succeeds conf [] mgr b g = ((mgr, []), refl, g)
run-Succeeds conf (c ∷ cs) mgr b g =
    let (q, done, v) = perform-Succeeds conf c mgr (answerable c mgr b) g in
    let (r, rest, w) = run-Succeeds conf cs q.0 (perform-Keeps conf c mgr b q done) v in
    ((r.0, q.1 ++ r.1), rw (done, run) (rw rest), w)

not_answerable : (o : Option AgpsStateMachine) → ¬ (o ≢ none) → o ≡ none
not_answerable none n = refl
not_answerable (some m) n = absurd (n (λ e. cc))

-- A report for a type whose state machine was never created calls a method on NULL.
pub report_null :
    (conf : GpsConf) (c : Command) (mgr : AgpsManager)
    → ¬ IsAnswerable c mgr
    → perform conf c mgr ≡ none
unfolding perform
report_null conf (request h t mask) mgr n = absurd (n tt)
report_null conf (open_success t apn len bearer) mgr n =
    ground (arith, not_answerable (get_nif (get_agps_state_machine t) mgr) n)
report_null conf (open_failed t) mgr n =
    ground (arith, not_answerable (get_nif (get_agps_state_machine t) mgr) n)
report_null conf (closed t) mgr n =
    ground (arith, not_answerable (get_nif (get_agps_state_machine t) mgr) n)
report_null conf _ mgr n = absurd (n tt)
