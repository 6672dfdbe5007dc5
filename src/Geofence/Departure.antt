-- ===== src/Geofence/Departure.antt =====
-- What becomes of the fences when their client goes, when the modem restarts, and who hears of a breach.
use android_device_xiaomi_ms.Base.{
  ℕ, ◌≡◌, ◌≢◌, refl, sym, true, false, not, ◌&&◌, none, some, List, [], ◌∷◌, arith, ◌==◌, find,
  insert, nat_key, Option-cases, Bool-cases, inl, inr, if◌then◌else◌, is_empty, if_both, ltb, All,
}
use android_device_xiaomi_ms.Core.{is_success}
use android_device_xiaomi_ms.Geofence.Types.{
  GeofenceKey, GeofenceObject, GeofenceAdapter, geofence_key, key_eq, key_eq_iff, ClientCallbacks,
}
use android_device_xiaomi_ms.Geofence.Items.{
  get_hw_id_from_client, get_geofence_key_from_hw_id, save_geofence_item,
}
use android_device_xiaomi_ms.Geofence.Sessions.{
  stop_loop, stop_client_sessions, Restart, restart_item, restart_loop, Answers, restarts,
  restart_geofences, breached_ids, notify_breach, geofence_breach,
}
use android_device_xiaomi_ms.Geofence.Linked.{IsLinked, key_of}
use mathlib.Core.List.{Memᴰ}

find-stop_loop :
    (client : ℕ) (k : GeofenceKey) (m : List (GeofenceKey × ℕ))
    → find k (stop_loop client m).0 ≡ (if client == k.client then none else find k m)
unfolding stop_loop find
find-stop_loop client k [] = ground arith
find-stop_loop client k ((j, hw) ∷ rest) =
    ground (arith, find-stop_loop client k rest, key_eq_iff j k)

stop_loop_requests :
    (k : GeofenceKey) (m : List (GeofenceKey × ℕ)) {hw : ℕ}
    → find k m ≡ some hw
    → Memᴰ (hw, k.id) (stop_loop k.client m).1
unfolding stop_loop find
stop_loop_requests k [] e = absurd (ground arith)
stop_loop_requests k ((j, h) ∷ rest) {hw} e = elim (Bool-cases (key_eq j k)) [
  | inl hit ↦
      let same : j ≡ k = (key_eq_iff j k).0 hit in
      let mine : (k.client == j.client) ≡ true = ground arith in
      let request : (hw, k.id) ≡ (h, j.id) = ground arith in rw mine (Memᴰ.head request)
  | inr miss ↦
      let later : find k rest ≡ some hw = ground arith in
      let found = stop_loop_requests k rest later in
      elim (Bool-cases (k.client == j.client)) [
        | inl mine ↦ rw mine (Memᴰ.tail found)
        | inr other ↦ rw other found
      ]
]

-- When a client with a fence goes, none of its ids is known any more, all others are as before, the fences
-- stay until the LocApi answers, and the LocApi is asked to remove the fence.
pub stop_client_sessions_lem :
    (client id hw : ℕ) (a : GeofenceAdapter)
    → get_hw_id_from_client client id a ≡ some hw
    → let (b, requests) = stop_client_sessions client a in
      ((k : GeofenceKey)
        → find k b.geofence_ids ≡ (if client == k.client then none else find k a.geofence_ids))
      × (b.geofences ≡ a.geofences)
      × Memᴰ (hw, id) requests
unfolding stop_client_sessions get_hw_id_from_client
stop_client_sessions_lem client id hw a e = (
  λ k. find-stop_loop client k a.geofence_ids,
  refl,
  stop_loop_requests (key_of client id) a.geofence_ids e,
)

abbrev pub IsRunning : ℕ × GeofenceObject → Type 0
IsRunning e = e.1.paused ≡ false

insert-IsRunning :
    (hw : ℕ) (o : GeofenceObject) (m : List (ℕ × GeofenceObject))
    → o.paused ≡ false
    → All IsRunning m
    → All IsRunning (insert hw o m)
unfolding insert
insert-IsRunning hw o [] p h = (p, tt)
insert-IsRunning hw o ((j, w) ∷ m) p h =
    let rest = insert-IsRunning hw o m p h.1 in
    if_both (All IsRunning) (j == hw) (p, h.1)
      (if_both (All IsRunning) (ltb hw j) (p, h) (h.0, rest))

restart_item-IsRunning :
    (r : Restart) (a : GeofenceAdapter)
    → All IsRunning a.geofences
    → All IsRunning (restart_item r a).0.geofences
unfolding restart_item save_geofence_item
restart_item-IsRunning r a h = elim (Bool-cases (is_success r.answer)) [
  | inl ok ↦ rw ok (insert-IsRunning r.hw_id _ a.geofences refl h)
  | inr refused ↦ rw refused h
]

restart_loop-IsRunning :
    (rs : List Restart) (a : GeofenceAdapter)
    → All IsRunning a.geofences
    → All IsRunning (restart_loop rs a).0.geofences
unfolding restart_loop
restart_loop-IsRunning [] a h = h
restart_loop-IsRunning (r ∷ rs) a h =
    restart_loop-IsRunning rs (restart_item r a).0 (restart_item-IsRunning r a h)

restarts_no_pauses :
    (answers : Answers) (m : List (ℕ × GeofenceObject)) (a : GeofenceAdapter)
    → All IsRunning m
    → (restart_loop (restarts answers m) a).1 ≡ []
unfolding restart_loop restarts
restarts_no_pauses answers [] a h = refl
restarts_no_pauses answers ((hw, o) ∷ rest) a h =
    let r : Restart = record { object = o; answer = (answers hw).0; hw_id = (answers hw).1 } in
    let none_here : (restart_item r a).1 ≡ [] = unfold restart_item in ground arith in
    rw none_here (restarts_no_pauses answers rest (restart_item r a).0 h.1)

restart-IsRunning :
    (answers : Answers) (a : GeofenceAdapter)
    → All IsRunning (restart_geofences answers a).0.geofences
unfolding restart_geofences
restart-IsRunning answers a = elim (Bool-cases (is_empty a.geofences)) [
  | inl empty ↦ let none_left : a.geofences ≡ [] = ground arith in rw empty (rw none_left tt)
  | inr some_left ↦ rw some_left (
      restart_loop-IsRunning (restarts answers a.geofences)
        (record a { geofences = []; geofence_ids = [] }) tt)
]

running_pauses_nothing :
    (answers : Answers) (a : GeofenceAdapter)
    → All IsRunning a.geofences
    → (restart_geofences answers a).1 ≡ []
unfolding restart_geofences
running_pauses_nothing answers a h = elim (Bool-cases (is_empty a.geofences)) [
  | inl empty ↦ rw empty refl
  | inr some_left ↦ rw some_left (restarts_no_pauses answers a.geofences _ h)
]

-- After a modem restart the adapter takes every fence for running, a paused one too, so a second restart
-- asks the LocApi to pause none.
pub second_restart_pauses_nothing :
    (first second : Answers) (a : GeofenceAdapter)
    → All IsRunning (restart_geofences first a).0.geofences
      × ((restart_geofences second (restart_geofences first a).0).1 ≡ [])
second_restart_pauses_nothing first second a =
    (restart-IsRunning first a, running_pauses_nothing second _ (restart-IsRunning first a))

-- The client has a fence with this id.
abbrev pub IsOwned : GeofenceAdapter → ℕ → ℕ → Type 0
IsOwned a client id = (hw : ℕ) × (get_hw_id_from_client client id a ≡ some hw)

breached_ids-IsOwned :
    (client : ℕ) (hws : List ℕ) (a : GeofenceAdapter)
    → IsLinked a
    → All (IsOwned a client) (breached_ids client hws a)
unfolding breached_ids
breached_ids-IsOwned client [] a v = tt
breached_ids-IsOwned client (hw ∷ rest) a v =
    let others = breached_ids-IsOwned client rest a v in
    elim (Option-cases (find hw a.geofences)) [
      | inl missing ↦
          let unknown : get_geofence_key_from_hw_id hw a ≡ none =
            unfold get_geofence_key_from_hw_id in rw missing refl in
          rw (unknown, breached_ids) others
      | inr (o, there) ↦
          let known : get_geofence_key_from_hw_id hw a ≡ some o.key =
            unfold get_geofence_key_from_hw_id in rw there refl in
          elim (Bool-cases (o.key.client == client)) [
            | inr other ↦ rw (known, breached_ids) (rw other others)
            | inl mine ↦
                let same : o.key ≡ key_of client o.key.id = ground arith in
                let linked : find (key_of client o.key.id) a.geofence_ids ≡ some hw =
                  rw (sym same) (v.backward hw o there) in
                let owned : IsOwned a client o.key.id =
                  (hw, unfold get_hw_id_from_client in linked) in
                rw (known, breached_ids) (rw mine (owned, others))
          ]
    ]

-- A client's share of a breach: at least one id, and only ids of its own.
abbrev pub IsShare : GeofenceAdapter → ℕ × List ℕ → Type 0
IsShare a (client, ids) = (ids ≢ []) × All (IsOwned a client) ids

notify_breach-IsShare :
    (clients : List (ℕ × ClientCallbacks)) (hws : List ℕ) (a : GeofenceAdapter)
    → IsLinked a
    → All (IsShare a) (notify_breach clients hws a)
unfolding notify_breach
notify_breach-IsShare [] hws a v = tt
notify_breach-IsShare ((client, cbs) ∷ rest) hws a v =
    let others = notify_breach-IsShare rest hws a v in
    let ids = breached_ids client hws a in
    elim (Bool-cases (not (is_empty ids) && cbs.geofence_breach_cb)) [
      | inr silent ↦ rw silent others
      | inl told ↦
          let some_id : ids ≢ [] = (λ none_left. ground arith) in
          rw told ((some_id, breached_ids-IsOwned client hws a v), others)
    ]

-- If the two maps are linked, each client that is notified of a breach hears of at least one fence,
-- and only of fences that are its own under the id it hears.
pub geofence_breach-IsShare :
    (hws : List ℕ) (a : GeofenceAdapter) → IsLinked a → All (IsShare a) (geofence_breach hws a)
unfolding geofence_breach
geofence_breach-IsShare hws a v = notify_breach-IsShare a.client_data hws a v
