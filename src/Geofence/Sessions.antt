-- ===== src/Geofence/Sessions.antt =====
-- What happens to the geofences when a client goes, when the modem restarts and when a fence is
-- breached (gps/geofence/GeofenceAdapter.cpp).
use android_device_xiaomi_ms.Base.{
  ℕ, Bool, not, ◌&&◌, none, some, List, [], ◌∷◌, ◌++◌, ◌==◌, erase, nat_key, is_empty,
  if◌then◌else◌,
}
use android_device_xiaomi_ms.Core.{LocationError, is_success}
use android_device_xiaomi_ms.Geofence.Types.{
  GeofenceKey, GeofenceObject, GeofenceOption, GeofenceInfo, GeofenceAdapter, ClientCallbacks,
  geofence_key,
}
use android_device_xiaomi_ms.Geofence.Items.{save_geofence_item, get_geofence_key_from_hw_id}

abbrev pub is_of : ℕ → GeofenceKey × ℕ → Bool
is_of client (key, hw_id) = client == key.client

-- The loop of `stopClientSessions`: the entries of the client go, and for each the LocApi is asked to
-- remove the fence.
unfoldable pub stop_loop : ℕ → List (GeofenceKey × ℕ) → List (GeofenceKey × ℕ) × List (ℕ × ℕ)
stop_loop client [] = ([], [])
stop_loop client ((key, hw_id) ∷ rest) =
    let (kept, requests) = stop_loop client rest in
    if client == key.client
    then (kept, (hw_id, key.id) ∷ requests)
    else ((key, hw_id) ∷ kept, requests)

unfoldable pub stop_client_sessions : ℕ → GeofenceAdapter → GeofenceAdapter × List (ℕ × ℕ)
unfolding stop_loop
stop_client_sessions client a =
    let (kept, requests) = stop_loop client a.geofence_ids in
    (record a { geofence_ids = kept }, requests)

-- The LocApi's answer to one of the requests.
unfoldable pub stop_response : ℕ → LocationError → GeofenceAdapter → GeofenceAdapter
unfolding erase
stop_response hw_id err a =
    if is_success err then record a { geofences = erase hw_id a.geofences } else a

-- A fence that the restart adds again, with the LocApi's answer and the new hardware id.
pub record Restart : Type 0 where
  pub object : GeofenceObject
  pub answer : LocationError
  pub hw_id : ℕ

-- The options and the info that the restart takes from an object.
abbrev pub options_of : GeofenceObject → GeofenceOption
options_of o = record {
  breach_type_mask = o.breach_mask;
  responsiveness = o.responsiveness;
  dwell_time = o.dwell_time;
}

abbrev pub info_of : GeofenceObject → GeofenceInfo
info_of o = record { latitude = o.latitude; longitude = o.longitude; radius = o.radius }

-- The answer to one `addGeofence` of the restart: the adapter, and the ids of the fence that the LocApi
-- is asked to pause.
unfoldable pub restart_item : Restart → GeofenceAdapter → GeofenceAdapter × List (ℕ × ℕ)
unfolding save_geofence_item
restart_item r a =
    if is_success r.answer
    then (
      save_geofence_item r.object.key.client r.object.key.id r.hw_id (options_of r.object)
          (info_of r.object) a,
      if r.object.paused then (r.hw_id, r.object.key.id) ∷ [] else [],
    )
    else (a, [])

unfoldable pub restart_loop : List Restart → GeofenceAdapter → GeofenceAdapter × List (ℕ × ℕ)
unfolding restart_item
restart_loop [] a = (a, [])
restart_loop (r ∷ rs) a =
    let (a', pauses) = restart_loop rs (restart_item r a).0 in (a', (restart_item r a).1 ++ pauses)

-- What the LocApi answers to the fence of a hardware id, and the id that it gives.
abbrev pub Answers : Type 0
Answers = ℕ → LocationError × ℕ

unfoldable pub restarts : Answers → List (ℕ × GeofenceObject) → List Restart
restarts answers [] = []
restarts answers ((hw_id, o) ∷ rest) =
    record { object = o; answer = (answers hw_id).0; hw_id = (answers hw_id).1 }
    ∷ restarts answers rest

-- `restartGeofences`.
unfoldable pub restart_geofences : Answers → GeofenceAdapter → GeofenceAdapter × List (ℕ × ℕ)
unfolding restart_loop restarts
restart_geofences answers a =
    if is_empty a.geofences
    then (a, [])
    else restart_loop (restarts answers a.geofences)
        (record a { geofences = []; geofence_ids = [] })

-- The ids of a client among the fences of a breach, in their order.
unfoldable pub breached_ids : ℕ → List ℕ → GeofenceAdapter → List ℕ
unfolding get_geofence_key_from_hw_id
breached_ids client [] a = []
breached_ids client (hw_id ∷ rest) a =
    let others = breached_ids client rest a in
    elim (get_geofence_key_from_hw_id hw_id a) [
      | none ↦ others
      | some key ↦ if key.client == client then key.id ∷ others else others
    ]

-- `geofenceBreach`: the notifications, each a client and its ids.
unfoldable pub notify_breach :
    List (ℕ × ClientCallbacks) → List ℕ → GeofenceAdapter → List (ℕ × List ℕ)
unfolding breached_ids
notify_breach [] hw_ids a = []
notify_breach ((client, cbs) ∷ rest) hw_ids a =
    let others = notify_breach rest hw_ids a in
    if not (is_empty (breached_ids client hw_ids a)) && cbs.geofence_breach_cb
    then (client, breached_ids client hw_ids a) ∷ others
    else others

unfoldable pub geofence_breach : List ℕ → GeofenceAdapter → List (ℕ × List ℕ)
unfolding notify_breach
geofence_breach hw_ids a = notify_breach a.client_data hw_ids a
