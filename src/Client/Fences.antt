-- ===== src/Client/Fences.antt =====
-- The fences of a client: the commands on geofences of gps/location/LocationAPIClientBase.cpp, with the
-- requests of gps/location/LocationAPIClientBase.h that translate the responses.
use android_device_xiaomi_ms.Base.{
  ℕ, ◌%◌, Bool, ◌&&◌, Option, none, some, List, [], ◌∷◌, ◌++◌, map, ltb, ◌==◌, if◌then◌else◌,
  is_empty,
}
use Prim.Native.Nat.{◌/◌}
use android_device_xiaomi_ms.Core.{LocationError}
use android_device_xiaomi_ms.Geofence.Types.{GeofenceOption}
use android_device_xiaomi_ms.Client.BiDict.{
  BiDict, empty_dict, set_entry, rm_by_session, get_id, get_session, get_ext_by_session,
  get_all_sessions,
}

-- A `BiDict<GeofenceBreachTypeMask>`.
abbrev pub FenceDict : Type 0
FenceDict = BiDict ℕ

-- The requests that wait for a collective response.
pub data FenceRequest : Type 0 where
  add_request modify_request pause_request resume_request : FenceRequest
  remove_request : FenceDict → FenceRequest

-- What the `LocationAPI` is asked for, by sessions, and what the client is told, by ids. In a
-- modification a session comes with the options at its place in the array.
pub data FenceOutput : Type 0 where
  api_remove api_pause api_resume : List ℕ → FenceOutput
  api_modify : List (ℕ × GeofenceOption) → FenceOutput
  told : FenceRequest → List LocationError → List ℕ → FenceOutput
  breach_told : List ℕ → FenceOutput

-- `mGeofenceBiDict`, the queue `mRequestQueues[REQUEST_GEOFENCE]` with its session, and whether
-- `mLocationAPI` and `mGeofenceBreachCallback` are set.
pub record FenceClient : Type 0 where
  pub fences : FenceDict
  pub queue : List FenceRequest
  pub queue_session : ℕ
  pub has_api : Bool
  pub has_breach_cb : Bool

abbrev pub geofence_session_id : ℕ
geofence_session_id = 4294967295

-- The loop of `locAPIAddGeofences`, over ids with their masks, and sessions.
unfoldable pub add_loop : List (ℕ × ℕ) → List ℕ → FenceDict → FenceDict
add_loop ((id, mask) ∷ ids) (session ∷ sessions) d =
    add_loop ids sessions (set_entry id session mask d)
add_loop _ _ d = d

abbrev pub reset_queue : FenceClient → FenceClient
reset_queue c =
    if c.queue_session == geofence_session_id
    then c
    else record c { queue = []; queue_session = geofence_session_id }

-- `locAPIAddGeofences`, with what `addGeofences` gives: NULL, or an array of sessions.
unfoldable pub loc_api_add_geofences :
    List (ℕ × ℕ) → Option (List ℕ) → FenceClient → FenceClient × LocationError
unfolding add_loop
loc_api_add_geofences ids answer c =
    if c.has_api
    then elim answer [
      | none ↦ (reset_queue c, LocationError.general_failure)
      | some sessions ↦
          let c' = reset_queue c in
          (
            record c' {
              fences = add_loop ids sessions c'.fences;
              queue = c'.queue ++ add_request ∷ [];
            },
            LocationError.success,
          )
    ]
    else (c, LocationError.general_failure)

-- The loop of `locAPIRemoveGeofences`: the fences, those removed, and the sessions.
unfoldable pub remove_loop : List ℕ → FenceDict → FenceDict → FenceDict × FenceDict × List ℕ
remove_loop [] d removed = (d, removed, [])
remove_loop (id ∷ ids) d removed =
    let session = get_session id d in
    let mask = get_ext_by_session 0 session d in
    let next = remove_loop ids (rm_by_session session d) (set_entry id session mask removed) in
    let skip = remove_loop ids d removed in
    if ltb 0 session then (next.0, next.1, session ∷ next.2) else skip

abbrev pub Answered : Type 0
Answered = FenceClient × List (FenceOutput)

-- A command on fences: it is refused where there is no API or no session.
abbrev pub if_open : FenceClient → Answered → Answered
if_open c answered =
    if c.has_api && c.queue_session == geofence_session_id then answered else (c, [])

-- `locAPIRemoveGeofences`.
unfoldable pub loc_api_remove_geofences : List ℕ → FenceClient → Answered
unfolding remove_loop
loc_api_remove_geofences ids c =
    let (d, removed, sessions) = remove_loop ids c.fences empty_dict in
    let c' = record c { fences = d } in
    if_open c (
      if is_empty sessions
      then (c', [])
      else (record c' { queue = c.queue ++ remove_request removed ∷ [] }, api_remove sessions ∷ []))

-- `locAPIRemoveAllGeofences`.
unfoldable pub loc_api_remove_all_geofences : FenceClient → Answered
unfolding loc_api_remove_geofences
loc_api_remove_all_geofences c =
    let sessions = get_all_sessions c.fences in
    if is_empty sessions then (c, []) else loc_api_remove_geofences sessions c

-- The entry with a new mask, if there is one.
abbrev pub with_new_mask : ℕ → ℕ → Option ℕ → FenceDict → FenceDict
with_new_mask id session none d = d
with_new_mask id session (some mask) d = set_entry id session mask d

-- The sessions of the ids that have one, and the fences with the new masks where there is one.
unfoldable pub lookup_loop : List (ℕ × Option ℕ) → FenceDict → FenceDict × List ℕ
lookup_loop [] d = (d, [])
lookup_loop ((id, mask) ∷ ids) d =
    let session = get_session id d in
    let next = lookup_loop ids (if ltb 0 session then with_new_mask id session mask d else d) in
    if ltb 0 session then (next.0, session ∷ next.1) else next

-- The array of sessions beside the array of options, as far as the sessions go.
unfoldable pub side_by_side : List ℕ → List GeofenceOption → List (ℕ × GeofenceOption)
side_by_side (session ∷ sessions) (o ∷ options) = (session, o) ∷ side_by_side sessions options
side_by_side _ _ = []

abbrev pub if_some : FenceClient → FenceDict → List ℕ → FenceRequest → FenceOutput → Answered
if_some c d sessions request output =
    if is_empty sessions
    then (record c { fences = d }, [])
    else (record c { fences = d; queue = c.queue ++ request ∷ [] }, output ∷ [])

-- `locAPIModifyGeofences`, over ids with their options.
unfoldable pub loc_api_modify_geofences : List (ℕ × GeofenceOption) → FenceClient → Answered
unfolding lookup_loop side_by_side
loc_api_modify_geofences items c =
    let (d, sessions) = lookup_loop (map (λ i. (i.0, some i.1.breach_type_mask)) items) c.fences in
    if_open c (
      if_some c d sessions modify_request
        (api_modify (side_by_side sessions (map (λ i. i.1) items))))

-- `locAPIPauseGeofences`.
unfoldable pub loc_api_pause_geofences : List ℕ → FenceClient → Answered
unfolding lookup_loop
loc_api_pause_geofences ids c =
    let (d, sessions) = lookup_loop (map (λ id. (id, none)) ids) c.fences in
    if_open c (if_some c d sessions pause_request (api_pause sessions))

-- `locAPIResumeGeofences`; the array of masks may be NULL.
unfoldable pub loc_api_resume_geofences : List (ℕ × Option ℕ) → FenceClient → Answered
unfolding lookup_loop
loc_api_resume_geofences items c =
    let (d, sessions) = lookup_loop items c.fences in
    if_open c (if_some c d sessions resume_request (api_resume sessions))

-- In which dictionary a request looks the sessions up.
abbrev pub dict_of : FenceRequest → FenceDict → FenceDict
dict_of (remove_request removed) d = removed
dict_of add_request d = d
dict_of modify_request d = d
dict_of pause_request d = d
dict_of resume_request d = d

-- `onCollectiveResponseCb`, and `onCollectiveResponse` of the request.
unfoldable pub on_collective_response : List LocationError → List ℕ → FenceClient → Answered
on_collective_response errors sessions c =
    if c.queue_session == geofence_session_id
    then elim c.queue [
      | [] ↦ (c, [])
      | request ∷ rest ↦ (
        record c { queue = rest },
        told request errors (map (λ s. get_id s (dict_of request c.fences)) sessions) ∷ [],
      )
    ]
    else (c, [])

-- Does the mask have the bit of the breach?
abbrev pub has_breach : Bool → ℕ → Bool
has_breach enter mask = if enter then mask % 2 == 1 else mask / 2 % 2 == 1

-- The loop of `beforeGeofenceBreachCb`, for a breach that enters or leaves.
unfoldable pub breached : Bool → List ℕ → FenceDict → List ℕ
breached enter [] d = []
breached enter (session ∷ sessions) d =
    let rest = breached enter sessions d in
    if has_breach enter (get_ext_by_session 0 session d) then get_id session d ∷ rest else rest

-- `beforeGeofenceBreachCb`.
unfoldable pub before_geofence_breach : Bool → List ℕ → FenceClient → List (FenceOutput)
unfolding breached
before_geofence_breach enter sessions c =
    if c.has_breach_cb then breach_told (breached enter sessions c.fences) ∷ [] else []
