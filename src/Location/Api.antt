-- ===== src/Location/Api.antt =====
-- The operations of `LocationAPI` (gps/location/LocationAPI.cpp). Each holds the mutex while it reads and
-- writes the data, so each is one step.
use android_device_xiaomi_ms.Base.{
  ℕ, Bool, true, false, not, ◌&&◌, ◌||◌, Option, none, some, List, [], ◌∷◌, ◌++◌, ◌==◌, find,
  insert, erase, nat_key, if◌then◌else◌,
}
use android_device_xiaomi_ms.Core.{add32, sub32}
use android_device_xiaomi_ms.Location.Types.{
  LocationCallbacks, AdapterType, Adapters, at, set_at, DestroyCbData, LocationApiData, Output,
  create_os_framework, destroy_os_framework, initialize, add_client, request_capabilities,
  remove_client, start_tracking_call, stop_tracking_call, update_tracking_call, start_batching_call,
  stop_batching_call, update_batching_call, get_batched_call, destroy_complete, delete_client,
}

abbrev pub Step : Type 0
Step = LocationApiData × List Output

unfoldable pub is_gnss_client : LocationCallbacks → Bool
is_gnss_client c =
    c.gnss_ni_cb
    || (c.tracking_cb
        || (c.gnss_location_info_cb
            || (c.engine_locations_info_cb
                || (c.gnss_sv_cb
                    || (c.gnss_nmea_cb
                        || (c.gnss_data_cb
                            || (c.gnss_measurements_cb || c.location_system_info_cb)))))))

unfoldable pub is_batching_client : LocationCallbacks → Bool
is_batching_client c = c.batching_cb

unfoldable pub is_geofence_client : LocationCallbacks → Bool
is_geofence_client c = c.geofence_breach_cb || c.geofence_status_cb

unfoldable pub is_client_of : AdapterType → LocationCallbacks → Bool
unfolding is_gnss_client is_batching_client is_geofence_client
is_client_of AdapterType.gnss_type c = is_gnss_client c
is_client_of AdapterType.batching_type c = is_batching_client c
is_client_of AdapterType.geofence_type c = is_geofence_client c

-- An adapter's table is loaded where it is missing and has not failed to load: `is_available` says whether
-- the library gives one.
unfoldable pub load : (AdapterType → Bool) → AdapterType → LocationApiData → Step
load is_available t d =
    let i = at t d.interfaces in
    if i.is_loaded || i.load_failed
    then (d, [])
    else if is_available t
    then (
      record d { interfaces = set_at t (record i { is_loaded = true }) d.interfaces },
      initialize t ∷ [],
    )
    else (record d { interfaces = set_at t (record i { load_failed = true }) d.interfaces }, [])

-- A client is added to the adapter that it has callbacks of, which is asked for its capabilities unless
-- `requested` says that one has been. The result says it again.
unfoldable pub add_to :
    (AdapterType → Bool)
    → ℕ
    → LocationCallbacks
    → AdapterType
    → Bool
    → LocationApiData
    → Bool × LocationApiData × List Output
unfolding is_client_of load
add_to is_available client c t requested d =
    let (e, loading) = load is_available t d in
    if is_client_of t c
    then if (at t e.interfaces).is_loaded
      then (
        true,
        e,
        loading
            ++ add_client t client c
              ∷ (if requested then [] else request_capabilities t client ∷ []),
      )
      else (requested, e, loading)
    else (requested, d, [])

-- The three adapters one after the other.
unfoldable pub add_to_adapters :
    (AdapterType → Bool) → ℕ → LocationCallbacks → Bool → LocationApiData → Step
unfolding add_to
add_to_adapters is_available client c requested d =
    let (requested1, d1, to_gnss) =
      add_to is_available client c AdapterType.gnss_type requested d in
    let (requested2, d2, to_batching) =
      add_to is_available client c AdapterType.batching_type requested1 d1 in
    let (requested3, d3, to_geofence) =
      add_to is_available client c AdapterType.geofence_type requested2 d2 in
    (d3, to_gnss ++ to_batching ++ to_geofence)

abbrev pub has_mandatory : LocationCallbacks → Bool
has_mandatory c = c.capabilities_cb && (c.response_cb && c.collective_response_cb)

-- `client` is the address of the new object. Without a mandatory callback there is none.
unfoldable pub create_instance :
    (AdapterType → Bool) → ℕ → LocationCallbacks → LocationApiData → Option Step
unfolding add_to_adapters insert add32
create_instance is_available client c d =
    let count = add32 d.os_framework_ref_count 1 in
    let (e, calls) =
      add_to_adapters is_available client c false (record d { os_framework_ref_count = count }) in
    if has_mandatory c
    then some (
      record e { client_data = insert client c e.client_data },
      (if count == 1 then create_os_framework ∷ [] else []) ++ calls,
    )
    else none

-- Here no capabilities are requested.
unfoldable pub update_callbacks :
    (AdapterType → Bool) → ℕ → LocationCallbacks → LocationApiData → Step
unfolding add_to_adapters insert
update_callbacks is_available client c d =
    let (e, calls) = add_to_adapters is_available client c true d in
    if has_mandatory c
    then (record e { client_data = insert client c e.client_data }, calls)
    else (d, [])

-- The end of `destroy` and of `onRemoveClientCompleteCb`. The code calls the callback if it is empty, and
-- that throws before the object is deleted.
unfoldable pub finish : ℕ → Option ℕ → List Output
finish client none = destroy_complete client none ∷ []
finish client (some cb) = delete_client client ∷ []

unfoldable pub loaded : LocationApiData → Adapters Bool
loaded d = record {
  gnss = d.interfaces.gnss.is_loaded;
  batching = d.interfaces.batching.is_loaded;
  geofence = d.interfaces.geofence.is_loaded;
}

abbrev pub is_zero : Adapters Bool → Bool
is_zero m = not m.gnss && (not m.batching && not m.geofence)

unfoldable pub destroy : ℕ → Option ℕ → LocationApiData → Step
unfolding find insert erase loaded finish sub32
destroy client cb d =
    let mask = loaded d in
    let entry : DestroyCbData = record { wait_adapter_mask = mask; destroy_complete_cb = cb } in
    let waiting : List (ℕ × DestroyCbData) = elim cb [
      | none ↦ d.destroy_client_data
      | some _ ↦
          if is_zero mask then d.destroy_client_data else insert client entry d.destroy_client_data
    ] in
    let counted = record d { os_framework_ref_count = sub32 d.os_framework_ref_count 1 } in
    let leaving = if d.os_framework_ref_count == 1 then destroy_os_framework ∷ [] else [] in
    elim (find client d.client_data) [
      | none ↦ (counted, leaving)
      | some c ↦ (
        record counted { client_data = erase client d.client_data; destroy_client_data = waiting },
        (if mask.gnss then remove_client AdapterType.gnss_type client ∷ [] else [])
            ++ (if mask.batching then remove_client AdapterType.batching_type client ∷ [] else [])
            ++ (if mask.geofence then remove_client AdapterType.geofence_type client ∷ [] else [])
            ++ leaving
            ++ (if is_zero mask then finish client cb else []),
      )
    ]

-- The callback of an adapter that has removed the client.
unfoldable pub on_remove_client_complete_cb : ℕ → AdapterType → LocationApiData → Step
unfolding find insert erase finish
on_remove_client_complete_cb client t d = elim (find client d.destroy_client_data) [
  | none ↦ (d, [])
  | some entry ↦
      let mask = set_at t false entry.wait_adapter_mask in
      if is_zero mask
      then (
        record d { destroy_client_data = erase client d.destroy_client_data },
        finish client entry.destroy_complete_cb,
      )
      else (
        record d {
          destroy_client_data =
              insert client (record entry { wait_adapter_mask = mask }) d.destroy_client_data;
        },
        [],
      )
]

-- The requests of a client that are passed on. Only those on tracking look the client up; an id is 0 where
-- the request is not passed on, and otherwise `given` by the adapter.
abbrev pub can_track : ℕ → LocationApiData → Bool
can_track client d = elim (find client d.client_data) [
  | none ↦ false
  | some _ ↦ d.interfaces.gnss.is_loaded
]

unfoldable pub start_tracking : (given client : ℕ) → LocationApiData → ℕ × List Output
unfolding find
start_tracking given client d =
    if can_track client d then (given, start_tracking_call client ∷ []) else (0, [])

unfoldable pub stop_tracking : (client id : ℕ) → LocationApiData → List Output
unfolding find
stop_tracking client id d = if can_track client d then stop_tracking_call client id ∷ [] else []

unfoldable pub update_tracking_options : (client id : ℕ) → LocationApiData → List Output
unfolding find
update_tracking_options client id d =
    if can_track client d then update_tracking_call client id ∷ [] else []

unfoldable pub start_batching_session : (given client : ℕ) → LocationApiData → ℕ × List Output
start_batching_session given client d =
    if d.interfaces.batching.is_loaded then (given, start_batching_call client ∷ []) else (0, [])

unfoldable pub stop_batching_session : (client id : ℕ) → LocationApiData → List Output
stop_batching_session client id d =
    if d.interfaces.batching.is_loaded then stop_batching_call client id ∷ [] else []

unfoldable pub update_batching_options : (client id : ℕ) → LocationApiData → List Output
update_batching_options client id d =
    if d.interfaces.batching.is_loaded then update_batching_call client id ∷ [] else []

unfoldable pub get_batched_locations : (client id count : ℕ) → LocationApiData → List Output
get_batched_locations client id count d =
    if d.interfaces.batching.is_loaded then get_batched_call client id count ∷ [] else []

-- The steps of the clients and of the adapters, in the order in which they take the mutex.
pub data Event : Type 0 where
  create_event : (client : ℕ) → LocationCallbacks → Event
  update_event : (client : ℕ) → LocationCallbacks → Event
  destroy_event : (client : ℕ) → Option ℕ → Event
  complete_event : (client : ℕ) → AdapterType → Event

unfoldable pub handle : (AdapterType → Bool) → Event → LocationApiData → Step
unfolding create_instance update_callbacks destroy on_remove_client_complete_cb
handle is_available (create_event client c) d = elim (create_instance is_available client c d) [
  | none ↦ (d, [])
  | some step ↦ step
]
handle is_available (update_event client c) d = update_callbacks is_available client c d
handle is_available (destroy_event client cb) d = destroy client cb d
handle is_available (complete_event client t) d = on_remove_client_complete_cb client t d

unfoldable pub run_events : (AdapterType → Bool) → List Event → LocationApiData → Step
unfolding handle
run_events is_available [] d = (d, [])
run_events is_available (event ∷ rest) d =
    let (e, calls) = handle is_available event d in
    let (f, more) = run_events is_available rest e in (f, calls ++ more)
