-- ===== src/Location/Examples.antt =====
-- Tests of the location API: one client of two adapters, and another that comes and goes.
use android_device_xiaomi_ms.Base.{
  ◌≡◌, refl, Bool, true, false, List, [], ◌∷◌, some, map, filter, All, find, nat_key, if◌then◌else◌,
}
use android_device_xiaomi_ms.Location.Types.{
  LocationCallbacks, AdapterType, at, Interface, LocationApiData, Output, add_client,
  request_capabilities, delete_client,
}
use android_device_xiaomi_ms.Location.Api.{
  is_client_of, create_instance, loaded, destroy, Event, create_event, destroy_event,
  complete_event, run_events,
}
use android_device_xiaomi_ms.Location.Clients.{
  serves, serving, first, is_add_client, is_request_capabilities, create_instance_lem,
}
use android_device_xiaomi_ms.Location.Removal.{ends, is_answered, destroy-ends_client}

abbrev client_callbacks : LocationCallbacks
client_callbacks = record {
  capabilities_cb = true;
  response_cb = true;
  collective_response_cb = true;
  tracking_cb = true;
  batching_cb = true;
  geofence_breach_cb = true;
  geofence_status_cb = false;
  gnss_location_info_cb = false;
  gnss_ni_cb = false;
  gnss_sv_cb = false;
  gnss_nmea_cb = false;
  gnss_data_cb = false;
  gnss_measurements_cb = false;
  batching_status_cb = false;
  location_system_info_cb = false;
  engine_locations_info_cb = false;
}

abbrev interface : Bool → Interface
interface there = record { is_loaded = there; load_failed = false }

abbrev fresh : LocationApiData
fresh = record {
  client_data = [];
  destroy_client_data = [];
  interfaces = record {
    gnss = interface true;
    batching = interface false;
    geofence = interface false;
  };
  os_framework_ref_count = 0;
}

-- The library of the fences is missing.
abbrev is_available : AdapterType → Bool
is_available AdapterType.geofence_type = false
is_available _ = true

create_instance_lem_example :
    let ts = serving is_available client_callbacks fresh in
    (e : LocationApiData) × (calls : List Output) × (create_instance is_available 5 client_callbacks
        fresh
      ≡ some (e, calls))
    × (find 5 e.client_data ≡ some client_callbacks)
    × (filter is_add_client calls ≡ map (λ t. add_client t 5 client_callbacks) ts)
    × (filter is_request_capabilities calls ≡ map (λ t. request_capabilities t 5) (first ts))
    × All (λ t. (at t e.interfaces).is_loaded ≡ true) ts
create_instance_lem_example = create_instance_lem is_available 5 client_callbacks fresh refl

two_adapters_serve :
    serving is_available client_callbacks fresh
    ≡ AdapterType.gnss_type ∷ AdapterType.batching_type ∷ []
unfolding serves is_client_of
two_adapters_serve = refl

abbrev two_loaded : LocationApiData
two_loaded = record {
  client_data = (5, client_callbacks) ∷ [];
  destroy_client_data = [];
  interfaces = record {
    gnss = interface true;
    batching = interface true;
    geofence = interface false;
  };
  os_framework_ref_count = 1;
}

abbrev events : List Event
events =
    complete_event 5 AdapterType.batching_type
    ∷ create_event 6 client_callbacks
    ∷ destroy_event 6 (some 2)
    ∷ complete_event 5 AdapterType.gnss_type
    ∷ []

destroy-ends_client_example :
    let (e, calls) = destroy 5 (some 1) two_loaded in
    (filter (ends 5) calls ≡ [])
    × (filter (ends 5) (run_events is_available events e).1
        ≡ (if is_answered 5 events (loaded two_loaded) then delete_client 5 ∷ [] else []))
unfolding find loaded
destroy-ends_client_example =
    destroy-ends_client is_available 5 1 client_callbacks two_loaded events refl refl
      (refl, (refl, (refl, (refl, tt))))

both_answer : is_answered 5 events (loaded two_loaded) ≡ true
unfolding loaded
both_answer = refl
