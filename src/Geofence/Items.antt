-- ===== src/Geofence/Items.antt =====
-- The utilities of `GeofenceAdapter` that keep its two maps (gps/geofence/GeofenceAdapter.cpp).
use android_device_xiaomi_ms.Base.{ℕ, true, false, Option, none, some, find, insert, erase, nat_key}
use android_device_xiaomi_ms.Geofence.Types.{
  GeofenceKey, GeofenceObject, GeofenceOption, GeofenceInfo, GeofenceAdapter, geofence_key,
}
use mathlib.Core.Option

-- `getHwIdFromClient`; `none` is LOCATION_ERROR_ID_UNKNOWN.
unfoldable pub get_hw_id_from_client : ℕ → ℕ → GeofenceAdapter → Option ℕ
unfolding find
get_hw_id_from_client client id a = find (record { client = client; id = id }) a.geofence_ids

-- `getGeofenceKeyFromHwId`; `none` is LOCATION_ERROR_ID_UNKNOWN.
unfoldable pub get_geofence_key_from_hw_id : ℕ → GeofenceAdapter → Option GeofenceKey
unfolding find
get_geofence_key_from_hw_id hw_id a = Option.map (λ o. o.key) (find hw_id a.geofences)

-- The object that `saveGeofenceItem` stores.
abbrev pub new_object : GeofenceKey → GeofenceOption → GeofenceInfo → GeofenceObject
new_object key options info = record {
  key = key;
  breach_mask = options.breach_type_mask;
  responsiveness = options.responsiveness;
  dwell_time = options.dwell_time;
  latitude = info.latitude;
  longitude = info.longitude;
  radius = info.radius;
  paused = false;
}

unfoldable pub save_geofence_item :
    ℕ → ℕ → ℕ → GeofenceOption → GeofenceInfo → GeofenceAdapter → GeofenceAdapter
unfolding insert
save_geofence_item client client_id hw_id options info a =
    let key : GeofenceKey = record { client = client; id = client_id } in
    record a {
      geofences = insert hw_id (new_object key options info) a.geofences;
      geofence_ids = insert key hw_id a.geofence_ids;
    }

unfoldable pub remove_geofence_item : ℕ → GeofenceAdapter → GeofenceAdapter
unfolding get_geofence_key_from_hw_id find erase
remove_geofence_item hw_id a = elim (get_geofence_key_from_hw_id hw_id a) [
  | none ↦ a
  | some key ↦ elim (find key a.geofence_ids) [
    | none ↦ a
    | some _ ↦ record a {
      geofences = erase hw_id a.geofences;
      geofence_ids = erase key a.geofence_ids;
    }
  ]
]

-- Changes the object of a hardware id in place, where there is one.
unfoldable pub update_item :
    (GeofenceObject → GeofenceObject) → ℕ → GeofenceAdapter → GeofenceAdapter
unfolding find insert
update_item f hw_id a = elim (find hw_id a.geofences) [
  | none ↦ a
  | some o ↦ record a { geofences = insert hw_id (f o) a.geofences }
]

unfoldable pub pause_geofence_item : ℕ → GeofenceAdapter → GeofenceAdapter
unfolding update_item
pause_geofence_item = update_item (λ o. record o { paused = true })

unfoldable pub resume_geofence_item : ℕ → GeofenceAdapter → GeofenceAdapter
unfolding update_item
resume_geofence_item = update_item (λ o. record o { paused = false })

unfoldable pub modify_geofence_item : ℕ → GeofenceOption → GeofenceAdapter → GeofenceAdapter
unfolding update_item
modify_geofence_item hw_id options =
    update_item
      (λ o. record o {
        breach_mask = options.breach_type_mask;
        responsiveness = options.responsiveness;
        dwell_time = options.dwell_time;
      })
      hw_id
