-- ===== src/Geofence/Examples.antt =====
-- Tests of the geofence model: the clients 1 and 2, and a fence of client 1.
use android_device_xiaomi_ms.Base.{
  ℕ, ◌≡◌, ◌<◌, ◌+◌, refl, true, false, none, some, [], ◌∷◌, arith, find, nat_key, length, All,
  if◌then◌else◌, ◌==◌,
}
use android_device_xiaomi_ms.Core.{LocationError, EngineLockState}
use android_device_xiaomi_ms.Geofence.Types.{
  key_eq, GeofenceKey, GeofenceOption, GeofenceInfo, GeofenceAdapter, ClientCallbacks, geofence_key,
  key_eq,
}
use android_device_xiaomi_ms.Geofence.Items.{get_hw_id_from_client}
use android_device_xiaomi_ms.Geofence.Commands.{
  AddItem, IdItem, ModifyItem, add_item, remove_item, pause_item, modify_item, add_geofences,
  remove_geofences, pause_geofences, resume_geofences, modify_geofences, generate_ids,
}
use android_device_xiaomi_ms.Geofence.Sessions.{
  stop_client_sessions, Answers, restart_geofences, geofence_breach,
}
use android_device_xiaomi_ms.Geofence.Linked.{IsLinked}
use android_device_xiaomi_ms.Geofence.Results.{AreFresh, commands-IsLinked, add_geofences-IsLinked}
use android_device_xiaomi_ms.Geofence.Responses.{
  RespondsOnce, commands_respond, generate_ids_bounds, IsSessionId,
}
use android_device_xiaomi_ms.Geofence.Departure.{
  stop_client_sessions_lem, geofence_breach-IsShare, IsShare,
}
use mathlib.Core.List.{Memᴰ}

abbrev callbacks : ClientCallbacks
callbacks = record {
  geofence_breach_cb = true;
  geofence_status_cb = false;
  collective_response_cb = true;
}

abbrev leaving : GeofenceOption
leaving = record { breach_type_mask = 2; responsiveness = 100; dwell_time = 0 }

abbrev home : GeofenceInfo
home = record { latitude = 48; longitude = 11; radius = 300 }

abbrev empty_adapter : GeofenceAdapter
empty_adapter = record {
  geofences = [];
  geofence_ids = [];
  client_data = (1, callbacks) ∷ (2, callbacks) ∷ [];
  session_id_counter = 1;
}

empty_adapter-IsLinked : IsLinked empty_adapter
unfolding find
empty_adapter-IsLinked = record {
  forward = λ k hw e. absurd (ground arith);
  backward = λ hw o e. absurd (ground arith);
}

abbrev home_fence : ℕ → ℕ → AddItem
home_fence id hw_id = record {
  id = id;
  options = leaving;
  info = home;
  answer = LocationError.success;
  hw_id = hw_id;
}

-- Client 1 has the fence 7, with the hardware id 70.
abbrev fenced : GeofenceAdapter
fenced = (add_geofences EngineLockState.enabled 1 (home_fence 7 70 ∷ []) empty_adapter).0

home_fence-AreFresh : AreFresh EngineLockState.enabled 1 (home_fence 7 70 ∷ []) empty_adapter
unfolding find
home_fence-AreFresh = (refl, refl, tt)

add_geofences-IsLinked_example : IsLinked fenced
add_geofences-IsLinked_example =
    add_geofences-IsLinked EngineLockState.enabled 1 (home_fence 7 70 ∷ []) empty_adapter
      home_fence-AreFresh empty_adapter-IsLinked

fenced-IsLinked : IsLinked fenced
fenced-IsLinked =
    add_geofences-IsLinked EngineLockState.enabled 1 (home_fence 7 70 ∷ []) empty_adapter
      home_fence-AreFresh empty_adapter-IsLinked

fenced_id : get_hw_id_from_client 1 7 fenced ≡ some 70
unfolding get_hw_id_from_client add_geofences add_item key_eq
fenced_id = refl

abbrev granted : IdItem
granted = record { id = 7; answer = LocationError.success }

abbrev refused : IdItem
refused = record { id = 7; answer = LocationError.general_failure }

abbrev refused_change : ModifyItem
refused_change = record { id = 7; options = leaving; answer = LocationError.general_failure }

commands-IsLinked_example :
    IsLinked (remove_geofences EngineLockState.enabled 1 (granted ∷ []) fenced).0
    × IsLinked (pause_geofences 1 (granted ∷ []) fenced).0
    × IsLinked (resume_geofences 1 (granted ∷ []) fenced).0
    × IsLinked (modify_geofences EngineLockState.enabled 1 (refused_change ∷ []) fenced).0
commands-IsLinked_example =
    commands-IsLinked EngineLockState.enabled 1 (granted ∷ []) (refused_change ∷ []) fenced
      fenced-IsLinked

known_client : find 1 fenced.client_data ≡ some callbacks
unfolding find add_geofences add_item
known_client = refl

commands_respond_example :
    RespondsOnce
      (add_item EngineLockState.enabled 1)
      (λ i. i.id)
      1
      (home_fence 8 80 ∷ [])
      (add_geofences EngineLockState.enabled 1 (home_fence 8 80 ∷ []) fenced).1
    × RespondsOnce
        (remove_item EngineLockState.enabled 1)
        (λ i. i.id)
        1
        (refused ∷ [])
        (remove_geofences EngineLockState.enabled 1 (refused ∷ []) fenced).1
    × RespondsOnce
        (pause_item 1)
        (λ i. i.id)
        1
        (refused ∷ [])
        (pause_geofences 1 (refused ∷ []) fenced).1
    × RespondsOnce
        (modify_item EngineLockState.enabled 1)
        (λ i. i.id)
        1
        (refused_change ∷ [])
        (modify_geofences EngineLockState.enabled 1 (refused_change ∷ []) fenced).1
commands_respond_example =
    commands_respond EngineLockState.enabled 1 fenced (home_fence 8 80) [] refused [] refused_change
      [] known_client refl

-- The counter wraps at the second id.
generate_ids_bounds_example :
    All IsSessionId (generate_ids 3 4294967293).0
    × (length (generate_ids 3 4294967293).0 ≡ 3)
    × ((generate_ids 3 4294967293).1 < 4294967295)
generate_ids_bounds_example = generate_ids_bounds 3 4294967293 (ground arith)

generate_ids_wraps : generate_ids 3 4294967293 ≡ (4294967294 ∷ 1 ∷ 2 ∷ [], 2)
unfolding generate_ids
generate_ids_wraps = refl

stop_client_sessions_lem_example :
    let (b, requests) = stop_client_sessions 1 fenced in
    ((k : GeofenceKey)
      → find k b.geofence_ids ≡ (if 1 == k.client then none else find k fenced.geofence_ids))
    × (b.geofences ≡ fenced.geofences)
    × Memᴰ (70, 7) requests
stop_client_sessions_lem_example = stop_client_sessions_lem 1 7 70 fenced fenced_id

-- The modem takes every fence again, under an id ten higher.
abbrev taken : Answers
taken hw_id = (LocationError.success, hw_id + 10)

-- The fence paused.
abbrev paused : GeofenceAdapter
paused = (pause_geofences 1 (granted ∷ []) fenced).0

paused_restart : (restart_geofences taken paused).1 ≡ (80, 7) ∷ []
unfolding restart_geofences pause_geofences add_geofences pause_item add_item key_eq
paused_restart = refl

geofence_breach-IsShare_example : All (IsShare fenced) (geofence_breach (70 ∷ 71 ∷ []) fenced)
geofence_breach-IsShare_example = geofence_breach-IsShare (70 ∷ 71 ∷ []) fenced fenced-IsLinked

breach_told : geofence_breach (70 ∷ 71 ∷ []) fenced ≡ (1, 7 ∷ []) ∷ []
unfolding geofence_breach add_geofences add_item
breach_told = refl
