-- ===== src/Geofence/Commands.antt =====
-- The commands of `GeofenceAdapter` (gps/geofence/GeofenceAdapter.cpp). The items of a command go
-- through the call queue of the LocApi one after the other, so each stands here with the answer that
-- the LocApi gives to it; the answers are the environment's.
use android_device_xiaomi_ms.Base.{
  ℕ, zero, suc, Bool, true, false, ◌||◌, none, some, List, [], ◌∷◌, map, find, nat_key, is_empty,
  if◌then◌else◌,
}
use android_device_xiaomi_ms.Core.{
  LocationError, EngineLockState, is_success, is_disabled, generate_session_id,
}
use android_device_xiaomi_ms.Geofence.Types.{GeofenceOption, GeofenceInfo, GeofenceAdapter}
use android_device_xiaomi_ms.Geofence.Items.{
  get_hw_id_from_client, save_geofence_item, remove_geofence_item, pause_geofence_item,
  resume_geofence_item, modify_geofence_item,
}

-- The collective response of a command: the client, the ids, an error for each.
pub record CollectiveResponse : Type 0 where
  pub client : ℕ
  pub ids : List ℕ
  pub errs : List LocationError

-- What one item leaves: the adapter, its entry of `errs`, and whether its handler goes on to send the
-- collective response if it is the last.
pub record ItemOutcome : Type 0 where
  pub adapter : GeofenceAdapter
  pub err : LocationError
  pub completes : Bool

pub record AddItem : Type 0 where
  pub id : ℕ
  pub options : GeofenceOption
  pub info : GeofenceInfo
  pub answer : LocationError
  pub hw_id : ℕ

-- An id of the client, and the answer of the LocApi, which is asked only if the id is known.
pub record IdItem : Type 0 where
  pub id : ℕ
  pub answer : LocationError

pub record ModifyItem : Type 0 where
  pub id : ℕ
  pub options : GeofenceOption
  pub answer : LocationError

unfoldable pub add_item : EngineLockState → ℕ → AddItem → GeofenceAdapter → ItemOutcome
unfolding save_geofence_item
add_item lock client item a = record {
  adapter =
      if is_disabled lock || is_success item.answer
      then save_geofence_item client item.id item.hw_id item.options item.info a
      else a;
  err = item.answer;
  completes = true;
}

-- An id that is not known.
abbrev unknown : GeofenceAdapter → ItemOutcome
unknown a = record { adapter = a; err = LocationError.id_unknown; completes = true }

unfoldable pub remove_item : EngineLockState → ℕ → IdItem → GeofenceAdapter → ItemOutcome
unfolding get_hw_id_from_client remove_geofence_item
remove_item lock client item a = elim (get_hw_id_from_client client item.id a) [
  | none ↦ unknown a
  | some hw_id ↦ record {
    adapter =
        if is_disabled lock || is_success item.answer then remove_geofence_item hw_id a else a;
    err = item.answer;
    completes = true;
  }
]

unfoldable pub pause_item : ℕ → IdItem → GeofenceAdapter → ItemOutcome
unfolding get_hw_id_from_client pause_geofence_item
pause_item client item a = elim (get_hw_id_from_client client item.id a) [
  | none ↦ unknown a
  | some hw_id ↦ record {
    adapter = if is_success item.answer then pause_geofence_item hw_id a else a;
    err = item.answer;
    completes = true;
  }
]

-- On an error the handler does nothing: `errs[i]` stays as the lookup set it, and no response is sent.
unfoldable pub resume_item : ℕ → IdItem → GeofenceAdapter → ItemOutcome
unfolding get_hw_id_from_client resume_geofence_item
resume_item client item a = elim (get_hw_id_from_client client item.id a) [
  | none ↦ unknown a
  | some hw_id ↦
      if is_success item.answer
      then record { adapter = resume_geofence_item hw_id a; err = item.answer; completes = true }
      else record { adapter = a; err = LocationError.success; completes = false }
]

-- On an error `errs[i]` stays as the lookup set it.
unfoldable pub modify_item : EngineLockState → ℕ → ModifyItem → GeofenceAdapter → ItemOutcome
unfolding get_hw_id_from_client modify_geofence_item
modify_item lock client item a = elim (get_hw_id_from_client client item.id a) [
  | none ↦ unknown a
  | some hw_id ↦
      if is_disabled lock || is_success item.answer
      then record {
        adapter = modify_geofence_item hw_id item.options a;
        err = item.answer;
        completes = true;
      }
      else record { adapter = a; err = LocationError.success; completes = true }
]

-- The loop of `proc`: the adapter, `errs`, and whether the last item's handler goes on to respond.
unfoldable pub process {ℓ} :
    {I : Type ℓ}
    → (I → GeofenceAdapter → ItemOutcome)
    → List I
    → GeofenceAdapter
    → GeofenceAdapter × List LocationError × Bool
process step [] a = (a, [], false)
process step (x ∷ xs) a =
    let (a', errs, completes) = process step xs (step x a).adapter in
    (a', (step x a).err ∷ errs, if is_empty xs then (step x a).completes else completes)

-- `reportResponse`.
unfoldable pub report_response :
    ℕ → List LocationError → List ℕ → GeofenceAdapter → List CollectiveResponse
unfolding find
report_response client errs ids a = elim (find client a.client_data) [
  | none ↦ []
  | some c ↦
      if c.collective_response_cb
      then record { client = client; ids = ids; errs = errs } ∷ []
      else []
]

-- A command: its items, and the collective response at the last one.
unfoldable pub command {ℓ} :
    {I : Type ℓ}
    → (I → GeofenceAdapter → ItemOutcome)
    → (I → ℕ)
    → ℕ
    → List I
    → GeofenceAdapter
    → GeofenceAdapter × List CollectiveResponse
unfolding process report_response
command step id client items a =
    let (a', errs, completes) = process step items a in
    (a', if completes then report_response client errs (map id items) a' else [])

unfoldable pub add_geofences :
    EngineLockState → ℕ → List AddItem → GeofenceAdapter → GeofenceAdapter × List CollectiveResponse
unfolding command
add_geofences lock client = command (add_item lock client) (λ i. i.id) client

unfoldable pub remove_geofences :
    EngineLockState → ℕ → List IdItem → GeofenceAdapter → GeofenceAdapter × List CollectiveResponse
unfolding command
remove_geofences lock client = command (remove_item lock client) (λ i. i.id) client

unfoldable pub pause_geofences :
    ℕ → List IdItem → GeofenceAdapter → GeofenceAdapter × List CollectiveResponse
unfolding command
pause_geofences client = command (pause_item client) (λ i. i.id) client

unfoldable pub resume_geofences :
    ℕ → List IdItem → GeofenceAdapter → GeofenceAdapter × List CollectiveResponse
unfolding command
resume_geofences client = command (resume_item client) (λ i. i.id) client

unfoldable pub modify_geofences :
    EngineLockState
    → ℕ
    → List ModifyItem
    → GeofenceAdapter
    → GeofenceAdapter × List CollectiveResponse
unfolding command
modify_geofences lock client = command (modify_item lock client) (λ i. i.id) client

-- The ids that `addGeofencesCommand` returns, and the counter after them.
unfoldable pub generate_ids : ℕ → ℕ → List ℕ × ℕ
unfolding generate_session_id
generate_ids zero counter = ([], counter)
generate_ids (suc count) counter =
    let id = generate_session_id counter in
    let (ids, counter') = generate_ids count id in (id ∷ ids, counter')
