-- ===== src/Geofence/Results.antt =====
-- What the commands of `GeofenceAdapter` leave behind, and what they answer.
use android_device_xiaomi_ms.Base.{
  ℕ, ◌≡◌, refl, true, false, ◌||◌, none, List, [], ◌∷◌, find, nat_key, Option-cases, inl, inr,
  if_both,
}
use android_device_xiaomi_ms.Core.{EngineLockState, is_success, is_disabled}
use android_device_xiaomi_ms.Geofence.Types.{GeofenceAdapter, geofence_key}
use android_device_xiaomi_ms.Geofence.Items.{get_hw_id_from_client}
use android_device_xiaomi_ms.Geofence.Commands.{
  ItemOutcome, AddItem, IdItem, ModifyItem, add_item, remove_item, pause_item, resume_item,
  modify_item, process, add_geofences, remove_geofences, pause_geofences, resume_geofences,
  modify_geofences,
}
use android_device_xiaomi_ms.Geofence.Linked.{
  IsLinked, save-IsLinked, remove-IsLinked, update-IsLinked, key_of,
}

process-IsLinked {ℓ} :
    {I : Type ℓ} (step : I → GeofenceAdapter → ItemOutcome)
    → ((x : I) (a : GeofenceAdapter) → IsLinked a → IsLinked (step x a).adapter)
    → (items : List I) (a : GeofenceAdapter) → IsLinked a
    → IsLinked (process step items a).0
unfolding process
process-IsLinked step keep [] a v = v
process-IsLinked step keep (x ∷ xs) a v = process-IsLinked step keep xs _ (keep x a v)

remove_item-IsLinked :
    (lock : EngineLockState) (client : ℕ) (x : IdItem) (a : GeofenceAdapter)
    → IsLinked a
    → IsLinked (remove_item lock client x a).adapter
unfolding remove_item
remove_item-IsLinked lock client x a v = elim (Option-cases (get_hw_id_from_client client x.id a)) [
  | inl missing ↦ rw (missing, remove_item) v
  | inr (hw, found) ↦
      rw (found, remove_item)
        (if_both IsLinked (is_disabled lock || is_success x.answer) (remove-IsLinked hw a v) v)
]

pause_item-IsLinked :
    (client : ℕ) (x : IdItem) (a : GeofenceAdapter)
    → IsLinked a
    → IsLinked (pause_item client x a).adapter
unfolding pause_item
pause_item-IsLinked client x a v = elim (Option-cases (get_hw_id_from_client client x.id a)) [
  | inl missing ↦ rw (missing, pause_item) v
  | inr (hw, found) ↦
      rw (found, pause_item)
        (if_both IsLinked (is_success x.answer)
          (update-IsLinked (λ o. record o { paused = true }) hw a (λ o. refl) v) v)
]

resume_item-IsLinked :
    (client : ℕ) (x : IdItem) (a : GeofenceAdapter)
    → IsLinked a
    → IsLinked (resume_item client x a).adapter
unfolding resume_item
resume_item-IsLinked client x a v = elim (Option-cases (get_hw_id_from_client client x.id a)) [
  | inl missing ↦ rw (missing, resume_item) v
  | inr (hw, found) ↦
      rw (found, resume_item)
        (if_both (λ (o : ItemOutcome). IsLinked o.adapter) (is_success x.answer)
          (update-IsLinked (λ o. record o { paused = false }) hw a (λ o. refl) v) v)
]

modify_item-IsLinked :
    (lock : EngineLockState) (client : ℕ) (x : ModifyItem) (a : GeofenceAdapter)
    → IsLinked a
    → IsLinked (modify_item lock client x a).adapter
unfolding modify_item
modify_item-IsLinked lock client x a v = elim (Option-cases (get_hw_id_from_client client x.id a)) [
  | inl missing ↦ rw (missing, modify_item) v
  | inr (hw, found) ↦
      rw (found, modify_item)
        (if_both (λ (o : ItemOutcome). IsLinked o.adapter) (is_disabled lock || is_success x.answer)
          (update-IsLinked _ hw a (λ o. refl) v) v)
]

-- If the two maps are linked, the commands that remove, pause, resume and modify fences leave them
-- linked, whatever the LocApi answers.
pub commands-IsLinked :
    (lock : EngineLockState) (client : ℕ) (items : List IdItem) (changes : List ModifyItem)
    (a : GeofenceAdapter)
    → IsLinked a
    → IsLinked (remove_geofences lock client items a).0
      × IsLinked (pause_geofences client items a).0
      × IsLinked (resume_geofences client items a).0
      × IsLinked (modify_geofences lock client changes a).0
unfolding remove_geofences pause_geofences resume_geofences modify_geofences
commands-IsLinked lock client items changes a v = (
  process-IsLinked (remove_item lock client) (remove_item-IsLinked lock client) items a v,
  process-IsLinked (pause_item client) (pause_item-IsLinked client) items a v,
  process-IsLinked (resume_item client) (resume_item-IsLinked client) items a v,
  process-IsLinked (modify_item lock client) (modify_item-IsLinked lock client) changes a v,
)

-- The hardware ids that the LocApi gives, and the ids of the client, are new ones.
abbrev pub AreFresh : EngineLockState → ℕ → List AddItem → GeofenceAdapter → Type 0
AreFresh lock client [] a = Unit
AreFresh lock client (x ∷ xs) a =
    (find x.hw_id a.geofences ≡ none)
    × (find (key_of client x.id) a.geofence_ids ≡ none)
    × AreFresh lock client xs (add_item lock client x a).adapter

process_add-IsLinked :
    (lock : EngineLockState) (client : ℕ) (items : List AddItem) (a : GeofenceAdapter)
    → AreFresh lock client items a
    → IsLinked a
    → IsLinked (process (add_item lock client) items a).0
unfolding process
process_add-IsLinked lock client [] a f v = v
process_add-IsLinked lock client (x ∷ xs) a (new_hw, new_key, f) v =
    process_add-IsLinked lock client xs _ f (
      unfold add_item in
      if_both IsLinked (is_disabled lock || is_success x.answer)
        (save-IsLinked client x.id x.hw_id x.options x.info a new_hw new_key v) v)

-- If the two maps are linked, adding fences under new ids, to each of which the LocApi gives a new
-- hardware id, leaves them linked.
pub add_geofences-IsLinked :
    (lock : EngineLockState) (client : ℕ) (items : List AddItem) (a : GeofenceAdapter)
    → AreFresh lock client items a
    → IsLinked a
    → IsLinked (add_geofences lock client items a).0
unfolding add_geofences
add_geofences-IsLinked lock client items a f v = process_add-IsLinked lock client items a f v
