-- ===== src/Geofence/Refusals.antt =====
-- What a client is told when the LocApi refuses to resume or to modify its fences.
use android_device_xiaomi_ms.Base.{
  ℕ, ◌≡◌, refl, Bool, true, false, ◌&&◌, some, List, [], ◌∷◌, ◌++◌, find, nat_key, map, All,
}
use android_device_xiaomi_ms.Core.{LocationError, EngineLockState, is_success, is_disabled}
use android_device_xiaomi_ms.Geofence.Types.{GeofenceAdapter, geofence_key, ClientCallbacks}
use android_device_xiaomi_ms.Geofence.Items.{get_hw_id_from_client}
use android_device_xiaomi_ms.Geofence.Commands.{
  IdItem, ModifyItem, resume_item, modify_item, process, report_response, command, resume_geofences,
  modify_geofences,
}
use android_device_xiaomi_ms.Geofence.Responses.{
  process-completes, process-last, modify_item-Answering,
}

-- If the LocApi refuses to resume the last fence of a command, which the client knows, the client gets
-- no response to the command at all.
pub resume_refused_silent :
    (client : ℕ) (xs : List IdItem) (x : IdItem) (a : GeofenceAdapter) {hw : ℕ}
    → get_hw_id_from_client client x.id (process (resume_item client) xs a).0 ≡ some hw
    → is_success x.answer ≡ false
    → (resume_geofences client (xs ++ x ∷ []) a).1 ≡ []
unfolding resume_geofences
resume_refused_silent client xs x a {hw} known refused =
    let last : (resume_item client x (process (resume_item client) xs a).0).completes ≡ false =
      unfold resume_item in rw (known, resume_item) (rw refused refl) in
    rw (process-last (resume_item client) xs x a, command) (rw last refl)

-- The LocApi refuses to modify the fence, which the client knows.
abbrev pub IsRefused : ℕ → GeofenceAdapter → ModifyItem → Type 0
IsRefused client a x =
    ((hw : ℕ) × (get_hw_id_from_client client x.id a ≡ some hw)) × (is_success x.answer ≡ false)

modify_item-IsRefused :
    (lock : EngineLockState) (client : ℕ) (x : ModifyItem) (a : GeofenceAdapter)
    → is_disabled lock ≡ false
    → IsRefused client a x
    → modify_item lock client x a
      ≡ record { adapter = a; err = LocationError.success; completes = true }
unfolding modify_item
modify_item-IsRefused lock client x a enabled ((hw, known), refused) =
    rw (known, modify_item) (rw enabled (rw refused refl))

abbrev pub is_all_success : List LocationError → Bool
is_all_success [] = true
is_all_success (e ∷ es) = is_success e && is_all_success es

process-IsRefused :
    (lock : EngineLockState) (client : ℕ) (changes : List ModifyItem) (a : GeofenceAdapter)
    → is_disabled lock ≡ false
    → All (IsRefused client a) changes
    → ((process (modify_item lock client) changes a).0 ≡ a)
      × (is_all_success (process (modify_item lock client) changes a).1 ≡ true)
unfolding process
process-IsRefused lock client [] a enabled h = (refl, refl)
process-IsRefused lock client (x ∷ xs) a enabled (refused, h) =
    let one = modify_item-IsRefused lock client x a enabled refused in
    rw one (process-IsRefused lock client xs a enabled h)

-- If the LocApi refuses to modify every fence of a command, each of them known, while the engine is
-- not locked, then nothing is modified, and a client with a collective callback gets one response,
-- in which all errors say success.
pub modify_refused_success :
    (lock : EngineLockState) (client : ℕ) (x : ModifyItem) (xs : List ModifyItem)
    (a : GeofenceAdapter) {c : ClientCallbacks}
    → find client a.client_data ≡ some c
    → c.collective_response_cb ≡ true
    → is_disabled lock ≡ false
    → All (IsRefused client a) (x ∷ xs)
    → let (b, responses) = modify_geofences lock client (x ∷ xs) a in
      (b ≡ a)
      × (errs : List LocationError) × (responses
          ≡ record { client = client; ids = map (λ i. i.id) (x ∷ xs); errs = errs } ∷ [])
      × (is_all_success errs ≡ true)
unfolding modify_geofences command
modify_refused_success lock client x xs a {c} known set enabled h =
    let step = modify_item lock client in
    let (same, good) = process-IsRefused lock client (x ∷ xs) a enabled h in
    let sent = process-completes step x xs a (modify_item-Answering lock client) in
    let registered : find client (process step (x ∷ xs) a).0.client_data ≡ some c = rw same known in
    (
      same,
      (process step (x ∷ xs) a).1,
      rw (sent, command) (rw (registered, report_response) (rw (set, report_response) refl)),
      good,
    )
