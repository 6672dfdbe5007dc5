-- ===== src/Geofence/Responses.antt =====
-- What the commands of `GeofenceAdapter` tell their client.
use android_device_xiaomi_ms.Base.{
  if◌then◌else◌, ℕ, zero, suc, ◌≡◌, ◌≤◌, ◌<◌, refl, sym, ◌∙◌, ap, subst, true, none, some, List, [],
  ◌∷◌, ◌++◌, arith, find, nat_key, find-erase_eq, find-erase, length, map, All,
}
use android_device_xiaomi_ms.Core.{LocationError, EngineLockState, is_success, generate_session_id}
use android_device_xiaomi_ms.Geofence.Types.{
  GeofenceKey, GeofenceAdapter, geofence_key, key_eq, ClientCallbacks,
}
use android_device_xiaomi_ms.Geofence.Items.{get_hw_id_from_client, remove_geofence_item}
use android_device_xiaomi_ms.Geofence.Commands.{
  CollectiveResponse, ItemOutcome, AddItem, IdItem, ModifyItem, add_item, remove_item, pause_item,
  modify_item, process, report_response, command, add_geofences, remove_geofences, pause_geofences,
  modify_geofences, generate_ids,
}
use android_device_xiaomi_ms.Geofence.Linked.{IsLinked, remove_geofence_item_lem, key_of}

-- A step that always goes on to the response, and leaves the clients alone.
pub record Answering {ℓ} {I : Type ℓ} (step : I → GeofenceAdapter → ItemOutcome) : Type ℓ where
  completes : (x : I) (a : GeofenceAdapter) → (step x a).completes ≡ true
  keeps : (x : I) (a : GeofenceAdapter) → (step x a).adapter.client_data ≡ a.client_data

module _ {ℓ} {I : Type ℓ} (step : I → GeofenceAdapter → ItemOutcome) where
  process-length :
      (items : List I) (a : GeofenceAdapter) → length (process step items a).1 ≡ length items
  unfolding process
  process-length [] a = refl
  process-length (x ∷ xs) a = ap suc (process-length xs (step x a).adapter)

  process-clients :
      (items : List I) (a : GeofenceAdapter)
      → Answering step
      → (process step items a).0.client_data ≡ a.client_data
  unfolding process
  process-clients [] a s = refl
  process-clients (x ∷ xs) a s = process-clients xs (step x a).adapter s ∙ s.keeps x a

  pub process-completes :
      (x : I) (xs : List I) (a : GeofenceAdapter)
      → Answering step
      → (process step (x ∷ xs) a).2 ≡ true
  unfolding process
  process-completes x [] a s = s.completes x a
  process-completes x (y ∷ ys) a s = process-completes y ys (step x a).adapter s

  -- What the last item decides.
  pub process-last :
      (xs : List I) (x : I) (a : GeofenceAdapter)
      → (process step (xs ++ x ∷ []) a).2 ≡ (step x (process step xs a).0).completes
  unfolding process
  process-last [] x a = refl
  process-last (y ∷ []) x a = refl
  process-last (y ∷ z ∷ zs) x a = process-last (z ∷ zs) x (step y a).adapter

  -- One response, with an error for each id.
  abbrev pub RespondsOnce : (I → ℕ) → ℕ → List I → List CollectiveResponse → Type 0
  RespondsOnce id client items rs =
      (errs : List LocationError) × (rs
        ≡ record { client = client; ids = map id items; errs = errs } ∷ [])
      × (length errs ≡ length items)

  command-RespondsOnce :
      (id : I → ℕ) (client : ℕ) (x : I) (xs : List I) (a : GeofenceAdapter) {c : ClientCallbacks}
      → Answering step
      → find client a.client_data ≡ some c
      → c.collective_response_cb ≡ true
      → RespondsOnce id client (x ∷ xs) (command step id client (x ∷ xs) a).1
  unfolding command
  command-RespondsOnce id client x xs a {c} s known set =
      let sent = process-completes x xs a s in
      let registered : find client (process step (x ∷ xs) a).0.client_data ≡ some c =
        ap (find client) (process-clients (x ∷ xs) a s) ∙ known in
      (
        (process step (x ∷ xs) a).1,
        rw (sent, command) (rw (registered, report_response) (rw (set, report_response) refl)),
        process-length (x ∷ xs) a,
      )

add_item-Answering : (lock : EngineLockState) (client : ℕ) → Answering (add_item lock client)
unfolding add_item
add_item-Answering lock client = record { completes = λ x a. refl; keeps = λ x a. ground arith }

remove_item-Answering : (lock : EngineLockState) (client : ℕ) → Answering (remove_item lock client)
unfolding remove_item
remove_item-Answering lock client = record {
  completes = λ x a. ground arith;
  keeps = λ x a. ground arith;
}

pause_item-Answering : (client : ℕ) → Answering (pause_item client)
unfolding pause_item
pause_item-Answering client = record {
  completes = λ x a. ground arith;
  keeps = λ x a. ground arith;
}

pub modify_item-Answering :
    (lock : EngineLockState) (client : ℕ) → Answering (modify_item lock client)
unfolding modify_item
modify_item-Answering lock client = record {
  completes = λ x a. ground arith;
  keeps = λ x a. ground arith;
}

-- Whatever the LocApi answers, a client with a collective callback gets exactly one response to a
-- command that adds, removes, pauses or modifies fences, with all its ids and an error for each.
pub commands_respond :
    (lock : EngineLockState) (client : ℕ) (a : GeofenceAdapter) {c : ClientCallbacks}
    (new : AddItem) (news : List AddItem) (x : IdItem) (xs : List IdItem) (change : ModifyItem)
    (changes : List ModifyItem)
    → find client a.client_data ≡ some c
    → c.collective_response_cb ≡ true
    → RespondsOnce
        (add_item lock client)
        (λ i. i.id)
        client
        (new ∷ news)
        (add_geofences lock client (new ∷ news) a).1
      × RespondsOnce
          (remove_item lock client)
          (λ i. i.id)
          client
          (x ∷ xs)
          (remove_geofences lock client (x ∷ xs) a).1
      × RespondsOnce
          (pause_item client)
          (λ i. i.id)
          client
          (x ∷ xs)
          (pause_geofences client (x ∷ xs) a).1
      × RespondsOnce
          (modify_item lock client)
          (λ i. i.id)
          client
          (change ∷ changes)
          (modify_geofences lock client (change ∷ changes) a).1
unfolding add_geofences remove_geofences pause_geofences modify_geofences
commands_respond lock client a new news x xs change changes known set = (
  command-RespondsOnce (add_item lock client) (λ i. i.id) client new news a
      (add_item-Answering lock client) known set,
  command-RespondsOnce (remove_item lock client) (λ i. i.id) client x xs a
      (remove_item-Answering lock client) known set,
  command-RespondsOnce (pause_item client) (λ i. i.id) client x xs a (pause_item-Answering client)
      known set,
  command-RespondsOnce (modify_item lock client) (λ i. i.id) client change changes a
      (modify_item-Answering lock client) known set,
)

-- If the maps are linked, a fence that the LocApi has removed is gone from both maps, and no other id of a
-- client changes.
pub remove_success_gone :
    (lock : EngineLockState) (client : ℕ) (x : IdItem) (a : GeofenceAdapter) (hw : ℕ)
    → IsLinked a
    → get_hw_id_from_client client x.id a ≡ some hw
    → is_success x.answer ≡ true
    → let b = (remove_item lock client x a).adapter in
      (find hw b.geofences ≡ none)
      × ((k : GeofenceKey)
          → find k b.geofence_ids
            ≡ (if key_eq (key_of client x.id) k then none else find k a.geofence_ids))
unfolding remove_item get_hw_id_from_client
remove_success_gone lock client x a hw v known ok =
    let (o, there, owner) = v.forward (key_of client x.id) hw known in
    let removed = remove_geofence_item_lem hw a o there (v.backward hw o there) in
    let step : (remove_item lock client x a).adapter ≡ remove_geofence_item hw a = ground arith in
    subst
      (λ (b : GeofenceAdapter).
        (find hw b.geofences ≡ none)
        × ((k : GeofenceKey)
            → find k b.geofence_ids
              ≡ (if key_eq (key_of client x.id) k then none else find k a.geofence_ids)))
      (sym (step ∙ removed))
      (
        find-erase_eq hw hw a.geofences refl,
        λ k.
            find-erase k o.key a.geofence_ids
            ∙ ap (λ (own : GeofenceKey). if key_eq own k then none else find k a.geofence_ids)
                owner,
      )

abbrev pub IsSessionId : ℕ → Type 0
IsSessionId id = (1 ≤ id) × (id < 4294967295)

-- From a counter below 2 ^ 32 - 1, the session ids of `addGeofencesCommand` lie between 1 and 2 ^ 32
-- - 2, also where the counter wraps, are as many as are asked for, and the counter stays below 2 ^
-- 32 - 1.
pub generate_ids_bounds :
    (count counter : ℕ)
    → counter < 4294967295
    → All IsSessionId (generate_ids count counter).0
      × (length (generate_ids count counter).0 ≡ count)
      × ((generate_ids count counter).1 < 4294967295)
unfolding generate_ids
generate_ids_bounds zero counter h = (tt, refl, h)
generate_ids_bounds (suc count) counter h =
    let id = generate_session_id counter in
    let in_range : IsSessionId id = ground arith in
    let (ids, size, next) = generate_ids_bounds count id in_range.1 in
    ((in_range, ids), ap suc size, next)
