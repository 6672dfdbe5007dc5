-- ===== src/Location/Removal.antt =====
-- When a client that is destroyed is deleted (gps/location/LocationAPI.cpp).
use android_device_xiaomi_ms.Base.{
  ℕ, ◌≡◌, ◌≢◌, refl, ◌∙◌, ap, Bool, true, false, not, ◌&&◌, ◌||◌, Option, none, some, List, [], ◌∷◌,
  ◌++◌, filter, any, All, find, insert, erase, nat_key, find-insert_eq, find-insert_ne,
  find-erase_eq, find-erase_ne, ◌==◌, ==_iff, Bool-cases, Option-cases, inl, inr, if◌then◌else◌,
  if_both, arith,
}
use android_device_xiaomi_ms.Core.{add32, sub32}
use android_device_xiaomi_ms.Location.Types.{
  LocationCallbacks, AdapterType, Adapters, set_at, DestroyCbData, LocationApiData, Output,
  destroy_complete, delete_client,
}
use android_device_xiaomi_ms.Location.Api.{
  Step, load, add_to, add_to_adapters, has_mandatory, create_instance, update_callbacks, finish,
  loaded, is_zero, destroy, on_remove_client_complete_cb, Event, create_event, update_event,
  destroy_event, complete_event, handle, run_events,
}
use android_device_xiaomi_ms.Location.Clients.{filter-append}

-- The calls that end a client: that of its callback and its deletion.
abbrev pub ends : ℕ → Output → Bool
ends client (destroy_complete k cb) = k == client
ends client (delete_client k) = k == client
ends client _ = false

abbrev pub destroys : ℕ → Event → Bool
destroys client (destroy_event k cb) = k == client
destroys client _ = false

abbrev pub same_type : AdapterType → AdapterType → Bool
same_type AdapterType.gnss_type AdapterType.gnss_type = true
same_type AdapterType.batching_type AdapterType.batching_type = true
same_type AdapterType.geofence_type AdapterType.geofence_type = true
same_type _ _ = false

abbrev pub completes : ℕ → AdapterType → Event → Bool
completes client t (complete_event k s) = k == client && same_type s t
completes client t _ = false

-- Has each adapter of the mask completed the client's removal?
abbrev pub is_answered : ℕ → List Event → Adapters Bool → Bool
is_answered client events mask =
    (not mask.gnss || any (completes client AdapterType.gnss_type) events)
    && ((not mask.batching || any (completes client AdapterType.batching_type) events)
        && (not mask.geofence || any (completes client AdapterType.geofence_type) events))

-- The step does not end the client, nor change what it waits for.
abbrev IsQuiet : ℕ → LocationApiData → Step → Type 0
IsQuiet client d (e, calls) =
    (find client e.destroy_client_data ≡ find client d.destroy_client_data)
    × (filter (ends client) calls ≡ [])

add_to-quiet :
    (is_available : AdapterType → Bool) (client k : ℕ) (c : LocationCallbacks) (t : AdapterType)
    (requested : Bool) (d : LocationApiData)
    → let (now, e, calls) = add_to is_available k c t requested d in
      (e.destroy_client_data ≡ d.destroy_client_data) × (filter (ends client) calls ≡ [])
unfolding add_to load
add_to-quiet is_available client k c t requested d = (ground arith, ground arith)

add_to_adapters-quiet :
    (is_available : AdapterType → Bool) (client k : ℕ) (c : LocationCallbacks) (requested : Bool)
    (d : LocationApiData)
    → let (e, calls) = add_to_adapters is_available k c requested d in
      (e.destroy_client_data ≡ d.destroy_client_data) × (filter (ends client) calls ≡ [])
unfolding add_to_adapters
add_to_adapters-quiet is_available client k c requested d =
    let first = add_to is_available k c AdapterType.gnss_type requested d in
    let second = add_to is_available k c AdapterType.batching_type first.0 first.1 in
    let third = add_to is_available k c AdapterType.geofence_type second.0 second.1 in
    let (kept1, quiet1) = add_to-quiet is_available client k c AdapterType.gnss_type requested d in
    let (kept2, quiet2) =
      add_to-quiet is_available client k c AdapterType.batching_type first.0 first.1 in
    let (kept3, quiet3) =
      add_to-quiet is_available client k c AdapterType.geofence_type second.0 second.1 in
    (
      kept3 ∙ (kept2 ∙ kept1),
      rw
          (
            filter-append (ends client) (first.2 ++ second.2) third.2,
            filter-append (ends client) first.2 second.2,
            quiet1,
            quiet2,
            quiet3,
          )
          refl,
    )

destroy-IsQuiet :
    (client k : ℕ) (cb : Option ℕ) (d : LocationApiData)
    → k ≢ client
    → IsQuiet client d (destroy k cb d)
unfolding destroy finish
destroy-IsQuiet client k cb d n =
    let other : (k == client) ≡ false = ground arith in
    let entry : DestroyCbData = record { wait_adapter_mask = loaded d; destroy_complete_cb = cb } in
    let kept = find-insert_ne client k d.destroy_client_data entry n in
    (ground (arith, kept), ground arith)

complete-IsQuiet :
    (client k : ℕ) (t : AdapterType) (d : LocationApiData)
    → k ≢ client
    → IsQuiet client d (on_remove_client_complete_cb k t d)
unfolding on_remove_client_complete_cb finish
complete-IsQuiet client k t d n =
    let other : (k == client) ≡ false = ground arith in
    elim (Option-cases (find k d.destroy_client_data)) [
      | inl missing ↦ rw (on_remove_client_complete_cb, missing) (refl, refl)
      | inr (entry, there) ↦
          let mask = set_at t false entry.wait_adapter_mask in
          let left : DestroyCbData = record entry { wait_adapter_mask = mask } in
          elim (Bool-cases (is_zero mask)) [
            | inl last ↦
                rw (on_remove_client_complete_cb, there, last)
                  (find-erase_ne client k d.destroy_client_data n, ground arith)
            | inr waits ↦
                rw (on_remove_client_complete_cb, there, waits)
                  (find-insert_ne client k d.destroy_client_data left n, refl)
          ]
    ]

abbrev about : ℕ → Event → Bool
about client (complete_event k t) = k == client
about client _ = false

handle-IsQuiet :
    (is_available : AdapterType → Bool) (client : ℕ) (event : Event) (d : LocationApiData)
    → destroys client event ≡ false
    → about client event ≡ false
    → IsQuiet client d (handle is_available event d)
unfolding handle create_instance update_callbacks
handle-IsQuiet is_available client (create_event k c) d h g =
    let counted = record d { os_framework_ref_count = add32 d.os_framework_ref_count 1 } in
    let (kept, quiet) = add_to_adapters-quiet is_available client k c false counted in
    elim (Bool-cases (has_mandatory c)) [
      | inl mandatory ↦ rw (handle, mandatory) (ap (find client) kept, ground arith)
      | inr missing ↦ rw (handle, missing) (refl, refl)
    ]
handle-IsQuiet is_available client (update_event k c) d h g =
    let (kept, quiet) = add_to_adapters-quiet is_available client k c true d in
    if_both (IsQuiet client d) (has_mandatory c) (ap (find client) kept, quiet) (refl, refl)
handle-IsQuiet is_available client (destroy_event k cb) d h g =
    destroy-IsQuiet client k cb d (λ e. ground arith)
handle-IsQuiet is_available client (complete_event k t) d h g =
    complete-IsQuiet client k t d (λ e. ground arith)

complete_unknown :
    (is_available : AdapterType → Bool) (client : ℕ) (event : Event) (d : LocationApiData)
    → about client event ≡ true
    → find client d.destroy_client_data ≡ none
    → handle is_available event d ≡ (d, [])
unfolding handle on_remove_client_complete_cb
complete_unknown is_available client (create_event k c) d own gone = absurd (ground arith)
complete_unknown is_available client (update_event k c) d own gone = absurd (ground arith)
complete_unknown is_available client (destroy_event k cb) d own gone = absurd (ground arith)
complete_unknown is_available client (complete_event k t) d own gone =
    let same : k ≡ client = ground arith in
    let missing : find k d.destroy_client_data ≡ none = rw same gone in
    rw (on_remove_client_complete_cb, missing) refl

-- A client that waits for nothing is not ended.
run_events-gone :
    (is_available : AdapterType → Bool) (client : ℕ) (events : List Event) (d : LocationApiData)
    → find client d.destroy_client_data ≡ none
    → All (λ e. destroys client e ≡ false) events
    → filter (ends client) (run_events is_available events d).1 ≡ []
unfolding run_events
run_events-gone is_available client [] d gone h = refl
run_events-gone is_available client (event ∷ rest) d gone (g, h) =
    let e = (handle is_available event d).0 in
    let calls = (handle is_available event d).1 in
    let (kept, quiet) : IsQuiet client d (e, calls) = elim (Bool-cases (about client event)) [
      | inl own ↦ rw (complete_unknown is_available client event d own gone) (refl, refl)
      | inr other ↦ handle-IsQuiet is_available client event d g other
    ] in
    rw (filter-append (ends client) calls (run_events is_available rest e).1, quiet)
      (run_events-gone is_available client rest e (kept ∙ gone) h)

is_answered_other :
    (client : ℕ) (event : Event) (rest : List Event) (mask : Adapters Bool)
    → about client event ≡ false
    → is_answered client (event ∷ rest) mask ≡ is_answered client rest mask
is_answered_other client (create_event k c) rest mask other = refl
is_answered_other client (update_event k c) rest mask other = refl
is_answered_other client (destroy_event k cb) rest mask other = refl
is_answered_other client (complete_event k t) rest mask other = rw other refl

is_answered_own :
    (client k : ℕ) (t : AdapterType) (rest : List Event) (mask : Adapters Bool)
    → (k == client) ≡ true
    → is_answered client (complete_event k t ∷ rest) mask
      ≡ is_answered client rest (set_at t false mask)
is_answered_own client k AdapterType.gnss_type rest mask own = elim (Bool-cases mask.gnss) [
  | inl asked ↦ rw (own, asked) refl
  | inr free ↦ rw (own, free) refl
]
is_answered_own client k AdapterType.batching_type rest mask own = elim (Bool-cases mask.batching) [
  | inl asked ↦ rw (own, asked) refl
  | inr free ↦ rw (own, free) refl
]
is_answered_own client k AdapterType.geofence_type rest mask own = elim (Bool-cases mask.geofence) [
  | inl asked ↦ rw (own, asked) refl
  | inr free ↦ rw (own, free) refl
]

is_answered_zero :
    (client : ℕ) (rest : List Event) (mask : Adapters Bool)
    → is_zero mask ≡ true
    → is_answered client rest mask ≡ true
is_answered_zero client rest mask zero_mask =
    let no_gnss : mask.gnss ≡ false = ground arith in
    let no_batching : mask.batching ≡ false = ground arith in
    let no_geofence : mask.geofence ≡ false = ground arith in
    rw (no_gnss, no_batching, no_geofence) refl

-- The client that waits for the adapters of the mask.
abbrev Waits : ℕ → ℕ → Adapters Bool → LocationApiData → Type 0
Waits client cb mask d =
    find client d.destroy_client_data
    ≡ some (record { wait_adapter_mask = mask; destroy_complete_cb = some cb })

-- The calls that end the client, where the answers of all adapters, or not of all, are among the events.
abbrev ending : ℕ → Bool → List Output
ending client answered = if answered then delete_client client ∷ [] else []

about-complete_event :
    (client : ℕ) (event : Event)
    → about client event ≡ true
    → (t : AdapterType) × (event ≡ complete_event client t)
about-complete_event client (create_event k c) own = absurd (ground arith)
about-complete_event client (update_event k c) own = absurd (ground arith)
about-complete_event client (destroy_event k cb) own = absurd (ground arith)
about-complete_event client (complete_event k t) own = (t, ground arith)

module _ (client cb : ℕ) (t : AdapterType) (mask : Adapters Bool) (d : LocationApiData)
    (waits : Waits client cb mask d) where
  complete_last :
      is_zero (set_at t false mask) ≡ true
      → on_remove_client_complete_cb client t d ≡ (
        record d { destroy_client_data = erase client d.destroy_client_data },
        delete_client client ∷ [],
      )
  unfolding on_remove_client_complete_cb finish
  complete_last last = rw (on_remove_client_complete_cb, waits, last) refl

  complete_more :
      is_zero (set_at t false mask) ≡ false
      → (e : LocationApiData) × (on_remove_client_complete_cb client t d ≡ (e, []))
        × Waits client cb (set_at t false mask) e
  unfolding on_remove_client_complete_cb
  complete_more more =
      let left : DestroyCbData = record {
        wait_adapter_mask = set_at t false mask;
        destroy_complete_cb = some cb;
      } in
      (
        record d { destroy_client_data = insert client left d.destroy_client_data },
        rw (on_remove_client_complete_cb, waits, more) refl,
        find-insert_eq client client d.destroy_client_data left refl,
      )

run_events-ending :
    (is_available : AdapterType → Bool) (client cb : ℕ) (events : List Event) (mask : Adapters Bool)
    (d : LocationApiData)
    → Waits client cb mask d
    → is_zero mask ≡ false
    → All (λ e. destroys client e ≡ false) events
    → filter (ends client) (run_events is_available events d).1
      ≡ ending client (is_answered client events mask)
unfolding run_events handle on_remove_client_complete_cb finish
run_events-ending is_available client cb [] mask d waits some_bit h = ground arith
run_events-ending is_available client cb (event ∷ rest) mask d waits some_bit (g, h) =
    elim (Bool-cases (about client event)) [
      | inl own ↦
          let (t, same) = about-complete_event client event own in
          let itself : (client == client) ≡ true = (==_iff client client).1 refl in
          elim (Bool-cases (is_zero (set_at t false mask))) [
            | inl last ↦
                let e = record d { destroy_client_data = erase client d.destroy_client_data } in
                let gone = find-erase_eq client client d.destroy_client_data refl in
                let none_more = run_events-gone is_available client rest e gone h in
                rw
                  (
                    same,
                    complete_last client cb t mask d waits last,
                    is_answered_own client client t rest mask itself,
                  )
                  (rw (itself, is_answered_zero client rest (set_at t false mask) last, none_more)
                    refl)
            | inr more ↦
                let (e, step, still) = complete_more client cb t mask d waits more in
                rw (same, step, is_answered_own client client t rest mask itself)
                  (run_events-ending is_available client cb rest (set_at t false mask) e still more
                    h)
          ]
      | inr other ↦
          let e = (handle is_available event d).0 in
          let calls = (handle is_available event d).1 in
          let (kept, quiet) = handle-IsQuiet is_available client event d g other in
          rw
            (
              filter-append (ends client) calls (run_events is_available rest e).1,
              quiet,
              is_answered_other client event rest mask other,
            )
            (run_events-ending is_available client cb rest mask e (kept ∙ waits) some_bit h)
    ]

-- If a known client asks for its destruction with a callback while some adapter is loaded, and no later
-- event asks for its destruction again, then, whatever other clients and events come in between and in
-- whatever order the adapters complete: the request itself does not end the client; the client is deleted
-- by exactly one of the events as soon as all the adapters that were loaded have completed its removal,
-- and by none if one of them does not; and the callback that it has given is never called.
pub destroy-ends_client :
    (is_available : AdapterType → Bool) (client cb : ℕ) (c : LocationCallbacks)
    (d : LocationApiData) (events : List Event)
    → find client d.client_data ≡ some c
    → is_zero (loaded d) ≡ false
    → All (λ e. destroys client e ≡ false) events
    → let (e, calls) = destroy client (some cb) d in
      (filter (ends client) calls ≡ [])
      × (filter (ends client) (run_events is_available events e).1
          ≡ (if is_answered client events (loaded d) then delete_client client ∷ [] else []))
unfolding destroy
destroy-ends_client is_available client cb c d events known some_loaded h =
    let entry : DestroyCbData = record {
      wait_adapter_mask = loaded d;
      destroy_complete_cb = some cb;
    } in
    let e = record d {
      client_data = erase client d.client_data;
      destroy_client_data = insert client entry d.destroy_client_data;
      os_framework_ref_count = sub32 d.os_framework_ref_count 1;
    } in
    let waits = find-insert_eq client client d.destroy_client_data entry refl in
    (
      rw (destroy, known, some_loaded) (ground arith),
      rw (destroy, known, some_loaded)
          (run_events-ending is_available client cb events (loaded d) e waits some_loaded h),
    )
