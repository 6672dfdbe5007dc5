-- ===== src/Observer/Subscriptions.antt =====
-- `SystemStatusOsObserver` (gps/core/SystemStatusOsObserver.cpp): a client's address, a data item's id and
-- a data item's content are numbers. Each request is the handling of its message. `none` says that the
-- code does something that has no meaning.
use android_device_xiaomi_ms.Base.{
  ℕ, ◌+◌, ◌-◌, Bool, true, not, ◌||◌, Option, none, some, List, [], ◌∷◌, ◌++◌, ◌==◌, find, insert,
  erase, nat_key, is_empty, if◌then◌else◌, filter,
}
use android_device_xiaomi_ms.Observer.SetMap.{
  SetMap, elem, insert_values, get_val_set, get_keys, add, add_all, trim_or_remove, update,
}

pub record Observer : Type 0 where
  pub client_to_data_items : SetMap
  pub data_item_to_clients : SetMap
  pub data_item_cache : List (ℕ × ℕ)
  pub active_request_count : List (ℕ × ℕ)
  pub has_subscription_obj : Bool
  pub has_framework_action_req_obj : Bool

-- The calls to the framework and to the clients.
pub data Call : Type 0 where
  subscribe_items unsubscribe_items request_items : List ℕ → Call
  notify_client : (client : ℕ) (items : List (ℕ × ℕ)) → Call
  turn_on_item turn_off_item : ℕ → Call

-- The items of a set that are in the cache, the last one first.
unfoldable pub cached : List ℕ → List (ℕ × ℕ) → List (ℕ × ℕ)
unfolding find
cached [] cache = []
cached (d ∷ ds) cache =
    let rest = cached ds cache in elim (find d cache) [ none ↦ rest | some v ↦ rest ++ (d, v) ∷ [] ]

unfoldable pub send_cached_data_items : List ℕ → ℕ → Observer → List Call
unfolding cached
send_cached_data_items s to o =
    if to == 0
    then []
    else if is_empty (cached s o.data_item_cache)
    then []
    else notify_client to (cached s o.data_item_cache) ∷ []

-- What the framework is told, if there is something to tell and someone to tell it to.
abbrev pub tell : Observer → (List ℕ → Call) → List ℕ → List Call
tell o call s = if not o.has_subscription_obj || is_empty s then [] else call s ∷ []

unfoldable pub set_subscription_obj : Observer → Observer × List Call
unfolding get_keys
set_subscription_obj o = (
  record o { has_subscription_obj = true },
  if is_empty o.data_item_to_clients
      then []
      else subscribe_items (get_keys o.data_item_to_clients)
        ∷ request_items (get_keys o.data_item_to_clients)
        ∷ [],
)

unfoldable pub subscribe : List ℕ → ℕ → Bool → Observer → Observer × List Call
unfolding add add_all insert_values send_cached_data_items
subscribe l client to_request_data o =
    let s = insert_values l [] in
    let (to_clients, fresh) = add_all s (client ∷ []) o.data_item_to_clients in
    let told =
      if to_request_data
      then (if o.has_subscription_obj then request_items l ∷ [] else [])
      else tell o subscribe_items fresh in
    if is_empty l || client == 0 then (o, []) else (
      record o {
        client_to_data_items = (add client s o.client_to_data_items).0;
        data_item_to_clients = to_clients;
      },
      send_cached_data_items s client o ++ told,
    )

unfoldable pub unsubscribe : List ℕ → ℕ → Observer → Observer × List Call
unfolding trim_or_remove insert_values
unsubscribe l client o =
    let s = insert_values l [] in
    let by_client = trim_or_remove (client ∷ []) s o.client_to_data_items in
    let by_item = trim_or_remove by_client.gone_vals (client ∷ []) o.data_item_to_clients in
    if is_empty l || client == 0 then (o, []) else (
      record o { client_to_data_items = by_client.trimmed; data_item_to_clients = by_item.trimmed },
      tell o unsubscribe_items by_item.gone_keys,
    )

unfoldable pub unsubscribe_all : ℕ → Observer → Observer × List Call
unfolding get_val_set trim_or_remove erase
unsubscribe_all client o =
    let s = get_val_set client o.client_to_data_items in
    let by_item = trim_or_remove s (client ∷ []) o.data_item_to_clients in
    if client == 0 || is_empty s then (o, []) else (
      record o {
        client_to_data_items = erase client o.client_to_data_items;
        data_item_to_clients = by_item.trimmed;
      },
      tell o unsubscribe_items by_item.gone_keys,
    )

unfoldable pub update_subscription : List ℕ → ℕ → Observer → Option (Observer × List Call)
unfolding update trim_or_remove add_all insert_values send_cached_data_items
update_subscription l client o =
    let s = insert_values l [] in
    let changed : Option (Observer × List Call) = elim (update client s o.client_to_data_items) [
      | none ↦ none
      | some (by_client, gone) ↦
          let by_item = trim_or_remove gone (client ∷ []) o.data_item_to_clients in
          let (to_clients, fresh) = add_all s (client ∷ []) by_item.trimmed in
          some (
            record o { client_to_data_items = by_client; data_item_to_clients = to_clients },
            send_cached_data_items s client o
                ++ tell o subscribe_items fresh
                ++ tell o unsubscribe_items by_item.gone_keys,
          )
    ] in
    if is_empty l || client == 0 then some (o, []) else changed

-- The clients of some items.
unfoldable pub clients_of : List ℕ → SetMap → List ℕ
unfolding get_val_set insert_values
clients_of [] m = []
clients_of (d ∷ ds) m = insert_values (get_val_set d m) (clients_of ds m)

unfoldable pub notify_each : List ℕ → List ℕ → Observer → List Call
unfolding get_val_set send_cached_data_items elem
notify_each ids [] o = []
notify_each ids (client ∷ clients) o =
    let items = filter (λ d. elem d ids) (get_val_set client o.client_to_data_items) in
    send_cached_data_items items client o ++ notify_each ids clients o

-- `notify`, from the ids that `updateCache` found changed on.
unfoldable pub notify_changed : List ℕ → Observer → List Call
unfolding clients_of notify_each
notify_changed ids o = notify_each ids (clients_of ids o.data_item_to_clients) o

unfoldable pub turn_on : ℕ → Observer → Observer × List Call
unfolding find insert
turn_on d o =
    if o.has_framework_action_req_obj
    then elim (find d o.active_request_count) [
      | none ↦ (
        record o { active_request_count = insert d 1 o.active_request_count },
        turn_on_item d ∷ [],
      )
      | some n ↦ (record o { active_request_count = insert d (n + 1) o.active_request_count }, [])
    ]
    else (o, [])

unfoldable pub turn_off : ℕ → Observer → Observer × List Call
unfolding find insert erase
turn_off d o =
    if o.has_framework_action_req_obj
    then elim (find d o.active_request_count) [
      | none ↦ (o, [])
      | some n ↦
          if n == 1
          then (
            record o { active_request_count = erase d o.active_request_count },
            turn_off_item d ∷ [],
          )
          else (record o { active_request_count = insert d (n - 1) o.active_request_count }, [])
    ]
    else (o, [])
