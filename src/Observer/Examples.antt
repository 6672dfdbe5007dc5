-- ===== src/Observer/Examples.antt =====
-- Tests of the observer model: clients 1 and 2 and the items 10, 11 and 12.
use android_device_xiaomi_ms.Base.{
  ◌≡◌, refl, true, false, not, ◌||◌, ◌&&◌, none, some, List, [], ◌∷◌, ◌==◌, arith, find, nat_key,
}
use android_device_xiaomi_ms.Observer.SetMap.{elem}
use android_device_xiaomi_ms.Observer.Subscriptions.{
  Observer, Call, subscribe_items, unsubscribe_items, notify_client, subscribe, unsubscribe,
  unsubscribe_all, update_subscription, notify_changed,
}
use android_device_xiaomi_ms.Observer.Entries.{has}
use android_device_xiaomi_ms.Observer.Mirror.{
  IsMirrored, is_client, requests-IsMirrored, requests_items,
}
use android_device_xiaomi_ms.Observer.Switches.{IsCounted}

abbrev fresh_observer : Observer
fresh_observer = record {
  client_to_data_items = [];
  data_item_to_clients = [];
  data_item_cache = (10, 3) ∷ [];
  active_request_count = (10, 1) ∷ [];
  has_subscription_obj = true;
  has_framework_action_req_obj = true;
}

fresh_observer-IsMirrored : IsMirrored fresh_observer
unfolding has
fresh_observer-IsMirrored = λ c d. refl

-- Client 1 has the items 10 and 11.
abbrev one_client : Observer
one_client = (subscribe (10 ∷ 11 ∷ []) 1 false fresh_observer).0

one_client-IsMirrored : IsMirrored one_client
one_client-IsMirrored =
    (requests-IsMirrored (10 ∷ 11 ∷ []) 1 false fresh_observer fresh_observer-IsMirrored).0

first_subscription :
    (subscribe (10 ∷ 11 ∷ []) 1 false fresh_observer).1
    ≡ notify_client 1 ((10, 3) ∷ []) ∷ subscribe_items (10 ∷ 11 ∷ []) ∷ []
unfolding subscribe
first_subscription = refl

last_unsubscription : (unsubscribe (10 ∷ []) 1 one_client).1 ≡ unsubscribe_items (10 ∷ []) ∷ []
unfolding unsubscribe subscribe
last_unsubscription = refl

change_notified : notify_changed (10 ∷ 12 ∷ []) one_client ≡ notify_client 1 ((10, 3) ∷ []) ∷ []
unfolding notify_changed subscribe
change_notified = refl

requests-IsMirrored_example :
    IsMirrored (subscribe (11 ∷ 12 ∷ []) 2 true one_client).0
    × IsMirrored (unsubscribe (11 ∷ 12 ∷ []) 2 one_client).0
    × IsMirrored (unsubscribe_all 2 one_client).0
requests-IsMirrored_example =
    requests-IsMirrored (11 ∷ 12 ∷ []) 2 true one_client one_client-IsMirrored

requests_items_example :
    (is_client 1 12 (subscribe (11 ∷ 12 ∷ []) 1 false one_client).0
      ≡ (is_client 1 12 one_client || 1 == 1 && elem 12 (11 ∷ 12 ∷ [])))
    × (is_client 1 12 (unsubscribe (11 ∷ 12 ∷ []) 1 one_client).0
        ≡ (is_client 1 12 one_client && not (1 == 1 && elem 12 (11 ∷ 12 ∷ []))))
    × (is_client 1 12 (unsubscribe_all 1 one_client).0
        ≡ (is_client 1 12 one_client && not (1 == 1)))
requests_items_example = requests_items (11 ∷ 12 ∷ []) 1 false one_client 1 12 refl

client_one_has : is_client 1 10 one_client ≡ true
unfolding has subscribe
client_one_has = refl

-- Client 1 changes to the item 12 alone.
abbrev changed : Observer × List Call
changed = elim (update_subscription (12 ∷ []) 1 one_client) [ none ↦ (one_client, []) | some r ↦ r ]

changed_lem : update_subscription (12 ∷ []) 1 one_client ≡ some changed
unfolding update_subscription subscribe
changed_lem = refl

fresh_observer-IsCounted : IsCounted fresh_observer
unfolding find
fresh_observer-IsCounted = λ d n e. ground arith
