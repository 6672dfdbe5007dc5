-- ===== src/Observer/Framework.antt =====
-- What `SystemStatusOsObserver` tells the framework (gps/core/SystemStatusOsObserver.cpp).
use android_device_xiaomi_ms.Base.{ℕ, Bool, false, ◌||◌, List, [], ◌∷◌, nat_key}
use android_device_xiaomi_ms.Observer.SetMap.{elem}
use android_device_xiaomi_ms.Observer.Subscriptions.{
  Observer, Call, subscribe_items, unsubscribe_items,
}
use android_device_xiaomi_ms.Observer.Entries.{has_entry}

-- Does the observer need an item of the framework?
abbrev pub is_wanted : ℕ → Observer → Bool
is_wanted d o = has_entry d o.data_item_to_clients

-- Do the calls subscribe to an item, or unsubscribe from it?
unfoldable pub is_subscribed : ℕ → List Call → Bool
unfolding elem
is_subscribed d [] = false
is_subscribed d (subscribe_items s ∷ calls) = elem d s || is_subscribed d calls
is_subscribed d (_ ∷ calls) = is_subscribed d calls

unfoldable pub is_unsubscribed : ℕ → List Call → Bool
unfolding elem
is_unsubscribed d [] = false
is_unsubscribed d (unsubscribe_items s ∷ calls) = elem d s || is_unsubscribed d calls
is_unsubscribed d (_ ∷ calls) = is_unsubscribed d calls
