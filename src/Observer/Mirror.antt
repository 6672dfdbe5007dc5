-- ===== src/Observer/Mirror.antt =====
-- The two maps of `SystemStatusOsObserver` against one another (gps/core/SystemStatusOsObserver.cpp).
use android_device_xiaomi_ms.Base.{
  ℕ, ◌≡◌, refl, sym, ◌∙◌, ap, Bool, true, false, not, ◌||◌, ◌&&◌, List, [], ◌∷◌, ◌==◌, ==_iff,
  nat_key, is_empty, arith, Bool-cases, inl, inr, if_both,
}
use android_device_xiaomi_ms.Observer.SetMap.{
  SetMap, elem, insert_values, get_val_set, trim_or_remove,
}
use android_device_xiaomi_ms.Observer.Subscriptions.{
  Observer, Call, subscribe, unsubscribe, unsubscribe_all,
}
use android_device_xiaomi_ms.Observer.Entries.{elem-insert_values, has, has-erase, has-add}
use android_device_xiaomi_ms.Observer.Keys.{has-add_all, has-trim_or_remove, trim_one-gone_vals}

-- A client has an item exactly if the item has the client.
abbrev pub IsMirrored : Observer → Type 0
IsMirrored o = (c d : ℕ) → has c d o.client_to_data_items ≡ has d c o.data_item_to_clients

pub elem_one : (x y : ℕ) → elem x (y ∷ []) ≡ (y == x)
unfolding elem
elem_one x y = ground arith

pub elem_set : (x : ℕ) (l : List ℕ) → elem x (insert_values l []) ≡ elem x l
unfolding elem
elem_set x l = elem-insert_values x l [] ∙ ground arith

subscribe-IsMirrored :
    (l : List ℕ) (client : ℕ) (request : Bool) (o : Observer)
    → IsMirrored o
    → IsMirrored (subscribe l client request o).0
unfolding subscribe
subscribe-IsMirrored l client request o v =
    if_both (λ (r : Observer × List Call). IsMirrored r.0) (is_empty l || client == 0) v
      (λ c d. ground (
        arith,
        v c d,
        has-add c d client (insert_values l []) o.client_to_data_items,
        has-add_all d c (insert_values l []) (client ∷ []) o.data_item_to_clients,
        elem_one c client,
      ))

-- What a client loses in one map, the values lose in the other.
trims-IsMirrored :
    (client c d : ℕ) (s t : List ℕ) (m n : SetMap)
    → has c d m ≡ has d c n
    → elem d t ≡ (has client d m && elem d s)
    → (has c d m && not (client == c && elem d s))
      ≡ has d c (trim_or_remove t (client ∷ []) n).trimmed
trims-IsMirrored client c d s t m n v gone =
    let by_item = has-trim_or_remove d c t (client ∷ []) n in
    let one = elem_one c client in
    elim (Bool-cases (client == c)) [
      | inl same ↦
          let own : has client d m ≡ has c d m = ap (λ x. has x d m) ((==_iff client c).0 same) in
          ground arith
      | inr other ↦ ground arith
    ]

unsubscribe-IsMirrored :
    (l : List ℕ) (client : ℕ) (o : Observer) → IsMirrored o → IsMirrored (unsubscribe l client o).0
unfolding unsubscribe
unsubscribe-IsMirrored l client o v =
    let s = insert_values l [] in
    let unused = (trim_or_remove (client ∷ []) s o.client_to_data_items).gone_vals in
    if_both (λ (r : Observer × List Call). IsMirrored r.0) (is_empty l || client == 0) v
      (λ c d.
        has-trim_or_remove c d (client ∷ []) s o.client_to_data_items
        ∙ ap (λ b. has c d o.client_to_data_items && not (b && elem d s)) (elem_one c client)
        ∙ trims-IsMirrored client c d s unused o.client_to_data_items o.data_item_to_clients (v c d)
            (trim_one-gone_vals d client s o.client_to_data_items))

own_items :
    (client c d : ℕ) (m : SetMap)
    → (has c d m && not (client == c))
      ≡ (has c d m && not (client == c && elem d (get_val_set client m)))
own_items client c d m = elim (Bool-cases (client == c)) [
  | inl same ↦
      let own : has c d m ≡ elem d (get_val_set client m) =
        ap (λ x. has x d m) (sym ((==_iff client c).0 same)) ∙ unfold has in refl in
      ground arith
  | inr other ↦ ground arith
]

unsubscribe_all-IsMirrored :
    (client : ℕ) (o : Observer) → IsMirrored o → IsMirrored (unsubscribe_all client o).0
unfolding unsubscribe_all
unsubscribe_all-IsMirrored client o v =
    let s = get_val_set client o.client_to_data_items in
    if_both (λ (r : Observer × List Call). IsMirrored r.0) (client == 0 || is_empty s) v
      (λ c d.
        let own : has client d o.client_to_data_items ≡ elem d s = unfold has in refl in
        let all : elem d s ≡ (has client d o.client_to_data_items && elem d s) = ground arith in
        let lost =
          trims-IsMirrored client c d s s o.client_to_data_items o.data_item_to_clients (v c d)
            all in
        let erased = (has-erase c d client o.client_to_data_items).0 in
        erased ∙ own_items client c d o.client_to_data_items ∙ lost)

-- Where the two maps mirror one another they do so after each request that subscribes, that asks for
-- data, that unsubscribes from some items or from all.
pub requests-IsMirrored :
    (l : List ℕ) (client : ℕ) (request : Bool) (o : Observer)
    → IsMirrored o
    → IsMirrored (subscribe l client request o).0
      × IsMirrored (unsubscribe l client o).0
      × IsMirrored (unsubscribe_all client o).0
requests-IsMirrored l client request o v = (
  subscribe-IsMirrored l client request o v,
  unsubscribe-IsMirrored l client o v,
  unsubscribe_all-IsMirrored client o v,
)

-- Does a client have an item?
abbrev pub is_client : ℕ → ℕ → Observer → Bool
is_client c d o = has c d o.client_to_data_items

subscribe_items_of :
    (l : List ℕ) (client : ℕ) (request : Bool) (o : Observer) (c d : ℕ)
    → (client == 0) ≡ false
    → is_client c d (subscribe l client request o).0 ≡ (is_client c d o || client == c && elem d l)
unfolding subscribe elem
subscribe_items_of [] client request o c d real = ground arith
subscribe_items_of (x ∷ xs) client request o c d real =
    let added = has-add c d client (insert_values (x ∷ xs) []) o.client_to_data_items in
    let set = elem_set d (x ∷ xs) in rw real (ground arith)

unsubscribe_items_of :
    (l : List ℕ) (client : ℕ) (o : Observer) (c d : ℕ)
    → (client == 0) ≡ false
    → is_client c d (unsubscribe l client o).0 ≡ (is_client c d o && not (client == c && elem d l))
unfolding unsubscribe elem
unsubscribe_items_of [] client o c d real = ground arith
unsubscribe_items_of (x ∷ xs) client o c d real =
    let s = insert_values (x ∷ xs) [] in
    let trimmed = has-trim_or_remove c d (client ∷ []) s o.client_to_data_items in
    let set = elem_set d (x ∷ xs) in
    let one = elem_one c client in
    rw real (
      trimmed
      ∙ ap (λ b. is_client c d o && not (b && elem d s)) one
      ∙ ap (λ b. is_client c d o && not (client == c && b)) set)

pub empty_set : (x : ℕ) (s : List ℕ) → is_empty s ≡ true → elem x s ≡ false
unfolding elem
empty_set x [] e = refl
empty_set x (y ∷ s) e = absurd (ground arith)

unsubscribe_all_items_of :
    (client : ℕ) (o : Observer) (c d : ℕ)
    → (client == 0) ≡ false
    → is_client c d (unsubscribe_all client o).0 ≡ (is_client c d o && not (client == c))
unfolding unsubscribe_all
unsubscribe_all_items_of client o c d real =
    let s = get_val_set client o.client_to_data_items in
    elim (Bool-cases (is_empty s)) [
      | inl empty ↦
          let nothing = empty_set d s empty in
          let own = own_items client c d o.client_to_data_items in rw (real, empty) (ground arith)
      | inr some_in ↦ rw (real, some_in) (has-erase c d client o.client_to_data_items).0
    ]

-- A client other than NULL that subscribes to a list of items has them besides those it had, one that
-- unsubscribes from a list has those it had without them, one that unsubscribes from all has none, and
-- no other client's items change.
pub requests_items :
    (l : List ℕ) (client : ℕ) (request : Bool) (o : Observer) (c d : ℕ)
    → (client == 0) ≡ false
    → (is_client c d (subscribe l client request o).0
        ≡ (is_client c d o || client == c && elem d l))
      × (is_client c d (unsubscribe l client o).0
          ≡ (is_client c d o && not (client == c && elem d l)))
      × (is_client c d (unsubscribe_all client o).0 ≡ (is_client c d o && not (client == c)))
requests_items l client request o c d real = (
  subscribe_items_of l client request o c d real,
  unsubscribe_items_of l client o c d real,
  unsubscribe_all_items_of client o c d real,
)
