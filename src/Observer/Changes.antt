-- ===== src/Observer/Changes.antt =====
-- What `updateSubscription` of `SystemStatusOsObserver` does to the two maps.
use android_device_xiaomi_ms.Base.{
  ℕ, ◌≡◌, refl, ◌∙◌, ap, true, false, ◌||◌, none, some, List, [], ◌∷◌, ◌==◌, ==_iff, insert,
  nat_key, is_empty, arith, Option-cases, Bool-cases, inl, inr, if_both,
}
use android_device_xiaomi_ms.Observer.SetMap.{
  elem, insert_values, insert_value, get_val_set, add_all, update, remove_and_return_interset,
}
use android_device_xiaomi_ms.Observer.Subscriptions.{
  Observer, Call, unsubscribe_all, update_subscription,
}
use android_device_xiaomi_ms.Observer.Entries.{has, has-insert}
use android_device_xiaomi_ms.Observer.Keys.{has-add_all, has-trim_or_remove}
use android_device_xiaomi_ms.Observer.Mirror.{IsMirrored, is_client, elem_set, empty_set}

interset_common :
    (d : ℕ) (s1 s2 : List ℕ)
    → elem d s1 ≡ true
    → elem d s2 ≡ true
    → remove_and_return_interset s1 s2 ≡ none
unfolding remove_and_return_interset elem
interset_common d s1 [] e f = absurd (ground arith)
interset_common d s1 (b ∷ s2) e f = elim (Bool-cases (elem b s1)) [
  | inl hit ↦ rw hit refl
  | inr miss ↦ elim (Bool-cases (b == d)) [
    | inl same ↦
        let there : elem b s1 ≡ true = ap (λ x. elem x s1) ((==_iff b d).0 same) ∙ e in ground arith
    | inr other ↦
        let later : elem d s2 ≡ true = ground arith in rw miss (interset_common d s1 s2 e later)
  ]
]

interset_empty :
    (s1 s2 : List ℕ) {gone : List ℕ} → remove_and_return_interset s1 s2 ≡ some gone → gone ≡ []
unfolding remove_and_return_interset
interset_empty s1 [] e = cc
interset_empty s1 (b ∷ s2) {gone} e = elim (Bool-cases (elem b s1)) [
  | inl hit ↦ absurd (ground arith)
  | inr miss ↦
      let later : remove_and_return_interset s1 s2 ≡ some gone = ground arith in
      interset_empty s1 s2 later
]

-- The observer that a meaningful update leaves.
abbrev updated : List ℕ → ℕ → Observer → Observer
updated l client o = record o {
  client_to_data_items = insert client (insert_values l []) o.client_to_data_items;
  data_item_to_clients = (add_all (insert_values l []) (client ∷ []) o.data_item_to_clients).0;
}

set_not_empty : (x : ℕ) (xs : List ℕ) → is_empty (insert_values (x ∷ xs) []) ≡ false
unfolding insert_values insert_value elem
set_not_empty x xs =
    let rest = insert_values xs [] in
    elim (Bool-cases (elem x rest)) [
      | inr new ↦ rw new refl
      | inl old ↦ elim (Bool-cases (is_empty rest)) [
        | inl empty ↦ let nothing = empty_set x rest empty in absurd (ground arith)
        | inr some_in ↦ rw old some_in
      ]
    ]

update_subscription_lem :
    (x : ℕ) (xs : List ℕ) (client : ℕ) (o p : Observer) (calls : List Call)
    → (client == 0) ≡ false
    → update_subscription (x ∷ xs) client o ≡ some (p, calls)
    → p ≡ updated (x ∷ xs) client o
unfolding update_subscription update
update_subscription_lem x xs client o p calls real e =
    let s = insert_values (x ∷ xs) [] in
    let some_in = set_not_empty x xs in
    elim (Option-cases (remove_and_return_interset (get_val_set client o.client_to_data_items) s)) [
      | inl meaningless ↦ absurd (ground arith)
      | inr (gone, ok) ↦ let none_gone = ok ∙ ap some (interset_empty _ s ok) in ground arith
    ]

-- An update for a client with an item that it goes on asking for does something that has no meaning.
pub update_subscription_common :
    (x : ℕ) (xs : List ℕ) (client : ℕ) (o : Observer) (d : ℕ)
    → (client == 0) ≡ false
    → is_client client d o ≡ true
    → elem d (x ∷ xs) ≡ true
    → update_subscription (x ∷ xs) client o ≡ none
unfolding update_subscription update has
update_subscription_common x xs client o d real mine asked =
    let s = insert_values (x ∷ xs) [] in
    let some_in = set_not_empty x xs in
    let in_set : elem d s ≡ true = elem_set d (x ∷ xs) ∙ asked in
    let stop = interset_common d (get_val_set client o.client_to_data_items) s mine in_set in
    ground arith

-- If the maps mirror one another and an update leaves an observer, then an item that the client had and
-- does not ask for any more is not among the client's items, but the item still has the client, even after
-- the client has unsubscribed from all.
pub update_subscription_stale :
    (x : ℕ) (xs : List ℕ) (client : ℕ) (o p : Observer) (calls : List Call) (d : ℕ)
    → (client == 0) ≡ false
    → IsMirrored o
    → is_client client d o ≡ true
    → elem d (x ∷ xs) ≡ false
    → update_subscription (x ∷ xs) client o ≡ some (p, calls)
    → (is_client client d p ≡ false)
      × (has d client p.data_item_to_clients ≡ true)
      × (has d client (unsubscribe_all client p).0.data_item_to_clients ≡ true)
unfolding unsubscribe_all
update_subscription_stale x xs client o p calls d real v mine dropped e =
    let s = insert_values (x ∷ xs) [] in
    let left = update_subscription_lem x xs client o p calls real e in
    let absent : elem d s ≡ false = elem_set d (x ∷ xs) ∙ dropped in
    let q = updated (x ∷ xs) client o in
    let (now, _) = has-insert client d client s o.client_to_data_items in
    let self : (client == client) ≡ true = ground arith in
    let gone : is_client client d q ≡ false = ground arith in
    let added = has-add_all d client s (client ∷ []) o.data_item_to_clients in
    let stays : has d client q.data_item_to_clients ≡ true = ground (arith, v client d) in
    let own : elem d (get_val_set client q.client_to_data_items) ≡ false = unfold has in gone in
    let kept =
      has-trim_or_remove d client (get_val_set client q.client_to_data_items) (client ∷ [])
        q.data_item_to_clients in
    rw left (
      gone,
      stays,
      if_both (λ (r : Observer × List Call). has d client r.0.data_item_to_clients ≡ true)
          (client == 0 || is_empty (get_val_set client q.client_to_data_items)) stays
          (ground arith),
    )
