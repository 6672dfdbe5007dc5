-- ===== src/Geofence/Linked.antt =====
-- How the two maps of `GeofenceAdapter` describe one another (gps/geofence/GeofenceAdapter.cpp).
use android_device_xiaomi_ms.Base.{
  ℕ, ◌≡◌, ◌≢◌, refl, sym, ◌∙◌, ap, subst, Option, none, some, find, erase, nat_key, key_cases,
  find-insert_eq, find-insert_ne, find-erase_eq, find-erase_ne, Option-cases, inl, inr,
}
use android_device_xiaomi_ms.Geofence.Types.{
  GeofenceKey, GeofenceObject, GeofenceOption, GeofenceInfo, GeofenceAdapter, geofence_key,
}
use android_device_xiaomi_ms.Geofence.Items.{
  new_object, get_geofence_key_from_hw_id, save_geofence_item, remove_geofence_item, update_item,
}

-- Each id of a client leads to the fence with that key, and each fence is found under its key.
pub record IsLinked (a : GeofenceAdapter) : Type 0 where
  pub forward :
      (k : GeofenceKey) (hw : ℕ)
      → find k a.geofence_ids ≡ some hw
      → (o : GeofenceObject) × (find hw a.geofences ≡ some o) × (o.key ≡ k)
  pub backward :
      (hw : ℕ) (o : GeofenceObject)
      → find hw a.geofences ≡ some o
      → find o.key a.geofence_ids ≡ some hw

some_eq {ℓ} : {A : Type ℓ} {x : Option A} {a b : A} → x ≡ some a → x ≡ some b → a ≡ b
some_eq p q = cc

some-none {ℓ} : {A : Type ℓ} {x : Option A} {a : A} → x ≡ some a → x ≡ none → ⊥
some-none p q = cc

abbrev pub key_of : ℕ → ℕ → GeofenceKey
key_of client id = record { client = client; id = id }

pub save-IsLinked :
    (client id hw : ℕ) (options : GeofenceOption) (info : GeofenceInfo) (a : GeofenceAdapter)
    → find hw a.geofences ≡ none
    → find (key_of client id) a.geofence_ids ≡ none
    → IsLinked a
    → IsLinked (save_geofence_item client id hw options info a)
unfolding save_geofence_item
save-IsLinked client id hw options info a fresh unknown v = record {
  forward = λ k h e. elim (key_cases (key_of client id) k) [
    | inl same ↦
        let at : h ≡ hw = some_eq e (find-insert_eq k (key_of client id) a.geofence_ids hw same) in
        (_, find-insert_eq h hw a.geofences _ (sym at), same)
    | inr other ↦
        let before : find k a.geofence_ids ≡ some h =
          sym (find-insert_ne k (key_of client id) a.geofence_ids hw other) ∙ e in
        let (o, there, owner) = v.forward k h before in
        let apart : hw ≢ h =
          (λ same. some-none there (subst (λ x. find x a.geofences ≡ none) same fresh)) in
        (o, find-insert_ne h hw a.geofences _ apart ∙ there, owner)
  ];
  backward = λ h o e. elim (key_cases hw h) [
    | inl same ↦
        let made : o ≡ new_object (key_of client id) options info =
          some_eq e (find-insert_eq h hw a.geofences _ same) in
        find-insert_eq o.key (key_of client id) a.geofence_ids hw
          (sym (ap (λ (x : GeofenceObject). x.key) made))
        ∙ ap some same
    | inr other ↦
        let before : find h a.geofences ≡ some o =
          sym (find-insert_ne h hw a.geofences _ other) ∙ e in
        let there = v.backward h o before in
        let apart : key_of client id ≢ o.key =
          (λ same. some-none there (subst (λ x. find x a.geofence_ids ≡ none) same unknown)) in
        find-insert_ne o.key (key_of client id) a.geofence_ids hw apart ∙ there
  ];
}

-- `removeGeofenceItem` at a fence that is there.
pub remove_geofence_item_lem :
    (hw : ℕ) (a : GeofenceAdapter) (o : GeofenceObject)
    → find hw a.geofences ≡ some o
    → find o.key a.geofence_ids ≡ some hw
    → remove_geofence_item hw a
      ≡ record a { geofences = erase hw a.geofences; geofence_ids = erase o.key a.geofence_ids }
unfolding remove_geofence_item get_geofence_key_from_hw_id
remove_geofence_item_lem hw a o there linked =
    rw (there, remove_geofence_item) (rw (linked, remove_geofence_item) refl)

erased-IsLinked :
    (hw : ℕ) (a : GeofenceAdapter) (o : GeofenceObject)
    → find hw a.geofences ≡ some o
    → IsLinked a
    → IsLinked
        (record a { geofences = erase hw a.geofences; geofence_ids = erase o.key a.geofence_ids })
erased-IsLinked hw a o here v = record {
  forward = λ k h e. elim (key_cases o.key k) [
    | inl same ↦ absurd (some-none e (find-erase_eq k o.key a.geofence_ids same))
    | inr other ↦
        let before : find k a.geofence_ids ≡ some h =
          sym (find-erase_ne k o.key a.geofence_ids other) ∙ e in
        let (p, there, owner) = v.forward k h before in
        let apart : hw ≢ h = (λ same.
          let one : o ≡ p = some_eq here (rw same there) in
          other (ap (λ (x : GeofenceObject). x.key) one ∙ owner)) in
        (p, find-erase_ne h hw a.geofences apart ∙ there, owner)
  ];
  backward = λ h p e. elim (key_cases hw h) [
    | inl same ↦ absurd (some-none e (find-erase_eq h hw a.geofences same))
    | inr other ↦
        let before : find h a.geofences ≡ some p = sym (find-erase_ne h hw a.geofences other) ∙ e in
        let there = v.backward h p before in
        let apart : o.key ≢ p.key =
          (λ same. other (some_eq (v.backward hw o here) (rw same there))) in
        find-erase_ne p.key o.key a.geofence_ids apart ∙ there
  ];
}

pub remove-IsLinked :
    (hw : ℕ) (a : GeofenceAdapter) → IsLinked a → IsLinked (remove_geofence_item hw a)
unfolding remove_geofence_item get_geofence_key_from_hw_id
remove-IsLinked hw a v = elim (Option-cases (find hw a.geofences)) [
  | inl missing ↦ rw (missing, remove_geofence_item) v
  | inr (o, there) ↦
      subst IsLinked (sym (remove_geofence_item_lem hw a o there (v.backward hw o there)))
        (erased-IsLinked hw a o there v)
]

pub update-IsLinked :
    (f : GeofenceObject → GeofenceObject) (hw : ℕ) (a : GeofenceAdapter)
    → ((o : GeofenceObject) → (f o).key ≡ o.key)
    → IsLinked a
    → IsLinked (update_item f hw a)
unfolding update_item
update-IsLinked f hw a same_key v = elim (Option-cases (find hw a.geofences)) [
  | inl missing ↦ rw (missing, update_item) v
  | inr (o, here) ↦
      rw (here, update_item)
        (record {
          forward = λ k h e.
              let (p, there, owner) = v.forward k h e in
              elim (key_cases hw h) [
                | inl same ↦
                    let one : o ≡ p = some_eq here (rw same there) in
                    (
                      f o,
                      find-insert_eq h hw a.geofences (f o) same,
                      same_key o ∙ ap (λ (x : GeofenceObject). x.key) one ∙ owner,
                    )
                | inr other ↦ (p, find-insert_ne h hw a.geofences (f o) other ∙ there, owner)
              ];
          backward = λ h p e. elim (key_cases hw h) [
            | inl same ↦
                let made : p ≡ f o = some_eq e (find-insert_eq h hw a.geofences (f o) same) in
                let key_same : p.key ≡ o.key =
                  ap (λ (x : GeofenceObject). x.key) made ∙ same_key o in
                rw key_same (v.backward hw o here ∙ ap some same)
            | inr other ↦ v.backward h p (sym (find-insert_ne h hw a.geofences (f o) other) ∙ e)
          ];
        })
]
