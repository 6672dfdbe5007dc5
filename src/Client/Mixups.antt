-- ===== src/Client/Mixups.antt =====
-- Where the commands on fences of gps/location/LocationAPIClientBase.cpp take one thing for another.
use android_device_xiaomi_ms.Base.{
  ℕ, ◌<◌, ◌≡◌, ◌∙◌, refl, ap, true, false, ◌&&◌, Option, none, some, List, [], ◌∷◌, map, arith, ltb,
  ◌==◌, nat_key, find, Bool-cases, inl, inr, is_empty, All, if_both,
}
use android_device_xiaomi_ms.Geofence.Types.{GeofenceOption}
use android_device_xiaomi_ms.Client.BiDict.{or_zero, empty_dict, get_session, get_all_sessions}
use android_device_xiaomi_ms.Client.Fences.{
  FenceDict, FenceClient, Answered, with_new_mask, api_modify, remove_loop, lookup_loop,
  side_by_side, loc_api_remove_geofences, loc_api_remove_all_geofences, loc_api_modify_geofences,
  geofence_session_id,
}
use android_device_xiaomi_ms.Client.Answers.{loop_unknown}

-- What holds of all that is found holds of the keys.
keys-All :
    (P : ℕ → Type 0) (m : List (ℕ × ℕ))
    → ((k v : ℕ) → find k m ≡ some v → P k)
    → All P (map (λ e. e.0) m)
keys-All P [] h = tt
keys-All P ((j, w) ∷ m) h = (
  h j w (unfold find in ground arith),
  keys-All P m (λ k v found. elim (Bool-cases (j == k)) [
    | inl same ↦ h k w (unfold find in rw same refl)
    | inr other ↦ h k v (unfold find in rw other found)
  ]),
)

-- Ids that have no session are skipped.
loop_skips :
    (ids : List ℕ) (d removed : FenceDict)
    → All (λ id. find id d.forward_map ≡ none) ids
    → remove_loop ids d removed ≡ (d, removed, [])
loop_skips [] d removed h = unfold remove_loop in refl
loop_skips (id ∷ ids) d removed h =
    let zero : ltb 0 (get_session id d) ≡ false =
      let none_there : or_zero (find id d.forward_map) ≡ 0 = ap or_zero h.0 in
      unfold get_session in ground arith in
    loop_unknown id ids d removed zero ∙ loop_skips ids d removed h.1

-- If no session of a client's fences is also the id of one of its fences, then the command to remove
-- all fences removes none and asks the API for nothing: it takes the sessions for ids.
pub remove_all_nothing :
    (c : FenceClient)
    → ((s id : ℕ) → find s c.fences.backward_map ≡ some id → find s c.fences.forward_map ≡ none)
    → loc_api_remove_all_geofences c ≡ (c, [])
unfolding loc_api_remove_all_geofences loc_api_remove_geofences get_all_sessions
remove_all_nothing c apart =
    let skips =
      loop_skips (get_all_sessions c.fences) c.fences empty_dict
        (keys-All (λ s. find s c.fences.forward_map ≡ none) c.fences.backward_map apart) in
    rw skips (
      if_both (λ (x : Answered). x ≡ (c, [])) (is_empty (get_all_sessions c.fences)) refl
        (if_both (λ (x : Answered). x ≡ (c, []))
          (c.has_api && c.queue_session == geofence_session_id) refl refl))

-- The sessions of two ids of which only the second one has one.
lookup_second :
    (id1 id2 session : ℕ) (m1 m2 : Option ℕ) (items : List (ℕ × Option ℕ)) (d : FenceDict)
    → get_session id1 d ≡ 0
    → get_session id2 d ≡ session
    → ltb 0 session ≡ true
    → (lookup_loop ((id1, m1) ∷ (id2, m2) ∷ items) d).1
      ≡ session ∷ (lookup_loop items (with_new_mask id2 session m2 d)).1
unfolding lookup_loop
lookup_second id1 id2 session m1 m2 items d zero there pos = rw zero (rw there (rw pos refl))

-- A modification that is not refused and finds a session.
modified :
    (items : List (ℕ × GeofenceOption)) (c : FenceClient) (session : ℕ) (sessions : List ℕ)
    → (c.has_api && c.queue_session == geofence_session_id) ≡ true
    → (lookup_loop (map (λ i. (i.0, some i.1.breach_type_mask)) items) c.fences).1
      ≡ session ∷ sessions
    → (loc_api_modify_geofences items c).1
      ≡ api_modify (side_by_side (session ∷ sessions) (map (λ i. i.1) items)) ∷ []
unfolding loc_api_modify_geofences
modified items c session sessions is_open found = rw is_open (rw found refl)

-- If the first id of a modification is unknown and the second one has a session, then the API is asked
-- to modify the session of the second fence by the options that were meant for the first one.
pub modify_wrong_options :
    (id1 id2 session : ℕ) (o1 o2 : GeofenceOption) (rest : List (ℕ × GeofenceOption))
    (c : FenceClient)
    → find id1 c.fences.forward_map ≡ none
    → find id2 c.fences.forward_map ≡ some session
    → 0 < session
    → c.has_api ≡ true
    → c.queue_session ≡ geofence_session_id
    → (more : List (ℕ × GeofenceOption)) × ((loc_api_modify_geofences
          ((id1, o1) ∷ (id2, o2) ∷ rest)
          c).1
        ≡ api_modify ((session, o1) ∷ more) ∷ [])
modify_wrong_options id1 id2 session o1 o2 rest c unknown known pos api open_queue =
    let is_open : (c.has_api && c.queue_session == geofence_session_id) ≡ true = ground arith in
    let up : ltb 0 session ≡ true = ground arith in
    let sessions =
      (lookup_loop (map (λ (i : ℕ × GeofenceOption). (i.0, some i.1.breach_type_mask)) rest)
        (with_new_mask id2 session (some o2.breach_type_mask) c.fences)).1 in
    let found =
      lookup_second id1 id2 session (some o1.breach_type_mask) (some o2.breach_type_mask)
        (map (λ i. (i.0, some i.1.breach_type_mask)) rest) c.fences
        (unfold get_session in ap or_zero unknown) (unfold get_session in ap or_zero known) up in
    (
      side_by_side sessions (o2 ∷ map (λ i. i.1) rest),
      modified ((id1, o1) ∷ (id2, o2) ∷ rest) c session sessions is_open found
          ∙ (unfold side_by_side in refl),
    )
