-- ===== src/Client/Mutual.antt =====
-- The two maps of `BiDict` (gps/location/LocationAPIClientBase.h) under the commands on fences.
use android_device_xiaomi_ms.Base.{
  ℕ, ◌<◌, ◌≡◌, ◌∙◌, sym, ap, true, ◌&&◌, Option, none, some, List, [], ◌∷◌, arith, ltb, ◌==◌,
  nat_key, find, insert, find-insert_eq, find-insert_ne, find-erase_eq, find-erase_ne, key_cases,
  Bool-cases, Option-cases, inl, inr, if◌then◌else◌, is_empty, if_both, if_cases,
}
use android_device_xiaomi_ms.Core.{LocationError}
use android_device_xiaomi_ms.Geofence.Types.{GeofenceOption}
use android_device_xiaomi_ms.Client.BiDict.{
  BiDict, or_zero, empty_dict, set_entry, rm_by_session, get_session, get_ext_by_session,
}
use android_device_xiaomi_ms.Client.Fences.{
  FenceDict, FenceClient, FenceRequest, FenceOutput, Answered, add_loop, remove_loop, lookup_loop,
  with_new_mask, if_open, if_some, reset_queue, loc_api_add_geofences, loc_api_remove_geofences,
  loc_api_modify_geofences, loc_api_pause_geofences, loc_api_resume_geofences,
}

-- An id has a session exactly where the session has the id, and no session is 0.
pub record IsMutual {ℓ} {T : Type ℓ} (d : BiDict T) : Type 0 where
  pub there : (id s : ℕ) → find id d.forward_map ≡ some s → find s d.backward_map ≡ some id
  pub back : (s id : ℕ) → find s d.backward_map ≡ some id → find id d.forward_map ≡ some s
  pub positive : (s id : ℕ) → find s d.backward_map ≡ some id → 0 < s

module _ {ℓ} {T : Type ℓ} (id s : ℕ) (mask : T) (d : BiDict T) (h : IsMutual d) where
  pub set_entry-IsMutual :
      find id d.forward_map ≡ none
      → find s d.backward_map ≡ none
      → 0 < s
      → IsMutual (set_entry id s mask d)
  unfolding set_entry
  set_entry-IsMutual new_id new_session pos = record {
    there = λ j t found. elim (key_cases id j) [
      | inl same ↦
          let session : s ≡ t = let one = find-insert_eq j id d.forward_map s same in cc in
          find-insert_eq t s d.backward_map id session ∙ ap some same
      | inr other ↦
          let before = sym (find-insert_ne j id d.forward_map s other) ∙ found in
          let at = h.there j t before in
          find-insert_ne t s d.backward_map id (λ e.
            let known : find s d.backward_map ≡ some j = ap (λ x. find x d.backward_map) e ∙ at in
            cc)
          ∙ at
    ];
    back = λ t j found. elim (key_cases s t) [
      | inl same ↦
          let the_id : id ≡ j = let one = find-insert_eq t s d.backward_map id same in cc in
          find-insert_eq j id d.forward_map s the_id ∙ ap some same
      | inr other ↦
          let before = sym (find-insert_ne t s d.backward_map id other) ∙ found in
          let at = h.back t j before in
          find-insert_ne j id d.forward_map s (λ e.
            let known : find id d.forward_map ≡ some t = ap (λ x. find x d.forward_map) e ∙ at in
            cc)
          ∙ at
    ];
    positive = λ t j found. elim (key_cases s t) [
      | inl same ↦ omega arith
      | inr other ↦ h.positive t j (sym (find-insert_ne t s d.backward_map id other) ∙ found)
    ];
  }

  -- A new mask for an entry that is there.
  pub set_again-IsMutual : find id d.forward_map ≡ some s → IsMutual (set_entry id s mask d)
  unfolding set_entry
  set_again-IsMutual known =
      let known_back = h.there id s known in
      let same_forward : (j : ℕ) → find j (insert id s d.forward_map) ≡ find j d.forward_map = λ j.
        elim (key_cases id j) [
          | inl same ↦
              find-insert_eq j id d.forward_map s same
              ∙ sym known
              ∙ ap (λ x. find x d.forward_map) same
          | inr other ↦ find-insert_ne j id d.forward_map s other
        ] in
      let same_backward : (t : ℕ) → find t (insert s id d.backward_map) ≡ find t d.backward_map =
        λ t. elim (key_cases s t) [
          | inl same ↦
              find-insert_eq t s d.backward_map id same
              ∙ sym known_back
              ∙ ap (λ x. find x d.backward_map) same
          | inr other ↦ find-insert_ne t s d.backward_map id other
        ] in
      record {
        there = λ j t found. same_backward t ∙ h.there j t (sym (same_forward j) ∙ found);
        back = λ t j found. same_forward j ∙ h.back t j (sym (same_backward t) ∙ found);
        positive = λ t j found. h.positive t j (sym (same_backward t) ∙ found);
      }

  pub rm_by_session-IsMutual : find id d.forward_map ≡ some s → IsMutual (rm_by_session s d)
  unfolding rm_by_session
  rm_by_session-IsMutual known =
      let known_back = h.there id s known in
      let its_id : or_zero (find s d.backward_map) ≡ id = ap or_zero known_back in
      rw its_id (record {
        there = λ j t found. elim (key_cases id j) [
          | inl same ↦ absurd (let gone = find-erase_eq j id d.forward_map same in ground arith)
          | inr other ↦
              let at = h.there j t (sym (find-erase_ne j id d.forward_map other) ∙ found) in
              find-erase_ne t s d.backward_map (λ e.
                let mine : find s d.backward_map ≡ some j =
                  ap (λ x. find x d.backward_map) e ∙ at in
                other (cc))
              ∙ at
        ];
        back = λ t j found. elim (key_cases s t) [
          | inl same ↦ absurd (let gone = find-erase_eq t s d.backward_map same in ground arith)
          | inr other ↦
              let at = h.back t j (sym (find-erase_ne t s d.backward_map other) ∙ found) in
              find-erase_ne j id d.forward_map (λ e.
                let mine : find id d.forward_map ≡ some t = ap (λ x. find x d.forward_map) e ∙ at in
                other (cc))
              ∙ at
        ];
        positive = λ t j found. elim (key_cases s t) [
          | inl same ↦ absurd (let gone = find-erase_eq t s d.backward_map same in ground arith)
          | inr other ↦ h.positive t j (sym (find-erase_ne t s d.backward_map other) ∙ found)
        ];
      })

-- A session above 0 that an id has is one of the map.
pub session_known {ℓ} :
    {T : Type ℓ} (id : ℕ) (d : BiDict T)
    → ltb 0 (get_session id d) ≡ true
    → find id d.forward_map ≡ some (get_session id d)
unfolding get_session
session_known id d pos = elim (Option-cases (find id d.forward_map)) [
  | inl unknown ↦
      absurd (let zero : or_zero (find id d.forward_map) ≡ 0 = ap or_zero unknown in ground arith)
  | inr (s, known) ↦ known ∙ ap some (sym (ap or_zero known))
]

remove_loop-IsMutual :
    (ids : List ℕ) (d removed : FenceDict) → IsMutual d → IsMutual (remove_loop ids d removed).0
unfolding remove_loop
remove_loop-IsMutual [] d removed h = h
remove_loop-IsMutual (id ∷ ids) d removed h =
    let session = get_session id d in
    let removed' = set_entry id session (get_ext_by_session 0 session d) removed in
    let skipped = remove_loop-IsMutual ids d removed h in
    elim (Bool-cases (ltb 0 session)) [
      | inl known ↦ rw known (
          remove_loop-IsMutual ids (rm_by_session session d) removed'
            (rm_by_session-IsMutual id session 0 d h (session_known id d known)))
      | inr unknown ↦ rw unknown skipped
    ]

-- The dictionary after one round of the lookup.
abbrev looked_up : ℕ → Option ℕ → FenceDict → FenceDict
looked_up id mask d =
    if ltb 0 (get_session id d) then with_new_mask id (get_session id d) mask d else d

looked_up-IsMutual :
    (id : ℕ) (mask : Option ℕ) (d : FenceDict) → IsMutual d → IsMutual (looked_up id mask d)
looked_up-IsMutual id none d h = if_both IsMutual (ltb 0 (get_session id d)) h h
looked_up-IsMutual id (some mask) d h =
    if_cases IsMutual (ltb 0 (get_session id d))
      (λ pos. set_again-IsMutual id (get_session id d) mask d h (session_known id d pos)) (λ _. h)

lookup_loop-fst :
    (id : ℕ) (mask : Option ℕ) (items : List (ℕ × Option ℕ)) (d : FenceDict)
    → (lookup_loop ((id, mask) ∷ items) d).0 ≡ (lookup_loop items (looked_up id mask d)).0
unfolding lookup_loop
lookup_loop-fst id mask items d = ground arith

lookup_loop-IsMutual :
    (items : List (ℕ × Option ℕ)) (d : FenceDict) → IsMutual d → IsMutual (lookup_loop items d).0
lookup_loop-IsMutual [] d h = unfold lookup_loop in h
lookup_loop-IsMutual ((id, mask) ∷ items) d h =
    let rest = lookup_loop-IsMutual items (looked_up id mask d) (looked_up-IsMutual id mask d h) in
    rw (lookup_loop-fst id mask items d) rest

-- Every id is unknown, and every session is new and not 0, when its turn comes.
abbrev pub AllNew : List (ℕ × ℕ) → List ℕ → FenceDict → Type 0
AllNew [] sessions d = Unit {0}
AllNew ((id, mask) ∷ ids) [] d = Unit {0}
AllNew ((id, mask) ∷ ids) (session ∷ sessions) d =
    (find id d.forward_map ≡ none)
    × (find session d.backward_map ≡ none)
    × (0 < session)
    × AllNew ids sessions (set_entry id session mask d)

add_loop-IsMutual :
    (ids : List (ℕ × ℕ)) (sessions : List ℕ) (d : FenceDict)
    → IsMutual d
    → AllNew ids sessions d
    → IsMutual (add_loop ids sessions d)
unfolding add_loop
add_loop-IsMutual [] sessions d h new = h
add_loop-IsMutual ((id, mask) ∷ ids) [] d h new = h
add_loop-IsMutual ((id, mask) ∷ ids) (session ∷ sessions) d h (new_id, new_session, pos, new) =
    add_loop-IsMutual ids sessions (set_entry id session mask d)
      (set_entry-IsMutual id session mask d h new_id new_session pos) new

if_open-IsMutual :
    (c : FenceClient) (a : Answered)
    → IsMutual c.fences
    → IsMutual a.0.fences
    → IsMutual (if_open c a).0.fences
if_open-IsMutual c a h k =
    if_both (λ (x : Answered). IsMutual x.0.fences) (c.has_api && c.queue_session == 4294967295) k h

if_some-IsMutual :
    (c : FenceClient) (d : FenceDict) (sessions : List ℕ) (request : FenceRequest)
    (output : FenceOutput)
    → IsMutual d
    → IsMutual (if_some c d sessions request output).0.fences
if_some-IsMutual c d sessions request output h =
    if_both (λ (x : Answered). IsMutual x.0.fences) (is_empty sessions) h h

-- If the ids and the sessions of a client's fences belong to one another, they do so after each command
-- that removes, modifies, pauses or resumes fences, known or not, and after fences are added under ids
-- that are unknown, for which the API gives sessions that are new and not 0, or no array.
pub commands-IsMutual :
    (c : FenceClient) (ids : List ℕ) (options : List (ℕ × GeofenceOption))
    (masks : List (ℕ × Option ℕ)) (new : List (ℕ × ℕ)) (sessions : List ℕ)
    → IsMutual c.fences
    → AllNew new sessions c.fences
    → IsMutual (loc_api_remove_geofences ids c).0.fences
      × IsMutual (loc_api_modify_geofences options c).0.fences
      × IsMutual (loc_api_pause_geofences ids c).0.fences
      × IsMutual (loc_api_resume_geofences masks c).0.fences
      × IsMutual (loc_api_add_geofences new (some sessions) c).0.fences
      × IsMutual (loc_api_add_geofences new none c).0.fences
unfolding loc_api_remove_geofences loc_api_modify_geofences loc_api_pause_geofences
    loc_api_resume_geofences loc_api_add_geofences
commands-IsMutual c ids options masks new sessions h fresh = (
  if_open-IsMutual c _ h (
      if_both (λ (x : Answered). IsMutual x.0.fences)
        (is_empty (remove_loop ids c.fences empty_dict).2)
        (remove_loop-IsMutual ids c.fences empty_dict h)
        (remove_loop-IsMutual ids c.fences empty_dict h)),
  if_open-IsMutual c _ h (if_some-IsMutual c _ _ _ _ (lookup_loop-IsMutual _ c.fences h)),
  if_open-IsMutual c _ h (if_some-IsMutual c _ _ _ _ (lookup_loop-IsMutual _ c.fences h)),
  if_open-IsMutual c _ h (if_some-IsMutual c _ _ _ _ (lookup_loop-IsMutual masks c.fences h)),
  if_both (λ (x : FenceClient × LocationError). IsMutual x.0.fences) c.has_api
      (add_loop-IsMutual new sessions (reset_queue c).fences
        (if_both (λ (x : FenceClient). IsMutual x.fences) (c.queue_session == 4294967295) h h)
        (if_both (λ (x : FenceClient). AllNew new sessions x.fences) (c.queue_session == 4294967295)
          fresh fresh))
      h,
  if_both (λ (x : FenceClient × LocationError). IsMutual x.0.fences) c.has_api
      (if_both (λ (x : FenceClient). IsMutual x.fences) (c.queue_session == 4294967295) h h) h,
)
