-- ===== src/Client/Answers.antt =====
-- What a client is told of the fences that it has removed: gps/location/LocationAPIClientBase.cpp.
use android_device_xiaomi_ms.Base.{
  ℕ, ◌≡◌, ◌≢◌, ◌∙◌, refl, sym, ap, ap, true, false, ◌&&◌, none, some, List, [], ◌∷◌, ◌++◌, map,
  arith, ltb, ◌==◌, nat_key, find, find-insert_eq, find-insert_ne, find-erase_eq, find-erase_ne,
  Bool-cases, Option-cases, inl, inr, is_empty, filter, All, any, not, key_cases,
}
use android_device_xiaomi_ms.Core.{LocationError}
use android_device_xiaomi_ms.Client.BiDict.{
  or_zero, is_some, empty_dict, has_id, set_entry, rm_by_session, get_id, get_session,
  get_ext_by_session,
}
use android_device_xiaomi_ms.Client.Fences.{
  FenceDict, FenceClient, remove_request, api_remove, told, remove_loop, Answered,
  loc_api_remove_geofences, on_collective_response, geofence_session_id,
}
use android_device_xiaomi_ms.Client.Mutual.{IsMutual, session_known, rm_by_session-IsMutual}

-- No id stands twice.
abbrev pub AreDistinct : List ℕ → Type 0
AreDistinct [] = Unit {0}
AreDistinct (id ∷ ids) = All (λ j. id ≢ j) ids × AreDistinct ids

-- The dictionaries after a round for an id with a session.
abbrev left_by : ℕ → FenceDict → FenceDict
left_by id d = rm_by_session (get_session id d) d

abbrev removed_by : ℕ → FenceDict → FenceDict → FenceDict
removed_by id d removed =
    set_entry id (get_session id d) (get_ext_by_session 0 (get_session id d) d) removed

loop_known :
    (id : ℕ) (ids : List ℕ) (d removed : FenceDict)
    → ltb 0 (get_session id d) ≡ true
    → let (left, gone, sessions) = remove_loop ids (left_by id d) (removed_by id d removed) in
      remove_loop (id ∷ ids) d removed ≡ (left, gone, get_session id d ∷ sessions)
unfolding remove_loop
loop_known id ids d removed pos = rw pos refl

pub loop_unknown :
    (id : ℕ) (ids : List ℕ) (d removed : FenceDict)
    → ltb 0 (get_session id d) ≡ false
    → remove_loop (id ∷ ids) d removed ≡ remove_loop ids d removed
unfolding remove_loop
loop_unknown id ids d removed zero = rw zero refl

module _ (id : ℕ) (d removed : FenceDict) (h : IsMutual d)
    (pos : ltb 0 (get_session id d) ≡ true) where
  left-IsMutual : IsMutual (left_by id d)
  left-IsMutual = rm_by_session-IsMutual id (get_session id d) 0 d h (session_known id d pos)

  -- The session is gone, and stands in the removed dictionary.
  session_left : find (get_session id d) (left_by id d).backward_map ≡ none
  unfolding rm_by_session
  session_left = find-erase_eq (get_session id d) (get_session id d) d.backward_map refl

  session_removed : find (get_session id d) (removed_by id d removed).backward_map ≡ some id
  unfolding set_entry
  session_removed =
      find-insert_eq (get_session id d) (get_session id d) removed.backward_map id refl

  -- What is not a session of the dictionary is none that goes.
  other_left :
      (s : ℕ)
      → find s d.backward_map ≡ none
      → (find s (left_by id d).backward_map ≡ none)
        × (find s (removed_by id d removed).backward_map ≡ find s removed.backward_map)
  unfolding rm_by_session set_entry
  other_left s gone =
      let other : get_session id d ≢ s = λ e.
        let at : find s d.backward_map ≡ some id =
          ap (λ x. find x d.backward_map) (sym e)
          ∙ h.there id (get_session id d) (session_known id d pos) in
        cc in
      (
        find-erase_ne s (get_session id d) d.backward_map other ∙ gone,
        find-insert_ne s (get_session id d) removed.backward_map id other,
      )

  own_id_left : has_id id (left_by id d) ≡ false
  unfolding has_id rm_by_session
  own_id_left =
      let its_id : or_zero (find (get_session id d) d.backward_map) ≡ id =
        ap or_zero (h.there id (get_session id d) (session_known id d pos)) in
      ap is_some (find-erase_eq id _ d.forward_map its_id)

  -- Which other ids are known is as before.
  has_id_left : (j : ℕ) → id ≢ j → has_id j (left_by id d) ≡ has_id j d
  unfolding has_id rm_by_session
  has_id_left j other =
      let its_id : or_zero (find (get_session id d) d.backward_map) ≡ id =
        ap or_zero (h.there id (get_session id d) (session_known id d pos)) in
      ap is_some (find-erase_ne j _ d.forward_map (λ e. other (sym its_id ∙ e)))

  get_session_left : (j : ℕ) → id ≢ j → get_session j (left_by id d) ≡ get_session j d
  unfolding get_session rm_by_session
  get_session_left j other =
      let its_id : or_zero (find (get_session id d) d.backward_map) ≡ id =
        ap or_zero (h.there id (get_session id d) (session_known id d pos)) in
      ap or_zero (find-erase_ne j _ d.forward_map (λ e. other (sym its_id ∙ e)))

-- The loop leaves the entries of other sessions of the removed dictionary alone.
loop_keeps :
    (ids : List ℕ) (d removed : FenceDict) (s : ℕ)
    → IsMutual d
    → find s d.backward_map ≡ none
    → find s (remove_loop ids d removed).1.backward_map ≡ find s removed.backward_map
loop_keeps [] d removed s h gone = unfold remove_loop in refl
loop_keeps (id ∷ ids) d removed s h gone =
    let skipped = loop_keeps ids d removed s h gone in
    elim (Bool-cases (ltb 0 (get_session id d))) [
      | inl pos ↦
          let (gone', set) = other_left id d removed h pos s gone in
          let rest =
            loop_keeps ids (left_by id d) (removed_by id d removed) s
              (left-IsMutual id d removed h pos) gone' in
          ap (λ (x : FenceDict × FenceDict × List ℕ). find s x.1.backward_map)
            (loop_known id ids d removed pos)
          ∙ rest
          ∙ set
      | inr zero ↦
          ap (λ (x : FenceDict × FenceDict × List ℕ). find s x.1.backward_map)
            (loop_unknown id ids d removed zero)
          ∙ skipped
    ]

-- The sessions of the ids that are known.
abbrev pub known_sessions : List ℕ → FenceDict → List ℕ
known_sessions ids d = map (λ id. get_session id d) (filter (λ id. has_id id d) ids)

sessions_left :
    (ids : List ℕ) (id : ℕ) (d removed : FenceDict) (h : IsMutual d)
    → ltb 0 (get_session id d) ≡ true
    → All (λ j. id ≢ j) ids
    → known_sessions ids (left_by id d) ≡ known_sessions ids d
sessions_left [] id d removed h pos differs = refl
sessions_left (j ∷ ids) id d removed h pos differs =
    let rest = sessions_left ids id d removed h pos differs.1 in
    let same = has_id_left id d removed h pos j differs.0 in
    let session = get_session_left id d removed h pos j differs.0 in
    elim (Bool-cases (has_id j d)) [
      | inl known ↦
          let still : has_id j (left_by id d) ≡ true = same ∙ known in
          rw (still, known) (λ i. session i ∷ rest i)
      | inr unknown ↦
          let still : has_id j (left_by id d) ≡ false = same ∙ unknown in rw (still, unknown) rest
    ]

known_left :
    (ids : List ℕ) (id : ℕ) (d removed : FenceDict) (h : IsMutual d)
    → ltb 0 (get_session id d) ≡ true
    → All (λ j. id ≢ j) ids
    → filter (λ j. has_id j (left_by id d)) ids ≡ filter (λ j. has_id j d) ids
known_left [] id d removed h pos differs = refl
known_left (j ∷ ids) id d removed h pos differs =
    let rest = known_left ids id d removed h pos differs.1 in
    let same = has_id_left id d removed h pos j differs.0 in rw (same, rest) refl

has_id_iff : (id : ℕ) (d : FenceDict) → IsMutual d → has_id id d ≡ ltb 0 (get_session id d)
unfolding has_id get_session
has_id_iff id d h = elim (Option-cases (find id d.forward_map)) [
  | inl unknown ↦ rw unknown refl
  | inr (s, known) ↦
      let pos = h.positive s id (h.there id s known) in
      rw known (sym (let up : ltb 0 s ≡ true = ground arith in up))
]

-- The sessions of a removal, looked up in the removed dictionary, are the ids that were known.
loop_answers :
    (ids : List ℕ) (d removed : FenceDict)
    → IsMutual d
    → AreDistinct ids
    → map (λ s. get_id s (remove_loop ids d removed).1) (remove_loop ids d removed).2
      ≡ filter (λ id. has_id id d) ids
loop_answers [] d removed h distinct = unfold remove_loop in refl
loop_answers (id ∷ ids) d removed h (differs, distinct) =
    let skipped = loop_answers ids d removed h distinct in
    elim (Bool-cases (ltb 0 (get_session id d))) [
      | inl pos ↦
          let known : has_id id d ≡ true = has_id_iff id d h ∙ pos in
          let d' = left_by id d in
          let removed' = removed_by id d removed in
          let safe = left-IsMutual id d removed h pos in
          let first : get_id (get_session id d) (remove_loop ids d' removed').1 ≡ id =
            unfold get_id in
            ap or_zero (
              loop_keeps ids d' removed' (get_session id d) safe (session_left id d removed h pos)
              ∙ session_removed id d removed h pos) in
          let rest =
            loop_answers ids d' removed' safe distinct
            ∙ known_left ids id d removed h pos differs in
          rw (loop_known id ids d removed pos) (rw known (λ i. first i ∷ rest i))
      | inr zero ↦
          let unknown : has_id id d ≡ false = has_id_iff id d h ∙ zero in
          rw (loop_unknown id ids d removed zero) (rw unknown skipped)
    ]

-- The sessions of a removal are those of the ids that were known.
loop_sessions :
    (ids : List ℕ) (d removed : FenceDict)
    → IsMutual d
    → AreDistinct ids
    → (remove_loop ids d removed).2 ≡ known_sessions ids d
loop_sessions [] d removed h distinct = unfold remove_loop in refl
loop_sessions (id ∷ ids) d removed h (differs, distinct) =
    let skipped = loop_sessions ids d removed h distinct in
    elim (Bool-cases (ltb 0 (get_session id d))) [
      | inl pos ↦
          let known : has_id id d ≡ true = has_id_iff id d h ∙ pos in
          let rest =
            loop_sessions ids (left_by id d) (removed_by id d removed)
              (left-IsMutual id d removed h pos) distinct
            ∙ sessions_left ids id d removed h pos differs in
          rw (loop_known id ids d removed pos) (rw known (ap (◌∷◌ (get_session id d)) rest))
      | inr zero ↦
          let unknown : has_id id d ≡ false = has_id_iff id d h ∙ zero in
          rw (loop_unknown id ids d removed zero) (rw unknown skipped)
    ]

-- Known after a round for `id` is what was known before, but `id` itself.
has_id_after :
    (id j : ℕ) (d removed : FenceDict) (h : IsMutual d)
    → ltb 0 (get_session id d) ≡ true
    → has_id j (left_by id d) ≡ (has_id j d && not (id == j))
has_id_after id j d removed h pos = elim (key_cases id j) [
  | inl same ↦
      let hit : (id == j) ≡ true = ground arith in
      let gone : has_id j (left_by id d) ≡ false =
        ap (λ x. has_id x (left_by id d)) (sym same) ∙ own_id_left id d removed h pos in
      ground arith
  | inr other ↦
      let miss : (id == j) ≡ false = ground arith in
      let kept = has_id_left id d removed h pos j other in ground arith
]

-- Known after a removal is what was known before, but the ids of the command.
loop_has_id :
    (ids : List ℕ) (j : ℕ) (d removed : FenceDict)
    → IsMutual d
    → has_id j (remove_loop ids d removed).0 ≡ (has_id j d && not (any (λ id. id == j) ids))
loop_has_id [] j d removed h = unfold remove_loop in ground arith
loop_has_id (id ∷ ids) j d removed h =
    let skipped = loop_has_id ids j d removed h in
    elim (Bool-cases (ltb 0 (get_session id d))) [
      | inl pos ↦
          let round = has_id_after id j d removed h pos in
          let rest =
            loop_has_id ids j (left_by id d) (removed_by id d removed)
              (left-IsMutual id d removed h pos) in
          rw (loop_known id ids d removed pos) (ground arith)
      | inr zero ↦
          let unknown : has_id id d ≡ false = has_id_iff id d h ∙ zero in
          let same : (id == j) ≡ true → has_id j d ≡ false =
            λ hit. ap (λ x. has_id x d) (sym ((nat_key.eq_iff id j).0 hit)) ∙ unknown in
          rw (loop_unknown id ids d removed zero) (elim (Bool-cases (id == j)) [
            | inl hit ↦ let gone = same hit in ground arith
            | inr miss ↦ ground arith
          ])
    ]

is_empty-map : (f : ℕ → ℕ) (xs : List ℕ) → is_empty (map f xs) ≡ is_empty xs
is_empty-map f [] = refl
is_empty-map f (x ∷ xs) = refl

-- A command that is not refused and finds a session.
removed_command :
    (ids : List ℕ) (c : FenceClient)
    → (c.has_api && c.queue_session == geofence_session_id) ≡ true
    → is_empty (remove_loop ids c.fences empty_dict).2 ≡ false
    → let (left, removed, sessions) = remove_loop ids c.fences empty_dict in
      loc_api_remove_geofences ids c ≡ (
        record c { fences = left; queue = c.queue ++ remove_request removed ∷ [] },
        api_remove sessions ∷ [],
      )
unfolding loc_api_remove_geofences
removed_command ids c is_open some_session = rw is_open (rw some_session refl)

-- The response to the only request.
only_response :
    (errors : List LocationError) (sessions : List ℕ) (removed : FenceDict) (c : FenceClient)
    → (c.queue_session == geofence_session_id) ≡ true
    → c.queue ≡ remove_request removed ∷ []
    → (on_collective_response errors sessions c).1
      ≡ told (remove_request removed) errors (map (λ s. get_id s removed) sessions) ∷ []
unfolding on_collective_response
only_response errors sessions removed c is_open queue =
    rw is_open (rw (queue, on_collective_response) refl)

-- If the ids and the sessions of a client's fences belong to one another, there is an API with the session of
-- fences, and no request waits for a response, then a command to remove fences under distinct ids, some of
-- which are known, asks the API to remove just the sessions of these, and the ids known after it are those known before but
-- the ids of the command; the response to just these sessions is told to the client with its errors
-- and the ids of the command that were known before, in their order.
pub removal_told :
    (ids : List ℕ) (errors : List LocationError) (c : FenceClient)
    → IsMutual c.fences
    → AreDistinct ids
    → c.has_api ≡ true
    → c.queue_session ≡ geofence_session_id
    → c.queue ≡ []
    → is_empty (filter (λ id. has_id id c.fences) ids) ≡ false
    → let sessions = known_sessions ids c.fences in
      (removed : FenceDict) × ((loc_api_remove_geofences ids c).1 ≡ api_remove sessions ∷ [])
      × ((j : ℕ)
          → has_id j (loc_api_remove_geofences ids c).0.fences
            ≡ (has_id j c.fences && not (any (λ id. id == j) ids)))
      × ((on_collective_response errors sessions (loc_api_remove_geofences ids c).0).1
          ≡ told (remove_request removed) errors (filter (λ id. has_id id c.fences) ids) ∷ [])
removal_told ids errors c h distinct api open_queue waits some_known =
    let removed = (remove_loop ids c.fences empty_dict).1 in
    let sessions = (remove_loop ids c.fences empty_dict).2 in
    let answers = loop_answers ids c.fences empty_dict h distinct in
    let asked = loop_sessions ids c.fences empty_dict h distinct in
    let same_session : (c.queue_session == geofence_session_id) ≡ true = ground arith in
    let is_open : (c.has_api && c.queue_session == geofence_session_id) ≡ true = ground arith in
    let some_session : is_empty sessions ≡ false =
      sym (is_empty-map (λ s. get_id s removed) sessions) ∙ ap is_empty answers ∙ some_known in
    let done = removed_command ids c is_open some_session in
    let c' : FenceClient = record c {
      fences = (remove_loop ids c.fences empty_dict).0;
      queue = c.queue ++ remove_request removed ∷ [];
    } in
    (
      removed,
      ap (λ (x : Answered). x.1) done ∙ ap (λ ss. api_remove ss ∷ []) asked,
      λ j.
          ap (λ (x : Answered). has_id j x.0.fences) done ∙ loop_has_id ids j c.fences empty_dict h,
      ap (λ ss. (on_collective_response errors ss (loc_api_remove_geofences ids c).0).1) (sym asked)
          ∙ ap (λ (x : Answered). (on_collective_response errors sessions x.0).1) done
          ∙ only_response errors sessions removed c' same_session
              (ap (λ q. q ++ remove_request removed ∷ []) waits)
          ∙ ap (λ xs. told (remove_request removed) errors xs ∷ []) answers,
    )
