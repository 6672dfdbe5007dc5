-- ===== src/Client/Forgotten.antt =====
-- The options of a batching session that gps/location/LocationAPIClientBase.cpp does not pass on.
use android_device_xiaomi_ms.Base.{
  ℕ, ◌≡◌, ◌∙◌, refl, sym, ap, true, false, some, [], ◌∷◌, ◌==◌, nat_key, find, if_cases,
}
use android_device_xiaomi_ms.Core.{LocationError}
use android_device_xiaomi_ms.Gnss.Types.{TrackingOptions}
use android_device_xiaomi_ms.Client.BiDict.{is_some, has_id}
use android_device_xiaomi_ms.Client.Sessions.{
  on_fix, SessionClient, SessionStep, entity_of, re_entered, updated_entity, updated_queue,
  update_outputs, api_update_batching, bare_batching_options, loc_api_update_session_options,
}
use android_device_xiaomi_ms.Client.Sound.{IsSound, entity_of_lem}

-- The client after an update, which the options have no part in.
abbrev after_update : (id mode s : ℕ) → SessionClient → SessionClient
after_update id mode s c = record c {
  sessions = re_entered id (updated_entity mode s (entity_of id c)) c.sessions;
  session_queue = updated_queue mode s (entity_of id c) c.session_queue;
}

update_known :
    (id mode s : ℕ) (options : TrackingOptions) (c : SessionClient)
    → c.has_api ≡ true
    → has_id id c.sessions ≡ true
    → loc_api_update_session_options id mode options s c ≡ (
      after_update id mode s c,
      update_outputs mode options (entity_of id c),
      LocationError.success,
    )
unfolding loc_api_update_session_options
update_known id mode s options c api has =
    let Is : SessionStep → Type 0 = λ x. x ≡ (
      after_update id mode s c,
      update_outputs mode options (entity_of id c),
      LocationError.success,
    ) in
    if_cases Is c.has_api (λ _. if_cases Is (has_id id c.sessions) (λ _. refl) (λ no. absurd (cc)))
      (λ no. absurd (cc))

-- If the dictionary of a client's sessions is sound and the id has a session of batching, then an update to
-- a mode of batching asks the API to update that session to options whose distance, interval
-- and mode are 0, and does the same whatever options the client gives.
pub batching_update_forgets :
    (id mode s unused : ℕ) (options others : TrackingOptions) (c : SessionClient)
    → IsSound c.sessions
    → c.has_api ≡ true
    → find id c.sessions.forward_map ≡ some s
    → ((entity_of id c).session_mode == on_fix) ≡ false
    → (mode == on_fix) ≡ false
    → ((loc_api_update_session_options id mode options unused c).1
        ≡ api_update_batching s (bare_batching_options mode) ∷ [])
      × (loc_api_update_session_options id mode options unused c
          ≡ loc_api_update_session_options id mode others unused c)
batching_update_forgets id mode s unused options others c h api known batching to_batching =
    let (_, own) = entity_of_lem id s c h known in
    let has : has_id id c.sessions ≡ true = unfold has_id in ap is_some known in
    let same : (entity_of id c).batching_session ≡ s = rw (sym own, batching) refl in
    let outputs : (o : TrackingOptions)
        → update_outputs mode o (entity_of id c)
          ≡ api_update_batching s (bare_batching_options mode) ∷ [] =
      λ o.
        rw (to_batching, batching)
          (ap (λ t. api_update_batching t (bare_batching_options mode) ∷ []) same) in
    let update = λ (o : TrackingOptions). update_known id mode unused o c api has in
    (
      ap (λ (x : SessionStep). x.1) (update options) ∙ outputs options,
      update options
          ∙ ap (λ os. (after_update id mode unused c, os, LocationError.success))
              (outputs options ∙ sym (outputs others))
          ∙ sym (update others),
    )
