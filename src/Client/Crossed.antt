-- ===== src/Client/Crossed.antt =====
-- One queue for the requests of all sessions in gps/location/LocationAPIClientBase.cpp.
use android_device_xiaomi_ms.Base.{
  ℕ, ◌≡◌, ◌∙◌, refl, ap, true, false, none, some, [], ◌∷◌, ◌==◌, nat_key, find, if◌then◌else◌,
  if_cases,
}
use android_device_xiaomi_ms.Core.{LocationError}
use android_device_xiaomi_ms.Client.BiDict.{is_some, has_id}
use android_device_xiaomi_ms.Client.Queues.{get_batched_locations}
use android_device_xiaomi_ms.Client.Sessions.{
  on_fix, SessionClient, SessionStep, entity_of, queued, answered, loc_api_stop_session,
  loc_api_get_batched_locations,
}
use android_device_xiaomi_ms.Client.Replies.{ends_session, on_response}
use android_device_xiaomi_ms.Client.Sound.{IsSound}
use android_device_xiaomi_ms.Client.Rounds.{IsWaiting, stop_request, ends_stop, responded}

-- The clients after the two commands.
stop_known :
    (id : ℕ) (c : SessionClient)
    → c.has_api ≡ true
    → has_id id c.sessions ≡ true
    → (loc_api_stop_session id c).0 ≡ queued (stop_request (entity_of id c).session_mode) c
unfolding loc_api_stop_session
stop_known id c api has =
    let Is : SessionStep → Type 0 =
      λ x. x.0 ≡ queued (stop_request (entity_of id c).session_mode) c in
    if_cases Is c.has_api
      (λ _.
        if_cases Is (has_id id c.sessions)
          (λ _.
            if_cases Is ((entity_of id c).session_mode == on_fix) (λ fix. rw fix refl)
              (λ other. rw other refl))
          (λ no. absurd (cc)))
      (λ no. absurd (cc))

get_known :
    (id count : ℕ) (c : SessionClient)
    → c.has_api ≡ true
    → has_id id c.sessions ≡ true
    → ((entity_of id c).session_mode == on_fix) ≡ false
    → (loc_api_get_batched_locations id count c).0 ≡ queued get_batched_locations c
unfolding loc_api_get_batched_locations
get_known id count c api has batching =
    let Is : SessionStep → Type 0 = λ x. x.0 ≡ queued get_batched_locations c in
    if_cases Is c.has_api
      (λ _.
        if_cases Is (has_id id c.sessions)
          (λ _.
            if_cases Is ((entity_of id c).session_mode == on_fix) (λ no. absurd (cc)) (λ _. refl))
          (λ no. absurd (cc)))
      (λ no. absurd (cc))

-- Suppose that the dictionary of a client's sessions is sound, no request waits in the queue of the
-- sessions, one id has a session, and another has a session of batching that is none of the other
-- queues. If the client stops the first one, then asks for the locations of the second one, and the API says
-- success for the second one first, then the client is told that its stop has succeeded, and the id
-- of the second session is unknown.
pub crossed_responses :
    (id s other t count : ℕ) (c : SessionClient)
    → IsSound c.sessions
    → c.has_api ≡ true
    → find id c.sessions.forward_map ≡ some s
    → find other c.sessions.forward_map ≡ some t
    → ((entity_of other c).session_mode == on_fix) ≡ false
    → c.session_queue.requests ≡ []
    → (c.tracking_queue.session == t) ≡ false
    → (c.ni_queue.session == t) ≡ false
    → let mode = (entity_of id c).session_mode in
      let asked = (loc_api_get_batched_locations other count (loc_api_stop_session id c).0).0 in
      ((on_response LocationError.success t asked).1
        ≡ answered (stop_request mode) LocationError.success ∷ [])
      × (find other (on_response LocationError.success t asked).0.sessions.forward_map ≡ none)
crossed_responses id s other t count c h api known also batching empty not_tracked no_ni =
    let request = stop_request (entity_of id c).session_mode in
    let has : has_id id c.sessions ≡ true = unfold has_id in ap is_some known in
    let has_other : has_id other c.sessions ≡ true = unfold has_id in ap is_some also in
    let asked = queued get_batched_locations (queued request c) in
    let waiting : IsWaiting other t request asked = record {
      sound = h;
      known = also;
      not_tracked = not_tracked;
      no_ni = no_ni;
      waits = (get_batched_locations ∷ [], rw empty refl);
    } in
    let (told, found) = responded other t request asked waiting LocationError.success in
    let ended : ends_session LocationError.success request ≡ true =
      ends_stop LocationError.success (entity_of id c).session_mode in
    rw (stop_known id c api has) (
      rw (get_known other count (queued request c) api has_other batching)
        (told, found ∙ ap (λ b. if b then none else some t) ended))
