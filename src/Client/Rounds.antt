-- ===== src/Client/Rounds.antt =====
-- A command on a client's session and the response to it: gps/location/LocationAPIClientBase.cpp.
use android_device_xiaomi_ms.Base.{
  ℕ, ◌<◌, ◌≡◌, ◌∙◌, refl, sym, ap, Bool, true, false, none, some, List, [], ◌∷◌, ◌==◌, nat_key,
  find, find-erase_eq, Bool-cases, inl, inr, if◌then◌else◌, if_both, if_cases,
}
use android_device_xiaomi_ms.Core.{LocationError, is_success}
use android_device_xiaomi_ms.Gnss.Types.{TrackingOptions}
use android_device_xiaomi_ms.Client.BiDict.{or_zero, is_some, has_id, has_session, rm_by_session}
use android_device_xiaomi_ms.Client.Queues.{
  SessionRequest, RequestQueue, start_tracking, start_batching, stop_tracking, stop_batching,
}
use android_device_xiaomi_ms.Client.Sessions.{
  api_start_tracking, api_start_batching, batching_options_of, on_fix, SessionClient, SessionOutput,
  SessionStep, entity_of, api_stop_tracking, api_stop_batching, answered, loc_api_start_session,
  loc_api_stop_session,
}
use android_device_xiaomi_ms.Client.Replies.{
  remove_session, get_request_by_session, ends_session, on_request_response, on_response,
}
use android_device_xiaomi_ms.Client.Sound.{IsSound, started-IsSound, started_known, entity_of_lem}

-- The session's id is known, and the request waits first, in no queue but that of the sessions.
pub record IsWaiting (id s : ℕ) (request : SessionRequest) (c : SessionClient) : Type 0 where
  pub sound : IsSound c.sessions
  pub known : find id c.sessions.forward_map ≡ some s
  pub not_tracked : (c.tracking_queue.session == s) ≡ false
  pub no_ni : (c.ni_queue.session == s) ≡ false
  pub waits : (rest : List SessionRequest) × (c.session_queue.requests ≡ request ∷ rest)

module _ (id s : ℕ) (request : SessionRequest) (c : SessionClient)
    (h : IsWaiting id s request c) where
  waiting_session : has_session s c.sessions ≡ true
  unfolding has_session
  waiting_session = ap is_some (h.sound.belongs.there id s h.known)

  popped :
      (q : RequestQueue) × (get_request_by_session s c
        ≡ (some request, record c { session_queue = q }))
  unfolding get_request_by_session
  popped = (
    record c.session_queue { requests = h.waits.0 },
    rw h.not_tracked (rw h.no_ni (rw waiting_session (rw h.waits.1 refl))),
  )

  gone :
      (q : RequestQueue)
      → find id (remove_session s (record c { session_queue = q })).sessions.forward_map ≡ none
  unfolding remove_session rm_by_session
  gone q =
      let its_id = ap or_zero (h.sound.belongs.there id s h.known) in
      rw waiting_session (find-erase_eq id _ c.sessions.forward_map its_id)

  -- The response is told for the request, and the id is gone where the request ends the session.
  pub responded :
      (error : LocationError)
      → ((on_response error s c).1 ≡ answered request error ∷ [])
        × (find id (on_response error s c).0.sessions.forward_map
            ≡ (if ends_session error request then none else some s))
  unfolding on_response on_request_response
  responded error =
      let (q, here) = popped in
      rw here (
        refl,
        elim (Bool-cases (ends_session error request)) [
          | inl ended ↦ rw ended (gone q)
          | inr going_on ↦ rw going_on h.known
        ],
      )

-- The request of a command to start a session in a mode, or to stop one, and what it asks the API for.
abbrev pub start_request : ℕ → SessionRequest
start_request mode = if mode == on_fix then start_tracking else start_batching

abbrev pub api_start : ℕ → TrackingOptions → SessionOutput
api_start mode options =
    if mode == on_fix
    then api_start_tracking options
    else api_start_batching (batching_options_of mode options)

abbrev pub stop_request : ℕ → SessionRequest
stop_request mode = if mode == on_fix then stop_tracking else stop_batching

abbrev pub api_stop : ℕ → ℕ → SessionOutput
api_stop mode s = if mode == on_fix then api_stop_tracking s else api_stop_batching s

ends_start :
    (error : LocationError) (mode : ℕ)
    → ends_session error (start_request mode) ≡ (if is_success error then false else true)
ends_start error mode =
    if_both (λ r. ends_session error r ≡ (if is_success error then false else true))
      (mode == on_fix) refl refl

pub ends_stop :
    (error : LocationError) (mode : ℕ) → ends_session error (stop_request mode) ≡ is_success error
ends_stop error mode =
    if_both (λ r. ends_session error r ≡ is_success error) (mode == on_fix) refl refl

turned :
    (s : ℕ) (b : Bool)
    → (if (if b then false else true) then none else some s) ≡ (if b then some s else none)
turned s true = refl
turned s false = refl

-- The client after a session is started.
started-IsWaiting :
    (id mode s : ℕ) (options : TrackingOptions) (c : SessionClient)
    → IsSound c.sessions
    → c.has_api ≡ true
    → has_id id c.sessions ≡ false
    → find s c.sessions.backward_map ≡ none
    → 0 < s
    → c.session_queue.requests ≡ []
    → (c.tracking_queue.session == s) ≡ false
    → (c.ni_queue.session == s) ≡ false
    → IsWaiting id s (start_request mode) (loc_api_start_session id mode options s c).0
unfolding loc_api_start_session
started-IsWaiting id mode s options c h api unknown fresh pos empty not_tracked no_ni =
    let new = started-IsSound id mode s c.sessions h unknown fresh pos in
    let there = started_known id mode s c.sessions in
    rw (api, unknown)
      (if_cases (λ (x : SessionStep). IsWaiting id s (start_request mode) x.0) (mode == on_fix)
        (λ fix. record {
          sound = new;
          known = there;
          not_tracked = not_tracked;
          no_ni = no_ni;
          waits = ([], rw (empty, fix) refl);
        })
        (λ other. record {
          sound = new;
          known = there;
          not_tracked = not_tracked;
          no_ni = no_ni;
          waits = ([], rw (empty, other) refl);
        }))

-- What a start asks the API for, and its status.
started_asks :
    (id mode s : ℕ) (options : TrackingOptions) (c : SessionClient)
    → c.has_api ≡ true
    → has_id id c.sessions ≡ false
    → ((loc_api_start_session id mode options s c).1 ≡ api_start mode options ∷ [])
      × ((loc_api_start_session id mode options s c).2 ≡ LocationError.success)
unfolding loc_api_start_session
started_asks id mode s options c api unknown =
    rw (api, unknown)
      (if_cases
        (λ (x : SessionStep). (x.1 ≡ api_start mode options ∷ []) × (x.2 ≡ LocationError.success))
        (mode == on_fix) (λ fix. (rw fix refl, refl)) (λ other. (rw other refl, refl)))

-- If the dictionary of a client's sessions is sound, there is an API, no request waits in the queue of the
-- sessions, the id is unknown, and the session that the API gives is new, not 0 and none of the other
-- queues, then the command to start a session asks the API for tracking with the client's options or
-- for batching with options made of them, by its mode, succeeds, and enters the id with the session; the
-- response to the session, whatever it is, is told as that of the start, and then the id has the session
-- if it says success, and is unknown again if it does not.
pub started_and_answered :
    (id mode s : ℕ) (options : TrackingOptions) (error : LocationError) (c : SessionClient)
    → IsSound c.sessions
    → c.has_api ≡ true
    → has_id id c.sessions ≡ false
    → find s c.sessions.backward_map ≡ none
    → 0 < s
    → c.session_queue.requests ≡ []
    → (c.tracking_queue.session == s) ≡ false
    → (c.ni_queue.session == s) ≡ false
    → let (started, outputs, status) = loc_api_start_session id mode options s c in
      (outputs ≡ api_start mode options ∷ [])
      × (status ≡ LocationError.success)
      × (find id started.sessions.forward_map ≡ some s)
      × ((on_response error s started).1 ≡ answered (start_request mode) error ∷ [])
      × (find id (on_response error s started).0.sessions.forward_map
          ≡ (if is_success error then some s else none))
started_and_answered id mode s options error c h api unknown fresh pos empty not_tracked no_ni =
    let waiting =
      started-IsWaiting id mode s options c h api unknown fresh pos empty not_tracked no_ni in
    let (asked, done) = started_asks id mode s options c api unknown in
    let (told, found) =
      responded id s (start_request mode) (loc_api_start_session id mode options s c).0 waiting
        error in
    (
      asked,
      done,
      waiting.known,
      told,
      found
          ∙ ap (λ b. if b then none else some s) (ends_start error mode)
          ∙ turned s (is_success error),
    )

-- The client after a session is stopped, and what the API is asked for.
stop-IsWaiting :
    (id s : ℕ) (c : SessionClient)
    → IsSound c.sessions
    → c.has_api ≡ true
    → find id c.sessions.forward_map ≡ some s
    → c.session_queue.requests ≡ []
    → (c.tracking_queue.session == s) ≡ false
    → (c.ni_queue.session == s) ≡ false
    → let mode = (entity_of id c).session_mode in
      ((loc_api_stop_session id c).1 ≡ api_stop mode s ∷ [])
      × IsWaiting id s (stop_request mode) (loc_api_stop_session id c).0
unfolding loc_api_stop_session
stop-IsWaiting id s c h api known empty not_tracked no_ni =
    let (_, own) = entity_of_lem id s c h known in
    let has : has_id id c.sessions ≡ true = unfold has_id in ap is_some known in
    let mode = (entity_of id c).session_mode in
    rw (api, has)
      (if_cases
        (λ (x : SessionStep). (x.1 ≡ api_stop mode s ∷ []) × IsWaiting id s (stop_request mode) x.0)
        (mode == on_fix)
        (λ fix. (
          rw fix (
              let same : (entity_of id c).tracking_session ≡ s = rw (sym own, fix) refl in
              ap (λ t. api_stop_tracking t ∷ []) same),
          record {
            sound = h;
            known = known;
            not_tracked = not_tracked;
            no_ni = no_ni;
            waits = ([], rw (empty, fix) refl);
          },
        ))
        (λ other. (
          rw other (
              let same : (entity_of id c).batching_session ≡ s = rw (sym own, other) refl in
              ap (λ t. api_stop_batching t ∷ []) same),
          record {
            sound = h;
            known = known;
            not_tracked = not_tracked;
            no_ni = no_ni;
            waits = ([], rw (empty, other) refl);
          },
        )))

-- If the dictionary of a client's sessions is sound, no request waits in the queue of the sessions, and the
-- id has a session that is none of the other queues, then the command to stop it asks the API to stop just
-- that session, as one of its mode, and the response to it is told as that of the stop, whatever it
-- is; then the id is unknown if it says success, and has its session if it does not.
pub stopped_and_answered :
    (id s : ℕ) (error : LocationError) (c : SessionClient)
    → IsSound c.sessions
    → c.has_api ≡ true
    → find id c.sessions.forward_map ≡ some s
    → c.session_queue.requests ≡ []
    → (c.tracking_queue.session == s) ≡ false
    → (c.ni_queue.session == s) ≡ false
    → let mode = (entity_of id c).session_mode in
      let stopped = loc_api_stop_session id c in
      (stopped.1 ≡ api_stop mode s ∷ [])
      × ((on_response error s stopped.0).1 ≡ answered (stop_request mode) error ∷ [])
      × (find id (on_response error s stopped.0).0.sessions.forward_map
          ≡ (if is_success error then none else some s))
stopped_and_answered id s error c h api known empty not_tracked no_ni =
    let (asked, waiting) = stop-IsWaiting id s c h api known empty not_tracked no_ni in
    let mode = (entity_of id c).session_mode in
    let (told, found) =
      responded id s (stop_request mode) (loc_api_stop_session id c).0 waiting error in
    (asked, told, found ∙ ap (λ b. if b then none else some s) (ends_stop error mode))
