-- ===== src/Client/SessionExamples.antt =====
-- Tests of a client's sessions at concrete inputs.
use android_device_xiaomi_ms.Base.{
  ℕ, ◌≡◌, refl, true, false, none, some, [], ◌∷◌, arith, nat_key, find, insert,
}
use android_device_xiaomi_ms.Core.{LocationError}
use android_device_xiaomi_ms.Gnss.Types.{GnssSuplMode, TrackingOptions}
use android_device_xiaomi_ms.Client.BiDict.{
  empty_dict, has_id, set_entry, get_ext_by_id, get_ext_by_session,
}
use android_device_xiaomi_ms.Client.Queues.{RequestQueue}
use android_device_xiaomi_ms.Client.Sessions.{
  SessionClient, on_fix, on_trip_completed, started_entity, answered, api_update_batching,
  bare_batching_options, loc_api_start_session, loc_api_stop_session,
  loc_api_update_session_options, loc_api_get_batched_locations,
}
use android_device_xiaomi_ms.Client.Replies.{on_response, before_batching_status}
use android_device_xiaomi_ms.Client.Sound.{SessionDict, IsSound, set_entry-IsSound}
use android_device_xiaomi_ms.Client.Lifecycle.{sessions-IsSound}
use android_device_xiaomi_ms.Client.Rounds.{
  start_request, api_start, stop_request, api_stop, started_and_answered, stopped_and_answered,
}
use android_device_xiaomi_ms.Client.Forgotten.{batching_update_forgets}
use android_device_xiaomi_ms.Client.Crossed.{crossed_responses}

-- The id 41 is tracked under the session 1, and 42 is batched under the session 2.
abbrev two : SessionDict
two = record {
  forward_map = (41, 1) ∷ (42, 2) ∷ [];
  backward_map = (1, 41) ∷ (2, 42) ∷ [];
  ext_map = (1, started_entity 41 2 1) ∷ (2, started_entity 42 1 2) ∷ [];
}

empty-IsSound : IsSound empty_dict
unfolding find
empty-IsSound = record {
  belongs = record {
    there = λ id s e. absurd (ground arith);
    back = λ s id e. absurd (ground arith);
    positive = λ s id e. absurd (ground arith);
  };
  entity = λ s id e. absurd (ground arith);
}

two-IsSound : IsSound two
unfolding set_entry find insert
two-IsSound =
    set_entry-IsSound 42 2 (started_entity 42 1 2)
      (set_entry 41 1 (started_entity 41 2 1) empty_dict)
      (set_entry-IsSound 41 1 (started_entity 41 2 1) empty_dict empty-IsSound refl refl
        (omega arith) refl refl)
      refl refl (omega arith) refl refl

abbrev no_requests : RequestQueue
no_requests = record { requests = []; session = 0 }

abbrev client : SessionClient
client = record {
  sessions = two;
  session_queue = no_requests;
  tracking_queue = no_requests;
  ni_queue = no_requests;
  tracking = false;
  has_api = true;
}

abbrev options : ℕ → TrackingOptions
options interval = record {
  size = 28;
  min_interval = interval;
  min_distance = 0;
  mode = GnssSuplMode.standalone;
  loc_req_eng_type_mask = 0;
  power_mode = 2;
  tbm = 0;
}

sessions-IsSound_example :
    IsSound (loc_api_start_session 42 on_fix (options 500) 3 client).0.sessions
    × IsSound (loc_api_stop_session 42 client).0.sessions
    × IsSound (loc_api_update_session_options 42 on_fix (options 500) 3 client).0.sessions
    × IsSound (loc_api_get_batched_locations 42 10 client).0.sessions
    × IsSound (on_response LocationError.success 2 client).0.sessions
    × IsSound (before_batching_status true (2 ∷ 7 ∷ []) client).0.sessions
unfolding find
sessions-IsSound_example =
    sessions-IsSound client 42 on_fix 3 10 (options 500) LocationError.success 2 true (2 ∷ 7 ∷ [])
      two-IsSound refl (omega arith)

started_and_answered_example :
    let (started, outputs, status) =
      loc_api_start_session 43 on_trip_completed (options 500) 3 client in
    (outputs ≡ api_start on_trip_completed (options 500) ∷ [])
    × (status ≡ LocationError.success)
    × (find 43 started.sessions.forward_map ≡ some 3)
    × ((on_response LocationError.timeout 3 started).1
        ≡ answered (start_request on_trip_completed) LocationError.timeout ∷ [])
    × (find 43 (on_response LocationError.timeout 3 started).0.sessions.forward_map ≡ none)
unfolding find has_id
started_and_answered_example =
    started_and_answered 43 on_trip_completed 3 (options 500) LocationError.timeout client
      two-IsSound refl refl refl (omega arith) refl refl refl

stopped_and_answered_example :
    let stopped = loc_api_stop_session 41 client in
    (stopped.1 ≡ api_stop 2 1 ∷ [])
    × ((on_response LocationError.success 1 stopped.0).1
        ≡ answered (stop_request 2) LocationError.success ∷ [])
    × (find 41 (on_response LocationError.success 1 stopped.0).0.sessions.forward_map ≡ none)
unfolding find get_ext_by_id get_ext_by_session
stopped_and_answered_example =
    stopped_and_answered 41 1 LocationError.success client two-IsSound refl refl refl refl refl

batching_update_forgets_example :
    ((loc_api_update_session_options 42 on_trip_completed (options 500) 3 client).1
      ≡ api_update_batching 2 (bare_batching_options on_trip_completed) ∷ [])
    × (loc_api_update_session_options 42 on_trip_completed (options 500) 3 client
        ≡ loc_api_update_session_options 42 on_trip_completed (options 900) 3 client)
unfolding find get_ext_by_id get_ext_by_session
batching_update_forgets_example =
    batching_update_forgets 42 on_trip_completed 2 3 (options 500) (options 900) client two-IsSound
      refl refl refl refl

crossed_responses_example :
    let asked = (loc_api_get_batched_locations 42 10 (loc_api_stop_session 41 client).0).0 in
    ((on_response LocationError.success 2 asked).1
      ≡ answered (stop_request 2) LocationError.success ∷ [])
    × (find 42 (on_response LocationError.success 2 asked).0.sessions.forward_map ≡ none)
unfolding find get_ext_by_id get_ext_by_session
crossed_responses_example =
    crossed_responses 41 1 42 2 10 client two-IsSound refl refl refl refl refl refl refl
