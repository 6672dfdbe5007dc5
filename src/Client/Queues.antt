-- ===== src/Client/Queues.antt =====
-- `RequestQueue` of gps/location/LocationAPIClientBase.h, for the requests that wait for one response.
use android_device_xiaomi_ms.Base.{ℕ, Option, none, some, List, [], ◌∷◌, ◌++◌}

pub data SessionRequest : Type 0 where
  start_tracking stop_tracking update_tracking_options : SessionRequest
  start_batching stop_batching update_batching_options : SessionRequest
  get_batched_locations gnss_ni_response : SessionRequest

pub record RequestQueue : Type 0 where
  pub requests : List SessionRequest
  pub session : ℕ

abbrev pub set_session : ℕ → RequestQueue → RequestQueue
set_session session q = record q { session = session }

abbrev pub reset_requests : ℕ → RequestQueue → RequestQueue
reset_requests session q = record { requests = []; session = session }

abbrev pub enqueue : SessionRequest → RequestQueue → RequestQueue
enqueue request q = record q { requests = q.requests ++ request ∷ [] }

abbrev pub dequeue : RequestQueue → Option SessionRequest × RequestQueue
dequeue q = elim q.requests [
  | [] ↦ (none, q)
  | request ∷ rest ↦ (some request, record q { requests = rest })
]
