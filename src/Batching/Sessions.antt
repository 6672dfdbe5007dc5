-- ===== src/Batching/Sessions.antt =====
-- The ordinary sessions of `BatchingAdapter` (gps/batching/BatchingAdapter.cpp).
use android_device_xiaomi_ms.Base.{
  ℕ, ◌+◌, Bool, true, false, not, ◌&&◌, none, some, List, [], ◌∷◌, ◌++◌, ◌==◌, length, find, insert,
  erase, nat_key, if◌then◌else◌,
}
use android_device_xiaomi_ms.Core.{
  LocationError, EngineLockState, is_success, is_enabled, SessionKey, session_key,
}
use android_device_xiaomi_ms.Batching.Types.{
  is_no_auto_report, BatchingOptions, BatchingAdapter, start_message, start_batching_request,
  stop_batching_request, Output, batch_full_event, ask, response,
}

abbrev pub Step : Type 0
Step = BatchingAdapter × List Output

-- Outputs before those of a step.
abbrev pub outputs_first : List Output → Step → Step
outputs_first sent (a, more) = (a, sent ++ more)

abbrev pub is_gnss_disabled : LocationError → Bool
is_gnss_disabled LocationError.gnss_disabled = true
is_gnss_disabled _ = false

unfoldable pub has_batching_callback : ℕ → BatchingAdapter → Bool
unfolding find
has_batching_callback client a = elim (find client a.client_data) [
  | none ↦ false
  | some c ↦ c.batching_cb
]

unfoldable pub is_batching_session : ℕ → ℕ → BatchingAdapter → Bool
unfolding find
is_batching_session client id a =
    elim (find (record { client = client; id = id }) a.batching_sessions) [
      | none ↦ false
      | some _ ↦ true
    ]

unfoldable pub is_trip_session : ℕ → BatchingAdapter → Bool
unfolding find
is_trip_session id a = elim (find id a.trip_sessions) [ none ↦ false | some _ ↦ true ]

unfoldable pub save_batching_session : ℕ → ℕ → BatchingOptions → BatchingAdapter → BatchingAdapter
unfolding insert
save_batching_session client id options a =
    let key : SessionKey = record { client = client; id = id } in
    record a { batching_sessions = insert key options a.batching_sessions }

unfoldable pub erase_batching_session : ℕ → ℕ → BatchingAdapter → BatchingAdapter
unfolding erase
erase_batching_session client id a =
    let key : SessionKey = record { client = client; id = id } in
    record a { batching_sessions = erase key a.batching_sessions }

-- `reportResponse`.
unfoldable pub respond : ℕ → LocationError → ℕ → BatchingAdapter → List Output
unfolding find
respond client err id a = elim (find client a.client_data) [
  | none ↦ []
  | some c ↦ if c.response_cb then response client err id ∷ [] else []
]

-- The loop of `autoReportBatchingSessionsCount`.
unfoldable pub auto_report_loop : List (SessionKey × BatchingOptions) → ℕ
auto_report_loop [] = 0
auto_report_loop ((key, options) ∷ rest) =
    (if is_no_auto_report options.batching_mode then 0 else 1) + auto_report_loop rest

unfoldable pub auto_report_batching_sessions_count : BatchingAdapter → ℕ
unfolding auto_report_loop
auto_report_batching_sessions_count a =
    auto_report_loop a.batching_sessions + length a.trip_sessions

-- Are there no sessions interested in the event?
abbrev pub none_reports : BatchingAdapter → Bool
none_reports a = auto_report_batching_sessions_count a == 0

unfoldable pub start_batching : ℕ → ℕ → BatchingOptions → Bool → BatchingAdapter → Step
unfolding save_batching_session auto_report_batching_sessions_count
start_batching client id options has_pending_msg a = (
  save_batching_session client id options a,
  (if not (is_no_auto_report options.batching_mode) && none_reports a
        then batch_full_event true ∷ []
        else [])
      ++ ask (start_batching_request client id options has_pending_msg) ∷ [],
)

-- The handler of the answer.
unfoldable pub batching_started :
    ℕ → ℕ → BatchingOptions → Bool → EngineLockState → LocationError → BatchingAdapter → Step
unfolding erase_batching_session auto_report_batching_sessions_count respond
batching_started client id options has_pending_msg lock err a =
    let kept =
      if is_enabled lock && not (is_success err) then erase_batching_session client id a else a in
    (
      record kept {
        pending_gnss_enabled_msgs =
            if is_gnss_disabled err && has_pending_msg
            then kept.pending_gnss_enabled_msgs ++ start_message client id options ∷ []
            else kept.pending_gnss_enabled_msgs;
      },
      (if not (is_success err)
              && (not (is_no_auto_report options.batching_mode) && none_reports kept)
            then batch_full_event false ∷ []
            else [])
          ++ respond client err id kept,
    )

unfoldable pub stop_batching : ℕ → ℕ → Bool → BatchingOptions → BatchingAdapter → Step
unfolding find erase_batching_session
stop_batching client id restart_needed options a =
    elim (find (record { client = client; id = id }) a.batching_sessions) [
      | none ↦ (a, [])
      | some old ↦ (
        erase_batching_session client id a,
        ask (stop_batching_request client id old restart_needed options) ∷ [],
      )
    ]
