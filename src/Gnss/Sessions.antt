-- ===== src/Gnss/Sessions.antt =====
-- The maps of the sessions of `GnssAdapter` (gps/gnss/GnssAdapter.cpp).
use android_device_xiaomi_ms.Base.{
  ℕ, Bool, true, false, not, ◌&&◌, ◌||◌, none, some, List, [], ◌∷◌, ◌++◌, ltb, find, insert, erase,
  nat_key, is_empty, if◌then◌else◌,
}
use android_device_xiaomi_ms.Core.{LocationError, SessionKey, session_key}
use android_device_xiaomi_ms.Gnss.Types.{
  GnssSuplMode, LocationOptions, TrackingOptions, LocPositionMode, LocPosMode, GnssAdapter, Output,
  power_state, response,
}

abbrev pub Step : Type 0
Step = GnssAdapter × List Output

-- One step after another.
infix 2 ◌then_do◌
abbrev pub ◌then_do◌ : Step → (GnssAdapter → Step) → Step
(a, sent) then_do f = let (b, more) = f a in (b, sent ++ more)

abbrev pub key_of : (client id : ℕ) → SessionKey
key_of client id = record { client = client; id = id }

abbrev pub to_location_options : TrackingOptions → LocationOptions
to_location_options o = record {
  size = o.size;
  min_interval = o.min_interval;
  min_distance = o.min_distance;
  mode = o.mode;
  loc_req_eng_type_mask = o.loc_req_eng_type_mask;
}

unfoldable pub convert_options : TrackingOptions → LocPosMode
convert_options o = record {
  mode = elim o.mode [
    | GnssSuplMode.msb ↦ LocPositionMode.ms_based
    | GnssSuplMode.msa ↦ LocPositionMode.ms_assisted
    | GnssSuplMode.standalone ↦ LocPositionMode.standalone_mode
  ];
  min_interval = o.min_interval;
  power_mode = o.power_mode;
  time_between_measurements = o.tbm;
}

unfoldable pub is_time_based_tracking_session : (client id : ℕ) → GnssAdapter → Bool
unfolding find
is_time_based_tracking_session client id a =
    elim (find (key_of client id) a.time_based_tracking_sessions) [ none ↦ false | some _ ↦ true ]

unfoldable pub is_distance_based_tracking_session : (client id : ℕ) → GnssAdapter → Bool
unfolding find
is_distance_based_tracking_session client id a =
    elim (find (key_of client id) a.distance_based_tracking_sessions) [
      | none ↦ false
      | some _ ↦ true
    ]

unfoldable pub has_callbacks_to_start_tracking : (client : ℕ) → GnssAdapter → Bool
unfolding find
has_callbacks_to_start_tracking client a = elim (find client a.client_data) [
  | none ↦ false
  | some c ↦
      c.tracking_cb
      || (c.gnss_location_info_cb
          || (c.engine_locations_info_cb
              || (c.gnss_measurements_cb || (c.gnss_data_cb || (c.gnss_sv_cb || c.gnss_nmea_cb)))))
]

-- `reportResponse` to a client.
unfoldable pub report_to : (client : ℕ) → LocationError → (id : ℕ) → GnssAdapter → Step
unfolding find
report_to client err id a = elim (find client a.client_data) [
  | none ↦ (a, [])
  | some c ↦ (a, if c.response_cb then response client err id ∷ [] else [])
]

unfoldable pub report_power_state_if_changed : GnssAdapter → Step
report_power_state_if_changed a =
    let on =
      not (is_empty a.time_based_tracking_sessions)
      || not (is_empty a.distance_based_tracking_sessions) in
    let is_same = (on && a.power_on) || (not on && not a.power_on) in
    (
      record a { power_on = on },
      if is_same then [] else if a.has_power_state_cb then power_state on ∷ [] else [],
    )

-- `is_supported` says whether the engine tracks by distance.
unfoldable pub save_tracking_session : Bool → (client id : ℕ) → TrackingOptions → GnssAdapter → Step
unfolding insert report_power_state_if_changed
save_tracking_session is_supported client id options a = report_power_state_if_changed (
    if ltb 0 options.min_distance && is_supported
    then record a {
      distance_based_tracking_sessions =
          insert (key_of client id) (to_location_options options)
            a.distance_based_tracking_sessions;
    }
    else record a {
      time_based_tracking_sessions =
          insert (key_of client id) options a.time_based_tracking_sessions;
    })

unfoldable pub erase_tracking_session : (client id : ℕ) → GnssAdapter → Step
unfolding erase is_time_based_tracking_session report_power_state_if_changed
erase_tracking_session client id a = report_power_state_if_changed (
    if is_time_based_tracking_session client id a
    then record a {
      time_based_tracking_sessions = erase (key_of client id) a.time_based_tracking_sessions;
    }
    else record a {
      distance_based_tracking_sessions =
          erase (key_of client id) a.distance_based_tracking_sessions;
    })
