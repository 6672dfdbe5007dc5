-- ===== src/Gnss/Examples.antt =====
-- Tests of tracking: two sessions that share the engine, and a start that the engine refuses.
use android_device_xiaomi_ms.Gnss.Blacklist.{
  GnssSvIdSource, GnssSvIdConfig, all_bits, no_bits, convert_to_gnss_sv_id_config,
  convert_from_gnss_sv_id_config, sbas_sources, convert_gnss_sv_id_mask_to_list, mask_loop,
}
use android_device_xiaomi_ms.Gnss.RoundTrip.{IsWords, convert_to-convert_from}
use android_device_xiaomi_ms.Base.{
  ℕ, ◌≡◌, refl, true, false, List, [], ◌∷◌, Option, some, inl, find, arith, map, length, get_elem?,
}
use android_device_xiaomi_ms.Core.{LocationError, session_key_eq, session_key_lt}
use android_device_xiaomi_ms.Location.Types.{LocationCallbacks}
use android_device_xiaomi_ms.Gnss.Types.{
  GnssSuplMode, TrackingOptions, LocPositionMode, GnssAdapter, Output,
}
use android_device_xiaomi_ms.Gnss.Sessions.{key_of, has_callbacks_to_start_tracking}
use android_device_xiaomi_ms.Gnss.Commands.{proc_start, proc_update, proc_stop, answer}
use android_device_xiaomi_ms.Gnss.Served.{engine_after}
use android_device_xiaomi_ms.Gnss.Bounds.{IsServing}
use android_device_xiaomi_ms.Gnss.Tracking.{commands-IsServing}
use android_device_xiaomi_ms.Gnss.Stale.{IsUnasked, adjusted, after_failure, failed_start_stale}

abbrev client_callbacks : LocationCallbacks
client_callbacks = record {
  capabilities_cb = true;
  response_cb = true;
  collective_response_cb = true;
  tracking_cb = true;
  batching_cb = false;
  geofence_breach_cb = false;
  geofence_status_cb = false;
  gnss_location_info_cb = false;
  gnss_ni_cb = false;
  gnss_sv_cb = false;
  gnss_nmea_cb = false;
  gnss_data_cb = false;
  gnss_measurements_cb = false;
  batching_status_cb = false;
  location_system_info_cb = false;
  engine_locations_info_cb = false;
}

abbrev options : ℕ → TrackingOptions
options interval = record {
  size = 28;
  min_interval = interval;
  min_distance = 0;
  mode = GnssSuplMode.standalone;
  loc_req_eng_type_mask = 0;
  power_mode = 2;
  tbm = 0;
}

abbrev idle : GnssAdapter
idle = record {
  time_based_tracking_sessions = [];
  distance_based_tracking_sessions = [];
  nhz_needed = true;
  spe_already_running_at_highest_interval = false;
  loc_position_mode = record {
    mode = LocPositionMode.standalone_mode;
    min_interval = 0;
    power_mode = 0;
    time_between_measurements = 0;
  };
  power_on = false;
  has_power_state_cb = true;
  client_data = (7, client_callbacks) ∷ [];
  is_engine_capabilities_known = true;
  pending_msgs = [];
}

abbrev tracking : GnssAdapter
tracking = record idle {
  time_based_tracking_sessions = (key_of 7 1, options 1000) ∷ (key_of 7 2, options 500) ∷ [];
  nhz_needed = false;
  power_on = true;
}

abbrev engine : Option TrackingOptions
engine = some (options 500)

tracking-IsServing : IsServing engine tracking
unfolding session_key_lt
tracking-IsServing = record {
  sorted = ((refl, tt), (tt, tt));
  proper = ((λ e. ground arith, omega arith), ((λ e. ground arith, omega arith), tt));
  served = (
    record { options = options 500; runs = refl; fast = omega arith },
    (record { options = options 500; runs = refl; fast = omega arith }, tt),
  );
  highest = inl refl;
}

commands-IsServing_example :
    (let (b, sent) = proc_start true 7 2 (options 50) tracking in
      IsServing (engine_after engine sent) b)
    × (let (b, sent) = proc_stop 7 2 tracking in IsServing (engine_after engine sent) b)
    × (b : GnssAdapter) × (sent : List Output) × (proc_update true 7 2 (options 50) tracking
        ≡ some (b, sent))
    × IsServing (engine_after engine sent) b
commands-IsServing_example =
    commands-IsServing true 7 2 (options 50) tracking engine tracking-IsServing

failed_start_stale_example :
    let failed = after_failure true LocationError.timeout 7 1 (options 1000) idle in
    let (b, sent) = proc_start true 7 2 (options 500) failed in
    (failed.time_based_tracking_sessions ≡ [])
    × (failed.spe_already_running_at_highest_interval ≡ true)
    × (b.time_based_tracking_sessions ≡ (key_of 7 2, adjusted (options 500)) ∷ [])
    × (b.spe_already_running_at_highest_interval ≡ true)
    × IsUnasked sent
unfolding has_callbacks_to_start_tracking find proc_start answer session_key_eq
failed_start_stale_example =
    failed_start_stale true LocationError.timeout 7 1 7 2 (options 1000) (options 500) idle refl
      (refl, refl, refl) (record { granted = refl; sized = refl; near = refl; slow = refl })
      (record { granted = refl; sized = refl; near = refl; slow = refl })

-- All of BeiDou, two of GLONASS, one of Galileo, and one of each range of SBAS.
abbrev blacklist : GnssSvIdConfig
blacklist = record { glo = 5; bds = all_bits; qzs = 0; gal = 2; sba = 549755813889; nav = 0 }

blacklist-IsWords : IsWords blacklist
blacklist-IsWords = record {
  glo = omega arith;
  bds = omega arith;
  qzs = omega arith;
  gal = omega arith;
  sba = omega arith;
  nav = omega arith;
}

convert_to-convert_from_example :
    convert_to_gnss_sv_id_config (convert_from_gnss_sv_id_config blacklist) no_bits
    ≡ some (blacklist, true)
convert_to-convert_from_example = convert_to-convert_from blacklist blacklist-IsWords

-- The blacklist of all SBAS satellites comes back as ids, of which 193 is one of QZSS.
sbas_all : List ℕ
sbas_all =
    map (λ (x : GnssSvIdSource). x.sv_id)
      (convert_from_gnss_sv_id_config (record no_bits { sba = all_bits }))

sbas_all_ids : (length sbas_all ≡ 64) × (get_elem? sbas_all 49 ≡ some 193)
unfolding sbas_all convert_from_gnss_sv_id_config sbas_sources convert_gnss_sv_id_mask_to_list
    mask_loop
sbas_all_ids = (refl, refl)
