-- ===== src/Client/Examples.antt =====
-- Tests of a client's fences at concrete inputs.
use android_device_xiaomi_ms.Base.{
  ℕ, ◌≡◌, refl, true, none, some, List, [], ◌∷◌, arith, nat_key, find, insert, filter, any, not,
  ◌&&◌, ◌==◌,
}
use android_device_xiaomi_ms.Core.{LocationError}
use android_device_xiaomi_ms.Geofence.Types.{GeofenceOption}
use android_device_xiaomi_ms.Client.BiDict.{empty_dict, has_id, get_session, set_entry}
use android_device_xiaomi_ms.Client.Fences.{
  FenceDict, FenceClient, remove_request, api_remove, api_modify, told, loc_api_add_geofences,
  loc_api_remove_geofences, loc_api_modify_geofences, loc_api_pause_geofences,
  loc_api_resume_geofences, loc_api_remove_all_geofences, on_collective_response,
}
use android_device_xiaomi_ms.Client.Mutual.{IsMutual, set_entry-IsMutual, commands-IsMutual}
use android_device_xiaomi_ms.Client.Answers.{removal_told}
use android_device_xiaomi_ms.Client.Mixups.{remove_all_nothing, modify_wrong_options}

-- The fences 71 and 72 with the sessions 1 and 2.
abbrev two : FenceDict
two = record {
  forward_map = (71, 1) ∷ (72, 2) ∷ [];
  backward_map = (1, 71) ∷ (2, 72) ∷ [];
  ext_map = (1, 3) ∷ (2, 1) ∷ [];
}

abbrev no_fences : FenceDict
no_fences = empty_dict

empty-IsMutual : IsMutual no_fences
unfolding find
empty-IsMutual = record {
  there = λ id s e. absurd (ground arith);
  back = λ s id e. absurd (ground arith);
  positive = λ s id e. absurd (ground arith);
}

two-IsMutual : IsMutual two
unfolding set_entry find insert
two-IsMutual =
    set_entry-IsMutual 72 2 1 (set_entry 71 1 3 no_fences)
      (set_entry-IsMutual 71 1 3 no_fences empty-IsMutual refl refl (omega arith)) refl refl
      (omega arith)

abbrev client : FenceClient
client = record {
  fences = two;
  queue = [];
  queue_session = 4294967295;
  has_api = true;
  has_breach_cb = true;
}

abbrev option_of : ℕ → GeofenceOption
option_of mask = record { breach_type_mask = mask; responsiveness = 0; dwell_time = 0 }

commands-IsMutual_example :
    IsMutual (loc_api_remove_geofences (72 ∷ 73 ∷ []) client).0.fences
    × IsMutual (loc_api_modify_geofences ((71, option_of 2) ∷ []) client).0.fences
    × IsMutual (loc_api_pause_geofences (72 ∷ 73 ∷ []) client).0.fences
    × IsMutual (loc_api_resume_geofences ((71, some 2) ∷ []) client).0.fences
    × IsMutual (loc_api_add_geofences ((73, 1) ∷ []) (some (3 ∷ [])) client).0.fences
    × IsMutual (loc_api_add_geofences ((73, 1) ∷ []) none client).0.fences
unfolding find
commands-IsMutual_example =
    commands-IsMutual client (72 ∷ 73 ∷ []) ((71, option_of 2) ∷ []) ((71, some 2) ∷ [])
      ((73, 1) ∷ []) (3 ∷ []) two-IsMutual (refl, refl, omega arith, tt)

removal_told_example :
    (removed : FenceDict) × ((loc_api_remove_geofences (72 ∷ 73 ∷ 71 ∷ []) client).1
      ≡ api_remove (2 ∷ 1 ∷ []) ∷ [])
    × ((j : ℕ)
        → has_id j (loc_api_remove_geofences (72 ∷ 73 ∷ 71 ∷ []) client).0.fences
          ≡ (has_id j two && not (any (λ id. id == j) (72 ∷ 73 ∷ 71 ∷ []))))
    × ((on_collective_response
          (LocationError.success ∷ LocationError.success ∷ [])
          (2 ∷ 1 ∷ [])
          (loc_api_remove_geofences (72 ∷ 73 ∷ 71 ∷ []) client).0).1
        ≡ told
            (remove_request removed)
            (LocationError.success ∷ LocationError.success ∷ [])
            (filter (λ id. has_id id two) (72 ∷ 73 ∷ 71 ∷ []))
          ∷ [])
unfolding find has_id get_session
removal_told_example =
    removal_told (72 ∷ 73 ∷ 71 ∷ []) (LocationError.success ∷ LocationError.success ∷ []) client
      two-IsMutual (omega arith) refl refl refl refl

apart-two : (s id : ℕ) → find s two.backward_map ≡ some id → find s two.forward_map ≡ none
unfolding find
apart-two s id found = ground arith

remove_all_nothing_example : loc_api_remove_all_geofences client ≡ (client, [])
remove_all_nothing_example = remove_all_nothing client apart-two

modify_wrong_options_example :
    (more : List (ℕ × GeofenceOption)) × ((loc_api_modify_geofences
        ((73, option_of 1) ∷ (72, option_of 2) ∷ [])
        client).1
      ≡ api_modify ((2, option_of 1) ∷ more) ∷ [])
unfolding find
modify_wrong_options_example =
    modify_wrong_options 73 72 2 (option_of 1) (option_of 2) [] client refl refl (omega arith) refl
      refl
