-- ===== src/Client/BiDict.antt =====
-- `BiDict` of gps/location/LocationAPIClientBase.h: ids, sessions, and what belongs to a session. A key
-- that is read by `[ ]` and is not there is inserted with 0.
use android_device_xiaomi_ms.Base.{
  ℕ, Bool, true, false, Option, none, some, List, [], map, nat_key, find, insert, erase, ltb,
  if◌then◌else◌,
}

pub record BiDict {ℓ} (T : Type ℓ) : Type ℓ where
  pub forward_map : List (ℕ × ℕ)
  pub backward_map : List (ℕ × ℕ)
  pub ext_map : List (ℕ × T)

abbrev pub is_some {ℓ} : {A : Type ℓ} → Option A → Bool
is_some none = false
is_some (some a) = true

-- What `m[k]` reads.
abbrev pub or_zero : Option ℕ → ℕ
or_zero none = 0
or_zero (some v) = v

module _ {ℓ} {T : Type ℓ} where
  abbrev pub empty_dict : BiDict T
  empty_dict = record { forward_map = []; backward_map = []; ext_map = [] }

  unfoldable pub has_id : ℕ → BiDict T → Bool
  has_id id d = is_some (find id d.forward_map)

  unfoldable pub has_session : ℕ → BiDict T → Bool
  has_session session d = is_some (find session d.backward_map)

  unfoldable pub set_entry : ℕ → ℕ → T → BiDict T → BiDict T
  set_entry id session ext d = record {
    forward_map = insert id session d.forward_map;
    backward_map = insert session id d.backward_map;
    ext_map = insert session ext d.ext_map;
  }

  unfoldable pub rm_by_id : ℕ → BiDict T → BiDict T
  rm_by_id id d =
      let session = or_zero (find id d.forward_map) in
      record {
        forward_map = erase id d.forward_map;
        backward_map = erase session d.backward_map;
        ext_map = erase session d.ext_map;
      }

  unfoldable pub rm_by_session : ℕ → BiDict T → BiDict T
  rm_by_session session d = record {
    forward_map = erase (or_zero (find session d.backward_map)) d.forward_map;
    backward_map = erase session d.backward_map;
    ext_map = erase session d.ext_map;
  }

  unfoldable pub get_id : ℕ → BiDict T → ℕ
  get_id session d = or_zero (find session d.backward_map)

  unfoldable pub get_session : ℕ → BiDict T → ℕ
  get_session id d = or_zero (find id d.forward_map)

  -- `zero` is a value whose bytes are 0.
  unfoldable pub get_ext_by_session : T → ℕ → BiDict T → T
  get_ext_by_session zero session d = elim (find session d.ext_map) [ none ↦ zero | some ext ↦ ext ]

  -- The value, and the dictionary with an entry for the id.
  unfoldable pub get_ext_by_id : T → ℕ → BiDict T → T × BiDict T
  unfolding get_ext_by_session
  get_ext_by_id zero id d =
      let session = or_zero (find id d.forward_map) in
      let d' =
        if is_some (find id d.forward_map)
        then d
        else record d { forward_map = insert id 0 d.forward_map } in
      (if ltb 0 session then get_ext_by_session zero session d else zero, d')

  unfoldable pub get_all_sessions : BiDict T → List ℕ
  get_all_sessions d = map (λ e. e.0) d.backward_map
