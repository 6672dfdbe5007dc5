-- ===== src/Client/Sound.antt =====
-- The dictionary of a client's sessions under its commands and the responses:
-- gps/location/LocationAPIClientBase.cpp.
use android_device_xiaomi_ms.Base.{
  ℕ, ◌<◌, ◌≡◌, ◌⊎◌, ◌∙◌, refl, sym, ap, true, false, none, some, List, arith, ltb, ◌==◌, nat_key,
  find, erase, find-insert_eq, find-insert_ne, find-erase_eq, find-erase_ne, key_cases, Bool-cases,
  Option-cases, inl, inr,
}
use android_device_xiaomi_ms.Client.BiDict.{
  BiDict, or_zero, is_some, has_id, has_session, set_entry, rm_by_id, rm_by_session, get_ext_by_id,
  get_ext_by_session,
}
use android_device_xiaomi_ms.Client.Mutual.{IsMutual, set_entry-IsMutual, rm_by_session-IsMutual}
use android_device_xiaomi_ms.Client.Sessions.{
  SessionEntity, zero_entity, on_fix, SessionClient, session_of, entity_of, started_entity,
  updated_entity, re_entered,
}

abbrev pub SessionDict : Type 0
SessionDict = BiDict SessionEntity

-- Ids and sessions belong to one another, and each session has an entity with its id, in which it is the
-- session of the entity's mode.
pub record IsSound (d : SessionDict) : Type 0 where
  pub belongs : IsMutual d
  pub entity :
      (s id : ℕ)
      → find s d.backward_map ≡ some id
      → (e : SessionEntity) × (find s d.ext_map ≡ some e) × (e.id ≡ id) × (session_of e ≡ s)

pub set_entry-IsSound :
    (id s : ℕ) (e : SessionEntity) (d : SessionDict)
    → IsSound d
    → find id d.forward_map ≡ none
    → find s d.backward_map ≡ none
    → 0 < s
    → e.id ≡ id
    → session_of e ≡ s
    → IsSound (set_entry id s e d)
set_entry-IsSound id s e d h new_id new_session pos its_id its_session = record {
  belongs = set_entry-IsMutual id s e d h.belongs new_id new_session pos;
  entity =
      unfold set_entry in
      λ t j found. elim (key_cases s t) [
        | inl same ↦
            let the_id : id ≡ j = let one = find-insert_eq t s d.backward_map id same in cc in
            (e, find-insert_eq t s d.ext_map e same, its_id ∙ the_id, its_session ∙ same)
        | inr other ↦
            let (e', there, same_id, same_session) =
              h.entity t j (sym (find-insert_ne t s d.backward_map id other) ∙ found) in
            (e', find-insert_ne t s d.ext_map e other ∙ there, same_id, same_session)
      ];
}

pub rm_by_session-IsSound :
    (id s : ℕ) (d : SessionDict)
    → IsSound d
    → find id d.forward_map ≡ some s
    → IsSound (rm_by_session s d)
rm_by_session-IsSound id s d h known = record {
  belongs = rm_by_session-IsMutual id s zero_entity d h.belongs known;
  entity =
      unfold rm_by_session in
      λ t j found. elim (key_cases s t) [
        | inl same ↦ absurd (let gone = find-erase_eq t s d.backward_map same in ground arith)
        | inr other ↦
            let (e, there, same_id, same_session) =
              h.entity t j (sym (find-erase_ne t s d.backward_map other) ∙ found) in
            (e, find-erase_ne t s d.ext_map other ∙ there, same_id, same_session)
      ];
}

-- Where the maps belong to one another, it is the same to remove an id or its session.
pub rm_by_id_lem :
    (id s : ℕ) (d : SessionDict)
    → IsSound d
    → find id d.forward_map ≡ some s
    → rm_by_id id d ≡ rm_by_session s d
unfolding rm_by_id rm_by_session
rm_by_id_lem id s d h known =
    let its_id : or_zero (find s d.backward_map) ≡ id = ap or_zero (h.belongs.there id s known) in
    rw (its_id, known) refl

ext_known :
    (s : ℕ) (e : SessionEntity) (d : SessionDict)
    → find s d.ext_map ≡ some e
    → get_ext_by_session zero_entity s d ≡ e
unfolding get_ext_by_session
ext_known s e d there = rw (there, get_ext_by_session) refl

-- The entity of an id that has a session.
pub entity_of_lem :
    (id s : ℕ) (c : SessionClient)
    → IsSound c.sessions
    → find id c.sessions.forward_map ≡ some s
    → ((entity_of id c).id ≡ id) × (session_of (entity_of id c) ≡ s)
unfolding get_ext_by_id
entity_of_lem id s c h known =
    let back = h.belongs.there id s known in
    let (e, there, same_id, same_session) = h.entity s id back in
    let up : ltb 0 s ≡ true = let pos = h.belongs.positive s id back in ground arith in
    let same : entity_of id c ≡ e = rw known (rw up (ext_known s e c.sessions there)) in
    (ap (λ x. x.id) same ∙ same_id, ap session_of same ∙ same_session)

pub id_known :
    (id : ℕ) (d : SessionDict) → has_id id d ≡ true → (s : ℕ) × (find id d.forward_map ≡ some s)
unfolding has_id
id_known id d known = elim (Option-cases (find id d.forward_map)) [
  | inl unknown ↦ absurd (let no = ap is_some unknown in cc)
  | inr found ↦ found
]

pub id_unknown : (id : ℕ) (d : SessionDict) → has_id id d ≡ false → find id d.forward_map ≡ none
unfolding has_id
id_unknown id d unknown = elim (Option-cases (find id d.forward_map)) [
  | inl none_there ↦ none_there
  | inr (s, found) ↦ absurd (let yes = ap is_some found in cc)
]

pub session_known :
    (s : ℕ) (d : SessionDict)
    → has_session s d ≡ true
    → (id : ℕ) × (find s d.backward_map ≡ some id)
unfolding has_session
session_known s d known = elim (Option-cases (find s d.backward_map)) [
  | inl unknown ↦ absurd (let no = ap is_some unknown in cc)
  | inr found ↦ found
]

erase_keeps_none : (j k : ℕ) (m : List (ℕ × ℕ)) → find j m ≡ none → find j (erase k m) ≡ none
erase_keeps_none j k m gone = elim (key_cases k j) [
  | inl same ↦ find-erase_eq j k m same
  | inr other ↦ find-erase_ne j k m other ∙ gone
]

pub remove_known-IsSound :
    (s : ℕ) (d : SessionDict) → IsSound d → has_session s d ≡ true → IsSound (rm_by_session s d)
remove_known-IsSound s d h known =
    let (id, there) = session_known s d known in
    rm_by_session-IsSound id s d h (h.belongs.back s id there)

started_session : (id mode s : ℕ) → session_of (started_entity id mode s) ≡ s
started_session id mode s = ground arith

pub started-IsSound :
    (id mode s : ℕ) (d : SessionDict)
    → IsSound d
    → has_id id d ≡ false
    → find s d.backward_map ≡ none
    → 0 < s
    → IsSound (set_entry id (session_of (started_entity id mode s)) (started_entity id mode s) d)
started-IsSound id mode s d h unknown fresh pos = rw (started_session id mode s) (
    set_entry-IsSound id s (started_entity id mode s) d h (id_unknown id d unknown) fresh pos refl
      (started_session id mode s))

pub started_known :
    (id mode s : ℕ) (d : SessionDict)
    → find id
        (set_entry id
          (session_of (started_entity id mode s))
          (started_entity id mode s)
          d).forward_map
      ≡ some s
unfolding set_entry
started_known id mode s d =
    find-insert_eq id id d.forward_map (session_of (started_entity id mode s)) refl
    ∙ ap some (started_session id mode s)

-- An update to a mode keeps the session, or enters the new one.
updated_session :
    (mode s : ℕ) (e : SessionEntity)
    → (session_of (updated_entity mode s e) ≡ s)
      ⊎ (session_of (updated_entity mode s e) ≡ session_of e)
updated_session mode s e = elim (Bool-cases (mode == on_fix)) [
  | inl to_fix ↦ elim (Bool-cases (e.session_mode == on_fix)) [
    | inl fix ↦ inr (rw to_fix (rw fix (rw to_fix refl)))
    | inr other ↦ inl (rw to_fix (rw other (rw to_fix refl)))
  ]
  | inr to_other ↦ elim (Bool-cases (e.session_mode == on_fix)) [
    | inl fix ↦ inl (rw to_other (rw fix (rw to_other refl)))
    | inr other ↦ inr (rw to_other (rw other (rw to_other refl)))
  ]
]

updated_id : (mode s : ℕ) (e : SessionEntity) → (updated_entity mode s e).id ≡ e.id
updated_id mode s e = ground arith

-- An entry that is replaced by one with the same id under a session that is its own or new.
re_entered-IsSound :
    (id s t : ℕ) (e : SessionEntity) (d : SessionDict)
    → IsSound d
    → find id d.forward_map ≡ some s
    → e.id ≡ id
    → session_of e ≡ t
    → 0 < t
    → (t ≡ s) ⊎ (find t d.backward_map ≡ none)
    → IsSound (re_entered id e d)
re_entered-IsSound id s t e d h known its_id its_session pos free =
    let gone : find id (rm_by_session s d).forward_map ≡ none =
      unfold rm_by_session in
      find-erase_eq id (or_zero (find s d.backward_map)) d.forward_map
        (ap or_zero (h.belongs.there id s known)) in
    let fresh : find t (rm_by_session s d).backward_map ≡ none =
      unfold rm_by_session in
      elim free [
        | inl same ↦ find-erase_eq t s d.backward_map (sym same)
        | inr new ↦ erase_keeps_none t s d.backward_map new
      ] in
    rw (its_session, rm_by_id_lem id s d h known)
      (set_entry-IsSound id t e (rm_by_session s d) (rm_by_session-IsSound id s d h known) gone
        fresh pos its_id its_session)

pub updated-IsSound :
    (id mode s : ℕ) (c : SessionClient)
    → IsSound c.sessions
    → has_id id c.sessions ≡ true
    → find s c.sessions.backward_map ≡ none
    → 0 < s
    → IsSound (re_entered id (updated_entity mode s (entity_of id c)) c.sessions)
updated-IsSound id mode s c h known fresh pos =
    let (old, there) = id_known id c.sessions known in
    let (same_id, same_session) = entity_of_lem id old c h there in
    let e = entity_of id c in
    let the_id = updated_id mode s e ∙ same_id in
    elim (updated_session mode s e) [
      | inl new ↦
          re_entered-IsSound id old s (updated_entity mode s e) c.sessions h there the_id new pos
            (inr fresh)
      | inr kept ↦
          re_entered-IsSound id old old (updated_entity mode s e) c.sessions h there the_id
            (kept ∙ same_session) (h.belongs.positive old id (h.belongs.there id old there))
            (inl refl)
    ]
