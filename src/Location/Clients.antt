-- ===== src/Location/Clients.antt =====
-- To which adapters a client is added (gps/location/LocationAPI.cpp).
use android_device_xiaomi_ms.Base.{
  ℕ, ◌≡◌, ◌≢◌, refl, ◌∙◌, ap, Bool, true, false, not, ◌&&◌, ◌||◌, some, List, [], ◌∷◌, ◌++◌, map,
  filter, All, find, insert, nat_key, find-insert_eq, Bool-cases, inl, inr, if◌then◌else◌, if_both,
  ◌==◌, arith,
}
use android_device_xiaomi_ms.Core.{add32}
use android_device_xiaomi_ms.Location.Types.{
  LocationCallbacks, AdapterType, Adapters, at, set_at, Interface, LocationApiData, Output,
  add_client, request_capabilities, create_os_framework,
}
use android_device_xiaomi_ms.Location.Api.{
  is_client_of, load, add_to, add_to_adapters, has_mandatory, create_instance,
}

abbrev pub is_add_client : Output → Bool
is_add_client (add_client t client c) = true
is_add_client _ = false

abbrev pub is_request_capabilities : Output → Bool
is_request_capabilities (request_capabilities t client) = true
is_request_capabilities _ = false

-- Does the client have callbacks of the adapter, and is the adapter there or can it be loaded?
unfoldable pub serves :
    (AdapterType → Bool) → LocationCallbacks → LocationApiData → AdapterType → Bool
serves is_available c d t =
    is_client_of t c
    && ((at t d.interfaces).is_loaded || (not (at t d.interfaces).load_failed && is_available t))

-- What adding the client to one adapter does.
record Added (is_available : AdapterType → Bool) (client : ℕ) (c : LocationCallbacks)
    (t : AdapterType) (requested : Bool) (d : LocationApiData) (now : Bool) (e : LocationApiData)
    (calls : List Output) : Type 0 where
  requests : now ≡ (if serves is_available c d t then true else requested)
  adds :
      filter is_add_client calls
      ≡ (if serves is_available c d t then add_client t client c ∷ [] else [])
  asks : filter is_request_capabilities calls ≡ (
      if serves is_available c d t
      then if requested then [] else request_capabilities t client ∷ []
      else [])
  loads : serves is_available c d t ≡ true → (at t e.interfaces).is_loaded ≡ true
  keeps : (s : AdapterType) → s ≢ t → at s e.interfaces ≡ at s d.interfaces

at-set_at : (t : AdapterType) (i : Interface) (x : Adapters Interface) → at t (set_at t i x) ≡ i
at-set_at AdapterType.gnss_type i x = refl
at-set_at AdapterType.batching_type i x = refl
at-set_at AdapterType.geofence_type i x = refl

at-set_at_ne :
    (s t : AdapterType) (i : Interface) (x : Adapters Interface)
    → s ≢ t
    → at s (set_at t i x) ≡ at s x
at-set_at_ne AdapterType.gnss_type AdapterType.gnss_type i x n = absurd (n refl)
at-set_at_ne AdapterType.gnss_type AdapterType.batching_type i x n = refl
at-set_at_ne AdapterType.gnss_type AdapterType.geofence_type i x n = refl
at-set_at_ne AdapterType.batching_type AdapterType.gnss_type i x n = refl
at-set_at_ne AdapterType.batching_type AdapterType.batching_type i x n = absurd (n refl)
at-set_at_ne AdapterType.batching_type AdapterType.geofence_type i x n = refl
at-set_at_ne AdapterType.geofence_type AdapterType.gnss_type i x n = refl
at-set_at_ne AdapterType.geofence_type AdapterType.batching_type i x n = refl
at-set_at_ne AdapterType.geofence_type AdapterType.geofence_type i x n = absurd (n refl)

-- What loading an adapter does.
load_lem :
    (is_available : AdapterType → Bool) (t : AdapterType) (d : LocationApiData)
    → let e = (load is_available t d).0 in
      let i = at t d.interfaces in
      ((at t e.interfaces).is_loaded ≡ (i.is_loaded || (not i.load_failed && is_available t)))
      × ((s : AdapterType) → s ≢ t → at s e.interfaces ≡ at s d.interfaces)
unfolding load
load_lem is_available t d =
    let i = at t d.interfaces in
    elim (Bool-cases (i.is_loaded || i.load_failed)) [
      | inl there ↦ rw there (ground arith, λ s n. refl)
      | inr missing ↦ elim (Bool-cases (is_available t)) [
        | inl found ↦
            rw (missing, found)
              (
                rw (at-set_at t _ d.interfaces) (ground arith),
                λ s n. at-set_at_ne s t _ d.interfaces n,
              )
        | inr failed ↦
            rw (missing, failed)
              (
                rw (at-set_at t _ d.interfaces) (ground arith),
                λ s n. at-set_at_ne s t _ d.interfaces n,
              )
      ]
    ]

add_to-Added :
    (is_available : AdapterType → Bool) (client : ℕ) (c : LocationCallbacks) (t : AdapterType)
    (requested : Bool) (d : LocationApiData)
    → let (now, e, calls) = add_to is_available client c t requested d in
      Added is_available client c t requested d now e calls
unfolding add_to serves
add_to-Added is_available client c t requested d =
    let (there, others) = load_lem is_available t d in
    record {
      requests = ground arith;
      adds = ground arith;
      asks = ground arith;
      loads = λ h. ground arith;
      keeps = λ s n. let same = others s n in ground arith;
    }

abbrev pub every_adapter : List AdapterType
every_adapter = AdapterType.gnss_type ∷ AdapterType.batching_type ∷ AdapterType.geofence_type ∷ []

-- The adapters that the client is added to, in the order of the code.
abbrev pub serving : (AdapterType → Bool) → LocationCallbacks → LocationApiData → List AdapterType
serving is_available c d = filter (serves is_available c d) every_adapter

abbrev pub first {ℓ} : {A : Type ℓ} → List A → List A
first [] = []
first (x ∷ xs) = x ∷ []

pub filter-append {ℓ} :
    {A : Type ℓ} (p : A → Bool) (xs ys : List A) → filter p (xs ++ ys) ≡ filter p xs ++ filter p ys
filter-append p [] ys = refl
filter-append p (x ∷ xs) ys = elim (Bool-cases (p x)) [
  | inl kept ↦ rw kept (ap (λ l. x ∷ l) (filter-append p xs ys))
  | inr dropped ↦ rw dropped (filter-append p xs ys)
]

serves-keeps :
    (is_available : AdapterType → Bool) (c : LocationCallbacks) (d e : LocationApiData)
    (t : AdapterType)
    → at t e.interfaces ≡ at t d.interfaces
    → serves is_available c e t ≡ serves is_available c d t
unfolding serves
serves-keeps is_available c d e t same =
    ap (λ i. is_client_of t c && (i.is_loaded || (not i.load_failed && is_available t))) same

All-filter_of {ℓ κ} :
    {A : Type ℓ} (P : A → Type κ) (p : A → Bool) (xs : List A)
    → ((x : A) → p x ≡ true → P x)
    → All P (filter p xs)
All-filter_of P p [] h = tt
All-filter_of P p (x ∷ xs) h = elim (Bool-cases (p x)) [
  | inl kept ↦ rw kept (h x kept, All-filter_of P p xs h)
  | inr dropped ↦ rw dropped (All-filter_of P p xs h)
]

-- What the additions say together.
record AddedToAll (is_available : AdapterType → Bool) (client : ℕ) (c : LocationCallbacks)
    (ts : List AdapterType) (e : LocationApiData) (calls : List Output) : Type 0 where
  pub adds : filter is_add_client calls ≡ map (λ t. add_client t client c) ts
  pub asks :
      filter is_request_capabilities calls ≡ map (λ t. request_capabilities t client) (first ts)
  pub loads : All (λ t. (at t e.interfaces).is_loaded ≡ true) ts

three_additions :
    (is_available : AdapterType → Bool) (client : ℕ) (c : LocationCallbacks) {now1 now2 now3 : Bool}
    (d d1 d2 d3 : LocationApiData) (calls1 calls2 calls3 : List Output)
    → Added is_available client c AdapterType.gnss_type false d now1 d1 calls1
    → Added is_available client c AdapterType.batching_type now1 d1 now2 d2 calls2
    → Added is_available client c AdapterType.geofence_type now2 d2 now3 d3 calls3
    → AddedToAll is_available client c (serving is_available c d) d3 (calls1 ++ calls2 ++ calls3)
three_additions is_available client c {now1} {now2} {now3} d d1 d2 d3 calls1 calls2 calls3 r1 r2
      r3 =
    let kept2 = r1.keeps AdapterType.batching_type (λ e. ground arith) in
    let same2 = serves-keeps is_available c d d1 AdapterType.batching_type kept2 in
    let kept3 =
      r2.keeps AdapterType.geofence_type (λ e. ground arith)
      ∙ r1.keeps AdapterType.geofence_type (λ e. ground arith) in
    let same3 = serves-keeps is_available c d d2 AdapterType.geofence_type kept3 in
    let gnss_stays =
      r3.keeps AdapterType.gnss_type (λ e. ground arith)
      ∙ r2.keeps AdapterType.gnss_type (λ e. ground arith) in
    let batching_stays = r3.keeps AdapterType.batching_type (λ e. ground arith) in
    let requests1 = r1.requests in
    let adds1 = r1.adds in
    let asks1 = r1.asks in
    let loads1 = r1.loads in
    let requests2 = r2.requests in
    let adds2 = r2.adds in
    let asks2 = r2.asks in
    let loads2 = r2.loads in
    let adds3 = r3.adds in
    let asks3 = r3.asks in
    let loads3 = r3.loads in
    record {
      adds =
          rw
            (
              filter-append is_add_client (calls1 ++ calls2) calls3,
              filter-append is_add_client calls1 calls2,
              adds1,
              adds2,
              adds3,
              same2,
              same3,
            )
            (ground arith);
      asks =
          rw
            (
              filter-append is_request_capabilities (calls1 ++ calls2) calls3,
              filter-append is_request_capabilities calls1 calls2,
              asks1,
              asks2,
              asks3,
              same2,
              same3,
              requests2,
              requests1,
              same2,
            )
            (ground arith);
      loads =
          All-filter_of (λ t. (at t d3.interfaces).is_loaded ≡ true) (serves is_available c d)
            every_adapter
            (λ t.
              elim t
                as (λ t. serves is_available c d t ≡ true → (at t d3.interfaces).is_loaded ≡ true) [
                  | AdapterType.gnss_type ↦ λ h. ap (λ i. i.is_loaded) gnss_stays ∙ loads1 h
                  | AdapterType.batching_type ↦
                      λ h. ap (λ i. i.is_loaded) batching_stays ∙ loads2 (same2 ∙ h)
                  | AdapterType.geofence_type ↦ λ h. loads3 (same3 ∙ h)
                ]);
    }

-- With its mandatory callbacks, a new client is created and is found with its callbacks; it is added to
-- just the adapters that it has callbacks of and that are loaded or can be loaded now, in the order of the
-- code, each of which is then loaded; and only the first of these is asked for its capabilities, once.
pub create_instance_lem :
    (is_available : AdapterType → Bool) (client : ℕ) (c : LocationCallbacks) (d : LocationApiData)
    → has_mandatory c ≡ true
    → let ts = serving is_available c d in
      (e : LocationApiData) × (calls : List Output) × (create_instance is_available client c d
        ≡ some (e, calls))
      × (find client e.client_data ≡ some c)
      × (filter is_add_client calls ≡ map (λ t. add_client t client c) ts)
      × (filter is_request_capabilities calls ≡ map (λ t. request_capabilities t client) (first ts))
      × All (λ t. (at t e.interfaces).is_loaded ≡ true) ts
unfolding create_instance add_to_adapters serves
create_instance_lem is_available client c d mandatory =
    let count = add32 d.os_framework_ref_count 1 in
    let counted = record d { os_framework_ref_count = count } in
    let first1 = add_to is_available client c AdapterType.gnss_type false counted in
    let second = add_to is_available client c AdapterType.batching_type first1.0 first1.1 in
    let third = add_to is_available client c AdapterType.geofence_type second.0 second.1 in
    let calls = first1.2 ++ second.2 ++ third.2 in
    let all =
      three_additions is_available client c counted first1.1 second.1 third.1 first1.2 second.2
        third.2 (add_to-Added is_available client c AdapterType.gnss_type false counted)
        (add_to-Added is_available client c AdapterType.batching_type first1.0 first1.1)
        (add_to-Added is_available client c AdapterType.geofence_type second.0 second.1) in
    let adds = all.adds in
    let asks = all.asks in
    (
      record third.1 { client_data = insert client c third.1.client_data },
      (if count == 1 then create_os_framework ∷ [] else []) ++ calls,
      rw mandatory refl,
      find-insert_eq client client third.1.client_data c refl,
      if_both
          (λ l.
            filter is_add_client (l ++ calls)
            ≡ map (λ t. add_client t client c) (serving is_available c counted))
          (count == 1) adds adds,
      if_both
          (λ l.
            filter is_request_capabilities (l ++ calls)
            ≡ map (λ t. request_capabilities t client) (first (serving is_available c counted)))
          (count == 1) asks asks,
      all.loads,
    )
