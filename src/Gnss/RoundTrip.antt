-- ===== src/Gnss/RoundTrip.antt =====
-- The masks of the blacklist (gps/gnss/GnssAdapter.cpp), turned into a list and back.
use android_device_xiaomi_ms.Base.{
  ℕ, ◌+◌, ◌-◌, ◌*◌, ◌%◌, ◌<◌, ◌≤◌, ◌≡◌, ◌∙◌, refl, sym, ap, true, false, none, some, List, [], ◌∷◌,
  ◌++◌, arith, ◌==◌, Bool-cases, Option-cases, inl, inr,
}
use Prim.Native.Nat.{◌/◌}
use android_device_xiaomi_ms.Gnss.Blacklist.{
  GnssSvType, GnssSvIdSource, GnssSvIdConfig, SvMask, glo_mask, bds_mask, qzss_mask, gal_mask,
  sbas_mask, navic_mask, mask_of, with_mask, Placing, placing_at, placing, bit, set_bit, all_bits,
  add_source, add_sources, no_bits, any_bits, convert_to_gnss_sv_id_config, id_of_bit, mask_loop,
  convert_gnss_sv_id_mask_to_list, if_any, sbas_sources, convert_from_gnss_sv_id_config,
}
use android_device_xiaomi_ms.Gnss.MaskBits.{with_mask_same, Stands, loop_sets, mask_loop_enough}

-- What is added for an id within the range of its constellation.
add_source_at :
    (t : GnssSvType) (id shift : ℕ) (p : Placing) (c : GnssSvIdConfig)
    → placing t id ≡ some p
    → 0 < id
    → p.initial_sv_id ≤ id
    → id < p.initial_sv_id + 64
    → id + p.sv_index_offset - p.initial_sv_id ≡ shift
    → shift < 64
    → add_source (record { constellation = t; sv_id = id }) c
      ≡ some (with_mask p.mask (set_bit (mask_of p.mask c) shift) c)
unfolding add_source
add_source_at t id shift p c at pos low high e small = rw (at, add_source) (ground arith)

Stands-glo : Stands GnssSvType.glonass 65 glo_mask 0 64
unfolding placing id_of_bit
Stands-glo n c lt =
    add_source_at GnssSvType.glonass (n + 65) (n + 0) _ c refl (omega arith) (omega arith)
      (omega arith) (omega arith) (omega arith)

Stands-sbas_low : Stands GnssSvType.sbas 120 sbas_mask 0 39
unfolding id_of_bit
Stands-sbas_low n c lt =
    let id : id_of_bit GnssSvType.sbas 120 n ≡ n + 120 = ground arith in
    let at : placing GnssSvType.sbas (n + 120) ≡ placing_at sbas_mask 120 0 =
      unfold placing in ground arith in
    ap (λ x. add_source (record { constellation = GnssSvType.sbas; sv_id = x }) c) id
    ∙ add_source_at GnssSvType.sbas (n + 120) (n + 0) _ c at (omega arith) (omega arith)
        (omega arith) (omega arith) (omega arith)

Stands-sbas_high : Stands GnssSvType.sbas 183 sbas_mask 39 25
unfolding id_of_bit
Stands-sbas_high n c lt =
    let id : id_of_bit GnssSvType.sbas 183 n ≡ n + 183 = ground arith in
    let at : placing GnssSvType.sbas (n + 183) ≡ placing_at sbas_mask 183 39 =
      unfold placing in ground arith in
    ap (λ x. add_source (record { constellation = GnssSvType.sbas; sv_id = x }) c) id
    ∙ add_source_at GnssSvType.sbas (n + 183) (n + 39) _ c at (omega arith) (omega arith)
        (omega arith) (omega arith) (omega arith)

Stands-bds : Stands GnssSvType.beidou 201 bds_mask 0 64
unfolding placing id_of_bit
Stands-bds n c lt =
    add_source_at GnssSvType.beidou (n + 201) (n + 0) _ c refl (omega arith) (omega arith)
      (omega arith) (omega arith) (omega arith)

Stands-qzss : Stands GnssSvType.qzss 193 qzss_mask 0 64
unfolding placing id_of_bit
Stands-qzss n c lt =
    add_source_at GnssSvType.qzss (n + 193) (n + 0) _ c refl (omega arith) (omega arith)
      (omega arith) (omega arith) (omega arith)

Stands-gal : Stands GnssSvType.galileo 301 gal_mask 0 64
unfolding placing id_of_bit
Stands-gal n c lt =
    add_source_at GnssSvType.galileo (n + 301) (n + 0) _ c refl (omega arith) (omega arith)
      (omega arith) (omega arith) (omega arith)

Stands-navic : Stands GnssSvType.navic 401 navic_mask 0 64
unfolding placing id_of_bit
Stands-navic n c lt =
    add_source_at GnssSvType.navic (n + 401) (n + 0) _ c refl (omega arith) (omega arith)
      (omega arith) (omega arith) (omega arith)

add_sources-append :
    (xs ys : List GnssSvIdSource) (c c' : GnssSvIdConfig)
    → add_sources xs c ≡ some c'
    → add_sources (xs ++ ys) c ≡ add_sources ys c'
unfolding add_sources
add_sources-append [] ys c c' e = let same : c ≡ c' = cc in rw same refl
add_sources-append (x ∷ xs) ys c c' e = elim (Option-cases (add_source x c)) [
  | inl nothing ↦ absurd (let contrary : none ≡ some c' = rw (nothing, add_sources) at e in cc)
  | inr (c1, added) ↦
      rw (added, add_sources) (add_sources-append xs ys c1 c' (rw (added, add_sources) at e))
]

-- The list of a mask within a range of bits that are not set yet.
range_sets :
    (t : GnssSvType) (initial : ℕ) (m : SvMask) (low limit more mask : ℕ) (c : GnssSvIdConfig)
    → Stands t initial m low limit
    → limit + more ≡ 64
    → mask < bit limit
    → (mask == all_bits) ≡ false
    → mask_of m c < bit low
    → add_sources (convert_gnss_sv_id_mask_to_list mask initial t) c
      ≡ some (with_mask m (mask_of m c + mask * bit low) c)
unfolding convert_gnss_sv_id_mask_to_list
range_sets t initial m low limit more mask c stands rounds lt not_full below =
    let at_low : 0 + low ≡ low = omega arith in
    let set =
      loop_sets t initial m low limit stands limit 0 mask c (omega arith) lt (rw at_low below) in
    let all_rounds : mask_loop 64 0 mask initial t ≡ mask_loop limit 0 mask initial t =
      ap (λ k. mask_loop k 0 mask initial t) (sym rounds)
      ∙ mask_loop_enough limit more 0 mask initial t lt in
    rw not_full (
      ap (λ xs. add_sources xs c) all_rounds
      ∙ set
      ∙ ap (λ k. some (with_mask m (mask_of m c + mask * bit k) c)) at_low)

-- A list of the ids of a mask, added to a configuration where the mask is empty.
list_sets :
    (t : GnssSvType) (initial : ℕ) (m : SvMask)
    → Stands t initial m 0 64
    → ((c : GnssSvIdConfig)
        → add_source (record { constellation = t; sv_id = 0 }) c ≡ some (with_mask m all_bits c))
    → (mask : ℕ) (c : GnssSvIdConfig) → mask ≤ all_bits
    → mask_of m c ≡ 0
    → add_sources (if_any mask (convert_gnss_sv_id_mask_to_list mask initial t)) c
      ≡ some (with_mask m mask c)
list_sets t initial m stands everything mask c small empty = elim (Bool-cases (mask == 0)) [
  | inl none_set ↦
      let zero_set : mask ≡ mask_of m c = ground arith in
      rw none_set (
        unfold add_sources in
        ap some (sym (ap (λ v. with_mask m v c) zero_set ∙ with_mask_same m c)))
  | inr some_set ↦ rw some_set (elim (Bool-cases (mask == all_bits)) [
    | inl full ↦
        let all : mask ≡ all_bits = ground arith in
        unfold convert_gnss_sv_id_mask_to_list in
        rw full (
          unfold add_sources in
          rw (everything c, add_sources) (ap (λ v. some (with_mask m v c)) (sym all)))
    | inr not_full ↦
        let sum : mask_of m c + mask * bit 0 ≡ mask = unfold bit in rw empty (omega arith) in
        range_sets t initial m 0 64 0 mask c stands refl (unfold bit in ground arith) not_full
          (unfold bit in omega arith)
        ∙ ap (λ v. some (with_mask m v c)) sum
  ])
]

-- The two ranges of SBAS.
sbas_sets :
    (mask : ℕ) (c : GnssSvIdConfig)
    → mask ≤ all_bits
    → c.sba ≡ 0
    → add_sources (if_any mask (sbas_sources mask)) c ≡ some (with_mask sbas_mask mask c)
sbas_sets mask c small empty = elim (Bool-cases (mask == 0)) [
  | inl none_set ↦
      let zero_set : mask ≡ c.sba = ground arith in
      rw none_set (unfold add_sources in ap (λ v. some (with_mask sbas_mask v c)) (sym zero_set))
  | inr some_set ↦ rw some_set (
      let low = mask * 33554432 % 18446744073709551616 / 33554432 in
      let high = mask / 549755813888 in
      let c' = with_mask sbas_mask (c.sba + low * bit 0) c in
      let first =
        range_sets GnssSvType.sbas 120 sbas_mask 0 39 25 low c Stands-sbas_low refl
          (unfold bit in omega arith) (ground arith) (unfold bit in omega arith) in
      let second =
        range_sets GnssSvType.sbas 183 sbas_mask 39 25 39 high c' Stands-sbas_high refl
          (unfold bit in omega arith) (ground arith) (unfold bit in omega arith) in
      unfold sbas_sources in
      add_sources-append _ _ c c' first
      ∙ second
      ∙ ap (λ v. some (with_mask sbas_mask v c)) (unfold bit in omega arith))
]

-- All masks have 64 bits.
pub record IsWords (c : GnssSvIdConfig) : Type 0 where
  pub glo : c.glo ≤ all_bits
  pub bds : c.bds ≤ all_bits
  pub qzs : c.qzs ≤ all_bits
  pub gal : c.gal ≤ all_bits
  pub sba : c.sba ≤ all_bits
  pub nav : c.nav ≤ all_bits

-- The list of a configuration, added to an empty one.
sources_set :
    (c : GnssSvIdConfig)
    → IsWords c
    → add_sources (convert_from_gnss_sv_id_config c) no_bits ≡ some c
unfolding convert_from_gnss_sv_id_config
sources_set c h =
    let c1 : GnssSvIdConfig = record no_bits { bds = c.bds } in
    let c2 : GnssSvIdConfig = record c1 { gal = c.gal } in
    let c3 : GnssSvIdConfig = record c2 { glo = c.glo } in
    let c4 : GnssSvIdConfig = record c3 { qzs = c.qzs } in
    let c5 : GnssSvIdConfig = record c4 { sba = c.sba } in
    add_sources-append _ _ no_bits c1 (
      list_sets GnssSvType.beidou 201 bds_mask Stands-bds (λ e. unfold add_source placing in refl)
        c.bds no_bits h.bds refl)
    ∙ add_sources-append _ _ c1 c2 (
        list_sets GnssSvType.galileo 301 gal_mask Stands-gal
          (λ e. unfold add_source placing in refl) c.gal c1 h.gal refl)
    ∙ add_sources-append _ _ c2 c3 (
        list_sets GnssSvType.glonass 65 glo_mask Stands-glo (λ e. unfold add_source placing in refl)
          c.glo c2 h.glo refl)
    ∙ add_sources-append _ _ c3 c4 (
        list_sets GnssSvType.qzss 193 qzss_mask Stands-qzss (λ e. unfold add_source placing in refl)
          c.qzs c3 h.qzs refl)
    ∙ add_sources-append _ _ c4 c5 (sbas_sets c.sba c4 h.sba refl)
    ∙ list_sets GnssSvType.navic 401 navic_mask Stands-navic
        (λ e. unfold add_source placing in refl) c.nav c5 h.nav refl

-- The result of a list that adds up to `c`.
finished :
    (xs : List GnssSvIdSource) (c : GnssSvIdConfig)
    → add_sources xs no_bits ≡ some c
    → any_bits c ≡ true
    → convert_to_gnss_sv_id_config xs no_bits ≡ some (c, true)
unfolding convert_to_gnss_sv_id_config
finished [] c added some_set = let same : no_bits ≡ c = unfold add_sources in cc in rw same refl
finished (x ∷ xs) c added some_set = rw (added, convert_to_gnss_sv_id_config) (rw some_set refl)

empty_trip :
    convert_to_gnss_sv_id_config (convert_from_gnss_sv_id_config no_bits) no_bits
    ≡ some (no_bits, true)
unfolding convert_to_gnss_sv_id_config convert_from_gnss_sv_id_config
empty_trip = refl

-- A blacklist whose masks have 64 bits each is turned into a list by `convertFromGnssSvIdConfig`, from
-- which `convertToGnssSvIdConfig`, starting with empty masks, gets the same masks back, with success:
-- also where all satellites of a constellation are named by the id 0, for both ranges of SBAS, and for
-- a blacklist that is empty.
pub convert_to-convert_from :
    (c : GnssSvIdConfig)
    → IsWords c
    → convert_to_gnss_sv_id_config (convert_from_gnss_sv_id_config c) no_bits ≡ some (c, true)
convert_to-convert_from c h = elim (Bool-cases (any_bits c)) [
  | inl some_set ↦ finished (convert_from_gnss_sv_id_config c) c (sources_set c h) some_set
  | inr none_set ↦
      let same : c ≡ no_bits = ground arith in
      ap (λ x. convert_to_gnss_sv_id_config (convert_from_gnss_sv_id_config x) no_bits) same
      ∙ empty_trip
      ∙ ap (λ x. some (x, true)) (sym same)
]

shifted_too_far :
    (id : ℕ) (c : GnssSvIdConfig)
    → 208 ≤ id
    → id < 247
    → add_source (record { constellation = GnssSvType.sbas; sv_id = id }) c ≡ none
unfolding add_source
shifted_too_far id c low high =
    let at : placing GnssSvType.sbas id ≡ placing_at sbas_mask 183 39 =
      unfold placing in ground arith in
    rw (at, add_source) (ground arith)

-- For an SBAS id from 208 to 246, which the code takes for a valid one, a number of 64 bits is shifted
-- by 64 or more, which has no meaning, whatever ids come after it.
pub sbas_shift_too_far :
    (id : ℕ) (rest : List GnssSvIdSource) (c : GnssSvIdConfig)
    → 208 ≤ id
    → id < 247
    → convert_to_gnss_sv_id_config (record { constellation = GnssSvType.sbas; sv_id = id } ∷ rest) c
      ≡ none
unfolding convert_to_gnss_sv_id_config add_sources
sbas_shift_too_far id rest c low high =
    rw (shifted_too_far id c low high, convert_to_gnss_sv_id_config, add_sources) refl
