-- ===== src/Gnss/MaskBits.antt =====
-- The bits of a mask of the blacklist (gps/gnss/GnssAdapter.cpp) in the loop that lists them.
use android_device_xiaomi_ms.Base.{
  ℕ, zero, suc, ◌+◌, ◌*◌, ◌%◌, ◌<◌, ◌≡◌, ◌∙◌, refl, sym, ap, true, some, arith, ◌==◌, Bool-cases,
  inl, inr,
}
use Prim.Native.Nat.{◌/◌}
use native.Mathlib.Nat.{div-eq_of_lt}
use android_device_xiaomi_ms.Gnss.Blacklist.{
  GnssSvType, GnssSvIdConfig, SvMask, glo_mask, bds_mask, qzss_mask, gal_mask, sbas_mask,
  navic_mask, mask_of, with_mask, bit, set_bit, add_source, add_sources, id_of_bit, mask_loop,
}

pub mask_of-with_mask : (m : SvMask) (v : ℕ) (c : GnssSvIdConfig) → mask_of m (with_mask m v c) ≡ v
mask_of-with_mask glo_mask v c = refl
mask_of-with_mask bds_mask v c = refl
mask_of-with_mask qzss_mask v c = refl
mask_of-with_mask gal_mask v c = refl
mask_of-with_mask sbas_mask v c = refl
mask_of-with_mask navic_mask v c = refl

pub with_mask_twice :
    (m : SvMask) (v w : ℕ) (c : GnssSvIdConfig) → with_mask m v (with_mask m w c) ≡ with_mask m v c
with_mask_twice glo_mask v w c = refl
with_mask_twice bds_mask v w c = refl
with_mask_twice qzss_mask v w c = refl
with_mask_twice gal_mask v w c = refl
with_mask_twice sbas_mask v w c = refl
with_mask_twice navic_mask v w c = refl

pub with_mask_same : (m : SvMask) (c : GnssSvIdConfig) → with_mask m (mask_of m c) c ≡ c
with_mask_same glo_mask c = refl
with_mask_same bds_mask c = refl
with_mask_same qzss_mask c = refl
with_mask_same gal_mask c = refl
with_mask_same sbas_mask c = refl
with_mask_same navic_mask c = refl

-- A bit above all that are set.
set_bit_above : (mask n : ℕ) → mask < bit n → set_bit mask n ≡ mask + bit n
unfolding set_bit
set_bit_above mask n h = let zero_above : mask / bit n ≡ 0 = div-eq_of_lt h in rw zero_above refl

-- The ids of a type stand for the bits from `low` on, `limit` of them.
abbrev pub Stands : GnssSvType → ℕ → SvMask → ℕ → ℕ → Type 0
Stands t initial m low limit =
    (n : ℕ) (c : GnssSvIdConfig)
    → n < limit
    → add_source (record { constellation = t; sv_id = id_of_bit t initial n }) c
      ≡ some (with_mask m (set_bit (mask_of m c) (n + low)) c)

odd_sum : (a b k mask : ℕ) → mask ≡ k * 2 + 1 → a + b + k * (2 * b) ≡ a + mask * b
odd_sum a b k mask e = rw e (grind arith)

even_sum : (a b k mask : ℕ) → mask ≡ k * 2 → a + k * (2 * b) ≡ a + mask * b
even_sum a b k mask e = rw e (grind arith)

bit_next : (n low : ℕ) → bit (suc n + low) ≡ 2 * bit (n + low)
bit_next n low =
    let next : suc n + low ≡ suc (n + low) = omega arith in ap bit next ∙ (unfold bit in refl)

nothing_to_set :
    (m : SvMask) (mask b : ℕ) (c : GnssSvIdConfig)
    → mask ≡ 0
    → with_mask m (mask_of m c + mask * b) c ≡ c
nothing_to_set m mask b c e =
    let same : mask_of m c + mask * b ≡ mask_of m c = rw e (grind arith) in
    ap (λ v. with_mask m v c) same ∙ with_mask_same m c

-- The loop's list sets the bits of the mask that it reads.
pub loop_sets :
    (t : GnssSvType) (initial : ℕ) (m : SvMask) (low limit : ℕ)
    → Stands t initial m low limit
    → (fuel n mask : ℕ) (c : GnssSvIdConfig) → fuel + n ≡ limit
    → mask < bit fuel
    → mask_of m c < bit (n + low)
    → add_sources (mask_loop fuel n mask initial t) c
      ≡ some (with_mask m (mask_of m c + mask * bit (n + low)) c)
unfolding add_sources mask_loop
loop_sets t initial m low limit stands zero n mask c e lt below =
    ap some (sym (nothing_to_set m mask (bit (n + low)) c (unfold bit in omega arith)))
loop_sets t initial m low limit stands (suc fuel) n mask c e lt below =
    let half : mask / 2 < bit fuel = unfold bit in omega arith in
    let next = bit_next n low in
    elim (Bool-cases (mask == 0)) [
      | inl done ↦ rw done (ap some (sym (nothing_to_set m mask (bit (n + low)) c (ground arith))))
      | inr more ↦ rw more (elim (Bool-cases (mask % 2 == 1)) [
        | inl odd ↦
            let c' = with_mask m (mask_of m c + bit (n + low)) c in
            let added : add_source (record { constellation = t; sv_id = id_of_bit t initial n }) c
                ≡ some c' =
              stands n c (omega arith)
              ∙ ap (λ v. some (with_mask m v c)) (set_bit_above (mask_of m c) (n + low) below) in
            let now_set : mask_of m c' ≡ mask_of m c + bit (n + low) = mask_of-with_mask m _ c in
            let rest =
              loop_sets t initial m low limit stands fuel (suc n) (mask / 2) c' (omega arith) half
                (omega arith) in
            let sum : mask_of m c' + mask / 2 * bit (suc n + low)
                ≡ mask_of m c + mask * bit (n + low) =
              rw (now_set, next)
                (odd_sum (mask_of m c) (bit (n + low)) (mask / 2) mask (ground arith)) in
            rw odd (
              rw (added, add_sources)
                (rest ∙ ap some (ap (λ v. with_mask m v c') sum ∙ with_mask_twice m _ _ c)))
        | inr even ↦
            let rest =
              loop_sets t initial m low limit stands fuel (suc n) (mask / 2) c (omega arith) half
                (omega arith) in
            let sum : mask_of m c + mask / 2 * bit (suc n + low)
                ≡ mask_of m c + mask * bit (n + low) =
              rw next (even_sum (mask_of m c) (bit (n + low)) (mask / 2) mask (ground arith)) in
            rw even (rest ∙ ap (λ v. some (with_mask m v c)) sum)
      ])
    ]

same_rounds :
    (fuel fuel' n mask initial : ℕ) (t : GnssSvType)
    → mask_loop fuel (suc n) (mask / 2) initial t ≡ mask_loop fuel' (suc n) (mask / 2) initial t
    → mask_loop (suc fuel) n mask initial t ≡ mask_loop (suc fuel') n mask initial t
unfolding mask_loop
same_rounds fuel fuel' n mask initial t e = rw e refl

-- More rounds than the mask has bits add nothing.
pub mask_loop_enough :
    (fuel more n mask initial : ℕ) (t : GnssSvType)
    → mask < bit fuel
    → mask_loop (fuel + more) n mask initial t ≡ mask_loop fuel n mask initial t
mask_loop_enough zero zero n mask initial t lt = refl
mask_loop_enough zero (suc more) n mask initial t lt =
    let done : (mask == 0) ≡ true = unfold bit in ground arith in
    let rounds : zero + suc more ≡ suc more = omega arith in
    rw rounds (unfold mask_loop in rw done refl)
mask_loop_enough (suc fuel) more n mask initial t lt =
    let half : mask / 2 < bit fuel = unfold bit in omega arith in
    let rounds : suc fuel + more ≡ suc (fuel + more) = omega arith in
    rw rounds (
      same_rounds (fuel + more) fuel n mask initial t
        (mask_loop_enough fuel more (suc n) (mask / 2) initial t half))
