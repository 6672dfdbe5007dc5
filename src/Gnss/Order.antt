-- ===== src/Gnss/Order.antt =====
-- The order of the keys in the maps of the sessions (gps/core/LocAdapterBase.h, gps/gnss/GnssAdapter.cpp).
use android_device_xiaomi_ms.Base.{
  ◌≡◌, subst, true, false, List, [], ◌∷◌, All, arith, insert, erase, Bool-cases, inl, inr,
}
use android_device_xiaomi_ms.Core.{
  SessionKey, session_key, session_key_eq, session_key_lt, session_key_eq_iff,
}

session_key_lt_total :
    (a b : SessionKey)
    → session_key_eq a b ≡ false
    → session_key_lt b a ≡ false
    → session_key_lt a b ≡ true
unfolding session_key_eq session_key_lt
session_key_lt_total a b h g = ground arith

session_key_lt_trans :
    (a b c : SessionKey)
    → session_key_lt a b ≡ true
    → session_key_lt b c ≡ true
    → session_key_lt a c ≡ true
unfolding session_key_lt
session_key_lt_trans a b c h g = ground arith

pub session_key_lt_ne : (a b : SessionKey) → session_key_lt a b ≡ true → session_key_eq b a ≡ false
unfolding session_key_eq session_key_lt
session_key_lt_ne a b h = ground arith

pub All-map {ℓ κ μ} :
    {A : Type ℓ} {P : A → Type κ} {Q : A → Type μ} (xs : List A)
    → ((x : A) → P x → Q x)
    → All P xs
    → All Q xs
All-map [] f h = tt
All-map (x ∷ xs) f (p, h) = (f x p, All-map xs f h)

module _ {ℓ} {V : Type ℓ} where
  -- The keys grow.
  abbrev pub IsSorted : List (SessionKey × V) → Type 0
  IsSorted [] = Unit
  IsSorted ((key, v) ∷ m) = All (λ e. session_key_lt key e.0 ≡ true) m × IsSorted m

  pub All-insert {κ} :
      (P : SessionKey × V → Type κ) (key : SessionKey) (v : V) (m : List (SessionKey × V))
      → P (key, v)
      → All P m
      → All P (insert key v m)
  unfolding insert
  All-insert P key v [] p h = (p, tt)
  All-insert P key v ((j, w) ∷ m) p (q, h) = elim (Bool-cases (session_key_eq j key)) [
    | inl here ↦ rw here (p, h)
    | inr other ↦ elim (Bool-cases (session_key_lt key j)) [
      | inl before ↦ rw (other, before) (p, (q, h))
      | inr after ↦ rw (other, after) (q, All-insert P key v m p h)
    ]
  ]

  -- Every key is above this one.
  abbrev IsAbove : SessionKey → List (SessionKey × V) → Type 0
  IsAbove key = All (λ e. session_key_lt key e.0 ≡ true)

  above_others {κ} :
      (P : SessionKey × V → Type κ) (key : SessionKey) (m : List (SessionKey × V))
      → IsAbove key m
      → All (λ e. session_key_eq e.0 key ≡ false → P e) m
      → All P m
  above_others P key [] bounds h = tt
  above_others P key ((j, w) ∷ m) (above, bounds) (q, h) =
      (q (session_key_lt_ne key j above), above_others P key m bounds h)

  IsAbove-eq :
      (j key : SessionKey) (m : List (SessionKey × V))
      → session_key_eq j key ≡ true
      → IsAbove j m
      → IsAbove key m
  IsAbove-eq j key m here bounds =
      subst (λ k. IsAbove k m) ((session_key_eq_iff j key).0 here) bounds

  -- An entry that is written replaces the one of its key.
  pub All-insert_others {κ} :
      (P : SessionKey × V → Type κ) (key : SessionKey) (v : V) (m : List (SessionKey × V))
      → IsSorted m
      → P (key, v)
      → All (λ e. session_key_eq e.0 key ≡ false → P e) m
      → All P (insert key v m)
  unfolding insert
  All-insert_others P key v [] s p h = (p, tt)
  All-insert_others P key v ((j, w) ∷ m) (bounds, s) p (q, h) =
      elim (Bool-cases (session_key_eq j key)) [
        | inl here ↦ rw here (p, above_others P key m (IsAbove-eq j key m here bounds) h)
        | inr other ↦ elim (Bool-cases (session_key_lt key j)) [
          | inl before ↦
              rw (other, before)
                (
                  p,
                  (
                    q other,
                    above_others P key m
                        (All-map m (λ e. session_key_lt_trans key j e.0 before) bounds) h,
                  ),
                )
          | inr after ↦ rw (other, after) (q other, All-insert_others P key v m s p h)
        ]
      ]

  pub All-erase {κ} :
      (P : SessionKey × V → Type κ) (key : SessionKey) (m : List (SessionKey × V))
      → All (λ e. session_key_eq e.0 key ≡ false → P e) m
      → All P (erase key m)
  unfolding erase
  All-erase P key [] h = tt
  All-erase P key ((j, w) ∷ m) (q, h) = elim (Bool-cases (session_key_eq j key)) [
    | inl here ↦ rw here (All-erase P key m h)
    | inr other ↦ rw other (q other, All-erase P key m h)
  ]

  pub insert-IsSorted :
      (key : SessionKey) (v : V) (m : List (SessionKey × V))
      → IsSorted m
      → IsSorted (insert key v m)
  unfolding insert
  insert-IsSorted key v [] s = (tt, tt)
  insert-IsSorted key v ((j, w) ∷ m) (bounds, s) = elim (Bool-cases (session_key_eq j key)) [
    | inl here ↦ rw here (IsAbove-eq j key m here bounds, s)
    | inr other ↦ elim (Bool-cases (session_key_lt key j)) [
      | inl before ↦
          rw (other, before)
            ((before, All-map m (λ e. session_key_lt_trans key j e.0 before) bounds), (bounds, s))
      | inr after ↦
          let is_after = session_key_lt_total j key other after in
          rw (other, after)
            (
              All-insert (λ e. session_key_lt j e.0 ≡ true) key v m is_after bounds,
              insert-IsSorted key v m s,
            )
    ]
  ]

  pub erase-IsSorted :
      (key : SessionKey) (m : List (SessionKey × V)) → IsSorted m → IsSorted (erase key m)
  unfolding erase
  erase-IsSorted key [] s = tt
  erase-IsSorted key ((j, w) ∷ m) (bounds, s) = elim (Bool-cases (session_key_eq j key)) [
    | inl here ↦ rw here (erase-IsSorted key m s)
    | inr other ↦ rw other (
      All-erase (λ e. session_key_lt j e.0 ≡ true) key m (All-map m (λ e p n. p) bounds),
      erase-IsSorted key m s,
    )
  ]
