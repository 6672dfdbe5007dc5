-- ===== src/Base/Maps.antt =====
-- A `std::map` as a list of entries, kept in the order of the keys as `insert` finds it: `find`,
-- `m[k] = v`, `erase` by key, and their laws, which hold of every list of entries.
use mathlib.Core.Path.{◌≡◌, refl}
use mathlib.Core.Logic.{◌↔◌, ◌⊎◌, inl, inr, ◌≢◌}
use mathlib.Core.Bool.{Bool, true, false}
use mathlib.Core.Option.{Option, none, some}
use mathlib.Core.List.{List, [], ◌∷◌}
use native.Mathlib.Omega.{arith}
use Prim.Native.Nat.{ℕ}
use android_device_xiaomi_ms.Base.Tests.{if◌then◌else◌, Bool-cases, ltb, ◌==◌, ==_iff}

-- The operators `==` and `<` of a type of keys.
pub record MapKey {ℓ} (K : Type ℓ) : Type ℓ where
  pub eq : K → K → Bool
  pub lt : K → K → Bool
  pub eq_iff : (a b : K) → (eq a b ≡ true) ↔ (a ≡ b)

instance abbrev pub nat_key : MapKey ℕ
nat_key = record { eq = ◌==◌; lt = ltb; eq_iff = ==_iff }

pub eq_refl {ℓ} : {K : Type ℓ} ⦃key : MapKey K⦄ (k : K) → key.eq k k ≡ true
eq_refl ⦃key⦄ k = (key.eq_iff k k).1 refl

module _ {ℓ κ} {K : Type ℓ} {V : Type κ} ⦃key : MapKey K⦄ where
  unfoldable pub find : K → List (K × V) → Option V
  find k [] = none
  find k ((j, v) ∷ m) = let rest = find k m in if key.eq j k then some v else rest

  unfoldable pub insert : K → V → List (K × V) → List (K × V)
  insert k v [] = (k, v) ∷ []
  insert k v ((j, w) ∷ m) =
      let rest = insert k v m in
      if key.eq j k then (k, v) ∷ m else if key.lt k j then (k, v) ∷ (j, w) ∷ m else (j, w) ∷ rest

  unfoldable pub erase : K → List (K × V) → List (K × V)
  erase k [] = []
  erase k ((j, w) ∷ m) = let rest = erase k m in if key.eq j k then rest else (j, w) ∷ rest

  pub find-insert :
      (j k : K) (v : V) (m : List (K × V))
      → find j (insert k v m) ≡ (if key.eq k j then some v else find j m)
  unfolding find insert
  find-insert j k v [] = refl
  find-insert j k v ((i, w) ∷ m) =
      ground (arith, key.eq_iff i k, key.eq_iff i j, key.eq_iff k j, find-insert j k v m)

  pub find-erase :
      (j k : K) (m : List (K × V)) → find j (erase k m) ≡ (if key.eq k j then none else find j m)
  unfolding find erase
  find-erase j k [] = ground arith
  find-erase j k ((i, w) ∷ m) =
      ground (arith, key.eq_iff i k, key.eq_iff i j, key.eq_iff k j, find-erase j k m)

pub key_cases {ℓ} : {K : Type ℓ} ⦃key : MapKey K⦄ (a b : K) → (a ≡ b) ⊎ (a ≢ b)
key_cases ⦃key⦄ a b = elim (Bool-cases (key.eq a b)) [
  | inl same ↦ inl ((key.eq_iff a b).0 same)
  | inr other ↦ inr (λ e. let hit : key.eq a b ≡ true = (key.eq_iff a b).1 e in cc)
]

module _ {ℓ} {K : Type ℓ} ⦃key : MapKey K⦄ (j k : K) where
  eq_false : k ≢ j → key.eq k j ≡ false
  eq_false n = elim (Bool-cases (key.eq k j)) [
    | inl same ↦ absurd (n ((key.eq_iff k j).0 same))
    | inr other ↦ other
  ]

module _ {ℓ κ} {K : Type ℓ} {V : Type κ} ⦃key : MapKey K⦄ (j k : K) (m : List (K × V)) where
  pub find-insert_eq : (v : V) → k ≡ j → find j (insert k v m) ≡ some v
  find-insert_eq v e = rw (find-insert j k v m, (key.eq_iff k j).1 e)

  pub find-insert_ne : (v : V) → k ≢ j → find j (insert k v m) ≡ find j m
  find-insert_ne v n = rw (find-insert j k v m, eq_false j k n)

  pub find-erase_eq : k ≡ j → find j (erase k m) ≡ none
  find-erase_eq e = rw (find-erase j k m, (key.eq_iff k j).1 e)

  pub find-erase_ne : k ≢ j → find j (erase k m) ≡ find j m
  find-erase_ne n = rw (find-erase j k m, eq_false j k n)
