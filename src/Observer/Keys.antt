-- ===== src/Observer/Keys.antt =====
-- What the operations of `LocUnorderedSetMap` on several keys do.
use android_device_xiaomi_ms.Base.{
  ℕ, ◌≡◌, refl, ◌∙◌, ap, Bool, true, false, not, ◌||◌, ◌&&◌, List, [], ◌∷◌, ◌==◌, find, nat_key,
  is_empty, arith, Option-cases, Bool-cases, inl, inr,
}
use android_device_xiaomi_ms.Observer.SetMap.{
  SetMap, elem, trim_set, add, add_all, trim_entry, trim_or_remove,
}
use android_device_xiaomi_ms.Observer.Entries.{
  elem-insert_value, elem-insert_values, has, has_entry, has-insert, has-erase, has-add,
  has_entry-add, has-trim_entry, trim_entry-gone_vals, trim_entry-gone_keys, has_entry-same,
  has_entry-found,
}

pub has-add_all :
    (key v : ℕ) (keys vals : List ℕ) (m : SetMap)
    → has key v (add_all keys vals m).0 ≡ (has key v m || elem key keys && elem v vals)
unfolding add_all elem
has-add_all key v [] vals m = ground arith
has-add_all key v (k ∷ keys) vals m =
    ground (arith, has-add_all key v keys vals (add k vals m).0, has-add key v k vals m)

pub has_entry-add_all :
    (key : ℕ) (keys vals : List ℕ) (m : SetMap)
    → is_empty vals ≡ false
    → (has_entry key (add_all keys vals m).0 ≡ (has_entry key m || elem key keys))
      × (elem key (add_all keys vals m).1 ≡ (elem key keys && not (has_entry key m)))
unfolding add_all elem
has_entry-add_all key [] vals m some_in = (ground arith, ground arith)
has_entry-add_all key (k ∷ keys) vals m some_in =
    let (one, new) = has_entry-add key k vals m some_in in
    let (all, fresh) = has_entry-add_all key keys vals (add k vals m).0 some_in in
    (
      ground arith,
      elim (Bool-cases (add k vals m).1) [
        | inl added ↦
            let joined = elem-insert_value key k (add_all keys vals (add k vals m).0).1 in
            rw (added, joined)
              (elim (Bool-cases (k == key)) [
                | inl same ↦ ground (arith, has_entry-same key k m same)
                | inr other ↦ ground arith
              ])
        | inr kept ↦ rw kept (elim (Bool-cases (k == key)) [
          | inl same ↦ ground (arith, has_entry-same key k m same)
          | inr other ↦ ground arith
        ])
      ],
    )

pub has-trim_or_remove :
    (key v : ℕ) (keys vals : List ℕ) (m : SetMap)
    → has key v (trim_or_remove keys vals m).trimmed
      ≡ (has key v m && not (elem key keys && elem v vals))
unfolding trim_or_remove elem
has-trim_or_remove key v [] vals m = ground arith
has-trim_or_remove key v (k ∷ keys) vals m = ground (
  arith,
  has-trim_or_remove key v keys vals (trim_entry k vals m).trimmed,
  has-trim_entry key v k vals m,
)

-- The values that a trim takes from the one entry that it is given.
pub trim_one-gone_vals :
    (v k : ℕ) (vals : List ℕ) (m : SetMap)
    → elem v (trim_or_remove (k ∷ []) vals m).gone_vals ≡ (has k v m && elem v vals)
unfolding trim_or_remove elem
trim_one-gone_vals v k vals m = ground (
  arith,
  elem-insert_values v (trim_entry k vals m).gone_vals [],
  trim_entry-gone_vals v k vals m,
)

-- A trim makes no entry.
trim_entry_makes_none :
    (key k : ℕ) (vals : List ℕ) (m : SetMap)
    → has_entry key m ≡ false
    → has_entry key (trim_entry k vals m).trimmed ≡ false
unfolding trim_entry
trim_entry_makes_none key k vals m before = elim (Option-cases (find k m)) [
  | inl missing ↦ rw (missing, trim_entry) before
  | inr (s, there) ↦ elim (Bool-cases (is_empty (trim_set s vals).0)) [
    | inl empty ↦
        let (_, now) = has-erase key 0 k m in rw (there, trim_entry) (rw empty (ground arith))
    | inr some_left ↦
        let (_, now) = has-insert key 0 k (trim_set s vals).0 m in
        let known = has_entry-found k m there in
        rw (there, trim_entry)
          (rw some_left (elim (Bool-cases (k == key)) [
            | inl same ↦ ground (arith, has_entry-same key k m same)
            | inr other ↦ ground arith
          ]))
  ]
]

trim_makes_none :
    (key : ℕ) (keys vals : List ℕ) (m : SetMap)
    → has_entry key m ≡ false
    → has_entry key (trim_or_remove keys vals m).trimmed ≡ false
unfolding trim_or_remove
trim_makes_none key [] vals m before = before
trim_makes_none key (k ∷ keys) vals m before =
    trim_makes_none key keys vals (trim_entry k vals m).trimmed
      (trim_entry_makes_none key k vals m before)

gone_in_two :
    (e0 e1 e2 : Bool)
    → (e0 ≡ false → e1 ≡ false)
    → (e1 ≡ false → e2 ≡ false)
    → ((e0 && not e1) || (e1 && not e2)) ≡ (e0 && not e2)
gone_in_two true true e2 f g = refl
gone_in_two true false e2 f g = rw (g refl) refl
gone_in_two false e1 e2 f g = rw (f refl) refl

-- The keys that a trim reports are those whose entries go.
pub trim-gone_keys :
    (key : ℕ) (keys vals : List ℕ) (m : SetMap)
    → elem key (trim_or_remove keys vals m).gone_keys
      ≡ (has_entry key m && not (has_entry key (trim_or_remove keys vals m).trimmed))
unfolding trim_or_remove elem
trim-gone_keys key [] vals m = ground arith
trim-gone_keys key (k ∷ keys) vals m =
    let first = trim_entry k vals m in
    let later = trim_or_remove keys vals first.trimmed in
    elem-insert_values key first.gone_keys later.gone_keys
    ∙ ap (λ b. b || elem key later.gone_keys) (trim_entry-gone_keys key k vals m)
    ∙ ap (λ b. (has_entry key m && not (has_entry key first.trimmed)) || b)
        (trim-gone_keys key keys vals first.trimmed)
    ∙ gone_in_two _ _ _ (trim_entry_makes_none key k vals m)
        (trim_makes_none key keys vals first.trimmed)
