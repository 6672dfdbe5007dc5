-- ===== src/Observer/Entries.antt =====
-- What the operations of `LocUnorderedSetMap` do to the values of a key.
use android_device_xiaomi_ms.Base.{
  ℕ, ◌≡◌, refl, sym, ◌∙◌, ap, Bool, true, false, not, ◌||◌, ◌&&◌, none, some, List, [], ◌∷◌, ◌==◌,
  ==_iff, find, insert, erase, nat_key, find-insert, find-erase, is_empty, if◌then◌else◌, arith,
  Option-cases, Bool-cases, inl, inr,
}
use android_device_xiaomi_ms.Observer.SetMap.{
  SetMap, elem, insert_value, insert_values, erase_value, trim_set, get_val_set, add, trim_entry,
}

pub elem-insert_value : (x y : ℕ) (s : List ℕ) → elem x (insert_value y s) ≡ (y == x || elem x s)
unfolding insert_value elem
elem-insert_value x y s = elim (Bool-cases (elem y s)) [
  | inl there ↦ elim (Bool-cases (y == x)) [
    | inl same ↦ let e : y ≡ x = ground arith in rw there (rw same (rw (sym e) there))
    | inr other ↦ rw there (rw other refl)
  ]
  | inr missing ↦ rw missing refl
]

pub elem-insert_values :
    (x : ℕ) (xs s : List ℕ) → elem x (insert_values xs s) ≡ (elem x xs || elem x s)
unfolding insert_values elem
elem-insert_values x [] s = refl
elem-insert_values x (y ∷ xs) s =
    ground (arith, elem-insert_value x y (insert_values xs s), elem-insert_values x xs s)

pub elem-erase_value :
    (x y : ℕ) (s : List ℕ) → elem x (erase_value y s) ≡ (elem x s && not (y == x))
unfolding erase_value elem
elem-erase_value x y [] = refl
elem-erase_value x y (z ∷ s) = ground (arith, elem-erase_value x y s)

elem-same : (x y : ℕ) (s : List ℕ) → (y == x) ≡ true → elem y s ≡ elem x s
elem-same x y s e = ap (λ z. elem z s) ((==_iff y x).0 e)

pub elem-trim_set :
    (x : ℕ) (s vs : List ℕ)
    → (elem x (trim_set s vs).0 ≡ (elem x s && not (elem x vs)))
      × (elem x (trim_set s vs).1 ≡ (elem x s && elem x vs))
unfolding trim_set elem
elem-trim_set x s [] = (ground arith, ground arith)
elem-trim_set x s (v ∷ vs) =
    let (left, gone) = elem-trim_set x (erase_value v s) vs in
    let erased = elem-erase_value x v s in
    (
      ground arith,
      elim (Bool-cases (elem v s)) [
        | inl there ↦ elim (Bool-cases (v == x)) [
          | inl same ↦
              rw
                (
                  there,
                  elem-insert_value x v (trim_set (erase_value v s) vs).1,
                  same,
                  sym (elem-same x v s same),
                  there,
                )
                refl
          | inr other ↦
              rw (there, elem-insert_value x v (trim_set (erase_value v s) vs).1, other)
                (ground arith)
        ]
        | inr missing ↦ elim (Bool-cases (v == x)) [
          | inl same ↦
              let absent : elem x s ≡ false = sym (elem-same x v s same) ∙ missing in
              rw missing (ground arith)
          | inr other ↦ rw missing (ground arith)
        ]
      ],
    )

empty-elem : (x : ℕ) (s : List ℕ) → is_empty s ≡ true → elem x s ≡ false
unfolding elem
empty-elem x [] e = refl
empty-elem x (y ∷ s) e = absurd (ground arith)

-- Is the value among those of the key?
unfoldable pub has : ℕ → ℕ → SetMap → Bool
unfolding elem get_val_set
has key v m = elem v (get_val_set key m)

-- Is there an entry for the key?
unfoldable pub has_entry : ℕ → SetMap → Bool
unfolding find
has_entry key m = elim (find key m) [ none ↦ false | some s ↦ true ]

pub has-insert :
    (key v k : ℕ) (s : List ℕ) (m : SetMap)
    → (has key v (insert k s m) ≡ (if k == key then elem v s else has key v m))
      × (has_entry key (insert k s m) ≡ (k == key || has_entry key m))
unfolding has has_entry get_val_set
has-insert key v k s m =
    (ground (arith, find-insert key k s m), ground (arith, find-insert key k s m))

pub has-erase :
    (key v k : ℕ) (m : SetMap)
    → (has key v (erase k m) ≡ (has key v m && not (k == key)))
      × (has_entry key (erase k m) ≡ (has_entry key m && not (k == key)))
unfolding has has_entry get_val_set elem
has-erase key v k m = (ground (arith, find-erase key k m), ground (arith, find-erase key k m))

has_entry_lem : (key v : ℕ) (m : SetMap) → has_entry key m ≡ false → has key v m ≡ false
unfolding has has_entry get_val_set elem
has_entry_lem key v m e = ground arith

has-found : (key v : ℕ) {s : List ℕ} (m : SetMap) → find key m ≡ some s → has key v m ≡ elem v s
unfolding has get_val_set
has-found key v m e = ground arith

has-missing : (key v : ℕ) (m : SetMap) → find key m ≡ none → has key v m ≡ false
unfolding has get_val_set elem
has-missing key v m e = ground arith

pub has_entry-find : (key : ℕ) (m : SetMap) → find key m ≡ none → has_entry key m ≡ false
unfolding has_entry
has_entry-find key m e = ground arith

pub has_entry-found :
    (key : ℕ) {s : List ℕ} (m : SetMap) → find key m ≡ some s → has_entry key m ≡ true
unfolding has_entry
has_entry-found key m e = ground arith

pub has-same : (key k v : ℕ) (m : SetMap) → (k == key) ≡ true → has k v m ≡ has key v m
has-same key k v m e = ap (λ z. has z v m) ((==_iff k key).0 e)

pub has_entry-same : (key k : ℕ) (m : SetMap) → (k == key) ≡ true → has_entry k m ≡ has_entry key m
has_entry-same key k m e = ap (λ z. has_entry z m) ((==_iff k key).0 e)

pub has-add :
    (key v k : ℕ) (vals : List ℕ) (m : SetMap)
    → has key v (add k vals m).0 ≡ (has key v m || k == key && elem v vals)
unfolding add
has-add key v k vals m = elim (Bool-cases (is_empty vals)) [
  | inl empty ↦
      let none_in : elem v vals ≡ false = empty-elem v vals empty in rw empty (ground arith)
  | inr some_in ↦ elim (Option-cases (find k m)) [
    | inl missing ↦
        let (now, _) = has-insert key v k vals m in
        let before = has-missing k v m missing in
        rw some_in (
          rw (missing, add)
            (elim (Bool-cases (k == key)) [
              | inl same ↦ ground (arith, now, before, has-same key k v m same)
              | inr other ↦ ground (arith, now)
            ]))
    | inr (s, there) ↦
        let (now, _) = has-insert key v k (insert_values vals s) m in
        let before = has-found k v m there in
        let joined = elem-insert_values v vals s in
        rw some_in (
          rw (there, add)
            (elim (Bool-cases (k == key)) [
              | inl same ↦ ground (arith, now, before, joined, has-same key k v m same)
              | inr other ↦ ground (arith, now)
            ]))
  ]
]

-- `add` makes an entry exactly if it says so.
pub has_entry-add :
    (key k : ℕ) (vals : List ℕ) (m : SetMap)
    → is_empty vals ≡ false
    → (has_entry key (add k vals m).0 ≡ (has_entry key m || k == key))
      × ((add k vals m).1 ≡ not (has_entry k m))
unfolding add
has_entry-add key k vals m some_in = elim (Option-cases (find k m)) [
  | inl missing ↦
      let (_, now) = has-insert key 0 k vals m in
      let before = has_entry-find k m missing in
      rw some_in (rw (missing, add) (ground (arith, now), ground arith))
  | inr (s, there) ↦
      let (_, now) = has-insert key 0 k (insert_values vals s) m in
      let before = has_entry-found k m there in
      rw some_in (rw (there, add) (ground (arith, now), ground arith))
]

pub has-trim_entry :
    (key v k : ℕ) (vals : List ℕ) (m : SetMap)
    → has key v (trim_entry k vals m).trimmed ≡ (has key v m && not (k == key && elem v vals))
unfolding trim_entry
has-trim_entry key v k vals m = elim (Option-cases (find k m)) [
  | inl missing ↦
      let before = has-missing k v m missing in
      rw (missing, trim_entry)
        (elim (Bool-cases (k == key)) [
          | inl same ↦ ground (arith, before, has-same key k v m same)
          | inr other ↦ ground arith
        ])
  | inr (s, there) ↦
      let before = has-found k v m there in
      let (left, _) = elem-trim_set v s vals in
      elim (Bool-cases (is_empty (trim_set s vals).0)) [
        | inl empty ↦
            let none_left = empty-elem v (trim_set s vals).0 empty in
            let (now, _) = has-erase key v k m in
            rw (there, trim_entry)
              (rw empty (elim (Bool-cases (k == key)) [
                | inl same ↦ ground (arith, now, before, has-same key k v m same, left, none_left)
                | inr other ↦ ground (arith, now)
              ]))
        | inr some_left ↦
            let (now, _) = has-insert key v k (trim_set s vals).0 m in
            rw (there, trim_entry)
              (rw some_left (elim (Bool-cases (k == key)) [
                | inl same ↦ ground (arith, now, before, has-same key k v m same, left)
                | inr other ↦ ground (arith, now)
              ]))
      ]
]

-- The values that a trim takes from one entry.
pub trim_entry-gone_vals :
    (v k : ℕ) (vals : List ℕ) (m : SetMap)
    → elem v (trim_entry k vals m).gone_vals ≡ (has k v m && elem v vals)
unfolding trim_entry elem
trim_entry-gone_vals v k vals m = elim (Option-cases (find k m)) [
  | inl missing ↦ rw (missing, trim_entry) (ground (arith, has-missing k v m missing))
  | inr (s, there) ↦
      let before = has-found k v m there in
      let (_, gone) = elem-trim_set v s vals in
      rw (there, trim_entry)
        (elim (Bool-cases (is_empty (trim_set s vals).0)) [
          | inl empty ↦ rw empty (ground arith)
          | inr some_left ↦ rw some_left (ground arith)
        ])
]

-- The key that a trim of one entry reports is the one whose entry goes.
pub trim_entry-gone_keys :
    (key k : ℕ) (vals : List ℕ) (m : SetMap)
    → elem key (trim_entry k vals m).gone_keys
      ≡ (has_entry key m && not (has_entry key (trim_entry k vals m).trimmed))
unfolding trim_entry elem
trim_entry-gone_keys key k vals m = elim (Option-cases (find k m)) [
  | inl missing ↦ rw (missing, trim_entry) (ground arith)
  | inr (s, there) ↦
      let before = has_entry-found k m there in
      elim (Bool-cases (is_empty (trim_set s vals).0)) [
        | inl empty ↦
            let (_, now) = has-erase key 0 k m in
            rw (there, trim_entry)
              (rw empty (elim (Bool-cases (k == key)) [
                | inl same ↦ ground (arith, now, before, has_entry-same key k m same)
                | inr other ↦ ground (arith, now)
              ]))
        | inr some_left ↦
            let (_, now) = has-insert key 0 k (trim_set s vals).0 m in
            rw (there, trim_entry) (rw some_left (ground (arith, now)))
      ]
]
