-- ===== src/Observer/SetMap.antt =====
-- `LocUnorderedSetMap` (gps/utils/LocUnorderedSetMap.h) with numbers for keys and values: a pointer is its
-- address, NULL is 0. An `unordered_set` is a list of its elements in an order that no result depends on.
use android_device_xiaomi_ms.Base.{
  ℕ, Bool, true, false, ◌||◌, Option, none, some, List, [], ◌∷◌, ◌==◌, find, insert, erase, nat_key,
  is_empty, if◌then◌else◌,
}

unfoldable pub elem : ℕ → List ℕ → Bool
elem x [] = false
elem x (y ∷ s) = y == x || elem x s

-- `insert` of a value and of a range, and `erase`.
unfoldable pub insert_value : ℕ → List ℕ → List ℕ
unfolding elem
insert_value x s = if elem x s then s else x ∷ s

unfoldable pub insert_values : List ℕ → List ℕ → List ℕ
unfolding insert_value
insert_values [] s = s
insert_values (x ∷ xs) s = insert_value x (insert_values xs s)

unfoldable pub erase_value : ℕ → List ℕ → List ℕ
erase_value x [] = []
erase_value x (y ∷ s) = let rest = erase_value x s in if y == x then rest else y ∷ rest

-- `trimSet`: the set without the values, and those of them that were in it.
unfoldable pub trim_set : List ℕ → List ℕ → List ℕ × List ℕ
unfolding elem insert_value erase_value
trim_set s [] = (s, [])
trim_set s (v ∷ vs) =
    let (rest, gone) = trim_set (erase_value v s) vs in
    (rest, if elem v s then insert_value v gone else gone)

-- `removeAndReturnInterset`: at a common element it erases the position at which it stands and then
-- moves on from there, which has no meaning; without one it returns the empty set and changes nothing.
unfoldable pub remove_and_return_interset : List ℕ → List ℕ → Option (List ℕ)
unfolding elem
remove_and_return_interset s1 [] = some []
remove_and_return_interset s1 (b ∷ s2) =
    let later = remove_and_return_interset s1 s2 in if elem b s1 then none else later

abbrev pub SetMap : Type 0
SetMap = List (ℕ × List ℕ)

unfoldable pub get_val_set : ℕ → SetMap → List ℕ
unfolding find
get_val_set key m = elim (find key m) [ none ↦ [] | some s ↦ s ]

unfoldable pub get_keys : SetMap → List ℕ
get_keys [] = []
get_keys ((key, s) ∷ m) = key ∷ get_keys m

-- `add` at one key, and whether the entry is new.
unfoldable pub add : ℕ → List ℕ → SetMap → SetMap × Bool
unfolding find insert insert_values
add key vals m = if is_empty vals then (m, false) else elim (find key m) [
  | some s ↦ (insert key (insert_values vals s) m, false)
  | none ↦ (insert key vals m, true)
]

-- `add` at several keys, and those whose entries are new.
unfoldable pub add_all : List ℕ → List ℕ → SetMap → SetMap × List ℕ
unfolding add insert_value
add_all [] vals m = (m, [])
add_all (key ∷ keys) vals m =
    let (m', fresh) = add_all keys vals (add key vals m).0 in
    (m', if (add key vals m).1 then insert_value key fresh else fresh)

-- What a trim gives: the map, the keys and the values that are gone from it.
pub record Trimmed : Type 0 where
  pub trimmed : SetMap
  pub gone_keys : List ℕ
  pub gone_vals : List ℕ

-- `trimOrRemove` at one key.
unfoldable pub trim_entry : ℕ → List ℕ → SetMap → Trimmed
unfolding find insert erase trim_set
trim_entry key vals m = elim (find key m) [
  | none ↦ record { trimmed = m; gone_keys = []; gone_vals = [] }
  | some s ↦
      if is_empty (trim_set s vals).0
      then record { trimmed = erase key m; gone_keys = key ∷ []; gone_vals = (trim_set s vals).1 }
      else record {
        trimmed = insert key (trim_set s vals).0 m;
        gone_keys = [];
        gone_vals = (trim_set s vals).1;
      }
]

-- `trimOrRemove` at several keys.
unfoldable pub trim_or_remove : List ℕ → List ℕ → SetMap → Trimmed
unfolding trim_entry insert_values
trim_or_remove [] vals m = record { trimmed = m; gone_keys = []; gone_vals = [] }
trim_or_remove (key ∷ keys) vals m =
    let first = trim_entry key vals m in
    let later = trim_or_remove keys vals first.trimmed in
    record {
      trimmed = later.trimmed;
      gone_keys = insert_values first.gone_keys later.gone_keys;
      gone_vals = insert_values first.gone_vals later.gone_vals;
    }

-- `update`: the map and the set that it returns; where that is not meaningless, `newVals` stays as it was.
unfoldable pub update : ℕ → List ℕ → SetMap → Option (SetMap × List ℕ)
unfolding insert erase get_val_set remove_and_return_interset
update key vals m =
    if is_empty vals
    then some (erase key m, [])
    else elim (remove_and_return_interset (get_val_set key m) vals) [
      | none ↦ none
      | some gone ↦ some (insert key vals m, gone)
    ]
