-- ===== src/Agps/Distinct.antt =====
-- The connection handles under the list operations of the AGPS state machine (gps/gnss/Agps.cpp).
use android_device_xiaomi_ms.Base.{
  ℕ, zero, suc, ◌≡◌, subst, inl, inr, ◌≢◌, Bool, true, false, some, List, [], ◌∷◌, ◌++◌, arith,
  if◌then◌else◌, All, filter, get_elem?, set, Bool-cases, All-append, All-filter,
}
use android_device_xiaomi_ms.Agps.Types.{AgpsSubscriber}
use android_device_xiaomi_ms.Agps.Subscribers.{contains, add_subscriber}

abbrev pub IsAbsent : ℕ → List AgpsSubscriber → Type 0
IsAbsent h = All (λ s. s.conn_handle ≢ h)

-- No two subscribers have one handle.
abbrev pub Distinct : List AgpsSubscriber → Type 0
Distinct [] = Unit {0}
Distinct (x ∷ xs) = IsAbsent x.conn_handle xs × Distinct xs

not-contains-IsAbsent :
    (s : AgpsSubscriber) (xs : List AgpsSubscriber)
    → contains s xs ≡ false
    → IsAbsent s.conn_handle xs
unfolding contains
not-contains-IsAbsent s [] h = tt
not-contains-IsAbsent s (x ∷ xs) h = (ground arith, not-contains-IsAbsent s xs (ground arith))

Distinct-append_one :
    (s : AgpsSubscriber) (xs : List AgpsSubscriber)
    → Distinct xs
    → IsAbsent s.conn_handle xs
    → Distinct (xs ++ s ∷ [])
Distinct-append_one s [] d a = (tt, tt)
Distinct-append_one s (x ∷ xs) d a = (
  All-append (λ t. t.conn_handle ≢ x.conn_handle) xs (s ∷ []) d.0 (ground arith, tt),
  Distinct-append_one s xs d.1 a.1,
)

pub add_subscriber-Distinct :
    (s : AgpsSubscriber) (xs : List AgpsSubscriber) → Distinct xs → Distinct (add_subscriber s xs)
unfolding add_subscriber
add_subscriber-Distinct s xs d = elim (Bool-cases (contains s xs)) [
  | inl old ↦ rw (old, add_subscriber) d
  | inr new ↦ rw (new, add_subscriber) (Distinct-append_one s xs d (not-contains-IsAbsent s xs new))
]

-- An entry that keeps its handle may change.
pub set-IsAbsent :
    (h : ℕ) (xs : List AgpsSubscriber) (i : ℕ) {s : AgpsSubscriber} (b : Bool)
    → IsAbsent h xs
    → get_elem? xs i ≡ some s
    → IsAbsent h (set xs i (record s { is_inactive = b }))
set-IsAbsent h [] i b a e = tt
set-IsAbsent h (x ∷ xs) zero b a e = (ground arith, a.1)
set-IsAbsent h (x ∷ xs) (suc i) b a e = (a.0, set-IsAbsent h xs i b a.1 e)

pub set-Distinct :
    (xs : List AgpsSubscriber) (i : ℕ) {s : AgpsSubscriber} (b : Bool)
    → Distinct xs
    → get_elem? xs i ≡ some s
    → Distinct (set xs i (record s { is_inactive = b }))
set-Distinct [] i b d e = tt
set-Distinct (x ∷ xs) zero {s} b d e =
    let same : x.conn_handle ≡ s.conn_handle = ground arith in
    (subst (λ h. IsAbsent h xs) same d.0, d.1)
set-Distinct (x ∷ xs) (suc i) b d e =
    (set-IsAbsent x.conn_handle xs i b d.0 e, set-Distinct xs i b d.1 e)

pub filter-Distinct :
    (p : AgpsSubscriber → Bool) (xs : List AgpsSubscriber) → Distinct xs → Distinct (filter p xs)
filter-Distinct p [] d = d
filter-Distinct p (x ∷ xs) d =
    elim (p x) as (λ b. Distinct (if b then x ∷ filter p xs else filter p xs)) [
      | true ↦ (All-filter (λ t. t.conn_handle ≢ x.conn_handle) p xs d.0, filter-Distinct p xs d.1)
      | false ↦ filter-Distinct p xs d.1
    ]
