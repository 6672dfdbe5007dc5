-- ===== src/Observer/Switches.antt =====
-- The counts of `turnOn` and `turnOff` (gps/core/SystemStatusOsObserver.cpp).
use android_device_xiaomi_ms.Base.{
  ℕ, ◌+◌, ◌-◌, ◌≤◌, ◌≡◌, true, none, some, [], ◌∷◌, ◌==◌, ==_iff, find, nat_key, find-insert,
  find-erase, if◌then◌else◌, arith, Option-cases, Bool-cases, inl, inr,
}
use android_device_xiaomi_ms.Observer.Subscriptions.{
  Observer, turn_on_item, turn_off_item, turn_on, turn_off,
}

-- How many requests for an item are active.
unfoldable pub requests : ℕ → Observer → ℕ
unfolding find
requests d o = elim (find d o.active_request_count) [ none ↦ 0 | some n ↦ n ]

-- No count is 0.
abbrev pub IsCounted : Observer → Type 0
IsCounted o = (d n : ℕ) → find d o.active_request_count ≡ some n → 1 ≤ n

-- With a framework object and no count at 0, `turnOn` counts one more request and calls the framework at
-- the first, `turnOff` counts one less and calls it at the last, at none it does nothing; no count is then
-- 0, and no other item's count changes.
pub turn_on_off_lem :
    (d : ℕ) (o : Observer)
    → o.has_framework_action_req_obj ≡ true
    → IsCounted o
    → ((turn_on d o).1 ≡ (if requests d o == 0 then turn_on_item d ∷ [] else []))
      × IsCounted (turn_on d o).0
      × ((turn_off d o).1 ≡ (if requests d o == 1 then turn_off_item d ∷ [] else []))
      × IsCounted (turn_off d o).0
      × ((e : ℕ)
          → (requests e (turn_on d o).0 ≡ (if d == e then requests d o + 1 else requests e o))
            × (requests e (turn_off d o).0 ≡ (if d == e then requests d o - 1 else requests e o)))
unfolding turn_on turn_off requests
turn_on_off_lem d o set v = elim (Option-cases (find d o.active_request_count)) [
  | inl none_yet ↦
      let start = find-insert d d 1 o.active_request_count in
      (
        ground arith,
        λ e n found.
            let now = find-insert e d 1 o.active_request_count in
            let old = v e n in
            elim (Bool-cases (d == e)) [ inl same ↦ ground arith | inr other ↦ old (ground arith) ],
        ground arith,
        λ e n found. v e n (ground arith),
        λ e.
            let now = find-insert e d 1 o.active_request_count in
            elim (Bool-cases (d == e)) [
              | inl same ↦ let at : d ≡ e = (==_iff d e).0 same in (ground arith, ground arith)
              | inr other ↦ (ground arith, ground arith)
            ],
      )
  | inr (n, counted) ↦
      let positive = v d n counted in
      let up = find-insert d d (n + 1) o.active_request_count in
      let down = find-insert d d (n - 1) o.active_request_count in
      let gone = find-erase d d o.active_request_count in
      (
        ground arith,
        λ e k found.
            let now = find-insert e d (n + 1) o.active_request_count in
            let old = v e k in
            elim (Bool-cases (d == e)) [ inl same ↦ ground arith | inr other ↦ old (ground arith) ],
        ground arith,
        λ e k found.
            let now = find-insert e d (n - 1) o.active_request_count in
            let left = find-erase e d o.active_request_count in
            let old = v e k in
            elim (Bool-cases (d == e)) [ inl same ↦ ground arith | inr other ↦ old (ground arith) ],
        λ e.
            let more = find-insert e d (n + 1) o.active_request_count in
            let less = find-insert e d (n - 1) o.active_request_count in
            let left = find-erase e d o.active_request_count in
            elim (Bool-cases (d == e)) [
              | inl same ↦ let at : d ≡ e = (==_iff d e).0 same in (ground arith, ground arith)
              | inr other ↦ (ground arith, ground arith)
            ],
      )
]
