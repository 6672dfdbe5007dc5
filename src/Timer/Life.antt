-- ===== src/Timer/Life.antt =====
-- Which delegates of gps/utils/LocTimer.cpp are allocated, in the heap, and in messages on their way.
use android_device_xiaomi_ms.Base.{
  ℕ, suc, ◌+◌, ◌≤◌, ◌<◌, ◌≡◌, ◌≢◌, ◌⊎◌, ◌∙◌, refl, sym, ap, true, false, none, some, List, [], ◌∷◌,
  ◌++◌, arith, ◌==◌, ==_iff, nat_key, find, insert, find-insert_eq, find-insert_ne, key_cases,
  Bool-cases, inl, inr,
}
use android_device_xiaomi_ms.Heap.Node.{LocHeapNode}
use android_device_xiaomi_ms.Heap.Order.{IsHeap, one_if, count}
use android_device_xiaomi_ms.Timer.Types.{
  Delegate, DelegateFields, TimerMsg, timer_push, timer_remove, timer_expire, is_same_delegate,
  is_same_delegate_iff, by_time,
}

-- How many messages push `d`, remove `d`, or tell of an expiration.
unfoldable pub pushes : Delegate → List TimerMsg → ℕ
pushes d [] = 0
pushes d (timer_push e ∷ q) = one_if by_time (is_same_delegate d e) + pushes d q
pushes d (timer_remove e ∷ q) = pushes d q
pushes d (timer_expire ∷ q) = pushes d q

unfoldable pub removes : Delegate → List TimerMsg → ℕ
removes d [] = 0
removes d (timer_push e ∷ q) = removes d q
removes d (timer_remove e ∷ q) = one_if by_time (is_same_delegate d e) + removes d q
removes d (timer_expire ∷ q) = removes d q

-- No delegate is pushed after it has been removed.
abbrev pub IsOrdered : List TimerMsg → Type 0
IsOrdered [] = Unit {0}
IsOrdered (timer_push e ∷ q) = IsOrdered q
IsOrdered (timer_remove e ∷ q) = (pushes e q ≡ 0) × IsOrdered q
IsOrdered (timer_expire ∷ q) = IsOrdered q

pub pushes-append :
    (d : Delegate) (q r : List TimerMsg) → pushes d (q ++ r) ≡ pushes d q + pushes d r
unfolding pushes
pushes-append d [] r = omega arith
pushes-append d (timer_push e ∷ q) r = omega (arith, pushes-append d q r)
pushes-append d (timer_remove e ∷ q) r = pushes-append d q r
pushes-append d (timer_expire ∷ q) r = pushes-append d q r

pub removes-append :
    (d : Delegate) (q r : List TimerMsg) → removes d (q ++ r) ≡ removes d q + removes d r
unfolding removes
removes-append d [] r = omega arith
removes-append d (timer_push e ∷ q) r = removes-append d q r
removes-append d (timer_remove e ∷ q) r = omega (arith, removes-append d q r)
removes-append d (timer_expire ∷ q) r = removes-append d q r

append_push-IsOrdered :
    (q : List TimerMsg) (d : Delegate)
    → removes d q ≡ 0
    → IsOrdered q
    → IsOrdered (q ++ timer_push d ∷ [])
unfolding removes
append_push-IsOrdered [] d none_yet h = tt
append_push-IsOrdered (timer_push e ∷ q) d none_yet h = append_push-IsOrdered q d none_yet h
append_push-IsOrdered (timer_remove e ∷ q) d none_yet h = (
  unfold pushes in
      ground (
        arith,
        pushes-append e q (timer_push d ∷ []),
        is_same_delegate_iff d e,
        is_same_delegate_iff e d,
        h.0,
      ),
  append_push-IsOrdered q d (ground arith) h.1,
)
append_push-IsOrdered (timer_expire ∷ q) d none_yet h = append_push-IsOrdered q d none_yet h

pub append_other-IsOrdered :
    (q : List TimerMsg) (m : TimerMsg)
    → ((d : Delegate) → pushes d (m ∷ []) ≡ 0)
    → IsOrdered (m ∷ [])
    → IsOrdered q
    → IsOrdered (q ++ m ∷ [])
append_other-IsOrdered [] m other hm h = hm
append_other-IsOrdered (timer_push e ∷ q) m other hm h = append_other-IsOrdered q m other hm h
append_other-IsOrdered (timer_remove e ∷ q) m other hm h = (
  omega (arith, pushes-append e q (m ∷ []), other e, h.0),
  append_other-IsOrdered q m other hm h.1,
)
append_other-IsOrdered (timer_expire ∷ q) m other hm h = append_other-IsOrdered q m other hm h

-- Delegates that are in the heap or in a message are allocated, each is pushed once and removed once
-- at most, and a running timer's delegate is still in its container.
pub record IsSafe (q : List TimerMsg) (t : LocHeapNode Delegate) (timers : List (ℕ × ℕ))
    (delegates : List (ℕ × DelegateFields)) (next : ℕ) : Type 0 where
  pub heap : IsHeap by_time t
  pub once : (d : Delegate) → pushes d q + count by_time d t ≤ 1
  pub removed_once : (d : Delegate) → removes d q ≤ 1
  pub live :
      (d : Delegate)
      → 0 < pushes d q + count by_time d t + removes d q
      → (f : DelegateFields) × (find d.address delegates ≡ some f) × (f.made_for ≡ d.future_time)
  pub gone :
      (d : Delegate) (f : DelegateFields)
      → 0 < removes d q
      → find d.address delegates ≡ some f
      → f.in_container ≡ false
  pub running :
      (timer a : ℕ)
      → find timer timers ≡ some a
      → (f : DelegateFields) × (find a delegates ≡ some f)
        × (f.client ≡ some timer)
        × (f.in_container ≡ true)
  pub fresh : (a : ℕ) (f : DelegateFields) → find a delegates ≡ some f → a < next
  pub ordered : IsOrdered q

-- The lists of one message.
pub one_push :
    (e d : Delegate)
    → (removes e (timer_push d ∷ []) ≡ 0)
      × ((e ≡ d) × (pushes e (timer_push d ∷ []) ≡ 1)
          ⊎ (e ≢ d) × (pushes e (timer_push d ∷ []) ≡ 0))
unfolding pushes removes
one_push e d = elim (Bool-cases (is_same_delegate e d)) [
  | inl same ↦ (refl, inl ((is_same_delegate_iff e d).0 same, ground arith))
  | inr other ↦ (refl, inr (λ e. let hit = (is_same_delegate_iff _ d).1 e in cc, ground arith))
]

pub one_remove :
    (e d : Delegate)
    → (pushes e (timer_remove d ∷ []) ≡ 0)
      × ((e ≡ d) × (removes e (timer_remove d ∷ []) ≡ 1)
          ⊎ (e ≢ d) × (removes e (timer_remove d ∷ []) ≡ 0))
unfolding pushes removes
one_remove e d = elim (Bool-cases (is_same_delegate e d)) [
  | inl same ↦ (refl, inl ((is_same_delegate_iff e d).0 same, ground arith))
  | inr other ↦ (refl, inr (λ e. let hit = (is_same_delegate_iff _ d).1 e in cc, ground arith))
]

module _ (q : List TimerMsg) (t : LocHeapNode Delegate) (timers : List (ℕ × ℕ))
    (delegates : List (ℕ × DelegateFields)) (next : ℕ) (h : IsSafe q t timers delegates next) where
  -- A new address is in no use.
  unknown : (d : Delegate) → d.address ≡ next → pushes d q + count by_time d t + removes d q ≡ 0
  unknown d e = elim (Bool-cases (pushes d q + count by_time d t + removes d q == 0)) [
    | inl nowhere ↦ (==_iff _ _).0 nowhere
    | inr somewhere ↦
        let (f, found, _) = h.live d (ground arith) in
        absurd (omega (arith, h.fresh d.address f found))
  ]

  -- Where nothing but `d` is added, what is anywhere was there before or is `d`.
  came_from :
      (d e : Delegate)
      → 0
        < pushes e (q ++ timer_push d ∷ []) + count by_time e t + removes e (q ++ timer_push d ∷ [])
      → (e ≡ d) ⊎ (0 < pushes e q + count by_time e t + removes e q)
  came_from d e somewhere =
      let (none_removed, cases) = one_push e d in
      elim cases [
        | inl (same, _) ↦ inl same
        | inr (_, zero_more) ↦ inr (
            omega (
              arith,
              pushes-append e q (timer_push d ∷ []),
              removes-append e q (timer_push d ∷ []),
            ))
      ]

  -- The constructor of a delegate for a timer that does not run.
  pub start-IsSafe :
      (timer : ℕ) (d : Delegate) (f : DelegateFields)
      → d.address ≡ next
      → find timer timers ≡ none
      → f.client ≡ some timer
      → f.in_container ≡ true
      → f.made_for ≡ d.future_time
      → IsSafe
          (q ++ timer_push d ∷ [])
          t
          (insert timer d.address timers)
          (insert d.address f delegates)
          (suc next)
  start-IsSafe timer d f at idle owner inside made = record {
    heap = h.heap;
    once = λ e.
        let (none_removed, cases) = one_push e d in
        elim cases [
          | inl (same, one) ↦
              let nowhere = unknown e (ap (λ (x : Delegate). x.address) same ∙ at) in
              omega (arith, pushes-append e q (timer_push d ∷ []))
          | inr (other, zero_more) ↦ omega (arith, pushes-append e q (timer_push d ∷ []), h.once e)
        ];
    removed_once = λ e.
        omega (arith, removes-append e q (timer_push d ∷ []), (one_push e d).0, h.removed_once e);
    live = λ e somewhere. elim (came_from d e somewhere) [
      | inl same ↦
          let there = ap (λ (x : Delegate). x.address) same in
          (
            f,
            find-insert_eq e.address d.address delegates f (sym there),
            made ∙ ap (λ (x : Delegate). x.future_time) (sym same),
          )
      | inr before ↦
          let (g, found, time) = h.live e before in
          let lower = h.fresh e.address g found in
          (g, find-insert_ne e.address d.address delegates f (λ e. omega arith) ∙ found, time)
    ];
    gone = λ e g removed found.
        let before : 0 < removes e q =
          omega (arith, removes-append e q (timer_push d ∷ []), (one_push e d).0) in
        let (g', found', _) = h.live e (omega arith) in
        let lower = h.fresh e.address g' found' in
        h.gone e g before
          (sym (find-insert_ne e.address d.address delegates f (λ e. omega arith)) ∙ found);
    running = λ other a found. elim (key_cases timer other) [
      | inl same ↦
          let at_d : d.address ≡ a =
            ground (arith, find-insert_eq other timer timers d.address same) in
          (f, find-insert_eq a d.address delegates f at_d, owner ∙ ap some same, inside)
      | inr differs ↦
          let (g, found', is_client, still_in) =
            h.running other a (sym (find-insert_ne other timer timers d.address differs) ∙ found) in
          let lower = h.fresh a g found' in
          (
            g,
            find-insert_ne a d.address delegates f (λ e. omega arith) ∙ found',
            is_client,
            still_in,
          )
    ];
    fresh = λ a g found. elim (key_cases d.address a) [
      | inl same ↦ omega arith
      | inr differs ↦
          let lower = h.fresh a g (sym (find-insert_ne a d.address delegates f differs) ∙ found) in
          omega arith
    ];
    ordered = append_push-IsOrdered q d (omega (arith, unknown d at)) h.ordered;
  }
