-- ===== src/Timer/Messages.antt =====
-- The messages of gps/utils/LocTimer.cpp keep the delegates safe.
use android_device_xiaomi_ms.Base.{
  ℕ, ◌+◌, ◌≤◌, ◌<◌, ◌≡◌, ◌≢◌, ◌∙◌, refl, sym, ap, true, some, List, [], ◌∷◌, ◌++◌, arith, nat_key,
  find, erase, find-erase_eq, find-erase_ne, key_cases, inl, inr,
}
use android_device_xiaomi_ms.Heap.Node.{LocHeapNode, push}
use android_device_xiaomi_ms.Heap.Order.{IsHeap, count, push-IsHeap, count-push}
use android_device_xiaomi_ms.Timer.Types.{
  Delegate, DelegateFields, TimerMsg, timer_push, timer_remove, timer_expire, is_same_delegate,
  is_same_delegate_iff, by_time,
}
use android_device_xiaomi_ms.Timer.Life.{
  pushes, removes, IsSafe, pushes-append, removes-append, append_other-IsOrdered,
}

module _ (q : List TimerMsg) (timers : List (ℕ × ℕ)) (delegates : List (ℕ × DelegateFields))
    (next : ℕ) where
  -- What leaves the heap does no harm.
  pub smaller-IsSafe :
      (t t' : LocHeapNode Delegate)
      → IsSafe q t timers delegates next
      → IsHeap by_time t'
      → ((d : Delegate) → count by_time d t' ≤ count by_time d t)
      → IsSafe q t' timers delegates next
  smaller-IsSafe t t' h heap fewer = record {
    heap = heap;
    once = λ d. omega (arith, h.once d, fewer d);
    removed_once = h.removed_once;
    live = λ d somewhere. let less = fewer d in h.live d (omega arith);
    gone = h.gone;
    running = h.running;
    fresh = h.fresh;
    ordered = h.ordered;
  }

  module _ (t : LocHeapNode Delegate) where
    pub expire_added-IsSafe :
        IsSafe q t timers delegates next → IsSafe (q ++ timer_expire ∷ []) t timers delegates next
    unfolding pushes removes
    expire_added-IsSafe h = record {
      heap = h.heap;
      once = λ d. omega (arith, pushes-append d q (timer_expire ∷ []), h.once d);
      removed_once = λ d. omega (arith, removes-append d q (timer_expire ∷ []), h.removed_once d);
      live = λ d somewhere. h.live d (
          omega
            (arith, pushes-append d q (timer_expire ∷ []), removes-append d q (timer_expire ∷ [])));
      gone = λ d f removed. h.gone d f (omega (arith, removes-append d q (timer_expire ∷ [])));
      running = h.running;
      fresh = h.fresh;
      ordered = append_other-IsOrdered q timer_expire (λ d. refl) tt h.ordered;
    }

    pub expire_taken-IsSafe :
        IsSafe (timer_expire ∷ q) t timers delegates next → IsSafe q t timers delegates next
    unfolding pushes removes
    expire_taken-IsSafe h = record {
      heap = h.heap;
      once = h.once;
      removed_once = h.removed_once;
      live = h.live;
      gone = h.gone;
      running = h.running;
      fresh = h.fresh;
      ordered = h.ordered;
    }

    pub push_taken-IsSafe :
        (d : Delegate)
        → IsSafe (timer_push d ∷ q) t timers delegates next
        → IsSafe q (push by_time d t) timers delegates next
    unfolding pushes removes
    push_taken-IsSafe d h = record {
      heap = push-IsHeap by_time d t h.heap;
      once = λ e. omega (arith, count-push by_time e d t, h.once e);
      removed_once = h.removed_once;
      live = λ e somewhere. h.live e (omega (arith, count-push by_time e d t));
      gone = h.gone;
      running = h.running;
      fresh = h.fresh;
      ordered = h.ordered;
    }

    -- The delegate that a message removes is freed, and nothing refers to it any more.
    module _ (d : Delegate) (t' : LocHeapNode Delegate)
        (h : IsSafe (timer_remove d ∷ q) t timers delegates next) (heap : IsHeap by_time t')
        (fewer : (e : Delegate) → count by_time e t' ≤ count by_time e t)
        (taken : count by_time d t' ≡ 0) where
      same_refl : is_same_delegate d d ≡ true
      same_refl = (is_same_delegate_iff d d).1 refl

      nowhere : pushes d q + count by_time d t' + removes d q ≡ 0
      unfolding pushes removes
      nowhere =
          let never_pushed = h.ordered.0 in
          let twice = h.removed_once d in let same = same_refl in ground arith

      -- What is somewhere has another address.
      elsewhere :
          (e : Delegate)
          → 0 < pushes e q + count by_time e t' + removes e q
          → (d.address ≢ e.address)
            × ((f : DelegateFields) × (find e.address delegates ≡ some f)
                × (f.made_for ≡ e.future_time))
      unfolding pushes removes
      elsewhere e somewhere =
          let less = fewer e in
          let (f, found, time) = h.live e (omega arith) in
          let same = same_refl in
          let (g, found_d, time_d) = h.live d (ground arith) in
          (
            λ there.
                let found_e : find e.address delegates ≡ some g = rw (← there) found_d in
                let one : g ≡ f = cc in
                let time_e : g.made_for ≡ e.future_time =
                  ap (λ (x : DelegateFields). x.made_for) one ∙ time in
                let both : d ≡ e =
                  λ i. record { address = there i; future_time = (sym time_d ∙ time_e) i } in
                let gone = nowhere in
                let e_gone : pushes e q + count by_time e t' + removes e q ≡ 0 = rw (← both) gone in
                omega arith,
            (f, found, time),
          )

      pub remove_taken-IsSafe : IsSafe q t' timers (erase d.address delegates) next
      unfolding pushes removes
      remove_taken-IsSafe = record {
        heap = heap;
        once = λ e. let less = fewer e in let before = h.once e in omega arith;
        removed_once = λ e. let before = h.removed_once e in omega arith;
        live = λ e somewhere.
            let (differs, (f, found, time)) = elsewhere e somewhere in
            (f, find-erase_ne e.address d.address delegates differs ∙ found, time);
        gone = λ e f removed found.
            let (differs, _) = elsewhere e (omega arith) in
            h.gone e f (omega arith)
              (sym (find-erase_ne e.address d.address delegates differs) ∙ found);
        running = λ timer a runs.
            let (f, found, is_client, inside) = h.running timer a runs in
            let same = same_refl in
            let differs : d.address ≢ a = λ there.
              let found_d : find d.address delegates ≡ some f = rw there found in
              let outside = h.gone d f (ground arith) found_d in cc in
            (f, find-erase_ne a d.address delegates differs ∙ found, is_client, inside);
        fresh = λ a f found. elim (key_cases d.address a) [
          | inl same ↦
              let erased = find-erase_eq a d.address delegates same in absurd (ground arith)
          | inr differs ↦ h.fresh a f (sym (find-erase_ne a d.address delegates differs) ∙ found)
        ];
        ordered = h.ordered.1;
      }
