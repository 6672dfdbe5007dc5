-- ===== src/Timer/Expiry.antt =====
-- The message of an expiration in gps/utils/LocTimer.cpp.
use android_device_xiaomi_ms.Base.{
  ℕ, zero, suc, ◌<◌, ◌≤◌, ◌≡◌, ◌∙◌, refl, sym, ap, true, false, some, Bool-cases, arith, nat_key,
  inl, inr,
}
use android_device_xiaomi_ms.Heap.Node.{null, node, get_size}
use android_device_xiaomi_ms.Heap.Order.{IsHeap, count}
use android_device_xiaomi_ms.Timer.Types.{
  Timespec, Delegate, TimerService, earlier, is_same_delegate, is_same_delegate_iff, by_time,
}
use android_device_xiaomi_ms.Timer.Service.{expire_delegate, expire_loop}
use android_device_xiaomi_ms.Timer.Messages.{smaller-IsSafe}
use android_device_xiaomi_ms.Timer.Popping.{Tree, TopTaken, pop_if_cases}
use android_device_xiaomi_ms.Timer.Stops.{IsSafeNow, SameClock, expires, expire_delegate_lem}

empty_heap : (d : Delegate) (t : Tree) → IsHeap by_time t → get_size t ≡ 0 → count by_time d t ≡ 0
unfolding count
empty_heap d null h e = refl
empty_heap d (node n c l r) h e = absurd (omega arith)

-- Of the timers of `s`, those that are in `s'` no more were due.
pub record Expired (now : Timespec) (s s' : TimerService) : Type 0 where
  pub fewer : (d : Delegate) → count by_time d s'.tree ≤ count by_time d s.tree
  pub due :
      (d : Delegate)
      → count by_time d s'.tree < count by_time d s.tree
      → earlier now d.future_time ≡ false
  pub poller : s'.poller ≡ s.poller
  pub expires : expires s'.queue ≡ expires s.queue

-- All that is left is after `now`.
abbrev pub AllLater : Timespec → Tree → Type 0
AllLater now t = (d : Delegate) → 0 < count by_time d t → earlier now d.future_time ≡ true

-- The top of a safe heap is allocated, and the heap without it is safe.
pub take_top :
    (s : TimerService) (d : Delegate) (rest : Tree)
    → IsSafeNow s
    → TopTaken d s.tree rest
    → (s' : TimerService) × (expire_delegate d (record s { tree = rest }) ≡ some s')
      × IsSafeNow s'
      × SameClock (record s { tree = rest }) s'
take_top s d rest h taken =
    let (f, found, _) = h.live d (let is = taken.there in omega arith) in
    expire_delegate_lem d f (record s { tree = rest }) found
      (smaller-IsSafe s.queue s.timers s.delegates s.next_address s.tree rest h taken.without.heap
        (λ e. omega (arith, taken.without.counts e)))

pub expire_loop_lem :
    (fuel : ℕ) (now : Timespec) (s : TimerService)
    → IsSafeNow s
    → (s' : TimerService) × (expire_loop fuel now s ≡ some s')
      × IsSafeNow s'
      × Expired now s s'
      × (get_size s.tree ≤ fuel → AllLater now s'.tree)
unfolding expire_loop
expire_loop_lem zero now s h = (
  s,
  refl,
  h,
  record {
    fewer = λ d. omega arith;
    due = λ d less. absurd (omega arith);
    poller = refl;
    expires = refl;
  },
  λ small d there. let zero_more = empty_heap d s.tree h.heap (omega arith) in absurd (omega arith),
)
expire_loop_lem (suc fuel) now s h = elim (pop_if_cases now s.tree h.heap) [
  | inl (popped, later) ↦ (
    s,
    rw (popped, expire_loop) refl,
    h,
    record {
      fewer = λ d. omega arith;
      due = λ d less. absurd (omega arith);
      poller = refl;
      expires = refl;
    },
    λ small. later,
  )
  | inr (d, rest, popped, is_due, taken) ↦
      let (s1, done, h1, same) = take_top s d rest h taken in
      let (s2, looped, h2, expired, later) = expire_loop_lem fuel now s1 h1 in
      (
        s2,
        rw (popped, expire_loop) (rw done looped),
        h2,
        record {
          fewer = λ e.
              let tree = ap (count by_time e) same.tree in
              omega (arith, expired.fewer e, taken.without.counts e);
          due = λ e less. elim (Bool-cases (is_same_delegate e d)) [
            | inl this ↦
                rw
                  (← (
                    ap (λ (x : Delegate). x.future_time) (sym ((is_same_delegate_iff e d).0 this))))
                  is_due
            | inr other ↦
                let tree = ap (count by_time e) same.tree in
                let counted = taken.without.counts e in expired.due e (ground arith)
          ];
          poller = expired.poller ∙ same.poller;
          expires = expired.expires ∙ same.expires;
        },
        λ small. let sizes = ap get_size same.tree in later (omega (arith, taken.without.size)),
      )
]
