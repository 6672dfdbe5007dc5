-- ===== src/Timer/Early.antt =====
-- An expiration of gps/utils/LocTimer.cpp that is handled too late: the timer that it was for has been
-- stopped, and another one has been started.
use android_device_xiaomi_ms.Base.{
  ℕ, zero, suc, ◌<◌, ◌≡◌, ◌∙◌, refl, sym, ap, subst, true, none, some, [], ◌∷◌, ◌++◌, arith,
  nat_key, find, Bool-cases, inl, inr,
}
use android_device_xiaomi_ms.Heap.Node.{pop, peek, get_size}
use android_device_xiaomi_ms.Heap.Order.{count}
use android_device_xiaomi_ms.Timer.Types.{
  Timespec, Delegate, DelegateFields, TimerService, earlier, by_time, not_earlier_trans,
}
use android_device_xiaomi_ms.Timer.Service.{
  update_soonest_time, expire_delegate, expire_loop, proc_expire,
}
use android_device_xiaomi_ms.Timer.Popping.{Tree, TopTaken, pop_cases, pop_if_cases}
use android_device_xiaomi_ms.Timer.Messages.{smaller-IsSafe}
use android_device_xiaomi_ms.Timer.Stops.{IsSafeNow, stop_lem}
use android_device_xiaomi_ms.Timer.Arming.{update-Updated}

-- The loop takes nothing where all is after now.
loop_nothing :
    (fuel : ℕ) (now : Timespec) (s : TimerService)
    → IsSafeNow s
    → ((d : Delegate) → 0 < count by_time d s.tree → earlier now d.future_time ≡ true)
    → expire_loop fuel now s ≡ some s
unfolding expire_loop
loop_nothing zero now s h later = refl
loop_nothing (suc fuel) now s h later = elim (pop_if_cases now s.tree h.heap) [
  | inl (popped, _) ↦ rw (popped, expire_loop) refl
  | inr (d, _, _, due, taken) ↦ let late = later d taken.there in absurd (cc)
]

-- What is after a later top is later too.
rest_later :
    (now : Timespec) (d : Delegate) (t rest : Tree)
    → TopTaken d t rest
    → earlier now d.future_time ≡ true
    → (e : Delegate) → 0 < count by_time e rest
    → earlier now e.future_time ≡ true
rest_later now d t rest taken late e there =
    let before : 0 < count by_time e t = omega (arith, taken.without.counts e) in
    elim (Bool-cases (earlier now e.future_time)) [
      | inl later ↦ later
      | inr due ↦
          let contrary =
            not_earlier_trans now e.future_time d.future_time due (taken.soonest e before) in
          absurd (cc)
    ]

-- The service after the expiration of a delegate whose timer runs.
expire_running :
    (d : Delegate) (f : DelegateFields) (timer : ℕ) (s : TimerService)
    → IsSafeNow s
    → find d.address s.delegates ≡ some f
    → f.client ≡ some timer
    → find timer s.timers ≡ some d.address
    → (s' : TimerService) × (expire_delegate d s ≡ some s')
      × IsSafeNow s'
      × (s'.tree ≡ s.tree)
      × (s'.fired ≡ s.fired ++ timer ∷ [])
unfolding expire_delegate
expire_running d f timer s h found owner runs =
    let (s', b, done, h', same, fired, cases) = stop_lem timer s h in
    let stopped : b ≡ true = elim cases [ inl e ↦ e | inr idle ↦ absurd (cc) ] in
    (
      record s' { fired = s'.fired ++ timer ∷ [] },
      rw (found, expire_delegate) (rw owner (rw done (rw stopped refl))),
      h',
      same.tree,
      ap (λ fs. fs ++ timer ∷ []) fired,
    )

-- If the soonest timer of the heap, which is running, is after now when an expiration is handled, then
-- its callback is called all the same, and no other one.
pub fires_early :
    (now : Timespec) (s : TimerService) (d : Delegate) (f : DelegateFields) (timer : ℕ)
    → IsSafeNow s
    → peek by_time s.tree ≡ some d
    → earlier now d.future_time ≡ true
    → find d.address s.delegates ≡ some f
    → f.client ≡ some timer
    → find timer s.timers ≡ some d.address
    → (s' : TimerService) × (proc_expire now s ≡ some s') × (s'.fired ≡ s.fired ++ timer ∷ [])
unfolding proc_expire
fires_early now s d f timer h top late found owner runs = elim (pop_cases s.tree h.heap) [
  | inl (_, nothing, _) ↦ absurd (let both : some d ≡ none = sym top ∙ nothing in cc)
  | inr (first, rest, popped, taken) ↦
      let same : first ≡ d = let one = taken.top in cc in
      let popped_d : pop by_time s.tree ≡ some (d, rest) = rw (← same) popped in
      let taken_d : TopTaken d s.tree rest = subst (λ x. TopTaken x s.tree rest) same taken in
      let safe =
        smaller-IsSafe s.queue s.timers s.delegates s.next_address s.tree rest h
          taken_d.without.heap (λ e. omega (arith, taken_d.without.counts e)) in
      let (s1, done, h1, tree, fired) =
        expire_running d f timer (record s { tree = rest }) safe found owner runs in
      let looped = loop_nothing (get_size rest) now s1 h1 (λ e there.
        let one = ap (count by_time e) tree in
        rest_later now d s.tree rest taken_d late e (omega arith)) in
      let u = update-Updated none s1 in
      (
        update_soonest_time none s1,
        rw (popped_d, proc_expire) (rw done (rw looped refl)),
        ap (λ (x : TimerService). x.fired) u.only ∙ fired,
      )
]
