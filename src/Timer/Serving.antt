-- ===== src/Timer/Serving.antt =====
-- Whatever happens, the service of gps/utils/LocTimer.cpp follows no freed pointer and does not forget a
-- timer.
use android_device_xiaomi_ms.Base.{
  ℕ, ◌+◌, ◌<◌, ◌≤◌, ◌≡◌, ◌⊎◌, ◌∙◌, refl, sym, ap, subst, true, false, none, some, Option-cases,
  Bool-cases, List, [], ◌∷◌, arith, nat_key, find, erase, inl, inr,
}
use android_device_xiaomi_ms.Heap.Node.{push, peek, get_size}
use android_device_xiaomi_ms.Timer.Types.{
  Timespec, Delegate, TimerMsg, timer_push, timer_remove, timer_expire, PollPhase, waiting,
  disarmed, unpolled, TimerService, future_time_of, by_time, earlier, is_same_delegate,
  is_same_delegate_iff,
}
use android_device_xiaomi_ms.Heap.Order.{count}
use android_device_xiaomi_ms.Timer.Service.{
  set_time, start, update_soonest_time, proc_push, proc_remove, proc_expire, removed_top, proc_msg,
  handle_next, poll, TimerEvent, started, stopped, polls, handles, timer_step, timer_steps,
}
use android_device_xiaomi_ms.Timer.Life.{IsSafe, start-IsSafe, pushes, removes}
use android_device_xiaomi_ms.Timer.Messages.{
  expire_added-IsSafe, expire_taken-IsSafe, push_taken-IsSafe, remove_taken-IsSafe,
}
use android_device_xiaomi_ms.Timer.Popping.{pop_cases, removed_top_lem}
use android_device_xiaomi_ms.Timer.Stops.{IsSafeNow, expires, expires-append, SameClock, stop_lem}
use android_device_xiaomi_ms.Timer.Expiry.{AllLater, take_top, expire_loop_lem}
use android_device_xiaomi_ms.Timer.Arming.{
  IsTimed, Updated, update-Updated, update_none-IsTimed, update_push-IsTimed,
}

-- The timer is set to the time of the top, unless an expiration is on its way or is being handed over.
abbrev pub IsArmed : TimerService → Type 0
IsArmed s = expires s.queue ≡ 0 → s.poller ≡ waiting → IsTimed s.tree s.armed s.polled

push_somewhere :
    (d : Delegate) (q : List TimerMsg) (m n : ℕ) → 0 < pushes d (timer_push d ∷ q) + m + n
unfolding pushes
push_somewhere d q m n = let same = (is_same_delegate_iff d d).1 refl in ground arith

remove_somewhere :
    (d : Delegate) (q : List TimerMsg) (m n : ℕ) → 0 < m + n + removes d (timer_remove d ∷ q)
unfolding removes
remove_somewhere d q m n = let same = (is_same_delegate_iff d d).1 refl in ground arith

-- What an update leaves is as safe as what it finds.
Updated-IsSafe : (s s' : TimerService) → Updated s s' → IsSafeNow s → IsSafeNow s'
Updated-IsSafe s s' u h = subst IsSafeNow (sym u.only) h

start-Serves :
    (timer : ℕ) (now : Timespec) (ms : ℕ) (s : TimerService)
    → IsSafeNow s
    → IsArmed s
    → IsSafeNow (start timer now ms s).0 × IsArmed (start timer now ms s).0
unfolding start
start-Serves timer now ms s h a = elim (Option-cases (find timer s.timers)) [
  | inl idle ↦
      rw (idle, start)
        (
          start-IsSafe s.queue s.tree s.timers s.delegates s.next_address h timer
              (record { address = s.next_address; future_time = future_time_of now ms })
              (record {
                client = some timer;
                in_container = true;
                made_for = future_time_of now ms;
              })
              refl idle refl refl refl,
          λ none_sent. a (
              unfold expires in
              omega (
                arith,
                expires-append s.queue (
                    timer_push
                      (record { address = s.next_address; future_time = future_time_of now ms })
                    ∷ []),
              )),
        )
  | inr (address, runs) ↦ rw (runs, start) (h, a)
]

SameClock-IsArmed : (s s' : TimerService) → SameClock s s' → IsArmed s → IsArmed s'
SameClock-IsArmed s s' same a none_sent idle =
    rw (same.tree, same.armed, same.polled)
      (a (sym same.expires ∙ none_sent) (sym same.poller ∙ idle))

poll-Serves :
    (phase : PollPhase) (s : TimerService)
    → IsSafeNow s
    → IsSafeNow (poll phase s) × IsArmed (poll phase s)
unfolding poll
poll-Serves waiting s h = (h, λ none_sent idle. absurd (let e : disarmed ≡ waiting = idle in cc))
poll-Serves disarmed s h = (h, λ none_sent idle. absurd (let e : unpolled ≡ waiting = idle in cc))
poll-Serves unpolled s h = (
  expire_added-IsSafe s.queue s.timers s.delegates s.next_address s.tree h,
  λ none_sent idle.
      absurd (unfold expires in omega (arith, expires-append s.queue (timer_expire ∷ []))),
)

Updated-IsArmed :
    (s s' : TimerService)
    → Updated s s'
    → (expires s.queue ≡ 0 → s.poller ≡ waiting → IsTimed s.tree s'.armed s'.polled)
    → IsArmed s'
Updated-IsArmed s s' u set none_sent idle = rw (ap (λ (x : TimerService). x.tree) u.only) (
    set (ap (λ (x : TimerService). expires x.queue) (sym u.only) ∙ none_sent)
      (ap (λ (x : TimerService). x.poller) (sym u.only) ∙ idle))

-- The message of a push.
proc_push-Serves :
    (d : Delegate) (q : List TimerMsg) (s : TimerService)
    → s.queue ≡ timer_push d ∷ q
    → IsSafeNow s
    → IsArmed s
    → (s' : TimerService) × (proc_push d (record s { queue = q }) ≡ some s')
      × IsSafeNow s'
      × IsArmed s'
unfolding proc_push
proc_push-Serves d q s at h a =
    let head : IsSafe (timer_push d ∷ q) s.tree s.timers s.delegates s.next_address =
      subst (λ x. IsSafe x s.tree s.timers s.delegates s.next_address) at h in
    let (f, found, _) = head.live d (push_somewhere d q _ _) in
    let pushed : TimerService = record s { queue = q; tree = push by_time d s.tree } in
    let u = update-Updated (peek by_time s.tree) pushed in
    (
      update_soonest_time (peek by_time s.tree) pushed,
      rw (found, proc_push) refl,
      Updated-IsSafe pushed _ u
          (push_taken-IsSafe q s.timers s.delegates s.next_address s.tree d head),
      Updated-IsArmed pushed _ u (λ none_sent idle.
          update_push-IsTimed d s.tree pushed head.heap refl
            (a (ap expires at ∙ (unfold expires in none_sent)) idle)),
    )

-- The message of a removal.
proc_remove-Serves :
    (d : Delegate) (q : List TimerMsg) (s : TimerService)
    → s.queue ≡ timer_remove d ∷ q
    → IsSafeNow s
    → IsArmed s
    → (s' : TimerService) × (proc_remove d (record s { queue = q }) ≡ some s')
      × IsSafeNow s'
      × IsArmed s'
unfolding proc_remove
proc_remove-Serves d q s at h a =
    let head : IsSafe (timer_remove d ∷ q) s.tree s.timers s.delegates s.next_address =
      subst (λ x. IsSafe x s.tree s.timers s.delegates s.next_address) at h in
    let (f, found, _) = head.live d (remove_somewhere d q _ _) in
    let gone = removed_top_lem d s.tree head.heap in
    let once : count by_time d s.tree ≤ 1 = let all = head.once d in omega arith in
    let left : TimerService = record s {
      queue = q;
      tree = (removed_top d s.tree).0;
      delegates = erase d.address s.delegates;
    } in
    let safe =
      remove_taken-IsSafe q s.timers s.delegates s.next_address s.tree d (removed_top d s.tree).0
        head gone.heap gone.fewer (gone.taken once) in
    elim (Bool-cases (removed_top d s.tree).1) [
      | inl was_top ↦
          let u = update-Updated none left in
          (
            update_soonest_time none left,
            rw (found, proc_remove) (rw was_top refl),
            Updated-IsSafe left _ u safe,
            Updated-IsArmed left _ u (λ none_sent idle. update_none-IsTimed left),
          )
      | inr stays ↦ (
        left,
        rw (found, proc_remove) (rw stays refl),
        safe,
        λ none_sent idle top new_top.
            let (first, old_top, same) = gone.kept top stays new_top in
            let (polled, armed) =
              a (ap expires at ∙ (unfold expires in none_sent)) idle first old_top in
            (polled, armed ∙ ap set_time (sym same)),
      )
    ]

-- The message of an expiration: what is left is after `now`, and what has left, but the first top, is
-- not.
pub proc_expire_lem :
    (now : Timespec) (s : TimerService)
    → IsSafeNow s
    → (s' : TimerService) × (proc_expire now s ≡ some s')
      × IsSafeNow s'
      × IsArmed s'
      × AllLater now s'.tree
      × ((d : Delegate)
          → count by_time d s'.tree < count by_time d s.tree
          → (peek by_time s.tree ≡ some d) ⊎ (earlier now d.future_time ≡ false))
unfolding proc_expire
proc_expire_lem now s h = elim (pop_cases s.tree h.heap) [
  | inl (popped, top, absent) ↦
      let u = update-Updated none s in
      let same = ap (λ (x : TimerService). x.tree) u.only in
      (
        update_soonest_time none s,
        rw (popped, proc_expire) refl,
        Updated-IsSafe s _ u h,
        Updated-IsArmed s _ u (λ none_sent idle. update_none-IsTimed s),
        λ d there.
            let zero_more = absent d in let one = ap (count by_time d) same in absurd (omega arith),
        λ d less. let one = ap (count by_time d) same in absurd (omega arith),
      )
  | inr (d, rest, popped, taken) ↦
      let (s1, done, h1, clock) = take_top s d rest h taken in
      let (s2, looped, h2, expired, later) = expire_loop_lem (get_size rest) now s1 h1 in
      let u = update-Updated none s2 in
      let same = ap (λ (x : TimerService). x.tree) u.only in
      (
        update_soonest_time none s2,
        rw (popped, proc_expire) (rw done (rw looped refl)),
        Updated-IsSafe s2 _ u h2,
        Updated-IsArmed s2 _ u (λ none_sent idle. update_none-IsTimed s2),
        λ e there.
            let one = ap (count by_time e) same in
            let sizes = ap get_size clock.tree in later (omega arith) e (omega arith),
        λ e less.
            let one = ap (count by_time e) same in
            let two = ap (count by_time e) clock.tree in
            elim (Bool-cases (is_same_delegate e d)) [
              | inl this ↦ inl (taken.top ∙ ap some (sym ((is_same_delegate_iff e d).0 this)))
              | inr other ↦
                  let counted = taken.without.counts e in inr (expired.due e (ground arith))
            ],
      )
]

handle_next-Serves :
    (now : Timespec) (q : List TimerMsg) (s : TimerService)
    → s.queue ≡ q
    → IsSafeNow s
    → IsArmed s
    → (s' : TimerService) × (handle_next now q s ≡ some s') × IsSafeNow s' × IsArmed s'
unfolding handle_next proc_msg
handle_next-Serves now [] s at h a = (s, refl, h, a)
handle_next-Serves now (timer_push d ∷ q) s at h a = proc_push-Serves d q s at h a
handle_next-Serves now (timer_remove d ∷ q) s at h a = proc_remove-Serves d q s at h a
handle_next-Serves now (timer_expire ∷ q) s at h a =
    let head : IsSafe (timer_expire ∷ q) s.tree s.timers s.delegates s.next_address =
      subst (λ x. IsSafe x s.tree s.timers s.delegates s.next_address) at h in
    let (s', done, h', a', _, _) =
      proc_expire_lem now (record s { queue = q })
        (expire_taken-IsSafe q s.timers s.delegates s.next_address s.tree head) in
    (s', done, h', a')

timer_step-Serves :
    (e : TimerEvent) (s : TimerService)
    → IsSafeNow s
    → IsArmed s
    → (s' : TimerService) × (timer_step e s ≡ some s') × IsSafeNow s' × IsArmed s'
unfolding timer_step
timer_step-Serves (started timer now ms) s h a =
    let (h', a') = start-Serves timer now ms s h a in ((start timer now ms s).0, refl, h', a')
timer_step-Serves (stopped timer) s h a =
    let (s', b, done, h', same, _, _) = stop_lem timer s h in
    (s', rw (done, timer_step) refl, h', SameClock-IsArmed s s' same a)
timer_step-Serves polls s h a =
    let (h', a') = poll-Serves s.poller s h in (poll s.poller s, refl, h', a')
timer_step-Serves (handles now) s h a = handle_next-Serves now s.queue s refl h a

-- From safe delegates and a timer that is set for the top, whatever clients start and stop, whatever
-- the message task handles and however the calls of the polling thread fall in between: no step follows
-- a pointer to a freed delegate or frees one twice, the delegates are safe again, and if there is a
-- timer in the heap, then the kernel is set to the time of the soonest one and polls it, or an
-- expiration is on its way.
pub timer_steps-Serves :
    (events : List TimerEvent) (s : TimerService)
    → IsSafeNow s
    → IsArmed s
    → (s' : TimerService) × (timer_steps events s ≡ some s') × IsSafeNow s' × IsArmed s'
unfolding timer_steps
timer_steps-Serves [] s h a = (s, refl, h, a)
timer_steps-Serves (e ∷ rest) s h a =
    let (s', done, h', a') = timer_step-Serves e s h a in
    let (s'', ended, h'', a'') = timer_steps-Serves rest s' h' a' in
    (s'', rw (done, timer_steps) ended, h'', a'')
