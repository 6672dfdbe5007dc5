-- ===== src/Timer/Arming.antt =====
-- What `LocTimerContainer::updateSoonestTime` (gps/utils/LocTimer.cpp) tells the kernel.
use android_device_xiaomi_ms.Base.{
  ◌≡◌, ◌∙◌, refl, sym, ap, Bool, true, false, Option, none, some, Option-cases, Bool-cases, inl,
  inr,
}
use android_device_xiaomi_ms.Heap.Node.{push, peek}
use android_device_xiaomi_ms.Heap.Order.{IsHeap}
use android_device_xiaomi_ms.Timer.Types.{
  Timespec, Delegate, TimerService, earlier, is_same_delegate, is_same_delegate_iff, by_time,
}
use android_device_xiaomi_ms.Timer.Service.{
  set_time, same_top, is_sooner, top_changed, update_soonest_time,
}
use android_device_xiaomi_ms.Timer.Popping.{Tree, push_same_time}

-- The kernel polls the timer, which is set to the time of the top, if there is one.
abbrev pub IsTimed : Tree → Option Timespec → Bool → Type 0
IsTimed t armed polled =
    (top : Delegate)
    → peek by_time t ≡ some top
    → (polled ≡ true) × (armed ≡ set_time top.future_time)

-- An update sets the timer and the poll, and nothing else.
pub record Updated (s s' : TimerService) : Type 0 where
  pub armed : Option Timespec
  pub polled : Bool
  pub only : s' ≡ record s { armed = armed; polled = polled }

top_changed-Updated :
    (top prior : Option Delegate) (s : TimerService) → Updated s (top_changed top prior s)
unfolding top_changed
top_changed-Updated none prior s = record { armed = none; polled = false; only = refl }
top_changed-Updated (some top) prior s = elim (Bool-cases (is_sooner top prior)) [
  | inl sooner ↦ record { armed = set_time top.future_time; polled = true; only = rw sooner refl }
  | inr not_sooner ↦ record { armed = s.armed; polled = s.polled; only = rw not_sooner refl }
]

pub update-Updated :
    (prior : Option Delegate) (s : TimerService) → Updated s (update_soonest_time prior s)
unfolding update_soonest_time
update-Updated prior s = elim (Bool-cases (same_top (peek by_time s.tree) prior)) [
  | inl same ↦ record { armed = s.armed; polled = s.polled; only = rw same refl }
  | inr other ↦
      let changed = top_changed-Updated (peek by_time s.tree) prior s in
      record { armed = changed.armed; polled = changed.polled; only = rw other changed.only }
]

-- With NULL for the prior top, the timer is set to the top.
pub update_none-IsTimed :
    (s : TimerService)
    → IsTimed s.tree (update_soonest_time none s).armed (update_soonest_time none s).polled
unfolding update_soonest_time top_changed
update_none-IsTimed s top at = rw (at, update_soonest_time) (refl, refl)

-- With a prior top for which the timer is set, and which is not later than a top that is not sooner.
update_some-IsTimed :
    (s : TimerService) (first top : Delegate)
    → peek by_time s.tree ≡ some top
    → s.polled ≡ true
    → s.armed ≡ set_time first.future_time
    → (earlier top.future_time first.future_time ≡ false → top.future_time ≡ first.future_time)
    → ((update_soonest_time (some first) s).polled ≡ true)
      × ((update_soonest_time (some first) s).armed ≡ set_time top.future_time)
unfolding update_soonest_time top_changed
update_some-IsTimed s first top at polled armed no_later =
    elim (Bool-cases (is_same_delegate top first)) [
      | inl same ↦
          let one = (is_same_delegate_iff top first).0 same in
          rw (at, update_soonest_time)
            (rw same (polled, armed ∙ ap (λ (x : Delegate). set_time x.future_time) (sym one)))
      | inr other ↦ elim (Bool-cases (earlier top.future_time first.future_time)) [
        | inl sooner ↦ rw (at, update_soonest_time) (rw other (rw sooner (refl, refl)))
        | inr not_sooner ↦
            rw (at, update_soonest_time)
              (rw other (rw not_sooner (polled, armed ∙ ap set_time (sym (no_later not_sooner)))))
      ]
    ]

-- After a push with the prior top, the timer is set if it has been.
pub update_push-IsTimed :
    (d : Delegate) (t : Tree) (s : TimerService)
    → IsHeap by_time t
    → s.tree ≡ push by_time d t
    → IsTimed t s.armed s.polled
    → IsTimed s.tree
        (update_soonest_time (peek by_time t) s).armed
        (update_soonest_time (peek by_time t) s).polled
update_push-IsTimed d t s heap tree set top at = elim (Option-cases (peek by_time t)) [
  | inl empty ↦ rw empty (update_none-IsTimed s top at)
  | inr (first, before) ↦
      let (polled, armed) = set first before in
      let pushed : peek by_time (push by_time d t) ≡ some top = ap (peek by_time) (sym tree) ∙ at in
      rw before (
        update_some-IsTimed s first top at polled armed
          (push_same_time t d first top heap before pushed))
]
