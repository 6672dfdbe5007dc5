-- ===== src/Timer/Service.antt =====
-- The operations of gps/utils/LocTimer.cpp. A client's call under its lock, a message and each of the
-- three calls of the polling thread are one step each.
use android_device_xiaomi_ms.Base.{
  ℕ, zero, suc, Bool, true, false, not, ◌&&◌, Option, none, some, List, [], ◌∷◌, ◌++◌, nat_key,
  ◌==◌, if◌then◌else◌, find, insert, erase,
}
use android_device_xiaomi_ms.Heap.Node.{LocHeapNode, push, pop, peek, remove, get_size}
use android_device_xiaomi_ms.Timer.Types.{
  Timespec, Delegate, DelegateFields, TimerMsg, timer_push, timer_remove, timer_expire, PollPhase,
  waiting, disarmed, unpolled, TimerService, future_time_of, earlier, is_same_delegate, by_time,
}

-- `timerfd_settime` with a time: 0 disarms.
unfoldable pub set_time : Timespec → Option Timespec
set_time t = if t.tv_sec == 0 && t.tv_nsec == 0 then none else some t

-- Are two pointers to delegates, NULL included, the same?
abbrev pub same_top : Option Delegate → Option Delegate → Bool
same_top none none = true
same_top none (some b) = false
same_top (some a) none = false
same_top (some a) (some b) = is_same_delegate a b

abbrev pub is_sooner : Delegate → Option Delegate → Bool
is_sooner top none = true
is_sooner top (some prior) = earlier top.future_time prior.future_time

-- `LocTimerContainer::updateSoonestTime`, where the top is another one.
unfoldable pub top_changed : Option Delegate → Option Delegate → TimerService → TimerService
unfolding set_time
top_changed none prior s = record s { polled = false; armed = none }
top_changed (some top) prior s =
    if is_sooner top prior then record s { polled = true; armed = set_time top.future_time } else s

-- `LocTimerContainer::updateSoonestTime`.
unfoldable pub update_soonest_time : Option Delegate → TimerService → TimerService
unfolding top_changed
update_soonest_time prior s =
    let top = peek by_time s.tree in if same_top top prior then s else top_changed top prior s

-- `LocTimer::start` with a container, and the constructor of `LocTimerDelegate`; with the result.
unfoldable pub start : ℕ → Timespec → ℕ → TimerService → TimerService × Bool
start timer now ms s = elim (find timer s.timers) [
  | some _ ↦ (s, false)
  | none ↦
      let time = future_time_of now ms in
      let fields : DelegateFields = record {
        client = some timer;
        in_container = true;
        made_for = time;
      } in
      (
        record s {
          timers = insert timer s.next_address s.timers;
          delegates = insert s.next_address fields s.delegates;
          next_address = suc s.next_address;
          queue =
              s.queue ++ timer_push (record { address = s.next_address; future_time = time }) ∷ [];
        },
        true,
      )
]

-- `LocTimerDelegate::destroyLocked`; nothing where the delegate is not allocated.
unfoldable pub destroy_locked : ℕ → TimerService → Option TimerService
destroy_locked address s = elim (find address s.delegates) [
  | none ↦ none
  | some fields ↦
      let gone : DelegateFields = record fields { client = none; in_container = false } in
      let cleared = insert address gone s.delegates in
      some (
        if fields.in_container
        then record s {
          delegates = cleared;
          queue =
              s.queue
              ++ timer_remove (record { address = address; future_time = fields.made_for }) ∷ [];
        }
        else record s { delegates = cleared })
]

-- `LocTimer::stop`, with the result.
unfoldable pub stop : ℕ → TimerService → Option (TimerService × Bool)
unfolding destroy_locked
stop timer s = elim (find timer s.timers) [
  | none ↦ some (s, false)
  | some address ↦ elim (destroy_locked address (record s { timers = erase timer s.timers })) [
    | none ↦ none
    | some s' ↦ some (s', true)
  ]
]

-- `LocTimerDelegate::expire`: the callback comes after the stop.
unfoldable pub expire_delegate : Delegate → TimerService → Option TimerService
unfolding stop
expire_delegate d s = elim (find d.address s.delegates) [
  | none ↦ none
  | some fields ↦ elim fields.client [
    | none ↦ some s
    | some timer ↦ elim (stop timer s) [
      | none ↦ none
      | some (s', stopped) ↦
          some (if stopped then record s' { fired = s'.fired ++ timer ∷ [] } else s')
    ]
  ]
]

-- `LocTimerContainer::popIfOutRanks`: the top, unless `now` outranks it.
unfoldable pub pop_if_out_ranks :
    Timespec → LocHeapNode Delegate → Option (Delegate × LocHeapNode Delegate)
unfolding pop
pop_if_out_ranks now t = elim (peek by_time t) [
  | none ↦ none
  | some top ↦ if not (earlier now top.future_time) then pop by_time t else none
]

-- The rest of the loop of `MsgTimerExpire::proc`, on fuel.
unfoldable pub expire_loop : ℕ → Timespec → TimerService → Option TimerService
unfolding pop_if_out_ranks expire_delegate
expire_loop zero now s = some s
expire_loop (suc fuel) now s = elim (pop_if_out_ranks now s.tree) [
  | none ↦ some s
  | some (d, rest) ↦ elim (expire_delegate d (record s { tree = rest })) [
    | none ↦ none
    | some s' ↦ expire_loop fuel now s'
  ]
]

-- `MsgTimerExpire::proc`: the first timer is popped whatever its time.
unfoldable pub proc_expire : Timespec → TimerService → Option TimerService
unfolding expire_loop update_soonest_time
proc_expire now s = elim (pop by_time s.tree) [
  | none ↦ some (update_soonest_time none s)
  | some (d, rest) ↦ elim (expire_delegate d (record s { tree = rest })) [
    | none ↦ none
    | some s' ↦ elim (expire_loop (get_size rest) now s') [
      | none ↦ none
      | some s'' ↦ some (update_soonest_time none s'')
    ]
  ]
]

-- `MsgTimerPush::proc`; nothing where the delegate has been freed.
unfoldable pub proc_push : Delegate → TimerService → Option TimerService
unfolding update_soonest_time
proc_push d s = elim (find d.address s.delegates) [
  | none ↦ none
  | some _ ↦
      some (update_soonest_time (peek by_time s.tree) (record s { tree = push by_time d s.tree }))
]

-- The heap without `d`, and whether what has been removed is the prior top, with NULL for nothing.
unfoldable pub removed_top : Delegate → LocHeapNode Delegate → LocHeapNode Delegate × Bool
removed_top d t = elim (remove by_time d t) [
  | none ↦ (t, same_top (peek by_time t) none)
  | some (found, rest) ↦ (rest, same_top (peek by_time t) (some found))
]

-- `MsgTimerRemove::proc`, which frees the delegate.
unfoldable pub proc_remove : Delegate → TimerService → Option TimerService
unfolding update_soonest_time removed_top
proc_remove d s = elim (find d.address s.delegates) [
  | none ↦ none
  | some _ ↦
      let (rest, was_top) = removed_top d s.tree in
      let s' : TimerService = record s { tree = rest; delegates = erase d.address s.delegates } in
      some (if was_top then update_soonest_time none s' else s')
]

-- What happens: a client starts or stops a timer, the polling thread makes its next call, or the
-- message task handles the next message, at a time.
pub data TimerEvent : Type 0 where
  started : (timer : ℕ) (now : Timespec) (ms : ℕ) → TimerEvent
  stopped : (timer : ℕ) → TimerEvent
  polls : TimerEvent
  handles : (now : Timespec) → TimerEvent

-- `LocTimerContainer::expire`, call by call.
unfoldable pub poll : PollPhase → TimerService → TimerService
poll waiting s = record s { armed = none; poller = disarmed }
poll disarmed s = record s { polled = false; poller = unpolled }
poll unpolled s = record s { queue = s.queue ++ timer_expire ∷ []; poller = waiting }

unfoldable pub proc_msg : Timespec → TimerMsg → TimerService → Option TimerService
unfolding proc_push proc_remove proc_expire
proc_msg now (timer_push d) s = proc_push d s
proc_msg now (timer_remove d) s = proc_remove d s
proc_msg now timer_expire s = proc_expire now s

unfoldable pub handle_next : Timespec → List TimerMsg → TimerService → Option TimerService
unfolding proc_msg
handle_next now [] s = some s
handle_next now (m ∷ rest) s = proc_msg now m (record s { queue = rest })

unfoldable pub timer_step : TimerEvent → TimerService → Option TimerService
unfolding start stop poll handle_next
timer_step (started timer now ms) s = some (start timer now ms s).0
timer_step (stopped timer) s = elim (stop timer s) [ none ↦ none | some (s', _) ↦ some s' ]
timer_step polls s = some (poll s.poller s)
timer_step (handles now) s = handle_next now s.queue s

unfoldable pub timer_steps : List TimerEvent → TimerService → Option TimerService
unfolding timer_step
timer_steps [] s = some s
timer_steps (e ∷ rest) s = elim (timer_step e s) [ none ↦ none | some s' ↦ timer_steps rest s' ]
