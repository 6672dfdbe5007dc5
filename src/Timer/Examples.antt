-- ===== src/Timer/Examples.antt =====
-- Tests of the timers at concrete inputs.
use android_device_xiaomi_ms.Base.{
  ℕ, ◌<◌, ◌≡◌, ◌⊎◌, ◌++◌, refl, true, false, none, some, List, [], ◌∷◌, arith, nat_key, find,
  insert, erase,
}
use mathlib.Core.Option
use android_device_xiaomi_ms.Heap.Node.{null, new_node, push, peek, remove}
use android_device_xiaomi_ms.Heap.Order.{count}
use android_device_xiaomi_ms.Timer.Types.{
  Timespec, Delegate, DelegateFields, TimerService, waiting, earlier, by_time, is_same_delegate,
  future_time_of,
}
use android_device_xiaomi_ms.Timer.Service.{
  TimerEvent, started, stopped, polls, handles, timer_steps, proc_expire,
}
use android_device_xiaomi_ms.Timer.Life.{pushes, removes, start-IsSafe}
use android_device_xiaomi_ms.Timer.Messages.{push_taken-IsSafe}
use android_device_xiaomi_ms.Timer.Stops.{IsSafeNow}
use android_device_xiaomi_ms.Timer.Expiry.{AllLater}
use android_device_xiaomi_ms.Timer.Serving.{IsArmed, timer_steps-Serves, proc_expire_lem}
use android_device_xiaomi_ms.Timer.Early.{fires_early}

-- No timer, and nothing on its way.
abbrev idle : TimerService
idle = record {
  timers = [];
  delegates = [];
  next_address = 0;
  tree = null;
  queue = [];
  armed = none;
  polled = false;
  poller = waiting;
  fired = [];
}

idle-IsSafe : IsSafeNow idle
unfolding pushes removes count find
idle-IsSafe = record {
  heap = tt;
  once = λ d. omega arith;
  removed_once = λ d. omega arith;
  live = λ d h. absurd (omega arith);
  gone = λ d f h. absurd (omega arith);
  running = λ t a h. absurd (ground arith);
  fresh = λ a f h. absurd (ground arith);
  ordered = tt;
}

idle-IsArmed : IsArmed idle
unfolding peek
idle-IsArmed none_sent at_rest top at = absurd (ground arith)

abbrev at_second : ℕ → Timespec
at_second n = record { tv_sec = n; tv_nsec = 0 }

-- The timer 1 is started and stopped; the kernel, which is still set, fires; before the polling thread
-- has sent its message, the timer 2 is started for 5 seconds.
abbrev early_run : List TimerEvent
early_run =
    started 1 (at_second 100) 1000
    ∷ handles (at_second 100)
    ∷ stopped 1
    ∷ handles (at_second 100)
    ∷ polls
    ∷ polls
    ∷ started 2 (at_second 101) 5000
    ∷ handles (at_second 101)
    ∷ polls
    ∷ handles (at_second 101)
    ∷ []

-- The callback of the timer 2 is called within the second 101.
early_run_fires :
    Option.map (λ (s : TimerService). s.fired) (timer_steps early_run idle) ≡ some (2 ∷ [])
unfolding timer_steps find insert erase peek push remove is_same_delegate future_time_of
early_run_fires = refl

timer_steps-Serves_example :
    (s' : TimerService) × (timer_steps early_run idle ≡ some s') × IsSafeNow s' × IsArmed s'
timer_steps-Serves_example = timer_steps-Serves early_run idle idle-IsSafe idle-IsArmed

abbrev the_delegate : Delegate
the_delegate = record { address = 0; future_time = at_second 106 }

abbrev the_fields : DelegateFields
the_fields = record { client = some 2; in_container = true; made_for = at_second 106 }

-- One timer runs until the second 106.
abbrev one : TimerService
one = record idle {
  timers = (2, 0) ∷ [];
  delegates = (0, the_fields) ∷ [];
  next_address = 1;
  tree = new_node the_delegate;
}

one-IsSafe : IsSafeNow one
unfolding insert push find
one-IsSafe =
    push_taken-IsSafe [] ((2, 0) ∷ []) ((0, the_fields) ∷ []) 1 null the_delegate
      (start-IsSafe [] null [] [] 0 idle-IsSafe 2 the_delegate the_fields refl refl refl refl refl)

proc_expire_lem_example :
    (s' : TimerService) × (proc_expire (at_second 107) one ≡ some s')
    × IsSafeNow s'
    × IsArmed s'
    × AllLater (at_second 107) s'.tree
    × ((d : Delegate)
        → count by_time d s'.tree < count by_time d one.tree
        → (peek by_time one.tree ≡ some d) ⊎ (earlier (at_second 107) d.future_time ≡ false))
proc_expire_lem_example = proc_expire_lem (at_second 107) one one-IsSafe

top-one : peek by_time one.tree ≡ some the_delegate
unfolding peek
top-one = refl

later-one : earlier (at_second 101) (at_second 106) ≡ true
unfolding earlier
later-one = refl

found-one : find 0 one.delegates ≡ some the_fields
unfolding find
found-one = refl

runs-one : find 2 one.timers ≡ some 0
unfolding find
runs-one = refl

fires_early_example :
    (s' : TimerService) × (proc_expire (at_second 101) one ≡ some s') × (s'.fired ≡ [] ++ 2 ∷ [])
fires_early_example =
    fires_early (at_second 101) one the_delegate the_fields 2 one-IsSafe top-one later-one found-one
      refl runs-one
