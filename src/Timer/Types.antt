-- ===== src/Timer/Types.antt =====
-- The data of gps/utils/LocTimer.cpp, the times that it computes and the rank of a delegate.
use android_device_xiaomi_ms.Base.{
  ℕ, ◌+◌, ◌-◌, ◌*◌, ◌%◌, ◌<◌, ◌≡◌, ◌↔◌, Bool, true, false, ◌&&◌, ◌||◌, Option, List, arith, ltb,
  leb, ◌==◌, if◌then◌else◌,
}
use Prim.Native.Nat.{◌/◌}
use android_device_xiaomi_ms.Heap.Node.{LocRankable, LocHeapNode}

-- `struct timespec`.
pub record Timespec : Type 0 where
  pub tv_sec : ℕ
  pub tv_nsec : ℕ

-- A pointer to a `LocTimerDelegate`, with `mFutureTime`, which only the constructor sets.
pub record Delegate : Type 0 where
  pub address : ℕ
  pub future_time : Timespec

-- The other fields of a delegate that is allocated: `mClient`, where none is NULL, and whether
-- `mContainer` is set.
pub record DelegateFields : Type 0 where
  pub client : Option ℕ
  pub in_container : Bool
  pub made_for : Timespec

-- The messages to the container.
pub data TimerMsg : Type 0 where
  timer_push timer_remove : Delegate → TimerMsg
  timer_expire : TimerMsg

-- How far the polling thread is in `LocTimerContainer::expire`.
pub data PollPhase : Type 0 where
  waiting disarmed unpolled : PollPhase

-- A container, the queue of the message task, the timers by `mTimer` where it is not NULL, the
-- delegates that are allocated, and what the kernel has been told. `fired` lists the callbacks.
pub record TimerService : Type 0 where
  pub timers : List (ℕ × ℕ)
  pub delegates : List (ℕ × DelegateFields)
  pub next_address : ℕ
  pub tree : LocHeapNode Delegate
  pub queue : List TimerMsg
  pub armed : Option Timespec
  pub polled : Bool
  pub poller : PollPhase
  pub fired : List ℕ

-- What `LocTimer::start` adds to the time of now.
unfoldable pub future_time_of : Timespec → ℕ → Timespec
future_time_of now ms =
    let sec = now.tv_sec + ms / 1000 in
    let nsec = now.tv_nsec + ms % 1000 * 1000000 in
    if leb 1000000000 nsec
    then record { tv_sec = sec + nsec / 1000000000; tv_nsec = nsec % 1000000000 }
    else record { tv_sec = sec; tv_nsec = nsec }

-- `LocTimerDelegate::ranks`, an `int` as a number below 2 ^ 32: the difference of two `long` is cut to
-- its low 32 bits.
unfoldable pub ranks : Timespec → Timespec → ℕ
ranks self timer =
    let of_sec = (timer.tv_sec + 18446744073709551616 - self.tv_sec) % 4294967296 in
    let of_nsec = (timer.tv_nsec + 18446744073709551616 - self.tv_nsec) % 4294967296 in
    if of_sec == 0 then of_nsec else of_sec

-- Is an `int` above 0?
abbrev pub is_positive : ℕ → Bool
is_positive n = ltb 0 n && ltb n 2147483648

-- The order in which `outRanks` puts times that are below 2 ^ 31 seconds.
unfoldable pub earlier : Timespec → Timespec → Bool
earlier a b = ltb a.tv_sec b.tv_sec || (a.tv_sec == b.tv_sec && ltb a.tv_nsec b.tv_nsec)

-- The address of a delegate and the time that goes with it.
unfoldable pub is_same_delegate : Delegate → Delegate → Bool
is_same_delegate a b =
    a.address == b.address
    && (a.future_time.tv_sec == b.future_time.tv_sec
        && a.future_time.tv_nsec == b.future_time.tv_nsec)

pub is_same_delegate_iff : (a b : Delegate) → (is_same_delegate a b ≡ true) ↔ (a ≡ b)
unfolding is_same_delegate
is_same_delegate_iff a b = (λ e. ground arith, λ e. ground arith)

pub earlier_asymm : (a b : Timespec) → earlier a b ≡ true → earlier b a ≡ false
unfolding earlier
earlier_asymm a b h = ground arith

pub not_earlier_trans :
    (a b c : Timespec) → earlier a b ≡ false → earlier b c ≡ false → earlier a c ≡ false
unfolding earlier
not_earlier_trans a b c h k = ground arith

pub not_earlier_eq : (a b : Timespec) → earlier a b ≡ false → earlier b a ≡ false → a ≡ b
unfolding earlier
not_earlier_eq a b h k = ground arith

abbrev pub by_time : LocRankable Delegate
by_time = record {
  out_ranks = λ a b. earlier a.future_time b.future_time;
  is_same = is_same_delegate;
  is_same_iff = is_same_delegate_iff;
  out_ranks_asymm = λ a b. earlier_asymm a.future_time b.future_time;
  not_out_ranks_trans = λ a b c. not_earlier_trans a.future_time b.future_time c.future_time;
}

-- For times below 2 ^ 31 seconds, with less than a second in nanoseconds, a delegate outranks another
-- exactly if its time is earlier.
pub ranks-earlier :
    (a b : Timespec)
    → a.tv_sec < 2147483648
    → b.tv_sec < 2147483648
    → a.tv_nsec < 1000000000
    → b.tv_nsec < 1000000000
    → is_positive (ranks a b) ≡ earlier a b
unfolding ranks earlier
ranks-earlier a b ha hb na nb = ground arith

-- The time of a start lies the timeout after now, and its nanoseconds are less than a second.
pub future_time_of_bounds :
    (now : Timespec) (ms : ℕ)
    → now.tv_nsec < 1000000000
    → ((future_time_of now ms).tv_nsec < 1000000000)
      × ((future_time_of now ms).tv_sec * 1000000000 + (future_time_of now ms).tv_nsec
          ≡ now.tv_sec * 1000000000 + now.tv_nsec + ms * 1000000)
unfolding future_time_of
future_time_of_bounds now ms h = ground arith
