-- ===== src/Timer/Stops.antt =====
-- A stop, and the expiration of one delegate, of gps/utils/LocTimer.cpp.
use android_device_xiaomi_ms.Base.{
  ℕ, suc, ◌+◌, ◌≡◌, ◌⊎◌, refl, Bool, true, false, Option, none, some, if◌then◌else◌, Option-cases,
  List, [], ◌∷◌, ◌++◌, arith, nat_key, find, insert, erase, inl, inr,
}
use android_device_xiaomi_ms.Timer.Types.{
  Delegate, DelegateFields, TimerMsg, timer_push, timer_remove, timer_expire, TimerService,
}
use android_device_xiaomi_ms.Timer.Service.{stop, destroy_locked, expire_delegate}
use android_device_xiaomi_ms.Timer.Life.{IsSafe}
use android_device_xiaomi_ms.Timer.Handling.{gone_fields, stop-IsSafe}

-- The delegates of a service are safe.
abbrev pub IsSafeNow : TimerService → Type 0
IsSafeNow s = IsSafe s.queue s.tree s.timers s.delegates s.next_address

-- How many expirations are on their way.
unfoldable pub expires : List TimerMsg → ℕ
expires [] = 0
expires (timer_push d ∷ q) = expires q
expires (timer_remove d ∷ q) = expires q
expires (timer_expire ∷ q) = suc (expires q)

pub expires-append : (q r : List TimerMsg) → expires (q ++ r) ≡ expires q + expires r
unfolding expires
expires-append [] r = omega arith
expires-append (timer_push d ∷ q) r = expires-append q r
expires-append (timer_remove d ∷ q) r = expires-append q r
expires-append (timer_expire ∷ q) r = omega (arith, expires-append q r)

-- What a stop leaves as it is.
pub record SameClock (s s' : TimerService) : Type 0 where
  pub tree : s'.tree ≡ s.tree
  pub armed : s'.armed ≡ s.armed
  pub polled : s'.polled ≡ s.polled
  pub poller : s'.poller ≡ s.poller
  pub expires : expires s'.queue ≡ expires s.queue

pub SameClock-refl : (s : TimerService) → SameClock s s
SameClock-refl s = record {
  tree = refl;
  armed = refl;
  polled = refl;
  poller = refl;
  expires = refl;
}

-- The service after the stop of a running timer.
abbrev stopped_service : ℕ → ℕ → DelegateFields → TimerService → TimerService
stopped_service timer a f s = record s {
  timers = erase timer s.timers;
  delegates = insert a (gone_fields f) s.delegates;
  queue = s.queue ++ timer_remove (record { address = a; future_time = f.made_for }) ∷ [];
}

stop_running :
    (timer a : ℕ) (f : DelegateFields) (s : TimerService)
    → find timer s.timers ≡ some a
    → find a s.delegates ≡ some f
    → f.in_container ≡ true
    → stop timer s ≡ some (stopped_service timer a f s, true)
unfolding stop destroy_locked
stop_running timer a f s runs found inside =
    rw (runs, stop) (rw (found, destroy_locked) (rw inside refl))

stop_idle :
    (timer : ℕ) (s : TimerService) → find timer s.timers ≡ none → stop timer s ≡ some (s, false)
unfolding stop
stop_idle timer s idle = rw (idle, stop) refl

-- A stop follows no freed pointer, and tells whether the timer has been running.
pub stop_lem :
    (timer : ℕ) (s : TimerService)
    → IsSafeNow s
    → (s' : TimerService) × (b : Bool) × (stop timer s ≡ some (s', b))
      × IsSafeNow s'
      × SameClock s s'
      × (s'.fired ≡ s.fired)
      × ((b ≡ true) ⊎ (find timer s.timers ≡ none))
stop_lem timer s h = elim (Option-cases (find timer s.timers)) [
  | inl idle ↦ (s, false, stop_idle timer s idle, h, SameClock-refl s, refl, inr idle)
  | inr (a, runs) ↦
      let (f, found, _, inside) = h.running timer a runs in
      (
        stopped_service timer a f s,
        true,
        stop_running timer a f s runs found inside,
        stop-IsSafe s.queue s.tree s.timers s.delegates s.next_address h timer a f runs found,
        record {
          tree = refl;
          armed = refl;
          polled = refl;
          poller = refl;
          expires =
              unfold expires in
              omega (
                arith,
                expires-append s.queue
                    (timer_remove (record { address = a; future_time = f.made_for }) ∷ []),
              );
        },
        refl,
        inl refl,
      )
]

-- The callback changes nothing but the list of callbacks.
called_back :
    (timer : ℕ) (s s' : TimerService) (b : Bool) {r : Option TimerService}
    → r ≡ some (if b then record s' { fired = s'.fired ++ timer ∷ [] } else s')
    → IsSafeNow s'
    → SameClock s s'
    → (s'' : TimerService) × (r ≡ some s'') × IsSafeNow s'' × SameClock s s''
called_back timer s s' true e h' same = (
  record s' { fired = s'.fired ++ timer ∷ [] },
  e,
  h',
  record {
    tree = same.tree;
    armed = same.armed;
    polled = same.polled;
    poller = same.poller;
    expires = same.expires;
  },
)
called_back timer s s' false e h' same = (s', e, h', same)

-- The expiration of a delegate that is allocated follows no freed pointer.
pub expire_delegate_lem :
    (d : Delegate) (f : DelegateFields) (s : TimerService)
    → find d.address s.delegates ≡ some f
    → IsSafeNow s
    → (s' : TimerService) × (expire_delegate d s ≡ some s') × IsSafeNow s' × SameClock s s'
unfolding expire_delegate
expire_delegate_lem d f s found h = elim (Option-cases f.client) [
  | inl idle ↦ (s, rw (found, expire_delegate) (rw idle refl), h, SameClock-refl s)
  | inr (timer, owner) ↦
      let (s', b, done, h', same, fired, _) = stop_lem timer s h in
      called_back timer s s' b (rw (found, expire_delegate) (rw owner (rw done refl))) h' same
]
