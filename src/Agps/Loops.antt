-- ===== src/Agps/Loops.antt =====
-- What the loop of `notifyAllSubscribers` does, in closed form.
use android_device_xiaomi_ms.Base.{
  ◌≡◌, refl, Bool, true, false, not, List, [], ◌∷◌, ◌++◌, arith, if◌then◌else◌, filter,
}
use android_device_xiaomi_ms.Agps.Types.{
  AgpsEvent, AgpsNotificationType, AgpsSubscriber, AgpsStateMachine, Signal,
}
use android_device_xiaomi_ms.Agps.Machine.{callbacks, is_meant_for, notify_loop}

-- The callbacks of all subscribers of the list.
abbrev pub all_callbacks : AgpsStateMachine → AgpsEvent → List AgpsSubscriber → List Signal
all_callbacks m e [] = []
all_callbacks m e (s ∷ ss) = callbacks m e s ++ all_callbacks m e ss

pub notify_loop-fst :
    (m : AgpsStateMachine) (e : AgpsEvent) (delete : Bool) (t : AgpsNotificationType)
    (ss : List AgpsSubscriber)
    → (notify_loop m e delete t ss).0
      ≡ (if delete then filter (λ s. not (is_meant_for t s)) ss else ss)
unfolding notify_loop
notify_loop-fst m e true t [] = refl
notify_loop-fst m e false t [] = refl
notify_loop-fst m e true t (s ∷ ss) = ground (arith, notify_loop-fst m e true t ss)
notify_loop-fst m e false t (s ∷ ss) = ground (arith, notify_loop-fst m e false t ss)

pub notify_loop-snd :
    (m : AgpsStateMachine) (e : AgpsEvent) (delete : Bool) (t : AgpsNotificationType)
    (ss : List AgpsSubscriber)
    → (notify_loop m e delete t ss).1 ≡ all_callbacks m e (filter (is_meant_for t) ss)
unfolding notify_loop
notify_loop-snd m e d t [] = refl
notify_loop-snd m e d t (s ∷ ss) = ground (arith, notify_loop-snd m e d t ss)
