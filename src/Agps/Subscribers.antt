-- ===== src/Agps/Subscribers.antt =====
-- The subscriber list of an `AgpsStateMachine` (gps/gnss/Agps.cpp), oldest first.
use android_device_xiaomi_ms.Base.{
  ℕ, zero, suc, Bool, true, false, not, ◌||◌, Option, none, some, List, [], ◌∷◌, ◌++◌, ◌==◌,
  if◌then◌else◌,
}
use android_device_xiaomi_ms.Agps.Types.{AgpsSubscriber}
use mathlib.Core.Option

-- `AgpsSubscriber::equals`.
unfoldable pub equals : AgpsSubscriber → AgpsSubscriber → Bool
equals s t = s.conn_handle == t.conn_handle

-- Is an equal subscriber in the list?
unfoldable pub contains : AgpsSubscriber → List AgpsSubscriber → Bool
unfolding equals
contains s [] = false
contains s (x ∷ xs) = equals x s || contains s xs

-- `addSubscriber`: the clone of `s` goes to the end, unless an equal one is there.
unfoldable pub add_subscriber : AgpsSubscriber → List AgpsSubscriber → List AgpsSubscriber
unfolding contains
add_subscriber s xs = if contains s xs then xs else xs ++ s ∷ []

-- `deleteSubscriber` for a subscriber outside the list: the equal ones go.
unfoldable pub delete_equal : AgpsSubscriber → List AgpsSubscriber → List AgpsSubscriber
unfolding equals
delete_equal s [] = []
delete_equal s (x ∷ xs) = let rest = delete_equal s xs in if equals x s then rest else x ∷ rest

-- `deleteSubscriber` for the entry at a position, whose value is `s`: the loop deletes the entry that
-- it is asked to compare with, and `none` says that it then reads the freed entry once more.
unfoldable pub delete_entry :
    AgpsSubscriber → ℕ → List AgpsSubscriber → Option (List AgpsSubscriber)
unfolding equals
delete_entry s i [] = some []
delete_entry s zero (x ∷ []) = some []
delete_entry s zero (x ∷ y ∷ ys) = none
delete_entry s (suc i) (x ∷ xs) =
    Option.map (λ rest. if equals x s then rest else x ∷ rest) (delete_entry s i xs)

-- `anyActiveSubscribers`.
unfoldable pub any_active_subscribers : List AgpsSubscriber → Bool
any_active_subscribers [] = false
any_active_subscribers (x ∷ xs) = not x.is_inactive || any_active_subscribers xs

-- `getSubscriber`: the position of the first entry with the handle.
unfoldable pub get_subscriber : ℕ → List AgpsSubscriber → Option ℕ
get_subscriber h [] = none
get_subscriber h (x ∷ xs) =
    let rest = Option.map suc (get_subscriber h xs) in
    if x.conn_handle == h then some zero else rest

-- `getFirstSubscriber`: the first entry that is inactive, or active, as asked.
unfoldable pub get_first_subscriber : Bool → List AgpsSubscriber → Option AgpsSubscriber
get_first_subscriber inactive [] = none
get_first_subscriber inactive (x ∷ xs) =
    let rest = get_first_subscriber inactive xs in
    if same x.is_inactive inactive then some x else rest
  where
    same : Bool → Bool → Bool
    same true b = b
    same false b = not b
