-- ===== src/Timer/Popping.antt =====
-- What `LocTimerContainer` (gps/utils/LocTimer.cpp) takes out of its heap.
use android_device_xiaomi_ms.Base.{
  ◌<◌, ◌≤◌, ◌≡◌, ◌⊎◌, ◌∙◌, refl, sym, ap, Bool, true, false, none, some, arith, Bool-cases, inl,
  inr,
}
use android_device_xiaomi_ms.Heap.Node.{LocHeapNode, null, node, push, pop, peek}
use android_device_xiaomi_ms.Heap.Order.{IsHeap, count, count-push, push-IsHeap}
use android_device_xiaomi_ms.Heap.Operations.{Without, pop_lem}
use android_device_xiaomi_ms.Heap.Removal.{remove_lem}
use android_device_xiaomi_ms.Timer.Types.{
  Timespec, Delegate, earlier, is_same_delegate, is_same_delegate_iff, by_time, not_earlier_trans,
  not_earlier_eq,
}
use android_device_xiaomi_ms.Timer.Service.{pop_if_out_ranks, same_top, removed_top}

abbrev pub Tree : Type 0
Tree = LocHeapNode Delegate

-- `d` is the top of `t`, nothing in `t` is earlier, and `rest` is what a pop leaves.
pub record TopTaken (d : Delegate) (t rest : Tree) : Type 0 where
  pub top : peek by_time t ≡ some d
  pub there : 0 < count by_time d t
  pub without : Without by_time d t rest
  pub soonest : (e : Delegate) → 0 < count by_time e t → earlier e.future_time d.future_time ≡ false

pub pop_cases :
    (t : Tree)
    → IsHeap by_time t
    → ((pop by_time t ≡ none) × (peek by_time t ≡ none) × ((d : Delegate) → count by_time d t ≡ 0))
      ⊎ ((d : Delegate) × (rest : Tree) × (pop by_time t ≡ some (d, rest)) × TopTaken d t rest)
pop_cases null h = inl (unfold pop in refl, unfold peek in refl, λ d. unfold count in refl)
pop_cases (node n d l r) h =
    let (rest, popped, without, highest) = pop_lem by_time n d l r h in
    inr (
      d,
      rest,
      popped,
      record {
        top = unfold peek in refl;
        there = let same = (is_same_delegate_iff d d).1 refl in unfold count in ground arith;
        without = without;
        soonest = λ e somewhere. let high = highest e in ground arith;
      },
    )

-- Nothing in the tree is due at `now`, or the top is and is taken.
pub pop_if_cases :
    (now : Timespec) (t : Tree)
    → IsHeap by_time t
    → ((pop_if_out_ranks now t ≡ none)
        × ((d : Delegate) → 0 < count by_time d t → earlier now d.future_time ≡ true))
      ⊎ ((d : Delegate) × (rest : Tree) × (pop_if_out_ranks now t ≡ some (d, rest))
          × (earlier now d.future_time ≡ false)
          × TopTaken d t rest)
unfolding pop_if_out_ranks
pop_if_cases now t h = elim (pop_cases t h) [
  | inl (popped, top, absent) ↦
      inl (rw (top, pop_if_out_ranks) refl, λ d there. let zero = absent d in absurd (omega arith))
  | inr (d, rest, popped, taken) ↦ elim (Bool-cases (earlier now d.future_time)) [
    | inl later ↦ inl (
      rw (taken.top, pop_if_out_ranks) (rw later refl),
      λ e there. elim (Bool-cases (earlier now e.future_time)) [
        | inl late ↦ late
        | inr due ↦
            let contrary =
              not_earlier_trans now e.future_time d.future_time due (taken.soonest e there) in
            absurd (cc)
      ],
    )
    | inr due ↦ inr (d, rest, rw (taken.top, pop_if_out_ranks) (rw due popped), due, taken)
  ]
]

-- The top is in the tree, and nothing there is earlier.
pub peek_lem :
    (t : Tree) (top : Delegate)
    → IsHeap by_time t
    → peek by_time t ≡ some top
    → (0 < count by_time top t)
      × ((e : Delegate) → 0 < count by_time e t → earlier e.future_time top.future_time ≡ false)
peek_lem t top h at = elim (pop_cases t h) [
  | inl (_, nothing, _) ↦ absurd (let both : some top ≡ none = sym at ∙ nothing in cc)
  | inr (d, rest, _, taken) ↦
      let same : d ≡ top = let one = taken.top in cc in
      (rw (← same) taken.there, rw (← same) taken.soonest)
]

-- The tops of two trees that have one another's have the same time.
same_time :
    (t t' : Tree) (first top : Delegate)
    → IsHeap by_time t
    → IsHeap by_time t'
    → peek by_time t ≡ some first
    → peek by_time t' ≡ some top
    → 0 < count by_time first t'
    → 0 < count by_time top t
    → top.future_time ≡ first.future_time
same_time t t' first top h h' at at' there there' =
    not_earlier_eq top.future_time first.future_time ((peek_lem t first h at).1 top there')
      ((peek_lem t' top h' at').1 first there)

-- A push into a tree with a top that is not after the new top.
pub push_same_time :
    (t : Tree) (d first top : Delegate)
    → IsHeap by_time t
    → peek by_time t ≡ some first
    → peek by_time (push by_time d t) ≡ some top
    → earlier top.future_time first.future_time ≡ false
    → top.future_time ≡ first.future_time
push_same_time t d first top h at at' not_sooner =
    let h' = push-IsHeap by_time d t h in
    let (there, _) = peek_lem t first h at in
    let there' : 0 < count by_time first (push by_time d t) =
      omega (arith, count-push by_time first d t) in
    not_earlier_eq top.future_time first.future_time not_sooner
      ((peek_lem (push by_time d t) top h' at').1 first there')

-- What a removal leaves; where it says that the top stays, the time of the top stays.
pub record TopRemoved (d : Delegate) (t rest : Tree) (was_top : Bool) : Type 0 where
  pub heap : IsHeap by_time rest
  pub fewer : (e : Delegate) → count by_time e rest ≤ count by_time e t
  pub taken : count by_time d t ≤ 1 → count by_time d rest ≡ 0
  pub kept :
      (top : Delegate)
      → was_top ≡ false
      → peek by_time rest ≡ some top
      → (first : Delegate) × (peek by_time t ≡ some first) × (top.future_time ≡ first.future_time)

-- A part of a heap without `d`, whose top is another one.
other_top :
    (d : Delegate) (t rest : Tree) (top : Delegate)
    → IsHeap by_time t
    → Without by_time d t rest
    → same_top (peek by_time t) (some d) ≡ false
    → peek by_time rest ≡ some top
    → (first : Delegate) × (peek by_time t ≡ some first) × (top.future_time ≡ first.future_time)
other_top d t rest top h w differs at = elim (pop_cases t h) [
  | inl (_, _, absent) ↦
      let (there, _) = peek_lem rest top w.heap at in
      let counted = w.counts top in let zero = absent top in absurd (omega arith)
  | inr (first, _, _, taken) ↦
      let (there, _) = peek_lem rest top w.heap at in
      let there' : 0 < count by_time top t = omega (arith, w.counts top) in
      let other : is_same_delegate first d ≡ false =
        rw (← (ap (λ o. same_top o (some d)) taken.top)) differs in
      let counted = w.counts first in
      let stays : 0 < count by_time first rest = let is = taken.there in ground arith in
      (first, taken.top, same_time t rest first top h w.heap taken.top at stays there')
]

pub removed_top_lem :
    (d : Delegate) (t : Tree)
    → IsHeap by_time t
    → TopRemoved d t (removed_top d t).0 (removed_top d t).1
unfolding removed_top
removed_top_lem d t h = elim (remove_lem by_time d t h) [
  | inl (absent, nothing) ↦
      rw (nothing, removed_top)
        (record {
          heap = h;
          fewer = λ e. omega arith;
          taken = λ once. absent;
          kept = λ top stays at. (top, at, refl);
        })
  | inr (rest, removed, w) ↦
      rw (removed, removed_top)
        (record {
          heap = w.heap;
          fewer = λ e. omega (arith, w.counts e);
          taken = λ once.
              let same = (is_same_delegate_iff d d).1 refl in
              let counted = w.counts d in ground arith;
          kept = λ top stays at. other_top d t rest top h w stays at;
        })
]
