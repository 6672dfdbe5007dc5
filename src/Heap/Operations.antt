-- ===== src/Heap/Operations.antt =====
-- The operations of `LocHeap` (gps/utils/LocHeap.h and gps/utils/LocHeap.cpp) against counts.
use android_device_xiaomi_ms.Base.{
  ◌&&◌, ltb, ℕ, ◌+◌, ◌<◌, ◌≡◌, ap, false, some, arith, ◌==◌, Bool-cases, inl, inr,
}
use android_device_xiaomi_ms.Heap.Node.{
  LocRankable, LocHeapNode, null, node, get_size, content_or, push, pop_as, pop,
}
use android_device_xiaomi_ms.Heap.Order.{
  IsAbove, IsHeap, one_if, count, out_ranks_irrefl, push_size, push-IsHeap, count-push, pop_as-fst,
  Popped, pop_as-Popped,
}

module _ {ℓ} {A : Type ℓ} (R : LocRankable A) where
  open R use {out_ranks, is_same}

  -- What is in a subtree is not above what the subtree's top is not above.
  through_top :
      (y d : A) (t : LocHeapNode A)
      → 0 < count R y t
      → out_ranks y (content_or y t) ≡ false
      → IsAbove R d t
      → out_ranks y d ≡ false
  unfolding count
  through_top y d null c h a = absurd (omega arith)
  through_top y d (node n e l r) c h a = R.not_out_ranks_trans y e d h a

  -- Nothing in a heap outranks its top.
  pub top_highest :
      (y : A) (t : LocHeapNode A)
      → IsHeap R t
      → 0 < count R y t
      → out_ranks y (content_or y t) ≡ false
  unfolding count
  top_highest y null h c = absurd (omega arith)
  top_highest y (node n d l r) h c = elim (Bool-cases (is_same y d)) [
    | inl hit ↦ let same : y ≡ d = (R.is_same_iff y d).0 hit in rw same (out_ranks_irrefl R d)
    | inr miss ↦ elim (Bool-cases (count R y l == 0)) [
      | inl absent ↦
          let below : 0 < count R y r = ground arith in
          through_top y d r below (top_highest y r h.4 below) h.1
      | inr present ↦
          let below : 0 < count R y l = ground arith in
          through_top y d l below (top_highest y l h.3 below) h.0
    ]
  ]

  -- After a push on a heap the pushed element is in it once more, all else as often as before, and heap
  -- order and sizes hold.
  pub push_lem :
      (x : A) (t : LocHeapNode A)
      → IsHeap R t
      → IsHeap R (push R x t)
        × (get_size (push R x t) ≡ get_size t + 1)
        × ((y : A) → count R y (push R x t) ≡ count R y t + one_if R (is_same y x))
  push_lem x t h = (push-IsHeap R x t h, push_size R x t, λ y. count-push R y x t)

  -- `rest` is the heap `t` without one `x`.
  pub record Without (x : A) (t rest : LocHeapNode A) : Type ℓ where
    pub heap : IsHeap R rest
    pub size : get_size rest + 1 ≡ get_size t
    pub counts : (y : A) → count R y rest + one_if R (is_same y x) ≡ count R y t
    pub above : (e : A) → IsAbove R e t → IsAbove R e rest

  Without-top :
      (n : ℕ) (d : A) (l r rest : LocHeapNode A)
      → Popped R d (node n d l r) rest
      → Without d (node n d l r) rest
  Without-top n d l r null p = record {
    heap = p.heap;
    size = p.size;
    counts = p.counts;
    above = λ e a. out_ranks_irrefl R e;
  }
  Without-top n d l r (node m c ll lr) p = record {
    heap = p.heap;
    size = p.size;
    counts = p.counts;
    above = λ e a. R.not_out_ranks_trans c d e p.above a;
  }

  -- `pop` takes the top out of a heap, than which nothing in the heap ranks higher, and leaves the
  -- rest, a heap.
  pub pop_lem :
      (n : ℕ) (d : A) (l r : LocHeapNode A)
      → IsHeap R (node n d l r)
      → (rest : LocHeapNode A) × (pop R (node n d l r) ≡ some (d, rest))
        × Without d (node n d l r) rest
        × ((y : A) → (ltb 0 (count R y (node n d l r)) && out_ranks y d) ≡ false)
  unfolding pop
  pop_lem n d l r h =
      let t = node n d l r in
      (
        (pop_as R d t).1,
        ap some (λ i. (pop_as-fst R d t i, (pop_as R d t).1)),
        Without-top n d l r _ (pop_as-Popped R d t h),
        λ y. elim (Bool-cases (ltb 0 (count R y t))) [
          | inl there ↦
              let some_y : 0 < count R y t = ground arith in
              let below = top_highest y t h some_y in ground arith
          | inr absent ↦ ground arith
        ],
      )
