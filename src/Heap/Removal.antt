-- ===== src/Heap/Removal.antt =====
-- `remove` and `checkNodes` of gps/utils/LocHeap.cpp, and the heap as a priority queue.
use android_device_xiaomi_ms.Base.{
  ℕ, zero, suc, ◌+◌, ◌-◌, ◌≡◌, ◌↔◌, ◌⊎◌, refl, Bool, true, false, not, ◌&&◌, ◌||◌, Option, none,
  some, List, [], ◌∷◌, arith, ◌==◌, Bool-cases, inl, inr,
}
use android_device_xiaomi_ms.Heap.Node.{
  LocRankable, LocHeapNode, null, node, is_null, get_size, content_or, pop, remove, check_nodes,
}
use android_device_xiaomi_ms.Heap.Order.{IsAbove, IsHeap, one_if, count, out_ranks_irrefl}
use android_device_xiaomi_ms.Heap.Operations.{top_highest, Without, pop_lem}
use mathlib.Core.Option

module _ {ℓ} {A : Type ℓ} (R : LocRankable A) where
  open R use {out_ranks, is_same}

  -- Nothing where `x` is not in the heap, and otherwise `x` and the heap without it.
  abbrev pub Removes : A → LocHeapNode A → Option (A × LocHeapNode A) → Type ℓ
  Removes x t r =
      ((count R x t ≡ 0) × (r ≡ none))
      ⊎ ((rest : LocHeapNode A) × (r ≡ some (x, rest)) × Without R x t rest)

  -- What outranks the top of a heap is not in it.
  not_in_heap :
      (x : A) (t : LocHeapNode A)
      → IsHeap R t
      → out_ranks x (content_or x t) ≡ true
      → count R x t ≡ 0
  not_in_heap x t h o = elim (Bool-cases (count R x t == 0)) [
    | inl absent ↦ ground arith
    | inr present ↦
        let low : out_ranks x (content_or x t) ≡ false = top_highest R x t h (ground arith) in
        absurd (ground arith)
  ]

  Without-left :
      (x d : A) (n : ℕ) (l l' r : LocHeapNode A)
      → IsHeap R (node n d l r)
      → Without R x l l'
      → Without R x (node n d l r) (node (n - 1) d l' r)
  unfolding count
  Without-left x d n l l' r (hl, hr, s, gl, gr) w = record {
    heap = (w.above d hl, hr, omega (arith, w.size), w.heap, gr);
    size = omega (arith, w.size);
    counts = λ y. omega (arith, w.counts y);
    above = λ e a. a;
  }

  Without-right :
      (x d : A) (n : ℕ) (l r r' : LocHeapNode A)
      → IsHeap R (node n d l r)
      → Without R x r r'
      → Without R x (node n d l r) (node (n - 1) d l r')
  unfolding count
  Without-right x d n l r r' (hl, hr, s, gl, gr) w = record {
    heap = (hl, w.above d hr, omega (arith, w.size), gl, w.heap);
    size = omega (arith, w.size);
    counts = λ y. omega (arith, w.counts y);
    above = λ e a. a;
  }

  -- The search of the two subtrees.
  in_children_lem :
      (x d : A) (n : ℕ) (l r : LocHeapNode A)
      → IsHeap R (node n d l r)
      → is_same x d ≡ false
      → Removes x l (remove R x l)
      → Removes x r (remove R x r)
      → Removes x (node n d l r) (elim (remove R x l) [
        | some (y, l') ↦ some (y, node (n - 1) d l' r)
        | none ↦ Option.map (λ p. (p.0, node (n - 1) d l p.1)) (remove R x r)
      ])
  unfolding count
  in_children_lem x d n l r h other (inr (l', e, w)) _ =
      rw e (inr (node (n - 1) d l' r, refl, Without-left x d n l l' r h w))
  in_children_lem x d n l r h other (inl (cl, e)) (inr (r', e', w)) =
      rw (e, e') (inr (node (n - 1) d l r', refl, Without-right x d n l r r' h w))
  in_children_lem x d n l r h other (inl (cl, e)) (inl (cr, e')) =
      rw (e, e') (inl (rw other (omega arith), refl))

  popped_as :
      (x d : A) {r : Option (A × LocHeapNode A)} {rest : LocHeapNode A}
      → x ≡ d
      → r ≡ some (d, rest)
      → r ≡ some (x, rest)
  popped_as x d {r} {rest} same e = rw same e

  -- In a heap `remove`, which compares addresses, finds every element that is there, takes it out once and
  -- leaves a heap; it finds nothing exactly if the element itself is not there, also where another one ranks
  -- the same.
  pub remove_lem : (x : A) (t : LocHeapNode A) → IsHeap R t → Removes x t (remove R x t)
  unfolding remove
  remove_lem x null h = inl (unfold count in refl, refl)
  remove_lem x (node n d l r) h = elim (Bool-cases (is_same x d)) [
    | inl hit ↦
        let same : x ≡ d = (R.is_same_iff x d).0 hit in
        let (rest, popped, w, _) = pop_lem R n d l r h in
        rw (hit, remove) (inr (rest, popped_as x d same popped, rw same w))
    | inr miss ↦ elim (Bool-cases (out_ranks x d)) [
      | inl higher ↦
          rw (miss, remove)
            (rw (higher, remove) (inl (not_in_heap x (node n d l r) h higher, refl)))
      | inr lower ↦
          rw (miss, remove)
            (rw (lower, remove)
              (in_children_lem x d n l r h miss (remove_lem x l h.3) (remove_lem x r h.4)))
    ]
  ]

  and_true : (a b : Bool) → (a && b) ≡ true → (a ≡ true) × (b ≡ true)
  and_true a b e = ground arith

  child_iff :
      (d : A) (t : LocHeapNode A)
      → (check_nodes R t ≡ true) ↔ IsHeap R t
      → ((is_null t || not (out_ranks (content_or d t) d) && check_nodes R t) ≡ true)
        ↔ (IsAbove R d t × IsHeap R t)
  child_iff d null i = (λ e. (out_ranks_irrefl R d, tt), λ h. refl)
  child_iff d (node n c l r) i = (
    λ e.
        let parts = and_true (not (out_ranks c d)) (check_nodes R (node n c l r)) e in
        (ground (arith, parts.0), i.0 parts.1),
    λ h. rw h.0 (i.1 h.1),
  )

  size_iff : (n a b : ℕ) → ((n - a - b == 1) ≡ true) ↔ (n ≡ a + b + 1)
  size_iff n a b = (λ e. ground arith, λ e. ground arith)

  -- `checkNodes` accepts exactly the trees that are heaps.
  pub check_nodes_iff : (t : LocHeapNode A) → (check_nodes R t ≡ true) ↔ IsHeap R t
  unfolding check_nodes
  check_nodes_iff null = (λ e. tt, λ h. refl)
  check_nodes_iff (node n d l r) = (
    λ e.
        let (ok_left, ok_rest) = and_true _ _ e in
        let (ok_right, ok_size) = and_true _ _ ok_rest in
        let (above_left, heap_left) = (child_iff d l (check_nodes_iff l)).0 ok_left in
        let (above_right, heap_right) = (child_iff d r (check_nodes_iff r)).0 ok_right in
        (above_left, above_right, (size_iff n _ _).0 ok_size, heap_left, heap_right),
    λ (hl, hr, s, gl, gr).
        rw ((child_iff d l (check_nodes_iff l)).1 (hl, gl))
          (rw ((child_iff d r (check_nodes_iff r)).1 (hr, gr)) ((size_iff n _ _).1 s)),
  )

  -- Pops as long as there is something, at most `fuel` times.
  unfoldable pub drain : ℕ → LocHeapNode A → List A
  drain zero t = []
  drain (suc fuel) t = elim (pop R t) [ none ↦ [] | some (x, rest) ↦ x ∷ drain fuel rest ]

  -- No element outranks the one before it, nor the first one `d`.
  abbrev pub IsRankedFrom : A → List A → Type 0
  IsRankedFrom d [] = Unit {0}
  IsRankedFrom d (x ∷ xs) = (out_ranks x d ≡ false) × IsRankedFrom x xs

  abbrev pub count_list : A → List A → ℕ
  count_list y [] = 0
  count_list y (x ∷ xs) = one_if R (is_same y x) + count_list y xs

  -- Popping a heap as often as its size says gives each of its elements as often as it is there,
  -- highest rank first.
  pub drain_lem :
      (d : A) (t : LocHeapNode A) (fuel : ℕ)
      → IsHeap R t
      → IsAbove R d t
      → get_size t ≡ fuel
      → IsRankedFrom d (drain fuel t) × ((y : A) → count_list y (drain fuel t) ≡ count R y t)
  unfolding drain count
  drain_lem d null zero h a s = (tt, λ y. refl)
  drain_lem d null (suc fuel) h a s = absurd (omega arith)
  drain_lem d (node n e l r) zero h a s = absurd (omega arith)
  drain_lem d (node n e l r) (suc fuel) h a s =
      let (rest, popped, w, _) = pop_lem R n e l r h in
      let (ranked, counted) =
        drain_lem e rest fuel w.heap (w.above e (out_ranks_irrefl R e)) (omega (arith, w.size)) in
      rw (popped, drain) ((a, ranked), λ y. omega (arith, counted y, w.counts y))
