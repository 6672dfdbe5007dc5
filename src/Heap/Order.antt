-- ===== src/Heap/Order.antt =====
-- The heap's order, its sizes and its contents, under the operations of gps/utils/LocHeap.cpp.
use android_device_xiaomi_ms.Base.{
  ℕ, suc, ◌+◌, ◌-◌, ◌≡◌, refl, Bool, true, false, arith, leb, if◌then◌else◌, if_both, Bool-cases,
  inl, inr,
}
use android_device_xiaomi_ms.Heap.Node.{
  LocRankable, LocHeapNode, null, node, is_null, get_size, content_or, push, pop_as,
}

module _ {ℓ} {A : Type ℓ} (R : LocRankable A) where
  open R use {out_ranks, is_same}

  -- Nothing at the top of `t` outranks `d`.
  abbrev pub IsAbove : A → LocHeapNode A → Type 0
  IsAbove d t = out_ranks (content_or d t) d ≡ false

  -- Every node is at least as high as its children, and its size is the number of nodes below it and
  -- itself.
  abbrev pub IsHeap : LocHeapNode A → Type 0
  IsHeap null = Unit {0}
  IsHeap (node n d l r) =
      IsAbove d l × IsAbove d r × (n ≡ get_size l + get_size r + 1) × IsHeap l × IsHeap r

  abbrev pub one_if : Bool → ℕ
  one_if true = 1
  one_if false = 0

  -- How often `y` is in the tree.
  unfoldable pub count : A → LocHeapNode A → ℕ
  count y null = 0
  count y (node n d l r) = one_if (is_same y d) + count y l + count y r

  pub out_ranks_irrefl : (a : A) → out_ranks a a ≡ false
  out_ranks_irrefl a = elim (Bool-cases (out_ranks a a)) [
    | inl h ↦ R.out_ranks_asymm a a h
    | inr h ↦ h
  ]

  IsAbove-null : (d : A) → IsAbove d null
  IsAbove-null d = out_ranks_irrefl d

  -- What is above the data of a pushed node stays above.
  pub push_size : (x : A) (t : LocHeapNode A) → get_size (push R x t) ≡ get_size t + 1
  unfolding push
  push_size x null = refl
  push_size x (node n d l r) = ground arith

  push-IsAbove :
      (d x : A) (t : LocHeapNode A) → IsAbove d t → out_ranks x d ≡ false → IsAbove d (push R x t)
  unfolding push
  push-IsAbove d x null h e = e
  push-IsAbove d x (node n c l r) h e = ground arith

  -- What is above `t` may be replaced by what is higher.
  IsAbove-higher : (d x : A) (t : LocHeapNode A) → IsAbove d t → out_ranks d x ≡ false → IsAbove x t
  IsAbove-higher d x null h e = out_ranks_irrefl x
  IsAbove-higher d x (node n c l r) h e = R.not_out_ranks_trans c d x h e

  -- The new node goes into one of the subtrees.
  placed_left :
      (n : ℕ) (top low : A) (l r : LocHeapNode A)
      → IsAbove top l
      → IsAbove top r
      → out_ranks low top ≡ false
      → n ≡ get_size l + get_size r + 1
      → IsHeap r
      → IsHeap (push R low l)
      → IsHeap (node (suc n) top (push R low l) r)
  placed_left n top low l r hl hr e s gr gl =
      (push-IsAbove top low l hl e, hr, omega (arith, push_size low l), gl, gr)

  placed_right :
      (n : ℕ) (top low : A) (l r : LocHeapNode A)
      → IsAbove top l
      → IsAbove top r
      → out_ranks low top ≡ false
      → n ≡ get_size l + get_size r + 1
      → IsHeap l
      → IsHeap (push R low r)
      → IsHeap (node (suc n) top l (push R low r))
  placed_right n top low l r hl hr e s gl gr =
      (hl, push-IsAbove top low r hr e, omega (arith, push_size low r), gl, gr)

  placed :
      (n : ℕ) (top low : A) (l r : LocHeapNode A)
      → IsAbove top l
      → IsAbove top r
      → out_ranks low top ≡ false
      → n ≡ get_size l + get_size r + 1
      → IsHeap l
      → IsHeap r
      → IsHeap (push R low l)
      → IsHeap (push R low r)
      → IsHeap (
          let in_left = node (suc n) top (push R low l) r in
          let in_right = node (suc n) top l (push R low r) in
          if is_null l
          then in_left
          else if is_null r
          then in_right
          else if leb (get_size l) (get_size r)
          then in_left
          else in_right)
  placed n top low l r hl hr e s gl gr pl pr =
      let left = placed_left n top low l r hl hr e s gr pl in
      let right = placed_right n top low l r hl hr e s gl pr in
      if_both IsHeap (is_null l) left (
        if_both IsHeap (is_null r) right
          (if_both IsHeap (leb (get_size l) (get_size r)) left right))

  pub push-IsHeap : (x : A) (t : LocHeapNode A) → IsHeap t → IsHeap (push R x t)
  unfolding push
  push-IsHeap x null h = (out_ranks_irrefl x, out_ranks_irrefl x, refl, tt, tt)
  push-IsHeap x (node n d l r) (hl, hr, s, gl, gr) = elim (Bool-cases (out_ranks x d)) [
    | inl higher ↦
        let lower = R.out_ranks_asymm x d higher in
        rw higher (
          placed n x d l r (IsAbove-higher d x l hl lower) (IsAbove-higher d x r hr lower) lower s
            gl gr (push-IsHeap d l gl) (push-IsHeap d r gr))
    | inr lower ↦
        rw lower (placed n d x l r hl hr lower s gl gr (push-IsHeap x l gl) (push-IsHeap x r gr))
  ]

  pub count-push :
      (y x : A) (t : LocHeapNode A) → count y (push R x t) ≡ count y t + one_if (is_same y x)
  unfolding push count
  count-push y x null = omega arith
  count-push y x (node n d l r) =
      ground (arith, count-push y x l, count-push y x r, count-push y d l, count-push y d r)

  pub pop_as-fst : (d : A) (t : LocHeapNode A) → (pop_as R d t).0 ≡ d
  unfolding pop_as
  pop_as-fst d null = refl
  pop_as-fst d (node n c l r) = ground (arith, pop_as-fst d l, pop_as-fst d r)

  -- `rest` is the heap `t` without the data `c` of its top.
  pub record Popped (c : A) (t rest : LocHeapNode A) : Type ℓ where
    pub heap : IsHeap rest
    pub above : IsAbove c rest
    pub size : get_size rest + 1 ≡ get_size t
    pub counts : (y : A) → count y rest + one_if (is_same y c) ≡ count y t

  from_left_Popped :
      (n : ℕ) (c e : A) (l l' r : LocHeapNode A)
      → IsHeap (node n c l r)
      → content_or c l ≡ e
      → Popped e l l'
      → IsAbove e r
      → Popped c (node n c l r) (node (n - 1) e l' r)
  unfolding count
  from_left_Popped n c e l l' r (hl, hr, s, gl, gr) top p he = record {
    heap = (p.above, he, omega (arith, p.size), p.heap, gr);
    above = rw top at hl;
    size = omega (arith, p.size);
    counts = λ y. omega (arith, p.counts y);
  }

  from_right_Popped :
      (n : ℕ) (c e : A) (l r r' : LocHeapNode A)
      → IsHeap (node n c l r)
      → content_or c r ≡ e
      → Popped e r r'
      → IsAbove e l
      → Popped c (node n c l r) (node (n - 1) e l r')
  unfolding count
  from_right_Popped n c e l r r' (hl, hr, s, gl, gr) top p he = record {
    heap = (he, p.above, omega (arith, p.size), gl, p.heap);
    above = rw top at hr;
    size = omega (arith, p.size);
    counts = λ y. omega (arith, p.counts y);
  }

  abbrev pub PoppedTop : LocHeapNode A → LocHeapNode A → Type ℓ
  PoppedTop null rest = Unit
  PoppedTop (node n c l r) rest = Popped c (node n c l r) rest

  pub pop_as-Popped : (d : A) (t : LocHeapNode A) → IsHeap t → PoppedTop t (pop_as R d t).1
  unfolding pop_as
  pop_as-Popped d null h = tt
  pop_as-Popped d (node n c null null) h = record {
    heap = tt;
    above = out_ranks_irrefl c;
    size = omega (arith, h.2);
    counts = λ y. unfold count in omega arith;
  }
  pop_as-Popped d (node n c null (node m e rl rr)) h =
      from_right_Popped n c e null (node m e rl rr) _ h refl (pop_as-Popped d (node m e rl rr) h.4)
        (out_ranks_irrefl e)
  pop_as-Popped d (node n c (node m e ll lr) null) h =
      from_left_Popped n c e (node m e ll lr) _ null h refl (pop_as-Popped d (node m e ll lr) h.3)
        (out_ranks_irrefl e)
  pop_as-Popped d (node n c (node k a ll lr) (node m b rl rr)) h =
      elim (Bool-cases (out_ranks a b)) [
        | inl left_wins ↦ rw left_wins (
            from_left_Popped n c a (node k a ll lr) _ (node m b rl rr) h refl
              (pop_as-Popped d (node k a ll lr) h.3) (R.out_ranks_asymm a b left_wins))
        | inr right_wins ↦ rw right_wins (
            from_right_Popped n c b (node k a ll lr) (node m b rl rr) _ h refl
              (pop_as-Popped d (node m b rl rr) h.4) right_wins)
      ]
