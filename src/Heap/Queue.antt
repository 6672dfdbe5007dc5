-- ===== src/Heap/Queue.antt =====
-- The heap of gps/utils/LocHeap.cpp as a queue: an abstract specification that forgets the tree, and the
-- heap that keeps to it.
use android_device_xiaomi_ms.Base.{
  ℕ, ◌+◌, ◌<◌, ◌≡◌, refl, sym, subst, ap, true, false, Option, none, some, List, [], ◌∷◌, ◌&&◌, ltb,
  arith, inl, inr,
}
use android_device_xiaomi_ms.Heap.Node.{
  LocRankable, LocHeapNode, null, node, push, pop, peek, remove,
}
use android_device_xiaomi_ms.Heap.Order.{IsHeap, one_if, count}
use android_device_xiaomi_ms.Heap.Operations.{push_lem, pop_lem}
use android_device_xiaomi_ms.Heap.Removal.{remove_lem}

-- The calls of a client of `LocHeap`.
pub data HeapRequest {ℓ} (A : Type ℓ) : Type ℓ where
  push_request : A → HeapRequest A
  pop_request peek_request : HeapRequest A
  remove_request : A → HeapRequest A

module _ {ℓ} {A : Type ℓ} (R : LocRankable A) where
  open R use {out_ranks, is_same}

  -- What comes out, or nothing, with the tree that is left.
  abbrev or_stay : LocHeapNode A → Option (A × LocHeapNode A) → Option A × LocHeapNode A
  or_stay t none = (none, t)
  or_stay t (some (d, rest)) = (some d, rest)

  unfoldable pub serve : HeapRequest A → LocHeapNode A → Option A × LocHeapNode A
  unfolding push pop peek remove
  serve (push_request x) t = (none, push R x t)
  serve pop_request t = or_stay t (pop R t)
  serve peek_request t = (peek R t, t)
  serve (remove_request x) t = or_stay t (remove R x t)

  unfoldable pub serve_all : List (HeapRequest A) → LocHeapNode A → List (Option A)
  unfolding serve
  serve_all [] t = []
  serve_all (request ∷ rest) t = let (out, left) = serve request t in out ∷ serve_all rest left

  -- A bag says how often each element is there.
  abbrev pub Bag : Type ℓ
  Bag = A → ℕ

  -- The second bag has one `x` more.
  abbrev pub OneMore : A → Bag → Bag → Type ℓ
  OneMore x b c = (y : A) → c y ≡ b y + one_if R (is_same y x)

  -- It is in the bag, and nothing in the bag outranks it.
  abbrev pub IsHighest : A → Bag → Type ℓ
  IsHighest x b = (0 < b x) × ((y : A) → (ltb 0 (b y) && out_ranks y x) ≡ false)

  -- What a priority queue may answer to the requests, from a bag on.
  pub data Answers : Bag → List (HeapRequest A) → List (Option A) → Type ℓ where
    nothing_asked : {b : Bag} → Answers b [] []
    pushed :
        {b c : Bag} {x : A} {rest : List (HeapRequest A)} {outs : List (Option A)}
        → OneMore x b c
        → Answers c rest outs
        → Answers b (push_request x ∷ rest) (none ∷ outs)
    popped :
        {b c : Bag} {x : A} {rest : List (HeapRequest A)} {outs : List (Option A)}
        → IsHighest x b
        → OneMore x c b
        → Answers c rest outs
        → Answers b (pop_request ∷ rest) (some x ∷ outs)
    popped_nothing :
        {b : Bag} {rest : List (HeapRequest A)} {outs : List (Option A)}
        → ((y : A) → b y ≡ 0)
        → Answers b rest outs
        → Answers b (pop_request ∷ rest) (none ∷ outs)
    peeked :
        {b : Bag} {x : A} {rest : List (HeapRequest A)} {outs : List (Option A)}
        → IsHighest x b
        → Answers b rest outs
        → Answers b (peek_request ∷ rest) (some x ∷ outs)
    peeked_nothing :
        {b : Bag} {rest : List (HeapRequest A)} {outs : List (Option A)}
        → ((y : A) → b y ≡ 0)
        → Answers b rest outs
        → Answers b (peek_request ∷ rest) (none ∷ outs)
    removed :
        {b c : Bag} {x : A} {rest : List (HeapRequest A)} {outs : List (Option A)}
        → OneMore x c b
        → Answers c rest outs
        → Answers b (remove_request x ∷ rest) (some x ∷ outs)
    removed_nothing :
        {b : Bag} {x : A} {rest : List (HeapRequest A)} {outs : List (Option A)}
        → b x ≡ 0
        → Answers b rest outs
        → Answers b (remove_request x ∷ rest) (none ∷ outs)

  abbrev pub bag_of : LocHeapNode A → Bag
  bag_of t y = count R y t

  is_same_refl : (x : A) → is_same x x ≡ true
  is_same_refl x = (R.is_same_iff x x).1 refl

  -- The bag of a tree whose node holds `d`.
  there : (n : ℕ) (d : A) (l r : LocHeapNode A) → 0 < count R d (node n d l r)
  unfolding count
  there n d l r = let same = is_same_refl d in ground arith

  no_element : (y : A) → count R y null ≡ 0
  unfolding count
  no_element y = refl

  serve-pop :
      (t : LocHeapNode A) (p : A × LocHeapNode A)
      → pop R t ≡ some p
      → serve pop_request t ≡ (some p.0, p.1)
  unfolding serve
  serve-pop t p out = ap (or_stay t) out

  serve-remove :
      (x : A) (t : LocHeapNode A) (p : A × LocHeapNode A)
      → remove R x t ≡ some p
      → serve (remove_request x) t ≡ (some p.0, p.1)
  unfolding serve
  serve-remove x t p out = ap (or_stay t) out

  serve-remove_nothing :
      (x : A) (t : LocHeapNode A) → remove R x t ≡ none → serve (remove_request x) t ≡ (none, t)
  unfolding serve
  serve-remove_nothing x t out = ap (or_stay t) out

  serve_rest :
      (t : LocHeapNode A)
      → (serve peek_request null ≡ (none, null))
        × (serve pop_request null ≡ (none, null))
        × ((n : ℕ) (d : A) (l r : LocHeapNode A)
            → serve peek_request (node n d l r) ≡ (some d, node n d l r))
        × ((x : A) → serve (push_request x) t ≡ (none, push R x t))
  unfolding serve
  serve_rest t = (refl, refl, λ n d l r. refl, λ x. refl)

  first_answer :
      (b : Bag) (request : HeapRequest A) (rest : List (HeapRequest A)) (t : LocHeapNode A)
      {p : Option A × LocHeapNode A}
      → serve request t ≡ p
      → Answers b (request ∷ rest) (p.0 ∷ serve_all rest p.1)
      → Answers b (request ∷ rest) (serve_all (request ∷ rest) t)
  unfolding serve_all
  first_answer b request rest t served answers =
      subst (λ p. Answers b (request ∷ rest) (p.0 ∷ serve_all rest p.1)) (sym served) answers

  -- From a heap on, the answers to any requests to push, to pop, to peek and to remove are answers that a
  -- priority queue may give from the bag of the heap's elements on: a push answers nothing and adds one
  -- element; a pop and a peek answer an element that is there and that nothing there outranks, which the
  -- pop takes out once, or nothing if there is none; a removal takes the element asked for, by its address,
  -- out once and answers it, or answers nothing if it is not there itself, also where another one ranks
  -- the same.
  pub serve_all-Answers :
      (requests : List (HeapRequest A)) (t : LocHeapNode A)
      → IsHeap R t
      → Answers (bag_of t) requests (serve_all requests t)
  unfolding serve_all
  serve_all-Answers [] t h = nothing_asked
  serve_all-Answers (push_request x ∷ rest) t h =
      let (heap, size, counts) = push_lem R x t h in
      let (_, _, _, served) = serve_rest t in
      first_answer _ (push_request x) rest t (served x)
        (pushed counts (serve_all-Answers rest (push R x t) heap))
  serve_all-Answers (pop_request ∷ rest) null h =
      first_answer _ pop_request rest null ((serve_rest null).1)
        (popped_nothing no_element (serve_all-Answers rest null h))
  serve_all-Answers (pop_request ∷ rest) (node n d l r) h =
      let (left, out, w, highest) = pop_lem R n d l r h in
      first_answer _ pop_request rest (node n d l r) (serve-pop (node n d l r) (d, left) out) (
        popped (there n d l r, highest) (λ y. sym (w.counts y))
          (serve_all-Answers rest left w.heap))
  serve_all-Answers (peek_request ∷ rest) null h =
      first_answer _ peek_request rest null ((serve_rest null).0)
        (peeked_nothing no_element (serve_all-Answers rest null h))
  serve_all-Answers (peek_request ∷ rest) (node n d l r) h =
      let (left, out, w, highest) = pop_lem R n d l r h in
      first_answer _ peek_request rest (node n d l r) ((serve_rest null).2 n d l r)
        (peeked (there n d l r, highest) (serve_all-Answers rest (node n d l r) h))
  serve_all-Answers (remove_request x ∷ rest) t h = elim (remove_lem R x t h) [
    | inl (absent, out) ↦
        first_answer _ (remove_request x) rest t (serve-remove_nothing x t out)
          (removed_nothing absent (serve_all-Answers rest t h))
    | inr (left, out, w) ↦
        first_answer _ (remove_request x) rest t (serve-remove x t (x, left) out)
          (removed (λ y. sym (w.counts y)) (serve_all-Answers rest left w.heap))
  ]
