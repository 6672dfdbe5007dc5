-- ===== src/Heap/Node.antt =====
-- `LocHeapNode` and `LocHeap` (gps/utils/LocHeap.cpp). A pointer to a node is the tree below it; the
-- code never shares a node between two trees. `mSize` is unbounded here: a heap has fewer than 2 ^ 31
-- nodes.
use android_device_xiaomi_ms.Base.{
  ℕ, suc, ◌-◌, ◌≡◌, ◌↔◌, Bool, true, false, not, ◌&&◌, ◌||◌, Option, none, some, leb, ◌==◌,
  if◌then◌else◌,
}
use mathlib.Core.Option

-- `LocRankable`, which the client implements: `outRanks`, and the equality of two addresses. The
-- laws are those of a rank: no two outrank one another, and not to outrank is transitive.
pub record LocRankable {ℓ} (A : Type ℓ) : Type ℓ where
  pub out_ranks : A → A → Bool
  pub is_same : A → A → Bool
  pub is_same_iff : (a b : A) → (is_same a b ≡ true) ↔ (a ≡ b)
  pub out_ranks_asymm : (a b : A) → out_ranks a b ≡ true → out_ranks b a ≡ false
  pub not_out_ranks_trans :
      (a b c : A) → out_ranks a b ≡ false → out_ranks b c ≡ false → out_ranks a c ≡ false

-- NULL, or a node with `mSize`, `mData`, `mLeft` and `mRight`.
pub data LocHeapNode {ℓ} (A : Type ℓ) : Type ℓ where
  null : LocHeapNode A
  node : (size : ℕ) (content : A) (left right : LocHeapNode A) → LocHeapNode A

module _ {ℓ} {A : Type ℓ} where
  abbrev pub is_null : LocHeapNode A → Bool
  is_null null = true
  is_null (node _ _ _ _) = false

  -- `getSize`, and 0 for NULL.
  abbrev pub get_size : LocHeapNode A → ℕ
  get_size null = 0
  get_size (node n _ _ _) = n

  -- `mData`, and `d` for NULL.
  abbrev pub content_or : A → LocHeapNode A → A
  content_or d null = d
  content_or d (node _ e _ _) = e

  -- The constructor.
  abbrev pub new_node : A → LocHeapNode A
  new_node x = node 1 x null null

module _ {ℓ} {A : Type ℓ} (R : LocRankable A) where
  open R use {out_ranks, is_same}

  -- `LocHeapNode::push`, and `LocHeap::push` for NULL.
  unfoldable pub push : A → LocHeapNode A → LocHeapNode A
  push x null = new_node x
  push x (node n d l r) =
      let top = if out_ranks x d then x else d in
      let low = if out_ranks x d then d else x in
      let in_left = node (suc n) top (push low l) r in
      let in_right = node (suc n) top l (push low r) in
      if is_null l
      then in_left
      else if is_null r
      then in_right
      else if leb (get_size l) (get_size r)
      then in_left
      else in_right

  -- `LocHeapNode::pop` at a node whose data has been swapped for `d`: what comes out, and the tree that
  -- is left.
  unfoldable pub pop_as : A → LocHeapNode A → A × LocHeapNode A
  pop_as d null = (d, null)
  pop_as d (node n _ l r) =
      let from_left : A × LocHeapNode A =
        let (out, rest) = pop_as d l in (out, node (n - 1) (content_or d l) rest r) in
      let from_right : A × LocHeapNode A =
        let (out, rest) = pop_as d r in (out, node (n - 1) (content_or d r) l rest) in
      if is_null l && is_null r
      then (d, null)
      else if is_null l
      then from_right
      else if is_null r
      then from_left
      else if out_ranks (content_or d l) (content_or d r)
      then from_left
      else from_right

  -- `LocHeap::pop`.
  unfoldable pub pop : LocHeapNode A → Option (A × LocHeapNode A)
  unfolding pop_as
  pop null = none
  pop (node n d l r) = some (pop_as d (node n d l r))

  -- `LocHeap::peek`.
  unfoldable pub peek : LocHeapNode A → Option A
  peek null = none
  peek (node n d l r) = some d

  -- `LocHeapNode::remove`, and `LocHeap::remove` for NULL.
  unfoldable pub remove : A → LocHeapNode A → Option (A × LocHeapNode A)
  unfolding pop
  remove x null = none
  remove x (node n d l r) =
      let in_children : Option (A × LocHeapNode A) = elim (remove x l) [
        | some (y, l') ↦ some (y, node (n - 1) d l' r)
        | none ↦ Option.map (λ p. (p.0, node (n - 1) d l p.1)) (remove x r)
      ] in
      if is_same x d then pop (node n d l r) else if not (out_ranks x d) then in_children else none

  -- Is a child absent, or not ranked above `d` and well-formed itself?
  unfoldable pub check_nodes : LocHeapNode A → Bool
  check_nodes null = true
  check_nodes (node n d l r) =
      (is_null l || not (out_ranks (content_or d l) d) && check_nodes l)
      && ((is_null r || not (out_ranks (content_or d r) d) && check_nodes r)
          && n - get_size l - get_size r == 1)
