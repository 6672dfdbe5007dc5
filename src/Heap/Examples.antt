-- ===== src/Heap/Examples.antt =====
-- Tests of the heap model, with deadlines of which the earlier one ranks higher, as LocTimer's do.
use android_device_xiaomi_ms.Base.{
  List, [], ◌∷◌, none, ℕ, ◌≡◌, ◌↔◌, refl, true, false, some, arith, ltb, ◌==◌, ◌&&◌, ==_iff,
}
use android_device_xiaomi_ms.Heap.Node.{
  LocRankable, LocHeapNode, null, node, push, remove, check_nodes,
}
use android_device_xiaomi_ms.Heap.Order.{IsHeap, count}
use android_device_xiaomi_ms.Heap.Removal.{
  Removes, remove_lem, check_nodes_iff, drain, drain_lem, IsRankedFrom, count_list,
}
use android_device_xiaomi_ms.Heap.Queue.{
  HeapRequest, push_request, peek_request, pop_request, remove_request, Answers, bag_of, serve_all,
  serve_all-Answers,
}

later_not_earlier : (a b : ℕ) → ltb a b ≡ true → ltb b a ≡ false
later_not_earlier a b h = ground arith

not_earlier_trans : (a b c : ℕ) → ltb a b ≡ false → ltb b c ≡ false → ltb a c ≡ false
not_earlier_trans a b c h k = ground arith

abbrev deadlines : LocRankable ℕ
deadlines = record {
  out_ranks = ltb;
  is_same = ◌==◌;
  is_same_iff = ==_iff;
  out_ranks_asymm = later_not_earlier;
  not_out_ranks_trans = not_earlier_trans;
}

abbrev three : LocHeapNode ℕ
three = node 3 10 (node 1 30 null null) (node 1 20 null null)

three-IsHeap : IsHeap deadlines three
three-IsHeap = (refl, refl, refl, (refl, refl, refl, tt, tt), (refl, refl, refl, tt, tt))

-- The smaller subtree gets the new node, and the data of the top sinks.
push-three :
    push deadlines 5 three ≡ node 4 5 (node 2 10 (node 1 30 null null) null) (node 1 20 null null)
unfolding push
push-three = refl

remove-three : remove deadlines 20 three ≡ some (20, node 2 10 (node 1 30 null null) null)
unfolding remove
remove-three = refl

-- Timers with an address and a deadline.
timer_same_iff : (x y : ℕ × ℕ) → ((x.0 == y.0 && x.1 == y.1) ≡ true) ↔ (x ≡ y)
timer_same_iff x y = (λ e. ground arith, λ e. ground arith)

abbrev timers : LocRankable (ℕ × ℕ)
timers = record {
  out_ranks = λ x y. ltb x.1 y.1;
  is_same = λ x y. x.0 == y.0 && x.1 == y.1;
  is_same_iff = timer_same_iff;
  out_ranks_asymm = λ x y. later_not_earlier x.1 y.1;
  not_out_ranks_trans = λ x y z. not_earlier_trans x.1 y.1 z.1;
}

-- The timer 2 is not there, and the timer 1, which ranks the same, stays.
remove-same_rank : remove timers (2, 10) (node 1 (1, 10) null null) ≡ none
unfolding remove
remove-same_rank = refl

remove_lem_example : Removes deadlines 20 three (remove deadlines 20 three)
remove_lem_example = remove_lem deadlines 20 three three-IsHeap

check_nodes_iff_example : (check_nodes deadlines three ≡ true) ↔ IsHeap deadlines three
check_nodes_iff_example = check_nodes_iff deadlines three

drain_lem_example :
    IsRankedFrom deadlines 0 (drain deadlines 3 three)
    × ((y : ℕ) → count_list deadlines y (drain deadlines 3 three) ≡ count deadlines y three)
drain_lem_example = drain_lem deadlines 0 three 3 three-IsHeap refl refl

abbrev calls : List (HeapRequest ℕ)
calls =
    push_request 5
    ∷ peek_request
    ∷ pop_request
    ∷ remove_request 20
    ∷ remove_request 6
    ∷ pop_request
    ∷ []

serve_all-Answers_example :
    Answers deadlines (bag_of deadlines three) calls (serve_all deadlines calls three)
serve_all-Answers_example = serve_all-Answers deadlines calls three three-IsHeap

answers-three :
    serve_all deadlines calls three ≡ none ∷ some 5 ∷ some 5 ∷ some 20 ∷ none ∷ some 10 ∷ []
unfolding serve_all
answers-three = refl
