-- ===== src/Heap/Examples.antt =====
-- The theorems on src/xnet/xheap.h at a heap of two nodes, and runs of the code.
use wenas.Base.{
  ℕ, ◌≡◌, inl, inr, refl, Option, none, some, Run, ok, List, [], ◌∷◌, Yields, ◌==◌, if◌then◌else◌,
  arith,
}
use wenas.Heap.{Heap, create, push, pop, remove, update}
use wenas.Heap.Valid.{IsValid, Placed, key_at}
use wenas.Heap.Move.{eq_cases}
use wenas.Heap.Push.{Pushed, push-Pushed}
use wenas.Heap.Pop.{Popped, pop-Popped, remove_only}

-- Nodes 5 and 6, with the keys 5 and 6. Node 4 is outside.
abbrev two_nodes : Heap
two_nodes = record {
  pos = 2;
  len = 3;
  array = λ j. if j == 1 then some 5 else if j == 2 then some 6 else none;
  key = λ m. m;
  place = λ m. if m == 5 then 1 else if m == 6 then 2 else 0;
}

two_nodes-Placed : Placed two_nodes 2 0
two_nodes-Placed = record {
  room = omega arith;
  shown = λ j lo hi ne. elim (eq_cases j 1) [
    | inl is ↦ rw is
    | inr other ↦ let is : j ≡ 2 = omega arith in rw is
  ];
  placed = λ j lo hi ne. elim (eq_cases j 1) [
    | inl is ↦ rw is
    | inr other ↦ let is : j ≡ 2 = omega arith in rw is
  ];
}

two_nodes-IsValid : IsValid two_nodes
two_nodes-IsValid = record {
  placed = two_nodes-Placed;
  small = omega arith;
  order = λ j lo hi. let is : j ≡ 2 = omega arith in rw is (omega arith);
}

push-Pushed_example : Yields (Pushed two_nodes 4) (push 4 two_nodes 4)
push-Pushed_example =
    push-Pushed 4 two_nodes 4 two_nodes-IsValid (omega arith) (λ (lo, hi, z, e). omega arith)
      (omega arith)

pop-Popped_example : Yields (Popped two_nodes) (pop 2 two_nodes)
pop-Popped_example = pop-Popped 2 two_nodes two_nodes-IsValid (omega arith) (omega arith)

-- Only node 5 is in this heap.
abbrev one_node : Heap
one_node = record two_nodes { pos = 1 }

one_node-IsValid : IsValid one_node
one_node-IsValid = record {
  placed = record {
    room = omega arith;
    shown = λ j lo hi ne. two_nodes-Placed.shown j lo (omega arith) ne;
    placed = λ j lo hi ne. two_nodes-Placed.placed j lo (omega arith) ne;
  };
  small = omega arith;
  order = λ j lo hi. absurd (omega arith);
}

remove_only_example : Yields (Popped one_node) (remove 1 one_node 6)
remove_only_example = remove_only 1 one_node 6 one_node-IsValid refl

-- The keys of the places 1 to 5 after the node with key 11 was removed from the heap of keys
-- 1, 10, 2, 11, 12, 3: key 3 stands below key 10.
abbrev six_nodes : Heap
six_nodes = record {
  pos = 6;
  len = 6;
  array = λ j.
      if j == 1
      then some 1
      else if j == 2
      then some 10
      else if j == 3
      then some 2
      else if j == 4
      then some 11
      else if j == 5
      then some 12
      else if j == 6
      then some 3
      else none;
  key = λ m. m;
  place = λ m.
      if m == 1
      then 1
      else if m == 10
      then 2
      else if m == 2
      then 3
      else if m == 11
      then 4
      else if m == 12
      then 5
      else if m == 3
      then 6
      else 0;
}

-- The number of nodes, and the keys at places 2 and 4.
abbrev seen : Run (Option ℕ × Heap) → List ℕ
seen (ok (o, h)) = h.pos ∷ key_at h 2 ∷ key_at h 4 ∷ []
seen r = []

removal_breaks_order : seen (remove 6 six_nodes 11) ≡ 5 ∷ 10 ∷ 3 ∷ []
unfolding remove wenas.Heap.node_at wenas.Heap.slot wenas.Heap.take_out wenas.Heap.store
    wenas.Heap.put wenas.Heap.sift_down wenas.Heap.lower
removal_breaks_order = refl
