-- ===== src/Trie/Adding.antt =====
-- src/xnet/xtree.h: what `xtree_add` adds, and what it leaves.
use wenas.Base.{
  ℕ, suc, ◌-◌, ◌≤◌, ◌≡◌, ◌≢◌, refl, sym, ap, ◌∙◌, inl, inr, Bool, true, false, List, [], ◌∷◌,
  Option, some, Run, ok, length, add64, ◌==◌, if◌then◌else◌, Bool-cases, ne→==, arith,
}
use wenas.Heap.{update}
use wenas.Heap.Move.{eq_cases}
use wenas.Heap.Valid.{update_here, update_there}
use wenas.Trie.{Tree, null, node, inc16, passed, is_null, more_leaves, add_at, add, find}

-- The node that the key goes through counts it, and finds what it found.
pub find-passed : (k : List ℕ) (t : Tree) → find k (passed t) ≡ find k t
unfolding find passed
find-passed [] null = refl
find-passed (i ∷ k) null = refl
find-passed [] (node m r b l c) = refl
find-passed (i ∷ k) (node m r b l c) = refl

-- With memory for each half byte the step makes the node's child anew.
module _ (memory : ℕ) (i : ℕ) (k : List ℕ) (v : ℕ) (m : Option ℕ) (r b l : ℕ) (c : ℕ → Tree)
    (enough : suc (length k) ≤ memory) where
  abbrev pub below : Tree × Bool
  below = add_at (if is_null (c i) then memory - 1 else memory) k v (passed (c i))

  abbrev pub grown : Tree
  grown =
      node m r (if is_null (c i) then inc16 b else b) (if below.1 then more_leaves k l else l)
        (update c i below.0)

  pub below_enough : length k ≤ (if is_null (c i) then memory - 1 else memory)
  below_enough = elim (Bool-cases (is_null (c i))) [
    | inl e ↦ rw e (omega arith)
    | inr e ↦ rw e (omega arith)
  ]

  pub add_at_step : add_at memory (i ∷ k) v (node m r b l c) ≡ (grown, below.1)
  unfolding add_at
  add_at_step =
      let some_memory : (memory == 0) ≡ false = ne→== memory 0 (λ e. omega arith) in
      elim (Bool-cases (is_null (c i))) [ inl e ↦ rw (e, some_memory) refl | inr e ↦ rw e refl ]

-- There is a node.
pub data IsNode : Tree → Type 0 where
  is_node : {m : Option ℕ} {r b l : ℕ} {c : ℕ → Tree} → IsNode (node m r b l c)

pub passed-IsNode : (t : Tree) → IsNode (passed t)
unfolding passed
passed-IsNode null = is_node
passed-IsNode (node m r b l c) = is_node

pub add_at_ok :
    (memory : ℕ) (k : List ℕ) (v : ℕ) (t : Tree)
    → IsNode t
    → length k ≤ memory
    → (add_at memory k v t).1 ≡ true
add_at_ok memory k v null n enough = elim n [ ]
add_at_ok memory [] v (node m r b l c) n enough = unfold add_at in refl
add_at_ok memory (i ∷ k) v (node m r b l c) n enough =
    ap (λ (x : Tree × Bool). x.1) (add_at_step memory i k v m r b l c enough)
    ∙ add_at_ok (if is_null (c i) then memory - 1 else memory) k v (passed (c i))
        (passed-IsNode (c i)) (below_enough memory i k v m r b l c enough)

pub find-add_at :
    (memory : ℕ) (k : List ℕ) (v : ℕ) (t : Tree)
    → IsNode t
    → length k ≤ memory
    → find k ((add_at memory k v t).0) ≡ some v
unfolding find
find-add_at memory k v null n enough = elim n [ ]
find-add_at memory [] v (node m r b l c) n enough = unfold add_at in refl
find-add_at memory (i ∷ k) v (node m r b l c) n enough =
    ap (λ (x : Tree × Bool). find (i ∷ k) x.0) (add_at_step memory i k v m r b l c enough)
    ∙ ap (find k) (update_here c i ((below memory i k v m r b l c enough).0))
    ∙ find-add_at (if is_null (c i) then memory - 1 else memory) k v (passed (c i))
        (passed-IsNode (c i)) (below_enough memory i k v m r b l c enough)

pub find-add_at_other :
    (memory : ℕ) (k k' : List ℕ) (v : ℕ) (t : Tree)
    → IsNode t
    → length k ≤ memory
    → k' ≢ k
    → find k' ((add_at memory k v t).0) ≡ find k' t
unfolding find
find-add_at_other memory k k' v null n enough differ = elim n [ ]
find-add_at_other memory [] [] v (node m r b l c) n enough differ = absurd (differ refl)
find-add_at_other memory [] (j ∷ k') v (node m r b l c) n enough differ = unfold add_at in refl
find-add_at_other memory (i ∷ k) [] v (node m r b l c) n enough differ =
    ap (λ (x : Tree × Bool). find [] x.0) (add_at_step memory i k v m r b l c enough)
find-add_at_other memory (i ∷ k) (j ∷ k') v (node m r b l c) n enough differ =
    ap (λ (x : Tree × Bool). find (j ∷ k') x.0) (add_at_step memory i k v m r b l c enough)
    ∙ elim (eq_cases j i) [
      | inl same ↦
          ap (λ n. find k' (update c i ((below memory i k v m r b l c enough).0) n)) same
          ∙ ap (find k') (update_here c i ((below memory i k v m r b l c enough).0))
          ∙ find-add_at_other (if is_null (c i) then memory - 1 else memory) k k' v (passed (c i))
              (passed-IsNode (c i)) (below_enough memory i k v m r b l c enough) (λ e. differ (cc))
          ∙ find-passed k' (c i)
          ∙ ap (λ n. find k' (c n)) (sym same)
      | inr other ↦
          ap (find k') (update_there c i ((below memory i k v m r b l c enough).0) j other)
    ]

pub find-root :
    (m : Option ℕ) (r b l : ℕ) (c : ℕ → Tree) (k : List ℕ)
    → find k (node m (add64 r 1) b l c) ≡ find k (node m r b l c)
unfolding find
find-root m r b l c [] = refl
find-root m r b l c (i ∷ k) = refl

-- What a tree finds after `xtree_add` of `v` under `k`.
pub record Inserted (k : List ℕ) (v : ℕ) (t : Tree) (r : Run (Tree × Bool)) : Type 0 where
  pub tree : Tree
  pub result : r ≡ ok (tree, true)
  pub found : find k tree ≡ some v
  pub others : (k' : List ℕ) → k' ≢ k → find k' tree ≡ find k' t

-- `xtree_add` under a key that is not empty, to a tree that is not NULL and with memory for a node for
-- each of the key's half bytes: the key then finds what was added, whether it was there before or not,
-- and every other key finds what it found before.
pub add-Inserted :
    (memory i : ℕ) (k : List ℕ) (v : ℕ) (t : Tree)
    → IsNode t
    → length (i ∷ k) ≤ memory
    → Inserted (i ∷ k) v t (add memory (i ∷ k) v t)
unfolding add
add-Inserted memory i k v null n enough = elim n [ ]
add-Inserted memory i k v (node m r b l c) n enough =
    let root : Tree = node m (add64 r 1) b l c in
    let done : (add_at memory (i ∷ k) v root).1 ≡ true =
      add_at_ok memory (i ∷ k) v root is_node enough in
    record {
      tree = (add_at memory (i ∷ k) v root).0;
      result = ap (λ (x : Bool). ok ((add_at memory (i ∷ k) v root).0, x)) done;
      found = find-add_at memory (i ∷ k) v root is_node enough;
      others = λ k' differ.
          find-add_at_other memory (i ∷ k) k' v root is_node enough differ ∙ find-root m r b l c k';
    }
