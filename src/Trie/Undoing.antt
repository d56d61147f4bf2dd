-- ===== src/Trie/Undoing.antt =====
-- src/xnet/xtree.h: `xtree_del` takes back what `xtree_add` did.
use wenas.Base.{
  ℕ, suc, ◌+◌, ◌-◌, ◌^◌, ◌≤◌, ◌<◌, ◌≡◌, refl, sym, ap, ◌∙◌, inl, inr, Bool, true, List, [], ◌∷◌,
  Option, none, some, Run, ok, length, add64, sub64, if◌then◌else◌, Bool-cases, ne→==, arith,
}
use mathlib.Core.Path.{fun_ext}
use wenas.Heap.{update}
use wenas.Heap.Move.{eq_cases}
use wenas.Heap.Valid.{update_here, update_there}
use wenas.Trie.{
  Tree, null, node, inc16, dec16, passed, is_null, more_leaves, fewer_leaves, left, add_at, add,
  find, has, del_at, del,
}
use wenas.Trie.Adding.{
  IsNode, is_node, passed-IsNode, find-passed, add_at_step, add_at_ok, below, below_enough, grown,
  find-add_at,
}

-- Some key goes through the node, and one more can be counted.
abbrev pub IsLight : Tree → Type 0
IsLight null = Unit {0}
IsLight (node m r b l c) = (0 < r) × (r + 1 < 2 ^ 64)

-- The counters below a node have room for one more.
pub data HasRoom : Tree → Type 0 where
  at_null : HasRoom null
  at_node :
      {m : Option ℕ} {r b l : ℕ} {c : ℕ → Tree}
      → b + 1 < 65536
      → l + 1 < 65536
      → ((i : ℕ) → IsLight (c i))
      → ((i : ℕ) → HasRoom (c i))
      → HasRoom (node m r b l c)

passed-HasRoom : (t : Tree) → HasRoom t → HasRoom (passed t)
unfolding passed
passed-HasRoom null h = at_node (omega arith) (omega arith) (λ i. tt) (λ i. at_null)
passed-HasRoom (node m r b l c) (at_node hb hl light below) = at_node hb hl light below

left-passed : (t : Tree) → IsLight t → left (passed t) ≡ t
unfolding left passed
left-passed null h = refl
left-passed (node m r b l c) h =
    let back : sub64 (add64 r 1) 1 ≡ r = omega arith in rw (back, ne→== r 0 (λ e. omega arith)) refl

put_back : (c : ℕ → Tree) (i : ℕ) (t : Tree) → update (update c i t) i (c i) ≡ c
put_back c i t = fun_ext λ j. elim (eq_cases j i) [
  | inl same ↦
      ap (update (update c i t) i (c i)) same ∙ update_here (update c i t) i (c i) ∙ ap c (sym same)
  | inr other ↦ update_there (update c i t) i (c i) j other ∙ update_there c i t j other
]

leaves_back : (k : List ℕ) (l : ℕ) → l + 1 < 65536 → fewer_leaves k (more_leaves k l) ≡ l
unfolding fewer_leaves more_leaves
leaves_back [] l h = omega arith
leaves_back (i ∷ k) l h = refl

branch_back :
    (t : Tree) (b : ℕ)
    → b + 1 < 65536
    → (if is_null t
        then dec16 (if is_null t then inc16 b else b)
        else (if is_null t then inc16 b else b))
      ≡ b
branch_back t b h = elim (Bool-cases (is_null t)) [ inl e ↦ rw e (omega arith) | inr e ↦ rw e refl ]

-- What `del_at` makes of a node when `t` is left of the child.
abbrev without : ℕ → List ℕ → Option ℕ → ℕ → ℕ → ℕ → (ℕ → Tree) → Tree → Tree
without i k m r b l c t =
    node m r (if is_null t then dec16 b else b) (fewer_leaves k l) (update c i t)

del_at_step :
    (i : ℕ) (k : List ℕ) (m : Option ℕ) (r b l : ℕ) (c : ℕ → Tree)
    → del_at (i ∷ k) (node m r b l c) ≡ without i k m r b l c (left (del_at k (c i)))
unfolding del_at
del_at_step i k m r b l c = refl

del_at_end :
    (memory v : ℕ) (m : Option ℕ) (r b l : ℕ) (c : ℕ → Tree)
    → m ≡ none
    → del_at [] ((add_at memory [] v (node m r b l c)).0) ≡ node m r b l c
unfolding del_at add_at
del_at_end memory v m r b l c e = ap (λ x. node x r b l c) (sym e)

find_end : (m : Option ℕ) (r b l : ℕ) (c : ℕ → Tree) → find [] (node m r b l c) ≡ m
unfolding find
find_end m r b l c = refl

find_step :
    (i : ℕ) (k : List ℕ) (m : Option ℕ) (r b l : ℕ) (c : ℕ → Tree)
    → find (i ∷ k) (node m r b l c) ≡ find k (c i)
unfolding find
find_step i k m r b l c = refl

undo_step :
    (memory i : ℕ) (k : List ℕ) (v : ℕ) (m : Option ℕ) (r b l : ℕ) (c : ℕ → Tree)
    (enough : suc (length k) ≤ memory)
    → b + 1 < 65536
    → l + 1 < 65536
    → IsLight (c i)
    → del_at k ((below memory i k v m r b l c enough).0) ≡ passed (c i)
    → del_at (i ∷ k) ((add_at memory (i ∷ k) v (node m r b l c)).0) ≡ node m r b l c
undo_step memory i k v m r b l c enough hb hl light undone =
    let new : Tree = (below memory i k v m r b l c enough).0 in
    let c' : ℕ → Tree = update c i new in
    let b' : ℕ = if is_null (c i) then inc16 b else b in
    let kept : left (del_at k (c' i)) ≡ c i =
      ap (λ x. left (del_at k x)) (update_here c i new)
      ∙ ap left undone
      ∙ left-passed (c i) light in
    let done : (below memory i k v m r b l c enough).1 ≡ true =
      add_at_ok (if is_null (c i) then memory - 1 else memory) k v (passed (c i))
        (passed-IsNode (c i)) (below_enough memory i k v m r b l c enough) in
    ap (λ (x : Tree × Bool). del_at (i ∷ k) x.0) (add_at_step memory i k v m r b l c enough)
    ∙ ap (λ (x : Bool). del_at (i ∷ k) (node m r b' (if x then more_leaves k l else l) c')) done
    ∙ del_at_step i k m r b' (more_leaves k l) c'
    ∙ ap (without i k m r b' (more_leaves k l) c') kept
    ∙ ap (λ x. node m r x (fewer_leaves k (more_leaves k l)) (update c' i (c i)))
        (branch_back (c i) b hb)
    ∙ ap (λ x. node m r b x (update c' i (c i))) (leaves_back k l hl)
    ∙ ap (node m r b l) (put_back c i new)

pub del_at-add_at :
    (memory : ℕ) (k : List ℕ) (v : ℕ) (t : Tree)
    → IsNode t
    → HasRoom t
    → length k ≤ memory
    → find k t ≡ none
    → del_at k ((add_at memory k v t).0) ≡ t
del_at-add_at memory k v null n h enough e = elim n [ ]
del_at-add_at memory [] v (node m r b l c) n h enough e =
    del_at_end memory v m r b l c (sym (find_end m r b l c) ∙ e)
del_at-add_at memory (i ∷ k) v (node m r b l c) n (at_node hb hl light room) enough e =
    undo_step memory i k v m r b l c enough hb hl (light i) (
      del_at-add_at (if is_null (c i) then memory - 1 else memory) k v (passed (c i))
        (passed-IsNode (c i)) (passed-HasRoom (c i) (room i))
        (below_enough memory i k v m r b l c enough)
        (find-passed k (c i) ∙ sym (find_step i k m r b l c) ∙ e))

has_of_find : (k : List ℕ) (v : ℕ) (t : Tree) → find k t ≡ some v → has k t ≡ true
unfolding find has
has_of_find [] v null e = cc
has_of_find (i ∷ k) v null e = cc
has_of_find [] v (node m r b l c) e = refl
has_of_find (i ∷ k) v (node m r b l c) e = has_of_find k v (c i) e

-- The tree after `xtree_add`, and what `xtree_del` then makes of it.
pub record Undone (k : List ℕ) (v : ℕ) (t : Tree) (r : Run (Tree × Bool)) : Type 0 where
  pub tree : Tree
  pub added : r ≡ ok (tree, true)
  pub deleted : del k tree ≡ ok (some v, t)

add_lem :
    (memory i : ℕ) (k : List ℕ) (v : ℕ) (m : Option ℕ) (r b l : ℕ) (c : ℕ → Tree)
    → add memory (i ∷ k) v (node m r b l c)
      ≡ ok (add_at memory (i ∷ k) v (node m (add64 r 1) b l c))
unfolding add
add_lem memory i k v m r b l c = refl

-- The key is there, and the root had one more.
del_found :
    (i : ℕ) (k : List ℕ) (v : ℕ) (m : Option ℕ) (r b l : ℕ) (c : ℕ → Tree) (t : Tree)
    → r + 1 < 2 ^ 64
    → find (i ∷ k) (node m (add64 r 1) b l c) ≡ some v
    → del_at (i ∷ k) (node m r b l c) ≡ t
    → del (i ∷ k) (node m (add64 r 1) b l c) ≡ ok (some v, t)
unfolding del
del_found i k v m r b l c t small found e =
    let back : sub64 (add64 r 1) 1 ≡ r = omega arith in
    rw (has_of_find (i ∷ k) v (node m (add64 r 1) b l c) found, found, back, e) refl

-- A tree is not NULL, no counter of it is at its greatest, and each of its nodes below the root counts
-- a key. `v` is added under a key that is not empty and finds nothing, with memory for a node for each
-- half byte. Then `xtree_del` of the key gives `v`, and the tree as it was, its counters and all its
-- nodes.
pub del-add :
    (memory i : ℕ) (k : List ℕ) (v : ℕ) (m : Option ℕ) (r b l : ℕ) (c : ℕ → Tree)
    → r + 1 < 2 ^ 64
    → HasRoom (node m r b l c)
    → length (i ∷ k) ≤ memory
    → find (i ∷ k) (node m r b l c) ≡ none
    → Undone (i ∷ k) v (node m r b l c) (add memory (i ∷ k) v (node m r b l c))
del-add memory i k v m r b l c small h enough absent =
    let r' : ℕ = add64 r 1 in
    let new : Tree × Bool = below memory i k v m r b l c enough in
    let step : add_at memory (i ∷ k) v (node m r' b l c)
        ≡ (grown memory i k v m r' b l c enough, new.1) =
      add_at_step memory i k v m r' b l c enough in
    let done : new.1 ≡ true =
      add_at_ok (if is_null (c i) then memory - 1 else memory) k v (passed (c i))
        (passed-IsNode (c i)) (below_enough memory i k v m r b l c enough) in
    let found : find (i ∷ k) (grown memory i k v m r' b l c enough) ≡ some v =
      ap (λ (x : Tree × Bool). find (i ∷ k) x.0) (sym step)
      ∙ find-add_at memory (i ∷ k) v (node m r' b l c) is_node enough in
    let undone : del_at (i ∷ k) (grown memory i k v m r b l c enough) ≡ node m r b l c =
      ap (λ (x : Tree × Bool). del_at (i ∷ k) x.0) (sym (add_at_step memory i k v m r b l c enough))
      ∙ del_at-add_at memory (i ∷ k) v (node m r b l c) is_node h enough absent in
    record {
      tree = grown memory i k v m r' b l c enough;
      added =
          add_lem memory i k v m r b l c
          ∙ ap ok step
          ∙ ap (λ (x : Bool). ok (grown memory i k v m r' b l c enough, x)) done;
      deleted =
          del_found i k v m r (if is_null (c i) then inc16 b else b)
            (if new.1 then more_leaves k l else l) (update c i new.0) (node m r b l c) small found
            undone;
    }
