-- ===== src/Trie.antt =====
-- src/xnet/xtree.h: a tree with sixteen branches at each node, in which a key goes by its half bytes.
pub mod Adding
pub mod Undoing
mod Examples
use wenas.Base.{
  ℕ, zero, suc, ◌+◌, ◌-◌, ◌/◌, ◌%◌, Bool, true, false, List, [], ◌∷◌, Option, none, some, Run, ok,
  fault, ◌>>=◌, add64, sub64, ◌==◌, ◌&&◌, if◌then◌else◌,
}
use wenas.Heap.{update}

-- A node with its `struct xnode`, and NULL. `parent` and `index` say where a node stands in the tree,
-- which the model has in its shape. A `mapping` of NULL is `none`. `children` are the sixteen pointers.
pub data Tree : Type 0 where
  null : Tree
  node : (mapping : Option ℕ) (route branch leaves : ℕ) (children : ℕ → Tree) → Tree

-- `xtree_create`, and `calloc` of a node, when there is memory.
abbrev pub blank : ℕ → Tree
blank route = node none route 0 0 (λ i. null)

unfoldable pub create : Tree
create = blank 0

-- The half bytes of a key, `(*p) >> 4` and `*p & 0x0F` of each byte.
unfoldable pub nibbles : List ℕ → List ℕ
nibbles [] = []
nibbles (b ∷ bs) = b / 16 ∷ b % 16 ∷ nibbles bs

-- `branch` and `leaves` are `uint16_t`.
abbrev pub inc16 : ℕ → ℕ
inc16 n = (n + 1) % 65536

abbrev pub dec16 : ℕ → ℕ
dec16 n = (n + 65535) % 65536

-- A node through which one more key goes, and a new one for it.
unfoldable pub passed : Tree → Tree
passed null = blank 1
passed (node m r b l c) = node m (add64 r 1) b l c

unfoldable pub is_null : Tree → Bool
is_null null = true
is_null (node m r b l c) = false

-- How many leaves a node has more, when the key ends below it.
unfoldable pub more_leaves : List ℕ → ℕ → ℕ
more_leaves [] l = inc16 l
more_leaves (i ∷ k) l = l

-- `xtree_add` below a node that has been counted; there is memory for `memory` new nodes. The flag is
-- false where the code returns NULL.
unfoldable pub add_at : ℕ → List ℕ → ℕ → Tree → Tree × Bool
unfolding passed is_null more_leaves
add_at memory k v null = (null, false)
add_at memory [] v (node m r b l c) = (node (some v) r b l c, true)
add_at memory (i ∷ k) v (node m r b l c) =
    let fresh = is_null (c i) in
    let t = add_at (if fresh then memory - 1 else memory) k v (passed (c i)) in
    let b' = if fresh then inc16 b else b in
    let l' = if t.1 then more_leaves k l else l in
    if fresh && (memory == 0)
    then (node m r b l c, false)
    else (node m r b' l' (update c i t.0), t.1)

-- `xtree_add`. With no half byte the code writes to a node that it has not set.
unfoldable pub add : ℕ → List ℕ → ℕ → Tree → Run (Tree × Bool)
unfolding add_at
add memory k v null = fault
add memory [] v (node m r b l c) = fault
add memory (i ∷ k) v (node m r b l c) = ok (add_at memory (i ∷ k) v (node m (add64 r 1) b l c))

-- `xtree_find`
unfoldable pub find : List ℕ → Tree → Option ℕ
find k null = none
find [] (node m r b l c) = m
find (i ∷ k) (node m r b l c) = find k (c i)

-- Whether there is a node for the key.
unfoldable pub has : List ℕ → Tree → Bool
has k null = false
has [] (node m r b l c) = true
has (i ∷ k) (node m r b l c) = has k (c i)

-- A node through which one key less goes; one with none is freed.
unfoldable pub left : Tree → Tree
left null = null
left (node m r b l c) = let r' = sub64 r 1 in if r' == 0 then null else node m r' b l c

unfoldable pub fewer_leaves : List ℕ → ℕ → ℕ
fewer_leaves [] l = dec16 l
fewer_leaves (i ∷ k) l = l

-- The path of the key below a node, of which the last loses its mapping.
unfoldable pub del_at : List ℕ → Tree → Tree
unfolding left is_null fewer_leaves
del_at k null = null
del_at [] (node m r b l c) = node none r b l c
del_at (i ∷ k) (node m r b l c) =
    let t = left (del_at k (c i)) in
    node m r (if is_null t then dec16 b else b) (fewer_leaves k l) (update c i t)

-- `xtree_del`: the mapping, and the tree. With no half byte it goes to the parent of the root, which
-- is NULL.
unfoldable pub del : List ℕ → Tree → Run (Option ℕ × Tree)
unfolding find has del_at
del k null = fault
del [] (node m r b l c) = fault
del (i ∷ k) (node m r b l c) =
    if has (i ∷ k) (node m r b l c)
    then ok (find (i ∷ k) (node m r b l c), del_at (i ∷ k) (node m (sub64 r 1) b l c))
    else ok (none, node m r b l c)
