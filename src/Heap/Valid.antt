-- ===== src/Heap/Valid.antt =====
-- src/xnet/xheap.h: when a heap is in order.
use wenas.Base.{
  ℕ, ◌/◌, ◌^◌, ◌≤◌, ◌<◌, ◌≡◌, ◌≢◌, sym, ap, ◌∙◌, Option, none, some, ok, le→leb, ==_refl, ne→==,
  arith,
}
use wenas.Heap.{Heap, update, slot, node_at}

module _ {ℓ} {A : Type ℓ} (f : ℕ → A) (i : ℕ) (a : A) where
  pub update_here : update f i a i ≡ a
  update_here = rw (==_refl i)

  pub update_there : (j : ℕ) → j ≢ i → update f i a j ≡ f j
  update_there j h = rw (ne→== j i h)

abbrev pub node_of : Option ℕ → ℕ
node_of none = 0
node_of (some m) = m

-- The node at an index of the array, and its key.
abbrev pub at : Heap → ℕ → ℕ
at h j = node_of (h.array j)

abbrev pub key_at : Heap → ℕ → ℕ
key_at h j = h.key (at h j)

-- The places 1 to `n` but `hole` hold nodes, and each of these nodes knows its place. (No node
-- has the place 0, so that a `hole` of 0 leaves none out.)
pub record Placed (h : Heap) (n hole : ℕ) : Type 0 where
  pub room : n ≤ h.len
  pub shown : (j : ℕ) → 1 ≤ j → j ≤ n → j ≢ hole → h.array j ≡ some (at h j)
  pub placed : (j : ℕ) → 1 ≤ j → j ≤ n → j ≢ hole → h.place (at h j) ≡ j

-- A node is in the heap.
abbrev pub In : Heap → ℕ → ℕ → ℕ → Type 0
In h n hole m =
    (1 ≤ h.place m) × (h.place m ≤ n) × (h.place m ≢ hole) × (h.array (h.place m) ≡ some m)

-- No key is below its parent's.
pub record IsValid (h : Heap) : Type 0 where
  pub placed : Placed h h.pos 0
  pub small : h.len < 2 ^ 31
  pub order : (j : ℕ) → 2 ≤ j → j ≤ h.pos → key_at h (j / 2) ≤ key_at h j

abbrev pub Member : Heap → ℕ → Type 0
Member h m = In h h.pos 0 m

module _ (h : Heap) (n hole : ℕ) (p : Placed h n hole) where
  pub node_at_lem : (j : ℕ) → 1 ≤ j → j ≤ n → j ≢ hole → node_at h j ≡ ok (at h j)
  unfolding node_at slot
  node_at_lem j some_j le ne = rw (le→leb j h.len (omega (arith, p.room)), p.shown j some_j le ne)

  -- Two places hold two nodes.
  pub at-ne :
      (i j : ℕ) → 1 ≤ i → i ≤ n → i ≢ hole → 1 ≤ j → j ≤ n → j ≢ hole → i ≢ j → at h i ≢ at h j
  at-ne i j a b c d e f ne same = ne (sym (p.placed i a b c) ∙ ap h.place same ∙ p.placed j d e f)
