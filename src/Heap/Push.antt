-- ===== src/Heap/Push.antt =====
-- src/xnet/xheap.h: `xheap_push`.
use wenas.Base.{
  ℕ, ◌+◌, ◌/◌, ◌≤◌, ◌<◌, ◌≡◌, ◌≢◌, ◌⊎◌, ◌↔◌, inl, inr, sym, ap, false, Yields, yields, Yields-bind,
  leb, lt→ltb, arith,
}
use mathlib.Core.Path.{subst}
use wenas.Heap.{Heap, push}
use wenas.Heap.Valid.{update_here, key_at, Placed, In, Member, IsValid}
use wenas.Heap.Move.{with_node, put_lem, eq_cases, at_here, at_there, fill-Placed, fill-In}
use wenas.Heap.Rise.{Rising, Risen, sift_up-Risen}

-- The heap with one more place, which is free.
module _ (h : Heap) (v : IsValid h) (x : ℕ) (room : h.pos < h.len) (new : Member h x → ⊥) where
  abbrev wider : Heap
  wider = record h { pos = h.pos + 1 }

  start-Rising : Rising wider (h.pos + 1) (h.pos + 1) x
  start-Rising = record {
    placed = record {
      room = omega arith;
      shown = λ j lo hi ne. v.placed.shown j lo (omega arith) (λ z. omega arith);
      placed = λ j lo hi ne. v.placed.placed j lo (omega arith) (λ z. omega arith);
    };
    some_hole = omega arith;
    hole_le = omega arith;
    fresh = λ j lo hi ne same.
        let is = v.placed.placed j lo (omega arith) (λ z. omega arith) in
        let there = v.placed.shown j lo (omega arith) (λ z. omega arith) in
        new (rw (sym same, is) (lo, omega arith, (λ z. omega arith), there));
    order = λ j lo hi ne up. v.order j lo (omega arith);
    below = λ j lo hi e. absurd (omega arith);
    skip = λ j lo hi e some_parent. absurd (omega arith);
  }

  start-In : (m : ℕ) → Member h m ↔ In wider (h.pos + 1) (h.pos + 1) m
  start-In m = (
    (λ (lo, hi, z, e). (lo, omega arith, (λ k. omega arith), e)),
    (λ (lo, hi, ne, e). (lo, omega arith, (λ k. omega arith), e)),
  )

-- The node at its place.
fill-order :
    (h : Heap) (n i x : ℕ)
    → Rising h n i x
    → (1 ≤ i / 2 → key_at h (i / 2) ≤ h.key x)
    → (j : ℕ) → 2 ≤ j
    → j ≤ n
    → key_at (with_node h i x) (j / 2) ≤ key_at (with_node h i x) j
fill-order h n i x r stop j lo hi = elim (eq_cases j i) [
  | inl is ↦
      let up : j / 2 ≢ i = λ k. omega arith in
      omega (
        arith,
        ap h.key (at_there h i x (j / 2) up),
        ap (key_at (with_node h i x)) is,
        ap h.key (at_here h i x),
        stop (omega arith),
        ap (λ k. key_at h (k / 2)) is,
      )
  | inr ne ↦ elim (eq_cases (j / 2) i) [
    | inl up ↦ omega (
      arith,
      ap (key_at (with_node h i x)) up,
      ap h.key (at_here h i x),
      ap h.key (at_there h i x j ne),
      r.below j lo hi up,
    )
    | inr up ↦ omega (
      arith,
      ap h.key (at_there h i x (j / 2) up),
      ap h.key (at_there h i x j ne),
      r.order j lo hi ne up,
    )
  ]
]

pub record Pushed (h : Heap) (x : ℕ) (r : ℕ × Heap) : Type 0 where
  pub valid : IsValid r.1
  pub members : (m : ℕ) → Member r.1 m ↔ (Member h m ⊎ (m ≡ x))
  pub count : (r.1.pos ≡ h.pos + 1) × (r.1.len ≡ h.len)
  pub answer : (1 ≤ r.0) × (r.0 ≡ r.1.place x)
  pub same : r.1.key ≡ h.key

placed-Pushed :
    (h : Heap) (x : ℕ) (y : ℕ × Heap) (v : IsValid h) (room : h.pos < h.len) (new : Member h x → ⊥)
    → Risen (record h { pos = h.pos + 1 }) (h.pos + 1) (h.pos + 1) x y
    → Pushed h x (y.0, with_node y.1 y.0 x)
placed-Pushed h x (i, g) v room new s =
    let r = s.rising in
    let size : g.pos ≡ h.pos + 1 = s.same.1 in
    let full = fill-Placed g (h.pos + 1) i r.placed r.some_hole r.hole_le x r.fresh in
    let inside = fill-In g (h.pos + 1) i r.placed r.some_hole r.hole_le x r.fresh in
    record {
      valid = record {
        placed = subst (λ k. Placed (with_node g i x) k 0) (sym size) full;
        small = omega (arith, s.same.2, v.small);
        order = λ j lo hi.
            fill-order g (h.pos + 1) i x r
              (λ k. omega (arith, s.stop k, ap (λ (f : ℕ → ℕ). f x) s.same.0)) j lo (omega arith);
      };
      members = λ m.
          subst (λ k. In (with_node g i x) k 0 m ↔ (Member h m ⊎ (m ≡ x))) (sym size)
            ((λ k. members_forth m ((inside m).0 k)), (λ k. (inside m).1 (members_back m k)));
      count = (s.same.1, s.same.2);
      answer = (r.some_hole, sym (update_here g.place x i));
      same = s.same.0;
    }
  where
    members_forth : (m : ℕ) → In g (h.pos + 1) i m ⊎ (m ≡ x) → Member h m ⊎ (m ≡ x)
    members_forth m (inl k) = inl ((start-In h v x room new m).1 ((s.members m).1 k))
    members_forth m (inr e) = inr e

    members_back : (m : ℕ) → Member h m ⊎ (m ≡ x) → In g (h.pos + 1) i m ⊎ (m ≡ x)
    members_back m (inl k) = inl ((s.members m).0 ((start-In h v x room new m).0 k))
    members_back m (inr e) = inr e

-- On a heap in order that is not full, with fuel for one turn more than it then has nodes,
-- `xheap_push` of a node that is not in it ends and returns the node's place, which is at least 1;
-- the heap is in order again and holds the nodes that it held and this one, and no key has changed.
pub push-Pushed :
    (fuel : ℕ) (h : Heap) (x : ℕ)
    → IsValid h
    → h.pos < h.len
    → (Member h x → ⊥)
    → h.pos + 1 < fuel
    → Yields (Pushed h x) (push fuel h x)
unfolding push
push-Pushed fuel h x v room new enough = rw (lt→ltb h.pos h.len room) (
    Yields-bind
      (sift_up-Risen fuel (record h { pos = h.pos + 1 }) (h.pos + 1) (h.pos + 1) x
        (start-Rising h v x room new) enough)
      λ (i, g) s.
        rw
          (
            put_lem g i x (omega (arith, s.rising.hole_le, s.rising.placed.room)),
            positive i s.rising.some_hole,
          )
          (yields (placed-Pushed h x (i, g) v room new s)))
  where
    positive : (i : ℕ) → 1 ≤ i → leb i 0 ≡ false
    positive i h = ground arith
