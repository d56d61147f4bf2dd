-- ===== src/Heap/Pop.antt =====
-- src/xnet/xheap.h: `xheap_pop`.
use wenas.Base.{
  ℕ, ◌+◌, ◌-◌, ◌≤◌, ◌≡◌, ◌≢◌, ◌↔◌, inl, inr, refl, sym, ap, ◌∙◌, Option, none, some, ok, ◌>>=◌,
  or_fault, Yields, yields, Yields-bind, le→leb, le→ltb, ◌==◌, eq_of_==, ne_of_==, arith,
  Bool-cases,
}
use mathlib.Core.Path.{subst}
use wenas.Heap.{Heap, update, slot, store, node_at, sift_down, take_out, take_only, pop, remove}
use wenas.Heap.Valid.{update_here, update_there, node_of, at, Placed, In, Member, IsValid}
use wenas.Heap.Move.{put_lem, some-inj}
use wenas.Heap.Root.{
  least_first, first-Member, n, first, last, h1, h2, top_node, start-Sinking, start-In,
}
use wenas.Heap.Sink.{Sunk, sift_down-Sunk}

-- What `xheap_pop` of a heap with nodes leaves.
pub record Popped (h : Heap) (r : Option ℕ × Heap) : Type 0 where
  pub valid : IsValid r.1
  pub node : ℕ
  pub answer : r.0 ≡ some node
  pub member : Member h node
  pub least : (m : ℕ) → Member h m → h.key node ≤ h.key m
  pub others : (m : ℕ) → Member r.1 m ↔ (Member h m × (m ≢ node))
  pub count : (r.1.pos + 1 ≡ h.pos) × (r.1.len ≡ h.len)
  pub same : r.1.key ≡ h.key

module _ (h : Heap) (v : IsValid h) (several : 2 ≤ h.pos) where
  abbrev h0 : Heap
  h0 = record h { array = update h.array 0 (h.array 1) }

  last_lem : node_at h0 h.pos ≡ ok (last h v several)
  unfolding node_at slot
  last_lem = rw (le→leb h.pos h.len v.placed.room) (
      ap or_fault (
        update_there h.array 0 (h.array 1) h.pos (λ e. omega arith)
        ∙ v.placed.shown h.pos (omega arith) (omega arith) (λ e. omega arith)))

  taken_out :
      (fuel : ℕ)
      → take_out fuel h 1
        ≡ (sift_down fuel (h2 h v several) 1 >>= λ g. ok (g.array 0, record g { pos = g.pos - 1 }))
  unfolding take_out slot store
  taken_out fuel = rw (
    le→leb 1 h.len (omega (arith, v.placed.room)),
    le→leb 0 h.len (omega arith),
    last_lem,
    put_lem h0 1 (last h v several) (omega (arith, v.placed.room)),
    le→leb h.pos h.len v.placed.room,
  )

  zero_h2 : (h2 h v several).array 0 ≡ some (first h v several)
  zero_h2 =
      update_there (h1 h v several).array h.pos none 0 (λ e. omega arith)
      ∙ update_there (update h.array 0 (h.array 1)) 1 (some (last h v several)) 0 (λ e. omega arith)
      ∙ update_here h.array 0 (h.array 1)
      ∙ top_node h v several

  Sunk-Popped :
      (g : Heap)
      → Sunk (h2 h v several) (n h v several) g
      → Popped h (g.array 0, record g { pos = g.pos - 1 })
  Sunk-Popped g s =
      let size : g.pos - 1 ≡ (n h v several) = omega (arith, s.same.1) in
      record {
        valid = record {
          placed =
              subst (λ k. Placed (record g { pos = g.pos - 1 }) k 0) (sym size)
                (record { room = s.placed.room; shown = s.placed.shown; placed = s.placed.placed });
          small = omega (arith, s.same.2, v.small);
          order = λ j lo hi. s.order j lo (omega arith);
        };
        node = first h v several;
        answer = s.same.3 ∙ zero_h2;
        member = first-Member h v (omega arith);
        least = λ m (lo, hi, z, e).
            omega
              (arith, ap (λ k. h.key (node_of k)) e, least_first h.pos h v (h.place m) lo hi hi);
        others = λ m.
            subst (λ k. In g k 0 m ↔ (Member h m × (m ≢ (first h v several)))) (sym size)
              (
                (λ k. (start-In h v several m).0 ((s.members m).1 k)),
                (λ k. (s.members m).0 ((start-In h v several m).1 k)),
              );
        count = (omega (arith, s.same.1), s.same.2);
        same = s.same.0;
      }

-- The heap with its only node taken out.
only-Popped : (h : Heap) → IsValid h → h.pos ≡ 1 → Yields (Popped h) (take_only h)
unfolding take_only slot store
only-Popped h v one =
    rw
      (
        le→leb 1 h.len (omega (arith, v.placed.room)),
        le→leb 0 h.len (omega arith),
        le→leb 1 h.len (omega (arith, v.placed.room)),
      )
      (yields (record {
        valid = record {
          placed = record {
            room = omega arith;
            shown = λ j lo hi. absurd (omega arith);
            placed = λ j lo hi. absurd (omega arith);
          };
          small = v.small;
          order = λ j lo hi. absurd (omega arith);
        };
        node = at h 1;
        answer =
            update_there (update h.array 0 (h.array 1)) 1 none 0 (λ e. omega arith)
            ∙ update_here h.array 0 (h.array 1)
            ∙ v.placed.shown 1 (omega arith) (omega arith) (λ e. omega arith);
        member = first-Member h v (omega arith);
        least = λ m (lo, hi, z, e).
            omega
              (arith, ap (λ k. h.key (node_of k)) e, least_first h.pos h v (h.place m) lo hi hi);
        others = λ m. (
          (λ (lo, hi, z, e). absurd (omega arith)),
          (λ ((lo, hi, z, e), ne).
              let is : h.place m ≡ 1 = omega arith in
              absurd (
                ne (
                  some-inj (
                    sym e
                    ∙ ap h.array is
                    ∙ v.placed.shown 1 (omega arith) (omega arith) (λ k. omega arith))))),
        );
        count = (omega arith, refl);
        same = refl;
      }))

-- On a heap in order that has nodes, with as much fuel as it has nodes, `xheap_pop` ends and
-- returns a node of the heap whose key is the least of all; the heap is in order again and holds
-- exactly the other nodes, and no key has changed.
pub pop-Popped :
    (fuel : ℕ) (h : Heap) → IsValid h → 1 ≤ h.pos → h.pos ≤ fuel → Yields (Popped h) (pop fuel h)
unfolding pop
pop-Popped fuel h v some_node enough = elim (Bool-cases (h.pos == 1)) [
  | inl one ↦ rw (le→ltb h.pos 1 some_node, one) (only-Popped h v (eq_of_== h.pos 1 one))
  | inr more ↦
      let several : 2 ≤ h.pos = omega (arith, ne_of_== h.pos 1 more) in
      rw (le→ltb h.pos 1 some_node, more, taken_out h v several fuel)
        (Yields-bind
          (sift_down-Sunk fuel (h2 h v several) (h.pos - 1) 1 (start-Sinking h v several)
            (omega arith) (omega (arith, v.small, v.placed.room)) (omega arith))
          λ g s. yields (Sunk-Popped h v several g s))
]

-- On a heap in order with one node, `xheap_remove` of any node, in the heap or not, takes out the
-- node that is there.
pub remove_only :
    (fuel : ℕ) (h : Heap) (x : ℕ) → IsValid h → h.pos ≡ 1 → Yields (Popped h) (remove fuel h x)
unfolding remove
remove_only fuel h x v one =
    rw (le→ltb h.pos 1 (omega arith), ap (λ k. k == 1) one) (only-Popped h v one)
