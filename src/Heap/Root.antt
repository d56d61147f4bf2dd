-- ===== src/Heap/Root.antt =====
-- src/xnet/xheap.h: what `xheap_pop` does before a node sinks: the last node takes the first one's place.
use wenas.Base.{
  ℕ, zero, suc, ◌-◌, ◌/◌, ◌≤◌, ◌≡◌, ◌≢◌, ◌↔◌, inl, inr, sym, ap, ◌∙◌, none, some, arith,
}
use wenas.Heap.{Heap, update}
use wenas.Heap.Valid.{update_here, update_there, node_of, at, key_at, Placed, In, Member, IsValid}
use wenas.Heap.Move.{with_node, eq_cases, at_there, move-Placed, move-In, some-inj}
use wenas.Heap.Swap.{Sinking}

-- The first node has the least key.
pub least_first :
    (fuel : ℕ) (h : Heap)
    → IsValid h
    → (j : ℕ) → 1 ≤ j
    → j ≤ h.pos
    → j ≤ fuel
    → key_at h 1 ≤ key_at h j
least_first zero h v j lo hi le = absurd (omega arith)
least_first (suc fuel) h v j lo hi le = elim (eq_cases j 1) [
  | inl is ↦ omega (arith, ap (key_at h) is)
  | inr ne ↦ omega (
    arith,
    v.order j (omega arith) hi,
    least_first fuel h v (j / 2) (omega arith) (omega arith) (omega arith),
  )
]

pub first-Member : (h : Heap) → IsValid h → 1 ≤ h.pos → Member h (at h 1)
first-Member h v some_node = rw (v.placed.placed 1 (omega arith) some_node (λ e. omega arith)) (
  omega arith,
  some_node,
  (λ e. omega arith),
  v.placed.shown 1 (omega arith) some_node (λ e. omega arith),
)

-- The heap after the last node was put at the top.
module _ (h : Heap) (v : IsValid h) (several : 2 ≤ h.pos) where
  abbrev pub n : ℕ
  n = h.pos - 1

  abbrev pub first : ℕ
  first = at h 1

  abbrev pub last : ℕ
  last = at h h.pos

  abbrev pub h1 : Heap
  h1 = with_node (record h { array = update h.array 0 (h.array 1) }) 1 last

  abbrev pub h2 : Heap
  h2 = record h1 { array = update h1.array h.pos none }

  at_h2 : (j : ℕ) → 1 ≤ j → j ≤ n → h2.array j ≡ (with_node h 1 last).array j
  at_h2 j lo hi = update_there h1.array h.pos none j (λ e. omega arith) ∙ elim (eq_cases j 1) [
    | inl is ↦ rw (
      is,
      update_here h.array 1 (some last),
      update_here (update h.array 0 (h.array 1)) 1 (some last),
    )
    | inr ne ↦
        update_there (update h.array 0 (h.array 1)) 1 (some last) j ne
        ∙ update_there h.array 0 (h.array 1) j (λ e. omega arith)
        ∙ sym (update_there h.array 1 (some last) j ne)
  ]

  node_h2 : (j : ℕ) → 1 ≤ j → j ≤ n → at h2 j ≡ at (with_node h 1 last) j
  node_h2 j lo hi = ap node_of (at_h2 j lo hi)

  topless : Placed h h.pos 1
  topless = record {
    room = v.placed.room;
    shown = λ j lo hi ne. v.placed.shown j lo hi (λ z. omega arith);
    placed = λ j lo hi ne. v.placed.placed j lo hi (λ z. omega arith);
  }

  moved : Placed (with_node h 1 last) h.pos h.pos
  moved =
      move-Placed h h.pos 1 h.pos topless (omega arith) (omega arith) (omega arith) (omega arith)
        (λ e. omega arith)

  key_h2 : (j : ℕ) → 2 ≤ j → j ≤ n → key_at h2 j ≡ key_at h j
  key_h2 j lo hi = ap h.key (node_h2 j (omega arith) hi ∙ at_there h 1 last j (λ e. omega arith))

  pub start-Sinking : Sinking h2 n 1
  start-Sinking = record {
    placed = record {
      room = omega (arith, v.placed.room);
      shown = λ j lo hi ne.
          at_h2 j lo hi
          ∙ moved.shown j lo (omega arith) (λ e. omega arith)
          ∙ ap some (sym (node_h2 j lo hi));
      placed = λ j lo hi ne.
          ap (update h.place last 1) (node_h2 j lo hi)
          ∙ moved.placed j lo (omega arith) (λ e. omega arith);
    };
    some_index = omega arith;
    index_le = omega arith;
    order = λ j lo hi up. omega (
      arith,
      key_h2 j lo hi,
      key_h2 (j / 2) (omega arith) (omega arith),
      v.order j lo (omega arith),
    );
    skip = λ j lo hi up some_up. absurd (omega arith);
  }

  pub top_node : h.array 1 ≡ some first
  top_node = v.placed.shown 1 (omega arith) (omega arith) (λ e. omega arith)

  moved-In : (m : ℕ) → In h h.pos 1 m ↔ In (with_node h 1 last) h.pos h.pos m
  moved-In =
      move-In h h.pos 1 h.pos topless (omega arith) (omega arith) (omega arith) (omega arith)
        (λ e. omega arith)

  pub start-In : (m : ℕ) → In h2 n 0 m ↔ (Member h m × (m ≢ first))
  start-In m = (forth, back)
    where
      forth : In h2 n 0 m → Member h m × (m ≢ first)
      forth (lo, hi, z, e) =
          let (lo', hi', ne, e') = (moved-In m).1 (
            lo,
            omega arith,
            (λ k. omega arith),
            sym (at_h2 (update h.place last 1 m) lo hi) ∙ e,
          ) in
          (
            (lo', hi', (λ k. omega arith), e'),
            (λ same. ne (
                ap h.place same
                ∙ v.placed.placed 1 (omega arith) (omega arith) (λ k. omega arith))),
          )

      back : Member h m × (m ≢ first) → In h2 n 0 m
      back ((lo, hi, z, e), ne) =
          let away : h.place m ≢ 1 = λ k. ne (some-inj (sym e ∙ ap h.array k ∙ top_node)) in
          let (lo', hi', ne', e') = (moved-In m).0 (lo, hi, away, e) in
          let le : update h.place last 1 m ≤ n = omega arith in
          (lo', le, (λ k. omega arith), at_h2 (update h.place last 1 m) lo' le ∙ e')
