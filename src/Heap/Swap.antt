-- ===== src/Heap/Swap.antt =====
-- src/xnet/xheap.h: a node and one of its children change places.
use wenas.Base.{ℕ, ◌/◌, ◌≤◌, ◌<◌, ◌≡◌, ◌≢◌, ◌⊎◌, ◌↔◌, inl, inr, sym, ap, ◌∙◌, arith}
use wenas.Heap.{Heap}
use wenas.Heap.Valid.{at, key_at, Placed, In, at-ne}
use wenas.Heap.Move.{
  with_node, eq_cases, at_here, at_there, move-Placed, move-In, fill-Placed, fill-In, some-inj,
}

-- The heap is in order but for the node at `index`, which may be above its children.
pub record Sinking (h : Heap) (n index : ℕ) : Type 0 where
  pub placed : Placed h n 0
  pub some_index : 1 ≤ index
  pub index_le : index ≤ n
  pub order : (j : ℕ) → 2 ≤ j → j ≤ n → j / 2 ≢ index → key_at h (j / 2) ≤ key_at h j
  pub skip :
      (j : ℕ) → 2 ≤ j → j ≤ n → j / 2 ≡ index → 1 ≤ index / 2 → key_at h (index / 2) ≤ key_at h j

-- The nodes of the heap: that at `i`, and the others.
pub split-In :
    (h : Heap) (n i : ℕ)
    → Placed h n 0
    → 1 ≤ i
    → i ≤ n
    → (m : ℕ) → In h n 0 m ↔ (In h n i m ⊎ (m ≡ at h i))
split-In h n i p some_i le m = (forth, back)
  where
    forth : In h n 0 m → In h n i m ⊎ (m ≡ at h i)
    forth (lo, hi, z, e) = elim (eq_cases (h.place m) i) [
      | inl here ↦ inr (some-inj (sym e ∙ ap h.array here ∙ p.shown i some_i le (λ k. omega arith)))
      | inr there ↦ inl (lo, hi, there, e)
    ]

    back : In h n i m ⊎ (m ≡ at h i) → In h n 0 m
    back (inl (lo, hi, there, e)) = (lo, hi, (λ k. omega arith), e)
    back (inr same) =
        rw (same, p.placed i some_i le (λ k. omega arith))
          (some_i, le, (λ k. omega arith), p.shown i some_i le (λ k. omega arith))

-- One turn: the node at `index` and its child `c` change places.
module _ (h : Heap) (n index c : ℕ) (s : Sinking h n index) (up : c / 2 ≡ index) (le : c ≤ n)
    (less : key_at h c < key_at h index)
    (least : (j : ℕ) → 2 ≤ j → j ≤ n → j / 2 ≡ index → key_at h c ≤ key_at h j) where
  apart : c ≢ index
  apart e = omega (arith, s.some_index)

  two : 2 ≤ c
  two = omega (arith, s.some_index)

  abbrev h1 : Heap
  h1 = with_node h index (at h c)

  abbrev h2 : Heap
  h2 = with_node h1 c (at h index)

  without : Placed h n index
  without = record {
    room = s.placed.room;
    shown = λ j lo hi ne. s.placed.shown j lo hi (λ z. omega arith);
    placed = λ j lo hi ne. s.placed.placed j lo hi (λ z. omega arith);
  }

  moved : Placed h1 n c
  moved = move-Placed h n index c without s.some_index s.index_le (omega (arith, two)) le apart

  other : (j : ℕ) → 1 ≤ j → j ≤ n → j ≢ index → at h j ≢ at h index
  other j lo hi ne =
      at-ne h n 0 s.placed j index lo hi (λ z. omega arith) s.some_index s.index_le
        (λ z. omega (arith, s.some_index)) ne

  fresh : (j : ℕ) → 1 ≤ j → j ≤ n → j ≢ c → at h1 j ≢ at h index
  fresh j lo hi ne = elim (eq_cases j index) [
    | inl here ↦ rw (here, at_here h index (at h c)) (other c (omega (arith, two)) le apart)
    | inr there ↦ rw (at_there h index (at h c) j there) (other j lo hi there)
  ]

  swap-Placed : Placed h2 n 0
  swap-Placed = fill-Placed h1 n c moved (omega (arith, two)) le (at h index) fresh

  pub swap-In : (m : ℕ) → In h n 0 m ↔ In h2 n 0 m
  swap-In m = ((λ k. fill.1 (forth (split.0 k))), (λ k. split.1 (back (fill.0 k))))
    where
      split : In h n 0 m ↔ (In h n index m ⊎ (m ≡ at h index))
      split = split-In h n index s.placed s.some_index s.index_le m

      move : In h n index m ↔ In h1 n c m
      move = move-In h n index c without s.some_index s.index_le (omega (arith, two)) le apart m

      fill : In h2 n 0 m ↔ (In h1 n c m ⊎ (m ≡ at h index))
      fill = fill-In h1 n c moved (omega (arith, two)) le (at h index) fresh m

      forth : In h n index m ⊎ (m ≡ at h index) → In h1 n c m ⊎ (m ≡ at h index)
      forth (inl k) = inl (move.0 k)
      forth (inr e) = inr e

      back : In h1 n c m ⊎ (m ≡ at h index) → In h n index m ⊎ (m ≡ at h index)
      back (inl k) = inl (move.1 k)
      back (inr e) = inr e

  key_child : key_at h2 c ≡ key_at h index
  key_child = ap h.key (at_here h1 c (at h index))

  key_index : key_at h2 index ≡ key_at h c
  key_index =
      ap h.key (at_there h1 c (at h index) index (λ e. apart (sym e)) ∙ at_here h index (at h c))

  key_other : (j : ℕ) → j ≢ index → j ≢ c → key_at h2 j ≡ key_at h j
  key_other j ne ne' = ap h.key (at_there h1 c (at h index) j ne' ∙ at_there h index (at h c) j ne)

  pub swap-Sinking : Sinking h2 n c
  swap-Sinking = record {
    placed = swap-Placed;
    some_index = omega (arith, two);
    index_le = le;
    order = λ j lo hi away. elim (eq_cases (j / 2) index) [
      | inl below ↦ elim (eq_cases j c) [
        | inl is ↦ omega (arith, ap (key_at h2) is, ap (key_at h2) below, key_child, key_index)
        | inr ne ↦
            let ne' : j ≢ index = λ k. omega (arith, s.some_index) in
            omega (arith, ap (key_at h2) below, key_index, key_other j ne' ne, least j lo hi below)
      ]
      | inr above ↦
          let ne : j ≢ c = λ k. above (ap (λ i. i / 2) k ∙ up) in
          elim (eq_cases j index) [
            | inl is ↦
                let half : j / 2 ≡ index / 2 = ap (λ i. i / 2) is in
                let here : index / 2 ≢ index = λ k. omega (arith, s.some_index) in
                let away' : index / 2 ≢ c = λ k. omega (arith, two) in
                omega (
                  arith,
                  ap (key_at h2) is,
                  ap (key_at h2) half,
                  key_index,
                  key_other (index / 2) here away',
                  s.skip c two le up (omega arith),
                )
            | inr ne' ↦
                omega
                  (arith, key_other j ne' ne, key_other (j / 2) above away, s.order j lo hi above)
          ]
    ];
    skip = λ j lo hi below some_up.
        let ne : j ≢ c = λ k. omega (arith, two) in
        let ne' : j ≢ index = λ k. omega (arith, two) in
        let up' : j / 2 ≢ index = λ k. apart (sym below ∙ k) in
        omega (
          arith,
          ap (key_at h2) up,
          key_index,
          key_other j ne' ne,
          ap (key_at h) below,
          s.order j lo hi up',
        );
  }
