-- ===== src/Heap/Move.antt =====
-- src/xnet/xheap.h: a node is put at a free place, from another place or from outside.
use wenas.Base.{
  ℕ, ◌≤◌, ◌≡◌, ◌≢◌, ◌⊎◌, ◌↔◌, inl, inr, refl, sym, ap, ◌∙◌, some, ok, le→leb, ◌==◌, eq_of_==,
  ne_of_==, Bool-cases, arith,
}
use wenas.Heap.{Heap, update, put}
use wenas.Heap.Valid.{update_here, update_there, at, Placed, In, at-ne}

abbrev pub with_node : Heap → ℕ → ℕ → Heap
with_node h i x = record h { array = update h.array i (some x); place = update h.place x i }

pub put_lem : (h : Heap) (i x : ℕ) → i ≤ h.len → put h i x ≡ ok (with_node h i x)
unfolding put
put_lem h i x le = rw (le→leb i h.len le)

pub some-inj : {a b : ℕ} → some a ≡ some b → a ≡ b
some-inj e = cc

pub eq_cases : (a b : ℕ) → (a ≡ b) ⊎ (a ≢ b)
eq_cases a b = elim (Bool-cases (a == b)) [
  | inl same ↦ inl (eq_of_== a b same)
  | inr other ↦ inr (ne_of_== a b other)
]

module _ (h : Heap) (i x : ℕ) where
  pub at_here : at (with_node h i x) i ≡ x
  at_here = rw (update_here h.array i (some x))

  pub at_there : (j : ℕ) → j ≢ i → at (with_node h i x) j ≡ at h j
  at_there j ne = rw (update_there h.array i (some x) j ne)

-- The node of place `from` goes to the free place `hole`, and leaves `from` free.
module _ (h : Heap) (n hole from : ℕ) (p : Placed h n hole) (some_hole : 1 ≤ hole)
    (hole_le : hole ≤ n) (some_from : 1 ≤ from) (from_le : from ≤ n) (other : from ≢ hole) where
  abbrev x : ℕ
  x = at h from

  abbrev h' : Heap
  h' = with_node h hole x

  pub move-Placed : Placed h' n from
  move-Placed = record {
    room = p.room;
    shown = λ j lo hi ne. elim (eq_cases j hole) [
      | inl here ↦ rw (here, update_here h.array hole (some x)) refl
      | inr there ↦ rw (update_there h.array hole (some x) j there) (p.shown j lo hi there)
    ];
    placed = λ j lo hi ne. elim (eq_cases j hole) [
      | inl here ↦ rw (here, at_here h hole x, update_here h.place x hole) refl
      | inr there ↦
          rw
            (
              at_there h hole x j there,
              update_there h.place x hole (at h j)
                  (at-ne h n hole p j from lo hi there some_from from_le other ne),
            )
            (p.placed j lo hi there)
    ];
  }

  from-In : In h n hole x
  from-In =
      rw (p.placed from some_from from_le other)
        (some_from, from_le, other, p.shown from some_from from_le other)

  here-In : In h' n from x
  here-In =
      rw (update_here h.place x hole)
        (some_hole, hole_le, (λ e. other (sym e)), update_here h.array hole (some x))

  kept-In : (m : ℕ) → m ≢ x → In h n hole m → In h' n from m
  kept-In m ne (lo, hi, there, e) = rw (update_there h.place x hole m ne) (
    lo,
    hi,
    (λ here. ne (some-inj (sym e ∙ ap h.array here ∙ p.shown from some_from from_le other))),
    update_there h.array hole (some x) (h.place m) there ∙ e,
  )

  old-In : (m : ℕ) → m ≢ x → In h' n from m → In h n hole m
  old-In m ne inside =
      let (lo, hi, there, e) = rw (update_there h.place x hole m ne) at inside in
      let away : h.place m ≢ hole = λ here. ne (
        some-inj
          (sym e ∙ ap (update h.array hole (some x)) here ∙ update_here h.array hole (some x))) in
      (lo, hi, away, sym (update_there h.array hole (some x) (h.place m) away) ∙ e)

  -- The same nodes are in the heap.
  pub move-In : (m : ℕ) → In h n hole m ↔ In h' n from m
  move-In m = elim (eq_cases m x) [
    | inl same ↦ rw same ((λ _. here-In), (λ _. from-In))
    | inr ne ↦ (kept-In m ne, old-In m ne)
  ]

-- A node that is not in the heap goes to the free place.
module _ (h : Heap) (n hole : ℕ) (p : Placed h n hole) (some_hole : 1 ≤ hole) (hole_le : hole ≤ n)
    (x : ℕ) (fresh : (j : ℕ) → 1 ≤ j → j ≤ n → j ≢ hole → at h j ≢ x) where
  abbrev full : Heap
  full = with_node h hole x

  pub fill-Placed : Placed full n 0
  fill-Placed = record {
    room = p.room;
    shown = λ j lo hi ne. elim (eq_cases j hole) [
      | inl here ↦ rw (here, update_here h.array hole (some x)) refl
      | inr there ↦ rw (update_there h.array hole (some x) j there) (p.shown j lo hi there)
    ];
    placed = λ j lo hi ne. elim (eq_cases j hole) [
      | inl here ↦ rw (here, at_here h hole x, update_here h.place x hole) refl
      | inr there ↦
          rw (at_there h hole x j there, update_there h.place x hole (at h j) (fresh j lo hi there))
            (p.placed j lo hi there)
    ];
  }

  -- It is in the heap now, with those that were.
  pub fill-In : (m : ℕ) → In full n 0 m ↔ (In h n hole m ⊎ (m ≡ x))
  fill-In m = (forth, back)
    where
      forth : In full n 0 m → In h n hole m ⊎ (m ≡ x)
      forth inside = elim (eq_cases m x) [
        | inl same ↦ inr same
        | inr ne ↦
            let (lo, hi, z, e) = rw (update_there h.place x hole m ne) at inside in
            let away : h.place m ≢ hole = λ here. ne (
              some-inj (
                sym e
                ∙ ap (update h.array hole (some x)) here
                ∙ update_here h.array hole (some x))) in
            inl (lo, hi, away, sym (update_there h.array hole (some x) (h.place m) away) ∙ e)
      ]

      back : In h n hole m ⊎ (m ≡ x) → In full n 0 m
      back (inr same) =
          rw (same, update_here h.place x hole)
            (some_hole, hole_le, (λ e. omega arith), update_here h.array hole (some x))
      back (inl (lo, hi, there, e)) =
          let ne : m ≢ x = λ same.
            fresh (h.place m) lo hi there
              (some-inj (sym (p.shown (h.place m) lo hi there) ∙ e) ∙ same) in
          rw (update_there h.place x hole m ne)
            (lo, hi, (λ z. omega arith), update_there h.array hole (some x) (h.place m) there ∙ e)
