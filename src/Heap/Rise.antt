-- ===== src/Heap/Rise.antt =====
-- src/xnet/xheap.h: the loop of `xheap_push`, in which a free place rises to where the node belongs.
use wenas.Base.{
  ℕ, zero, suc, ◌/◌, ◌≤◌, ◌<◌, ◌≡◌, ◌≢◌, ◌↔◌, inl, inr, refl, sym, ap, ◌∙◌, Yields, yields,
  Yields-imp, ltb, ltb→lt, ltb→ge, Bool-cases, arith,
}
use wenas.Heap.{Heap, sift_up}
use wenas.Heap.Valid.{at, key_at, Placed, In, node_at_lem}
use wenas.Heap.Move.{with_node, put_lem, eq_cases, at_here, at_there, move-Placed, move-In}

-- The heap is in order but for the place `hole`, which waits for the node `x`.
pub record Rising (h : Heap) (n hole x : ℕ) : Type 0 where
  pub placed : Placed h n hole
  pub some_hole : 1 ≤ hole
  pub hole_le : hole ≤ n
  pub fresh : (j : ℕ) → 1 ≤ j → j ≤ n → j ≢ hole → at h j ≢ x
  pub order : (j : ℕ) → 2 ≤ j → j ≤ n → j ≢ hole → j / 2 ≢ hole → key_at h (j / 2) ≤ key_at h j
  pub below : (j : ℕ) → 2 ≤ j → j ≤ n → j / 2 ≡ hole → h.key x ≤ key_at h j
  pub skip :
      (j : ℕ) → 2 ≤ j → j ≤ n → j / 2 ≡ hole → 1 ≤ hole / 2 → key_at h (hole / 2) ≤ key_at h j

-- One turn: the parent comes down into the free place.
module _ (h : Heap) (n hole x : ℕ) (r : Rising h n hole x) (some_parent : 0 < hole / 2)
    (less : h.key x < key_at h (hole / 2)) where
  abbrev parent : ℕ
  parent = hole / 2

  apart : parent ≢ hole
  apart e = omega (arith, r.some_hole)

  abbrev h' : Heap
  h' = with_node h hole (at h parent)

  here : at h' hole ≡ at h parent
  here = at_here h hole (at h parent)

  there : (j : ℕ) → j ≢ hole → at h' j ≡ at h j
  there j ne = at_there h hole (at h parent) j ne

  same_key : (j : ℕ) → j ≢ hole → key_at h' j ≡ key_at h j
  same_key j ne = ap h.key (there j ne)

  hole_key : key_at h' hole ≡ key_at h parent
  hole_key = ap h.key here

  above : (j : ℕ) → 2 ≤ j → j ≤ n → j / 2 ≡ parent → key_at h parent ≤ key_at h' j
  above j lo hi e = elim (eq_cases j hole) [
    | inl is ↦ rw is (omega (arith, hole_key))
    | inr ne ↦
        let up : j / 2 ≢ hole = λ k. apart (sym e ∙ k) in
        omega (arith, same_key j ne, ap (key_at h) e, r.order j lo hi ne up)
  ]

  step-Rising : Rising h' n parent x
  step-Rising = record {
    placed =
        move-Placed h n hole parent r.placed r.some_hole r.hole_le some_parent
          (omega (arith, r.hole_le)) apart;
    some_hole = some_parent;
    hole_le = omega (arith, r.hole_le);
    fresh = λ j lo hi ne. elim (eq_cases j hole) [
      | inl is ↦ rw (is, here) (r.fresh parent some_parent (omega (arith, r.hole_le)) apart)
      | inr away ↦ rw (there j away) (r.fresh j lo hi away)
    ];
    order = λ j lo hi ne up. elim (eq_cases (j / 2) hole) [
      | inl is ↦
          let away : j ≢ hole = λ k. omega (arith, r.some_hole) in
          omega (arith, same_key j away, ap (key_at h') is, hole_key, r.skip j lo hi is some_parent)
      | inr up' ↦
          let away : j ≢ hole = λ k. up (ap (λ i. i / 2) k) in
          omega (arith, same_key j away, same_key (j / 2) up', r.order j lo hi away up')
    ];
    below = λ j lo hi e. omega (arith, above j lo hi e, less);
    skip = λ j lo hi e some_grand.
        let up : parent / 2 ≢ hole = λ k. omega (arith, r.some_hole) in
        let grand = r.order parent (omega arith) (omega (arith, r.hole_le)) apart up in
        omega (arith, above j lo hi e, same_key (parent / 2) up, grand);
  }

  step-In : (m : ℕ) → In h n hole m ↔ In h' n parent m
  step-In =
      move-In h n hole parent r.placed r.some_hole r.hole_le some_parent (omega (arith, r.hole_le))
        apart

-- How the loop ends: where the node belongs.
pub record Risen (h : Heap) (n hole x : ℕ) (r : ℕ × Heap) : Type 0 where
  pub rising : Rising r.1 n r.0 x
  pub stop : 1 ≤ r.0 / 2 → key_at r.1 (r.0 / 2) ≤ h.key x
  pub members : (m : ℕ) → In h n hole m ↔ In r.1 n r.0 m
  pub same : (r.1.key ≡ h.key) × (r.1.pos ≡ h.pos) × (r.1.len ≡ h.len)

pub sift_up-Risen :
    (fuel : ℕ) (h : Heap) (n hole x : ℕ)
    → Rising h n hole x
    → hole < fuel
    → Yields (Risen h n hole x) (sift_up fuel h hole x)
unfolding sift_up
sift_up-Risen zero h n hole x r enough = absurd (omega arith)
sift_up-Risen (suc fuel) h n hole x r enough = elim (Bool-cases (ltb 0 (hole / 2))) [
  | inl some_parent ↦
      let pos = ltb→lt 0 (hole / 2) some_parent in
      let le : hole / 2 ≤ n = omega (arith, r.hole_le) in
      let apart : hole / 2 ≢ hole = λ e. omega (arith, r.some_hole) in
      rw (some_parent, node_at_lem h n hole r.placed (hole / 2) pos le apart)
        (elim (Bool-cases (ltb (h.key x) (key_at h (hole / 2)))) [
          | inl less ↦
              let small = ltb→lt (h.key x) (key_at h (hole / 2)) less in
              rw (less, put_lem h hole (at h (hole / 2)) (omega (arith, r.hole_le, r.placed.room)))
                (Yields-imp
                  (λ y s. record {
                    rising = s.rising;
                    stop = s.stop;
                    members = λ m. (
                      (λ k. (s.members m).0 ((step-In h n hole x r pos small m).0 k)),
                      (λ k. (step-In h n hole x r pos small m).1 ((s.members m).1 k)),
                    );
                    same = s.same;
                  })
                  (sift_up-Risen fuel (with_node h hole (at h (hole / 2))) n (hole / 2) x
                    (step-Rising h n hole x r pos small) (omega arith)))
          | inr done ↦ rw done (
              yields (record {
                rising = r;
                stop = λ _. ltb→ge (h.key x) (key_at h (hole / 2)) done;
                members = λ m. ((λ k. k), (λ k. k));
                same = (refl, refl, refl);
              }))
        ])
  | inr root ↦ rw root (
      yields (record {
        rising = r;
        stop = λ k. absurd (omega (arith, ltb→ge 0 (hole / 2) root));
        members = λ m. ((λ k. k), (λ k. k));
        same = (refl, refl, refl);
      }))
]
