-- ===== src/Heap/Sink.antt =====
-- src/xnet/xheap.h: the loop of `xheap_pop` and `xheap_remove`, in which a node sinks.
use wenas.Base.{
  ℕ, zero, suc, ◌+◌, ◌*◌, ◌/◌, ◌%◌, ◌^◌, ◌≤◌, ◌<◌, ◌≡◌, ◌↔◌, inl, inr, refl, ap, ◌∙◌, true, false,
  some, Run, ok, ◌>>=◌, Yields, yields, Yields-imp, Yields-bind, ◌==◌, ne→==, ==_refl,
  if◌then◌else◌, arith,
}
use wenas.Heap.{Heap, update, put, sift_down, node_at}
use wenas.Heap.Valid.{update_there, at, key_at, Placed, In, node_at_lem}
use wenas.Heap.Least.{Lower, child, stays, lower_lem, Least, rests, sinks, Least-Lower}
use wenas.Heap.Swap.{Sinking, swap-In, swap-Sinking}
use wenas.Heap.Move.{with_node, put_lem, eq_cases}

-- How the loop ends.
pub record Sunk (h : Heap) (n : ℕ) (r : Heap) : Type 0 where
  pub placed : Placed r n 0
  pub order : (j : ℕ) → 2 ≤ j → j ≤ n → key_at r (j / 2) ≤ key_at r j
  pub members : (m : ℕ) → In h n 0 m ↔ In r n 0 m
  pub same : (r.key ≡ h.key) × (r.pos ≡ h.pos) × (r.len ≡ h.len) × (r.array 0 ≡ h.array 0)

module _ (h : Heap) (n index : ℕ) (s : Sinking h n index) (sift : Heap → ℕ → Run Heap)
    (again : (g : Heap) (c : ℕ)
      → Sinking g n c
      → g.pos ≡ h.pos
      → index < c
      → Yields (Sunk g n) (sift g c)) where
  -- The turn ends at once or goes on with the child that was chosen.
  turn-Sunk :
      {r : ℕ}
      → Least h n index r
      → Yields (Sunk h n) (
          if r == index
          then ok h
          else (node_at h index >>= λ tmp.
              (node_at h r >>= λ below.
              (put h index below >>= λ h'. (put h' r tmp >>= λ h''. sift h'' r)))))
  turn-Sunk (rests {r} is least) =
      let stop : (r == index) ≡ true = ap (λ k. k == index) is ∙ ==_refl index in
      rw stop (
        yields (record {
          placed = s.placed;
          order = λ j lo hi. elim (eq_cases (j / 2) index) [
            | inl up ↦ omega (arith, ap (key_at h) up, least j lo hi up)
            | inr away ↦ s.order j lo hi away
          ];
          members = λ m. ((λ k. k), (λ k. k));
          same = (refl, refl, refl, refl);
        }))
  turn-Sunk (sinks {r} up le less least) =
      let some_r : 1 ≤ r = omega (arith, s.some_index) in
      let go : (r == index) ≡ false = ne→== r index (λ e. omega (arith, s.some_index)) in
      rw
        (
          go,
          node_at_lem h n 0 s.placed index s.some_index s.index_le
              (λ z. omega (arith, s.some_index)),
          node_at_lem h n 0 s.placed r some_r le (λ z. omega arith),
          put_lem h index (at h r) (omega (arith, s.index_le, s.placed.room)),
          put_lem (with_node h index (at h r)) r (at h index) (omega (arith, s.placed.room)),
        )
        (Yields-imp
          (λ y k. record {
            placed = k.placed;
            order = k.order;
            members = λ m. (
              (λ l. (k.members m).0 ((swap-In h n index r s up le less least m).0 l)),
              (λ l. (swap-In h n index r s up le less least m).1 ((k.members m).1 l)),
            );
            same = (k.same.0, k.same.1, k.same.2, k.same.3 ∙ untouched r some_r);
          })
          (again (with_node (with_node h index (at h r)) r (at h index)) r
            (swap-Sinking h n index r s up le less least) refl (omega (arith, s.some_index))))
    where
      untouched :
          (c : ℕ)
          → 1 ≤ c
          → update (update h.array index (some (at h c))) c (some (at h index)) 0 ≡ h.array 0
      untouched c some_c =
          update_there (update h.array index (some (at h c))) c (some (at h index)) 0
            (λ e. omega arith)
          ∙ update_there h.array index (some (at h c)) 0 (λ e. omega (arith, s.some_index))

Lower-range :
    (h : Heap) (n s c : ℕ) {r : ℕ} → Lower h n s c r → 1 ≤ s → s ≤ n → 1 ≤ c → (1 ≤ r) × (r ≤ n)
Lower-range h n s c (child e le less) a b d = omega arith
Lower-range h n s c (stays e ge) a b d = omega arith

-- With fuel for one turn more than there are levels, or places behind `index`, the loop ends with
-- the heap in order; the nodes are the same ones, and index 0 is not written.
pub sift_down-Sunk :
    (fuel : ℕ) (h : Heap) (n index : ℕ)
    → Sinking h n index
    → h.pos ≡ n + 1
    → n < 2 ^ 31
    → n < fuel + index
    → Yields (Sunk h n) (sift_down fuel h index)
unfolding sift_down
sift_down-Sunk zero h n index s size small enough = absurd (omega (arith, s.index_le))
sift_down-Sunk (suc fuel) h n index s size small enough =
    let left : index * 2 % 2 ^ 32 ≡ index * 2 = omega (arith, s.index_le) in
    let right : (index * 2 + 1) % 2 ^ 32 ≡ index * 2 + 1 = omega (arith, s.index_le) in
    rw (left, right)
      (Yields-bind
        (lower_lem h n index (index * 2) s.placed size s.some_index s.index_le
          (omega (arith, s.some_index)))
        λ r l.
          let range =
            Lower-range h n index (index * 2) l s.some_index s.index_le
              (omega (arith, s.some_index)) in
          Yields-bind (lower_lem h n r (index * 2 + 1) s.placed size range.0 range.1 (omega arith))
            λ r' l'.
              turn-Sunk h n index s (λ g c. sift_down fuel g c)
                (λ g c t same deeper. sift_down-Sunk fuel g n c t (same ∙ size) small (omega arith))
                (Least-Lower h n index r r' s.some_index l l'))
