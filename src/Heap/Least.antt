-- ===== src/Heap/Least.antt =====
-- src/xnet/xheap.h: the comparisons of a node with its children in the loop of `xheap_pop`.
use wenas.Base.{
  ℕ, ◌+◌, ◌*◌, ◌/◌, ◌≤◌, ◌<◌, ◌≡◌, ◌⊎◌, inl, inr, refl, ap, Yields, yields, ltb, ltb→lt, ltb→ge,
  arith, Bool-cases,
}
use wenas.Heap.{Heap, lower}
use wenas.Heap.Valid.{key_at, Placed, node_at_lem}
use wenas.Heap.Move.{eq_cases}

-- What one comparison chooses.
pub data Lower (h : Heap) (n s c : ℕ) : ℕ → Type 0 where
  child : {r : ℕ} → r ≡ c → c ≤ n → key_at h c < key_at h s → Lower h n s c r
  stays : {r : ℕ} → r ≡ s → (c ≤ n → key_at h s ≤ key_at h c) → Lower h n s c r

pub lower_lem :
    (h : Heap) (n s c : ℕ)
    → Placed h n 0
    → h.pos ≡ n + 1
    → 1 ≤ s
    → s ≤ n
    → 1 ≤ c
    → Yields (Lower h n s c) (lower h s c)
unfolding lower
lower_lem h n s c p size some_s s_le some_c = elim (Bool-cases (ltb c h.pos)) [
  | inl inside ↦
      let le : c ≤ n = omega (arith, ltb→lt c h.pos inside) in
      rw
        (
          inside,
          node_at_lem h n 0 p s some_s s_le (λ z. omega arith),
          node_at_lem h n 0 p c some_c le (λ z. omega arith),
        )
        (elim (Bool-cases (ltb (key_at h c) (key_at h s))) [
          | inl less ↦ rw less (yields (child refl le (ltb→lt (key_at h c) (key_at h s) less)))
          | inr more ↦ rw more (yields (stays refl (λ _. ltb→ge (key_at h c) (key_at h s) more)))
        ])
  | inr outside ↦
      rw outside (yields (stays refl (λ le. absurd (omega (arith, ltb→ge c h.pos outside)))))
]

-- What both comparisons choose: the node itself, or the lesser of its children that is below it.
pub data Least (h : Heap) (n i : ℕ) : ℕ → Type 0 where
  rests :
      {r : ℕ}
      → r ≡ i
      → ((j : ℕ) → 2 ≤ j → j ≤ n → j / 2 ≡ i → key_at h i ≤ key_at h j)
      → Least h n i r
  sinks :
      {r : ℕ}
      → r / 2 ≡ i
      → r ≤ n
      → key_at h r < key_at h i
      → ((j : ℕ) → 2 ≤ j → j ≤ n → j / 2 ≡ i → key_at h r ≤ key_at h j)
      → Least h n i r

two_children : (i j : ℕ) → j / 2 ≡ i → (j ≡ i * 2) ⊎ (j ≡ i * 2 + 1)
two_children i j e = elim (eq_cases j (i * 2)) [ inl is ↦ inl is | inr ne ↦ inr (omega arith) ]

pub Least-Lower :
    (h : Heap) (n i r r' : ℕ)
    → 1 ≤ i
    → Lower h n i (i * 2) r
    → Lower h n r (i * 2 + 1) r'
    → Least h n i r'
Least-Lower h n i r r' some_i (child e le less) (child e' le' less') =
    sinks (omega arith) (omega arith) (omega (arith, ap (key_at h) e, ap (key_at h) e'))
      λ j lo hi up. elim (two_children i j up) [
        | inl is ↦ omega (arith, ap (key_at h) is, ap (key_at h) e, ap (key_at h) e')
        | inr is ↦ omega (arith, ap (key_at h) is, ap (key_at h) e')
      ]
Least-Lower h n i r r' some_i (child e le less) (stays e' ge) =
    sinks (omega arith) (omega arith) (omega (arith, ap (key_at h) e, ap (key_at h) e'))
      λ j lo hi up. elim (two_children i j up) [
        | inl is ↦ omega (arith, ap (key_at h) is, ap (key_at h) e, ap (key_at h) e')
        | inr is ↦ omega (arith, ap (key_at h) is, ap (key_at h) e', ge (omega arith))
      ]
Least-Lower h n i r r' some_i (stays e ge) (child e' le less) =
    sinks (omega arith) (omega arith) (omega (arith, ap (key_at h) e, ap (key_at h) e'))
      λ j lo hi up. elim (two_children i j up) [
        | inl is ↦
            omega (arith, ap (key_at h) is, ap (key_at h) e, ap (key_at h) e', ge (omega arith))
        | inr is ↦ omega (arith, ap (key_at h) is, ap (key_at h) e')
      ]
Least-Lower h n i r r' some_i (stays e ge) (stays e' ge') = rests (omega arith) λ j lo hi up.
    elim (two_children i j up) [
      | inl is ↦ omega (arith, ap (key_at h) is, ge (omega arith))
      | inr is ↦ omega (arith, ap (key_at h) is, ap (key_at h) e, ge' (omega arith))
    ]
