-- ===== src/Base/Windows.antt =====
-- A list as a ring: what lies in it from an index on, going round at its end.
use Prim.Native.Nat.{ℕ, zero, suc, ◌+◌, ◌-◌, ◌%◌, ◌≤◌, ◌<◌}
use mathlib.Core.Path.{◌≡◌, refl, sym, ap, ◌∙◌}
use mathlib.Core.List.{List, [], ◌∷◌, ◌++◌}
use mathlib.Core.Logic.{◌⊎◌}
use native.Mathlib.Nat.{mod-eq_of_lt, mod-lt, mod-add-mod, mod-eq-sub-mod, suc-add}
use native.Mathlib.Omega.{arith}
use wenas.Base.Lists.{length, get_or}

-- The `i`-th place from `s` on, in a ring of `len`: behind `s`, or round the end.
pub place_cases :
    (len s i : ℕ)
    → 0 < len
    → i ≤ len
    → ((s % len + i < len) × ((s + i) % len ≡ s % len + i))
      ⊎ ((len ≤ s % len + i) × ((s + i) % len ≡ s % len + i - len))
place_cases len s i pos h = ground (arith, mod-lt s pos, mod-add-mod s len i, small, big)
  where
    small : s % len + i < len → (s % len + i) % len ≡ s % len + i
    small lt = mod-eq_of_lt lt

    big : len ≤ s % len + i → (s % len + i) % len ≡ s % len + i - len
    big le = mod-eq-sub-mod le ∙ mod-eq_of_lt (omega (arith, mod-lt s pos))

unfoldable pub window : ℕ → List ℕ → ℕ → ℕ → List ℕ
window len xs s zero = []
window len xs s (suc n) = get_or xs (s % len) 0 ∷ window len xs (s + 1) n

pub length-window : (len : ℕ) (xs : List ℕ) (s n : ℕ) → length (window len xs s n) ≡ n
unfolding window
length-window len xs s zero = refl
length-window len xs s (suc n) = ap suc (length-window len xs (s + 1) n)

pub window-add :
    (len : ℕ) (xs : List ℕ) (s m n : ℕ)
    → window len xs s (m + n) ≡ window len xs s m ++ window len xs (s + m) n
unfolding window
window-add len xs s zero n =
    ap (λ k. window len xs s k) (omega arith) ∙ ap (λ k. window len xs k n) (omega arith)
window-add len xs s (suc m) n = rw (suc-add m n) (
    ap (◌∷◌ (get_or xs (s % len) 0)) (
      window-add len xs (s + 1) m n
      ∙ ap (λ k. window len xs (s + 1) m ++ window len xs k n) (omega arith)))

-- A window is the list with the same elements.
pub window_is :
    (len : ℕ) (xs : List ℕ) (s n : ℕ) (ys : List ℕ)
    → length ys ≡ n
    → ((i : ℕ) → i < n → get_or xs ((s + i) % len) 0 ≡ get_or ys i 0)
    → window len xs s n ≡ ys
unfolding window
window_is len xs s zero [] e h = refl
window_is len xs s zero (y ∷ ys) e h = absurd (omega arith)
window_is len xs s (suc n) [] e h = absurd (omega arith)
window_is len xs s (suc n) (y ∷ ys) e h =
    let first : get_or xs (s % len) 0 ≡ y =
      ap (λ k. get_or xs (k % len) 0) (omega arith) ∙ h 0 (omega arith) in
    rw first (
      ap (◌∷◌ y) (
        window_is len xs (s + 1) n ys (omega arith)
          (λ i lt. ap (λ k. get_or xs (k % len) 0) (omega arith) ∙ h (suc i) (omega arith))))

pub window_cong :
    (len : ℕ) (xs ys : List ℕ) (s t n : ℕ)
    → ((i : ℕ) → i < n → get_or xs ((s + i) % len) 0 ≡ get_or ys ((t + i) % len) 0)
    → window len xs s n ≡ window len ys t n
unfolding window
window_cong len xs ys s t zero h = refl
window_cong len xs ys s t (suc n) h =
    let first : get_or xs (s % len) 0 ≡ get_or ys (t % len) 0 =
      ap (λ k. get_or xs (k % len) 0) (omega arith)
      ∙ h 0 (omega arith)
      ∙ ap (λ k. get_or ys (k % len) 0) (omega arith) in
    rw first (
      ap (◌∷◌ (get_or ys (t % len) 0)) (
        window_cong len xs ys (s + 1) (t + 1) n λ i lt.
          ap (λ k. get_or xs (k % len) 0) (omega arith)
          ∙ h (suc i) (omega arith)
          ∙ ap (λ k. get_or ys (k % len) 0) (omega arith)))

-- Only the place in the ring counts.
pub window_round :
    (len : ℕ) (xs : List ℕ) (s t n : ℕ) → s % len ≡ t % len → window len xs s n ≡ window len xs t n
window_round len xs s t n e = window_cong len xs xs s t n λ i lt.
    ap (λ k. get_or xs k 0)
      (sym (mod-add-mod s len i) ∙ ap (λ k. (k + i) % len) e ∙ mod-add-mod t len i)
