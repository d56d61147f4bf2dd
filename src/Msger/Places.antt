-- ===== src/Msger/Places.antt =====
-- src/xnet/xmsger.c: where the packs of a serial buffer lie, by their number counted without
-- wrap-around.
use wenas.Base.{
  ℕ, zero, suc, ◌+◌, ◌-◌, ◌%◌, ◌^◌, ◌≤◌, ◌<◌, ◌≡◌, refl, sym, ap, ◌∙◌, ◌≢◌, List, [], ◌∷◌, Option,
  some, ok, or_fault, length, set, get_elem?, length-set, power_pos, power-le, power-dvd,
  bit_and_mask, lt→ltb, arith,
}
use native.Mathlib.Nat.{mod-lt, mod-mod_of_dvd, add-mod_right}
use wenas.Base.Windows.{place_cases}
use wenas.Msger.{Ring, index_of, sub16, slot, store}

module _ {ℓ} {A : Type ℓ} where
  pub get_elem?-set_self :
      (xs : List A) (i : ℕ) (a : A) → i < length xs → get_elem? (set xs i a) i ≡ some a
  get_elem?-set_self [] i a h = absurd (omega arith)
  get_elem?-set_self (x ∷ xs) zero a h = refl
  get_elem?-set_self (x ∷ xs) (suc i) a h = get_elem?-set_self xs i a (omega arith)

  pub get_elem?-set_ne :
      (xs : List A) (i j : ℕ) (a : A) → i ≢ j → get_elem? (set xs i a) j ≡ get_elem? xs j
  get_elem?-set_ne [] i j a h = refl
  get_elem?-set_ne (x ∷ xs) zero zero a h = absurd (h refl)
  get_elem?-set_ne (x ∷ xs) zero (suc j) a h = refl
  get_elem?-set_ne (x ∷ xs) (suc i) zero a h = refl
  get_elem?-set_ne (x ∷ xs) (suc i) (suc j) a h = get_elem?-set_ne xs i j a (λ e. h (ap suc e))

  -- A buffer whose range is a power of two that a position of 16 bits can tell apart. It has a slot
  -- more than its range, which is not used.
  pub record IsRing (b : Ring A) : Type ℓ where
    pub bits : ℕ
    pub few : bits < 16
    pub power : b.range ≡ 2 ^ bits
    pub sized : length b.buf ≡ b.range + 1

  -- The slot for number `i`, and the buffer with `a` in it.
  abbrev pub cell : Ring A → ℕ → Option A
  cell b i = get_elem? b.buf (i % b.range)

  abbrev pub put : Ring A → ℕ → A → Ring A
  put b i a = record b { buf = set b.buf (i % b.range) a }

  module _ (b : Ring A) (v : IsRing b) where
    pub range_pos : 0 < b.range
    range_pos = omega (arith, v.power, power_pos v.bits)

    pub range_small : b.range ≤ 32768
    range_small = omega (arith, v.power, power-le v.bits 15 (omega (arith, v.few)))

    pub index_lem : (i : ℕ) → index_of b.range (i % 65536) ≡ i % b.range
    unfolding index_of
    index_lem i =
        let mask : sub16 b.range 1 ≡ 2 ^ v.bits - 1 =
          omega (arith, range_small, range_pos, v.power) in
        rw (mask, v.power)
          (bit_and_mask v.bits (i % 65536)
            ∙ mod-mod_of_dvd (2 ^ v.bits) i (power-dvd v.bits 16 (omega (arith, v.few))))

    inside : (i : ℕ) → i % b.range < length b.buf
    inside i = omega (arith, mod-lt i range_pos, v.sized)

    pub slot_lem : (i : ℕ) → slot b (i % 65536) ≡ or_fault (cell b i)
    unfolding slot
    slot_lem i = ap (λ j. or_fault (get_elem? b.buf j)) (index_lem i)

    pub store_lem : (i : ℕ) (a : A) → store b (i % 65536) a ≡ ok (put b i a)
    unfolding store
    store_lem i a = rw (index_lem i, lt→ltb (i % b.range) (length b.buf) (inside i)) refl

    pub put-IsRing : (i : ℕ) (a : A) → IsRing (put b i a)
    put-IsRing i a = record {
      bits = v.bits;
      few = v.few;
      power = v.power;
      sized = length-set b.buf (i % b.range) a ∙ v.sized;
    }

    pub cell-put_self : (i : ℕ) (a : A) → cell (put b i a) i ≡ some a
    cell-put_self i a = get_elem?-set_self b.buf (i % b.range) a (inside i)

    pub cell-round : (i : ℕ) → cell b (i + b.range) ≡ cell b i
    cell-round i = ap (get_elem? b.buf) (add-mod_right i b.range)

    apart : (i d : ℕ) → 0 < d → d < b.range → i % b.range ≢ (i + d) % b.range
    apart i d pos small e =
        ground (arith, place_cases b.range i d range_pos (omega arith), mod-lt i range_pos)

    -- Fewer than a whole round ahead or behind is another slot.
    pub cell-put_ahead : (i j : ℕ) (a : A) → i < j → j < i + b.range → cell (put b i a) j ≡ cell b j
    cell-put_ahead i j a lo hi =
        get_elem?-set_ne b.buf (i % b.range) (j % b.range) a (λ e.
          apart i (j - i) (omega arith) (omega arith) (e ∙ ap (λ k. k % b.range) (omega arith)))

    pub cell-put_behind :
        (i j : ℕ) (a : A) → j < i → i < j + b.range → cell (put b i a) j ≡ cell b j
    cell-put_behind i j a lo hi = get_elem?-set_ne b.buf (i % b.range) (j % b.range) a (λ e.
        apart j (i - j) (omega arith) (omega arith) (sym e ∙ ap (λ k. k % b.range) (omega arith)))
