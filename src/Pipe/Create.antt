-- ===== src/Pipe/Create.antt =====
-- src/xnet/xpipe.h: `xpipe_create` makes an empty pipe whose ring is a power of two.
use wenas.Base.{
  ℕ, zero, suc, ◌-◌, ◌*◌, ◌/◌, ◌%◌, ◌^◌, ◌≤◌, ◌<◌, bit_and, List, [], ◌≡◌, refl, sym, ap, ◌∙◌,
  length, take, sub64, arith, Yields, yields, Yields-bind, Yields-imp, Option, some, true, false,
  ltb, ltb→lt, ltb→ge, ◌==◌, if◌then◌else◌, Bool-cases, inl, inr, min, eq_of_==, ne_of_==,
  power_of_two, power-le, window,
}
use native.Mathlib.Nat.{pow-suc, mul_assoc, mul-le-mul_left, le-mul_of_pos_right}
use wenas.Pipe.{Pipe, double, ring_size, created, create}
use wenas.Pipe.Valid.{IsValid, contents}

pub record Doubled (size len s : ℕ) : Type 0 where
  pub turns : ℕ
  pub result : s ≡ size * 2 ^ turns
  pub above : len < 2 ^ turns
  pub near : 2 ^ turns ≤ 2 * len

double-Doubled :
    (fuel size len : ℕ)
    → 0 < size
    → 0 < len
    → len < 2 ^ fuel
    → size * len < 2 ^ 63
    → Yields (Doubled size len) (double fuel size len)
unfolding double
double-Doubled zero size len some_size some_len enough small = absurd (omega arith)
double-Doubled (suc fuel) size len some_size some_len enough small =
    let no_wrap : size * 2 % 2 ^ 64 ≡ size * 2 = omega (arith, le-mul_of_pos_right size some_len) in
    elim (Bool-cases (len / 2 == 0)) [
      | inl last ↦
          let one : len ≡ 1 = omega (arith, eq_of_== (len / 2) 0 last) in
          rw (last, no_wrap)
            (yields (record { turns = 1; result = refl; above = omega arith; near = omega arith }))
      | inr more ↦
          let half : 0 < len / 2 = omega (arith, ne_of_== (len / 2) 0 more) in
          let less : size * 2 * (len / 2) ≤ size * len = omega (
            arith,
            mul_assoc size 2 (len / 2),
            mul-le-mul_left {m = 2 * (len / 2)} {n = len} size (omega arith),
          ) in
          rw (more, no_wrap)
            (Yields-imp
              (λ s d. record {
                turns = suc d.turns;
                result =
                    d.result
                    ∙ mul_assoc size 2 (2 ^ d.turns)
                    ∙ ap (λ k. size * k) (omega (arith, pow-suc 2 d.turns));
                above = omega (arith, d.above, pow-suc 2 d.turns);
                near = omega (arith, d.near, pow-suc 2 d.turns);
              })
              (double-Doubled fuel (size * 2) (len / 2) (omega arith) half
                (omega (arith, pow-suc 2 fuel)) (omega (arith, less))))
    ]

-- The size of a ring for a request that is neither 0 nor above 2 ^ 63.
pub record RingSize (len s : ℕ) : Type 0 where
  pub bits : ℕ
  pub few : bits < 64
  pub power : s ≡ 2 ^ bits
  pub enough : len ≤ s
  pub near : s ≤ 2 * len

few_bits : (k n : ℕ) → 2 ^ k < 2 ^ n → k < n
few_bits k n h = elim (Bool-cases (ltb k n)) [
  | inl less ↦ ltb→lt k n less
  | inr more ↦ absurd (omega (arith, power-le n k (ltb→ge k n more)))
]

pub ring_size-RingSize : (len : ℕ) → 0 < len → len ≤ 2 ^ 63 → Yields (RingSize len) (ring_size len)
unfolding ring_size
ring_size-RingSize len some_len small = elim (Bool-cases (bit_and len (sub64 len 1) == 0)) [
  | inl power ↦
      let same : sub64 len 1 ≡ len - 1 = omega arith in
      let (k, is) =
        power_of_two len some_len
          (ap (bit_and len) (sym same) ∙ eq_of_== (bit_and len (sub64 len 1)) 0 power) in
      rw power (
        yields (record {
          bits = k;
          few = few_bits k 64 (omega arith);
          power = is;
          enough = omega arith;
          near = omega arith;
        }))
  | inr other ↦ rw other (
      Yields-imp
        (λ s d. record {
          bits = d.turns;
          few = few_bits d.turns 64 (omega (arith, d.near, less_than other));
          power = d.result ∙ omega arith;
          enough = omega (arith, d.result, d.above);
          near = omega (arith, d.result, d.near);
        })
        (double-Doubled 64 1 len (omega arith) some_len (omega arith)
          (omega (arith, less_than other))))
]
  where
    top : (bit_and (2 ^ 63) (sub64 (2 ^ 63) 1) == 0) ≡ true
    top = refl

    less_than : (bit_and len (sub64 len 1) == 0) ≡ false → len < 2 ^ 63
    less_than other = elim (Bool-cases (ltb len (2 ^ 63))) [
      | inl less ↦ ltb→lt len (2 ^ 63) less
      | inr more ↦
          let is : len ≡ 2 ^ 63 = omega (arith, ltb→ge len (2 ^ 63) more) in
          absurd (cc (top, ap (λ k. bit_and k (sub64 k 1) == 0) is))
    ]

-- What a new pipe is like.
pub record Empty (len : ℕ) (name : List ℕ) (p : Pipe) : Type 0 where
  pub valid : IsValid p
  pub queue : contents p ≡ []
  pub enough : len ≤ p.len
  pub near : p.len ≤ 2 * len
  pub unlocked : (p.rlock ≡ false) × (p.wlock ≡ false)
  pub named : p.name ≡ take (min 15 (length name)) name

created-Empty :
    (name : List ℕ) (len size : ℕ) (o : Option (List ℕ))
    → RingSize len size
    → ((mem : List ℕ) × (o ≡ some mem) × (length mem ≡ size))
    → Yields (λ r. (p : Pipe) × (r ≡ some p) × Empty len name p) (created name size o)
unfolding created window
created-Empty name len size o d (mem, given, sized) = rw given (
    yields (
      _,
      refl,
      record {
        valid = record {
          bits = d.bits;
          few = d.few;
          power = d.power;
          sized = sized;
          small_writer = omega arith;
          small_reader = omega arith;
          filled = omega arith;
        };
        queue = refl;
        enough = d.enough;
        near = d.near;
        unlocked = (refl, refl);
        named = ap (λ k. take k name) (shorter (length name));
      },
    ))
  where
    shorter : (k : ℕ) → (if ltb 15 k then 15 else k) ≡ min 15 k
    shorter k = ground arith

-- Asked for a ring of at least one byte and at most 2 ^ 63, with memory for the struct and for any
-- ring of up to twice that, `xpipe_create` makes an empty pipe in order: the ring has a power of
-- two of bytes, no fewer than asked for and no more than twice as many, the locks are free, and at
-- most 15 bytes of the name are kept.
pub create-Empty :
    (malloc : ℕ → Option (List ℕ)) (len : ℕ) (name : List ℕ)
    → 0 < len
    → len ≤ 2 ^ 63
    → ((n : ℕ) → n ≤ 2 * len → (mem : List ℕ) × (malloc n ≡ some mem) × (length mem ≡ n))
    → Yields (λ r. (p : Pipe) × (r ≡ some p) × Empty len name p) (create malloc true len name)
unfolding create
create-Empty malloc len name some_len small served =
    Yields-bind (ring_size-RingSize len some_len small)
      λ size d. created-Empty name len size (malloc size) d (served size d.near)
