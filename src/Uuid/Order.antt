-- ===== src/Uuid/Order.antt =====
-- src/xnet/uuid.c: the comparisons by which the trees of identifiers are sorted.
use wenas.Base.{
  ℕ, ◌+◌, ◌*◌, ◌%◌, ◌^◌, ◌<◌, ◌≡◌, ◌↔◌, inl, inr, refl, ap, List, [], ◌∷◌, Run, ok, length, All,
  IsU64, arith, ltb, ◌==◌, if◌then◌else◌, Bool-cases, eq_of_==, ne_of_==, ltb→lt, ltb→ge, ne→==,
  lt→ltb, le→ltb,
}
use native.Mathlib.Nat.{mul-le-mul_right, add-mul}
use wenas.Uuid.{Sign, negative, same, positive, number_compare, compare_from, uuid_compare}

-- The order of two numbers.
abbrev pub sign : ℕ → ℕ → Sign
sign a b = if a == b then same else (if ltb b a then positive else negative)

-- Words, the first the highest, as one number.
abbrev pub value : List ℕ → ℕ
value [] = 0
value (a ∷ x) = a * 2 ^ (64 * length x) + value x

sign-lt : (a b : ℕ) → a < b → sign a b ≡ negative
sign-lt a b h = rw (ne→== a b (λ e. omega arith), le→ltb b a (omega arith))

sign-gt : (a b : ℕ) → b < a → sign a b ≡ positive
sign-gt a b h = rw (ne→== a b (λ e. omega arith), lt→ltb b a h)

below : (m a b x y : ℕ) → x < m → a < b → a * m + x < b * m + y
below m a b x y small less =
    omega (arith, mul-le-mul_right {m = a + 1} {n = b} m (omega arith), add-mul a 1 m)

-- A higher word decides, or else the lower ones do.
pub sign_word :
    (m a b x y : ℕ) {r : Run Sign}
    → x < m
    → y < m
    → r ≡ ok (sign x y)
    → (if a == b then r else (if ltb b a then ok positive else ok negative))
      ≡ ok (sign (a * m + x) (b * m + y))
sign_word m a b x y small small' e = elim (Bool-cases (a == b)) [
  | inl is ↦ rw (is, e) (ap ok (shifted (eq_of_== a b is)))
  | inr differ ↦ elim (Bool-cases (ltb b a)) [
    | inl more ↦
        rw
          (differ, more, sign-gt (a * m + x) (b * m + y) (below m b a y x small' (ltb→lt b a more)))
    | inr less ↦
        let lt : a < b = omega (arith, ltb→ge b a less, ne_of_== a b differ) in
        rw (differ, less, sign-lt (a * m + x) (b * m + y) (below m a b x y small lt))
  ]
]
  where
    shifted : a ≡ b → sign x y ≡ sign (a * m + x) (b * m + y)
    shifted is = let scaled : a * m ≡ b * m = ap (λ k. k * m) is in ground (arith, scaled)

-- `uuid_compare` orders identifiers of four words of 64 bits as the numbers of 256 bits that they
-- are, the first word the highest.
pub uuid_compare-sign :
    (a b c d a' b' c' d' : ℕ)
    → All IsU64 (a ∷ b ∷ c ∷ d ∷ [])
    → All IsU64 (a' ∷ b' ∷ c' ∷ d' ∷ [])
    → uuid_compare (a ∷ b ∷ c ∷ d ∷ []) (a' ∷ b' ∷ c' ∷ d' ∷ [])
      ≡ ok (sign (value (a ∷ b ∷ c ∷ d ∷ [])) (value (a' ∷ b' ∷ c' ∷ d' ∷ [])))
unfolding uuid_compare compare_from
uuid_compare-sign a b c d a' b' c' d' h k =
    sign_word (2 ^ 192) a a' (value (b ∷ c ∷ d ∷ [])) (value (b' ∷ c' ∷ d' ∷ [])) (omega arith)
      (omega arith)
      (sign_word (2 ^ 128) b b' (value (c ∷ d ∷ [])) (value (c' ∷ d' ∷ [])) (omega arith)
        (omega arith)
        (sign_word (2 ^ 64) c c' (value (d ∷ [])) (value (d' ∷ [])) (omega arith) (omega arith)
          (sign_word 1 d d' 0 0 (omega arith) (omega arith) refl)))

-- `number_compare` takes two keys of 64 bits for the same just when they differ by a multiple of 2
-- ^ 32.
pub number_compare-same :
    (a b : ℕ) → IsU64 a → IsU64 b → (number_compare a b ≡ same) ↔ (a % 2 ^ 32 ≡ b % 2 ^ 32)
unfolding number_compare
number_compare-same a b h k = (ground arith, ground arith)

-- `number_compare` orders two keys of 64 bits as numbers where they are less than 2 ^ 31 apart.
pub number_compare-sign :
    (a b : ℕ) → IsU64 a → IsU64 b → a < b + 2 ^ 31 → b < a + 2 ^ 31 → number_compare a b ≡ sign a b
unfolding number_compare
number_compare-sign a b h k near near' = ground arith
