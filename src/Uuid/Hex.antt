-- ===== src/Uuid/Hex.antt =====
-- src/xnet/uuid.h: an identifier becomes a string of hexadecimal digits and back.
use wenas.Base.{
  ℕ, zero, suc, ◌+◌, ◌*◌, ◌/◌, ◌%◌, ◌<◌, ◌≡◌, refl, ap, bit_and, Bool, true, false, ◌&&◌, ◌||◌,
  List, [], ◌∷◌, ◌++◌, ok, or_fault, Yields, yields, Yields-bind, Yields-imp, get_elem?, get_or,
  get_elem?-eq-get_or, length, All, IsByte, bit_and_mask, arith, leb, ltb, ltb→lt, ◌==◌, eq_of_==,
  if◌then◌else◌,
}
use wenas.Uuid.{digit, join, hex_chars, str2uuid_from, str2uuid, uuid2str_from, uuid2str}

abbrev all_below : ℕ → (ℕ → Bool) → Bool
all_below zero p = true
all_below (suc n) p = p n && all_below n p

all_below_lem : (n : ℕ) (p : ℕ → Bool) (x : ℕ) → all_below n p ≡ true → x < n → p x ≡ true
all_below_lem zero p x h lt = absurd (omega arith)
all_below_lem (suc n) p x h lt = ground (arith, all_below_lem n p x)

-- The character of a digit.
abbrev pub hex_of : ℕ → ℕ
hex_of d = get_or hex_chars d 0

byte_table :
    all_below 256 (λ u. join (digit (hex_of (u / 16))) (digit (hex_of (u % 16))) == u) ≡ true
unfolding join digit
byte_table = refl

byte_back : (u : ℕ) → u < 256 → join (digit (hex_of (u / 16))) (digit (hex_of (u % 16))) ≡ u
byte_back u h = eq_of_== (join (digit (hex_of (u / 16))) (digit (hex_of (u % 16)))) u (
    all_below_lem 256 (λ k. join (digit (hex_of (k / 16))) (digit (hex_of (k % 16))) == k) u
      byte_table h)

hex_read : (d : ℕ) → d < 16 → or_fault (get_elem? hex_chars d) ≡ ok (hex_of d)
hex_read d h = ap or_fault (get_elem?-eq-get_or hex_chars d 0 h)

high : (u : ℕ) → u < 256 → bit_and (u / 16) 0x0F ≡ u / 16
high u h = omega (arith, bit_and_mask 4 (u / 16))

low : (u : ℕ) → bit_and u 0x0F ≡ u % 16
low u = bit_and_mask 4 u

-- A digit as `uuid2str` writes it.
abbrev pub is_hex : ℕ → Bool
is_hex c = (leb b'0' c && leb c b'9') || (leb b'A' c && leb c b'F')

hex_table : all_below 16 (λ d. is_hex (hex_of d)) ≡ true
hex_table = refl

hex_of_is : (d : ℕ) → d < 16 → is_hex (hex_of d) ≡ true
hex_of_is d h = all_below_lem 16 (λ k. is_hex (hex_of k)) d hex_table h

-- Twice as many digits as there were bytes, with a NUL behind, from which the bytes can be read.
pub record Spelt (n : ℕ) (us s : List ℕ) : Type 0 where
  pub digits : List ℕ
  pub whole : s ≡ digits ++ 0 ∷ []
  pub many : length digits ≡ 2 * n
  pub hex : All (λ c. is_hex c ≡ true) digits
  pub back : str2uuid_from n s ≡ ok us

str2uuid-uuid2str_from :
    (n : ℕ) (us : List ℕ) → length us ≡ n → All IsByte us → Yields (Spelt n us) (uuid2str_from n us)
unfolding str2uuid_from uuid2str_from
str2uuid-uuid2str_from zero [] e h =
    yields (record { digits = []; whole = refl; many = refl; hex = tt; back = refl })
str2uuid-uuid2str_from zero (u ∷ us) e h = absurd (omega arith)
str2uuid-uuid2str_from (suc n) [] e h = absurd (omega arith)
str2uuid-uuid2str_from (suc n) (u ∷ us) e h =
    rw (high u h.0, low u, hex_read (u / 16) (omega (arith, h.0)), hex_read (u % 16) (omega arith))
      (Yields-bind (str2uuid-uuid2str_from n us (omega arith) h.1) λ s k. yields (record {
        digits = hex_of (u / 16) ∷ hex_of (u % 16) ∷ k.digits;
        whole = ap (λ l. hex_of (u / 16) ∷ hex_of (u % 16) ∷ l) k.whole;
        many = omega (arith, k.many);
        hex = (hex_of_is (u / 16) (omega (arith, h.0)), (hex_of_is (u % 16) (omega arith), k.hex));
        back = rw (k.back, byte_back u h.0) refl;
      }))

-- The 32 bytes of an identifier become 64 digits and a NUL, and `str2uuid` makes the same bytes of
-- them. None of the digits is a lower-case letter.
pub str2uuid-uuid2str :
    (us : List ℕ)
    → length us ≡ 32
    → All IsByte us
    → Yields
        (λ s.
          (digits : List ℕ) × (s ≡ digits ++ 0 ∷ [])
          × (length digits ≡ 64)
          × All (λ c. is_hex c ≡ true) digits
          × (str2uuid s ≡ ok us))
        (uuid2str us)
unfolding str2uuid uuid2str
str2uuid-uuid2str us e h =
    Yields-imp (λ s (k : Spelt 32 us s). (k.digits, k.whole, k.many, k.hex, k.back))
      (str2uuid-uuid2str_from 32 us e h)

-- A digit is below 16, and its character is the one that it came from.
abbrev is_read : ℕ → Bool
is_read c = if is_hex c then ltb (digit c) 16 && (hex_of (digit c) == c) else true

digit_table : all_below 71 is_read ≡ true
unfolding digit
digit_table = refl

join_table : all_below 256 (λ u. join (u / 16) (u % 16) == u) ≡ true
unfolding join
join_table = refl

hex_small : (c : ℕ) → is_hex c ≡ true → c < 71
hex_small c h = ground arith

digit_lem : (c : ℕ) → is_hex c ≡ true → (digit c < 16) × (hex_of (digit c) ≡ c)
digit_lem c h =
    let read : (if is_hex c then ltb (digit c) 16 && (hex_of (digit c) == c) else true) ≡ true =
      all_below_lem 71 is_read c digit_table (hex_small c h) in
    let both : (ltb (digit c) 16 && (hex_of (digit c) == c)) ≡ true = rw h at read in
    let parts = both_true (ltb (digit c) 16) (hex_of (digit c) == c) both in
    (ltb→lt (digit c) 16 parts.0, eq_of_== (hex_of (digit c)) c parts.1)
  where
    both_true : (a b : Bool) → (a && b) ≡ true → (a ≡ true) × (b ≡ true)
    both_true true b e = (refl, e)
    both_true false b e = absurd (cc)

join_lem : (a b : ℕ) → a < 16 → b < 16 → join a b ≡ a * 16 + b
join_lem a b h k =
    let u = a * 16 + b in
    let whole : join (u / 16) (u % 16) ≡ u =
      eq_of_== (join (u / 16) (u % 16)) u
        (all_below_lem 256 (λ k. join (k / 16) (k % 16) == k) u join_table (omega arith)) in
    let front : u / 16 ≡ a = omega arith in
    let back : u % 16 ≡ b = omega arith in rw (front, back) at whole

uuid2str-str2uuid_from :
    (n : ℕ) (s : List ℕ)
    → length s ≡ 2 * n
    → All (λ c. is_hex c ≡ true) s
    → Yields
        (λ us. (length us ≡ n) × All IsByte us × (uuid2str_from n us ≡ ok (s ++ 0 ∷ [])))
        (str2uuid_from n s)
unfolding str2uuid_from uuid2str_from
uuid2str-str2uuid_from zero [] e h = yields (refl, tt, refl)
uuid2str-str2uuid_from zero (a ∷ s) e h = absurd (omega arith)
uuid2str-str2uuid_from (suc n) [] e h = absurd (omega arith)
uuid2str-str2uuid_from (suc n) (a ∷ []) e h = absurd (omega arith)
uuid2str-str2uuid_from (suc n) (a ∷ b ∷ s) e h =
    let (a_small, a_back) = digit_lem a h.0 in
    let (b_small, b_back) = digit_lem b h.1.0 in
    let is = join_lem (digit a) (digit b) a_small b_small in
    let front : (digit a * 16 + digit b) / 16 ≡ digit a = omega arith in
    let back : (digit a * 16 + digit b) % 16 ≡ digit b = omega arith in
    let byte : digit a * 16 + digit b < 256 = omega arith in
    Yields-bind (uuid2str-str2uuid_from n s (omega arith) h.1.1) λ us k. rw is (
      yields (
        omega (arith, k.0),
        (byte, k.1),
        rw (
          high (digit a * 16 + digit b) byte,
          low (digit a * 16 + digit b),
          front,
          back,
          hex_read (digit a) a_small,
          hex_read (digit b) b_small,
          k.2,
          a_back,
          b_back,
        ),
      ))

-- 64 digits, with no lower-case letter among them, become 32 bytes, and `uuid2str` makes the same
-- digits of these, with a NUL behind.
pub uuid2str-str2uuid :
    (s : List ℕ)
    → length s ≡ 64
    → All (λ c. is_hex c ≡ true) s
    → Yields
        (λ us. (length us ≡ 32) × All IsByte us × (uuid2str us ≡ ok (s ++ 0 ∷ [])))
        (str2uuid s)
unfolding str2uuid uuid2str
uuid2str-str2uuid s e h = uuid2str-str2uuid_from 32 s e h
