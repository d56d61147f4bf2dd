-- ===== src/Uuid/Examples.antt =====
-- The theorems on src/xnet/uuid.h and src/xnet/uuid.c at concrete identifiers.
use wenas.Base.{
  ℕ, zero, suc, ◌+◌, ◌^◌, ◌%◌, ◌≡◌, ◌↔◌, refl, true, List, [], ◌∷◌, ◌++◌, ok, Yields, length,
  replicate, All, IsByte, arith,
}
use wenas.Uuid.{str2uuid, uuid2str, same, number_compare, uuid_compare}
use wenas.Uuid.Hex.{is_hex, str2uuid-uuid2str, uuid2str-str2uuid}
use wenas.Uuid.Order.{sign, value, uuid_compare-sign, number_compare-same, number_compare-sign}

str2uuid-uuid2str_example :
    Yields
      (λ s.
        (digits : List ℕ) × (s ≡ digits ++ 0 ∷ [])
        × (length digits ≡ 64)
        × All (λ c. is_hex c ≡ true) digits
        × (str2uuid s ≡ ok (replicate 32 0xA7)))
      (uuid2str (replicate 32 0xA7))
str2uuid-uuid2str_example = str2uuid-uuid2str (replicate 32 0xA7) refl (omega arith)

abbrev digits : List ℕ
digits = replicate 64 b'E'

digits_hex : All (λ c. is_hex c ≡ true) digits
digits_hex = all_replicate 64
  where
    all_replicate : (n : ℕ) → All (λ c. is_hex c ≡ true) (replicate n b'E')
    all_replicate zero = tt
    all_replicate (suc n) = (refl, all_replicate n)

uuid2str-str2uuid_example :
    Yields
      (λ us. (length us ≡ 32) × All IsByte us × (uuid2str us ≡ ok (digits ++ 0 ∷ [])))
      (str2uuid digits)
uuid2str-str2uuid_example = uuid2str-str2uuid digits refl digits_hex

uuid_compare-sign_example :
    uuid_compare (1 ∷ 2 ∷ 3 ∷ 4 ∷ []) (1 ∷ 2 ∷ 4 ∷ 0 ∷ [])
    ≡ ok (sign (value (1 ∷ 2 ∷ 3 ∷ 4 ∷ [])) (value (1 ∷ 2 ∷ 4 ∷ 0 ∷ [])))
uuid_compare-sign_example = uuid_compare-sign 1 2 3 4 1 2 4 0 (omega arith) (omega arith)

-- Two keys that differ by 2 ^ 32.
number_compare-same_example :
    (number_compare 7 (7 + 2 ^ 32) ≡ same) ↔ (7 % 2 ^ 32 ≡ (7 + 2 ^ 32) % 2 ^ 32)
number_compare-same_example = number_compare-same 7 (7 + 2 ^ 32) (omega arith) (omega arith)

number_compare-sign_example : number_compare 7 9 ≡ sign 7 9
number_compare-sign_example =
    number_compare-sign 7 9 (omega arith) (omega arith) (omega arith) (omega arith)
