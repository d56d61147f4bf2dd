-- ===== src/Uuid.antt =====
-- src/xnet/uuid.h and src/xnet/uuid.c: identifiers of 32 bytes, their hexadecimal form, and the
-- orders by which the trees of identifiers are sorted.
pub mod Hex
pub mod Order
mod Examples
use wenas.Base.{
  ℕ, zero, suc, ◌+◌, ◌-◌, ◌*◌, ◌/◌, ◌%◌, ◌^◌, bit_and, Bool, List, [], ◌∷◌, ◌++◌, Run, ok, fault,
  or_fault, ◌>>=◌, get_elem?, ltb, leb, ◌==◌, sub64, if◌then◌else◌, ◌&&◌,
}
use Prim.Native.Nat.{bit_or}

-- `UUID_BIN_BUF_LEN`
abbrev pub bin_len : ℕ
bin_len = 32

-- A character as a digit, in the 8 bits of a `char`.
unfoldable pub digit : ℕ → ℕ
digit a = if leb b'0' a && leb a b'9' then (a + 256 - b'0') % 256 else (a + 256 - b'A' + 10) % 256

-- `((a << 4) | b)` in a `uint8_t`.
unfoldable pub join : ℕ → ℕ → ℕ
join a b = bit_or (a * 16 % 256) b

unfoldable pub str2uuid_from : ℕ → List ℕ → Run (List ℕ)
str2uuid_from zero s = ok []
str2uuid_from (suc n) (a ∷ b ∷ s) = do
  rest ← str2uuid_from n s
  ok (join (digit a) (digit b) ∷ rest)
str2uuid_from (suc n) s = fault

unfoldable pub str2uuid : List ℕ → Run (List ℕ)
str2uuid hexstr = str2uuid_from bin_len hexstr

abbrev pub hex_chars : List ℕ
hex_chars =
    b'0' ∷ b'1' ∷ b'2' ∷ b'3' ∷ b'4' ∷ b'5' ∷ b'6' ∷ b'7' ∷ b'8' ∷ b'9' ∷ b'A' ∷ b'B' ∷ b'C' ∷ b'D'
    ∷ b'E' ∷ b'F' ∷ []

unfoldable pub uuid2str_from : ℕ → List ℕ → Run (List ℕ)
uuid2str_from zero uuid = ok (0 ∷ [])
uuid2str_from (suc n) (u ∷ uuid) = do
  a ← or_fault (get_elem? hex_chars (bit_and (u / 16) 0x0F))
  b ← or_fault (get_elem? hex_chars (bit_and u 0x0F))
  rest ← uuid2str_from n uuid
  ok (a ∷ b ∷ rest)
uuid2str_from (suc n) [] = fault

unfoldable pub uuid2str : List ℕ → Run (List ℕ)
uuid2str uuid = uuid2str_from bin_len uuid

-- The sign of an `int` that a comparison returns.
pub data Sign : Type 0 where
  negative same positive : Sign

-- `number_compare`: the difference of two `uint64_t`, of which an `int` keeps 32 bits.
unfoldable pub number_compare : ℕ → ℕ → Sign
number_compare a b =
    let d = sub64 a b % 2 ^ 32 in
    if d == 0 then same else (if ltb d (2 ^ 31) then positive else negative)

-- `uuid_compare`, on the four words of each.
unfoldable pub compare_from : ℕ → List ℕ → List ℕ → Run Sign
compare_from zero x y = ok same
compare_from (suc n) (a ∷ x) (b ∷ y) =
    let rest = compare_from n x y in
    if a == b then rest else (if ltb b a then ok positive else ok negative)
compare_from (suc n) x y = fault

unfoldable pub uuid_compare : List ℕ → List ℕ → Run Sign
uuid_compare x y = compare_from 4 x y
