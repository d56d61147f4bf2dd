-- ===== src/Line.antt =====
-- src/xnet/xline.h: the wire format. A line is nine bytes, a type and a number
-- of eight bytes; a string, a block of bytes, an object or a list has that many more bytes behind
-- its line. A pointer to a line is the list of the bytes from it on; a read past the end is a
-- fault.
pub mod Number
pub mod Frame
pub mod Build
pub mod Value
pub mod Parser
pub mod RoundTrip
mod Examples
mod ReadExamples
use wenas.Base.{
  ℕ, ◌+◌, ◌*◌, ◌/◌, ◌%◌, ◌^◌, zero, suc, List, [], ◌∷◌, Run, ok, fault, or_fault, ◌>>=◌, get_elem?,
  leb, add64, Bool, if◌then◌else◌,
}
use mathlib.Core.List.{reverse}

abbrev pub line_size : ℕ
line_size = 9

abbrev pub type_int : ℕ
type_int = 0x01

abbrev pub type_uint : ℕ
type_uint = 0x02

abbrev pub type_real : ℕ
type_real = 0x04

abbrev pub type_str : ℕ
type_str = 0x08

abbrev pub type_bin : ℕ
type_bin = 0x10

abbrev pub type_obj : ℕ
type_obj = 0x20

abbrev pub type_list : ℕ
type_list = 0x40

-- The byte order that the build selects by `__LITTLE_ENDIAN__`.
pub data Endian : Type 0 where
  little big : Endian

-- The lowest `k` bytes of a number, lowest first.
unfoldable pub low_bytes : ℕ → ℕ → List ℕ
low_bytes zero n = []
low_bytes (suc k) n = (n % 256) ∷ low_bytes k (n / 256)

-- The eight bytes of a `uint64_t` as they lie in the host's memory.
abbrev host_bytes : Endian → ℕ → List ℕ
host_bytes little n = low_bytes 8 n
host_bytes big n = reverse (low_bytes 8 n)

-- `__xl_n2b`: the type, then the bytes from index 0 up (little endian) or from 7 down (big endian).
unfoldable pub n2b : Endian → ℕ → ℕ → List ℕ
unfolding low_bytes
n2b little n t = t ∷ host_bytes little n
n2b big n t = t ∷ reverse (host_bytes big n)

-- `__xl_b2n`, where the shifted bytes do not overlap, so that `|` is `+`. The bits are those of an
-- `int64_t` or of a `uint64_t` alike.
unfoldable pub b2n : Endian → List ℕ → Run ℕ
b2n little (_ ∷ b1 ∷ b2 ∷ b3 ∷ b4 ∷ b5 ∷ b6 ∷ b7 ∷ b8 ∷ _) = ok (
    b8 * 2 ^ 56
    + b7 * 2 ^ 48
    + b6 * 2 ^ 40
    + b5 * 2 ^ 32
    + b4 * 2 ^ 24
    + b3 * 2 ^ 16
    + b2 * 2 ^ 8
    + b1)
b2n big (_ ∷ b1 ∷ b2 ∷ b3 ∷ b4 ∷ b5 ∷ b6 ∷ b7 ∷ b8 ∷ _) = ok (
    b1 * 2 ^ 56
    + b2 * 2 ^ 48
    + b3 * 2 ^ 40
    + b4 * 2 ^ 32
    + b5 * 2 ^ 24
    + b6 * 2 ^ 16
    + b7 * 2 ^ 8
    + b8)
b2n _ _ = fault

-- `__xl_typeis_num`
unfoldable pub typeis_num : List ℕ → Run Bool
typeis_num l = do t ← or_fault (get_elem? l 0); ok (leb t type_real)

-- `__xl_sizeof_body` and `__xl_sizeof_line`, on a little-endian host.
unfoldable pub sizeof_body : List ℕ → Run ℕ
unfolding typeis_num b2n
sizeof_body l = do num ← typeis_num l; if num then ok 8 else b2n little l

unfoldable pub sizeof_line : List ℕ → Run ℕ
unfolding typeis_num b2n
sizeof_line l = do
  num ← typeis_num l
  if num then ok line_size else (b2n little l >>= λ n. ok (add64 n line_size))
