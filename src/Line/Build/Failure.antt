-- ===== src/Line/Build/Failure.antt =====
-- src/xnet/xline.h: what `__xl_realloc` leaves behind when `malloc` has no memory.
use wenas.Base.{
  ℕ, ◌+◌, ◌*◌, ◌^◌, ◌%◌, ◌<◌, ◌≡◌, refl, true, false, List, [], none, some, ok, fault, length,
  arith, ltb, leb, leb_refl, take_all, append-nil, sub64,
}
use native.Mathlib.Nat.{le_refl}
use wenas.Line.{sizeof_line}
use wenas.Line.Frame.{spare, Frame, Malloc, store, put, grow, realloc, reserve, xeof}
use wenas.Line.Frame.Valid.{IsValid, grown}
use wenas.Line.Value.{Value, Fits, encode, sizeof_line-encode}
use wenas.Line.Build.{with_room, put_from, list_add}

module _ (f : Frame) (v : IsValid f) (n : ℕ) (small : n < 2 ^ 63)
    (short : f.size + spare < f.wpos + n) where
  size_lem : (f.size * 2 % 2 ^ 64 + n) % 2 ^ 64 ≡ grown f n
  size_lem = omega (arith, v.small)

  refused :
      (malloc : Malloc)
      → malloc (grown f n + spare) ≡ none
      → reserve malloc n f ≡ ok (false, record f { size = grown f n })
  unfolding reserve realloc grow
  refused malloc no_memory =
      let asked : ltb (sub64 f.size f.wpos) n ≡ true = ground (arith, v.small, v.filled) in
      rw (asked, size_lem, no_memory)

  -- The frame now believes in memory that it does not have.
  believed :
      (malloc : Malloc)
      → reserve malloc n (record f { size = grown f n }) ≡ ok (true, record f { size = grown f n })
  unfolding reserve
  believed malloc =
      let enough : ltb (sub64 (grown f n) f.wpos) n ≡ false = ground (arith, v.small, v.filled) in
      rw enough

  outside : (bs : List ℕ) → length bs ≡ n → put (record f { size = grown f n }) bs ≡ fault
  unfolding put store
  outside bs same = rw (too_long f.wpos (length bs) (length f.buf) (omega (arith, v.sized)))
    where
      too_long : (a b c : ℕ) → c < a + b → leb (a + b) c ≡ false
      too_long a b c h = ground arith

-- When a value of less than 2 ^ 63 bytes, with numbers of 64 bits, is more than 7 bytes too long for
-- a valid frame and `malloc` has no memory, `xl_list_add` returns `XEOF`; but the frame's `size` has been raised, so that a second try,
-- whatever `malloc` would say then, writes the value past the end of the frame's memory, of which
-- the padding of the struct is a part.
pub list_add_retry :
    (malloc malloc' : Malloc) (f : Frame) (v : Value)
    → IsValid f
    → Fits v
    → length (encode v) < 2 ^ 63
    → f.size + spare < f.wpos + length (encode v)
    → malloc (grown f (length (encode v)) + spare) ≡ none
    → (list_add malloc f (some (encode v))
        ≡ ok (xeof, record f { size = grown f (length (encode v)) }))
      × (list_add malloc' (record f { size = grown f (length (encode v)) }) (some (encode v))
          ≡ fault)
unfolding list_add with_room put_from
list_add_retry malloc malloc' f v valid fits small short no_memory =
    let n = length (encode v) in
    let size : sizeof_line (encode v) ≡ ok n = rw append-nil at (sizeof_line-encode v [] fits) in
    (
      rw (size, refused f valid n small short malloc no_memory),
      rw (
        size,
        believed f valid n small short malloc',
        leb_refl n,
        take_all n (encode v) (le_refl n),
        outside f valid n small short (encode v) refl,
      ),
    )
