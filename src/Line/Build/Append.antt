-- ===== src/Line/Build/Append.antt =====
-- src/xnet/xline.h: `xl_add_*` and the contents of the frame.
use wenas.Base.{
  leb_refl, ℕ, ◌+◌, ◌^◌, ◌<◌, ◌≤◌, ◌≡◌, sym, ap, ◌∙◌, Bool, List, [], ◌∷◌, ◌++◌, none, some, Run,
  ok, Yields, yields, Yields-bind, Yields-imp, if◌then◌else◌, ◌>>=◌, length, arith, take_all,
  append-nil, length-append,
}
use wenas.Line.{
  little, n2b, type_str, type_bin, type_obj, type_int, type_uint, type_real, type_list,
}
use native.Mathlib.Nat.{le_refl}
use wenas.Line.Number.{length-n2b}
use wenas.Line.Frame.{spare, Frame, Malloc, put, xeof}
use wenas.Line.Frame.Valid.{
  IsValid, contents, IsLawful, length-contents, Extends, Extends-trans, put-Extends,
  fill_key-Extends, Reserved, roomy, no_memory, grown, reserve-Reserved, length-encode_key,
}
use wenas.Line.Value.{Value, Fits, encode, encode_key, encode_field, sizeof_line-encode}
use wenas.Line.Build.{
  list_add, Call, ptr, float, word, nested, int, uint, str, bin, add, add_ptr, with_room, close,
  entry, put_from, add_word, add_str, add_bin, add_obj, add_number, add_int, add_uint, add_float,
}

-- How a function that adds `bs` ends. It returns the new end of the contents, the frame's line
-- says what lies behind it, and the frame is valid; or there was no memory for `newlen` more
-- bytes, it returns `XEOF`, and the frame is as before but for `size`.
pub data Added (malloc : Malloc) (newlen type : ℕ) (f : Frame) (bs : List ℕ)
    : Run (ℕ × Frame) → Type 0 where
  added :
      {pos : ℕ} {g : Frame}
      → IsValid g
      → contents g ≡ contents f ++ bs
      → pos ≡ length (contents g)
      → g.line ≡ n2b little (length (contents g)) type
      → Added malloc newlen type f bs (ok (pos, g))
  failed :
      {g : Frame}
      → malloc (grown f newlen + spare) ≡ none
      → f.size < f.wpos + newlen
      → g ≡ record f { size = grown f newlen }
      → Added malloc newlen type f bs (ok (xeof, g))

close-Added :
    (malloc : Malloc) (newlen type : ℕ) (f g : Frame) (bs : List ℕ) {r : Run Frame}
    → contents g ≡ contents f
    → Yields (Extends g bs) r
    → Added malloc newlen type f bs (r >>= close type)
unfolding close
close-Added malloc newlen type f g bs same (yields {a = h} e) =
    let n : h.wpos ≡ length (contents h) = sym (length-contents h e.valid) in
    added (record { sized = e.valid.sized; filled = e.valid.filled; small = e.valid.small })
      (e.bytes ∙ ap (λ l. l ++ bs) same) n (ap (λ k. n2b little k type) n)

Yields-bind-Extends :
    {f : Frame} {xs ys : List ℕ} {r : Run Frame} {write : Frame → Run Frame}
    → Yields (Extends f xs) r
    → ((g : Frame) → Extends f xs g → Yields (Extends g ys) (write g))
    → Yields (Extends f (xs ++ ys)) (r >>= write)
Yields-bind-Extends p next =
    Yields-bind p (λ g e. Yields-imp (λ h e'. Extends-trans e e') (next g e))

-- A caller that asked for room goes on with the room, or gives up with `XEOF`.
module _ (malloc : Malloc) (newlen : ℕ) (f : Frame) (Q : Run (ℕ × Frame) → Type 0)
    (write : Frame → Run (ℕ × Frame))
    (writes : (g : Frame)
      → IsValid g
      → contents g ≡ contents f
      → g.wpos + newlen ≤ g.size
      → Q (write g))
    (fails : (g : Frame)
      → malloc (grown f newlen + spare) ≡ none
      → f.size < f.wpos + newlen
      → g ≡ record f { size = grown f newlen }
      → Q (ok (xeof, g))) where
  room_cases :
      {r : Run (Bool × Frame)}
      → Reserved malloc newlen f r
      → Q (r >>= λ p. if p.0 then write p.1 else ok (xeof, p.1))
  room_cases (roomy v same moved fits) = writes _ v same fits
  room_cases (no_memory refused short e) = fails _ refused short e

  pub with_room_cases :
      IsLawful malloc → IsValid f → newlen < 2 ^ 63 → Q (with_room malloc newlen f write)
  unfolding with_room
  with_room_cases lawful v small = room_cases (reserve-Reserved malloc newlen f lawful v small)

put_from-Extends :
    (src : List ℕ) (g : Frame)
    → IsValid g
    → g.wpos + length src ≤ g.size
    → Yields (Extends g src) (put_from (some src) (length src) g)
unfolding put_from
put_from-Extends src g v h =
    rw (leb_refl (length src), take_all (length src) src (le_refl (length src)))
      (put-Extends g src v h)

-- The common shape: the key, then whatever `write` puts behind it.
module _ (malloc : Malloc) (f : Frame) (key : List ℕ) (lawful : IsLawful malloc)
    (v : IsValid f) where
  entry-Added :
      (size : ℕ) (write : Frame → Run Frame) (bs : List ℕ)
      → ((g : Frame) → IsValid g → g.wpos + (9 + size) ≤ g.size → Yields (Extends g bs) (write g))
      → length key + 2 + 9 + size < 2 ^ 63
      → Added malloc
          (length key + 2 + 9 + size)
          type_obj
          f
          (encode_key key ++ bs)
          (entry malloc f key size write)
  unfolding entry
  entry-Added size write bs writes small =
      let newlen = length key + 2 + 9 + size in
      with_room_cases malloc newlen f (Added malloc newlen type_obj f (encode_key key ++ bs)) _
        (λ g valid same fits. close-Added malloc newlen type_obj f g (encode_key key ++ bs) same (
          Yields-bind-Extends (fill_key-Extends g key valid (omega arith))
            (λ k e. writes k e.valid (omega (arith, length-encode_key key, e.moved, e.same)))))
        (λ g refused short e. failed refused short e) lawful v small

  -- The bytes of `bits` and a type.
  add_number-Added :
      (type bits : ℕ)
      → length key + 2 + 9 + 0 < 2 ^ 63
      → Added malloc
          (length key + 2 + 9 + 0)
          type_obj
          f
          (encode_key key ++ n2b little bits type)
          (add_number type malloc f key bits)
  unfolding add_number n2b
  add_number-Added type bits small =
      entry-Added 0 _ (n2b little bits type)
        (λ g valid fits. put-Extends g (n2b little bits type) valid fits) small

  -- A line and `size` bytes from a source that is not NULL and has so many.
  block-Added :
      (type : ℕ) (src : List ℕ)
      → length key + 2 + 9 + length src < 2 ^ 63
      → Added malloc
          (length key + 2 + 9 + length src)
          type_obj
          f
          (encode_key key ++ (n2b little (length src) type ++ src))
          (entry malloc f key
            (length src)
            λ f1. (put f1 (n2b little (length src) type) >>= put_from (some src) (length src)))
  block-Added type src small =
      let head = length-n2b (length src) type in
      entry-Added (length src) _ (n2b little (length src) type ++ src)
        (λ g valid fits.
          Yields-bind-Extends
            (put-Extends g (n2b little (length src) type) valid (omega (arith, head)))
            (λ h e. put_from-Extends src h e.valid (omega (arith, head, e.moved, e.same))))
        small

-- The value that a call adds. A nested line is the line of a value.
pub data Adds : Call → Value → Type 0 where
  adds_int : (n : ℕ) → Adds (int n) (Value.int n)
  adds_uint : (n : ℕ) → Adds (uint n) (Value.uint n)
  adds_float : (n : ℕ) → Adds (float n) (Value.real n)
  adds_ptr : (n : ℕ) → Adds (ptr n) (Value.uint n)
  adds_word : (w : List ℕ) → Adds (word w) (Value.str (w ++ 0 ∷ []))
  adds_str : (s : List ℕ) → Adds (str s) (Value.str s)
  adds_bin : (s : List ℕ) → Adds (bin s) (Value.bin s)
  adds_nested : (v : Value) → Fits v → Adds (nested (encode v)) v

-- The bytes that a call asks to have room for.
abbrev pub needed : List ℕ → Call → ℕ
needed key (word w) = length key + 2 + 9 + (length w + 1)
needed key (str s) = length key + 2 + 9 + length s
needed key (bin s) = length key + 2 + 9 + length s
needed key (nested line) = length key + 2 + 9 + length line
needed key (int n) = length key + 2 + 9 + 0
needed key (uint n) = length key + 2 + 9 + 0
needed key (float n) = length key + 2 + 9 + 0
needed key (ptr n) = length key + 2 + 9 + 0

-- On a valid frame, with a `malloc` that gives what it is asked for and less than 2 ^ 63 bytes
-- to add, every `xl_add_*` either puts exactly the entry's bytes behind the contents, returns
-- their new end and brings the frame's line up to date; or it fails for want of memory, returns
-- `XEOF`, and changes nothing but `size`. No write falls outside the frame.
pub add-Added :
    (malloc : Malloc) (f : Frame) (key : List ℕ) {call : Call} {v : Value}
    → IsLawful malloc
    → IsValid f
    → Adds call v
    → needed key call < 2 ^ 63
    → Added malloc (needed key call) type_obj f (encode_field (key, v)) (add malloc f key call)
unfolding add encode
add-Added malloc f key lawful v (adds_int n) small =
    unfold add_int in add_number-Added malloc f key lawful v type_int n small
add-Added malloc f key lawful v (adds_uint n) small =
    unfold add_uint in add_number-Added malloc f key lawful v type_uint n small
add-Added malloc f key lawful v (adds_float n) small =
    unfold add_float in add_number-Added malloc f key lawful v type_real n small
add-Added malloc f key lawful v (adds_ptr n) small =
    unfold add_ptr in add_number-Added malloc f key lawful v type_uint n small
add-Added malloc f key lawful v (adds_word w) small =
    let n = length-append w (0 ∷ []) in
    unfold add_word in
    rw (← n) (block-Added malloc f key lawful v type_str (w ++ 0 ∷ []) (rw n small))
add-Added malloc f key lawful v (adds_str s) small =
    unfold add_str in block-Added malloc f key lawful v type_str s small
add-Added malloc f key lawful v (adds_bin s) small =
    unfold add_bin in block-Added malloc f key lawful v type_bin s small
add-Added malloc f key lawful v (adds_nested x fits) small =
    unfold add_obj in
    rw (rw append-nil at (sizeof_line-encode x [] fits)) (
      entry-Added malloc f key lawful v (length (encode x)) _ (encode x)
        (λ g valid room. put_from-Extends (encode x) g valid (omega arith)) small)

-- On a valid frame, with a `malloc` that gives what it is asked for, `xl_list_add` of a value that
-- fits the format and has less than 2 ^ 63 bytes puts exactly the value behind the contents and
-- makes the frame's own line that of a list; or it fails for want of memory, returns `XEOF`, and
-- changes nothing but `size`.
pub list_add-Added :
    (malloc : Malloc) (f : Frame) (v : Value)
    → IsLawful malloc
    → IsValid f
    → Fits v
    → length (encode v) < 2 ^ 63
    → Added malloc (length (encode v)) type_list f (encode v) (list_add malloc f (some (encode v)))
unfolding list_add
list_add-Added malloc f v lawful valid fits small =
    let n = length (encode v) in
    rw (rw append-nil at (sizeof_line-encode v [] fits)) (
      with_room_cases malloc n f (Added malloc n type_list f (encode v)) _
        (λ g valid' same room.
          close-Added malloc n type_list f g (encode v) same
            (put_from-Extends (encode v) g valid' room))
        (λ g refused short e. failed refused short e) lawful valid small)
