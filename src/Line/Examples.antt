-- ===== src/Line/Examples.antt =====
-- The theorems on src/xnet/xline.h at concrete objects, and runs of the code.
use wenas.Base.{
  ◌↔◌, ℕ, ◌+◌, ◌≡◌, refl, List, [], ◌∷◌, ◌++◌, none, some, ok, fault, ◌>>=◌, Yields, length,
  replicate, length-replicate, leb, if◌then◌else◌, Bool-cases, inl, inr, leb→le, arith, All, IsByte,
  splice,
}
use wenas.Line.{little, big, low_bytes, n2b, b2n, type_obj, type_list, type_uint}
use wenas.Line.Number.{b2n-n2b, b2n-n2b_big, byte_swap, IsMirrored}
use wenas.Line.Frame.{
  Frame, Malloc, created, creator, xeof, reserve, realloc, grow, store, put, fill_key,
}
use wenas.Line.Frame.Valid.{IsValid, IsLawful, contents, grown}
use wenas.Line.Value.{Value, Field, encode, encode_key, encode_field}
use wenas.Line.Build.{
  Call, add, add_word, add_uint, add_number, entry, with_room, close, put_from, obj_begin, obj_end,
  list_end, list_add,
}
use wenas.Line.Build.Append.{adds_uint, adds_word, Added, add-Added, list_add-Added}
use wenas.Line.Build.Nest.{Begun, obj_begin-Begun, end-Nested}
use wenas.Line.Build.Failure.{list_add_retry}
use wenas.Line.Parser.{parser, find_number}
use wenas.Line.Parser.Scan.{lookup}
use wenas.Line.RoundTrip.{bits_found, find-add_all}
use wenas.Line.RoundTrip.Holds.{add_all, AllAdd, adds_none, adds_one}

-- Zeros, and no more than 256 of them.
abbrev zeros : Malloc
zeros n = if leb n 256 then some (replicate n 0) else none

zeros-IsLawful : IsLawful zeros
zeros-IsLawful n mem e = elim (Bool-cases (leb n 256)) [
  | inl few ↦
      let given : replicate n 0 ≡ mem = cc in
      rw (← given) (length-replicate n 0, omega (arith, leb→le n 256 few))
  | inr many ↦ absurd (cc)
]

abbrev junk : List ℕ
junk = replicate 9 0

-- A frame with room for four bytes.
abbrev tiny : Frame
tiny = record {
  ref = 1;
  spos = 0;
  range = 0;
  rpos = 0;
  wpos = 0;
  size = 4;
  buf = replicate 11 0;
  line = junk;
}

abbrev pub key_a : List ℕ
key_a = b'a' ∷ []

abbrev pub key_b : List ℕ
key_b = b'b' ∷ []

abbrev calls : List (List ℕ × Call)
calls = (key_a, Call.uint 7) ∷ (key_b, Call.word (b'x' ∷ [])) ∷ []

abbrev pub entries : List Field
entries = (key_a, Value.uint 7) ∷ (key_b, Value.str (b'x' ∷ 0 ∷ [])) ∷ []

-- The frame after both calls: it grew twice.
abbrev pub grown_frame : Frame
grown_frame = record tiny {
  wpos = 26;
  size = 54;
  buf =
      2
      ∷ b'a'
      ∷ 0
      ∷ 2
      ∷ 7
      ∷ 0
      ∷ 0
      ∷ 0
      ∷ 0
      ∷ 0
      ∷ 0
      ∷ 0
      ∷ 2
      ∷ b'b'
      ∷ 0
      ∷ 8
      ∷ 2
      ∷ 0
      ∷ 0
      ∷ 0
      ∷ 0
      ∷ 0
      ∷ 0
      ∷ 0
      ∷ b'x'
      ∷ 0
      ∷ replicate 35 0;
  line = n2b little 26 type_obj;
}

both_added : add_all zeros tiny calls ≡ ok (some grown_frame)
unfolding add_all add add_uint add_number add_word entry with_room close put_from reserve realloc
    grow put store fill_key splice n2b
both_added = refl

calls-AllAdd : AllAdd calls entries
calls-AllAdd = adds_one key_a (Value.uint 7) (adds_uint 7) (omega arith) (omega arith) (
    adds_one key_b (Value.str (b'x' ∷ 0 ∷ [])) (adds_word (b'x' ∷ [])) (omega arith) (omega arith)
      adds_none)

find-add_all_example :
    Yields
      (λ x. x.0 ≡ bits_found (lookup key_a entries))
      (parser (grown_frame.line ++ grown_frame.buf) >>= λ p. find_number 3 p key_a)
unfolding creator created
find-add_all_example =
    find-add_all zeros junk 4 3 key_a calls entries tiny grown_frame zeros-IsLawful refl
      calls-AllAdd (λ e. cc) both_added (omega arith)

tiny-IsValid : IsValid tiny
tiny-IsValid = omega arith

add-Added_example :
    Added zeros
      (1 + 2 + 9 + 0)
      type_obj
      tiny
      (encode_field (key_a, Value.uint 7))
      (add zeros tiny key_a (Call.uint 7))
add-Added_example =
    add-Added zeros tiny key_a zeros-IsLawful tiny-IsValid (adds_uint 7) (omega arith)

list_add-Added_example :
    Added zeros
      (length (encode (Value.uint 7)))
      type_list
      tiny
      (encode (Value.uint 7))
      (list_add zeros tiny (some (encode (Value.uint 7))))
unfolding encode n2b
list_add-Added_example =
    list_add-Added zeros tiny (Value.uint 7) zeros-IsLawful tiny-IsValid (omega arith) (omega arith)

b2n-n2b_example :
    (b2n little (n2b little 300 type_uint ++ 9 ∷ []) ≡ ok 300)
    × (length (n2b little 300 type_uint) ≡ 9)
    × All IsByte (low_bytes 8 300)
b2n-n2b_example = b2n-n2b 300 type_uint (9 ∷ []) (omega arith)

b2n-n2b_big_example :
    (b2n big (n2b big 1 type_uint ++ []) ≡ ok (byte_swap 1))
    × ((b2n big (n2b big 1 type_uint ++ []) ≡ ok 1) ↔ IsMirrored 1)
b2n-n2b_big_example = b2n-n2b_big 1 type_uint [] (omega arith)

obj_begin-Begun_example :
    Begun zeros (1 + 2 + 9) tiny (encode_key key_a) (obj_begin zeros tiny (some key_a))
obj_begin-Begun_example =
    obj_begin-Begun zeros tiny (some key_a) zeros-IsLawful tiny-IsValid (omega arith)

-- A frame in which an object was begun at 0, with one byte behind it.
abbrev open_frame : Frame
open_frame = record tiny {
  wpos = 10;
  size = 12;
  buf = 5 ∷ 5 ∷ 5 ∷ 5 ∷ 5 ∷ 5 ∷ 5 ∷ 5 ∷ 5 ∷ 6 ∷ 0 ∷ 0 ∷ replicate 7 0;
}

end-Nested_example :
    Yields
      (λ r.
        IsValid r.1
        × (contents r.1 ≡ [] ++ encode (Value.obj (6 ∷ [])))
        × (r.0 ≡ 0)
        × (r.1.line ≡ junk))
      (obj_end open_frame 0)
    × Yields
        (λ r.
          IsValid r.1
          × (contents r.1 ≡ [] ++ encode (Value.list (6 ∷ [])))
          × (r.0 ≡ 0)
          × (r.1.line ≡ n2b little 10 type_obj))
        (list_end open_frame 0)
end-Nested_example =
    end-Nested open_frame [] (5 ∷ 5 ∷ 5 ∷ 5 ∷ 5 ∷ 5 ∷ 5 ∷ 5 ∷ 5 ∷ []) (6 ∷ []) 0 (omega arith) refl
      refl refl (omega arith)

-- No memory at all.
abbrev nothing : Malloc
nothing n = none

-- Nine bytes and three more are longer than the frame and its padding.
abbrev word : List ℕ
word = b'a' ∷ b'b' ∷ b'c' ∷ []

list_add_retry_example :
    (list_add nothing tiny (some (encode (Value.str word)))
      ≡ ok (xeof, record tiny { size = grown tiny (length (encode (Value.str word))) }))
    × (list_add zeros
          (record tiny { size = grown tiny (length (encode (Value.str word))) })
          (some (encode (Value.str word)))
        ≡ fault)
unfolding encode n2b
list_add_retry_example =
    list_add_retry nothing zeros tiny (Value.str word) tiny-IsValid (omega arith) (omega arith)
      (omega arith) refl
