-- ===== src/Line/Build.antt =====
-- src/xnet/xline.h: the functions that add an entry to an object or a list. A
-- key is a C string, given by its bytes before the NUL (NULL as a key of `xl_add_*` acts like the
-- empty string). Each returns a position and the frame, which the caller's pointer then shows.
pub mod Append
pub mod Nest
pub mod Failure
use wenas.Base.{
  ℕ, ◌+◌, List, [], ◌∷◌, ◌++◌, Option, none, some, Run, ok, fault, ◌>>=◌, length, take, ltb, leb,
  add64, sub64, if◌then◌else◌,
}
use wenas.Line.{
  little, n2b, sizeof_line, line_size, type_int, type_uint, type_real, type_str, type_bin, type_obj,
  type_list,
}
use wenas.Line.Frame.{Frame, Malloc, xeof, fixed, store, put, fill_key, reserve}

-- The shape that the functions below share: room, then what is written, or `XEOF` with no memory.
unfoldable pub with_room : Malloc → ℕ → Frame → (Frame → Run (ℕ × Frame)) → Run (ℕ × Frame)
with_room malloc newlen f write = do
  (room, f') ← reserve malloc newlen f
  if room then write f' else ok (xeof, f')

-- The end of every `xl_add_*`: the frame's line is brought up to date, and `wpos` returned.
unfoldable pub close : ℕ → Frame → Run (ℕ × Frame)
close type f = ok (f.wpos, record f { line = n2b little f.wpos type })

unfoldable pub entry : Malloc → Frame → List ℕ → ℕ → (Frame → Run Frame) → Run (ℕ × Frame)
entry malloc f key size write =
    with_room malloc (length key + 2 + line_size + size) f
      λ f1. ((fill_key f1 key >>= write) >>= close type_obj)

-- `mcopy` from a pointer that may be NULL, which copies nothing, and `wpos += size`. Bytes past
-- the end of the source are a fault.
unfoldable pub put_from : Option (List ℕ) → ℕ → Frame → Run Frame
put_from none size f = ok (record f { wpos = add64 f.wpos size })
put_from (some bytes) size f = if leb size (length bytes) then put f (take size bytes) else fault

unfoldable pub add_word : Malloc → Frame → List ℕ → List ℕ → Run (ℕ × Frame)
add_word malloc f key word =
    let wordlen = length word + 1 in
    entry malloc f key wordlen λ f1. do
      f2 ← put f1 (n2b little wordlen type_str)
      put_from (some (word ++ 0 ∷ [])) wordlen f2

unfoldable pub add_str : Malloc → Frame → List ℕ → Option (List ℕ) → ℕ → Run (ℕ × Frame)
add_str malloc f key str size =
    entry malloc f key size λ f1. do f2 ← put f1 (n2b little size type_str); put_from str size f2

unfoldable pub add_bin : Malloc → Frame → List ℕ → Option (List ℕ) → ℕ → Run (ℕ × Frame)
add_bin malloc f key bin size =
    entry malloc f key size λ f1. do f2 ← put f1 (n2b little size type_bin); put_from bin size f2

-- `xd` is read for its size before it is compared with NULL, so NULL is a fault.
unfoldable pub add_obj : Malloc → Frame → List ℕ → Option (List ℕ) → Run (ℕ × Frame)
add_obj malloc f key none = fault
add_obj malloc f key (some xd) = do
  size ← sizeof_line xd
  entry malloc f key size λ f1. put_from (some xd) size f1

-- `xl_add_int`, `xl_add_uint`, `xl_add_float` and `xl_add_ptr`: the value is its 64 bits.
unfoldable pub add_number : ℕ → Malloc → Frame → List ℕ → ℕ → Run (ℕ × Frame)
add_number type malloc f key bits = entry malloc f key 0 λ f1. put f1 (n2b little bits type)

unfoldable pub add_int : Malloc → Frame → List ℕ → ℕ → Run (ℕ × Frame)
add_int = add_number type_int

unfoldable pub add_uint : Malloc → Frame → List ℕ → ℕ → Run (ℕ × Frame)
add_uint = add_number type_uint

unfoldable pub add_float : Malloc → Frame → List ℕ → ℕ → Run (ℕ × Frame)
add_float = add_number type_real

unfoldable pub add_ptr : Malloc → Frame → List ℕ → ℕ → Run (ℕ × Frame)
add_ptr = add_number type_uint

-- `xl_obj_begin` leaves nine bytes unwritten, and returns where; NULL is no key at all.
unfoldable pub obj_begin : Malloc → Frame → Option (List ℕ) → Run (ℕ × Frame)
obj_begin malloc f none =
    with_room malloc line_size f
      λ f1. do f2 ← put_from none line_size f1; ok (sub64 f2.wpos line_size, f2)
obj_begin malloc f (some key) =
    with_room malloc (length key + 2 + line_size) f λ f1. do
      f2 ← fill_key f1 key
      f3 ← put_from none line_size f2
      ok (sub64 f3.wpos line_size, f3)

-- The line at `pos` is filled in when the object ends, unless it could not be begun.
unfoldable pub end_at : ℕ → Frame → ℕ → Run Frame
end_at type f pos = store f pos (n2b little (sub64 (sub64 f.wpos pos) line_size) type)

unfoldable pub obj_end : Frame → ℕ → Run (ℕ × Frame)
obj_end f pos = if ltb pos xeof then (end_at type_obj f pos >>= λ f'. ok (pos, f')) else ok (pos, f)

unfoldable pub list_begin : Malloc → Frame → Option (List ℕ) → Run (ℕ × Frame)
list_begin = obj_begin

-- The end of a list also brings the frame's own line up to date.
unfoldable pub list_end : Frame → ℕ → Run (ℕ × Frame)
list_end f pos =
    if ltb pos xeof then (end_at type_list f pos >>= λ f'. ok (pos, fixed f')) else ok (pos, f)

-- `xl_list_append` and `xl_list_add`: a line with no key. Only the second updates the frame's line.
unfoldable pub list_append : Malloc → Frame → Option (List ℕ) → Run (ℕ × Frame)
list_append malloc f none = fault
list_append malloc f (some xl) = do
  size ← sizeof_line xl
  with_room malloc size f λ f1. (put_from (some xl) size f1 >>= λ f2. ok (f2.wpos, f2))

unfoldable pub list_add : Malloc → Frame → Option (List ℕ) → Run (ℕ × Frame)
list_add malloc f none = fault
list_add malloc f (some xl) = do
  size ← sizeof_line xl
  with_room malloc size f λ f1. (put_from (some xl) size f1 >>= λ f2. close type_list f2)

-- A client's call of one of the functions that add a value under a key.
pub data Call : Type 0 where
  int uint float ptr : ℕ → Call
  word str bin : List ℕ → Call
  nested : List ℕ → Call

unfoldable pub add : Malloc → Frame → List ℕ → Call → Run (ℕ × Frame)
add malloc f key (int bits) = add_int malloc f key bits
add malloc f key (uint n) = add_uint malloc f key n
add malloc f key (float bits) = add_float malloc f key bits
add malloc f key (ptr n) = add_ptr malloc f key n
add malloc f key (word w) = add_word malloc f key w
add malloc f key (str s) = add_str malloc f key (some s) (length s)
add malloc f key (bin s) = add_bin malloc f key (some s) (length s)
add malloc f key (nested line) = add_obj malloc f key (some line)
