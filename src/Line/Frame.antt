-- ===== src/Line/Frame.antt =====
-- src/xnet/xline.h: `struct xframe` and the functions that build an object or a
-- list in it.
pub mod Valid
use wenas.Base.{
  ℕ, ◌+◌, ◌*◌, ◌%◌, ◌^◌, Bool, true, false, List, [], ◌∷◌, ◌++◌, Option, none, some, Run, ok, fault,
  ◌>>=◌, length, take, splice, ltb, leb, add64, sub64, if◌then◌else◌, ◌==◌, ◌&&◌,
}
use wenas.Line.{little, n2b, line_size, type_obj}

-- `struct xframe`: the bytes behind `ptr` are `buf`, which `malloc` gave. `size` is the number for
-- which the frame was made; there are `spare` more. `line` is the frame's own line, of which it becomes the body.
-- The fields that only other files use (`flag`, `type`, `id`, `args`, the tree node, the
-- list links) and the scratch pointers `key` and `val` are left out.
pub record Frame : Type 0 where
  pub ref : ℕ
  pub spos : ℕ
  pub range : ℕ
  pub rpos : ℕ
  pub wpos : ℕ
  pub size : ℕ
  pub buf : List ℕ
  pub line : List ℕ

-- What `malloc` answers to a request for a frame with so many bytes behind `ptr`: nothing, or bytes
-- of unspecified content.
abbrev pub Malloc : Type 0
Malloc = ℕ → Option (List ℕ)

-- The bytes of `struct xframe` behind `ptr`, which is `line.b + XLINE_SIZE`: the struct has 169
-- bytes up to there, and is padded to 176 on a host with pointers of 8 bytes.
abbrev pub spare : ℕ
spare = 7

-- `XEOF`
abbrev pub xeof : ℕ
xeof = 0xFFFFFFFFFFFFFFFF

abbrev pub maker_size : ℕ
maker_size = 1024 * 64

-- `xl_creator`, given what `malloc` answers. The bytes of `line` are not written; they are those
-- that `malloc` left there.
unfoldable pub created : List ℕ → ℕ → Option (List ℕ) → Option Frame
created junk size none = none
created junk size (some mem) = some (record {
  ref = 1;
  spos = 0;
  range = 0;
  rpos = 0;
  wpos = 0;
  size = size;
  buf = mem;
  line = junk;
})

unfoldable pub creator : Malloc → List ℕ → ℕ → Option Frame
creator malloc junk size = created junk size (malloc (size + spare))

unfoldable pub maker : Malloc → List ℕ → Option Frame
maker malloc junk = creator malloc junk maker_size

-- `xl_hold` and `xl_free`; a frame that is freed is `none`.
unfoldable pub hold : Frame → Frame
hold f = record f { ref = add64 f.ref 1 }

unfoldable pub free : Frame → Option Frame
free f = let f' = record f { ref = sub64 f.ref 1 } in if f'.ref == 0 then none else some f'

-- `xl_fixed` and `xl_clear`
unfoldable pub fixed : Frame → Frame
fixed f = record f { line = n2b little f.wpos type_obj }

unfoldable pub clear : Frame → Frame
clear f = record f { wpos = 0; rpos = 0 }

-- `xl_usable`: `headlen` is an `int`, not negative, and compared as a `uint64_t`.
unfoldable pub usable : Frame → List ℕ → ℕ
usable f key =
    let headlen = length key + 2 + line_size in
    let left = sub64 f.size f.wpos in if ltb headlen left then sub64 left headlen else 0

-- A store of `bs` at `ptr + pos`; outside the bytes behind the frame it is a fault.
unfoldable pub store : Frame → ℕ → List ℕ → Run Frame
store f pos bs =
    if leb (pos + length bs) (length f.buf)
    then ok (record f { buf = splice f.buf pos bs })
    else fault

-- A store at `ptr + wpos`, and `wpos` moved behind it.
unfoldable pub put : Frame → List ℕ → Run Frame
put f bs = do f' ← store f f.wpos bs; ok (record f' { wpos = add64 f'.wpos (length bs) })

-- `__xl_fill_key`: the length byte, at most 64 bytes of the key and a NUL lie side by side.
unfoldable pub fill_key : Frame → List ℕ → Run Frame
fill_key f key =
    let klen = if ltb 64 (length key) then 64 else length key in
    put f ((klen + 1) ∷ (take klen key ++ 0 ∷ []))

-- What `__xl_realloc` does with the answer of `malloc`. The flag says that there was memory; the
-- old frame has its new `size` before `malloc` is asked, and keeps it when there is none.
unfoldable pub grow : ℕ → Frame → Option (List ℕ) → Run (Bool × Frame)
grow size f none = ok (false, record f { size = size })
grow size f (some mem) =
    if leb f.wpos (length f.buf) && leb f.wpos (length mem)
    then ok (true, record f { size = size; buf = splice mem 0 (take f.wpos f.buf) })
    else fault

-- `__xl_realloc`
unfoldable pub realloc : Malloc → ℕ → Frame → Run (Bool × Frame)
realloc malloc newlen f =
    let size = add64 (f.size * 2 % 2 ^ 64) newlen in grow size f (malloc (size + spare))

-- `if ((frame->size - frame->wpos) < newlen) __xl_realloc(...)`
unfoldable pub reserve : Malloc → ℕ → Frame → Run (Bool × Frame)
reserve malloc newlen f =
    if ltb (sub64 f.size f.wpos) newlen then realloc malloc newlen f else ok (true, f)
