-- ===== src/Line/Build/Nest.antt =====
-- src/xnet/xline.h: objects and lists inside an object, from their begin to their end.
use wenas.Base.{
  ℕ, ◌+◌, ◌^◌, ◌<◌, ◌≤◌, ◌≡◌, refl, sym, ap, ◌∙◌, true, List, [], ◌++◌, Option, none, some, Run, ok,
  Yields, yields, ◌>>=◌, length, take, drop, arith, append_assoc, append-nil, length-append,
  take-append-drop, splice_middle, splice, take-append, length-splice, leb, sub64, lt→ltb, take-add,
  ap, length-take_le, ◌%◌, ◌-◌, length-drop,
}
use wenas.Line.{little, n2b, type_obj, type_list}
use wenas.Line.Number.{length-n2b}
use wenas.Line.Frame.{spare, Frame, Malloc, store, xeof, fixed}
use wenas.Line.Frame.Valid.{IsValid, contents, length-contents}
use wenas.Line.Frame.Valid.{IsLawful, grown, Extends, fill_key-Extends, length-encode_key}
use wenas.Line.Value.{encode, encode_key, obj, list}
use wenas.Line.Build.{put_from, obj_begin, end_at, obj_end, list_end}
use wenas.Line.Build.Append.{with_room_cases}

module _ (f : Frame) (v : IsValid f) (before gap body : List ℕ) (pos type : ℕ)
    (parts : contents f ≡ before ++ (gap ++ body)) (at : pos ≡ length before)
    (nine : length gap ≡ 9) where
  room : f.wpos ≡ pos + 9 + length body
  room = omega (
    arith,
    length-contents f v,
    ap (λ (l : List ℕ). length l) parts,
    length-append before (gap ++ body),
    length-append gap body,
  )

  -- The nine bytes at `pos` become the line of the body; all else stays.
  abbrev pub patched : Frame
  patched = record f { buf = splice f.buf pos (n2b little (length body) type) }

  pub end_at_lem : end_at type f pos ≡ ok patched
  unfolding end_at store
  end_at_lem =
      let len : sub64 (sub64 f.wpos pos) 9 ≡ length body = omega (arith, room, v.small, v.filled) in
      let inside : leb (pos + length (n2b little (length body) type)) (length f.buf) ≡ true =
        ground (arith, length-n2b (length body) type, room, v.sized, v.filled) in
      rw (len, inside)

  pub patched-IsValid : IsValid patched
  patched-IsValid = record {
    sized =
        length-splice f.buf pos (n2b little (length body) type)
          (omega (arith, length-n2b (length body) type, room, v.sized, v.filled))
        ∙ v.sized;
    filled = v.filled;
    small = v.small;
  }

  -- The frame's memory, part by part.
  memory : f.buf ≡ before ++ (gap ++ (body ++ drop f.wpos f.buf))
  memory =
      sym (take-append-drop f.wpos f.buf)
      ∙ ap (λ l. l ++ drop f.wpos f.buf) parts
      ∙ simp append_assoc

  pub contents-patched : contents patched ≡ before ++ (n2b little (length body) type ++ body)
  contents-patched =
      let line = n2b little (length body) type in
      let size = length-n2b (length body) type in
      let rest = drop f.wpos f.buf in
      ap (take f.wpos) (
        ap (λ l. splice l pos line) memory
        ∙ splice_middle before gap (body ++ rest) line pos at (size ∙ sym nine)
        ∙ simp (← append_assoc))
      ∙ take-append f.wpos ((before ++ line) ++ body) rest
          (omega (arith, room, length-append (before ++ line) body, length-append before line))
      ∙ append_assoc before line body

-- What lies behind the contents once an object was begun: the key's bytes, if there is a key, and
-- nine more that nobody has written. The answer is where those nine begin.
pub data Begun (malloc : Malloc) (newlen : ℕ) (f : Frame) (key : List ℕ)
    : Run (ℕ × Frame) → Type 0 where
  begun :
      {pos : ℕ} {g : Frame} (gap : List ℕ)
      → IsValid g
      → contents g ≡ (contents f ++ key) ++ gap
      → pos ≡ length (contents f ++ key)
      → length gap ≡ 9
      → Begun malloc newlen f key (ok (pos, g))
  failed :
      {g : Frame}
      → malloc (grown f newlen + spare) ≡ none
      → f.size < f.wpos + newlen
      → g ≡ record f { size = grown f newlen }
      → Begun malloc newlen f key (ok (xeof, g))

-- Nine bytes are skipped behind `key`, on a frame with room for them.
skip-Begun :
    (malloc : Malloc) (newlen : ℕ) (f g : Frame) (key : List ℕ)
    → IsValid g
    → contents g ≡ contents f ++ key
    → g.wpos + 9 ≤ g.size
    → Begun malloc newlen f key (put_from none 9 g >>= λ h. ok (sub64 h.wpos 9, h))
unfolding put_from
skip-Begun malloc newlen f g key v same fits =
    let moved : (g.wpos + 9) % 2 ^ 64 ≡ g.wpos + 9 = omega (arith, v.small) in
    let back : (g.wpos + 9 + 2 ^ 64 - 9) % 2 ^ 64 ≡ g.wpos = omega (arith, v.small) in
    rw (moved, back)
      (begun (take 9 (drop g.wpos g.buf))
        (record { sized = v.sized; filled = fits; small = v.small })
        (take-add g.wpos 9 g.buf ∙ ap (λ l. l ++ take 9 (drop g.wpos g.buf)) same)
        (sym (length-contents g v) ∙ ap length same)
        (length-take_le 9 (drop g.wpos g.buf) (omega (arith, length-drop g.wpos g.buf, v.sized))))

key-Begun :
    (malloc : Malloc) (newlen : ℕ) (f g : Frame) (key : List ℕ) {r : Run Frame}
    → contents g ≡ contents f
    → g.wpos + length key + 9 ≤ g.size
    → Yields (Extends g key) r
    → Begun malloc newlen f key (r >>= λ h. (put_from none 9 h >>= λ k. ok (sub64 k.wpos 9, k)))
key-Begun malloc newlen f g key same fits (yields {a = h} e) =
    skip-Begun malloc newlen f h key e.valid (e.bytes ∙ ap (λ l. l ++ key) same)
      (omega (arith, e.moved, e.same))

-- The bytes of the key of an object that is begun.
abbrev pub head_bytes : Option (List ℕ) → List ℕ
head_bytes none = []
head_bytes (some key) = encode_key key

abbrev pub begin_needed : Option (List ℕ) → ℕ
begin_needed none = 9
begin_needed (some key) = length key + 2 + 9

-- On a valid frame, with a `malloc` that gives what it is asked for and less than 2 ^ 63 bytes to
-- add, `xl_obj_begin` (and `xl_list_begin`, which is the same) puts the key, if there is one,
-- behind the contents, leaves nine bytes for the line and returns where these begin; or it has no
-- memory, returns `XEOF`, and changes nothing but `size`.
pub obj_begin-Begun :
    (malloc : Malloc) (f : Frame) (key : Option (List ℕ))
    → IsLawful malloc
    → IsValid f
    → begin_needed key < 2 ^ 63
    → Begun malloc (begin_needed key) f (head_bytes key) (obj_begin malloc f key)
unfolding obj_begin
obj_begin-Begun malloc f none lawful v small =
    with_room_cases malloc 9 f (Begun malloc 9 f []) _
      (λ g valid same fits. skip-Begun malloc 9 f g [] valid (same ∙ sym (append-nil _)) fits)
      (λ g refused short e. failed refused short e) lawful v small
obj_begin-Begun malloc f (some key) lawful v small =
    with_room_cases malloc (length key + 2 + 9) f
      (Begun malloc (length key + 2 + 9) f (encode_key key)) _
      (λ g valid same fits.
        key-Begun malloc (length key + 2 + 9) f g (encode_key key) same
          (omega (arith, length-encode_key key)) (fill_key-Extends g key valid (omega arith)))
      (λ g refused short e. failed refused short e) lawful v small

-- In a valid frame, what was begun at `pos` ends as one entry: with `body` behind the nine bytes
-- at `pos`, which is below `XEOF`, `xl_obj_end` turns these into the line of an object of that
-- body, moves nothing else, and returns `pos`; so does `xl_list_end` for a list, and it brings the
-- frame's own line up to date too.
pub end-Nested :
    (f : Frame) (before gap body : List ℕ) (pos : ℕ)
    → IsValid f
    → contents f ≡ before ++ (gap ++ body)
    → pos ≡ length before
    → length gap ≡ 9
    → pos < xeof
    → Yields
        (λ r.
          IsValid r.1
          × (contents r.1 ≡ before ++ encode (obj body))
          × (r.0 ≡ pos)
          × (r.1.line ≡ f.line))
        (obj_end f pos)
      × Yields
          (λ r.
            IsValid r.1
            × (contents r.1 ≡ before ++ encode (list body))
            × (r.0 ≡ pos)
            × (r.1.line ≡ n2b little f.wpos type_obj))
          (list_end f pos)
unfolding obj_end list_end encode fixed
end-Nested f before gap body pos v parts at nine small =
    let below = lt→ltb pos xeof small in
    let ended = λ (type : ℕ). end_at_lem f v before gap body pos type parts at nine in
    let valid = λ (type : ℕ). patched-IsValid f v before gap body pos type parts at nine in
    let shown = λ (type : ℕ). contents-patched f v before gap body pos type parts at nine in
    (
      rw (below, ended type_obj) (yields (valid type_obj, shown type_obj, refl, refl)),
      rw (below, ended type_list)
          (yields (
            record {
              sized = (valid type_list).sized;
              filled = (valid type_list).filled;
              small = (valid type_list).small;
            },
            shown type_list,
            refl,
            refl,
          )),
    )
