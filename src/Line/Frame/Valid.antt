-- ===== src/Line/Frame/Valid.antt =====
-- src/xnet/xline.h: what the writes into a frame do to its memory.
use wenas.Base.{
  sub64, ◌&&◌, ℕ, ◌+◌, ◌*◌, ◌^◌, ◌<◌, ◌≤◌, ◌≡◌, refl, ap, ◌%◌, length-take_le, ◌∙◌, Bool, true,
  false, List, [], ◌∷◌, ◌++◌, Option, none, some, Run, ok, Yields, yields, length, take, splice,
  arith, take-splice, length-splice, length-take, take_all, append_assoc, ltb, leb, inl, inr,
  Bool-cases, ltb→lt, ltb→ge, length-append,
}
use wenas.Line.Frame.{spare, Frame, Malloc, store, put, fill_key, grow, realloc, reserve}
use wenas.Line.Value.{encode_key}

-- A frame has the memory that it believes in and the spare bytes, and what is written lies inside.
pub record IsValid (f : Frame) : Type 0 where
  pub sized : length f.buf ≡ f.size + spare
  pub filled : f.wpos ≤ f.size
  pub small : f.size ≤ 2 ^ 62

-- The bytes written so far.
abbrev pub contents : Frame → List ℕ
contents f = take f.wpos f.buf

-- What `malloc` gives: memory of the size that was asked for, which on no host is 2 ^ 62 bytes.
abbrev pub IsLawful : Malloc → Type 0
IsLawful malloc = (n : ℕ) (mem : List ℕ) → malloc n ≡ some mem → (length mem ≡ n) × (n ≤ 2 ^ 62)

pub length-contents : (f : Frame) → IsValid f → length (contents f) ≡ f.wpos
length-contents f v = omega (arith, length-take f.wpos f.buf)

-- `g` is `f` with `bs` behind its contents.
pub record Extends (f : Frame) (bs : List ℕ) (g : Frame) : Type 0 where
  pub valid : IsValid g
  pub bytes : contents g ≡ contents f ++ bs
  pub moved : g.wpos ≡ f.wpos + length bs
  pub same : g.size ≡ f.size

put_lem :
    (f : Frame) (bs : List ℕ)
    → IsValid f
    → f.wpos + length bs ≤ f.size
    → put f bs ≡ ok (record f { buf = splice f.buf f.wpos bs; wpos = f.wpos + length bs })
unfolding put store
put_lem f bs v h = ground arith

pub put-Extends :
    (f : Frame) (bs : List ℕ)
    → IsValid f
    → f.wpos + length bs ≤ f.size
    → Yields (Extends f bs) (put f bs)
put-Extends f bs v h =
    let inside : f.wpos + length bs ≤ length f.buf = omega arith in
    rw (put_lem f bs v h) (
      yields (record {
        valid = record {
          sized = length-splice f.buf f.wpos bs inside ∙ v.sized;
          filled = h;
          small = v.small;
        };
        bytes = take-splice f.buf f.wpos bs inside;
        moved = refl;
        same = refl;
      }))

pub length-encode_key :
    (key : List ℕ) → (length (encode_key key) ≤ length key + 2) × (length (encode_key key) ≤ 66)
unfolding encode_key
length-encode_key key = omega (arith, length-append (take 64 key) (0 ∷ []), length-take 64 key)

le_of_lt : (m n : ℕ) → m < n → m ≤ n
le_of_lt m n h = omega arith

-- The macro cuts a long key as `take` does.
fill_key_lem : (f : Frame) (key : List ℕ) → fill_key f key ≡ put f (encode_key key)
unfolding fill_key encode_key
fill_key_lem f key = elim (Bool-cases (ltb 64 (length key))) [
  | inl long ↦
      rw (long, length-take_le 64 key (le_of_lt 64 (length key) (ltb→lt 64 (length key) long)))
  | inr short ↦
      let whole = take_all 64 key (ltb→ge 64 (length key) short) in
      rw (short, whole, take_all (length key) key (omega arith))
]

pub fill_key-Extends :
    (f : Frame) (key : List ℕ)
    → IsValid f
    → f.wpos + length key + 2 ≤ f.size
    → Yields (Extends f (encode_key key)) (fill_key f key)
fill_key-Extends f key v h =
    rw (fill_key_lem f key)
      (put-Extends f (encode_key key) v (omega (arith, length-encode_key key)))

pub Extends-trans :
    {f g k : Frame} {xs bs : List ℕ} → Extends f xs g → Extends g bs k → Extends f (xs ++ bs) k
Extends-trans {f} {g} {k} {xs} {bs} a b = record {
  valid = b.valid;
  bytes = b.bytes ∙ rw (a.bytes, append_assoc) refl;
  moved = omega (arith, length-append xs bs, a.moved, b.moved);
  same = b.same ∙ a.same;
}

-- The size that the macro asks for.
abbrev pub grown : Frame → ℕ → ℕ
grown f newlen = f.size * 2 + newlen

-- How a call for `newlen` bytes ends: with room for them behind the same contents, or, where
-- `malloc` has no memory for more, with the frame as it was but for `size`.
pub data Reserved (malloc : Malloc) (newlen : ℕ) (f : Frame) : Run (Bool × Frame) → Type 0 where
  roomy :
      {g : Frame}
      → IsValid g
      → contents g ≡ contents f
      → g.wpos ≡ f.wpos
      → g.wpos + newlen ≤ g.size
      → Reserved malloc newlen f (ok (true, g))
  no_memory :
      {g : Frame}
      → malloc (grown f newlen + spare) ≡ none
      → f.size < f.wpos + newlen
      → g ≡ record f { size = grown f newlen }
      → Reserved malloc newlen f (ok (false, g))

module _ (malloc : Malloc) (newlen : ℕ) (f : Frame) (v : IsValid f) (small : newlen < 2 ^ 63)
    (short : f.size < f.wpos + newlen) where
  grow-Reserved :
      (m : Option (List ℕ))
      → malloc (grown f newlen + spare) ≡ m
      → ((mem : List ℕ)
          → m ≡ some mem
          → (length mem ≡ grown f newlen + spare) × (grown f newlen + spare ≤ 2 ^ 62))
      → Reserved malloc newlen f (grow (grown f newlen) f m)
  unfolding grow
  grow-Reserved none e lawful = no_memory e short refl
  grow-Reserved (some mem) e lawful =
      let (size, bound) = lawful mem refl in
      let same : length (contents f) ≡ f.wpos = length-contents f v in
      let inside : 0 + length (contents f) ≤ length mem = omega arith in
      let guard : (leb f.wpos (length f.buf) && leb f.wpos (length mem)) ≡ true = ground arith in
      let size' = length-splice mem 0 (contents f) inside in
      rw guard (
        roomy (record { sized = size' ∙ size; filled = omega arith; small = omega arith })
          (ap (λ k. take k (splice mem 0 (contents f))) (omega arith)
            ∙ take-splice mem 0 (contents f) inside)
          refl (omega arith))

  realloc-Reserved : IsLawful malloc → Reserved malloc newlen f (realloc malloc newlen f)
  unfolding realloc
  realloc-Reserved lawful =
      let asked : (f.size * 2 % 2 ^ 64 + newlen) % 2 ^ 64 ≡ grown f newlen = omega arith in
      rw asked (
        grow-Reserved (malloc (grown f newlen + spare)) refl
          (λ mem e. lawful (grown f newlen + spare) mem e))

-- A call for room, on a frame for less than 2 ^ 63 bytes.
pub reserve-Reserved :
    (malloc : Malloc) (newlen : ℕ) (f : Frame)
    → IsLawful malloc
    → IsValid f
    → newlen < 2 ^ 63
    → Reserved malloc newlen f (reserve malloc newlen f)
unfolding reserve
reserve-Reserved malloc newlen f lawful v small =
    elim (Bool-cases (ltb (sub64 f.size f.wpos) newlen)) [
      | inl short ↦ rw short (realloc-Reserved malloc newlen f v small (ground arith) lawful)
      | inr enough ↦ rw enough (roomy v refl refl (ground arith))
    ]
