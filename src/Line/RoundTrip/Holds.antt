-- ===== src/Line/RoundTrip/Holds.antt =====
-- src/xnet/xline.h: a frame to which a client adds entry after entry, and the parser of its line.
use wenas.Base.{
  ◌+◌, ℕ, ◌^◌, ◌<◌, ◌≤◌, ◌≡◌, ◌≢◌, refl, sym, ap, ◌∙◌, List, [], ◌∷◌, ◌++◌, Option, none, some, Run,
  ok, ◌>>=◌, Yields, yields, length, drop, arith, append_assoc, append-nil, ◌==◌, ne→==,
  if◌then◌else◌, IsU64, take-append-drop, drop-append, false,
}
use wenas.Line.{little, n2b, sizeof_body, type_obj}
use wenas.Line.Number.{b2n-n2b, length-n2b}
use wenas.Line.Frame.{spare, Frame, Malloc, created, creator, xeof}
use wenas.Line.Frame.Valid.{IsValid, contents, IsLawful, length-contents}
use wenas.Line.Value.{Value, Field, Fits, encode_field, encode_fields}
use wenas.Line.Build.{Call, add}
use wenas.Line.Build.Append.{Adds, needed, Added, added, failed, add-Added}
use wenas.Line.Parser.{parser}
use wenas.Line.Parser.Entry.{same, encode_fields-append}
use wenas.Line.Parser.Find.{Reads}

sizeof_body_lem :
    (n : ℕ) (rest : List ℕ) → IsU64 n → sizeof_body (n2b little n type_obj ++ rest) ≡ ok n
unfolding sizeof_body n2b
sizeof_body_lem n rest small = unfold n2b in (b2n-n2b n type_obj rest small).0

-- A client adds entries one after the other, and gives up when one returns `XEOF`.
unfoldable pub add_all : Malloc → Frame → List (List ℕ × Call) → Run (Option Frame)
add_all malloc f [] = ok (some f)
add_all malloc f ((key, call) ∷ calls) = do
  (pos, g) ← add malloc f key call
  let rest = add_all malloc g calls
  if pos == xeof then ok none else rest

-- The entries that the calls add, each fit for the format.
pub data AllAdd : List (List ℕ × Call) → List Field → Type 0 where
  adds_none : AllAdd [] []
  adds_one :
      {calls : List (List ℕ × Call)} {fs : List Field} {call : Call} (key : List ℕ) (v : Value)
      → Adds call v
      → Fits v
      → needed key call < 2 ^ 63
      → AllAdd calls fs
      → AllAdd ((key, call) ∷ calls) ((key, v) ∷ fs)

-- A frame that holds an object of the entries, and says so in its line once there are any.
pub record Holds (f : Frame) (fs : List Field) : Type 0 where
  pub valid : IsValid f
  pub entries : contents f ≡ encode_fields fs
  pub labelled : fs ≢ [] → f.line ≡ n2b little (length (encode_fields fs)) type_obj

created-Holds :
    (junk : List ℕ) (size : ℕ) {f : Frame} (m : Option (List ℕ))
    → ((mem : List ℕ) → m ≡ some mem → (length mem ≡ size + spare) × (size + spare ≤ 2 ^ 62))
    → created junk size m ≡ some f
    → Holds f []
unfolding created encode_fields
created-Holds junk size none lawful e = absurd (cc)
created-Holds junk size {f} (some mem) lawful e =
    let made : record {
      ref = 1;
      spos = 0;
      range = 0;
      rpos = 0;
      wpos = 0;
      size = size;
      buf = mem;
      line = junk;
    }
        ≡ f =
      cc in
    rw (← made) (record {
      valid = record {
        sized = (lawful mem refl).0;
        filled = omega arith;
        small = omega (arith, (lawful mem refl).1);
      };
      entries = refl;
      labelled = λ h. absurd (h refl);
    })

pub creator-Holds :
    (malloc : Malloc) (junk : List ℕ) (size : ℕ) {f : Frame}
    → IsLawful malloc
    → creator malloc junk size ≡ some f
    → Holds f []
unfolding creator
creator-Holds malloc junk size lawful e =
    created-Holds junk size (malloc (size + spare)) (λ mem. lawful (size + spare) mem) e

added_one :
    (malloc : Malloc) (newlen : ℕ) (f : Frame) (key : List ℕ) (v : Value) (before : List Field)
    (rest : Frame → Run (Option Frame)) (P : Type 0) {g : Frame} {r : Run (ℕ × Frame)}
    → Holds f before
    → ((h : Frame) → Holds h (before ++ (key, v) ∷ []) → rest h ≡ ok (some g) → P)
    → Added malloc newlen type_obj f (encode_field (key, v)) r
    → (r >>= λ x. if x.0 == xeof then ok none else rest x.1) ≡ ok (some g)
    → P
added_one malloc newlen f key v before rest P h go (added {pos = pos} {g = k} valid bytes at line)
      e =
    let longer : encode_fields (before ++ (key, v) ∷ [])
        ≡ encode_fields before ++ encode_field (key, v) =
      encode_fields-append before ((key, v) ∷ [])
      ∙ unfold encode_fields in
        ap (λ l. encode_fields before ++ l) (append-nil (encode_field (key, v))) in
    let whole : contents k ≡ encode_fields (before ++ (key, v) ∷ []) =
      bytes ∙ ap (λ l. l ++ encode_field (key, v)) h.entries ∙ sym longer in
    let proper : (pos == xeof) ≡ false =
      ne→== pos xeof (omega (arith, length-contents k valid, valid.small, valid.filled)) in
    go k
      (record {
        valid = valid;
        entries = whole;
        labelled = λ _. line ∙ ap (λ (l : List ℕ). n2b little (length l) type_obj) whole;
      })
      (rw proper at e)
added_one malloc newlen f key v before rest P h go (failed refused short same) e = absurd (cc)

pub add_all_from :
    (malloc : Malloc) (f : Frame) {calls : List (List ℕ × Call)} {fs : List Field}
    (before : List Field) {g : Frame}
    → IsLawful malloc
    → Holds f before
    → AllAdd calls fs
    → add_all malloc f calls ≡ ok (some g)
    → Holds g (before ++ fs)
unfolding add_all
add_all_from malloc f before {g} lawful h adds_none e =
    let same : f ≡ g = cc in rw (← same, append-nil) h
add_all_from malloc f {calls = _ ∷ calls} before {g} lawful h
      (adds_one {fs = fs} {call = call} key v a fits small rest) e =
    added_one malloc (needed key call) f key v before (λ k. add_all malloc k calls)
      (Holds g (before ++ (key, v) ∷ fs)) h
      (λ k holds e'.
        rw append_assoc at (add_all_from malloc k (before ++ (key, v) ∷ []) lawful holds rest e'))
      (add-Added malloc f key lawful h.valid a small) e

no_bytes : (xs : List ℕ) → (0 ≡ length (encode_fields [])) × (xs ≡ encode_fields [] ++ xs)
unfolding encode_fields
no_bytes xs = (refl, refl)

-- The parser of a frame's object stands before its first entry.
pub parser-Reads :
    (f : Frame) (fs : List Field)
    → Holds f fs
    → fs ≢ []
    → Yields
        (λ p. (r : Reads fs (drop f.wpos f.buf) p) × (r.ahead ++ r.passed ≡ fs))
        (parser (f.line ++ f.buf))
unfolding parser
parser-Reads f fs h some_entry =
    let n = length (encode_fields fs) in
    let small : IsU64 n =
      omega (arith, ap (λ (l : List ℕ). length l) h.entries, length-contents f h.valid) in
    let size : sizeof_body (f.line ++ f.buf) ≡ ok n =
      rw (h.labelled some_entry) (sizeof_body_lem n f.buf small) in
    rw (size, h.labelled some_entry)
      (yields (
        record {
          passed = [];
          ahead = fs;
          split = refl;
          stands = record {
            body_is =
                drop-append 9 (n2b little n type_obj) f.buf (length-n2b n type_obj)
                ∙ sym (take-append-drop f.wpos f.buf)
                ∙ ap (λ l. l ++ drop f.wpos f.buf) h.entries;
            place = (no_bytes []).0;
            bytes = (no_bytes _).1;
          };
          end = refl;
        },
        append-nil fs,
      ))
