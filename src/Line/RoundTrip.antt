-- ===== src/Line/RoundTrip.antt =====
-- src/xnet/xline.h: from the entries that a client adds to what the parser finds.
pub mod Holds
use wenas.Base.{
  ℕ, ◌+◌, ◌^◌, ◌<◌, ◌≤◌, ◌≡◌, ◌≢◌, refl, sym, ap, ◌∙◌, List, [], ◌∷◌, ◌++◌, Option, none, some, Run,
  ok, ◌>>=◌, Yields, yields, Yields-bind, Yields-imp, length, take, drop, arith, append_assoc,
  append-nil, length-append, All, All-append, append-All, ◌==◌, ne→==, if◌then◌else◌, Bool-cases,
  inl, inr, IsU64, take-append-drop, drop-append, true, false, ==_refl,
}
use wenas.Line.{little, n2b, b2n, sizeof_body, type_obj}
use wenas.Line.Number.{b2n-n2b, length-n2b}
use wenas.Line.Frame.{Frame, Malloc, created, creator, xeof}
use wenas.Line.Frame.Valid.{IsValid, contents, IsLawful, length-contents}
use wenas.Line.Value.{
  Value, int, uint, real, str, bin, obj, list, Field, stored, Fits, encode, encode_field,
  encode_fields,
}
use wenas.Line.Build.{Call, add}
use wenas.Line.Build.Append.{Adds, needed, Added, added, failed, add-Added}
use wenas.Line.Parser.{Parser, parser, find_number, number_at}
use wenas.Line.Parser.Entry.{At, same, encode_fields-append}
use wenas.Line.Parser.Scan.{lookup, lookup_hit, lookup_miss, Shows}
use wenas.Line.Parser.Find.{Reads, find-Reads}
use Holds.{add_all, AllAdd, adds_none, adds_one, creator-Holds, add_all_from, parser-Reads}

-- The bits behind a value's type: those of a number, or the size of anything else.
abbrev pub bits_of : Value → ℕ
bits_of (int n) = n
bits_of (uint n) = n
bits_of (real n) = n
bits_of (str s) = length s
bits_of (bin s) = length s
bits_of (obj s) = length s
bits_of (list s) = length s

abbrev pub bits_found : Option Value → Option ℕ
bits_found none = none
bits_found (some v) = some (bits_of v)

b2n-encode : (v : Value) (rest : List ℕ) → Fits v → b2n little (encode v ++ rest) ≡ ok (bits_of v)
unfolding encode
b2n-encode (int n) rest h = (b2n-n2b n _ rest h).0
b2n-encode (uint n) rest h = (b2n-n2b n _ rest h).0
b2n-encode (real n) rest h = (b2n-n2b n _ rest h).0
b2n-encode (str s) rest h = rw append_assoc ((b2n-n2b (length s) _ (s ++ rest) (omega arith)).0)
b2n-encode (bin s) rest h = rw append_assoc ((b2n-n2b (length s) _ (s ++ rest) (omega arith)).0)
b2n-encode (obj s) rest h = rw append_assoc ((b2n-n2b (length s) _ (s ++ rest) (omega arith)).0)
b2n-encode (list s) rest h = rw append_assoc ((b2n-n2b (length s) _ (s ++ rest) (omega arith)).0)

lookup-Fits :
    (key : List ℕ) (fs : List Field) {v : Value}
    → All (λ f. Fits f.1) fs
    → lookup key fs ≡ some v
    → Fits v
lookup-Fits key [] h e = unfold lookup in cc
lookup-Fits key ((k, w) ∷ fs) {v} h e = elim (Bool-cases (same key (stored k))) [
  | inl hit ↦ let found : w ≡ v = cc (lookup_hit key k w fs hit) in rw (← found) h.0
  | inr miss ↦ lookup-Fits key fs h.1 (sym (lookup_miss key k w fs miss) ∙ e)
]

number_at_lem :
    (fs : List Field) (rest : List ℕ) (q : Parser) (val : Option ℕ) (o : Option Value)
    → ((v : Value) → o ≡ some v → Fits v)
    → Reads fs rest q
    → Shows q.body val o
    → Yields (λ x. (x.0 ≡ bits_found o) × Reads fs rest x.1) (number_at q val)
unfolding number_at
number_at_lem fs rest q val none fits reads shown = rw shown (yields (refl, reads))
number_at_lem fs rest q val (some v) fits reads (at, tail, found, bytes) =
    rw (found, bytes, b2n-encode v tail (fits v refl)) (yields (refl, reads))

-- `xl_find_uint` and its kin, in an object whose values fit the format, of fewer than 2 ^ 64
-- bytes, from between two entries and with fuel for one turn more than there are entries: the bits
-- of the first value with the key in the order of the search, and NULL where there is none.
pub find_number_lem :
    (fs : List Field) (rest : List ℕ) (fuel : ℕ) (p : Parser) (key : List ℕ) (r : Reads fs rest p)
    → All (λ f. Fits f.1) fs
    → length (encode_fields fs) < 2 ^ 64
    → length fs < fuel
    → Yields
        (λ x. (x.0 ≡ bits_found (lookup key (r.ahead ++ r.passed))) × Reads fs rest x.1)
        (find_number fuel p key)
unfolding find_number
find_number_lem fs rest fuel p key r fits small enough =
    let searched = r.ahead ++ r.passed in
    let parts = All-append (λ f. Fits f.1) r.passed r.ahead (rw r.split at fits) in
    let all = append-All (λ f. Fits f.1) r.ahead r.passed parts.1 parts.0 in
    Yields-bind (find-Reads fs rest fuel p key r fits small enough) λ q h.
      number_at_lem fs rest q q.val (lookup key searched) (λ v. lookup-Fits key searched all) h.0
        h.1

AllAdd-Fits :
    {calls : List (List ℕ × Call)} {fs : List Field} → AllAdd calls fs → All (λ f. Fits f.1) fs
AllAdd-Fits adds_none = tt
AllAdd-Fits (adds_one key v a fits small rest) = (fits, AllAdd-Fits rest)

-- With a `malloc` that gives what it is asked for, whatever entries that fit the format, at least
-- one and none as large as 2 ^ 63, a client adds to a new frame, if none fails for want of memory:
-- the parser of the frame's line is made, and with fuel for one turn more than there are entries
-- the search for a key ends with the bits of the first entry that has it, or with NULL where none
-- has.
pub find-add_all :
    (malloc : Malloc) (junk : List ℕ) (size fuel : ℕ) (key : List ℕ) (calls : List (List ℕ × Call))
    (fs : List Field) (f g : Frame)
    → IsLawful malloc
    → creator malloc junk size ≡ some f
    → AllAdd calls fs
    → fs ≢ []
    → add_all malloc f calls ≡ ok (some g)
    → length fs < fuel
    → Yields
        (λ x. x.0 ≡ bits_found (lookup key fs))
        (parser (g.line ++ g.buf) >>= λ p. find_number fuel p key)
find-add_all malloc junk size fuel key calls fs f g lawful made adds some_entry done enough =
    let holds =
      add_all_from malloc f [] lawful (creator-Holds malloc junk size lawful made) adds done in
    let small : length (encode_fields fs) < 2 ^ 64 = omega (
      arith,
      ap (λ (l : List ℕ). length l) holds.entries,
      length-contents g holds.valid,
      holds.valid.small,
      holds.valid.filled,
    ) in
    Yields-bind (parser-Reads g fs holds some_entry) λ p r.
      Yields-imp (λ x h. h.0 ∙ ap (λ l. bits_found (lookup key l)) r.1)
        (find_number_lem fs (drop g.wpos g.buf) fuel p key r.0 (AllAdd-Fits adds) small enough)
