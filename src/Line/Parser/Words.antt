-- ===== src/Line/Parser/Words.antt =====
-- src/xnet/xline.h: `xl_find_word` points to the bytes behind the line that it finds.
use wenas.Base.{
  ℕ, ◌+◌, ◌^◌, ◌<◌, ◌≡◌, refl, sym, ap, ◌∙◌, List, [], ◌++◌, Option, none, some, ok, Yields, yields,
  Yields-bind, length, drop, drop-drop, drop-append, append_assoc, All,
}
use wenas.Line.{little, n2b}
use wenas.Line.Number.{length-n2b}
use wenas.Line.Value.{
  Value, int, uint, real, str, bin, obj, list, Field, Fits, encode, encode_fields,
}
use wenas.Line.Parser.{Parser, find_word}
use wenas.Line.Parser.Scan.{lookup, Shows}
use wenas.Line.Parser.Find.{Reads, find-Reads}

-- The bytes behind a value's line; a number has none.
abbrev pub payload : Value → List ℕ
payload (int n) = []
payload (uint n) = []
payload (real n) = []
payload (str s) = s
payload (bin s) = s
payload (obj s) = s
payload (list s) = s

drop-line : (n t : ℕ) (s tail : List ℕ) → drop 9 ((n2b little n t ++ s) ++ tail) ≡ s ++ tail
drop-line n t s tail =
    ap (drop 9) (append_assoc (n2b little n t) s tail)
    ∙ drop-append 9 (n2b little n t) (s ++ tail) (length-n2b n t)

drop-encode : (v : Value) (tail : List ℕ) → drop 9 (encode v ++ tail) ≡ payload v ++ tail
unfolding encode
drop-encode (int n) tail = drop-append 9 (n2b little n _) tail (length-n2b n _)
drop-encode (uint n) tail = drop-append 9 (n2b little n _) tail (length-n2b n _)
drop-encode (real n) tail = drop-append 9 (n2b little n _) tail (length-n2b n _)
drop-encode (str s) tail = drop-line (length s) _ s tail
drop-encode (bin s) tail = drop-line (length s) _ s tail
drop-encode (obj s) tail = drop-line (length s) _ s tail
drop-encode (list s) tail = drop-line (length s) _ s tail

-- A pointer to the bytes of a value, or NULL for no value.
abbrev pub Points : List ℕ → Option ℕ → Option Value → Type 0
Points body word none = word ≡ none
Points body word (some v) =
    (at : ℕ) × (tail : List ℕ) × (word ≡ some at) × (drop at body ≡ payload v ++ tail)

word_at :
    (fs : List Field) (rest : List ℕ) (q : Parser) (val : Option ℕ) (o : Option Value)
    → Reads fs rest q
    → Shows q.body val o
    → Yields
        (λ (x : Option ℕ × Parser). Points x.1.body x.0 o × Reads fs rest x.1)
        (ok (elim val [ none ↦ none | some at ↦ some (at + 9) ], q))
word_at fs rest q val none reads shown = rw shown (yields (refl, reads))
word_at fs rest q val (some v) reads (at, tail, found, bytes) = rw found (
    yields (
      (at + 9, tail, refl, sym (drop-drop at 9 q.body) ∙ ap (drop 9) bytes ∙ drop-encode v tail),
      reads,
    ))

-- In an object whose values fit the format, of fewer than 2 ^ 64 bytes, from between two entries
-- and with fuel for one turn more than there are entries, `xl_find_word` points to the bytes of
-- the first value with the key in the order of the search, or to nothing where there is none.
pub find_word_lem :
    (fs : List Field) (rest : List ℕ) (fuel : ℕ) (p : Parser) (key : List ℕ) (r : Reads fs rest p)
    → All (λ f. Fits f.1) fs
    → length (encode_fields fs) < 2 ^ 64
    → length fs < fuel
    → Yields
        (λ x. Points x.1.body x.0 (lookup key (r.ahead ++ r.passed)) × Reads fs rest x.1)
        (find_word fuel p key)
unfolding find_word
find_word_lem fs rest fuel p key r fits small enough =
    Yields-bind (find-Reads fs rest fuel p key r fits small enough)
      λ q h. word_at fs rest q q.val (lookup key (r.ahead ++ r.passed)) h.0 h.1
