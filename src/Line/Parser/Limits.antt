-- ===== src/Line/Parser/Limits.antt =====
-- src/xnet/xline.h: where the format's limits show, for keys of more than 64 bytes and for sizes
-- that an entry claims.
use wenas.Base.{
  ℕ, zero, suc, ◌+◌, ◌-◌, ◌^◌, ◌%◌, ◌<◌, ◌≡◌, refl, sym, ap, ◌∙◌, false, List, [], ◌∷◌, ◌++◌,
  Option, none, some, ok, out_of_fuel, Yields, Yields-imp, length, drop, get_elem?, arith, All,
  length-take, lt→ltb, ◌==◌, drop-drop, Bool-cases, inl, inr,
}
use wenas.Line.{little, n2b, sizeof_line, type_str}
use wenas.Line.Value.{Field, Fits, encode_fields, stored}
use wenas.Line.Parser.{Parser, skip_entry, same_key, find_until, find}
use wenas.Line.Parser.Entry.{same, same→eq, get_elem?-drop}
use wenas.Line.Parser.Scan.{lookup, lookup_miss}
use wenas.Line.Parser.Find.{Reads, find-Reads}

lookup_long : (key : List ℕ) (fs : List Field) → 64 < length key → lookup key fs ≡ none
lookup_long key [] h = unfold lookup in refl
lookup_long key ((k, v) ∷ fs) h = elim (Bool-cases (same key (stored k))) [
  | inl hit ↦
      absurd (
        omega (arith, ap (λ (l : List ℕ). length l) (same→eq key (stored k) hit), length-take 64 k))
  | inr miss ↦ lookup_miss key k v fs miss ∙ lookup_long key fs h
]

-- In an object whose values fit the format, of fewer than 2 ^ 64 bytes, `xl_find`, from between
-- two entries and with fuel for one turn more than there are entries, never finds a key of more
-- than 64 bytes, not even where an entry was added under it.
pub find-long_key :
    (fs : List Field) (rest : List ℕ) (fuel : ℕ) (p : Parser) (key : List ℕ) (r : Reads fs rest p)
    → All (λ f. Fits f.1) fs
    → length (encode_fields fs) < 2 ^ 64
    → length fs < fuel
    → 64 < length key
    → Yields (λ q. q.val ≡ none) (find fuel p key)
find-long_key fs rest fuel p key r fits small enough long =
    Yields-imp (λ q h. rw (lookup_long key (r.ahead ++ r.passed) long) at h.1)
      (find-Reads fs rest fuel p key r fits small enough)

-- An entry with an empty length byte that claims 2 ^ 64 - 10 bytes: behind it is where it began.
abbrev pub loop_entry : List ℕ
loop_entry = 0 ∷ n2b little (2 ^ 64 - 10) type_str

claimed :
    (rest : List ℕ) → sizeof_line (n2b little (2 ^ 64 - 10) type_str ++ rest) ≡ ok (2 ^ 64 - 1)
unfolding sizeof_line n2b
claimed rest = refl

stuck_step :
    (p : Parser) (rest : List ℕ)
    → p.rpos + 1 < 2 ^ 64
    → drop p.rpos p.body ≡ loop_entry ++ rest
    → (val : Option ℕ) × (skip_entry p ≡ ok (0, record p { key = p.rpos; val = val }))
unfolding skip_entry
stuck_step p rest small e =
    let first : get_elem? p.body p.rpos ≡ some 0 =
      sym (get_elem?-drop p.rpos p.body) ∙ ap (λ l. get_elem? l 0) e in
    let next : (p.rpos + (0 + 1)) % 2 ^ 64 ≡ p.rpos + 1 = omega arith in
    let behind : drop (p.rpos + 1) p.body ≡ n2b little (2 ^ 64 - 10) type_str ++ rest =
      sym (drop-drop p.rpos 1 p.body) ∙ ap (drop 1) e in
    let back : (p.rpos + 1 + (2 ^ 64 - 1)) % 2 ^ 64 ≡ p.rpos = omega arith in
    (some (p.rpos + 1), rw (first, next, behind, claimed rest, back))

-- In front of an entry with an empty length byte whose value claims 2 ^ 64 - 10 bytes, neither
-- loop of `xl_find` ends, however many turns it is given and whatever the key and the bytes
-- behind.
pub find_until-forever :
    (fuel limit : ℕ) (key : List ℕ) (p : Parser) (rest : List ℕ)
    → p.rpos < limit
    → p.rpos + 1 < 2 ^ 64
    → drop p.rpos p.body ≡ loop_entry ++ rest
    → find_until fuel limit key p ≡ out_of_fuel
unfolding find_until same_key
find_until-forever zero limit key p rest lt small e = refl
find_until-forever (suc fuel) limit key p rest lt small e =
    let (val, step) = stuck_step p rest small e in
    let other : (length key + 1 == 0) ≡ false = ground arith in
    rw (lt→ltb p.rpos limit lt, step, other)
      (find_until-forever fuel limit key (record p { key = p.rpos; val = val }) rest lt small e)
