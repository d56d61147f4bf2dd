-- ===== src/Line/Parser/Find.antt =====
-- src/xnet/xline.h: `xl_find`, which runs its loop from where the parser stands and then from the
-- start.
use wenas.Base.{
  ℕ, ◌+◌, ◌^◌, ◌<◌, ◌≡◌, refl, sym, ap, ◌∙◌, Bool, true, false, List, [], ◌∷◌, ◌++◌, Option, none,
  some, Run, ok, ◌>>=◌, Yields, yields, length, arith, append_assoc, length-append, Bool-cases, ◌⊎◌,
  inl, inr, if◌then◌else◌, All, All-append,
}
use wenas.Line.Value.{Value, Field, Fits, encode_fields, stored}
use wenas.Line.Parser.{Parser, find_until, find}
use wenas.Line.Parser.Entry.{same, At, encode_fields-append}
use wenas.Line.Parser.Scan.{lookup, or_else, Shows, Verdict, Scanned, find_until-Scanned}

-- The parser of an object with the entries `fs`, between two of them.
pub record Reads (fs : List Field) (rest : List ℕ) (p : Parser) : Type 0 where
  pub passed : List Field
  pub ahead : List Field
  pub split : fs ≡ passed ++ ahead
  pub stands : At p (encode_fields fs ++ rest) passed (encode_fields ahead ++ rest)
  pub end : p.wpos ≡ length (encode_fields fs)

lookup-append :
    (key : List ℕ) (fs gs : List Field)
    → lookup key (fs ++ gs) ≡ or_else (lookup key fs) (lookup key gs)
unfolding lookup
lookup-append key [] gs = refl
lookup-append key ((k, v) ∷ fs) gs = elim (Bool-cases (same key (stored k))) [
  | inl hit ↦ rw hit
  | inr miss ↦ rw miss (lookup-append key fs gs)
]

Verdict-cases :
    (body : List ℕ) (x : Bool × Parser) (o : Option Value)
    → Verdict body x o
    → ((w : Value) × (o ≡ some w) × (x.0 ≡ true) × Shows body x.1.val (some w))
      ⊎ ((o ≡ none) × (x.0 ≡ false))
Verdict-cases body x none v = inr (refl, v)
Verdict-cases body x (some w) v = inl (w, refl, v.0, v.1)

module _ (fs : List Field) (rest : List ℕ) (fuel : ℕ) (p : Parser) (key : List ℕ)
    (r : Reads fs rest p) (fits : All (λ f. Fits f.1) fs)
    (small : length (encode_fields fs) < 2 ^ 64) (enough : length fs < fuel) where
  abbrev Goal : Parser → Type 0
  Goal q = Reads fs rest q × Shows q.body q.val (lookup key (r.ahead ++ r.passed))

  Fits-parts : All (λ f. Fits f.1) r.passed × All (λ f. Fits f.1) r.ahead
  Fits-parts = All-append (λ f. Fits f.1) r.passed r.ahead (rw r.split at fits)

  sizes : length fs ≡ length r.passed + length r.ahead
  sizes = ap length r.split ∙ length-append r.passed r.ahead

  bytes :
      length (encode_fields fs) ≡ length (encode_fields r.passed) + length (encode_fields r.ahead)
  bytes =
      ap length (ap encode_fields r.split ∙ encode_fields-append r.passed r.ahead)
      ∙ length-append (encode_fields r.passed) (encode_fields r.ahead)

  reads_ahead :
      (q : Parser) (taken left : List Field)
      → r.ahead ≡ taken ++ left
      → q.wpos ≡ p.wpos
      → At q (encode_fields fs ++ rest) (r.passed ++ taken) (encode_fields left ++ rest)
      → Reads fs rest q
  reads_ahead q taken left e end stands = record {
    passed = r.passed ++ taken;
    ahead = left;
    split = r.split ∙ ap (λ l. r.passed ++ l) e ∙ sym (append_assoc r.passed taken left);
    stands = stands;
    end = end ∙ r.end;
  }

  reads_again :
      (q : Parser) (taken left : List Field)
      → r.passed ≡ taken ++ left
      → q.wpos ≡ p.wpos
      → At q
          (encode_fields fs ++ rest)
          taken
          (encode_fields left ++ (encode_fields r.ahead ++ rest))
      → Reads fs rest q
  reads_again q taken left e end stands = record {
    passed = taken;
    ahead = left ++ r.ahead;
    split = r.split ∙ ap (λ l. l ++ r.ahead) e ∙ append_assoc taken left r.ahead;
    stands = rw (encode_fields-append left r.ahead, append_assoc) stands;
    end = end ∙ r.end;
  }

  -- The second loop, from the start up to where the parser stood.
  again :
      {s : Run (Bool × Parser)}
      → lookup key r.ahead ≡ none
      → Yields
          (Scanned key
            (encode_fields fs ++ rest)
            []
            r.passed
            (encode_fields r.ahead ++ rest)
            p.wpos)
          s
      → Yields Goal (s >>= λ x. ok (if x.0 then x.1 else record x.1 { val = none }))
  again missed (yields {a = x} s) =
      let body = encode_fields fs ++ rest in
      let all : lookup key (r.ahead ++ r.passed) ≡ lookup key r.passed =
        lookup-append key r.ahead r.passed ∙ rw missed in
      let reads = reads_again x.1 s.taken s.left s.split s.end s.stands in
      elim (Verdict-cases body x (lookup key r.passed) s.verdict) [
        | inl (w, found, hit, shown) ↦
            rw hit (yields (reads, rw (all, found, s.stands.body_is) shown))
        | inr (found, miss) ↦ rw miss (
            yields (
              record {
                passed = reads.passed;
                ahead = reads.ahead;
                split = reads.split;
                stands = record {
                  body_is = reads.stands.body_is;
                  place = reads.stands.place;
                  bytes = reads.stands.bytes;
                };
                end = reads.end;
              },
              rw (all, found),
            ))
      ]

  again_Scanned :
      (q : Parser)
      → q.body ≡ encode_fields fs ++ rest
      → q.wpos ≡ p.wpos
      → Yields
          (Scanned key
            (encode_fields fs ++ rest)
            []
            r.passed
            (encode_fields r.ahead ++ rest)
            p.wpos)
          (find_until fuel p.rpos key (record q { rpos = 0 }))
  again_Scanned q body end = rw (← end) (
      find_until-Scanned r.passed fuel p.rpos key (encode_fields fs ++ rest) (record q { rpos = 0 })
        [] (encode_fields r.ahead ++ rest)
        (record { body_is = body; place = unfold encode_fields in refl; bytes = start })
        (omega (arith, r.stands.place)) (omega (arith, r.stands.place, bytes)) Fits-parts.0
        (omega (arith, sizes)))
    where
      start :
          encode_fields fs ++ rest
          ≡ encode_fields [] ++ (encode_fields r.passed ++ (encode_fields r.ahead ++ rest))
      start = unfold encode_fields in r.stands.bytes

  find_after :
      {s : Run (Bool × Parser)}
      → Yields (Scanned key (encode_fields fs ++ rest) r.passed r.ahead rest p.wpos) s
      → Yields Goal (
          s >>= λ x.
          if x.0
          then ok x.1
          else (find_until fuel p.rpos key (record x.1 { rpos = 0 }) >>= λ y.
              ok (if y.0 then y.1 else record y.1 { val = none })))
  find_after (yields {a = x} s) =
      let body = encode_fields fs ++ rest in
      let all = lookup-append key r.ahead r.passed in
      elim (Verdict-cases body x (lookup key r.ahead) s.verdict) [
        | inl (w, found, hit, shown) ↦ rw hit (
            yields (
              reads_ahead x.1 s.taken s.left s.split s.end s.stands,
              rw (all, found, s.stands.body_is) shown,
            ))
        | inr (found, miss) ↦ rw miss (again found (again_Scanned x.1 s.stands.body_is s.end))
      ]

-- In an object whose values fit the format, of fewer than 2 ^ 64 bytes, from between two entries:
-- `xl_find` ends with fuel for one turn more than there are entries. It returns the first value
-- with the key in the order of its search, from where the parser stands to the end and then from
-- the start, or NULL where there is none; and the parser stands between two entries again.
pub find-Reads :
    (fs : List Field) (rest : List ℕ) (fuel : ℕ) (p : Parser) (key : List ℕ) (r : Reads fs rest p)
    → All (λ f. Fits f.1) fs
    → length (encode_fields fs) < 2 ^ 64
    → length fs < fuel
    → Yields
        (λ q. Reads fs rest q × Shows q.body q.val (lookup key (r.ahead ++ r.passed)))
        (find fuel p key)
unfolding find
find-Reads fs rest fuel p key r fits small enough =
    find_after fs rest fuel p key r fits small enough (
      find_until-Scanned r.ahead fuel p.wpos key (encode_fields fs ++ rest) p r.passed rest r.stands
        (omega (arith, r.stands.place, r.end, bytes fs rest fuel p key r fits small enough))
        (omega (arith, r.end)) (Fits-parts fs rest fuel p key r fits small enough).1
        (omega (arith, sizes fs rest fuel p key r fits small enough)))
