-- ===== src/Line/Parser/Scan.antt =====
-- src/xnet/xline.h: one of the two loops of `xl_find`.
use wenas.Base.{
  ℕ, zero, suc, ◌+◌, ◌^◌, ◌<◌, ◌≤◌, ◌≡◌, refl, ap, ◌∙◌, Bool, true, false, List, [], ◌∷◌, ◌++◌,
  Option, none, some, ok, Yields, yields, Yields-imp, length, drop, arith, append_assoc, append-nil,
  length-append, Bool-cases, inl, inr, if◌then◌else◌, All, lt→ltb, le→ltb,
}
use wenas.Line.Value.{
  Value, Field, Fits, encode, encode_key, encode_field, encode_fields, stored, encode_nonempty,
}
use wenas.Line.Parser.{Parser, find_until}
use wenas.Line.Parser.Entry.{
  same, same_key_lem, At, past, behind_key, after_length, skip_entry_lem, past-At,
}

-- The first value under a key, as the key is stored.
unfoldable pub lookup : List ℕ → List Field → Option Value
lookup key [] = none
lookup key ((k, v) ∷ fs) = if same key (stored k) then some v else lookup key fs

abbrev pub or_else : Option Value → Option Value → Option Value
or_else none o = o
or_else (some v) o = some v

-- `val` points to the bytes of the value, or is NULL for no value.
abbrev pub Shows : List ℕ → Option ℕ → Option Value → Type 0
Shows body val none = val ≡ none
Shows body val (some v) =
    (at : ℕ) × (rest : List ℕ) × (val ≡ some at) × (drop at body ≡ encode v ++ rest)

-- How a loop ends: past some of the entries that it had before it, at the first hit or at none.
abbrev pub Verdict : List ℕ → Bool × Parser → Option Value → Type 0
Verdict body r none = r.0 ≡ false
Verdict body r (some v) = (r.0 ≡ true) × Shows body r.1.val (some v)

pub record Scanned (key body : List ℕ) (before ahead : List Field) (tail : List ℕ) (wpos : ℕ)
    (r : Bool × Parser) : Type 0 where
  pub taken : List Field
  pub left : List Field
  pub split : ahead ≡ taken ++ left
  pub stands : At r.1 body (before ++ taken) (encode_fields left ++ tail)
  pub end : r.1.wpos ≡ wpos
  pub verdict : Verdict body r (lookup key ahead)

pub lookup_hit :
    (key k : List ℕ) (v : Value) (fs : List Field)
    → same key (stored k) ≡ true
    → lookup key ((k, v) ∷ fs) ≡ some v
unfolding lookup
lookup_hit key k v fs h = rw h

pub lookup_miss :
    (key k : List ℕ) (v : Value) (fs : List Field)
    → same key (stored k) ≡ false
    → lookup key ((k, v) ∷ fs) ≡ lookup key fs
unfolding lookup
lookup_miss key k v fs h = rw h

-- One turn of the loop is taken: what follows is the rest of it, on the parser past the entry.
module _ (key body : List ℕ) (before : List Field) (k : List ℕ) (v : Value) (fs : List Field)
    (tail : List ℕ) (p : Parser)
    (here : At p body before (encode_field (k, v) ++ (encode_fields fs ++ tail))) (fits : Fits v)
    (small : p.rpos + length (encode_field (k, v)) < 2 ^ 64) where
  hit-Scanned :
      same key (stored k) ≡ true
      → Scanned key body before
          ((k, v) ∷ fs)
          tail
          p.wpos
          (true, record (past p (k, v)) { key = p.rpos + 1 })
  hit-Scanned hit =
      let at = past-At p body before k v (encode_fields fs ++ tail) here fits small in
      let shown = behind_key p body before k v (encode_fields fs ++ tail) here fits small in
      record {
        taken = (k, v) ∷ [];
        left = fs;
        split = refl;
        stands = record { body_is = at.body_is; place = at.place; bytes = at.bytes };
        end = refl;
        verdict = rw (lookup_hit key k v fs hit) (
          refl,
          (
            p.rpos + length (encode_key k),
            encode_fields fs ++ tail,
            refl,
            rw here.body_is at shown,
          ),
        );
      }

  miss-Scanned :
      {r : Bool × Parser}
      → same key (stored k) ≡ false
      → Scanned key body (before ++ (k, v) ∷ []) fs tail p.wpos r
      → Scanned key body before ((k, v) ∷ fs) tail p.wpos r
  miss-Scanned miss s = record {
    taken = (k, v) ∷ s.taken;
    left = s.left;
    split = ap (◌∷◌ (k, v)) s.split;
    stands = rw append_assoc at s.stands;
    end = s.end;
    verdict = rw (lookup_miss key k v fs miss) s.verdict;
  }

  step_lem :
      (fuel limit : ℕ)
      → p.rpos < limit
      → find_until (suc fuel) limit key p ≡ (
          if same key (stored k)
          then ok (true, record (past p (k, v)) { key = p.rpos + 1 })
          else find_until fuel limit key (past p (k, v)))
  unfolding find_until
  step_lem fuel limit lt = rw (
    lt→ltb p.rpos limit lt,
    skip_entry_lem p body before k v (encode_fields fs ++ tail) here fits small,
    same_key_lem key k p.body _ p.rpos
        (after_length p body before k v (encode_fields fs ++ tail) here fits small),
  )

done_lem :
    (fuel limit : ℕ) (key : List ℕ) (p : Parser)
    → limit ≤ p.rpos
    → find_until (suc fuel) limit key p ≡ ok (false, p)
unfolding find_until
done_lem fuel limit key p h = rw (le→ltb p.rpos limit h)

nil-Scanned :
    (key body : List ℕ) (before : List Field) (tail : List ℕ) (p : Parser)
    → At p body before (encode_fields [] ++ tail)
    → Scanned key body before [] tail p.wpos (false, p)
unfolding lookup
nil-Scanned key body before tail p here = record {
  taken = [];
  left = [];
  split = refl;
  stands = rw append-nil here;
  end = refl;
  verdict = refl;
}

pub find_until-Scanned :
    (ahead : List Field) (fuel limit : ℕ) (key body : List ℕ) (p : Parser) (before : List Field)
    (tail : List ℕ)
    → At p body before (encode_fields ahead ++ tail)
    → limit ≡ p.rpos + length (encode_fields ahead)
    → limit < 2 ^ 64
    → All (λ f. Fits f.1) ahead
    → length ahead < fuel
    → Yields (Scanned key body before ahead tail p.wpos) (find_until fuel limit key p)
find_until-Scanned ahead zero limit key body p before tail here e small fits enough =
    absurd (omega arith)
find_until-Scanned [] (suc fuel) limit key body p before tail here e small fits enough =
    rw (done_lem fuel limit key p (unfold encode_fields in omega arith))
      (yields (nil-Scanned key body before tail p here))
find_until-Scanned ((k, v) ∷ fs) (suc fuel) limit key body p before tail here e small fits enough =
    let split_size : length (encode_fields ((k, v) ∷ fs))
        ≡ length (encode_field (k, v)) + length (encode_fields fs) =
      unfold encode_fields in length-append (encode_field (k, v)) (encode_fields fs) in
    let some_bytes : 9 ≤ length (encode_field (k, v)) =
      omega (arith, length-append (encode_key k) (encode v), encode_nonempty v) in
    let here' : At p body before (encode_field (k, v) ++ (encode_fields fs ++ tail)) = record {
      body_is = here.body_is;
      place = here.place;
      bytes =
          here.bytes
          ∙ unfold encode_fields in
            ap (λ l. encode_fields before ++ l)
              (append_assoc (encode_field (k, v)) (encode_fields fs) tail);
    } in
    let room : p.rpos + length (encode_field (k, v)) < 2 ^ 64 = omega arith in
    rw (step_lem key body before k v fs tail p here' fits.0 room fuel limit (omega arith))
      (elim (Bool-cases (same key (stored k))) [
        | inl hit ↦
            rw hit (yields (hit-Scanned key body before k v fs tail p here' fits.0 room hit))
        | inr miss ↦ rw miss (
            Yields-imp (λ r. miss-Scanned key body before k v fs tail p here' fits.0 room miss)
              (find_until-Scanned fs fuel limit key body (past p (k, v)) (before ++ (k, v) ∷ [])
                tail (past-At p body before k v (encode_fields fs ++ tail) here' fits.0 room)
                (omega arith) small fits.1 (omega arith)))
      ])
