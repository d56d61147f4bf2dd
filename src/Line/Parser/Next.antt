-- ===== src/Line/Parser/Next.antt =====
-- src/xnet/xline.h: `xl_next` walks through an object.
use wenas.Base.{
  ℕ, ◌+◌, ◌^◌, ◌<◌, ◌≤◌, ◌≡◌, refl, sym, ap, ◌∙◌, List, [], ◌∷◌, ◌++◌, Option, none, some, Yields,
  yields, length, drop, arith, append_assoc, append-nil, length-append, All, All-append, lt→ltb,
  le→ltb,
}
use wenas.Line.Value.{
  Field, Fits, encode, encode_key, encode_field, encode_fields, stored, encode_nonempty,
}
use wenas.Line.Parser.{Parser, next}
use wenas.Line.Parser.Entry.{
  At, behind_key, after_length, skip_entry_lem, past-At, encode_fields-append,
}
use wenas.Line.Parser.Find.{Reads}

-- What `xl_next` returns between two entries: the next one's value and key, and it stands behind
-- it; or NULL behind the last.
abbrev pub Nexts : List Field → List ℕ → List Field → List Field → Option ℕ × Parser → Type 0
Nexts fs rest passed [] r = (r.0 ≡ none) × Reads fs rest r.1
Nexts fs rest passed ((k, v) ∷ ahead) r =
    (at : ℕ) × (r.0 ≡ some at)
    × ((tail : List ℕ) × (drop at r.1.body ≡ encode v ++ tail)
        × (drop r.1.key r.1.body ≡ stored k ++ (0 ∷ (encode v ++ tail))))
    × ((q : Reads fs rest r.1) × (q.passed ≡ passed ++ (k, v) ∷ []) × (q.ahead ≡ ahead))

cons_bytes :
    (f : Field) (fs : List Field) (rest : List ℕ)
    → encode_fields (f ∷ fs) ++ rest ≡ encode_field f ++ (encode_fields fs ++ rest)
unfolding encode_fields
cons_bytes f fs rest = append_assoc (encode_field f) (encode_fields fs) rest

sizes :
    (fs : List Field) (g : Field) (gs : List Field)
    → length (encode_fields (fs ++ g ∷ gs))
      ≡ length (encode_fields fs) + length (encode_field g) + length (encode_fields gs)
sizes fs g gs =
    ap length (encode_fields-append fs (g ∷ gs))
    ∙ length-append (encode_fields fs) (encode_fields (g ∷ gs))
    ∙ unfold encode_fields in omega (arith, length-append (encode_field g) (encode_fields gs))

next-Nexts_from :
    (fs : List Field) (rest : List ℕ) (p : Parser) (passed ahead : List Field)
    → fs ≡ passed ++ ahead
    → At p (encode_fields fs ++ rest) passed (encode_fields ahead ++ rest)
    → p.wpos ≡ length (encode_fields fs)
    → All (λ f. Fits f.1) ahead
    → length (encode_fields fs) < 2 ^ 64
    → Yields (Nexts fs rest passed ahead) (next p)
unfolding next
next-Nexts_from fs rest p passed [] e here end fits small =
    let done : p.wpos ≤ p.rpos =
      omega (arith, here.place, end, ap (λ l. length (encode_fields l)) (e ∙ append-nil passed)) in
    rw (le→ltb p.rpos p.wpos done)
      (yields (refl, record { passed = passed; ahead = []; split = e; stands = here; end = end }))
next-Nexts_from fs rest p passed ((k, v) ∷ ahead) e here end fits small =
    let tail = encode_fields ahead ++ rest in
    let here' : At p (encode_fields fs ++ rest) passed (encode_field (k, v) ++ tail) = record {
      body_is = here.body_is;
      place = here.place;
      bytes = here.bytes ∙ ap (λ l. encode_fields passed ++ l) (cons_bytes (k, v) ahead rest);
    } in
    let whole : length (encode_fields fs)
        ≡ length (encode_fields passed)
          + length (encode_field (k, v))
          + length (encode_fields ahead) =
      ap (λ l. length (encode_fields l)) e ∙ sizes passed (k, v) ahead in
    let room : p.rpos + length (encode_field (k, v)) < 2 ^ 64 = omega (arith, whole, here.place) in
    let some_bytes : 9 ≤ length (encode_field (k, v)) =
      omega (arith, length-append (encode_key k) (encode v), encode_nonempty v) in
    let at = past-At p (encode_fields fs ++ rest) passed k v tail here' fits.0 room in
    let shown = behind_key p (encode_fields fs ++ rest) passed k v tail here' fits.0 room in
    let named = after_length p (encode_fields fs ++ rest) passed k v tail here' fits.0 room in
    rw
      (
        lt→ltb p.rpos p.wpos (omega (arith, whole, here.place, end)),
        skip_entry_lem p (encode_fields fs ++ rest) passed k v tail here' fits.0 room,
      )
      (yields (
        p.rpos + length (encode_key k),
        refl,
        (tail, shown, named),
        (
          record {
            passed = passed ++ (k, v) ∷ [];
            ahead = ahead;
            split = e ∙ sym (append_assoc passed ((k, v) ∷ []) ahead);
            stands = record { body_is = at.body_is; place = at.place; bytes = at.bytes };
            end = end;
          },
          refl,
          refl,
        ),
      ))

-- In an object whose values fit the format, of fewer than 2 ^ 64 bytes, from between two entries,
-- `xl_next` gives the next entry, its value and its key, and stands behind it; behind the last it
-- gives NULL.
pub next-Nexts :
    (fs : List Field) (rest : List ℕ) (p : Parser) (r : Reads fs rest p)
    → All (λ f. Fits f.1) fs
    → length (encode_fields fs) < 2 ^ 64
    → Yields (Nexts fs rest r.passed r.ahead) (next p)
next-Nexts fs rest p r fits small =
    next-Nexts_from fs rest p r.passed r.ahead r.split r.stands r.end
      (All-append (λ f. Fits f.1) r.passed r.ahead (rw r.split at fits)).1 small
