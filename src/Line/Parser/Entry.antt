-- ===== src/Line/Parser/Entry.antt =====
-- src/xnet/xline.h: what the parser reads of one entry.
use wenas.Base.{
  ℕ, zero, suc, ◌+◌, ◌^◌, ◌%◌, ◌<◌, ◌≡◌, ◌≢◌, refl, sym, ap, ◌∙◌, Bool, true, false, ◌&&◌, List, [],
  ◌∷◌, ◌++◌, some, ok, ◌>>=◌, length, drop, get_elem?, ◌==◌, arith, append_assoc, append-nil,
  length-append, drop-drop, drop-append, Bool-cases, inl, inr,
}
use wenas.Line.Value.{
  Value, Field, Fits, encode, encode_key, encode_field, encode_fields, stored, sizeof_line-encode,
}
use wenas.Line.Parser.{Parser, skip_entry, mcompare, same_key}

-- Two byte strings are the same.
unfoldable pub same : List ℕ → List ℕ → Bool
same [] [] = true
same (a ∷ xs) (b ∷ ys) = (a == b) && same xs ys
same _ _ = false

mcompare_lem :
    (xs ys rest : List ℕ)
    → length xs ≡ length ys
    → (mcompare (xs ++ 0 ∷ []) (ys ++ (0 ∷ rest)) (suc (length xs)) >>= λ p. ok (p.0 == p.1))
      ≡ ok (same xs ys)
unfolding mcompare same
mcompare_lem [] [] rest e = refl
mcompare_lem (x ∷ xs) (y ∷ ys) rest e = ground (arith, mcompare_lem xs ys rest (omega arith))
mcompare_lem [] (y ∷ ys) rest e = absurd (omega arith)
mcompare_lem (x ∷ xs) [] rest e = absurd (omega arith)

same-length : (xs ys : List ℕ) → length xs ≢ length ys → same xs ys ≡ false
unfolding same
same-length [] [] h = absurd (h refl)
same-length [] (y ∷ ys) h = refl
same-length (x ∷ xs) [] h = refl
same-length (x ∷ xs) (y ∷ ys) h = ground (arith, same-length xs ys (λ e. h (ap suc e)))

pub same→eq : (xs ys : List ℕ) → same xs ys ≡ true → xs ≡ ys
unfolding same
same→eq [] [] h = refl
same→eq [] (y ∷ ys) h = cc
same→eq (x ∷ xs) [] h = cc
same→eq (x ∷ xs) (y ∷ ys) h = ground (arith, same→eq xs ys)

pub same_refl : (xs : List ℕ) → same xs xs ≡ true
unfolding same
same_refl [] = refl
same_refl (x ∷ xs) = ground (arith, same_refl xs)

-- Against an entry's key the code's comparison says whether the keys are the same.
pub same_key_lem :
    (key k body rest : List ℕ) (at : ℕ)
    → drop (at + 1) body ≡ stored k ++ (0 ∷ rest)
    → same_key key body at (length (stored k) + 1) ≡ ok (same key (stored k))
unfolding same_key
same_key_lem key k body rest at e = elim (Bool-cases (length key + 1 == length (stored k) + 1)) [
  | inl equal ↦
      let as_long : length (stored k) + 1 ≡ suc (length key) = ground arith in
      rw (equal, e, as_long) (mcompare_lem key (stored k) rest (omega arith))
  | inr differ ↦ rw (differ, same-length key (stored k) (ground arith))
]

-- The parser stands in front of `here`, with that much of the body behind it.
pub record At (p : Parser) (body : List ℕ) (before : List Field) (here : List ℕ) : Type 0 where
  pub body_is : p.body ≡ body
  pub place : p.rpos ≡ length (encode_fields before)
  pub bytes : body ≡ encode_fields before ++ here

pub encode_fields-append :
    (fs gs : List Field) → encode_fields (fs ++ gs) ≡ encode_fields fs ++ encode_fields gs
unfolding encode_fields
encode_fields-append [] gs = refl
encode_fields-append (f ∷ fs) gs =
    ap (λ l. encode_field f ++ l) (encode_fields-append fs gs)
    ∙ sym (append_assoc (encode_field f) (encode_fields fs) (encode_fields gs))

encode_fields_last :
    (fs : List Field) (f : Field)
    → encode_fields (fs ++ f ∷ []) ≡ encode_fields fs ++ encode_field f
unfolding encode_fields
encode_fields_last fs f =
    encode_fields-append fs (f ∷ []) ∙ ap (λ l. encode_fields fs ++ l) (append-nil (encode_field f))

pub get_elem?-drop : (n : ℕ) (xs : List ℕ) → get_elem? (drop n xs) 0 ≡ get_elem? xs n
get_elem?-drop zero xs = refl
get_elem?-drop (suc n) [] = refl
get_elem?-drop (suc n) (x ∷ xs) = get_elem?-drop n xs

-- The parser after the entry, as `skip_entry` leaves it.
abbrev pub past : Parser → Field → Parser
past p (k, v) = record p {
  key = p.rpos;
  rpos = p.rpos + length (encode_field (k, v));
  val = some (p.rpos + length (encode_key k));
}

module _ (p : Parser) (body : List ℕ) (before : List Field) (k : List ℕ) (v : Value) (tail : List ℕ)
    (here : At p body before (encode_field (k, v) ++ tail)) (fits : Fits v)
    (small : p.rpos + length (encode_field (k, v)) < 2 ^ 64) where
  in_front : drop p.rpos p.body ≡ encode_key k ++ (encode v ++ tail)
  in_front =
      rw (here.body_is, here.bytes) (drop-append p.rpos (encode_fields before) _ (sym here.place))
      ∙ append_assoc (encode_key k) (encode v) tail

  pub behind_key : drop (p.rpos + length (encode_key k)) p.body ≡ encode v ++ tail
  behind_key =
      sym (drop-drop p.rpos (length (encode_key k)) p.body)
      ∙ ap (drop (length (encode_key k))) in_front
      ∙ drop-append (length (encode_key k)) (encode_key k) (encode v ++ tail) refl

  pub after_length : drop (p.rpos + 1) p.body ≡ stored k ++ (0 ∷ (encode v ++ tail))
  unfolding encode_key
  after_length =
      sym (drop-drop p.rpos 1 p.body)
      ∙ ap (drop 1) in_front
      ∙ append_assoc (stored k) (0 ∷ []) (encode v ++ tail)

  key_size : length (encode_key k) ≡ length (stored k) + 1 + 1
  unfolding encode_key
  key_size = omega (arith, length-append (stored k) (0 ∷ []))

  length_byte : get_elem? p.body p.rpos ≡ some (length (stored k) + 1)
  unfolding encode_key
  length_byte =
      ap (λ (n : ℕ). get_elem? p.body n) (omega arith)
      ∙ sym (get_elem?-drop p.rpos p.body)
      ∙ ap (λ l. get_elem? l 0) in_front

  pub skip_entry_lem : skip_entry p ≡ ok (length (stored k) + 1, past p (k, v))
  unfolding skip_entry
  skip_entry_lem =
      let whole = length-append (encode_key k) (encode v) in
      let value : (p.rpos + (length (stored k) + 1 + 1)) % 2 ^ 64 ≡ p.rpos + length (encode_key k) =
        omega (arith, key_size, whole) in
      let after : (p.rpos + length (encode_key k) + length (encode v)) % 2 ^ 64
          ≡ p.rpos + length (encode_field (k, v)) =
        omega (arith, whole) in
      rw (length_byte, value, behind_key, sizeof_line-encode v tail fits, after)

  pub past-At : At (past p (k, v)) body (before ++ (k, v) ∷ []) tail
  past-At = record {
    body_is = here.body_is;
    place =
        ap (λ (n : ℕ). n + length (encode_field (k, v))) here.place
        ∙ sym (length-append (encode_fields before) (encode_field (k, v)))
        ∙ ap length (sym (encode_fields_last before (k, v)));
    bytes =
        here.bytes
        ∙ sym (append_assoc (encode_fields before) (encode_field (k, v)) tail)
        ∙ ap (λ l. l ++ tail) (sym (encode_fields_last before (k, v)));
  }
