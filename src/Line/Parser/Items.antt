-- ===== src/Line/Parser/Items.antt =====
-- src/xnet/xline.h: `xl_list_next` walks through a list, whose items have no keys.
use wenas.Base.{
  ℕ, ◌+◌, ◌^◌, ◌%◌, ◌<◌, ◌≤◌, ◌≡◌, refl, sym, ap, ◌∙◌, List, [], ◌∷◌, ◌++◌, Option, none, some,
  Yields, yields, length, drop, drop-drop, drop-append, arith, append_assoc, append-nil,
  length-append, All, All-append, lt→ltb, le→ltb,
}
use wenas.Line.Value.{Value, Fits, encode, sizeof_line-encode, encode_nonempty}
use wenas.Line.Parser.{Parser, list_next}

-- The bytes of a list of values.
abbrev pub encode_items : List Value → List ℕ
encode_items [] = []
encode_items (v ∷ vs) = encode v ++ encode_items vs

encode_items-append :
    (vs ws : List Value) → encode_items (vs ++ ws) ≡ encode_items vs ++ encode_items ws
encode_items-append [] ws = refl
encode_items-append (v ∷ vs) ws =
    ap (λ l. encode v ++ l) (encode_items-append vs ws)
    ∙ sym (append_assoc (encode v) (encode_items vs) (encode_items ws))

-- The parser of a list with the items `vs`, between two of them.
pub record Walks (vs : List Value) (rest : List ℕ) (p : Parser) : Type 0 where
  pub passed : List Value
  pub ahead : List Value
  pub split : vs ≡ passed ++ ahead
  pub place : p.rpos ≡ length (encode_items passed)
  pub bytes : drop p.rpos p.body ≡ encode_items ahead ++ rest
  pub end : p.wpos ≡ length (encode_items vs)

-- What `xl_list_next` returns between two items.
abbrev pub Item : List Value → List ℕ → List Value → List Value → Option ℕ × Parser → Type 0
Item vs rest passed [] r = (r.0 ≡ none) × Walks vs rest r.1
Item vs rest passed (v ∷ ahead) r =
    (at : ℕ) × (r.0 ≡ some at)
    × ((tail : List ℕ) × (drop at r.1.body ≡ encode v ++ tail))
    × ((q : Walks vs rest r.1) × (q.passed ≡ passed ++ v ∷ []) × (q.ahead ≡ ahead))

list_next-Item_from :
    (vs : List Value) (rest : List ℕ) (p : Parser) (passed ahead : List Value)
    → vs ≡ passed ++ ahead
    → p.rpos ≡ length (encode_items passed)
    → drop p.rpos p.body ≡ encode_items ahead ++ rest
    → p.wpos ≡ length (encode_items vs)
    → All Fits ahead
    → length (encode_items vs) < 2 ^ 64
    → Yields (Item vs rest passed ahead) (list_next p)
unfolding list_next
list_next-Item_from vs rest p passed [] e place bytes end fits small =
    let done : p.wpos ≤ p.rpos =
      omega (arith, place, end, ap (λ l. length (encode_items l)) (e ∙ append-nil passed)) in
    rw (le→ltb p.rpos p.wpos done) (
      yields (
        refl,
        record { passed = passed; ahead = []; split = e; place = place; bytes = bytes; end = end },
      ))
list_next-Item_from vs rest p passed (v ∷ ahead) e place bytes end fits small =
    let tail = encode_items ahead ++ rest in
    let here : drop p.rpos p.body ≡ encode v ++ tail =
      bytes ∙ append_assoc (encode v) (encode_items ahead) rest in
    let whole : length (encode_items vs)
        ≡ length (encode_items passed) + length (encode v) + length (encode_items ahead) =
      ap (λ l. length (encode_items l)) e
      ∙ ap length (encode_items-append passed (v ∷ ahead))
      ∙ omega (
        arith,
        length-append (encode_items passed) (encode v ++ encode_items ahead),
        length-append (encode v) (encode_items ahead),
      ) in
    let step : (p.rpos + length (encode v)) % 2 ^ 64 ≡ p.rpos + length (encode v) =
      omega (arith, whole, place) in
    let longer : length (encode_items (passed ++ v ∷ []))
        ≡ length (encode_items passed) + length (encode v) =
      ap length (encode_items-append passed (v ∷ []))
      ∙ omega (
        arith,
        length-append (encode_items passed) (encode v ++ []),
        length-append (encode v) [],
      ) in
    rw
      (
        lt→ltb p.rpos p.wpos (omega (arith, whole, place, end, encode_nonempty v)),
        here,
        sizeof_line-encode v tail fits.0,
        step,
      )
      (yields (
        p.rpos,
        refl,
        (tail, here),
        (
          record {
            passed = passed ++ v ∷ [];
            ahead = ahead;
            split = e ∙ sym (append_assoc passed (v ∷ []) ahead);
            place = omega (arith, longer, place);
            bytes =
                sym (drop-drop p.rpos (length (encode v)) p.body)
                ∙ ap (drop (length (encode v))) here
                ∙ drop-append (length (encode v)) (encode v) tail refl;
            end = end;
          },
          refl,
          refl,
        ),
      ))

-- In a list whose items fit the format, of fewer than 2 ^ 64 bytes, from between two items,
-- `xl_list_next` returns the next one and stands behind it; behind the last it returns NULL.
pub list_next-Item :
    (vs : List Value) (rest : List ℕ) (p : Parser) (w : Walks vs rest p)
    → All Fits vs
    → length (encode_items vs) < 2 ^ 64
    → Yields (Item vs rest w.passed w.ahead) (list_next p)
list_next-Item vs rest p w fits small =
    list_next-Item_from vs rest p w.passed w.ahead w.split w.place w.bytes w.end
      (All-append Fits w.passed w.ahead (rw w.split at fits)).1 small
