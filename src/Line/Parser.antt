-- ===== src/Line/Parser.antt =====
-- src/xnet/xline.h: `struct xparser`, which reads an object or a list.
pub mod Entry
pub mod Scan
pub mod Find
pub mod Next
pub mod Items
pub mod Words
pub mod Limits
use wenas.Base.{
  ℕ, zero, suc, ◌+◌, Bool, true, false, List, [], ◌∷◌, ◌++◌, Option, none, some, Run, ok, fault,
  out_of_fuel, or_fault, ◌>>=◌, length, drop, get_elem?, splice, ltb, leb, ◌==◌, add64,
  if◌then◌else◌,
}
use wenas.Line.{little, n2b, b2n, sizeof_line, sizeof_body, type_uint}

-- `ptr` points to `body`, the bytes behind the line; `key` and `val` are places in it. NULL is
-- `none` for `val`; `key` is not read before it is set.
pub record Parser : Type 0 where
  pub rpos : ℕ
  pub wpos : ℕ
  pub key : ℕ
  pub val : Option ℕ
  pub body : List ℕ

-- `xl_parser`
unfoldable pub parser : List ℕ → Run Parser
parser xl = do
  n ← sizeof_body xl
  ok (record { rpos = 0; wpos = n; key = 0; val = none; body = drop 9 xl })

-- `xl_list_next`
unfoldable pub list_next : Parser → Run (Option ℕ × Parser)
list_next p =
    if ltb p.rpos p.wpos
    then (do
      n ← sizeof_line (drop p.rpos p.body)
      ok (some p.rpos, record p { rpos = add64 p.rpos n }))
    else ok (none, p)

-- The key and the size of the entry at `rpos`: what the loops below read of it.
unfoldable pub skip_entry : Parser → Run (ℕ × Parser)
skip_entry p = do
  len ← or_fault (get_elem? p.body p.rpos)
  let val = add64 p.rpos (len + 1)
  n ← sizeof_line (drop val p.body)
  ok (len, record p { key = p.rpos; rpos = add64 val n; val = some val })

-- `xl_next`. It leaves `val` alone, and `key` behind the length byte.
unfoldable pub next : Parser → Run (Option ℕ × Parser)
next p =
    if ltb p.rpos p.wpos
    then (do (len, q) ← skip_entry p; ok (q.val, record q { key = p.rpos + 1; val = p.val }))
    else ok (none, p)

-- `mcompare` (src/xnet/xmalloc.c): the two bytes whose difference it returns, both 0 for no bytes.
unfoldable pub mcompare : List ℕ → List ℕ → ℕ → Run (ℕ × ℕ)
mcompare s1 s2 zero = ok (0, 0)
mcompare (a ∷ s1) (b ∷ s2) (suc zero) = ok (a, b)
mcompare (a ∷ s1) (b ∷ s2) (suc (suc n)) =
    let rest = mcompare s1 s2 (suc n) in if a == b then rest else ok (a, b)
mcompare s1 s2 n = fault

-- `slength(key) + 1 == parser->key[0] && mcompare(key, parser->key + 1, parser->key[0]) == 0`
unfoldable pub same_key : List ℕ → List ℕ → ℕ → ℕ → Run Bool
same_key key body at len =
    if length key + 1 == len
    then (do (a, b) ← mcompare (key ++ 0 ∷ []) (drop (at + 1) body) len; ok (a == b))
    else ok false

-- Either loop of `xl_find`, up to `limit`, on fuel. The flag says that it returned.
unfoldable pub find_until : ℕ → ℕ → List ℕ → Parser → Run (Bool × Parser)
find_until zero limit key p = out_of_fuel
find_until (suc fuel) limit key p =
    let turn : Run (Bool × Parser) = do
      (len, q) ← skip_entry p
      hit ← same_key key q.body q.key len
      let more = find_until fuel limit key q
      if hit then ok (true, record q { key = q.key + 1 }) else more
    in if ltb p.rpos limit then turn else ok (false, p)

-- `xl_find`: from `rpos` to the end, and then from the start to where `rpos` was. Its result is
-- the parser's `val`.
unfoldable pub find : ℕ → Parser → List ℕ → Run Parser
find fuel p key = do
  (hit, q) ← find_until fuel p.wpos key p
  let again : Run Parser = do
    (hit', r) ← find_until fuel p.rpos key (record q { rpos = 0 })
    ok (if hit' then r else record r { val = none })
  if hit then ok q else again

-- `xl_find_int`, `xl_find_uint`, `xl_find_float` and `xl_find_ptr`: the bits of the number, if the
-- key is there. (No one looks at the type.)
unfoldable pub number_at : Parser → Option ℕ → Run (Option ℕ × Parser)
number_at q none = ok (none, q)
number_at q (some at) = do n ← b2n little (drop at q.body); ok (some n, q)

unfoldable pub find_number : ℕ → Parser → List ℕ → Run (Option ℕ × Parser)
find_number fuel p key = do q ← find fuel p key; number_at q q.val

-- `xl_find_word`: where the value's bytes begin.
unfoldable pub find_word : ℕ → Parser → List ℕ → Run (Option ℕ × Parser)
find_word fuel p key = do
  q ← find fuel p key
  ok (elim q.val [ none ↦ none | some at ↦ some (at + 9) ], q)

-- `xl_set_value`: a number is written over the nine bytes of the line that was found.
unfoldable pub set_at : Parser → Option ℕ → ℕ → Run Parser
set_at q none nb = ok q
set_at q (some at) nb =
    if leb (at + 9) (length q.body)
    then ok (record q { body = splice q.body at (n2b little nb type_uint) })
    else fault

unfoldable pub set_value : ℕ → Parser → List ℕ → ℕ → Run Parser
set_value fuel p key nb = do q ← find fuel p key; set_at q q.val nb
