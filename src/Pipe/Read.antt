-- ===== src/Pipe/Read.antt =====
-- src/xnet/xpipe.h: `__xpipe_read` takes bytes out of the queue.
use wenas.Base.{
  ℕ, zero, suc, ◌+◌, ◌-◌, ◌%◌, ◌≤◌, ◌<◌, min, List, [], ◌++◌, ◌≡◌, refl, sym, ap, ◌∙◌, length,
  add64, sub64, window, length-window, arith, ok, Yields, yields, ◌>>=◌, take, drop, length-take_le,
  length-drop, length-append, get_or, get_or-take, get_or-drop, get_or-append_left,
  get_or-append_right, place_cases, window_is, window-add, window_round, true, false, ltb, leb,
  if◌then◌else◌, Bool-cases, inl, inr, leb→le, leb→gt, lt→ltb, ltb→lt, ltb→ge,
}
use native.Mathlib.Nat.{mod-lt}
use wenas.Pipe.{Pipe, copy_from, copy_out, read}
use wenas.Pipe.Valid.{IsValid, contents, len_pos, len_small, place_mask, wrapped}

module _ (p : Pipe) (v : IsValid p) (n : ℕ) (few : n ≤ p.len) where
  abbrev from : ℕ
  from = p.reader % p.len

  from_lt : from < p.len
  from_lt = mod-lt p.reader (len_pos p v)

  straight : from + n ≤ p.len → window p.len p.buf p.reader n ≡ take n (drop from p.buf)
  straight h =
      window_is p.len p.buf p.reader n (take n (drop from p.buf))
        (length-take_le n (drop from p.buf) (omega (arith, length-drop from p.buf, v.sized)))
        λ i lt. elim (place_cases p.len p.reader i (len_pos p v) (omega arith)) [
          | inl (inside, e) ↦
              ap (λ k. get_or p.buf k 0) e
              ∙ sym (get_or-take n (drop from p.buf) i 0 lt ∙ get_or-drop from p.buf i 0)
          | inr (beyond, e) ↦ absurd (omega arith)
        ]

  abbrev front : List ℕ
  front = take (p.len - from) (drop from p.buf)

  abbrev back : List ℕ
  back = take (n - (p.len - from)) p.buf

  length-front : length front ≡ p.len - from
  length-front =
      length-take_le (p.len - from) (drop from p.buf)
        (omega (arith, length-drop from p.buf, v.sized))

  folded : p.len ≤ from + n → window p.len p.buf p.reader n ≡ front ++ back
  folded h =
      window_is p.len p.buf p.reader n (front ++ back)
        (omega (
          arith,
          length-append front back,
          length-front,
          length-take_le (n - (p.len - from)) p.buf (omega (arith, v.sized)),
          from_lt,
        ))
        λ i lt. elim (place_cases p.len p.reader i (len_pos p v) (omega arith)) [
          | inl (inside, e) ↦
              ap (λ k. get_or p.buf k 0) e
              ∙ sym (
                  get_or-append_left front back i 0 (omega (arith, length-front))
                  ∙ get_or-take (p.len - from) (drop from p.buf) i 0 (omega arith)
                  ∙ get_or-drop from p.buf i 0)
          | inr (beyond, e) ↦
              ap (λ k. get_or p.buf k 0) (e ∙ omega (arith, length-front, from_lt))
              ∙ sym (
                  get_or-append_right front back i 0 (omega (arith, length-front))
                  ∙ get_or-take (n - (p.len - from)) p.buf (i - length front) 0
                      (omega (arith, length-front, from_lt)))
        ]

  pub copy_out_lem : copy_out p n ≡ ok (window p.len p.buf p.reader n)
  unfolding copy_out copy_from
  copy_out_lem =
      let left : sub64 p.len from ≡ p.len - from = omega (arith, from_lt, len_small p v) in
      rw (place_mask p v p.reader v.small_reader, left)
        (elim (Bool-cases (leb n (p.len - from))) [
          | inl whole ↦
              let fits : leb (from + n) (length p.buf) ≡ true = ground (arith, v.sized, from_lt) in
              rw (whole, fits)
                (ap ok (sym (straight (omega (arith, leb→le n (p.len - from) whole, from_lt)))))
          | inr parts ↦
              let long : p.len - from < n = leb→gt n (p.len - from) parts in
              let more : sub64 n (p.len - from) ≡ n - (p.len - from) =
                omega (arith, len_small p v) in
              let fits : leb (from + (p.len - from)) (length p.buf) ≡ true =
                ground (arith, v.sized, from_lt) in
              let fits' : leb (0 + (n - (p.len - from))) (length p.buf) ≡ true =
                ground (arith, v.sized) in
              rw (parts, fits, more, fits') (ap ok (sym (folded (omega (arith, from_lt)))))
        ])

-- What a read that got the lock leaves: the bytes that it took are gone from the front of the queue,
-- the others are as they were, and so is the ring.
pub record Taken (p : Pipe) (n : ℕ) (r : List ℕ × Pipe) : Type 0 where
  pub valid : IsValid r.1
  pub bytes : r.0 ++ contents r.1 ≡ contents p
  pub count : length r.0 ≡ min n (length (contents p))
  pub same : r.1.buf ≡ p.buf
  pub unlocked : r.1.rlock ≡ false
  pub writer : r.1.wlock ≡ p.wlock

module _ (p : Pipe) (v : IsValid p) (n len : ℕ) (e : n ≡ min len (sub64 p.writer p.reader)) where
  moved : sub64 p.writer (add64 p.reader n) ≡ sub64 p.writer p.reader - n
  moved = omega (arith, v.small_writer, v.small_reader)

  split :
      window p.len p.buf p.reader n
        ++ window p.len p.buf (add64 p.reader n) (sub64 p.writer (add64 p.reader n))
      ≡ contents p
  split =
      let rest = sub64 p.writer p.reader - n in
      let whole : n + rest ≡ sub64 p.writer p.reader = omega arith in
      ap (λ k. window p.len p.buf p.reader n ++ window p.len p.buf (add64 p.reader n) k) moved
      ∙ ap (λ l. window p.len p.buf p.reader n ++ l)
          (window_round p.len p.buf (add64 p.reader n) (p.reader + n) rest
            (wrapped p v (p.reader + n)))
      ∙ sym (window-add p.len p.buf p.reader n rest)
      ∙ ap (λ k. window p.len p.buf p.reader k) whole

  Taken-after :
      Taken p len
        (window p.len p.buf p.reader n, record p { reader = add64 p.reader n; rlock = false })
  Taken-after = record {
    valid = record {
      bits = v.bits;
      few = v.few;
      power = v.power;
      sized = v.sized;
      small_writer = v.small_writer;
      small_reader = omega arith;
      filled = omega (arith, moved, v.filled);
    };
    bytes = split;
    count = omega (
      arith,
      length-window p.len p.buf p.reader n,
      length-window p.len p.buf p.reader (sub64 p.writer p.reader),
    );
    same = refl;
    unlocked = refl;
    writer = refl;
  }

-- The count `n` of bytes to read is settled: they are read, or there are none.
load-Taken :
    (p : Pipe) (n len : ℕ)
    → IsValid p
    → n ≡ min len (sub64 p.writer p.reader)
    → Yields (Taken p len) (
        if ltb 0 n
        then (copy_out p n >>= λ bytes.
            ok (bytes, record p { reader = add64 p.reader n; rlock = false }))
        else ok ([], record p { rlock = false }))
load-Taken p zero len v e = yields (record {
  valid = record {
    bits = v.bits;
    few = v.few;
    power = v.power;
    sized = v.sized;
    small_writer = v.small_writer;
    small_reader = v.small_reader;
    filled = v.filled;
  };
  bytes = refl;
  count = omega (arith, length-window p.len p.buf p.reader (sub64 p.writer p.reader));
  same = refl;
  unlocked = refl;
  writer = refl;
})
load-Taken p (suc m) len v e =
    rw (lt→ltb 0 (suc m) (omega arith), copy_out_lem p v (suc m) (omega (arith, v.filled)))
      (yields (Taken-after p v (suc m) len e))

-- On a pipe in order whose read lock is free, `__xpipe_read` stays inside the ring and returns the
-- oldest bytes of the queue, as many as were asked for or as there are; they leave the queue and
-- the others stay.
pub read-Taken :
    (p : Pipe) (len : ℕ) → IsValid p → p.rlock ≡ false → Yields (Taken p len) (read p len)
unfolding read
read-Taken p len v free = simp free (elim (Bool-cases (ltb len (sub64 p.writer p.reader))) [
  | inl less ↦
      rw less (load-Taken p len len v (omega (arith, ltb→lt len (sub64 p.writer p.reader) less)))
  | inr all ↦ rw all (
      load-Taken p (sub64 p.writer p.reader) len v
        (omega (arith, ltb→ge len (sub64 p.writer p.reader) all)))
])
