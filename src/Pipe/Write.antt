-- ===== src/Pipe/Write.antt =====
-- src/xnet/xpipe.h: `__xpipe_write` puts bytes behind the queue.
use wenas.Base.{
  ℕ, zero, suc, ◌+◌, ◌-◌, ◌%◌, ◌≤◌, ◌<◌, min, List, ◌++◌, ◌≡◌, refl, sym, ap, ◌∙◌, length, add64,
  sub64, window, length-window, arith, ok, Yields, yields, Yields-bind, append-nil, ◌>>=◌, take,
  length-take_le, get_or, get_or-take, window_is, window_cong, window-add, window_round, false, ltb,
  if◌then◌else◌, Bool-cases, inl, inr, lt→ltb, ltb→lt, ltb→ge,
}
use native.Mathlib.Nat.{mod-add-mod, add-mod_right}
use wenas.Pipe.{Pipe, copy_in, write}
use wenas.Pipe.Valid.{IsValid, contents, len_small, wrapped}
use wenas.Pipe.Ring.{Put, copy_in-Put}

-- What a write of `len` of `bytes` that got the lock leaves: as many as there was room for stand
-- behind the queue, and the reader's side is as it was.
pub record Written (p : Pipe) (bytes : List ℕ) (len : ℕ) (r : ℕ × Pipe) : Type 0 where
  pub valid : IsValid r.1
  pub queue : contents r.1 ≡ contents p ++ take r.0 bytes
  pub count : r.0 ≡ min len (p.len - length (contents p))
  pub unlocked : r.1.wlock ≡ false
  pub reader : (r.1.reader ≡ p.reader) × (r.1.rlock ≡ p.rlock)

module _ (p : Pipe) (v : IsValid p) (bytes : List ℕ) (n len : ℕ) (given : n ≤ length bytes)
    (e : n ≡ min len (p.len - sub64 p.writer p.reader)) where
  abbrev filled : ℕ
  filled = sub64 p.writer p.reader

  meets : (p.reader + filled) % p.len ≡ p.writer % p.len
  meets =
      sym (wrapped p v (p.reader + filled))
      ∙ ap (λ k. k % p.len) (omega (arith, v.small_writer, v.small_reader))

  -- Where a byte of the queue lies, counted from the writer round the ring.
  round : (i : ℕ) → i < filled → (p.reader + i) % p.len ≡ (p.writer + (p.len - filled + i)) % p.len
  round i lt =
      sym (add-mod_right (p.reader + i) p.len)
      ∙ ap (λ k. k % p.len) (omega (arith, v.filled))
      ∙ sym (mod-add-mod (p.reader + filled) p.len (p.len - filled + i))
      ∙ ap (λ k. (k + (p.len - filled + i)) % p.len) meets
      ∙ mod-add-mod p.writer p.len (p.len - filled + i)

  queue_lem :
      (b : List ℕ)
      → Put p bytes n b
      → window p.len b p.reader (filled + n) ≡ window p.len p.buf p.reader filled ++ take n bytes
  queue_lem b put =
      let front : window p.len b p.reader filled ≡ window p.len p.buf p.reader filled =
        window_cong p.len b p.buf p.reader p.reader filled λ i lt.
          ap (λ k. get_or b k 0) (round i lt)
          ∙ put.old (p.len - filled + i) (omega arith) (omega (arith, v.filled))
          ∙ ap (λ k. get_or p.buf k 0) (sym (round i lt)) in
      let back : window p.len b (p.reader + filled) n ≡ take n bytes =
        window_round p.len b (p.reader + filled) p.writer n meets
        ∙ window_is p.len b p.writer n (take n bytes) (length-take_le n bytes given)
            λ i lt. put.new i lt ∙ sym (get_or-take n bytes i 0 lt) in
      window-add p.len b p.reader filled n
      ∙ ap (λ l. l ++ window p.len b (p.reader + filled) n) front
      ∙ ap (λ l. window p.len p.buf p.reader filled ++ l) back

  advanced : sub64 (add64 p.writer n) p.reader ≡ filled + n
  advanced = omega (arith, v.small_writer, v.small_reader, v.filled, len_small p v)

  Written-after :
      (b : List ℕ)
      → Put p bytes n b
      → Written p bytes len (n, record p { buf = b; writer = add64 p.writer n; wlock = false })
  Written-after b put = record {
    valid = record {
      bits = v.bits;
      few = v.few;
      power = v.power;
      sized = put.sized;
      small_writer = omega arith;
      small_reader = v.small_reader;
      filled = omega (arith, advanced, v.filled);
    };
    queue = ap (λ k. window p.len b p.reader k) advanced ∙ queue_lem b put;
    count = omega (arith, length-window p.len p.buf p.reader filled);
    unlocked = refl;
    reader = (refl, refl);
  }

room_lem :
    (p : Pipe) → IsValid p → add64 (sub64 p.len p.writer) p.reader ≡ p.len - sub64 p.writer p.reader
room_lem p v = omega (arith, v.small_writer, v.small_reader, v.filled, len_small p v)

-- The count `n` of bytes to write is settled: they are written, or there are none.
store-Written :
    (p : Pipe) (bytes : List ℕ) (n len : ℕ)
    → IsValid p
    → n ≤ length bytes
    → n ≡ min len (p.len - sub64 p.writer p.reader)
    → Yields (Written p bytes len) (
        if ltb 0 n
        then (copy_in p bytes n >>= λ b.
            ok (n, record p { buf = b; writer = add64 p.writer n; wlock = false }))
        else ok (n, record p { wlock = false }))
store-Written p bytes zero len v given e = yields (record {
  valid = record {
    bits = v.bits;
    few = v.few;
    power = v.power;
    sized = v.sized;
    small_writer = v.small_writer;
    small_reader = v.small_reader;
    filled = v.filled;
  };
  queue = sym (append-nil (contents p));
  count = omega (arith, length-window p.len p.buf p.reader (sub64 p.writer p.reader));
  unlocked = refl;
  reader = (refl, refl);
})
store-Written p bytes (suc m) len v given e = rw (lt→ltb 0 (suc m) (omega arith)) (
    Yields-bind (copy_in-Put p v bytes (suc m) (omega arith) given)
      λ b put. yields (Written-after p v bytes (suc m) len given e b put))

-- On a pipe in order whose write lock is free, with `len` bytes at hand, `__xpipe_write` stays
-- inside the ring and puts the first of them behind the queue, as many as were asked for or as
-- there is room for, and returns how many; the bytes that wait to be read stay.
pub write-Written :
    (p : Pipe) (bytes : List ℕ) (len : ℕ)
    → IsValid p
    → len ≤ length bytes
    → p.wlock ≡ false
    → Yields (Written p bytes len) (write p bytes len)
unfolding write
write-Written p bytes len v given free =
    simp (free, room_lem p v)
      (elim (Bool-cases (ltb len (p.len - sub64 p.writer p.reader))) [
        | inl less ↦ rw less (
            store-Written p bytes len len v given
              (omega (arith, ltb→lt len (p.len - sub64 p.writer p.reader) less)))
        | inr all ↦ rw all (
            store-Written p bytes (p.len - sub64 p.writer p.reader) len v
              (omega (arith, given, ltb→ge len (p.len - sub64 p.writer p.reader) all))
              (omega (arith, ltb→ge len (p.len - sub64 p.writer p.reader) all)))
      ])
