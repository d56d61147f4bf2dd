-- ===== src/Pipe.antt =====
-- src/xnet/xpipe.h: a ring of bytes between a writing and a reading thread.
pub mod Valid
pub mod Read
mod Examples
pub mod Queue
pub mod Create
pub mod Ring
pub mod Write
use wenas.Base.{
  ℕ, zero, suc, ◌+◌, ◌-◌, ◌*◌, ◌/◌, ◌%◌, ◌^◌, bit_and, Bool, true, false, List, [], ◌∷◌, ◌++◌,
  Option, none, some, Run, ok, fault, out_of_fuel, ◌>>=◌, length, take, drop, splice, ltb, leb,
  ◌==◌, add64, sub64, if◌then◌else◌, u64_size,
}

-- `struct xpipe`. The counters `writer` and `reader` run on and wrap at 2 ^ 64; `buf` is what
-- `malloc` gave for the bytes, and `name` the bytes of the name before its NUL. The mutex is left
-- out, with the waiting and the waking.
pub record Pipe : Type 0 where
  pub len : ℕ
  pub writer : ℕ
  pub reader : ℕ
  pub breaker : Bool
  pub rlock : Bool
  pub wlock : Bool
  pub rblock : Bool
  pub wblock : Bool
  pub name : List ℕ
  pub buf : List ℕ

-- `mcopy(dst + at, src, n)`
unfoldable pub copy_to : List ℕ → ℕ → List ℕ → ℕ → Run (List ℕ)
copy_to dst at src n =
    if leb n (length src)
    then (if leb (at + n) (length dst) then ok (splice dst at (take n src)) else fault)
    else fault

-- The two cases of the copy into the ring: in one piece, or round its end.
unfoldable pub copy_in : Pipe → List ℕ → ℕ → Run (List ℕ)
copy_in pipe bytes writable =
    let at = bit_and pipe.writer (sub64 pipe.len 1) in
    let leftover = sub64 pipe.len at in
    if leb writable leftover
    then copy_to pipe.buf at bytes writable
    else (copy_to pipe.buf at bytes leftover >>= λ b.
        copy_to b 0 (drop leftover bytes) (sub64 writable leftover))

-- `__xpipe_write`: how many bytes of `bytes` went in, and the pipe.
unfoldable pub write : Pipe → List ℕ → ℕ → Run (ℕ × Pipe)
write pipe bytes len =
    let room = add64 (sub64 pipe.len pipe.writer) pipe.reader in
    let writable = if ltb len room then len else room in
    let store : Run (ℕ × Pipe) = do
      b ← copy_in pipe bytes writable
      ok (writable, record pipe { buf = b; writer = add64 pipe.writer writable; wlock = false })
    in if pipe.wlock
      then ok (0, pipe)
      else (if ltb 0 writable then store else ok (writable, record pipe { wlock = false }))

-- The bytes that `mcopy(dst, src + at, n)` copies.
unfoldable pub copy_from : List ℕ → ℕ → ℕ → Run (List ℕ)
copy_from src at n = if leb (at + n) (length src) then ok (take n (drop at src)) else fault

unfoldable pub copy_out : Pipe → ℕ → Run (List ℕ)
copy_out pipe readable =
    let at = bit_and pipe.reader (sub64 pipe.len 1) in
    let leftover = sub64 pipe.len at in
    if leb readable leftover then copy_from pipe.buf at readable else (do
      front ← copy_from pipe.buf at leftover
      back ← copy_from pipe.buf 0 (sub64 readable leftover)
      ok (front ++ back))

-- `__xpipe_read`: the bytes that it copies to the start of the caller's memory, which has room for
-- `len`, as many as it returns; and the pipe.
unfoldable pub read : Pipe → ℕ → Run (List ℕ × Pipe)
read pipe len =
    let filled = sub64 pipe.writer pipe.reader in
    let readable = if ltb len filled then len else filled in
    let load : Run (List ℕ × Pipe) = do
      bytes ← copy_out pipe readable
      ok (bytes, record pipe { reader = add64 pipe.reader readable; rlock = false })
    in if pipe.rlock
      then ok ([], pipe)
      else (if ltb 0 readable then load else ok ([], record pipe { rlock = false }))

-- `xpipe_readable`, `xpipe_writable`, `xpipe_clear` and `xpipe_break`
unfoldable pub readable : Pipe → ℕ
readable pipe = sub64 pipe.writer pipe.reader

unfoldable pub writable : Pipe → ℕ
writable pipe = add64 (sub64 pipe.len pipe.writer) pipe.reader

unfoldable pub clear : Pipe → Pipe
clear pipe = record pipe {
  reader = sub64 pipe.reader pipe.reader;
  writer = sub64 pipe.writer pipe.writer;
}

unfoldable pub break : Pipe → Pipe
break pipe = record pipe { breaker = true }

-- `do { pipe->len <<= 1; } while (len >>= 1);`, on fuel.
unfoldable pub double : ℕ → ℕ → ℕ → Run ℕ
double zero size len = out_of_fuel
double (suc fuel) size len =
    let size' = size * 2 % 2 ^ 64 in
    let rest = double fuel size' (len / 2) in if len / 2 == 0 then ok size' else rest

-- The size of the ring for a request of `len` bytes: 64 turns of the loop are enough for any.
unfoldable pub ring_size : ℕ → Run ℕ
ring_size len = if bit_and len (sub64 len 1) == 0 then ok len else double 64 1 len

-- `xpipe_create`, given whether there was memory for the struct, and the bytes for the ring. With
-- no bytes, `xpipe_free` is called, and it locks a mutex that nobody has set. Making the mutex is
-- taken to succeed.
unfoldable pub created : List ℕ → ℕ → Option (List ℕ) → Run (Option Pipe)
created name size none = fault
created name size (some mem) = ok (
    some (record {
      len = size;
      writer = 0;
      reader = 0;
      breaker = false;
      rlock = false;
      wlock = false;
      rblock = false;
      wblock = false;
      name = take (if ltb 15 (length name) then 15 else length name) name;
      buf = mem;
    }))

unfoldable pub create : (ℕ → Option (List ℕ)) → Bool → ℕ → List ℕ → Run (Option Pipe)
create malloc struct len name =
    let made = ring_size len >>= λ size. created name size (malloc size) in
    if struct then made else ok none
