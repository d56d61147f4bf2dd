-- ===== src/Pipe/Examples.antt =====
-- The theorems on src/xnet/xpipe.h at a pipe of four bytes whose counters are about to wrap.
use wenas.Base.{
  ℕ, ◌+◌, ◌*◌, ◌-◌, ◌^◌, ◌≤◌, ◌≡◌, refl, List, [], ◌∷◌, Option, some, false, true, Run, ok, Yields,
  length, replicate, length-replicate, arith,
}
use wenas.Pipe.{Pipe, write, read, create}
use wenas.Pipe.Valid.{IsValid}
use wenas.Pipe.Read.{Taken, read-Taken}
use wenas.Pipe.Write.{Written, write-Written}
use wenas.Pipe.Create.{Empty, create-Empty}
use wenas.Pipe.Queue.{put, get, run, Flow, run-Flow}

-- Three of the four places are taken: 2, 3 and 0.
abbrev wrapping : Pipe
wrapping = record {
  len = 4;
  writer = 1;
  reader = 2 ^ 64 - 2;
  breaker = false;
  rlock = false;
  wlock = false;
  rblock = false;
  wblock = false;
  name = [];
  buf = 30 ∷ 99 ∷ 10 ∷ 20 ∷ [];
}

wrapping-IsValid : IsValid wrapping
wrapping-IsValid = record {
  bits = 2;
  few = omega arith;
  power = refl;
  sized = refl;
  small_writer = omega arith;
  small_reader = omega arith;
  filled = omega arith;
}

write-Written_example : Yields (Written wrapping (40 ∷ 50 ∷ []) 2) (write wrapping (40 ∷ 50 ∷ []) 2)
write-Written_example = write-Written wrapping (40 ∷ 50 ∷ []) 2 wrapping-IsValid (omega arith) refl

read-Taken_example : Yields (Taken wrapping 9) (read wrapping 9)
read-Taken_example = read-Taken wrapping 9 wrapping-IsValid refl

run-Flow_example : Yields (Flow wrapping) (run (put (40 ∷ 50 ∷ []) ∷ get 3 ∷ get 2 ∷ []) wrapping)
run-Flow_example =
    run-Flow (put (40 ∷ 50 ∷ []) ∷ get 3 ∷ get 2 ∷ []) wrapping
      (record { valid = wrapping-IsValid; unlocked = (refl, refl) })

create-Empty_example :
    Yields
      (λ r. (p : Pipe) × (r ≡ some p) × Empty 5 (b'p' ∷ []) p)
      (create (λ n. some (replicate n 0)) true 5 (b'p' ∷ []))
create-Empty_example =
    create-Empty (λ n. some (replicate n 0)) 5 (b'p' ∷ []) (omega arith) (omega arith)
      λ n h. (replicate n 0, refl, length-replicate n 0)

-- Only one of the two bytes finds room, and a read goes round the end of the ring.
write_wraps :
    write wrapping (40 ∷ 50 ∷ []) 2
    ≡ ok (1, record wrapping { writer = 2; buf = 30 ∷ 40 ∷ 10 ∷ 20 ∷ [] })
unfolding write wenas.Pipe.copy_in wenas.Pipe.copy_to wenas.Base.splice
write_wraps = refl

read_wraps : read wrapping 9 ≡ ok (10 ∷ 20 ∷ 30 ∷ [], record wrapping { reader = 1 })
unfolding read wenas.Pipe.copy_out wenas.Pipe.copy_from
read_wraps = refl
