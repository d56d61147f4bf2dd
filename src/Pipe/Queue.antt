-- ===== src/Pipe/Queue.antt =====
-- src/xnet/xpipe.h: writes and reads one after the other, as a queue of bytes.
use wenas.Base.{
  ℕ, ◌≡◌, sym, ap, ◌∙◌, List, [], ◌∷◌, ◌++◌, append_assoc, append-nil, length, take, Run, ok, ◌>>=◌,
  Yields, yields, Yields-bind, false, true,
}
use native.Mathlib.Nat.{le_refl}
use wenas.Pipe.{Pipe, write, read}
use wenas.Pipe.Valid.{IsValid, contents}
use wenas.Pipe.Read.{read-Taken}
use wenas.Pipe.Write.{write-Written}

-- A client's call: to write these bytes, or to read up to so many.
pub data Op : Type 0 where
  put : List ℕ → Op
  get : ℕ → Op

-- The calls in order: the bytes that went in, those that came out, and the pipe.
unfoldable pub run : List Op → Pipe → Run (List ℕ × List ℕ × Pipe)
run [] p = ok ([], [], p)
run (put bytes ∷ ops) p = do
  (n, q) ← write p bytes (length bytes)
  (ins, outs, r) ← run ops q
  ok (take n bytes ++ ins, outs, r)
run (get len ∷ ops) p = do
  (bytes, q) ← read p len
  (ins, outs, r) ← run ops q
  ok (ins, bytes ++ outs, r)

-- A pipe in order with its locks free.
pub record Ready (p : Pipe) : Type 0 where
  pub valid : IsValid p
  pub unlocked : (p.rlock ≡ false) × (p.wlock ≡ false)

pub record Flow (p : Pipe) (r : List ℕ × List ℕ × Pipe) : Type 0 where
  pub ready : Ready r.2
  pub order : contents p ++ r.0 ≡ r.1 ++ contents r.2

-- Another thread that finds the lock taken changes nothing: it gets 0, or no bytes.
pub held_lem :
    (p : Pipe) (bytes : List ℕ) (len : ℕ)
    → p.wlock ≡ true
    → p.rlock ≡ true
    → (write p bytes len ≡ ok (0, p)) × (read p len ≡ ok ([], p))
unfolding write read
held_lem p bytes len w r = (rw w, rw r)

-- On a pipe in order whose locks are free, whatever is written and read, in whatever order: every
-- call returns, and the bytes that came out, followed by those that wait in the ring, are the
-- bytes that waited at first, followed by those that went in. None is lost, made up, or overtaken.
pub run-Flow : (ops : List Op) (p : Pipe) → Ready p → Yields (Flow p) (run ops p)
unfolding run
run-Flow [] p ready = yields (record { ready = ready; order = append-nil (contents p) })
run-Flow (put bytes ∷ ops) p ready =
    Yields-bind
      (write-Written p bytes (length bytes) ready.valid (le_refl (length bytes)) ready.unlocked.1)
      λ (n, q) w.
        Yields-bind
          (run-Flow ops q
            (record { valid = w.valid; unlocked = (w.reader.1 ∙ ready.unlocked.0, w.unlocked) }))
          λ x f. yields (record {
            ready = f.ready;
            order =
                sym (append_assoc (contents p) (take n bytes) x.0)
                ∙ ap (λ l. l ++ x.0) (sym w.queue)
                ∙ f.order;
          })
run-Flow (get len ∷ ops) p ready =
    Yields-bind (read-Taken p len ready.valid ready.unlocked.0) λ (bytes, q) w.
      Yields-bind
        (run-Flow ops q
          (record { valid = w.valid; unlocked = (w.unlocked, w.writer ∙ ready.unlocked.1) }))
        λ x f. yields (record {
          ready = f.ready;
          order =
              ap (λ l. l ++ x.0) (sym w.bytes)
              ∙ append_assoc bytes (contents q) x.0
              ∙ ap (λ l. bytes ++ l) f.order
              ∙ sym (append_assoc bytes x.1 (contents x.2));
        })
