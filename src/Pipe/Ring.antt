-- ===== src/Pipe/Ring.antt =====
-- src/xnet/xpipe.h: the copy into the ring, in one piece or round its end.
use wenas.Base.{
  ℕ, ◌+◌, ◌-◌, ◌%◌, ◌≤◌, ◌<◌, List, ◌≡◌, sym, ap, ◌∙◌, length, sub64, arith, Yields, yields, take,
  drop, splice, length-splice, length-take_le, length-drop, get_or, get_or-take, get_or-drop,
  get_or-splice_in, get_or-splice_before, get_or-splice_after, place_cases, leb, Bool-cases, inl,
  inr, leb→le, leb→gt, le→leb,
}
use native.Mathlib.Nat.{mod-lt}
use wenas.Pipe.{Pipe, copy_to, copy_in}
use wenas.Pipe.Valid.{IsValid, len_pos, len_small, place_mask}

-- The ring after `n` of `bytes` were put in at the writer.
pub record Put (p : Pipe) (bytes : List ℕ) (n : ℕ) (b : List ℕ) : Type 0 where
  pub sized : length b ≡ p.len
  pub new : (i : ℕ) → i < n → get_or b ((p.writer + i) % p.len) 0 ≡ get_or bytes i 0
  pub old :
      (i : ℕ)
      → n ≤ i
      → i < p.len
      → get_or b ((p.writer + i) % p.len) 0 ≡ get_or p.buf ((p.writer + i) % p.len) 0

module _ (p : Pipe) (v : IsValid p) (bytes : List ℕ) (n : ℕ) (few : n ≤ p.len)
    (given : n ≤ length bytes) where
  abbrev to : ℕ
  to = p.writer % p.len

  to_lt : to < p.len
  to_lt = mod-lt p.writer (len_pos p v)

  abbrev whole : List ℕ
  whole = splice p.buf to (take n bytes)

  straight : to + n ≤ p.len → Put p bytes n whole
  straight h =
      let taken = length-take_le n bytes given in
      let fits : to + length (take n bytes) ≤ length p.buf = omega (arith, taken, v.sized) in
      record {
        sized = length-splice p.buf to (take n bytes) fits ∙ v.sized;
        new = λ i lt. elim (place_cases p.len p.writer i (len_pos p v) (omega arith)) [
          | inl (inside, e) ↦
              ap (λ k. get_or whole k 0) e
              ∙ get_or-splice_in p.buf to (take n bytes) fits (to + i) 0 (omega arith)
                  (omega (arith, taken))
              ∙ ap (λ k. get_or (take n bytes) k 0) (omega arith)
              ∙ get_or-take n bytes i 0 lt
          | inr (beyond, e) ↦ absurd (omega arith)
        ];
        old = λ i ge lt. elim (place_cases p.len p.writer i (len_pos p v) (omega arith)) [
          | inl (inside, e) ↦
              ap (λ k. get_or whole k 0) e
              ∙ get_or-splice_after p.buf to (take n bytes) fits (to + i) 0 (omega (arith, taken))
              ∙ ap (λ k. get_or p.buf k 0) (sym e)
          | inr (beyond, e) ↦
              ap (λ k. get_or whole k 0) e
              ∙ get_or-splice_before p.buf to (take n bytes) fits (to + i - p.len) 0 (omega arith)
              ∙ ap (λ k. get_or p.buf k 0) (sym e)
        ];
      }

  abbrev left : ℕ
  left = p.len - to

  abbrev half : List ℕ
  half = splice p.buf to (take left bytes)

  abbrev rest : List ℕ
  rest = take (n - left) (drop left bytes)

  folded : p.len < to + n → Put p bytes n (splice half 0 rest)
  folded h =
      let taken = length-take_le left bytes (omega arith) in
      let more : length rest ≡ n - left =
        length-take_le (n - left) (drop left bytes) (omega (arith, length-drop left bytes)) in
      let fits : to + length (take left bytes) ≤ length p.buf =
        omega (arith, taken, v.sized, to_lt) in
      let size = length-splice p.buf to (take left bytes) fits in
      let fits' : 0 + length rest ≤ length half = omega (arith, more, size, v.sized) in
      record {
        sized = length-splice half 0 rest fits' ∙ size ∙ v.sized;
        new = λ i lt. elim (place_cases p.len p.writer i (len_pos p v) (omega arith)) [
          | inl (inside, e) ↦
              ap (λ k. get_or (splice half 0 rest) k 0) e
              ∙ get_or-splice_after half 0 rest fits' (to + i) 0 (omega (arith, more))
              ∙ get_or-splice_in p.buf to (take left bytes) fits (to + i) 0 (omega arith)
                  (omega (arith, taken))
              ∙ ap (λ k. get_or (take left bytes) k 0) (omega arith)
              ∙ get_or-take left bytes i 0 (omega arith)
          | inr (beyond, e) ↦
              ap (λ k. get_or (splice half 0 rest) k 0) e
              ∙ get_or-splice_in half 0 rest fits' (to + i - p.len) 0 (omega arith)
                  (omega (arith, more, to_lt))
              ∙ ap (λ k. get_or rest k 0) (omega (arith, to_lt))
              ∙ get_or-take (n - left) (drop left bytes) (i - left) 0 (omega (arith, to_lt))
              ∙ get_or-drop left bytes (i - left) 0
              ∙ ap (λ k. get_or bytes k 0) (omega (arith, to_lt))
        ];
        old = λ i ge lt. elim (place_cases p.len p.writer i (len_pos p v) (omega arith)) [
          | inl (inside, e) ↦ absurd (omega arith)
          | inr (beyond, e) ↦
              ap (λ k. get_or (splice half 0 rest) k 0) e
              ∙ get_or-splice_after half 0 rest fits' (to + i - p.len) 0
                  (omega (arith, more, to_lt))
              ∙ get_or-splice_before p.buf to (take left bytes) fits (to + i - p.len) 0
                  (omega arith)
              ∙ ap (λ k. get_or p.buf k 0) (sym e)
        ];
      }

  pub copy_in-Put : Yields (Put p bytes n) (copy_in p bytes n)
  unfolding copy_in copy_to
  copy_in-Put =
      let size : sub64 p.len to ≡ left = omega (arith, to_lt, len_small p v) in
      rw (place_mask p v p.writer v.small_writer, size)
        (elim (Bool-cases (leb n left)) [
          | inl one ↦
              let room = leb→le n left one in
              rw
                (
                  one,
                  le→leb n (length bytes) given,
                  le→leb (to + n) (length p.buf) (omega (arith, v.sized, to_lt)),
                )
                (yields (straight (omega (arith, to_lt))))
          | inr two ↦
              let long = leb→gt n left two in
              let more : sub64 n left ≡ n - left = omega (arith, len_small p v) in
              let taken = length-take_le left bytes (omega (arith, given)) in
              let size' =
                length-splice p.buf to (take left bytes) (omega (arith, taken, v.sized, to_lt)) in
              rw
                (
                  two,
                  more,
                  le→leb left (length bytes) (omega (arith, given)),
                  le→leb (to + left) (length p.buf) (omega (arith, v.sized, to_lt)),
                  le→leb (n - left) (length (drop left bytes))
                      (omega (arith, given, length-drop left bytes)),
                  le→leb (0 + (n - left)) (length half) (omega (arith, size', v.sized)),
                )
                (yields (folded (omega (arith, to_lt))))
        ])
