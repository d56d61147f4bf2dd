-- ===== src/Msger/Sending.antt =====
-- src/xnet/xmsger.c: the send buffer between the first pack that the peer has not acknowledged, the
-- first that has not been sent and the first that has not been made.
use wenas.Base.{
  ℕ, suc, ◌+◌, ◌%◌, ◌≤◌, ◌<◌, ◌≡◌, sym, ap, ◌∙◌, ◌⊎◌, inl, inr, some, length, get_elem?, arith,
}
use wenas.Heap.Move.{eq_cases}
use wenas.Msger.{Pack, Ring, inc16}
use wenas.Msger.Places.{
  IsRing, cell, put, put-IsRing, get_elem?-set_ne, cell-put_self, cell-put_ahead,
}

-- A slot has a pack of which all that is to be sent lies in its body.
pub record Whole (b : Ring Pack) (i : ℕ) : Type 0 where
  pub pack : Pack
  pub here : cell b i ≡ some pack
  pub short : pack.head.len ≤ 1280
  pub sized : length pack.body ≡ 1280

-- And the pack knows its message.
pub record Queued (b : Ring Pack) (i : ℕ) : Type 0 where
  pub pack : Pack
  pub here : cell b i ≡ some pack
  pub message : ℕ
  pub known : pack.msg ≡ some message

-- `r` packs have been acknowledged, `t` sent and `w` made, counted without wrap-around.
pub record Sound (r t w : ℕ) (b : Ring Pack) : Type 0 where
  pub ring : IsRing b
  pub read : b.rpos ≡ r % 65536
  pub sent : b.spos ≡ t % 65536
  pub written : b.wpos ≡ w % 65536
  pub in_order : (r ≤ t) × (t ≤ w) × (w ≤ r + b.range)
  pub whole : (i : ℕ) → Whole b i
  pub queued : (i : ℕ) → r ≤ i → i < w → Queued b i

-- A pack that stands for another has its message and its bytes.
pub record SameBytes (old new : Pack) : Type 0 where
  pub len : new.head.len ≡ old.head.len
  pub body : new.body ≡ old.body

pub record Replaces (old new : Pack) : Type 0 where
  pub msg : new.msg ≡ old.msg
  pub bytes : SameBytes old new

-- A write goes to a slot, and the numbers of that slot, or elsewhere.
pub cell-put_cases :
    (b : Ring Pack) (v : IsRing b) (i j : ℕ) (a : Pack)
    → ((cell (put b i a) j ≡ some a) × (cell b i ≡ cell b j)) ⊎ (cell (put b i a) j ≡ cell b j)
cell-put_cases b v i j a = elim (eq_cases (i % b.range) (j % b.range)) [
  | inl e ↦ inl (
    ap (λ k. get_elem? (put b i a).buf k) (sym e) ∙ cell-put_self b v i a,
    ap (λ k. get_elem? b.buf k) e,
  )
  | inr differ ↦ inr (get_elem?-set_ne b.buf (i % b.range) (j % b.range) a differ)
]

module _ (r t w : ℕ) (b : Ring Pack) (s : Sound r t w b) (i : ℕ) (old new : Pack)
    (here : cell b i ≡ some old) where
  pub Whole-put : SameBytes old new → (j : ℕ) → Whole (put b i new) j
  Whole-put like j =
      let at_i : Whole b i = s.whole i in
      let at_j : Whole b j = s.whole j in
      elim (cell-put_cases b s.ring i j new) [
        | inl new_here ↦
            let same : at_i.pack ≡ old = ground (arith, at_i.here, here) in
            record {
              pack = new;
              here = new_here.0;
              short = omega (arith, like.len, at_i.short, ap (λ (q : Pack). q.head.len) same);
              sized = ap length like.body ∙ ap (λ q. length q.body) (sym same) ∙ at_i.sized;
            }
        | inr elsewhere ↦ record {
          pack = at_j.pack;
          here = elsewhere ∙ at_j.here;
          short = at_j.short;
          sized = at_j.sized;
        }
      ]

  Queued-put : Replaces old new → (j : ℕ) → r ≤ j → j < w → Queued (put b i new) j
  Queued-put like j lo hi =
      let at_j : Queued b j = s.queued j lo hi in
      elim (cell-put_cases b s.ring i j new) [
        | inl new_here ↦
            let same : at_j.pack ≡ old = ground (arith, at_j.here, here, new_here.1) in
            record {
              pack = new;
              here = new_here.0;
              message = at_j.message;
              known = like.msg ∙ ap (λ (q : Pack). q.msg) (sym same) ∙ at_j.known;
            }
        | inr elsewhere ↦ record {
          pack = at_j.pack;
          here = elsewhere ∙ at_j.here;
          message = at_j.message;
          known = at_j.known;
        }
      ]

  pub put-Sound : Replaces old new → Sound r t w (put b i new)
  put-Sound like = record {
    ring = put-IsRing b s.ring i new;
    read = s.read;
    sent = s.sent;
    written = s.written;
    in_order = s.in_order;
    whole = Whole-put like.bytes;
    queued = Queued-put like;
  }

-- The first pack under way has been acknowledged.
abbrev pub stepped : Ring Pack → Ring Pack
stepped b = record b { rpos = inc16 b.rpos }

module _ (r t w : ℕ) (b : Ring Pack) (s : Sound r t w b) (lt : r < t) where
  pub stepped-Sound : Sound (suc r) t w (stepped b)
  stepped-Sound = record {
    ring = record {
      bits = s.ring.bits;
      few = s.ring.few;
      power = s.ring.power;
      sized = s.ring.sized;
    };
    read = omega (arith, s.read);
    sent = s.sent;
    written = s.written;
    in_order = omega (arith, s.in_order);
    whole = λ i.
        let h = s.whole i in
        record { pack = h.pack; here = h.here; short = h.short; sized = h.sized };
    queued = λ i lo hi.
        let h = s.queued i (omega arith) hi in
        record { pack = h.pack; here = h.here; message = h.message; known = h.known };
  }

  -- It may have lost its message.
  pub stepped-put-Sound :
      (old new : Pack)
      → cell b r ≡ some old
      → SameBytes old new
      → Sound (suc r) t w (stepped (put b r new))
  stepped-put-Sound old new here like =
      let ring : IsRing (put b r new) = put-IsRing b s.ring r new in
      record {
        ring = record { bits = ring.bits; few = ring.few; power = ring.power; sized = ring.sized };
        read = omega (arith, s.read);
        sent = s.sent;
        written = s.written;
        in_order = omega (arith, s.in_order);
        whole = λ i.
            let h = Whole-put r t w b s r old new here like i in
            record { pack = h.pack; here = h.here; short = h.short; sized = h.sized };
        queued = λ i lo hi.
            let h = s.queued i (omega arith) hi in
            record {
              pack = h.pack;
              here = cell-put_ahead b s.ring r i new lo (omega (arith, s.in_order)) ∙ h.here;
              message = h.message;
              known = h.known;
            };
      }
