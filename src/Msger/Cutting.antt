-- ===== src/Msger/Cutting.antt =====
-- src/xnet/xmsger.c: a message that is being cut up, and the queue of such messages.
use wenas.Base.{
  ℕ, suc, ◌+◌, ◌%◌, ◌≤◌, ◌<◌, ◌≡◌, sym, ap, ◌∙◌, ◌⊎◌, inl, inr, Option, some, length, IsU64, arith,
}
use mathlib.Core.Path.{subst}
use wenas.Heap.{update}
use wenas.Heap.Move.{eq_cases}
use wenas.Heap.Valid.{update_here, update_there}
use wenas.Msger.{Pack, Ring, Message, inc16}
use wenas.Msger.Send.{pack_len, advance}
use wenas.Msger.Places.{IsRing, cell, put, put-IsRing, cell-put_self, cell-put_behind}
use wenas.Msger.Sending.{Sound, cell-put_cases}

-- What of a message has been cut off lies in its bytes, and these in its memory.
pub record IsCut (m : Message) : Type 0 where
  pub inside : m.frame.wpos ≤ length m.frame.buf
  pub cut : m.frame.spos ≤ m.frame.wpos
  pub small : IsU64 m.frame.wpos

-- A slot of the queue with a message of the store.
pub record Offers (q : Ring (Option ℕ)) (messages : ℕ → Message) (i : ℕ) : Type 0 where
  pub message : ℕ
  pub here : cell q i ≡ some (some message)
  pub is_cut : IsCut (messages message)

-- The messages `u` to before `v` of the queue wait to be cut up.
pub record Backed (u v : ℕ) (q : Ring (Option ℕ)) (messages : ℕ → Message) : Type 0 where
  pub ring : IsRing q
  pub sent : q.spos ≡ u % 65536
  pub written : q.wpos ≡ v % 65536
  pub in_order : (u ≤ v) × (v ≤ u + q.range)
  pub offers : (i : ℕ) → u ≤ i → i < v → Offers q messages i

pub pack_len_bound :
    (m : Message)
    → IsCut m
    → (pack_len m.frame ≤ 1280) × (m.frame.spos + pack_len m.frame ≤ m.frame.wpos)
unfolding pack_len
pack_len_bound m c = ground (arith, c.cut, c.small)

pub advance-IsCut : (m : Message) → IsCut m → IsCut (advance (pack_len m.frame) m)
unfolding advance
advance-IsCut m c = record {
  inside = c.inside;
  cut = omega (arith, pack_len_bound m c, c.small);
  small = c.small;
}

-- A pack more in the buffer.
pub made-Sound :
    (r t w p : ℕ) (b : Ring Pack) (pack : Pack)
    → Sound r t w b
    → w < r + b.range
    → pack.head.len ≤ 1280
    → length pack.body ≡ 1280
    → pack.msg ≡ some p
    → Sound r t (suc w) (record (put b w pack) { wpos = inc16 b.wpos })
made-Sound r t w p b pack s room short sized known =
    let ring : IsRing (put b w pack) = put-IsRing b s.ring w pack in
    record {
      ring = record { bits = ring.bits; few = ring.few; power = ring.power; sized = ring.sized };
      read = s.read;
      sent = s.sent;
      written = omega (arith, s.written);
      in_order = omega (arith, s.in_order);
      whole = λ i.
          let h = s.whole i in
          elim (cell-put_cases b s.ring w i pack) [
            | inl new ↦ record { pack = pack; here = new.0; short = short; sized = sized }
            | inr old ↦ record {
              pack = h.pack;
              here = old ∙ h.here;
              short = h.short;
              sized = h.sized;
            }
          ];
      queued = λ i lo hi. elim (before i hi) [
        | inl lt ↦
            let h = s.queued i lo lt in
            record {
              pack = h.pack;
              here = cell-put_behind b s.ring w i pack lt (omega arith) ∙ h.here;
              message = h.message;
              known = h.known;
            }
        | inr same ↦ record {
          pack = pack;
          here = ap (cell (put b w pack)) same ∙ cell-put_self b s.ring w pack;
          message = p;
          known = known;
        }
      ];
    }
  where
    before : (i : ℕ) → i < suc w → (i < w) ⊎ (i ≡ w)
    before i hi = omega arith

-- The message that was cut is as far as before or further; the others are as they were.
pub update-IsCut :
    (messages : ℕ → Message) (p i : ℕ) (m : Message)
    → IsCut m
    → IsCut (messages i)
    → IsCut (update messages p m i)
update-IsCut messages p i m c old = elim (eq_cases i p) [
  | inl same ↦
      subst (λ k. IsCut (update messages p m k)) (sym same)
        (subst IsCut (sym (update_here messages p m)) c)
  | inr other ↦ subst IsCut (sym (update_there messages p m i other)) old
]
