-- ===== src/Msger/Reading.antt =====
-- src/xnet/xmsger.c: `xchannel_recv_msg` takes the packs from the read position on, in the order of
-- their numbers.
use wenas.Base.{
  ℕ, zero, suc, ◌+◌, ◌-◌, ◌≤◌, ◌<◌, Bool, true, ◌≡◌, refl, sym, ap, ◌∙◌, ◌⊎◌, inl, inr, Option,
  none, some, Run, ok, or_fault, arith,
}
use mathlib.Core.Path.{subst}
use wenas.Msger.{Pack, Ring, Link, Api, inc16, slot, store}
use wenas.Msger.Receive.{consume, free_slot, recv_from}
use wenas.Msger.Places.{
  IsRing, cell, put, range_pos, store_lem, put-IsRing, cell-put_self, cell-round, cell-put_ahead,
}
use wenas.Msger.Inbox.{Agrees, with_inbox, consume-Alike}
use wenas.Msger.Window.{Holds, Spare, Ready, slot_read}

-- `p` is the run of a receiver that gets the packs of `s` in order, each once: `p i` is its link
-- when it has had the first i.
module _ (api : Api) (s : ℕ → Pack) (p : ℕ → Link)
    (run : (i : ℕ) → consume api (s i) (p i) ≡ ok (true, p (suc i))) where
  abbrev freed : Ring (Option Pack) → ℕ → Ring (Option Pack)
  freed b lo = record (put b lo none) { rpos = inc16 b.rpos }

  module _ (lo n : ℕ) (b : Ring (Option Pack)) (r : Ready s lo n b) (lt : lo < n) where
    b-IsRing : IsRing b
    b-IsRing = r.filled.ring

    same_cell : (i : ℕ) → lo < i → i < lo + b.range → cell (freed b lo) i ≡ cell b i
    same_cell i above below = cell-put_ahead b b-IsRing lo i none above below

    new_cell : cell (freed b lo) (lo + b.range) ≡ some none
    new_cell =
        cell-round (put b lo none) (put-IsRing b b-IsRing lo none) lo
        ∙ cell-put_self b b-IsRing lo none

    Spare-cell : (i : ℕ) → n ≤ i → i < suc lo + b.range → Spare s (freed b lo) i
    Spare-cell i le below = elim (upto i (lo + b.range) (omega arith)) [
      | inl inside ↦
          subst (λ c. (c ≡ some none) ⊎ (c ≡ some (some (s i))))
            (sym (same_cell i (omega arith) inside)) (r.filled.spare i le inside)
      | inr last ↦ inl (ap (cell (freed b lo)) last ∙ new_cell)
    ]
      where
        upto : (i m : ℕ) → i ≤ m → (i < m) ⊎ (i ≡ m)
        upto i m le = omega arith

    cell-gap : n < suc lo + b.range → cell (freed b lo) n ≡ some none
    cell-gap below = elim (upto n (lo + b.range) (omega arith)) [
      | inl inside ↦ same_cell n lt inside ∙ r.gap inside
      | inr last ↦ ap (cell (freed b lo)) last ∙ new_cell
    ]
      where
        upto : (i m : ℕ) → i ≤ m → (i < m) ⊎ (i ≡ m)
        upto i m le = omega arith

    freed-Ready : Ready s (suc lo) n (freed b lo)
    freed-Ready = record {
      filled = record {
        ring = record {
          bits = b-IsRing.bits;
          few = b-IsRing.few;
          power = b-IsRing.power;
          sized = (put-IsRing b b-IsRing lo none).sized;
        };
        read = omega (arith, r.filled.read);
        written = r.filled.written;
        ahead_of = omega arith;
        fits = omega (arith, r.filled.fits);
        full = λ i le below.
            same_cell i (omega arith) (omega (arith, r.filled.fits))
            ∙ r.filled.full i (omega arith) below;
        spare = Spare-cell;
      };
      gap = cell-gap;
    }

    free_slot_lem :
        (l : Link)
        → l.channel.recvbuf ≡ b
        → free_slot l ≡ ok (record l { channel = record l.channel { recvbuf = freed b lo } })
    unfolding free_slot
    free_slot_lem l e =
        let stored : store l.channel.recvbuf l.channel.recvbuf.rpos none ≡ ok (put b lo none) =
          ap (λ q. store q q.rpos none) e
          ∙ ap (λ i. store b i none) r.filled.read
          ∙ store_lem b b-IsRing lo none in
        ground (arith, stored, ap (λ (q : Ring (Option Pack)). q.rpos) e)

  -- The packs from `lo` on have been read up to `n`, and the link has received as `p n` has.
  pub record Reads (lo n : ℕ) (l : Link) (r : Run (Bool × Link)) : Type 0 where
    pub link : Link
    pub result : r ≡ ok (true, link)
    pub ready : Ready s n n link.channel.recvbuf
    pub agrees : Agrees (p n) link
    pub ack_same : link.channel.ack ≡ l.channel.ack
    pub range_same : link.channel.recvbuf.range ≡ l.channel.recvbuf.range
    pub ahead :
        (i : ℕ)
        → n ≤ i
        → i < lo + l.channel.recvbuf.range
        → cell link.channel.recvbuf i ≡ cell l.channel.recvbuf i

  module _ (lo n : ℕ) (l : Link) (r : Ready s lo n l.channel.recvbuf) (a : Agrees (p lo) l)
      (lt : lo < n) where
    abbrev taken : Link
    taken = with_inbox (p (suc lo)).channel.msg (p (suc lo)).shared.log l

    abbrev next : Link
    next = record taken { channel = record taken.channel { recvbuf = freed l.channel.recvbuf lo } }

    consumed : consume api (s lo) l ≡ ok (true, taken)
    consumed = (consume-Alike (p lo) l a api (p (suc lo)) (s lo) (run lo)).0

    next-Agrees : Agrees (p (suc lo)) next
    next-Agrees = record {
      msg = refl;
      log = refl;
      addr = (consume-Alike (p lo) l a api (p (suc lo)) (s lo) (run lo)).1 ∙ a.addr;
    }

    next-Ready : Ready s (suc lo) n next.channel.recvbuf
    next-Ready = freed-Ready lo n l.channel.recvbuf r lt

    slot_next :
        slot next.channel.recvbuf next.channel.recvbuf.rpos
        ≡ or_fault (cell next.channel.recvbuf (suc lo))
    slot_next = slot_read s (suc lo) n next.channel.recvbuf next-Ready.filled

    emptied : free_slot taken ≡ ok next
    emptied = free_slot_lem lo n l.channel.recvbuf r lt taken refl

    turn_more :
        (fuel : ℕ) (q : Pack)
        → cell next.channel.recvbuf (suc lo) ≡ some (some q)
        → recv_from (suc fuel) api (s lo) l ≡ recv_from fuel api q next
    unfolding recv_from
    turn_more fuel q e = simp (consumed, emptied, slot_next, e) refl

    turn_last :
        (fuel : ℕ)
        → cell next.channel.recvbuf (suc lo) ≡ some none
        → recv_from (suc fuel) api (s lo) l ≡ ok (true, next)
    unfolding recv_from
    turn_last fuel e = simp (consumed, emptied, slot_next, e) refl

  pub recv_from-Reads :
      (fuel lo n : ℕ) (l : Link)
      → Ready s lo n l.channel.recvbuf
      → Agrees (p lo) l
      → lo < n
      → n - lo < fuel
      → Reads lo n l (recv_from fuel api (s lo) l)
  recv_from-Reads zero lo n l r a lt enough = absurd (omega arith)
  recv_from-Reads (suc fuel) lo n l r a lt enough = elim (last lo n lt) [
    | inl more ↦
        let here : Holds s (freed l.channel.recvbuf lo) (suc lo) =
          (next-Ready lo n l r a lt).filled.full (suc lo) (omega arith) more in
        let rest : Reads (suc lo) n (next lo n l r a lt)
            (recv_from fuel api (s (suc lo)) (next lo n l r a lt)) =
          recv_from-Reads fuel (suc lo) n (next lo n l r a lt) (next-Ready lo n l r a lt)
            (next-Agrees lo n l r a lt) more (omega arith) in
        record {
          link = rest.link;
          result = turn_more lo n l r a lt fuel (s (suc lo)) here ∙ rest.result;
          ready = rest.ready;
          agrees = rest.agrees;
          ack_same = rest.ack_same;
          range_same = rest.range_same;
          ahead = λ i le below.
              rest.ahead i le (omega arith)
              ∙ same_cell lo n l.channel.recvbuf r lt i (omega arith) below;
        }
    | inr end ↦
        subst (λ k. Reads lo k l (recv_from (suc fuel) api (s lo) l)) end
          (let ready : Ready s (suc lo) (suc lo) (freed l.channel.recvbuf lo) =
              subst (λ k. Ready s (suc lo) k (freed l.channel.recvbuf lo)) (sym end)
                (next-Ready lo n l r a lt) in
            record {
              link = next lo n l r a lt;
              result =
                  turn_last lo n l r a lt fuel
                    (ready.gap (omega (arith, range_pos l.channel.recvbuf r.filled.ring)));
              ready = ready;
              agrees = next-Agrees lo n l r a lt;
              ack_same = refl;
              range_same = refl;
              ahead = λ i le below. same_cell lo n l.channel.recvbuf r lt i (omega arith) below;
            })
  ]
    where
      last : (a b : ℕ) → a < b → (suc a < b) ⊎ (suc a ≡ b)
      last a b lt = omega arith
