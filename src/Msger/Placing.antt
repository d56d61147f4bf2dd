-- ===== src/Msger/Placing.antt =====
-- src/xnet/xmsger.c: where `xchannel_recv_pack` puts a pack: it is due, or early, or late.
use wenas.Base.{
  ℕ, suc, ◌+◌, ◌%◌, ◌≤◌, ◌<◌, true, false, ◌≡◌, refl, sym, ap, ◌∙◌, ◌⊎◌, Option, none, some, ok,
  or_fault, ltb, lt→ltb, le→ltb, ◌==◌, ne→==, arith,
}
use mathlib.Core.Path.{subst}
use wenas.Msger.{Pack, Ring, Link, Api, inc16, sub16, slot, store}
use wenas.Msger.Receive.{owe, take_ack, keep, catch_up, recv_due, recv_early, recv_late, place}
use wenas.Msger.Places.{
  IsRing, cell, put, range_small, range_pos, slot_lem, store_lem, put-IsRing, cell-put_self,
  cell-put_ahead,
}
use wenas.Msger.Window.{Holds, Filled, Ready, CaughtUp, catch_up-CaughtUp}

-- `s` are the packs that the peer sends, numbered modulo 2 ^ 16 and without acknowledgements.
module _ (api : Api) (s : ℕ → Pack) (numbered : (i : ℕ) → (s i).head.sn ≡ i % 65536)
    (quiet : (i : ℕ) → (s i).head.ack_type ≡ 0) where
  module _ (n : ℕ) (l : Link) (r : Ready s n n l.channel.recvbuf) where
    abbrev pub b : Ring (Option Pack)
    b = l.channel.recvbuf

    kept_at :
        (m : ℕ) (l' : Link)
        → l'.channel.recvbuf ≡ b
        → keep (s m) l'
          ≡ ok (record l' { channel = record l'.channel { recvbuf = put b m (some (s m)) } })
    unfolding keep
    kept_at m l' e =
        let stored : store l'.channel.recvbuf (s m).head.sn (some (s m))
            ≡ ok (put b m (some (s m))) =
          ap (λ q. store q (s m).head.sn (some (s m))) e
          ∙ ap (λ i. store b i (some (s m))) (numbered m)
          ∙ store_lem b r.filled.ring m (some (s m)) in
        simp stored refl

    abbrev pub due_buffer : Ring (Option Pack)
    due_buffer = record (put b n (some (s n))) { wpos = inc16 b.wpos }

    due-Filled : Filled s n (suc n) due_buffer
    due-Filled =
        let ring : IsRing (put b n (some (s n))) = put-IsRing b r.filled.ring n (some (s n)) in
        record {
          ring = record {
            bits = ring.bits;
            few = ring.few;
            power = ring.power;
            sized = ring.sized;
          };
          read = r.filled.read;
          written = omega (arith, r.filled.written);
          ahead_of = omega arith;
          fits = omega (arith, range_pos b r.filled.ring);
          full = λ i le below.
              subst (λ j. cell due_buffer j ≡ some (some (s j))) (only i le below)
                (cell-put_self b r.filled.ring n (some (s n)));
          spare = λ i le below.
              subst (λ c. (c ≡ some none) ⊎ (c ≡ some (some (s i))))
                (sym (cell-put_ahead b r.filled.ring n i (some (s n)) (omega arith) below))
                (r.filled.spare i (omega arith) below);
        }
      where
        only : (i : ℕ) → n ≤ i → i < suc n → n ≡ i
        only i le below = omega arith

    pub caught : CaughtUp s n (suc n) due_buffer (catch_up (b.range + 1) due_buffer)
    caught =
        catch_up-CaughtUp s (b.range + 1) n (suc n) due_buffer due-Filled (omega arith)
          (omega (arith, range_pos b r.filled.ring))

    abbrev pub due_link : Link
    due_link = record l {
      channel =
          owe (s n).head.type caught.buffer.wpos caught.buffer.wpos
            (record l.channel { recvbuf = caught.buffer });
    }

    pub place_due : place api (s n) l ≡ ok (true, due_link)
    unfolding place take_ack recv_due
    place_due =
        let due : ((s n).head.sn == b.wpos) ≡ true = ground (arith, numbered n, r.filled.written) in
        simp (due, quiet n, kept_at n l refl, caught.result) refl

    module _ (m : ℕ) where
      abbrev pub early_link : Link
      early_link = record l { channel = owe (s m).head.type (s m).head.sn b.wpos l.channel }

      abbrev pub filled_link : Link
      filled_link = record early_link {
        channel = record early_link.channel { recvbuf = put b m (some (s m)) };
      }

      not_due : n < m → m < n + b.range → ((s m).head.sn == b.wpos) ≡ false
      not_due lo hi =
          ne→== (s m).head.sn b.wpos
            (λ e. omega (arith, numbered m, r.filled.written, range_small b r.filled.ring))

      early_test :
          n < m
          → m < n + b.range
          → ltb (sub16 (s m).head.sn b.wpos) (sub16 b.wpos (s m).head.sn) ≡ true
      early_test lo hi =
          lt→ltb (sub16 (s m).head.sn b.wpos) (sub16 b.wpos (s m).head.sn)
            (omega (arith, numbered m, r.filled.written, range_small b r.filled.ring))

      slot_of : slot b (s m).head.sn ≡ or_fault (cell b m)
      slot_of = ap (slot b) (numbered m) ∙ slot_lem b r.filled.ring m

      pub place_first :
          n < m
          → m < n + b.range
          → cell b m ≡ some none
          → place api (s m) l ≡ ok (true, filled_link)
      unfolding place take_ack recv_early owe
      place_first lo hi missing =
          simp
            (not_due lo hi, early_test lo hi, slot_of, missing, quiet m, kept_at m early_link refl)
            refl

      pub place_again :
          n < m → m < n + b.range → Holds s b m → place api (s m) l ≡ ok (false, early_link)
      unfolding place recv_early owe
      place_again lo hi there = simp (not_due lo hi, early_test lo hi, slot_of, there) refl

      pub place_late : m < n → n ≤ m + 32768 → place api (s m) l ≡ ok (false, recv_late (s m) l)
      unfolding place
      place_late lo hi =
          let old : ((s m).head.sn == b.wpos) ≡ false =
            ne→== (s m).head.sn b.wpos (λ e. omega (arith, numbered m, r.filled.written)) in
          let behind : ltb (sub16 (s m).head.sn b.wpos) (sub16 b.wpos (s m).head.sn) ≡ false =
            le→ltb (sub16 (s m).head.sn b.wpos) (sub16 b.wpos (s m).head.sn)
              (omega (arith, numbered m, r.filled.written)) in
          simp (old, behind) refl
