-- ===== src/Msger/Making.antt =====
-- src/xnet/xmsger.c: `xchannel_serial_msg` makes the next pack of the first message of the queue.
use wenas.Base.{
  ℕ, suc, ◌+◌, ◌≤◌, ◌<◌, ◌≡◌, refl, sym, ap, ◌∙◌, inl, inr, true, Option, some, ok, or_fault, ltb,
  ◌==◌, if◌then◌else◌, Yields, yields, Bool-cases, ltb→lt, arith, take, drop,
}
use mathlib.Core.Path.{subst}
use wenas.Heap.{update}
use wenas.Msger.{Pack, Ring, Link, Message, inc16, slot, store, writable, sendable}
use wenas.Msger.Send.{pack_len, fill_pack, advance, serial_next, serial_msg}
use wenas.Msger.Places.{put, range_small, slot_lem, store_lem}
use wenas.Msger.Parts.{Carries, fill_pack-Carries}
use wenas.Msger.Sending.{Whole}
use wenas.Msger.Cutting.{
  IsCut, Offers, Backed, pack_len_bound, advance-IsCut, made-Sound, update-IsCut,
}
use wenas.Msger.Retrying.{Intact}

-- The link after a turn of the sender: a pack more, or not, and no other buffer has changed.
pub record Made (r t w u v : ℕ) (recvbuf : Ring (Option Pack)) (l : Link) : Type 0 where
  pub made : ℕ
  pub cut_up : ℕ
  pub few : (w ≤ made) × (made ≤ w + 1)
  pub intact : Intact r t made recvbuf l
  pub backed : Backed cut_up v l.channel.msgbuf l.shared.messages

module _ (r t w u v : ℕ) (recvbuf : Ring (Option Pack)) (l : Link) (s : Intact r t w recvbuf l)
    (q : Backed u v l.channel.msgbuf l.shared.messages) where
  -- The link that `xchannel_serial_msg` leaves, from the message, the pack and the send buffer.
  abbrev rest : ℕ → Pack → Message
  rest p pack = advance pack.head.len (l.shared.messages p)

  abbrev after : ℕ → Pack → Ring Pack → Link
  after p pack b = record {
    channel = record l.channel {
      sendbuf = record b { wpos = inc16 l.channel.sendbuf.wpos };
      msgbuf = record l.channel.msgbuf {
        spos =
            if (rest p pack).frame.spos == (rest p pack).frame.wpos
            then inc16 l.channel.msgbuf.spos
            else l.channel.msgbuf.spos;
      };
    };
    shared = record l.shared { messages = update l.shared.messages p (rest p pack) };
  }

  serial_next_lem :
      (p : ℕ) (old pack : Pack) (b : Ring Pack)
      → slot l.channel.msgbuf l.channel.msgbuf.spos ≡ ok (some p)
      → slot l.channel.sendbuf l.channel.sendbuf.wpos ≡ ok old
      → fill_pack l p old ≡ ok pack
      → store l.channel.sendbuf l.channel.sendbuf.wpos pack ≡ ok b
      → serial_next l ≡ ok (after p pack b)
  unfolding serial_next
  serial_next_lem p old pack b e1 e2 e3 e4 = simp (e1, e2, e3, e4) refl

  after-Backed :
      (p : ℕ) (pack : Pack) (b : Ring Pack)
      → u < v
      → IsCut (rest p pack)
      → (u' : ℕ) × Backed u' v (after p pack b).channel.msgbuf (after p pack b).shared.messages
  after-Backed p pack b waiting c =
      elim (Bool-cases ((rest p pack).frame.spos == (rest p pack).frame.wpos)) [
        | inl done ↦ (
          suc u,
          record {
            ring = record {
              bits = q.ring.bits;
              few = q.ring.few;
              power = q.ring.power;
              sized = q.ring.sized;
            };
            sent = rw done (omega (arith, q.sent));
            written = q.written;
            in_order = omega (arith, q.in_order);
            offers = λ i lo hi. offered i (q.offers i (omega arith) hi);
          },
        )
        | inr part ↦ (
          u,
          record {
            ring = record {
              bits = q.ring.bits;
              few = q.ring.few;
              power = q.ring.power;
              sized = q.ring.sized;
            };
            sent = rw part q.sent;
            written = q.written;
            in_order = q.in_order;
            offers = λ i lo hi. offered i (q.offers i lo hi);
          },
        )
      ]
    where
      offered :
          (i : ℕ)
          → Offers l.channel.msgbuf l.shared.messages i
          → Offers (after p pack b).channel.msgbuf (after p pack b).shared.messages i
      offered i o = record {
        message = o.message;
        here = o.here;
        is_cut = update-IsCut l.shared.messages p o.message (rest p pack) c o.is_cut;
      }

  serial_next-Made :
      w < r + l.channel.sendbuf.range → u < v → Yields (Made r t w u v recvbuf) (serial_next l)
  serial_next-Made room waiting =
      let o : Offers l.channel.msgbuf l.shared.messages u = q.offers u (omega arith) waiting in
      let m : Message = l.shared.messages o.message in
      let old : Whole l.channel.sendbuf w = s.sound.whole w in
      let bound : (pack_len m.frame ≤ 1280) × (m.frame.spos + pack_len m.frame ≤ m.frame.wpos) =
        pack_len_bound m o.is_cut in
      let c : Carries o.message m (take (pack_len m.frame) (drop m.frame.spos m.frame.buf))
          (pack_len m.frame) (fill_pack l o.message old.pack) =
        fill_pack-Carries l o.message old.pack m (pack_len m.frame) refl refl old.sized bound.0
          (omega (arith, bound.1, o.is_cut.inside)) in
      let b : Ring Pack = put l.channel.sendbuf w c.pack in
      let next : serial_next l ≡ ok (after o.message c.pack b) =
        serial_next_lem o.message old.pack c.pack b
          (ap (slot l.channel.msgbuf) q.sent
            ∙ slot_lem l.channel.msgbuf q.ring u
            ∙ ap or_fault o.here)
          (ap (slot l.channel.sendbuf) s.sound.written
            ∙ slot_lem l.channel.sendbuf s.sound.ring w
            ∙ ap or_fault old.here)
          c.result
          (ap (λ i. store l.channel.sendbuf i c.pack) s.sound.written
            ∙ store_lem l.channel.sendbuf s.sound.ring w c.pack) in
      let cut : IsCut (rest o.message c.pack) =
        subst (λ n. IsCut (advance n m)) (sym c.len) (advance-IsCut m o.is_cut) in
      let queue : (u' : ℕ) × Backed u' v (after o.message c.pack b).channel.msgbuf
            (after o.message c.pack b).shared.messages =
        after-Backed o.message c.pack b waiting cut in
      rw next (
        yields (record {
          made = suc w;
          cut_up = queue.0;
          few = (omega arith, omega arith);
          intact = record {
            sound =
                made-Sound r t w o.message l.channel.sendbuf c.pack s.sound room
                  (omega (arith, c.len, bound.0)) c.sized c.known;
            queue = record {
              ring = record {
                bits = s.queue.ring.bits;
                few = s.queue.ring.few;
                power = s.queue.ring.power;
                sized = s.queue.ring.sized;
              };
              small = s.queue.small;
            };
            recvbuf_is = s.recvbuf_is;
          };
          backed = queue.1;
        }))

  idle : Made r t w u v recvbuf l
  idle = record { made = w; cut_up = u; few = (omega arith, omega arith); intact = s; backed = q }

  room_lem : ltb 0 (writable l.channel.sendbuf) ≡ true → w < r + l.channel.sendbuf.range
  room_lem h = omega (
    arith,
    ltb→lt 0 (writable l.channel.sendbuf) h,
    s.sound.read,
    s.sound.written,
    s.sound.in_order,
    range_small l.channel.sendbuf s.sound.ring,
  )

  waiting_lem : ltb 0 (sendable l.channel.msgbuf) ≡ true → u < v
  waiting_lem h = omega (
    arith,
    ltb→lt 0 (sendable l.channel.msgbuf) h,
    q.sent,
    q.written,
    q.in_order,
    range_small l.channel.msgbuf q.ring,
  )

  -- For a link whose send buffer and queue of messages are in order, `xchannel_serial_msg` ends within
  -- its memory. It makes one pack, or none; the packs acknowledged and sent, the queue's end and the
  -- receive buffer are as before, the send buffer and the queue are in order again, and so no more
  -- packs are made and not acknowledged than the range of the buffer.
  pub serial_msg-Made : Yields (Made r t w u v recvbuf) (serial_msg l)
  unfolding serial_msg
  serial_msg-Made = elim (Bool-cases (ltb 0 (writable l.channel.sendbuf))) [
    | inl room ↦ elim (Bool-cases (ltb 0 (sendable l.channel.msgbuf))) [
      | inl waiting ↦ rw (room, waiting) (serial_next-Made (room_lem room) (waiting_lem waiting))
      | inr empty ↦ rw (room, empty) (yields idle)
    ]
    | inr full ↦ rw full (yields idle)
  ]
