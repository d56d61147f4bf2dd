-- ===== src/Msger/Leaving.antt =====
-- src/xnet/xmsger.c: a pack that has been made leaves for the peer.
use wenas.Base.{
  ℕ, suc, ◌+◌, ◌≤◌, ◌<◌, ◌≡◌, refl, sym, ap, ◌∙◌, inl, inr, Bool, Option, some, Run, ok, or_fault,
  ◌>>=◌, ◌==◌, length, if◌then◌else◌, Yields, yields, Yields-bind, Yields-imp, Bool-cases, add64,
  arith,
}
use mathlib.Core.Path.{subst}
use wenas.Msger.{Pack, Ring, Channel, Link, Api, inc16, slot, store, sendto, clock}
use wenas.Msger.Send.{serial_msg, carry_ack, sent_pack, after_send, send_next}
use wenas.Msger.Places.{cell, put, cell-put_self, slot_lem, store_lem}
use wenas.Msger.Sending.{Whole, Sound, Replaces, put-Sound}
use wenas.Msger.Acking.{IsQueue}
use wenas.Msger.Retrying.{Intact, sendto-channel}
use wenas.Msger.Cutting.{Backed}
use wenas.Msger.Making.{Made, serial_msg-Made}

carry_ack-Replaces : (c : Channel) (q : Pack) → Replaces q (carry_ack c q)
unfolding carry_ack
carry_ack-Replaces c q = elim (Bool-cases (c.ack.ack_type == 0)) [
  | inl nothing ↦ rw nothing (record { msg = refl; bytes = record { len = refl; body = refl } })
  | inr owes ↦ rw owes (record { msg = refl; bytes = record { len = refl; body = refl } })
]

sent_pack-Replaces : (c : Channel) (now : ℕ) (q : Pack) → Replaces q (sent_pack c now q)
unfolding sent_pack
sent_pack-Replaces c now q = record { msg = refl; bytes = record { len = refl; body = refl } }

-- A pack more has been sent.
abbrev gone : Ring Pack → Ring Pack
gone b = record b { spos = inc16 b.spos }

gone-Sound : (r t w : ℕ) (b : Ring Pack) → Sound r t w b → t < w → Sound r (suc t) w (gone b)
gone-Sound r t w b s lt = record {
  ring = record {
    bits = s.ring.bits;
    few = s.ring.few;
    power = s.ring.power;
    sized = s.ring.sized;
  };
  read = s.read;
  sent = omega (arith, s.sent);
  written = s.written;
  in_order = omega (arith, s.in_order);
  whole = λ i.
      let h = s.whole i in
      record { pack = h.pack; here = h.here; short = h.short; sized = h.sized };
  queued = λ i lo hi.
      let h = s.queued i lo hi in
      record { pack = h.pack; here = h.here; message = h.message; known = h.known };
}

-- The link after a pack may have been sent, and packs may have been made before and after.
pub record Sent (extra r t w v : ℕ) (recvbuf : Ring (Option Pack)) (l : Link) : Type 0 where
  pub sent_to : ℕ
  pub made : ℕ
  pub cut_up : ℕ
  pub one_more : (t ≤ sent_to) × (sent_to ≤ t + 1)
  pub few : (w ≤ made) × (made ≤ w + extra)
  pub intact : Intact r sent_to made recvbuf l
  pub backed : Backed cut_up v l.channel.msgbuf l.shared.messages

-- Only the buffers of a channel count.
Intact-same :
    {r t w : ℕ} {recvbuf : Ring (Option Pack)} (l l' : Link)
    → l'.channel ≡ l.channel
    → Intact r t w recvbuf l
    → Intact r t w recvbuf l'
Intact-same {r} {t} {w} {recvbuf} l l' e s = record {
  sound = subst (λ (c : Channel). Sound r t w c.sendbuf) (sym e) s.sound;
  queue = subst (λ (c : Channel). IsQueue c.msgbuf) (sym e) s.queue;
  recvbuf_is = ap (λ (c : Channel). c.recvbuf) e ∙ s.recvbuf_is;
}

module _ (r t w u v : ℕ) (recvbuf : Ring (Option Pack)) (api : Api) where
  module _ (l : Link) (pack : Pack) where
    abbrev stamp : Pack
    stamp = sent_pack l.channel (api.clock l.shared.clocks) pack

    abbrev departed : Link
    departed = record {
      channel = record l.channel {
        ack = record l.channel.ack { ack_type = 0 };
        sendbuf = gone (put l.channel.sendbuf t stamp);
        send_ts = api.clock l.shared.clocks;
        kabuf = 0;
        spos = add64 l.channel.spos pack.head.len;
      };
      shared = record l.shared { clocks = l.shared.clocks + 1 };
    }

    after_send_lem :
        store l.channel.sendbuf l.channel.sendbuf.spos stamp ≡ ok (put l.channel.sendbuf t stamp)
        → after_send api l pack ≡ serial_msg departed
    unfolding after_send clock
    after_send_lem e = rw e refl

    after_send-Sent :
        Intact r t w recvbuf l
        → Backed u v l.channel.msgbuf l.shared.messages
        → t < w
        → cell l.channel.sendbuf t ≡ some pack
        → Yields (Sent 1 r t w v recvbuf) (after_send api l pack)
    after_send-Sent s q lt here =
        let stored : store l.channel.sendbuf l.channel.sendbuf.spos stamp
            ≡ ok (put l.channel.sendbuf t stamp) =
          ap (λ i. store l.channel.sendbuf i stamp) s.sound.sent
          ∙ store_lem l.channel.sendbuf s.sound.ring t stamp in
        let kept : Sound r t w (put l.channel.sendbuf t stamp) =
          put-Sound r t w l.channel.sendbuf s.sound t pack stamp here
            (sent_pack-Replaces l.channel (api.clock l.shared.clocks) pack) in
        let next : Intact r (suc t) w recvbuf departed = record {
          sound = gone-Sound r t w (put l.channel.sendbuf t stamp) kept lt;
          queue = s.queue;
          recvbuf_is = s.recvbuf_is;
        } in
        rw (after_send_lem stored) (
          Yields-imp
            (λ (l' : Link) (m : Made r (suc t) w u v recvbuf l'). record {
              sent_to = suc t;
              made = m.made;
              cut_up = m.cut_up;
              one_more = (omega arith, omega arith);
              few = (m.few.0, omega (arith, m.few));
              intact = m.intact;
              backed = m.backed;
            })
            (serial_msg-Made r (suc t) w u v recvbuf departed next q))

  module _ (l : Link) (s : Intact r t w recvbuf l)
      (q : Backed u v l.channel.msgbuf l.shared.messages) (lt : t < w) where
    abbrev first : Whole l.channel.sendbuf t
    first = s.sound.whole t

    abbrev ready : Pack
    ready = carry_ack l.channel first.pack

    abbrev offered : Link
    offered = record l { channel = record l.channel { sendbuf = put l.channel.sendbuf t ready } }

    abbrev go_on : Bool × Link → Run Link
    go_on x = if x.0 then after_send api x.1 ready else ok x.1

    send_next_lem :
        slot l.channel.sendbuf l.channel.sendbuf.spos ≡ ok first.pack
        → store l.channel.sendbuf l.channel.sendbuf.spos ready ≡ ok (put l.channel.sendbuf t ready)
        → send_next api l ≡ (
            sendto api l.channel.sock l.channel.addr ready.head ready.body ready.head.len offered
            >>= go_on)
    unfolding send_next
    send_next_lem e1 e2 = rw (e1, e2) refl

    offered-Intact : Intact r t w recvbuf offered
    offered-Intact = record {
      sound =
          put-Sound r t w l.channel.sendbuf s.sound t first.pack ready first.here
            (carry_ack-Replaces l.channel first.pack);
      queue = s.queue;
      recvbuf_is = s.recvbuf_is;
    }

    go_on-Sent :
        (x : Bool × Link)
        → (x.1.channel ≡ offered.channel) × (x.1.shared.messages ≡ offered.shared.messages)
        → Yields (Sent 1 r t w v recvbuf) (go_on x)
    go_on-Sent x same =
        let intact : Intact r t w recvbuf x.1 = Intact-same offered x.1 same.0 offered-Intact in
        let queue : Backed u v x.1.channel.msgbuf x.1.shared.messages =
          subst (λ (c : Channel). Backed u v c.msgbuf x.1.shared.messages) (sym same.0)
            (subst (Backed u v l.channel.msgbuf) (sym same.1) q) in
        elim (Bool-cases x.0) [
          | inl taken ↦ rw taken (
              after_send-Sent x.1 ready intact queue lt (
                ap (λ (c : Channel). cell c.sendbuf t) same.0
                ∙ cell-put_self l.channel.sendbuf s.sound.ring t ready))
          | inr lost ↦ rw lost (
              yields (record {
                sent_to = t;
                made = w;
                cut_up = u;
                one_more = (omega arith, omega arith);
                few = (omega arith, omega arith);
                intact = intact;
                backed = queue;
              }))
        ]

    pub send_next-Sent : Yields (Sent 1 r t w v recvbuf) (send_next api l)
    send_next-Sent =
        let like : Replaces first.pack ready = carry_ack-Replaces l.channel first.pack in
        rw
          (send_next_lem
            (ap (slot l.channel.sendbuf) s.sound.sent
              ∙ slot_lem l.channel.sendbuf s.sound.ring t
              ∙ ap or_fault first.here)
            (ap (λ i. store l.channel.sendbuf i ready) s.sound.sent
              ∙ store_lem l.channel.sendbuf s.sound.ring t ready))
          (Yields-bind
            (sendto-channel api l.channel.sock l.channel.addr ready.head ready.body ready.head.len
              offered
              (omega (arith, like.bytes.len, ap length like.bytes.body, first.short, first.sized)))
            go_on-Sent)
