-- ===== src/Msger/Going.antt =====
-- src/xnet/xmsger.c: `xchannel_send_pack` sends the first pack that has not been sent.
use wenas.Base.{
  ℕ, ◌<◌, ◌≡◌, refl, inl, inr, Option, Run, ok, ◌>>=◌, ltb, ◌==◌, if◌then◌else◌, Yields, yields,
  Yields-bind, Yields-imp, Bool-cases, ltb→lt, arith,
}
use wenas.Msger.{Pack, Ring, Link, Api, sendable}
use wenas.Msger.Send.{serial_msg, send_next, send_pack}
use wenas.Msger.Places.{range_small}
use wenas.Msger.Retrying.{Intact}
use wenas.Msger.Cutting.{Backed}
use wenas.Msger.Making.{Made, serial_msg-Made}
use wenas.Msger.Leaving.{Sent, send_next-Sent}

-- `xchannel_send_pack` makes a pack where none waits, and sends the first that waits.
module _ (r t w u v : ℕ) (recvbuf : Ring (Option Pack)) (api : Api) (l : Link)
    (s : Intact r t w recvbuf l) (q : Backed u v l.channel.msgbuf l.shared.messages) where
  abbrev prepare : Run Link
  prepare = if sendable l.channel.sendbuf == 0 then serial_msg l else ok l

  abbrev proceed : Link → Run Link
  proceed l' = if ltb 0 (sendable l'.channel.sendbuf) then send_next api l' else ok l'

  send_pack_lem : send_pack api l ≡ (prepare >>= proceed)
  unfolding send_pack
  send_pack_lem = refl

  prepare-Made : Yields (Made r t w u v recvbuf) prepare
  prepare-Made = elim (Bool-cases (sendable l.channel.sendbuf == 0)) [
    | inl none_waits ↦ rw none_waits (serial_msg-Made r t w u v recvbuf l s q)
    | inr waits ↦ rw waits (
        yields (record {
          made = w;
          cut_up = u;
          few = (omega arith, omega arith);
          intact = s;
          backed = q;
        }))
  ]

  proceed-Sent :
      (l' : Link) → Made r t w u v recvbuf l' → Yields (Sent 2 r t w v recvbuf) (proceed l')
  proceed-Sent l' m = elim (Bool-cases (ltb 0 (sendable l'.channel.sendbuf))) [
    | inl waits ↦
        let more : t < m.made = omega (
          arith,
          ltb→lt 0 (sendable l'.channel.sendbuf) waits,
          m.intact.sound.sent,
          m.intact.sound.written,
          m.intact.sound.in_order,
          range_small l'.channel.sendbuf m.intact.sound.ring,
        ) in
        rw waits (
          Yields-imp
            (λ (x : Link) (n : Sent 1 r t m.made v recvbuf x). record {
              sent_to = n.sent_to;
              made = n.made;
              cut_up = n.cut_up;
              one_more = n.one_more;
              few = (omega (arith, n.few, m.few), omega (arith, n.few, m.few));
              intact = n.intact;
              backed = n.backed;
            })
            (send_next-Sent r t m.made m.cut_up v recvbuf api l' m.intact m.backed more))
    | inr empty ↦ rw empty (
        yields (record {
          sent_to = t;
          made = m.made;
          cut_up = m.cut_up;
          one_more = (omega arith, omega arith);
          few = (m.few.0, omega (arith, m.few));
          intact = m.intact;
          backed = m.backed;
        }))
  ]

  -- For a link whose send buffer and queue of messages are in order, and whatever the network takes,
  -- `xchannel_send_pack` ends within its memory. At most one pack more has been sent, and at most two
  -- have been made; those acknowledged, the queue's end and the receive buffer are as before. The send
  -- buffer and the queue are in order again: no pack is sent that has not been made, and none is made
  -- over one that the peer has not acknowledged.
  pub send_pack-Sent : Yields (Sent 2 r t w v recvbuf) (send_pack api l)
  send_pack-Sent = rw send_pack_lem (Yields-bind prepare-Made proceed-Sent)
