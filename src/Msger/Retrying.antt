-- ===== src/Msger/Retrying.antt =====
-- src/xnet/xmsger.c: `xchannel_recv_ack` sends a pack again that the peer has overtaken.
use wenas.Base.{
  ℕ, zero, suc, ◌+◌, ◌%◌, ◌≤◌, ◌<◌, ◌≡◌, refl, ap, ◌∙◌, inl, inr, Bool, true, false, List, Option,
  Run, ok, or_fault, ◌>>=◌, ltb, ◌==◌, length, if◌then◌else◌, Yields, yields, Yields-bind,
  Bool-cases, le→leb, ne_of_==, arith,
}
use mathlib.Core.Path.{subst}
use wenas.Msger.{
  Head, Pack, Ring, Channel, Link, Api, inc16, sub16, slot, store, sendto, clock, emit,
}
use wenas.Msger.Acks.{resent, longer, resend_at, resend_until}
use wenas.Msger.Places.{slot_lem, store_lem}
use wenas.Msger.Sending.{Whole, Sound, Replaces, put-Sound}
use wenas.Msger.Acking.{IsQueue}

-- A link whose send buffer and queue are in order.
pub record Intact (r t w : ℕ) (recvbuf : Ring (Option Pack)) (l : Link) : Type 0 where
  pub sound : Sound r t w l.channel.sendbuf
  pub queue : IsQueue l.channel.msgbuf
  pub recvbuf_is : l.channel.recvbuf ≡ recvbuf

-- What is sent lies in the memory; the channel and the messages are as before.
pub sendto-channel :
    (api : Api) (sock : ℕ) (addr : List ℕ) (head : Head) (body : List ℕ) (len : ℕ) (l : Link)
    → len ≤ length body
    → Yields
        (λ (r : Bool × Link). (r.1.channel ≡ l.channel) × (r.1.shared.messages ≡ l.shared.messages))
        (sendto api sock addr head body len l)
unfolding sendto emit
sendto-channel api sock addr head body len l inside =
    rw (le→leb len (length body) inside) (elim (Bool-cases (api.accepts l.shared.sends)) [
      | inl yes_sent ↦ rw yes_sent (yields (refl, refl))
      | inr no_sent ↦ rw no_sent (yields (refl, refl))
    ])

module _ (r t w : ℕ) (recvbuf : Ring (Option Pack)) (api : Api) where
  resent-Replaces : (c : Channel) (now : ℕ) (q : Pack) → Replaces q (resent c now q)
  unfolding resent
  resent-Replaces c now q = record { msg = refl; bytes = record { len = refl; body = refl } }

  longer-Replaces : (q q' : Pack) → Replaces q q' → Replaces q (longer q')
  unfolding longer
  longer-Replaces q q' e = record {
    msg = e.msg;
    bytes = record { len = e.bytes.len; body = e.bytes.body };
  }

  module _ (i : ℕ) (l : Link) (s : Intact r t w recvbuf l) where
    abbrev q : Whole l.channel.sendbuf i
    q = s.sound.whole i

    abbrev again : Pack
    again = resent l.channel (api.clock l.shared.clocks) q.pack

    abbrev asked : Link
    asked = record l { shared = record l.shared { clocks = l.shared.clocks + 1 } }

    abbrev stored : Bool × Link → Run (Bool × Link)
    stored sent =
        store l.channel.sendbuf (i % 65536) (if sent.0 then longer again else again) >>= λ b.
        ok (sent.0, record sent.1 { channel = record l.channel { sendbuf = b } })

    abbrev send_again : Run (Bool × Link)
    send_again =
        sendto api l.channel.sock l.channel.addr again.head again.body again.head.len asked
        >>= stored

    resend_at_lem : resend_at api (i % 65536) l ≡ (
        if q.pack.ts == 0
        then ok (false, l)
        else (if ltb q.pack.head.resend 2 then send_again else ok (false, l)))
    unfolding resend_at clock
    resend_at_lem =
        let found : slot l.channel.sendbuf (i % 65536) ≡ ok q.pack =
          slot_lem l.channel.sendbuf s.sound.ring i ∙ ap or_fault q.here in
        rw found refl

    stored-Intact :
        (sent : Bool × Link) → Yields (λ (x : Bool × Link). Intact r t w recvbuf x.1) (stored sent)
    stored-Intact sent =
        let new : Pack = if sent.0 then longer again else again in
        let like : Replaces q.pack new = elim (Bool-cases sent.0) [
          | inl e ↦ rw e (
              longer-Replaces q.pack again
                (resent-Replaces l.channel (api.clock l.shared.clocks) q.pack))
          | inr e ↦ rw e (resent-Replaces l.channel (api.clock l.shared.clocks) q.pack)
        ] in
        simp (store_lem l.channel.sendbuf s.sound.ring i new) (
          yields (record {
            sound = put-Sound r t w l.channel.sendbuf s.sound i q.pack new q.here like;
            queue = s.queue;
            recvbuf_is = s.recvbuf_is;
          }))

    resend_at-Intact :
        Yields (λ (x : Bool × Link). Intact r t w recvbuf x.1) (resend_at api (i % 65536) l)
    resend_at-Intact =
        let like : Replaces q.pack again =
          resent-Replaces l.channel (api.clock l.shared.clocks) q.pack in
        rw resend_at_lem (elim (Bool-cases (q.pack.ts == 0)) [
          | inl before ↦ rw before (yields s)
          | inr now ↦ elim (Bool-cases (ltb q.pack.head.resend 2)) [
            | inl seldom ↦
                rw (now, seldom)
                  (Yields-bind
                    (sendto-channel api l.channel.sock l.channel.addr again.head again.body
                      again.head.len asked
                      (omega (arith, like.bytes.len, ap length like.bytes.body, q.short, q.sized)))
                    (λ (sent : Bool × Link) _. stored-Intact sent))
            | inr often ↦ rw (now, often) (yields s)
          ]
        ])

  abbrev pick : ℕ → ℕ → ℕ → Bool × Link → Run Link
  pick fuel pos sn x = elim x.0 [ true ↦ ok x.1 | false ↦ resend_until fuel api (inc16 pos) sn x.1 ]

  resend_until_lem :
      (fuel pos sn : ℕ) (l : Link)
      → resend_until (suc fuel) api pos sn l
        ≡ (if pos == sn then ok l else (resend_at api pos l >>= pick fuel pos sn))
  unfolding resend_until
  resend_until_lem fuel pos sn l = refl

  pub resend_until-Intact :
      (fuel pos sn : ℕ) (l : Link)
      → Intact r t w recvbuf l
      → pos < 65536
      → sn < 65536
      → sub16 sn pos < fuel
      → Yields (Intact r t w recvbuf) (resend_until fuel api pos sn l)
  resend_until-Intact zero pos sn l s small small' enough = absurd (omega arith)
  resend_until-Intact (suc fuel) pos sn l s small small' enough =
      let at_pos : pos % 65536 ≡ pos = omega arith in
      rw (resend_until_lem fuel pos sn l) (elim (Bool-cases (pos == sn)) [
        | inl end ↦ rw end (yields s)
        | inr more ↦ rw more (
            Yields-bind
              (subst
                (λ k. Yields (λ (x : Bool × Link). Intact r t w recvbuf x.1) (resend_at api k l))
                at_pos (resend_at-Intact pos l s))
              (λ (x : Bool × Link) s'. elim (Bool-cases x.0) [
                | inl stop ↦ rw stop (yields s')
                | inr on ↦ rw on (
                    resend_until-Intact fuel (inc16 pos) sn x.1 s' (omega arith) small'
                      (omega (arith, ne_of_== pos sn more)))
              ]))
      ])
