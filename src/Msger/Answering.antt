-- ===== src/Msger/Answering.antt =====
-- src/xnet/xmsger.c: `xchannel_recv_ack`, whatever the acknowledgement says.
use wenas.Base.{
  ℕ, zero, suc, ◌+◌, ◌-◌, ◌%◌, ◌≤◌, ◌<◌, ◌≡◌, refl, sym, ap, ◌∙◌, inl, inr, false, Option, Run, ok,
  ◌>>=◌, ltb, leb, ◌==◌, if◌then◌else◌, Yields, yields, Yields-bind, Yields-imp, Bool-cases, leb→le,
  leb→gt, arith, Bool, ◌&&◌,
}
use mathlib.Core.Path.{subst}
use wenas.Msger.{Head, Pack, Ring, Channel, Link, Api, sub16, recvable, clock}
use wenas.Msger.Acks.{
  sample_once, acks_more, acks_sent, ack_until, resend_until, ack_early, recv_ack_on, recv_ack,
}
use wenas.Msger.Sampling.{Sampled, sample_once-Sampled}
use wenas.Msger.Acking.{IsQueue, Safe, ack_until_done, ack_until-Safe, under_way}
use wenas.Msger.Retrying.{Intact, resend_until-Intact}

lt→leb_false : (a b : ℕ) → a < b → leb b a ≡ false
lt→leb_false a b h = ground arith

-- The number up to which `pos` acknowledges, counted without wrap-around, when `r` packs have been
-- acknowledged and `t` sent: `pos` counts for what it is only if that is not beyond `t`.
abbrev pub acked_to : ℕ → ℕ → ℕ → ℕ
acked_to r t pos = let goal = r + sub16 pos (r % 65536) in if leb goal t then goal else r

-- Whether a pack is under way and number `sn` stands for one of these or for the next to be sent.
abbrev pub is_known : ℕ → ℕ → ℕ → Bool
is_known r t sn = ltb r t && leb (r + sub16 sn (r % 65536)) t

-- How many packs the peer has after an acknowledgement: none more, unless its number is known.
abbrev pub after_ack : Head → ℕ → ℕ → ℕ
after_ack head r t = if is_known r t head.ack_sn then acked_to r t head.ack_pos else r

-- The code's test, from how many packs are under way and how far the number is ahead.
is_known_lem :
    (r t n far : ℕ) → r ≤ t → n ≡ t - r → (ltb 0 n && leb far n) ≡ (ltb r t && leb (r + far) t)
is_known_lem r t n far le e = ground arith

module _ (w : ℕ) (recvbuf : Ring (Option Pack)) (api : Api) where
  acks_sent_lem :
      (limit r t sn : ℕ) (l : Link)
      → limit ≤ 10000000
      → Safe limit r t w recvbuf l
      → acks_sent sn l.channel.sendbuf ≡ is_known r t sn
  unfolding acks_sent
  acks_sent_lem limit r t sn l few s =
      let n : recvable l.channel.sendbuf ≡ t - r =
        under_way limit t w sn recvbuf few r l.channel.sendbuf s.sound in
      is_known_lem r t (recvable l.channel.sendbuf) (sub16 sn l.channel.sendbuf.rpos)
        s.sound.in_order.0 n
      ∙ ap (λ k. ltb r t && leb (r + sub16 sn k) t) s.sound.read

  Safe-Intact : (limit r t : ℕ) (l : Link) → Safe limit r t w recvbuf l → Intact r t w recvbuf l
  Safe-Intact limit r t l s = record { sound = s.sound; queue = s.queue; recvbuf_is = s.recvbuf_is }

  module _ (limit r t pos : ℕ) (few : limit ≤ 10000000) (small : pos < 65536) where
    out_of_reach :
        (l : Link)
        → Safe limit r t w recvbuf l
        → leb (r + sub16 pos (r % 65536)) t ≡ false
        → acks_more pos l.channel.sendbuf ≡ false
    unfolding acks_more
    out_of_reach l s beyond =
        let far : t - r < sub16 pos (r % 65536) =
          omega (arith, leb→gt (r + sub16 pos (r % 65536)) t beyond, s.sound.in_order) in
        let more : leb (sub16 pos l.channel.sendbuf.rpos) (recvable l.channel.sendbuf) ≡ false =
          lt→leb_false (recvable l.channel.sendbuf) (sub16 pos l.channel.sendbuf.rpos) (
            omega (
              arith,
              under_way limit t w pos recvbuf few r l.channel.sendbuf s.sound,
              s.sound.read,
            )) in
        rw more refl

    loop-Safe :
        (fuel : ℕ) (l : Link)
        → 65536 ≤ fuel
        → Safe limit r t w recvbuf l
        → Yields (Safe limit (acked_to r t pos) t w recvbuf) (ack_until fuel pos l)
    loop-Safe zero l enough s = absurd (omega arith)
    loop-Safe (suc fuel) l enough s =
        let goal : ℕ = r + sub16 pos (r % 65536) in
        elim (Bool-cases (leb goal t)) [
          | inl in_reach ↦ rw in_reach (
              ack_until-Safe limit t w pos recvbuf few (suc fuel) r goal l s (omega arith)
                (leb→le goal t in_reach) (omega arith) (omega arith))
          | inr beyond ↦ rw (beyond, ack_until_done fuel pos l (out_of_reach l s beyond)) (yields s)
        ]

  ack_early_lem :
      (fuel sn : ℕ) (l : Link)
      → ack_early fuel api sn l ≡ (
          sample_once l.channel sn >>= λ c.
          if ltb 3 (sub16 sn c.sendbuf.rpos)
          then resend_until fuel api c.sendbuf.rpos sn (record l { channel = c })
          else ok (record l { channel = c }))
  unfolding ack_early
  ack_early_lem fuel sn l = refl

  ack_early-Intact :
      (limit r t sn fuel : ℕ) (l : Link)
      → limit ≤ 10000000
      → sn < 65536
      → 65536 ≤ fuel
      → Safe limit r t w recvbuf l
      → Yields (Intact r t w recvbuf) (ack_early fuel api sn l)
  ack_early-Intact limit r t sn fuel l few small enough s =
      let at_sn : sn % 65536 ≡ sn = omega arith in
      rw (ack_early_lem fuel sn l) (
        Yields-bind
          (subst (λ k. Yields (Sampled r t w sn l.channel) (sample_once l.channel k)) at_sn
            (sample_once-Sampled r t w sn l.channel s.sound (omega (arith, s.counted))))
          (λ (c : Channel) a.
            let held : Intact r t w recvbuf (record l { channel = c }) = record {
              sound = a.sound;
              queue = subst IsQueue (sym a.msgbuf) s.queue;
              recvbuf_is = a.recvbuf ∙ s.recvbuf_is;
            } in
            elim (Bool-cases (ltb 3 (sub16 sn c.sendbuf.rpos))) [
              | inl far ↦ rw far (
                  resend_until-Intact r t w recvbuf api fuel c.sendbuf.rpos sn
                    (record l { channel = c }) held (omega (arith, a.sound.read)) small
                    (omega arith))
              | inr near ↦ rw near (yields held)
            ]))

  abbrev timed : Link → Link
  timed l = record {
    channel = record l.channel {
      recv_ts = api.clock l.shared.clocks;
      ack_ts = api.clock l.shared.clocks;
    };
    shared = record l.shared { clocks = l.shared.clocks + 1 };
  }

  abbrev rest : ℕ → Head → Link → Run Link
  rest fuel head l = if head.ack_sn == head.ack_pos then ok l else ack_early fuel api head.ack_sn l

  recv_ack_lem :
      (fuel : ℕ) (head : Head) (l : Link)
      → recv_ack_on fuel api head l ≡ (
          if acks_sent head.ack_sn l.channel.sendbuf
          then (ack_until fuel head.ack_pos (timed l) >>= rest fuel head)
          else ok l)
  unfolding recv_ack_on clock
  recv_ack_lem fuel head l = refl

  acked_range : (r t pos : ℕ) → r ≤ t → (r ≤ acked_to r t pos) × (acked_to r t pos ≤ t)
  acked_range r t pos le = ground arith

  -- For a link whose send buffer is in order, with `r` packs acknowledged, `t` sent and `w` made, and
  -- for any acknowledgement: `xchannel_recv_ack` ends, within its memory, on no more than 2 ^ 16 turns
  -- of each loop. The buffer is then in order with the packs acknowledged up to the position that the
  -- head gives, if a pack is under way and neither that position nor the number in the head is beyond
  -- the next pack to be sent; else with as many as before. They are never beyond `t`. The packs sent and made are as many as before, and so is the receive buffer.
  -- Fewer than ten million packs have been counted for the rate, those under way included.
  pub recv_ack-Intact :
      (limit r t : ℕ) (head : Head) (l : Link)
      → limit ≤ 10000000
      → head.ack_sn < 65536
      → head.ack_pos < 65536
      → Safe limit r t w recvbuf l
      → Yields
          (λ (l' : Link).
            Intact (after_ack head r t) t w recvbuf l'
            × (r ≤ after_ack head r t)
            × (after_ack head r t ≤ t))
          (recv_ack api head l)
  unfolding recv_ack
  recv_ack-Intact limit r t head l few small small' s =
      rw (recv_ack_lem 65536 head l, acks_sent_lem limit r t head.ack_sn l few s)
        (elim (Bool-cases (is_known r t head.ack_sn)) [
          | inl known ↦
              let stop : ℕ = acked_to r t head.ack_pos in
              let begun : Safe limit r t w recvbuf (timed l) = record {
                sound = s.sound;
                queue = s.queue;
                counted = s.counted;
                recvbuf_is = s.recvbuf_is;
              } in
              let within : (r ≤ stop) × (stop ≤ t) =
                acked_range r t head.ack_pos (s.sound.in_order.0) in
              rw known (
                Yields-bind
                  (loop-Safe limit r t head.ack_pos few small' 65536 (timed l) (omega arith) begun)
                  (λ (l' : Link) (s' : Safe limit stop t w recvbuf l').
                    Yields-imp
                      (λ (l'' : Link) (i : Intact stop t w recvbuf l''). (i, within.0, within.1))
                      (rest-Intact limit stop t head l' few small s')))
          | inr unknown ↦
              rw unknown (yields (Safe-Intact limit r t l s, omega arith, s.sound.in_order.0))
        ])
    where
      rest-Intact :
          (limit r t : ℕ) (head : Head) (l : Link)
          → limit ≤ 10000000
          → head.ack_sn < 65536
          → Safe limit r t w recvbuf l
          → Yields (Intact r t w recvbuf) (rest 65536 head l)
      rest-Intact limit r t head l few small s = elim (Bool-cases (head.ack_sn == head.ack_pos)) [
        | inl e ↦ rw e (yields (Safe-Intact limit r t l s))
        | inr e ↦ rw e (ack_early-Intact limit r t head.ack_sn 65536 l few small (omega arith) s)
      ]
