-- ===== src/Msger/Acking.antt =====
-- src/xnet/xmsger.c: the loop of `xchannel_recv_ack` over the packs that the peer has in a row.
use wenas.Base.{
  ℕ, zero, suc, ◌+◌, ◌-◌, ◌%◌, ◌≤◌, ◌<◌, ◌≡◌, refl, sym, ap, ◌∙◌, ◌⊎◌, inl, inr, true, false,
  Option, none, some, ok, or_fault, ◌>>=◌, ◌==◌, if◌then◌else◌, add64, Yields, yields, Yields-bind,
  Bool-cases, le→leb, ne→==, arith,
}
use mathlib.Core.Path.{subst}
use wenas.Heap.{update}
use wenas.Msger.{Pack, Ring, Channel, Link, Message, sub16, slot, store, recvable, emit}
use wenas.Msger.Acks.{
  sample_once, count_acked, arrived, finish, count, step_on, settle, ack_first, acks_more,
  ack_until,
}
use wenas.Msger.Places.{IsRing, cell, put, put-IsRing, range_small, slot_lem, store_lem}
use wenas.Msger.Sending.{Queued, Sound, stepped, stepped-Sound, stepped-put-Sound}
use wenas.Msger.Sampling.{Sampled, sample_once-Sampled}

-- The queue of messages is a buffer in order.
pub record IsQueue (b : Ring (Option ℕ)) : Type 0 where
  pub ring : IsRing b
  pub small : b.rpos < 65536

-- A link whose send buffer is in order and that can count the packs under way.
pub record Safe (limit r t w : ℕ) (recvbuf : Ring (Option Pack)) (l : Link) : Type 0 where
  pub sound : Sound r t w l.channel.sendbuf
  pub queue : IsQueue l.channel.msgbuf
  pub counted : l.channel.psf_counter + (t - r) < limit
  pub recvbuf_is : l.channel.recvbuf ≡ recvbuf

-- What a step leaves: the first pack may have lost its message.
record Past (limit r t w : ℕ) (recvbuf : Ring (Option Pack)) (l : Link) : Type 0 where
  pub sound : Sound (suc r) t w (stepped l.channel.sendbuf)
  pub queue : IsQueue l.channel.msgbuf
  pub counted : l.channel.psf_counter + (t - suc r) < limit
  pub recvbuf_is : l.channel.recvbuf ≡ recvbuf

module _ (limit r t w : ℕ) (lt : r < t) (recvbuf : Ring (Option Pack)) where
  -- The counters of the channel are no buffers.
  record Buffers (c d : Channel) : Type 0 where
    pub sendbuf : d.sendbuf ≡ c.sendbuf
    pub recvbuf_same : d.recvbuf ≡ c.recvbuf
    pub msgbuf : d.msgbuf ≡ c.msgbuf
    pub psf_counter : d.psf_counter ≡ c.psf_counter

  count_acked-Buffers : (len : ℕ) (c : Channel) → Buffers c (count_acked len c)
  unfolding count_acked
  count_acked-Buffers len c = elim (Bool-cases (add64 c.rpos len == c.wpos)) [
    | inl all ↦
        rw all (record { sendbuf = refl; recvbuf_same = refl; msgbuf = refl; psf_counter = refl })
    | inr part ↦
        rw part (record { sendbuf = refl; recvbuf_same = refl; msgbuf = refl; psf_counter = refl })
  ]

  finish-Past :
      (l : Link) (p : ℕ) (pack : Pack)
      → Safe (suc limit) r t w recvbuf l
      → cell l.channel.sendbuf r ≡ some pack
      → Yields (Past limit r t w recvbuf) (finish l p pack)
  unfolding finish emit
  finish-Past l p pack s here =
      let c : Channel = l.channel in
      let gone : Pack = record pack { msg = none } in
      let at_read : c.msgbuf.rpos ≡ c.msgbuf.rpos % 65536 = omega (arith, s.queue.small) in
      let emptied : store c.msgbuf c.msgbuf.rpos none ≡ ok (put c.msgbuf c.msgbuf.rpos none) =
        ap (λ i. store c.msgbuf i none) at_read
        ∙ store_lem c.msgbuf s.queue.ring c.msgbuf.rpos none in
      let forgotten : store c.sendbuf c.sendbuf.rpos gone ≡ ok (put c.sendbuf r gone) =
        ap (λ i. store c.sendbuf i gone) s.sound.read ∙ store_lem c.sendbuf s.sound.ring r gone in
      let ring : IsRing (put c.msgbuf c.msgbuf.rpos none) =
        put-IsRing c.msgbuf s.queue.ring c.msgbuf.rpos none in
      simp (emptied, forgotten)
        (yields (record {
          sound =
              stepped-put-Sound r t w c.sendbuf s.sound lt pack gone here
                (record { len = refl; body = refl });
          queue = record {
            ring = record {
              bits = ring.bits;
              few = ring.few;
              power = ring.power;
              sized = ring.sized;
            };
            small = omega arith;
          };
          counted = omega (arith, s.counted);
          recvbuf_is = s.recvbuf_is;
        }))

  Buffers-Safe :
      (l l' : Link)
      → Buffers l.channel l'.channel
      → Safe (suc limit) r t w recvbuf l
      → Safe (suc limit) r t w recvbuf l'
  Buffers-Safe l l' b s = record {
    sound = subst (Sound r t w) (sym b.sendbuf) s.sound;
    queue = subst IsQueue (sym b.msgbuf) s.queue;
    counted = omega (arith, s.counted, b.psf_counter);
    recvbuf_is = b.recvbuf_same ∙ s.recvbuf_is;
  }

  Safe-Past : (l : Link) → Safe (suc limit) r t w recvbuf l → Past limit r t w recvbuf l
  Safe-Past l s = record {
    sound = stepped-Sound r t w l.channel.sendbuf s.sound lt;
    queue = s.queue;
    counted = omega (arith, s.counted);
    recvbuf_is = s.recvbuf_is;
  }

  module _ (l : Link) (c : Channel) (p : ℕ) (pack : Pack) where
    abbrev message : Message
    message = arrived pack.head.len (l.shared.messages p)

    abbrev tallied : Link
    tallied = record l {
      channel = count_acked pack.head.len c;
      shared = record l.shared {
        pos = add64 l.shared.pos pack.head.len;
        messages = update l.shared.messages p message;
      };
    }

    count_lem :
        count l c p pack
        ≡ (if message.frame.rpos == message.frame.wpos then finish tallied p pack else ok tallied)
    unfolding count
    count_lem = refl

    count-Past :
        Safe (suc limit) r t w recvbuf (record l { channel = c })
        → cell c.sendbuf r ≡ some pack
        → Yields (Past limit r t w recvbuf) (count l c p pack)
    count-Past s here =
        let b : Buffers c (count_acked pack.head.len c) = count_acked-Buffers pack.head.len c in
        let safe : Safe (suc limit) r t w recvbuf tallied =
          Buffers-Safe (record l { channel = c }) tallied b s in
        let same : cell tallied.channel.sendbuf r ≡ some pack =
          ap (λ q. cell q r) b.sendbuf ∙ here in
        rw count_lem (elim (Bool-cases (message.frame.rpos == message.frame.wpos)) [
          | inl all ↦ rw all (finish-Past tallied p pack safe same)
          | inr part ↦ rw part (yields (Safe-Past tallied safe))
        ])

  step_on-Safe :
      (l : Link) → Past limit r t w recvbuf l → Safe limit (suc r) t w recvbuf (step_on l)
  unfolding step_on
  step_on-Safe l s = record {
    sound = s.sound;
    queue = s.queue;
    counted = s.counted;
    recvbuf_is = s.recvbuf_is;
  }

  settle_lem :
      (l : Link) (c : Channel) (pack : Pack) (p : ℕ)
      → slot c.sendbuf c.sendbuf.rpos ≡ ok pack
      → pack.msg ≡ some p
      → settle l c ≡ (count l c p pack >>= λ l'. ok (step_on l'))
  unfolding settle
  settle_lem l c pack p found known = rw (found, known) refl

  settle-Safe :
      (l : Link) (c : Channel)
      → Safe (suc limit) r t w recvbuf (record l { channel = c })
      → Yields (Safe limit (suc r) t w recvbuf) (settle l c)
  settle-Safe l c s =
      let q : Queued c.sendbuf r =
        s.sound.queued r (omega arith) (omega (arith, s.sound.in_order)) in
      let found : slot c.sendbuf c.sendbuf.rpos ≡ ok q.pack =
        ap (slot c.sendbuf) s.sound.read ∙ slot_lem c.sendbuf s.sound.ring r ∙ ap or_fault q.here in
      rw (settle_lem l c q.pack q.message found q.known) (
        Yields-bind (count-Past l c q.message q.pack s q.here)
          (λ (l' : Link) past. yields (step_on-Safe l' past)))

  ack_first_lem :
      (l : Link) → ack_first l ≡ (sample_once l.channel l.channel.sendbuf.rpos >>= settle l)
  unfolding ack_first
  ack_first_lem l = refl

  Sampled-Safe :
      (l : Link) (c : Channel)
      → Safe limit r t w recvbuf l
      → Sampled r t w r l.channel c
      → Safe (suc limit) r t w recvbuf (record l { channel = c })
  Sampled-Safe l c s a = record {
    sound = a.sound;
    queue = subst IsQueue (sym a.msgbuf) s.queue;
    counted = omega (arith, s.counted, a.counted);
    recvbuf_is = a.recvbuf ∙ s.recvbuf_is;
  }

  pub ack_first-Safe :
      (l : Link)
      → limit ≤ 10000000
      → Safe limit r t w recvbuf l
      → Yields (Safe limit (suc r) t w recvbuf) (ack_first l)
  ack_first-Safe l few s = rw (ack_first_lem l) (
      Yields-bind
        (subst (λ i. Yields (Sampled r t w r l.channel) (sample_once l.channel i))
          (sym s.sound.read)
          (sample_once-Sampled r t w r l.channel s.sound (omega (arith, s.counted))))
        (λ (c : Channel) a. settle-Safe l c (Sampled-Safe l c s a)))

ack_until_more :
    (fuel pos : ℕ) (l : Link)
    → acks_more pos l.channel.sendbuf ≡ true
    → ack_until (suc fuel) pos l ≡ (ack_first l >>= λ l'. ack_until fuel pos l')
unfolding ack_until
ack_until_more fuel pos l e = rw e refl

pub ack_until_done :
    (fuel pos : ℕ) (l : Link)
    → acks_more pos l.channel.sendbuf ≡ false
    → ack_until (suc fuel) pos l ≡ ok l
unfolding ack_until
ack_until_done fuel pos l e = rw e refl

module _ (limit t w pos : ℕ) (recvbuf : Ring (Option Pack)) (few : limit ≤ 10000000) where
  pub under_way : (r : ℕ) (b : Ring Pack) → Sound r t w b → recvable b ≡ t - r
  under_way r b s = omega (arith, s.read, s.sent, s.in_order, range_small b s.ring)

  goes_on :
      (r goal : ℕ) (b : Ring Pack)
      → Sound r t w b
      → r < goal
      → goal ≤ t
      → pos ≡ goal % 65536
      → acks_more pos b ≡ true
  unfolding acks_more
  goes_on r goal b s lt le e =
      rw
        (
          le→leb (sub16 pos b.rpos) (recvable b)
              (omega (arith, under_way r b s, s.read, s.in_order, range_small b s.ring)),
          ne→== b.rpos pos (λ same. omega (arith, s.read, s.in_order, range_small b s.ring)),
        )
        refl

  stops : (r : ℕ) (b : Ring Pack) → Sound r t w b → pos ≡ r % 65536 → acks_more pos b ≡ false
  unfolding acks_more
  stops r b s e = let same : (b.rpos == pos) ≡ true = ground (arith, s.read) in ground (arith, same)

  -- With enough fuel the loop ends at the number that is acknowledged, if the pack has been sent.
  pub ack_until-Safe :
      (fuel r goal : ℕ) (l : Link)
      → Safe limit r t w recvbuf l
      → r ≤ goal
      → goal ≤ t
      → pos ≡ goal % 65536
      → goal - r < fuel
      → Yields (Safe limit goal t w recvbuf) (ack_until fuel pos l)
  ack_until-Safe zero r goal l s le small e enough = absurd (omega arith)
  ack_until-Safe (suc fuel) r goal l s le small e enough = elim (there r goal le) [
    | inl lt ↦
        rw (ack_until_more fuel pos l (goes_on r goal l.channel.sendbuf s.sound lt small e)) (
          Yields-bind (ack_first-Safe limit r t w (omega arith) recvbuf l few s)
            (λ (l' : Link) next. ack_until-Safe fuel (suc r) goal l' next lt small e (omega arith)))
    | inr same ↦
        rw
          (ack_until_done fuel pos l
            (stops r l.channel.sendbuf s.sound (e ∙ ap (λ k. k % 65536) (sym same))))
          (yields (subst (λ k. Safe limit k t w recvbuf l) same s))
  ]
    where
      there : (i j : ℕ) → i ≤ j → (i < j) ⊎ (i ≡ j)
      there i j le = omega arith
