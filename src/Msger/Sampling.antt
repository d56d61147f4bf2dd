-- ===== src/Msger/Sampling.antt =====
-- src/xnet/xmsger.c: `xchannel_sampling` learns from an acknowledged pack how fast the peer takes them.
use wenas.Base.{
  ℕ, ◌≢◌, eq_of_==, ne_of_==, ◌+◌, ◌*◌, ◌/◌, ◌%◌, ◌≤◌, ◌<◌, ◌≡◌, refl, ap, ◌∙◌, ◌⊎◌, inl, inr,
  Option, some, Run, ok, or_fault, ◌>>=◌, ltb, leb, ◌==◌, if◌then◌else◌, add64, sub64, Yields,
  yields, Yields-bind, Bool-cases, ltb→lt, ne→==, ltb→ge, arith,
}
use native.Mathlib.Nat.{div-eq-sub-div}
use wenas.Msger.{Pack, Ring, Channel, psf_sampling, slot, store}
use wenas.Msger.Acks.{average, limit, frequency, congested, sampling, sample_once}
use wenas.Msger.Places.{cell, put, slot_lem, store_lem}
use wenas.Msger.Sending.{Whole, Sound, put-Sound}

-- What sampling leaves as it was, and the bounds of what it learns.
record Learnt (c d : Channel) : Type 0 where
  pub recvbuf : d.recvbuf ≡ c.recvbuf
  pub msgbuf : d.msgbuf ≡ c.msgbuf
  pub counted : d.psf_counter ≤ c.psf_counter + 1
  pub threshold :
      (d.threshold ≡ c.threshold) ⊎ ((d.threshold ≤ c.recvbuf.range) ⊎ (d.threshold ≡ 64))
  pub rounds : c.rtt_counter ≤ 256 → d.rtt_counter ≤ 256

-- The average counts one round more, and leaves the rest.
record Averaged (c d : Channel) : Type 0 where
  pub recvbuf : d.recvbuf ≡ c.recvbuf
  pub msgbuf : d.msgbuf ≡ c.msgbuf
  pub psf_counter : d.psf_counter ≡ c.psf_counter
  pub threshold : d.threshold ≡ c.threshold
  pub rounds : c.rtt_counter ≤ 256 → d.rtt_counter ≤ 256

average-Averaged : (c : Channel) (rtt : ℕ) → Averaged c (average c rtt)
unfolding average
average-Averaged c rtt = elim (Bool-cases (ltb c.rtt_counter 256)) [
  | inl few ↦ rw few (record {
    recvbuf = refl;
    msgbuf = refl;
    psf_counter = refl;
    threshold = refl;
    rounds = λ h. omega (arith, ltb→lt c.rtt_counter 256 few);
  })
  | inr many ↦ rw many (record {
    recvbuf = refl;
    msgbuf = refl;
    psf_counter = refl;
    threshold = refl;
    rounds = λ h. h;
  })
]

limit_bound : (range rtt psf : ℕ) → 0 < psf → Yields (λ (t : ℕ). t ≤ range) (limit range rtt psf)
unfolding limit
limit_bound range rtt psf pos =
    let wanted : ℕ = add64 (sub64 (add64 rtt psf) 1 / psf) 1 % 65536 in
    rw (ne→== psf 0 (λ e. omega arith)) (elim (Bool-cases (ltb range wanted)) [
      | inl more ↦ rw more (yields (omega arith))
      | inr fits ↦ rw fits (yields (ltb→ge range wanted fits))
    ])

counter_small : (n : ℕ) → n < 10000000 → add64 n 1 ≡ n + 1
counter_small n h = omega arith

interval_pos : (n : ℕ) → n < 10000000 → 0 < 10000000 / add64 n 1
interval_pos n h =
    rw (counter_small n h)
      (omega (arith, div-eq-sub-div {m = n + 1} {n = 10000000} (omega arith) (omega arith)))

frequency-Learnt : (c : Channel) → c.psf_counter < 10000000 → Yields (Learnt c) (frequency c)
unfolding frequency
frequency-Learnt c few = elim (Bool-cases (c.psf_begin == 0)) [
  | inl first ↦ rw first (
      yields (record {
        recvbuf = refl;
        msgbuf = refl;
        counted = omega arith;
        threshold = inl refl;
        rounds = λ h. h;
      }))
  | inr later ↦ elim (Bool-cases (leb psf_sampling (sub64 c.ack_ts c.psf_begin))) [
    | inl enough ↦
        rw (later, enough, ne→== (add64 c.psf_counter 1) 0 (λ e. omega arith))
          (Yields-bind
            (limit_bound c.recvbuf.range c.rtt (psf_sampling / add64 c.psf_counter 1)
              (interval_pos c.psf_counter few))
            (λ (t : ℕ) small. yields (record {
              recvbuf = refl;
              msgbuf = refl;
              counted = omega arith;
              threshold = inr (inl small);
              rounds = λ h. h;
            })))
    | inr soon ↦
        rw (later, soon)
          (yields (record {
            recvbuf = refl;
            msgbuf = refl;
            counted = omega arith;
            threshold = inl refl;
            rounds = λ h. h;
          }))
  ]
]

congested-Learnt : (c : Channel) (kabuf : ℕ) → Learnt c (congested c kabuf)
unfolding congested
congested-Learnt c kabuf = elim (Bool-cases (ltb (c.rtt * 3) (kabuf * 2))) [
  | inl slow ↦ rw slow (record {
    recvbuf = refl;
    msgbuf = refl;
    counted = omega arith;
    threshold = inr (inr refl);
    rounds = λ h. h;
  })
  | inr fine ↦ rw fine (record {
    recvbuf = refl;
    msgbuf = refl;
    counted = omega arith;
    threshold = inl refl;
    rounds = λ h. h;
  })
]

Learnt-after : (c a d : Channel) → Averaged c a → Learnt a d → Learnt c d
Learnt-after c a d av le = record {
  recvbuf = le.recvbuf ∙ av.recvbuf;
  msgbuf = le.msgbuf ∙ av.msgbuf;
  counted = omega (arith, le.counted, av.psf_counter);
  threshold =
      ground
        (arith, le.threshold, av.threshold, ap (λ (b : Ring (Option Pack)). b.range) av.recvbuf);
  rounds = λ h. le.rounds (av.rounds h);
}

learn : Channel → ℕ → Run Channel
learn c kabuf = if c.psf == 0 then frequency c else ok (congested c kabuf)

learn-Learnt :
    (c : Channel) (kabuf : ℕ) → c.psf_counter < 10000000 → Yields (Learnt c) (learn c kabuf)
unfolding learn
learn-Learnt c kabuf few = elim (Bool-cases (c.psf == 0)) [
  | inl none_yet ↦ rw none_yet (frequency-Learnt c few)
  | inr known ↦ rw known (yields (congested-Learnt c kabuf))
]

-- A pack with the time at which it was sent taken away, by which it is marked as sampled.
abbrev pub stamped : Pack → Pack
stamped q = record q { ts = 0 }

-- Pack `i` had been sampled and the channel is as it was, or it had not and is marked now.
pub data Marked (i : ℕ) (c d : Channel) : Type 0 where
  again : (p : Pack) → cell c.sendbuf i ≡ some p → p.ts ≡ 0 → d ≡ c → Marked i c d
  once :
      (p : Pack)
      → cell c.sendbuf i ≡ some p
      → p.ts ≢ 0
      → d.sendbuf ≡ put c.sendbuf i (stamped p)
      → Marked i c d

-- What the acknowledgement of pack `i` changes: the sampled pack's `ts` in the send buffer, the
-- estimates of the channel within their bounds, and no other buffer.
pub record Sampled (r t w i : ℕ) (c d : Channel) : Type 0 where
  pub marked : Marked i c d
  pub sound : Sound r t w d.sendbuf
  pub range : d.sendbuf.range ≡ c.sendbuf.range
  pub recvbuf : d.recvbuf ≡ c.recvbuf
  pub msgbuf : d.msgbuf ≡ c.msgbuf
  pub counted : d.psf_counter ≤ c.psf_counter + 1
  pub threshold :
      (d.threshold ≡ c.threshold) ⊎ ((d.threshold ≤ c.recvbuf.range) ⊎ (d.threshold ≡ 64))
  pub rounds : c.rtt_counter ≤ 256 → d.rtt_counter ≤ 256

module _ (r t w i : ℕ) (c : Channel) (s : Sound r t w c.sendbuf) where
  marked :
      (d : Channel) (q : Pack)
      → Learnt c d
      → cell c.sendbuf i ≡ some q
      → q.ts ≢ 0
      → Yields
          (Sampled r t w i c)
          (store c.sendbuf (i % 65536) (stamped q) >>= λ b. ok (record d { sendbuf = b }))
  marked d q le here new = simp (store_lem c.sendbuf s.ring i (stamped q)) (
      yields (record {
        marked = once q here new refl;
        sound =
            put-Sound r t w c.sendbuf s i q (stamped q) here
              (record { msg = refl; bytes = record { len = refl; body = refl } });
        range = refl;
        recvbuf = le.recvbuf;
        msgbuf = le.msgbuf;
        counted = le.counted;
        threshold = le.threshold;
        rounds = le.rounds;
      }))

  found : slot c.sendbuf (i % 65536) ≡ ok (s.whole i).pack
  found = slot_lem c.sendbuf s.ring i ∙ ap or_fault (s.whole i).here

  abbrev averaged : Channel
  averaged = average c (sub64 c.ack_ts (s.whole i).pack.ts)

  sampling_lem : sampling c (i % 65536) ≡ (
      learn averaged (s.whole i).pack.kabuf >>= λ d.
      store c.sendbuf (i % 65536) (stamped (s.whole i).pack) >>= λ b. ok (record d { sendbuf = b }))
  unfolding sampling learn
  sampling_lem = rw found refl

  sample_once_lem :
      sample_once c (i % 65536)
      ≡ (if (s.whole i).pack.ts == 0 then ok c else sampling c (i % 65536))
  unfolding sample_once
  sample_once_lem = rw found refl

  sampling-Sampled :
      c.psf_counter < 10000000
      → (s.whole i).pack.ts ≢ 0
      → Yields (Sampled r t w i c) (sampling c (i % 65536))
  sampling-Sampled few new =
      let q : Whole c.sendbuf i = s.whole i in
      let av : Averaged c averaged = average-Averaged c (sub64 c.ack_ts q.pack.ts) in
      rw sampling_lem (
        Yields-bind (learn-Learnt averaged q.pack.kabuf (omega (arith, av.psf_counter)))
          (λ (d : Channel) le. marked d q.pack (Learnt-after c averaged d av le) q.here new))

  -- A pack of the send buffer is acknowledged, when fewer than ten million packs have been counted.
  -- No division is by zero. A pack that was sampled before leaves the channel as it was; another is
  -- marked in the send buffer, of which nothing else changes. At most one more pack is counted, the
  -- packs that may be under way are as many as before, or 64, or no more than the range of the
  -- receive buffer, and no more than 256 rounds are averaged where no more were before. The send
  -- buffer stays in order, and the other buffers are as before.
  pub sample_once-Sampled :
      c.psf_counter < 10000000 → Yields (Sampled r t w i c) (sample_once c (i % 65536))
  sample_once-Sampled few = rw sample_once_lem (elim (Bool-cases ((s.whole i).pack.ts == 0)) [
    | inl before ↦ rw before (
        yields (record {
          marked =
              again (s.whole i).pack (s.whole i).here (eq_of_== (s.whole i).pack.ts 0 before) refl;
          sound = s;
          range = refl;
          recvbuf = refl;
          msgbuf = refl;
          counted = omega arith;
          threshold = inl refl;
          rounds = λ h. h;
        }))
    | inr now ↦ rw now (sampling-Sampled few (ne_of_== (s.whole i).pack.ts 0 now))
  ])
