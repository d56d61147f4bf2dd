-- ===== src/Msger/Acks.antt =====
-- src/xnet/xmsger.c: what an acknowledgement does to the send buffer, and the round trip times that
-- are learnt from it.
use wenas.Base.{
  ℕ, zero, suc, ◌+◌, ◌*◌, ◌/◌, ◌%◌, Bool, true, false, none, Run, ok, fault, out_of_fuel, or_fault,
  ◌>>=◌, ltb, leb, ◌==◌, ◌&&◌, if◌then◌else◌, add64, sub64,
}
use wenas.Heap.{update}
use wenas.Msger.{
  psf_sampling, rtt_sampling_counts, threshold_init, Head, Pack, Ring, sub16, inc16, slot, store,
  recvable, Message, Channel, Link, Api, clock, emit, to_peer, sendto,
}

-- `rtt` cut to twice the average.
unfoldable pub capped : ℕ → ℕ → ℕ
capped average rtt = let twice = add64 average average in if ltb twice rtt then twice else rtt

-- The average round trip with one more measured.
unfoldable pub average : Channel → ℕ → Channel
unfolding capped
average c rtt =
    let total = add64 c.rtt_duration (capped c.rtt rtt) in
    if ltb c.rtt_counter rtt_sampling_counts
    then record c {
      rtt_duration = total;
      rtt_counter = c.rtt_counter + 1;
      rtt = total / (c.rtt_counter + 1);
    }
    else record c { rtt_duration = sub64 total c.rtt; rtt = sub64 total c.rtt / 256 }

-- The packs that may be under way: a round trip's worth, cut to 16 bits and then to the buffer.
-- Dividing by zero is a fault.
unfoldable pub limit : ℕ → ℕ → ℕ → Run ℕ
limit range rtt psf =
    let wanted = add64 (sub64 (add64 rtt psf) 1 / psf) 1 % 65536 in
    if psf == 0 then fault else ok (if ltb range wanted then range else wanted)

-- The time between packs, when ten milliseconds of acknowledgements have been counted.
unfoldable pub frequency : Channel → Run Channel
unfolding limit
frequency c =
    if c.psf_begin == 0
    then ok (record c { psf_begin = c.ack_ts; psf_counter = add64 c.psf_counter 1 })
    else (let counter = add64 c.psf_counter 1 in
        if leb psf_sampling (sub64 c.ack_ts c.psf_begin)
        then (if counter == 0 then fault else (do
          let psf = psf_sampling / counter
          threshold ← limit c.recvbuf.range c.rtt psf
          ok (record c { psf_counter = counter; psf = psf; threshold = threshold })))
        else ok (record c { psf_counter = counter }))

-- Back to the start when a pack waited for more than one and a half round trips.
unfoldable pub congested : Channel → ℕ → Channel
congested c kabuf =
    if ltb (c.rtt * 3) (kabuf * 2)
    then record c { psf = 0; psf_begin = 0; psf_counter = 0; threshold = threshold_init }
    else c

-- `xchannel_sampling` of the pack at position `pos` of the send buffer.
unfoldable pub sampling : Channel → ℕ → Run Channel
unfolding average frequency congested
sampling c pos = do
  pack ← slot c.sendbuf pos
  let c' = average c (sub64 c.ack_ts pack.ts)
  c'' ← if c'.psf == 0 then frequency c' else ok (congested c' pack.kabuf)
  sendbuf ← store c.sendbuf pos (record pack { ts = 0 })
  ok (record c'' { sendbuf = sendbuf })

-- Sampled only if the pack has not been acknowledged before.
unfoldable pub sample_once : Channel → ℕ → Run Channel
unfolding sampling
sample_once c pos = do pack ← slot c.sendbuf pos; if pack.ts == 0 then ok c else sampling c pos

-- The bytes of the channel that the peer has, and what is reset when it has all.
unfoldable pub count_acked : ℕ → Channel → Channel
count_acked len c =
    let rpos = add64 c.rpos len in
    if rpos == c.wpos
    then record c {
      rpos = rpos;
      threshold = threshold_init;
      ack_ts = 0;
      rtt_counter = 0;
      psf_begin = 0;
      psf = 0;
    }
    else record c { rpos = rpos }

-- The message of the pack: `len` more of its bytes have arrived.
unfoldable pub arrived : ℕ → Message → Message
arrived len m = record m { frame = record m.frame { rpos = add64 m.frame.rpos len } }

-- The whole message `p` is there: the user learns it, and its slot is free.
unfoldable pub finish : Link → ℕ → Pack → Run Link
unfolding emit
finish l p pack = do
  let c = l.channel
  msgbuf ← store c.msgbuf c.msgbuf.rpos none
  sendbuf ← store c.sendbuf c.sendbuf.rpos (record pack { msg = none })
  ok (
      emit (to_peer p) (record l {
        channel = record c {
          msgbuf = record msgbuf { rpos = inc16 c.msgbuf.rpos };
          sendbuf = sendbuf;
        };
      }))

-- The pack `pack` of message `p` has arrived, and its bytes are counted.
unfoldable pub count : Link → Channel → ℕ → Pack → Run Link
unfolding count_acked arrived finish
count l c p pack =
    let m = arrived pack.head.len (l.shared.messages p) in
    let l' = record l {
      channel = count_acked pack.head.len c;
      shared = record l.shared {
        pos = add64 l.shared.pos pack.head.len;
        messages = update l.shared.messages p m;
      };
    } in
    if m.frame.rpos == m.frame.wpos then finish l' p pack else ok l'

-- The read position of the send buffer goes on by one.
unfoldable pub step_on : Link → Link
step_on l =
    let b = l.channel.sendbuf in
    record l { channel = record l.channel { sendbuf = record b { rpos = inc16 b.rpos } } }

unfoldable pub settle : Link → Channel → Run Link
unfolding count step_on
settle l c = do
  pack ← slot c.sendbuf c.sendbuf.rpos
  p ← or_fault pack.msg
  l' ← count l c p pack
  ok (step_on l')

-- The loop's body: the first pack that was under way has arrived.
unfoldable pub ack_first : Link → Run Link
unfolding sample_once settle
ack_first l = sample_once l.channel l.channel.sendbuf.rpos >>= settle l

-- Whether `pos` is ahead of the read position and not beyond what has been sent.
unfoldable pub acks_more : ℕ → Ring Pack → Bool
acks_more pos b = leb (sub16 pos b.rpos) (recvable b) && (if b.rpos == pos then false else true)

-- The loop over all packs before `pos`, on fuel.
unfoldable pub ack_until : ℕ → ℕ → Link → Run Link
ack_until zero pos l = out_of_fuel
ack_until (suc fuel) pos l =
    let rest = ack_first l >>= λ l'. ack_until fuel pos l' in
    if acks_more pos l.channel.sendbuf then rest else ok l

-- The pack that is sent again at time `now`.
unfoldable pub resent : Channel → ℕ → Pack → Pack
resent c now pack =
    let kabuf = sub64 now pack.ts in
    record pack {
      head = record pack.head {
        resend = inc16 pack.head.resend;
        ack_pos = if pack.head.ack_type == 0 then pack.head.ack_pos else c.recvbuf.wpos;
      };
      kabuf = kabuf;
      ts = add64 pack.ts kabuf;
    }

-- `pack->timedout *= 1.5`, exact in a `double` below 2 ^ 52.
unfoldable pub longer : Pack → Pack
longer pack = record pack { timedout = pack.timedout * 3 / 2 }

-- The pack at `pos`, which waits for its acknowledgement, sent again if it has not been before.
-- The flag says that the loop ends here.
unfoldable pub resend_at : Api → ℕ → Link → Run (Bool × Link)
unfolding resent longer sendto clock
resend_at api pos l = do
  pack ← slot l.channel.sendbuf pos
  let read = clock api l
  let again = resent l.channel (read.0) pack
  let resend : Run (Bool × Link) = do
    (taken, l') ←
        sendto api l.channel.sock l.channel.addr again.head again.body again.head.len (read.1)
    sendbuf ← store l.channel.sendbuf pos (if taken then longer again else again)
    ok (taken, record l' { channel = record l.channel { sendbuf = sendbuf } })
  if pack.ts == 0 then ok (false, l) else (if ltb pack.head.resend 2 then resend else ok (false, l))

-- The loop over the packs from `pos` to before `sn`, on fuel; one pack is sent at most.
unfoldable pub resend_until : ℕ → Api → ℕ → ℕ → Link → Run Link
resend_until zero api pos sn l = out_of_fuel
resend_until (suc fuel) api pos sn l =
    let next = resend_at api pos l >>= λ r. elim r.0 [
      | true ↦ ok r.1
      | false ↦ resend_until fuel api (inc16 pos) sn r.1
    ] in
    if pos == sn then ok l else next

-- A pack arrived out of order: it is sampled, and one that is behind it is sent again.
unfoldable pub ack_early : ℕ → Api → ℕ → Link → Run Link
unfolding sample_once
ack_early fuel api sn l = do
  c ← sample_once l.channel sn
  let l' = record l { channel = c }
  if ltb 3 (sub16 sn c.sendbuf.rpos) then resend_until fuel api c.sendbuf.rpos sn l' else ok l'

-- Whether the acknowledged number lies between the read and the send position.
unfoldable pub acks_sent : ℕ → Ring Pack → Bool
acks_sent sn b = ltb 0 (recvable b) && leb (sub16 sn b.rpos) (recvable b)

-- `xchannel_recv_ack` of the acknowledgement that `head` carries. A position has 2 ^ 16 values, so
-- each loop takes fewer turns.
unfoldable pub recv_ack_on : ℕ → Api → Head → Link → Run Link
unfolding ack_early clock
recv_ack_on fuel api head l =
    let read = clock api l in
    let timed : Link = record (read.1) {
      channel = record l.channel { recv_ts = read.0; ack_ts = read.0 };
    } in
    let run : Run Link = do
      l' ← ack_until fuel head.ack_pos timed
      if head.ack_sn == head.ack_pos then ok l' else ack_early fuel api head.ack_sn l'
    in if acks_sent head.ack_sn l.channel.sendbuf then run else ok l

unfoldable pub recv_ack : Api → Head → Link → Run Link
recv_ack api head l = recv_ack_on 65536 api head l
