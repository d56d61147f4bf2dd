-- ===== src/Msger/Resend.antt =====
-- src/xnet/xmsger.c: `xmsger_send_all`, which gives every channel its turn: a pack to send, a pack to
-- send again, or the notice that the peer does not answer.
use wenas.Base.{
  ℕ, ◌-◌, ◌*◌, ◌^◌, Bool, true, false, List, [], ◌∷◌, Run, ok, ◌>>=◌, ltb, ◌==◌, ◌&&◌,
  if◌then◌else◌, sub64,
}
use wenas.Msger.{
  psf_default, timedout_limit, threshold_min, Pack, inc16, slot, store, recvable, readable, Channel,
  Shared, Link, Api, clock, emit, timed_out, sendto,
}
use wenas.Msger.Send.{send_pack}
use wenas.Msger.Acks.{longer}

abbrev pub nano_seconds : ℕ
nano_seconds = 1000000000

-- Whether the difference of two `uint64_t`, read as an `int64_t`, is above 0; it is then itself.
unfoldable pub positive : ℕ → Bool
positive d = ltb 0 d && ltb d (2 ^ 63)

-- `if (msger->timer > delay) msger->timer = delay;`
unfoldable pub shorten : ℕ → Link → Link
shorten delay l =
    if ltb delay l.shared.timer then record l { shared = record l.shared { timer = delay } } else l

-- What is left of the time between two packs.
unfoldable pub pace : Channel → ℕ → ℕ
pace c now =
    if ltb 0 c.psf
    then sub64 c.psf (sub64 now c.send_ts)
    else sub64 psf_default (sub64 now c.send_ts)

-- The first part of a turn: a pack is sent if its time has come and not too many are under way.
unfoldable pub turn_send : Api → Link → Run Link
unfolding pace positive shorten send_pack clock
turn_send api l = do
  let read = clock api l
  let c = l.channel
  let held : Link = record (read.1) { channel = record c { kabuf = read.0 } }
  if positive (pace c (read.0))
      then ok (shorten (pace c (read.0)) (read.1))
      else (if ltb (readable c.sendbuf) c.threshold
          then send_pack api (read.1)
          else ok (if c.kabuf == 0 then held else read.1))

-- The user learns once that the channel has timed out.
unfoldable pub give_up : Link → Link
unfolding emit
give_up l =
    if l.channel.timedout
    then l
    else emit (timed_out l.channel.addr)
        (record l { channel = record l.channel { timedout = true } })

-- The pack that is sent again after its time at time `now`.
unfoldable pub late : Channel → ℕ → Pack → Pack
late c now pack = record pack {
  head = record pack.head {
    ack_pos = if pack.head.ack_type == 0 then pack.head.ack_pos else c.recvbuf.wpos;
  };
  kabuf = sub64 now pack.ts;
  ts = now;
}

unfoldable pub resend_late : Api → ℕ → Pack → Link → Run Link
unfolding late longer sendto
resend_late api now pack l = do
  let c = l.channel
  let again = late c now pack
  (taken, l') ← sendto api c.sock c.addr again.head again.body again.head.len l
  let counted =
      longer (record again { head = record again.head { resend = inc16 again.head.resend } })
  b ← store c.sendbuf c.sendbuf.rpos (if taken then counted else again)
  let lower = if ltb threshold_min c.threshold then c.threshold - 1 else c.threshold
  ok (record l' {
    channel = record c { sendbuf = b; threshold = if taken then lower else c.threshold };
  })

-- The second part, where packs are under way. The flag is false where the loop over the channels
-- is left.
unfoldable pub turn_wait : Api → Link → Run (Bool × Link)
unfolding positive shorten give_up resend_late clock
turn_wait api l = do
  let read = clock api l
  let c = l.channel
  let last = if ltb 0 c.ack_ts then c.ack_ts else c.send_ts
  let waited = sub64 (read.0) last
  pack ← slot c.sendbuf c.sendbuf.rpos
  let left = sub64 pack.timedout waited
  if positive left
      then ok (true, shorten left (read.1))
      else (if ltb (nano_seconds * timedout_limit) waited
          then ok (false, give_up (read.1))
          else (resend_late api (read.0) pack (read.1) >>= λ l'. ok (true, l')))

-- The second part, where none is and the peer has all.
unfoldable pub turn_idle : Api → Link → Link
unfolding give_up clock
turn_idle api l =
    let read = clock api l in
    if ltb (nano_seconds * timedout_limit) (sub64 (read.0) l.channel.recv_ts)
    then give_up (read.1)
    else read.1

-- One channel's turn.
unfoldable pub turn : Api → Link → Run (Bool × Link)
unfolding turn_send turn_wait turn_idle
turn api l = do
  l' ← turn_send api l
  let c = l'.channel
  if ltb 0 (recvable c.sendbuf)
      then turn_wait api l'
      else ok (true, if c.rpos == c.wpos then turn_idle api l' else l')

-- The loop over the channels in the order of `sendlist`, each with its address.
unfoldable pub turns : Api → Shared → List (ℕ × Channel) → Run (List (ℕ × Channel) × Shared)
turns api s [] = ok ([], s)
turns api s ((i, c) ∷ cs) = turn api (record { channel = c; shared = s }) >>= λ r. elim r.0 [
  | true ↦ turns api r.1.shared cs >>= λ q. ok ((i, r.1.channel) ∷ q.0, q.1)
  | false ↦ ok ((i, r.1.channel) ∷ cs, r.1.shared)
]
