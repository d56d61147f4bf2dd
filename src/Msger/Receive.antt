-- ===== src/Msger/Receive.antt =====
-- src/xnet/xmsger.c: packs arrive, are put in order, and become messages.
use wenas.Base.{
  ℕ, zero, suc, ◌+◌, ◌*◌, Bool, true, false, Option, none, some, Run, ok, out_of_fuel, or_fault,
  ◌>>=◌, ltb, ◌==◌, if◌then◌else◌, add64, sub64,
}
use wenas.Pipe.{copy_to, copy_from}
use wenas.Line.Frame.{Frame, creator, fixed}
use wenas.Msger.{
  xbody_size, type_ack, Head, Pack, Ring, sub16, inc16, slot, store, readable, writable, Message,
  Channel, Link, Api, clock, emit, from_peer,
}
use wenas.Msger.Acks.{recv_ack}

-- A message for `pack` in a new frame.
unfoldable pub started : Pack → Option Frame → Option Message
started pack none = none
started pack (some f) =
    some (record { type = pack.head.type; frame = record f { range = pack.head.range } })

-- The message that the pack belongs to: the one that is being received, or a new one, for which
-- there may be no memory.
unfoldable pub current : Api → Option Message → Pack → Option Message
unfolding creator started
current api (some m) pack = some m
current api none pack = started pack (creator api.malloc api.junk (pack.head.range * xbody_size))

-- The message with the bytes of the pack behind its own, and one pack fewer to come.
unfoldable pub absorb : Pack → Message → Run Message
unfolding copy_to copy_from
absorb pack m = do
  let f = m.frame
  bytes ← copy_from pack.body 0 pack.head.len
  buf ← copy_to f.buf f.wpos bytes pack.head.len
  ok (record m {
    frame = record f { buf = buf; wpos = add64 f.wpos pack.head.len; range = sub64 f.range 1 };
  })

-- The user gets the message when no pack is missing.
unfoldable pub hand_over : Message → Link → Link
unfolding emit
hand_over m l =
    if m.frame.range == 0
    then emit (from_peer l.channel.addr (record m { frame = fixed m.frame }))
        (record l { channel = record l.channel { msg = none } })
    else record l { channel = record l.channel { msg = some m } }

-- One pack is put behind the message that is being received; the flag says that there was memory.
unfoldable pub extend : Pack → Link → Option Message → Run (Bool × Link)
unfolding absorb hand_over
extend pack l none = ok (false, l)
extend pack l (some m) = absorb pack m >>= λ m'. ok (true, hand_over m' l)

unfoldable pub consume : Api → Pack → Link → Run (Bool × Link)
unfolding current extend
consume api pack l = extend pack l (current api l.channel.msg pack)

-- `buf[rpos] = NULL; rpos++;`
unfoldable pub free_slot : Link → Run Link
free_slot l = do
  let b = l.channel.recvbuf
  b' ← store b b.rpos none
  ok (record l { channel = record l.channel { recvbuf = record b' { rpos = inc16 b.rpos } } })

-- The `do` loop of `xchannel_recv_msg`, on fuel: the pack in hand, and those that follow it.
-- A pack that is NULL at first is a fault.
unfoldable pub recv_from : ℕ → Api → Pack → Link → Run (Bool × Link)
recv_from zero api pack l = out_of_fuel
recv_from (suc fuel) api pack l =
    let go_on : Link → Option Pack → Run (Bool × Link) =
      λ l' next. elim next [ none ↦ ok (true, l') | some p ↦ recv_from fuel api p l' ] in
    let rest : Link → Run (Bool × Link) = λ l0. (do
      l1 ← free_slot l0
      next ← slot l1.channel.recvbuf l1.channel.recvbuf.rpos
      go_on l1 next) in
    consume api pack l >>= λ r. elim r.0 [ true ↦ rest r.1 | false ↦ ok r ]

-- `xchannel_recv_msg`: the loop empties a slot in each turn and ends at an empty one, so that it
-- takes no more turns than the buffer has slots. The flag is false where the code returns -1.
unfoldable pub recv_msg : Api → Link → Run (Bool × Link)
unfolding clock
recv_msg api l = do
  let read = clock api l
  let b = l.channel.recvbuf
  let l' : Link = record (read.1) { channel = record l.channel { recv_ts = read.0 } }
  let loop : Run (Bool × Link) = do
    first ← slot b b.rpos
    pack ← or_fault first
    recv_from (b.range + 1) api pack l'
  if ltb 0 (readable b) then loop else ok (true, l')

-- The acknowledgement that the channel owes.
unfoldable pub owe : ℕ → ℕ → ℕ → Channel → Channel
owe type sn pos c = record c {
  ack = record c.ack { type = type_ack; ack_type = type; ack_sn = sn; ack_pos = pos };
}

-- A pack that was kept has its acknowledgement taken, if it carries one.
unfoldable pub take_ack : Api → Head → Link → Run Link
take_ack api head l = if head.ack_type == 0 then ok l else recv_ack api head l

unfoldable pub keep : Pack → Link → Run Link
keep pack l = do
  b ← store l.channel.recvbuf pack.head.sn (some pack)
  ok (record l { channel = record l.channel { recvbuf = b } })

-- The write position moves on over packs that came early, on fuel.
unfoldable pub catch_up : ℕ → Ring (Option Pack) → Run (Ring (Option Pack))
catch_up zero b = out_of_fuel
catch_up (suc fuel) b =
    let next = catch_up fuel (record b { wpos = inc16 b.wpos }) in
    slot b b.wpos >>= λ p. elim p [
      | none ↦ ok b
      | some q ↦ if ltb 0 (writable b) then next else ok b
    ]

-- The pack with the number that is due.
unfoldable pub recv_due : Api → Pack → Link → Run Link
unfolding take_ack keep owe
recv_due api pack l = do
  l1 ← take_ack api pack.head l
  l2 ← keep pack l1
  let b = l2.channel.recvbuf
  b' ← catch_up (b.range + 1) (record b { wpos = inc16 b.wpos })
  ok (record l2 {
    channel = owe pack.head.type b'.wpos b'.wpos (record l2.channel { recvbuf = b' });
  })

-- A pack ahead of its turn: its slot may have it already.
unfoldable pub recv_early : Api → Pack → Link → Run (Bool × Link)
unfolding take_ack keep owe
recv_early api pack l = do
  let b = l.channel.recvbuf
  let l' : Link = record l { channel = owe pack.head.type pack.head.sn b.wpos l.channel }
  held ← slot b pack.head.sn
  let first : Run (Bool × Link) =
      take_ack api pack.head l' >>= λ l1. keep pack l1 >>= λ l2. ok (true, l2)
  elim held [ none ↦ first | some p ↦ ok (false, l') ]

-- A pack from before: it is acknowledged again.
unfoldable pub recv_late : Pack → Link → Link
unfolding owe
recv_late pack l =
    let c = owe pack.head.type l.channel.recvbuf.wpos l.channel.recvbuf.wpos l.channel in
    record l { channel = record c { ack = record c.ack { resend = 2 } } }

-- The store of a pack; the flag says that it was kept, so that the caller's pointer is NULL.
unfoldable pub place : Api → Pack → Link → Run (Bool × Link)
unfolding recv_due recv_early recv_late
place api pack l =
    let sn = pack.head.sn in
    let wpos = l.channel.recvbuf.wpos in
    let due : Run (Bool × Link) = recv_due api pack l >>= λ l'. ok (true, l') in
    if sn == wpos
    then due
    else (if ltb (sub16 sn wpos) (sub16 wpos sn)
        then recv_early api pack l
        else ok (false, recv_late pack l))

-- `xchannel_recv_pack`: whether the pack was kept, whether the code goes on, and the link.
unfoldable pub recv_pack : Api → Pack → Link → Run (Bool × Bool × Link)
unfolding place
recv_pack api pack l = do
  (kept, l1) ← place api pack l
  (going, l2) ← recv_msg api l1
  ok (kept, going, l2)
