-- ===== src/Msger/Send.antt =====
-- src/xnet/xmsger.c: cutting a message into packs and sending them.
use wenas.Base.{
  ℕ, ◌*◌, ◌/◌, ◌%◌, [], some, Run, ok, or_fault, ◌>>=◌, ltb, ◌==◌, ◌&&◌, if◌then◌else◌, add64,
  sub64,
}
use wenas.Heap.{update}
use wenas.Pipe.{copy_to, copy_from}
use wenas.Line.Frame.{Frame}
use wenas.Msger.{
  xbody_size, type_ack, type_res, Head, Pack, inc16, slot, store, sendable, writable, Message,
  Channel, Link, Api, clock, sendto,
}

-- `xmsg_fixed`: how many packs the message takes. `frame` is where `msg` points, if it is not NULL.
unfoldable pub packs : Frame → ℕ
packs f =
    if ltb 0 f.wpos
    then (let whole = f.wpos / xbody_size in
        if ltb (whole * xbody_size) f.wpos then add64 whole 1 else whole)
    else 1

unfoldable pub xmsg_fixed : Frame → Frame
unfolding packs
xmsg_fixed f = record f { rpos = 0; spos = 0; range = packs f }

-- `pack->head.len` in `xchannel_serial_msg`
unfoldable pub pack_len : Frame → ℕ
pack_len f =
    if ltb 0 f.wpos
    then (let left = sub64 f.wpos f.spos in if ltb left xbody_size then left else xbody_size)
    else 0

-- The head of the next pack of a message.
unfoldable pub pack_head : Channel → Message → ℕ → Head → Head
pack_head c m len h = record h {
  type = m.type;
  len = len;
  range = m.frame.range % 65536;
  resend = 0;
  ack_type = 0;
  ack_pos = c.serial_range;
  cid = c.cid;
  sn = c.sendbuf.wpos;
}

-- What of the message has been cut off.
unfoldable pub advance : ℕ → Message → Message
advance len m = record m {
  frame = record m.frame { spos = add64 m.frame.spos len; range = sub64 m.frame.range 1 };
}

-- The pack at the write position of the send buffer filled with the next part of message `p`.
unfoldable pub fill_pack : Link → ℕ → Pack → Run Pack
unfolding pack_len pack_head
fill_pack l p old = do
  let m = l.shared.messages p
  bytes ← copy_from m.frame.buf m.frame.spos (pack_len m.frame)
  body ← copy_to old.body 0 bytes (pack_len m.frame)
  ok (record old {
    ts = l.channel.rtt;
    msg = some p;
    head = pack_head l.channel m (pack_len m.frame) old.head;
    body = body;
  })

-- `xchannel_serial_msg`
unfoldable pub serial_next : Link → Run Link
unfolding fill_pack advance
serial_next l = do
  let c = l.channel
  msg ← slot c.msgbuf c.msgbuf.spos
  p ← or_fault msg
  old ← slot c.sendbuf c.sendbuf.wpos
  pack ← fill_pack l p old
  sendbuf ← store c.sendbuf c.sendbuf.wpos pack
  let m = advance pack.head.len (l.shared.messages p)
  let done = m.frame.spos == m.frame.wpos
  ok (record l {
    channel = record c {
      sendbuf = record sendbuf { wpos = inc16 c.sendbuf.wpos };
      msgbuf = record c.msgbuf { spos = if done then inc16 c.msgbuf.spos else c.msgbuf.spos };
    };
    shared = record l.shared { messages = update l.shared.messages p m };
  })

unfoldable pub serial_msg : Link → Run Link
unfolding serial_next
serial_msg l =
    if ltb 0 (writable l.channel.sendbuf) && ltb 0 (sendable l.channel.msgbuf)
    then serial_next l
    else ok l

-- The pack to send, with the acknowledgement that the channel owes.
unfoldable pub carry_ack : Channel → Pack → Pack
carry_ack c pack = if c.ack.ack_type == 0 then pack else record pack {
  head = record pack.head {
    ack_type = c.ack.ack_type;
    ack_sn = c.ack.ack_sn;
    ack_pos = c.ack.ack_pos;
  };
}

-- What a pack records when it has been sent at time `now`: `rtt * 1.5 * 2` is three times the round
-- trip, exact in a `double` below 2 ^ 52.
unfoldable pub sent_pack : Channel → ℕ → Pack → Pack
sent_pack c now pack = record pack {
  head = record pack.head { resend = 1 };
  ts = now;
  kabuf = if c.kabuf == 0 then 0 else sub64 now c.kabuf;
  timedout = c.rtt * 3;
}

-- `xchannel_send_pack`, after a pack has been sent.
unfoldable pub after_send : Api → Link → Pack → Run Link
unfolding sent_pack serial_msg clock
after_send api l pack = do
  let read = clock api l
  let c = l.channel
  sendbuf ← store c.sendbuf c.sendbuf.spos (sent_pack c (read.0) pack)
  serial_msg (record (read.1) {
    channel = record c {
      ack = record c.ack { ack_type = 0 };
      sendbuf = record sendbuf { spos = inc16 c.sendbuf.spos };
      send_ts = read.0;
      kabuf = 0;
      spos = add64 c.spos pack.head.len;
    };
  })

unfoldable pub send_next : Api → Link → Run Link
unfolding after_send carry_ack sendto
send_next api l = do
  let c = l.channel
  old ← slot c.sendbuf c.sendbuf.spos
  let pack = carry_ack c old
  sendbuf ← store c.sendbuf c.sendbuf.spos pack
  (taken, l') ←
      sendto api c.sock c.addr pack.head pack.body pack.head.len
        (record l { channel = record c { sendbuf = sendbuf } })
  if taken then after_send api l' pack else ok l'

unfoldable pub send_pack : Api → Link → Run Link
unfolding send_next serial_msg
send_pack api l = do
  l' ← if sendable l.channel.sendbuf == 0 then serial_msg l else ok l
  if ltb 0 (sendable l'.channel.sendbuf) then send_next api l' else ok l'

-- `xchannel_send_ack`: only the head is sent.
unfoldable pub send_ack : Api → Link → Run Link
unfolding sendto
send_ack api l = do
  let c = l.channel
  (taken, l') ← sendto api c.sock c.addr c.ack [] 0 l
  ok (
      if taken
      then record l' { channel = record c { ack = record c.ack { ack_type = 0; resend = 0 } } }
      else l')

-- The head that `xchannel_send_final` answers to a late `XPACK_TYPE_RES` with.
unfoldable pub final_head : Head → Head
final_head h = record h {
  type = type_ack;
  ack_type = type_res;
  ack_pos = inc16 h.sn;
  ack_sn = inc16 h.sn;
  len = 0;
  range = 1;
}
