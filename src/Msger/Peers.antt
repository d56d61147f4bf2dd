-- ===== src/Msger/Peers.antt =====
-- src/xnet/xmsger.c: channels are made, found by their peer's address and number, and freed; the
-- messages that the user hands over are queued.
use wenas.Base.{
  ℕ, zero, suc, ◌+◌, ◌-◌, ◌%◌, Bool, true, false, List, [], ◌∷◌, Option, none, some, Run, ok, fault,
  out_of_fuel, or_fault, ◌>>=◌, ltb, ◌==◌, replicate, if◌then◌else◌, add64, sub64,
}
use wenas.Heap.{update}
use wenas.Line.Frame.{Frame, free}
use wenas.Msger.{
  serial_range, msg_buf_range, xbody_size, threshold_init, type_req, type_res, type_flush, Head,
  Pack, Ring, Message, inc16, store, sendable, writable, Channel, Shared, Link, Api,
}
use wenas.Msger.Send.{xmsg_fixed}

-- What the code uses of the AVL tree of src/xlib/avlmini.h, whose nodes are channels, told apart by
-- `ucid`: `add` gives nothing when there is a channel with the key.
pub record Tree (T : Type 0) : Type 0 where
  pub add : List ℕ → ℕ → T → Option T
  pub find : List ℕ → T → Option ℕ
  pub remove : List ℕ → T → T

-- `struct xmsger`. `sendlist` has the channels with their addresses, in the order of the ring list;
-- `fresh` is the address that the next one gets. The ports and the thread are left out.
pub record Msger (T : Type 0) : Type 0 where
  pub socks : List ℕ
  pub laddr : List ℕ
  pub cid : ℕ
  pub peers : T
  pub sendlist : List (ℕ × Channel)
  pub fresh : ℕ
  pub shared : Shared

-- The channel at an address, and the list without it or with another state of it.
unfoldable pub channel_at : ℕ → List (ℕ × Channel) → Option Channel
channel_at a [] = none
channel_at a ((i, c) ∷ cs) = if i == a then some c else channel_at a cs

-- `__ring_list_take_out`
unfoldable pub take_out : ℕ → List (ℕ × Channel) → List (ℕ × Channel)
take_out a [] = []
take_out a ((i, c) ∷ cs) = if i == a then cs else (i, c) ∷ take_out a cs

unfoldable pub put_back : ℕ → Channel → List (ℕ × Channel) → List (ℕ × Channel)
put_back a c' [] = []
put_back a c' ((i, c) ∷ cs) = if i == a then (i, c') ∷ cs else (i, c) ∷ put_back a c' cs

-- What `calloc` leaves.
unfoldable pub zero_head : Head
zero_head = record {
  type = 0;
  sn = 0;
  resend = 0;
  ack_type = 0;
  ack_sn = 0;
  ack_pos = 0;
  cid = 0;
  len = 0;
  range = 0;
  flags_0 = none;
  flags_8 = none;
}

unfoldable pub zero_pack : Pack
unfolding zero_head
zero_pack = record {
  ts = 0;
  kabuf = 0;
  timedout = 0;
  msg = none;
  head = zero_head;
  body = replicate xbody_size 0;
}

-- The struct holds one slot itself, and `calloc` is asked for `range` more.
unfoldable pub empty_ring {ℓ} : {A : Type ℓ} → ℕ → A → Ring A
empty_ring range a = record {
  range = range;
  spos = 0;
  rpos = 0;
  wpos = 0;
  buf = replicate (range + 1) a;
}

-- `xchannel_create` at time `now`, when there is memory for the channel and its three buffers; the
-- places that the caller fills in are still zero.
unfoldable pub new_channel : ℕ → ℕ → Channel
unfolding zero_head zero_pack empty_ring
new_channel range now = record {
  sock = 0;
  serial_range = range;
  kabuf = 0;
  threshold = threshold_init;
  psf = 0;
  psf_begin = 0;
  psf_counter = 0;
  rtt = 100000000;
  rtt_counter = 0;
  rtt_duration = 0;
  send_ts = now;
  recv_ts = now;
  ack_ts = 0;
  cid = 0;
  ucid = 0 ∷ 0 ∷ 0 ∷ [];
  addr = [];
  timedout = false;
  spos = 0;
  rpos = 0;
  wpos = 0;
  msg = none;
  req = none;
  ack = zero_head;
  msgbuf = empty_ring msg_buf_range none;
  recvbuf = empty_ring range none;
  sendbuf = empty_ring range zero_pack;
}

-- `xmsger_send`, and what `xmsger_local_recv` does to queue a message: no check for room.
unfoldable pub enqueue : ℕ → Link → Run Link
unfolding xmsg_fixed
enqueue p l = do
  let m = l.shared.messages p
  let m' = record m { frame = xmsg_fixed m.frame }
  let c = l.channel
  b ← store c.msgbuf c.msgbuf.wpos (some p)
  ok (record {
    channel = record c {
      wpos = add64 c.wpos m'.frame.wpos;
      msgbuf = record b { wpos = inc16 c.msgbuf.wpos };
    };
    shared = record l.shared {
      len = add64 l.shared.len m'.frame.wpos;
      messages = update l.shared.messages p m';
    };
  })

-- `xmsger_send` of message `p`; the flag is false where the code returns -1.
unfoldable pub send_msg : ℕ → Link → Run (Bool × Link)
unfolding enqueue
send_msg p l =
    if ltb 0 (writable l.channel.msgbuf)
    then (enqueue p l >>= λ l'. ok (true, l'))
    else ok (false, l)

-- `while (sendable > 0) spos++;`, on fuel.
unfoldable pub drain : ℕ → Ring Pack → Run (Ring Pack)
drain zero b = out_of_fuel
drain (suc fuel) b =
    let rest = drain fuel (record b { spos = inc16 b.spos }) in
    if ltb 0 (sendable b) then rest else ok b

-- `xl_free` of a message of the store: one reference fewer. With none it is freed, and only then
-- the pointer becomes NULL.
unfoldable pub release : Option ℕ → Shared → Option ℕ × Shared
release none s = (none, s)
release (some p) s =
    let m = s.messages p in
    let f = record m.frame { ref = sub64 m.frame.ref 1 } in
    (
      if f.ref == 0 then none else some p,
      record s { messages = update s.messages p (record m { frame = f }) },
    )

-- What a message that was not sent adds to the count of bytes to send.
unfoldable pub unsent : Option ℕ → Shared → ℕ
unsent none s = 0
unsent (some p) s = sub64 (s.messages p).frame.wpos (s.messages p).frame.rpos

-- The loop over the first slots of the queue, as many as its range. A slot that is not there is a
-- fault.
unfoldable pub release_all : ℕ → List (Option ℕ) → Shared → Run (List (Option ℕ) × Shared)
unfolding release unsent
release_all zero ps s = ok (ps, s)
release_all (suc n) [] s = fault
release_all (suc n) (p ∷ ps) s = do
  let first = release p (record s { len = sub64 s.len (unsent p s) })
  rest ← release_all n ps first.1
  ok (first.0 ∷ rest.0, rest.1)

-- A slot whose pack, if it has one, is freed.
unfoldable pub free_pack : Option Pack → Option Pack
free_pack none = none
free_pack (some p) = none

-- The loop over the first slots of the receive buffer, as many as its range.
unfoldable pub free_packs : ℕ → List (Option Pack) → Run (List (Option Pack))
unfolding free_pack
free_packs zero ps = ok ps
free_packs (suc n) [] = fault
free_packs (suc n) (p ∷ ps) = do rest ← free_packs n ps; ok (free_pack p ∷ rest)

-- `xl_free` of the message that is being received, with what is left of its frame.
unfoldable pub still_held : Message → Option Frame → Option Message
still_held m none = none
still_held m (some f) = some (record m { frame = f })

unfoldable pub give_up_msg : Option Message → Option Message
unfolding free still_held
give_up_msg none = none
give_up_msg (some m) = still_held m (free m.frame)

-- `xchannel_clear`
unfoldable pub clear : Link → Run Link
unfolding release_all release drain free_packs give_up_msg
clear l = do
  let c = l.channel
  b ← drain 65536 c.sendbuf
  packs ← free_packs c.recvbuf.range c.recvbuf.buf
  queue ← release_all c.msgbuf.range c.msgbuf.buf l.shared
  let req = release c.req queue.1
  ok (record {
    channel = record c {
      sendbuf = record b { rpos = b.spos };
      recvbuf = record c.recvbuf { buf = packs };
      msgbuf = record c.msgbuf { buf = queue.0 };
      msg = give_up_msg c.msg;
      req = req.0;
    };
    shared = req.1;
  })

-- The low 16 bits of a peer's key are the number of the channel.
unfoldable pub with_cid : ℕ → List ℕ → List ℕ
with_cid cid [] = []
with_cid cid (w ∷ ws) = (w - w % 65536 + cid) ∷ ws

module _ {T : Type 0} (tree : Tree T) where
  -- `xchannel_free`. Every channel of the list is in the tree.
  unfoldable pub free_channel : ℕ → Msger T → Run (Msger T)
  unfolding clear take_out
  free_channel a m = do
    c ← or_fault (channel_at a m.sendlist)
    l ← clear (record { channel = c; shared = m.shared })
    ok (record m {
      sendlist = take_out a m.sendlist;
      peers = tree.remove c.ucid m.peers;
      shared = l.shared;
    })

  -- The loop over the numbers until one is not taken, on fuel: the number, the next one, the tree.
  unfoldable pub choose_cid : ℕ → List ℕ → ℕ → ℕ → T → Run (ℕ × ℕ × T)
  choose_cid zero addr a cid peers = out_of_fuel
  choose_cid (suc fuel) addr a cid peers = elim (tree.add (with_cid cid addr) a peers) [
    | none ↦ choose_cid fuel addr a (inc16 cid) peers
    | some t ↦ ok (cid, inc16 cid, t)
  ]

  -- The user asks for a connection with the message at `p`, to address `addr`, over `sock`.
  unfoldable pub local_connect : ℕ → List ℕ → ℕ → ℕ → Msger T → Run (Msger T)
  unfolding new_channel enqueue
  local_connect p addr sock now m = do
    (cid, next, peers) ← choose_cid 65536 addr m.fresh m.cid m.peers
    let c = new_channel serial_range now
    let held = m.shared.messages p
    let f = record held.frame { ref = add64 held.frame.ref 1 }
    let s = record m.shared {
      messages = update m.shared.messages p (record held { frame = f });
      clocks = m.shared.clocks + 1;
    }
    l ← enqueue p (record {
      channel = record c {
        req = some p;
        addr = addr;
        sock = sock;
        ucid = with_cid cid addr;
        cid = cid;
        ack = record c.ack { cid = cid };
      };
      shared = s;
    })
    ok (record m {
      cid = next;
      peers = peers;
      fresh = m.fresh + 1;
      sendlist = (m.fresh, l.channel) ∷ m.sendlist;
      shared = l.shared;
    })

  -- The user's last message on the channel at `a`.
  unfoldable pub local_disconnect : ℕ → ℕ → Msger T → Run (Msger T)
  unfolding enqueue put_back
  local_disconnect p a m = do
    c ← or_fault (channel_at a m.sendlist)
    l ← enqueue p (record { channel = c; shared = m.shared })
    ok (record m { sendlist = put_back a l.channel m.sendlist; shared = l.shared })

  -- `xmsger_local_recv`, when there is memory. `addr_of`, `sock_of` and `channel_of` stand for what
  -- the message's `args` and the address hold: the peer's address, the socket for its kind, and
  -- the channel. The pointers in a datagram that the program sends itself are not NULL.
  unfoldable pub local_recv :
      (ℕ → List ℕ) → (ℕ → ℕ) → (ℕ → Option ℕ) → Api → Head → Msger T → Run (Msger T)
  unfolding local_connect local_disconnect free_channel
  local_recv addr_of sock_of channel_of api head m =
      let connect = or_fault head.flags_0 >>= λ p.
      local_connect p (addr_of p) (sock_of p) (api.clock m.shared.clocks) m in
      let disconnect = or_fault head.flags_0 >>= λ p. elim (channel_of p) [
        | none ↦ ok m
        | some a ↦ local_disconnect p a m
      ] in
      let flush = or_fault head.flags_8 >>= λ a. free_channel a m in
      if head.ack_type == type_req
      then connect
      else (if head.ack_type == type_res
          then disconnect
          else (if head.ack_type == type_flush then flush else ok m))
