-- ===== src/Msger.antt =====
-- src/xnet/xmsger.c: messages cut into numbered packs, sent over datagrams, acknowledged and put
-- together again. The data of a channel, its ring buffers, and the API that the code calls.
pub mod Send
pub mod Acks
pub mod Receive
pub mod Resend
pub mod Peers
pub mod Loop
pub mod Places
pub mod Inbox
pub mod Window
pub mod Reading
pub mod Placing
pub mod InOrder
pub mod Arrivals
pub mod Fragments
pub mod Parts
pub mod Passing
pub mod Transfer
pub mod Whole
pub mod Sending
pub mod Sampling
pub mod Acking
pub mod Retrying
pub mod Answering
pub mod Cutting
pub mod Making
pub mod Leaving
pub mod Going
pub mod Keys
pub mod Opening
pub mod Clearing
mod Examples
mod SendExamples
mod PeerExamples
use wenas.Base.{
  ℕ, ◌+◌, ◌-◌, ◌*◌, ◌/◌, ◌%◌, ◌^◌, bit_and, Bool, true, false, List, [], ◌∷◌, Option, none, some,
  Run, ok, fault, or_fault, ◌>>=◌, length, take, set, get_elem?, ltb, leb, ◌==◌, if◌then◌else◌,
  sub64,
}
use wenas.Line.Frame.{Frame, Malloc}

abbrev pub xhead_size : ℕ
xhead_size = 64

abbrev pub xbody_size : ℕ
xbody_size = 1280

abbrev pub serial_range : ℕ
serial_range = 64

abbrev pub psf_default : ℕ
psf_default = 100000

abbrev pub psf_sampling : ℕ
psf_sampling = 10000000

abbrev pub msg_buf_range : ℕ
msg_buf_range = 8

abbrev pub timedout_limit : ℕ
timedout_limit = 10

abbrev pub rtt_sampling_counts : ℕ
rtt_sampling_counts = 256

abbrev pub threshold_min : ℕ
threshold_min = 8

abbrev pub threshold_init : ℕ
threshold_init = serial_range

-- `XPACK_TYPE_*`
abbrev pub type_ack : ℕ
type_ack = 0x00

abbrev pub type_req : ℕ
type_req = 0x01

abbrev pub type_msg : ℕ
type_msg = 0x02

abbrev pub type_res : ℕ
type_res = 0x03

abbrev pub type_flush : ℕ
type_flush = 0xF0

abbrev pub type_local : ℕ
type_local = 0xF1

-- `struct xhead`. The members of the nested `ack` have the prefix `ack_`; of `flags` there are the
-- two pointers that a local datagram carries at 0 and at 8. `secret` is not used by the code.
pub record Head : Type 0 where
  pub type : ℕ
  pub sn : ℕ
  pub resend : ℕ
  pub ack_type : ℕ
  pub ack_sn : ℕ
  pub ack_pos : ℕ
  pub cid : ℕ
  pub len : ℕ
  pub range : ℕ
  pub flags_0 : Option ℕ
  pub flags_8 : Option ℕ

-- `struct xpack`. `msg` is a pointer to a message of the store. The channel that it points back to
-- is the one that owns the buffer, and the list links are not used.
pub record Pack : Type 0 where
  pub ts : ℕ
  pub kabuf : ℕ
  pub timedout : ℕ
  pub msg : Option ℕ
  pub head : Head
  pub body : List ℕ

-- `struct serialbuf`, `struct sserialbuf` and `struct xmsgbuf`. The positions are `uint16_t`.
pub record Ring {ℓ} (A : Type ℓ) : Type ℓ where
  pub range : ℕ
  pub spos : ℕ
  pub rpos : ℕ
  pub wpos : ℕ
  pub buf : List A

-- The difference of two positions, cast to `uint16_t`.
abbrev pub sub16 : ℕ → ℕ → ℕ
sub16 a b = (a + 65536 - b) % 65536

abbrev pub inc16 : ℕ → ℕ
inc16 a = (a + 1) % 65536

-- `pos & (range - 1)`, by which `__serialbuf_wpos`, `_rpos` and `_spos` index the buffer. A range of
-- 0 gives the mask -1, of which the 16 bits of a position meet only the lowest.
unfoldable pub index_of : ℕ → ℕ → ℕ
index_of range pos = bit_and pos (sub16 range 1)

module _ {ℓ} {A : Type ℓ} where
  -- `__serialbuf_recvable`, `_sendable`, `_readable` and `_writable`
  abbrev pub recvable : Ring A → ℕ
  recvable b = sub16 b.spos b.rpos

  abbrev pub sendable : Ring A → ℕ
  sendable b = sub16 b.wpos b.spos

  abbrev pub readable : Ring A → ℕ
  readable b = sub16 b.wpos b.rpos

  abbrev pub writable : Ring A → ℕ
  writable b = (b.range + 65536 - b.wpos + b.rpos) % 65536

  -- `b->buf[pos & (b->range - 1)]`, read and written.
  unfoldable pub slot : Ring A → ℕ → Run A
  slot b pos = or_fault (get_elem? b.buf (index_of b.range pos))

  unfoldable pub store : Ring A → ℕ → A → Run (Ring A)
  store b pos a =
      let i = index_of b.range pos in
      if ltb i (length b.buf) then ok (record b { buf = set b.buf i a }) else fault

-- `xframe_t` with its `type`, which the line format does not use.
pub record Message : Type 0 where
  pub type : ℕ
  pub frame : Frame

-- `struct xchannel`. Pointers to messages are numbers; `msg` is the message that is being received,
-- which only the channel points to. `ctx` and `frame` are only handed on.
pub record Channel : Type 0 where
  pub sock : ℕ
  pub serial_range : ℕ
  pub kabuf : ℕ
  pub threshold : ℕ
  pub psf : ℕ
  pub psf_begin : ℕ
  pub psf_counter : ℕ
  pub rtt : ℕ
  pub rtt_counter : ℕ
  pub rtt_duration : ℕ
  pub send_ts : ℕ
  pub recv_ts : ℕ
  pub ack_ts : ℕ
  pub cid : ℕ
  pub ucid : List ℕ
  pub addr : List ℕ
  pub timedout : Bool
  pub spos : ℕ
  pub rpos : ℕ
  pub wpos : ℕ
  pub msg : Option Message
  pub req : Option ℕ
  pub ack : Head
  pub msgbuf : Ring (Option ℕ)
  pub recvbuf : Ring (Option Pack)
  pub sendbuf : Ring Pack

-- What leaves the messenger: datagrams that the network took, and the callbacks of `struct
-- xmsgercb`.
pub data Event : Type 0 where
  sent : ℕ → List ℕ → Head → List ℕ → Event
  to_peer : ℕ → Event
  from_peer : List ℕ → Message → Event
  timed_out : List ℕ → Event

-- What the channels share: the counters and the timer of `struct xmsger`, the store of the messages
-- that the user hands over, how often the clock and the network have been asked, and what has left
-- the messenger, the latest first.
pub record Shared : Type 0 where
  pub pos : ℕ
  pub len : ℕ
  pub timer : ℕ
  pub messages : ℕ → Message
  pub clocks : ℕ
  pub sends : ℕ
  pub log : List Event

-- A channel that an operation works on, with what it shares.
pub record Link : Type 0 where
  pub channel : Channel
  pub shared : Shared

-- The API that the code calls: the n-th reading of the clock, whether `udp_sendto` sends all of the
-- n-th datagram, what `malloc` gives, and the bytes that it leaves in a frame's own line.
pub record Api : Type 0 where
  pub clock : ℕ → ℕ
  pub accepts : ℕ → Bool
  pub malloc : Malloc
  pub junk : List ℕ

-- `__xapi->clock()`
unfoldable pub clock : Api → Link → ℕ × Link
clock api l = (
  api.clock l.shared.clocks,
  record l { shared = record l.shared { clocks = l.shared.clocks + 1 } },
)

unfoldable pub emit : Event → Link → Link
emit e l = record l { shared = record l.shared { log = e ∷ l.shared.log } }

-- `__xapi->udp_sendto(sock, addr, &head, XHEAD_SIZE + len) == XHEAD_SIZE + len`: the body lies
-- behind the head, and no more than the body is there to be read.
unfoldable pub sendto : Api → ℕ → List ℕ → Head → List ℕ → ℕ → Link → Run (Bool × Link)
unfolding emit
sendto api sock addr head body len l =
    let l' = record l { shared = record l.shared { sends = l.shared.sends + 1 } } in
    if leb len (length body)
    then (if api.accepts l.shared.sends
        then ok (true, emit (sent sock addr head (take len body)) l')
        else ok (false, l'))
    else fault
