-- ===== src/Msger/Examples.antt =====
-- The theorems on the receiving side of src/xnet/xmsger.c, for a channel with a buffer of two packs
-- whose peer sends messages of one byte.
use wenas.Base.{
  ℕ, zero, suc, ◌≤◌, ◌%◌, ◌<◌, ◌≡◌, refl, ap, List, [], ◌∷◌, none, some, true, ok, ◌⊎◌, inl, inr,
  arith, replicate, splice,
}
use wenas.Line.Frame.{Frame, fixed, created}
use wenas.Msger.{Pack, Message, Channel, Shared, Link, Event, from_peer, Api}
use wenas.Msger.Receive.{consume, recv_pack}
use wenas.Msger.Peers.{new_channel}
use wenas.Msger.Places.{cell}
use wenas.Msger.Window.{Ready}
use wenas.Msger.Arrivals.{Came, start, arrive, Came-all}
use mathlib.Core.List.{Memᴰ}
use wenas.Msger.Inbox.{Agrees}
use wenas.Msger.InOrder.{Delivered, recv_pack-Delivered}

abbrev quiet_api : Api
quiet_api = record {
  clock = λ n. n;
  accepts = λ n. true;
  malloc = λ n. some (replicate n 0);
  junk = [];
}

abbrev byte_pack : ℕ → Pack
byte_pack i = record {
  ts = 0;
  kabuf = 0;
  timedout = 0;
  msg = none;
  body = (i % 256) ∷ [];
  head = record {
    type = 2;
    sn = i % 65536;
    resend = 0;
    ack_type = 0;
    ack_sn = 0;
    ack_pos = 0;
    cid = 7;
    len = 1;
    range = 1;
    flags_0 = none;
    flags_8 = none;
  };
}

abbrev blank : Frame
blank = record { ref = 0; spos = 0; range = 0; rpos = 0; wpos = 0; size = 0; buf = []; line = [] }

abbrev shared_with : List Event → Shared
shared_with log = record {
  pos = 0;
  len = 0;
  timer = 0;
  messages = λ p. record { type = 0; frame = blank };
  clocks = 0;
  sends = 0;
  log = log;
}

abbrev fresh_channel : Channel
fresh_channel = new_channel 2 0

-- The message that becomes of pack `i`, and the link that has had the first `n`.
abbrev byte_message : ℕ → Message
byte_message i = record {
  type = 2;
  frame = fixed (record {
    ref = 1;
    spos = 0;
    range = 0;
    rpos = 0;
    wpos = 1;
    size = 1280;
    line = [];
    buf = (i % 256) ∷ replicate 1286 0;
  });
}

abbrev received : ℕ → List Event
received zero = []
received (suc i) = from_peer [] (byte_message i) ∷ received i

abbrev had : ℕ → Link
had n = record { channel = fresh_channel; shared = shared_with (received n) }

had-run : (i : ℕ) → consume quiet_api (byte_pack i) (had i) ≡ ok (true, had (suc i))
unfolding consume new_channel created splice
had-run i = refl

no_acks : (i : ℕ) → (byte_pack i).head.ack_type ≡ 0
no_acks i = refl

numbers : (i : ℕ) → (byte_pack i).head.sn ≡ i % 65536
numbers i = refl

had-Ready : Ready byte_pack 0 0 (had 0).channel.recvbuf
unfolding new_channel
had-Ready = record {
  filled = record {
    ring = record { bits = 1; few = omega arith; power = refl; sized = refl };
    read = refl;
    written = refl;
    ahead_of = omega arith;
    fits = omega arith;
    full = λ i le lt. absurd (omega arith);
    spare = λ i le lt. elim (first_two i lt) [
      | inl e ↦ inl (ap (cell (had 0).channel.recvbuf) e)
      | inr e ↦ inl (ap (cell (had 0).channel.recvbuf) e)
    ];
  };
  gap = λ lt. refl;
}
  where
    first_two : (i : ℕ) → i < 2 → (i ≡ 0) ⊎ (i ≡ 1)
    first_two i lt = omega arith

-- The second pack comes first.
recv_pack-Delivered_example :
    Delivered quiet_api byte_pack numbers no_acks had had-run 1 0
      (had 0)
      (recv_pack quiet_api (byte_pack 1) (had 0))
unfolding new_channel
recv_pack-Delivered_example =
    recv_pack-Delivered quiet_api byte_pack numbers no_acks had had-run 1 0 (had 0) had-Ready
      (record { msg = refl; log = refl; addr = refl }) (omega arith) (omega arith)

-- The first pack comes.
first_pack :
    Delivered quiet_api byte_pack numbers no_acks had had-run 0 0
      (had 0)
      (recv_pack quiet_api (byte_pack 0) (had 0))
unfolding new_channel
first_pack =
    recv_pack-Delivered quiet_api byte_pack numbers no_acks had had-run 0 0 (had 0) had-Ready
      (record { msg = refl; log = refl; addr = refl }) (omega arith) (omega arith)

first-Came :
    Came quiet_api byte_pack numbers no_acks had had-run
      (had 0)
      (0 ∷ [])
      first_pack.count
      first_pack.link
unfolding new_channel
first-Came =
    arrive 0 first_pack.count start (omega arith) (omega arith) first_pack.result
      first_pack.ready.filled.written first_pack.no_fewer first_pack.no_more

Came-all_example : (1 ≤ first_pack.count) × Agrees (had first_pack.count) first_pack.link
Came-all_example =
    Came-all quiet_api byte_pack numbers no_acks had had-run (had 0) (0 ∷ []) first_pack.count 1
      first_pack.link had-Ready (record { msg = refl; log = refl; addr = refl }) first-Came
      (λ i lt. Memᴰ.head (omega arith))
