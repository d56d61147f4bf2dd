-- ===== src/Msger/SendExamples.antt =====
-- The theorems on the sending side of src/xnet/xmsger.c, for a buffer of two packs of which one is
-- under way, and for a message of 2000 bytes.
use wenas.Base.{
  ℕ, ◌%◌, ◌≤◌, ◌<◌, ◌≡◌, refl, ap, ◌∙◌, List, [], ◌∷◌, some, true, ◌⊎◌, inl, inr, arith, length,
  get_elem?, replicate, length-replicate, Yields,
}
use wenas.Line.Frame.{Frame}
use wenas.Msger.{Head, Pack, Channel, Link, Api}
use wenas.Msger.Peers.{zero_head, zero_pack, new_channel}
use wenas.Msger.Places.{cell}
use wenas.Msger.Cutting.{Backed}
use wenas.Msger.Leaving.{Sent}
use wenas.Msger.Going.{send_pack-Sent}
use wenas.Msger.Send.{packs, xmsg_fixed, send_pack}
use wenas.Msger.Acks.{recv_ack, sample_once}
use wenas.Msger.Fragments.{Enough, xmsg_fixed-Enough}
use wenas.Msger.Passing.{transfer}
use wenas.Msger.Transfer.{Arrived}
use wenas.Msger.Whole.{transfer-xmsg_fixed}
use wenas.Msger.Sending.{Sound}
use wenas.Msger.Sampling.{Sampled, sample_once-Sampled}
use wenas.Msger.Acking.{IsQueue}
use wenas.Msger.Retrying.{Intact}
use wenas.Msger.Answering.{after_ack, recv_ack-Intact}

abbrev steady : Api
steady = record {
  clock = λ n. n;
  accepts = λ n. true;
  malloc = λ n. some (replicate n 0);
  junk = [];
}

abbrev long_frame : Frame
long_frame = record {
  ref = 1;
  spos = 0;
  range = 0;
  rpos = 0;
  wpos = 2000;
  size = 2000;
  line = [];
  buf = replicate 2000 7;
}

xmsg_fixed-Enough_example : Enough long_frame (xmsg_fixed long_frame)
xmsg_fixed-Enough_example = xmsg_fixed-Enough long_frame (omega arith)

abbrev idle_link : Link
idle_link = record {
  channel = new_channel 2 0;
  shared = record {
    pos = 0;
    len = 0;
    timer = 0;
    clocks = 0;
    sends = 0;
    log = [];
    messages = λ p. record { type = 2; frame = xmsg_fixed long_frame };
  };
}

memory : (n : ℕ) → (mem : List ℕ) × (steady.malloc n ≡ some mem) × (length mem ≡ n)
memory n = (replicate n 0, refl, length-replicate n 0)

long_given : long_frame.wpos ≤ length long_frame.buf
long_given = omega (arith, length-replicate {A = ℕ} 2000 7)

transfer-xmsg_fixed_example :
    Arrived steady 1 2 2000
      (replicate 2000 7)
      long_given
      (omega arith)
      memory
      idle_link
      (transfer (packs long_frame) steady 1 zero_pack idle_link idle_link)
unfolding new_channel zero_pack
transfer-xmsg_fixed_example =
    transfer-xmsg_fixed steady 1 2 long_frame long_given (omega arith) memory zero_pack idle_link
      idle_link refl refl (length-replicate {A = ℕ} 1280 0)

-- The first pack has been sent.
abbrev one_pack : Pack
one_pack = record zero_pack { ts = 5; msg = some 1 }

abbrev waiting : Channel
waiting = record (new_channel 2 0) {
  sendbuf = record {
    range = 2;
    spos = 1;
    rpos = 0;
    wpos = 1;
    buf = one_pack ∷ one_pack ∷ one_pack ∷ [];
  };
}

abbrev waiting_link : Link
waiting_link = record idle_link { channel = waiting }

waiting-Sound : Sound 0 1 1 waiting.sendbuf
unfolding new_channel zero_pack zero_head
waiting-Sound = record {
  ring = record { bits = 1; few = omega arith; power = refl; sized = refl };
  read = refl;
  sent = refl;
  written = refl;
  in_order = (omega arith, omega arith, omega arith);
  whole = λ i. elim (two (i % 2) (omega arith)) [
    | inl e ↦ record {
      pack = one_pack;
      here = at_place i 0 e refl;
      short = omega arith;
      sized = length-replicate {A = ℕ} 1280 0;
    }
    | inr e ↦ record {
      pack = one_pack;
      here = at_place i 1 e refl;
      short = omega arith;
      sized = length-replicate {A = ℕ} 1280 0;
    }
  ];
  queued = λ i lo hi. record {
    pack = one_pack;
    here = at_place i 0 (omega arith) refl;
    message = 1;
    known = refl;
  };
}
  where
    two : (n : ℕ) → n < 2 → (n ≡ 0) ⊎ (n ≡ 1)
    two n lt = omega arith

    at_place :
        (i n : ℕ)
        → i % 2 ≡ n
        → get_elem? waiting.sendbuf.buf n ≡ some one_pack
        → cell waiting.sendbuf i ≡ some one_pack
    at_place i n e at_n = ap (get_elem? waiting.sendbuf.buf) e ∙ at_n

waiting-IsQueue : IsQueue waiting.msgbuf
unfolding new_channel
waiting-IsQueue = record {
  ring = record { bits = 3; few = omega arith; power = refl; sized = refl };
  small = omega arith;
}

abbrev first_ack : Head
first_ack = record zero_head { ack_type = 2; ack_sn = 1; ack_pos = 1 }

recv_ack-Intact_example :
    Yields
      (λ (l' : Link).
        Intact (after_ack first_ack 0 1) 1 1 waiting.recvbuf l'
        × (0 ≤ after_ack first_ack 0 1)
        × (after_ack first_ack 0 1 ≤ 1))
      (recv_ack steady first_ack waiting_link)
unfolding new_channel
recv_ack-Intact_example =
    recv_ack-Intact 1 waiting.recvbuf steady 10000000 0 1 first_ack waiting_link (omega arith)
      (omega arith) (omega arith)
      (record {
        sound = waiting-Sound;
        queue = waiting-IsQueue;
        counted = omega arith;
        recvbuf_is = refl;
      })

sample_once-Sampled_example : Yields (Sampled 0 1 1 0 waiting) (sample_once waiting (0 % 65536))
unfolding new_channel
sample_once-Sampled_example = sample_once-Sampled 0 1 1 0 waiting waiting-Sound (omega arith)

-- Nothing is queued, and one pack is under way.
waiting-Backed : Backed 0 0 waiting_link.channel.msgbuf waiting_link.shared.messages
unfolding new_channel
waiting-Backed = record {
  ring = record { bits = 3; few = omega arith; power = refl; sized = refl };
  sent = refl;
  written = refl;
  in_order = (omega arith, omega arith);
  offers = λ i lo hi. absurd (omega arith);
}

-- One of the two packs has been made and not sent.
abbrev ready_link : Link
ready_link = record idle_link {
  channel = record waiting { sendbuf = record waiting.sendbuf { spos = 0 } };
}

ready-Sound : Sound 0 0 1 ready_link.channel.sendbuf
unfolding new_channel
ready-Sound =
    let s : Sound 0 1 1 waiting.sendbuf = waiting-Sound in
    record {
      ring = record { bits = 1; few = omega arith; power = refl; sized = refl };
      read = refl;
      sent = refl;
      written = refl;
      in_order = (omega arith, omega arith, omega arith);
      whole = λ i.
          let h = s.whole i in
          record { pack = h.pack; here = h.here; short = h.short; sized = h.sized };
      queued = λ i lo hi.
          let h = s.queued i lo hi in
          record { pack = h.pack; here = h.here; message = h.message; known = h.known };
    }

send_pack-Sent_example : Yields (Sent 2 0 0 1 0 waiting.recvbuf) (send_pack steady ready_link)
unfolding new_channel
send_pack-Sent_example =
    send_pack-Sent 0 0 1 0 0 waiting.recvbuf steady ready_link
      (record { sound = ready-Sound; queue = waiting-IsQueue; recvbuf_is = refl }) waiting-Backed
