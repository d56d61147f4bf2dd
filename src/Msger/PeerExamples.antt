-- ===== src/Msger/PeerExamples.antt =====
-- The theorems on the channels of src/xnet/xmsger.c at a tree that is a list of keys.
use wenas.Base.{ℕ, ◌≡◌, refl, List, [], ◌∷◌, none, some, true, ok, fault, replicate, arith}
use wenas.Line.Frame.{Frame}
use wenas.Uuid.Order.{sign, value}
use wenas.Msger.{Pack, Shared, Link, Api}
use wenas.Msger.Peers.{Tree, Msger, zero_head, zero_pack, new_channel, with_cid}
use wenas.Msger.Loop.{unicid_comp, accept}
use wenas.Msger.Keys.{unicid_comp-sign}
use wenas.Msger.Opening.{accept-range_zero}

unicid_comp-sign_example :
    unicid_comp (1 ∷ 5 ∷ 0 ∷ []) (1 ∷ 2 ∷ 9 ∷ [])
    ≡ ok (sign (value (1 ∷ 5 ∷ 0 ∷ [])) (value (1 ∷ 2 ∷ 9 ∷ [])))
unicid_comp-sign_example = unicid_comp-sign 1 5 0 1 2 9 (omega arith) (omega arith)

abbrev any_tree : Tree (List (List ℕ))
any_tree = record {
  add = λ key a keys. some (key ∷ keys);
  find = λ key keys. none;
  remove = λ key keys. keys;
}

abbrev plain_api : Api
plain_api = record {
  clock = λ n. n;
  accepts = λ n. true;
  malloc = λ n. some (replicate n 0);
  junk = [];
}

abbrev no_frame : Frame
no_frame = record {
  ref = 0;
  spos = 0;
  range = 0;
  rpos = 0;
  wpos = 0;
  size = 0;
  buf = [];
  line = [];
}

abbrev no_shared : Shared
no_shared = record {
  pos = 0;
  len = 0;
  timer = 0;
  messages = λ p. record { type = 0; frame = no_frame };
  clocks = 0;
  sends = 0;
  log = [];
}

abbrev lonely : Msger (List (List ℕ))
lonely = record {
  socks = [];
  laddr = [];
  cid = 0;
  peers = [];
  sendlist = [];
  fresh = 1;
  shared = no_shared;
}

abbrev zero_request : Pack
zero_request = record zero_pack {
  head = record zero_head { type = 1; cid = 7; len = 0; range = 1 };
}

accept-range_zero_example : accept any_tree plain_api 3 (9 ∷ 9 ∷ 9 ∷ []) zero_request lonely ≡ fault
unfolding zero_pack zero_head
accept-range_zero_example =
    accept-range_zero any_tree plain_api 3 (9 ∷ 9 ∷ 9 ∷ []) zero_request lonely
      (with_cid 7 (9 ∷ 9 ∷ 9 ∷ []) ∷ []) refl refl refl refl

-- A pack to send, a pack received, a message with another owner in the queue, and one in hand.
abbrev some_link : Link
some_link =
    let c = new_channel 2 0 in
    record {
      channel = record c {
        sendbuf = record c.sendbuf { wpos = 1 };
        recvbuf = record c.recvbuf { wpos = 1; buf = some zero_request ∷ none ∷ none ∷ [] };
        msgbuf = record c.msgbuf { wpos = 1; buf = some 5 ∷ replicate 8 none };
        msg = some (record { type = 2; frame = record no_frame { ref = 1 } });
      };
      shared = record no_shared {
        messages = λ p. record { type = 2; frame = record no_frame { ref = 2 } };
      };
    }
