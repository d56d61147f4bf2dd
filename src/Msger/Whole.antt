-- ===== src/Msger/Whole.antt =====
-- src/xnet/xmsger.c: a whole message, from `xmsg_fixed` on the sender's side to the callback on the
-- receiver's.
use wenas.Base.{ℕ, ◌*◌, ◌≤◌, List, ◌≡◌, refl, sym, none, some, length, arith}
use mathlib.Core.Path.{subst}
use wenas.Line.Frame.{Frame}
use wenas.Msger.{Pack, Link, Api}
use wenas.Msger.Send.{packs, xmsg_fixed}
use wenas.Msger.Fragments.{Enough, xmsg_fixed-Enough}
use wenas.Msger.Passing.{transfer}
use wenas.Msger.Transfer.{Sends, Gets, first, Arrived, transfer-Arrived}

module _ (api : Api) (p type : ℕ) (f : Frame) (given : f.wpos ≤ length f.buf)
    (bounded : f.wpos ≤ 8192 * 1280)
    (memory : (n : ℕ) → (mem : List ℕ) × (api.malloc n ≡ some mem) × (length mem ≡ n)) where
  start-Sends :
      Sends api p type f.wpos f.buf given bounded memory 0
        (packs f)
        (record { type = type; frame = xmsg_fixed f })
  unfolding xmsg_fixed
  start-Sends =
      let e : Enough f (xmsg_fixed f) = xmsg_fixed-Enough f (omega arith) in
      record {
        type_is = refl;
        wpos = refl;
        spos = refl;
        range = refl;
        buf = refl;
        within = omega arith;
        some_left = e.some;
        hold = omega (arith, e.hold);
        least = omega (arith, e.least);
      }

  -- A message of 10 MiB at most that `xmsg_fixed` has prepared goes to a receiver with nothing in hand,
  -- pack by pack, each pack made at the sender and taken at the receiver in turn. Where there is
  -- memory for every frame, this ends after the packs that `xmsg_fixed` counted: the user is told of
  -- one more message, from the peer's address, which has the type, the size and the bytes of the
  -- sender's, and nothing is in hand.
  pub transfer-xmsg_fixed :
      (old : Pack) (snd rcv : Link)
      → snd.shared.messages p ≡ record { type = type; frame = xmsg_fixed f }
      → rcv.channel.msg ≡ none
      → length old.body ≡ 1280
      → Arrived api p type f.wpos f.buf given bounded memory rcv
          (transfer (packs f) api p old snd rcv)
  transfer-xmsg_fixed old snd rcv message idle sized =
      transfer-Arrived api p type f.wpos f.buf given bounded memory (packs f) 0 (packs f) old snd
        rcv
        (subst (Sends api p type f.wpos f.buf given bounded memory 0 (packs f)) (sym message)
          start-Sends)
        (subst (Gets api p type f.wpos f.buf given bounded memory 0 (packs f)) (sym idle)
          (first refl))
        sized (omega arith)
