-- ===== src/Msger/Fragments.antt =====
-- src/xnet/xmsger.c: a message is cut into as many packs as `xmsg_fixed` says.
use wenas.Base.{◌+◌, ◌-◌, ◌*◌, ◌≤◌, ◌<◌, ◌≡◌, IsU64, arith}
use wenas.Line.Frame.{Frame}
use wenas.Msger.Send.{packs, xmsg_fixed}

-- What `xmsg_fixed` leaves: the packs take the message, and one fewer would not.
pub record Enough (f g : Frame) : Type 0 where
  pub hold : g.wpos ≤ g.range * 1280
  pub least : g.range * 1280 < g.wpos + 1280 + (1 - g.wpos)
  pub some : 0 < g.range
  pub begins : (g.spos ≡ 0) × (g.rpos ≡ 0)
  pub same : (g.wpos ≡ f.wpos) × (g.buf ≡ f.buf)

-- For a message of any length below 2 ^ 64, `xmsg_fixed` sets `range` to the least number of packs, not
-- 0, whose bodies of 1280 bytes hold it, sets `spos` and `rpos` to 0, and keeps the bytes.
pub xmsg_fixed-Enough : (f : Frame) → IsU64 f.wpos → Enough f (xmsg_fixed f)
unfolding xmsg_fixed packs
xmsg_fixed-Enough f small = record {
  hold = ground arith;
  least = ground arith;
  some = ground arith;
  begins = ground arith;
  same = ground arith;
}
