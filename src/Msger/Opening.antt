-- ===== src/Msger/Opening.antt =====
-- src/xnet/xmsger.c: a peer's request names the range of the buffers of the channel that it opens.
use wenas.Base.{
  ℕ, zero, suc, ◌<◌, ok, ◌∷◌, ◌+◌, ◌≡◌, refl, ap, true, List, [], Option, none, some, Run, fault,
  ◌==◌, replicate, arith,
}
use wenas.Msger.{Head, Pack, Ring, Link, Api, index_of, inc16, slot, store}
use wenas.Msger.Send.{send_ack}
use wenas.Msger.Receive.{take_ack, keep, catch_up, recv_due, place, recv_pack}
use wenas.Msger.Peers.{Tree, Msger, new_channel, empty_ring, with_cid}
use wenas.Msger.Loop.{receive, opened, begin, accept}

-- A buffer of range 0 has the one slot of its struct: the first pack is stored there.
store_first :
    (b : Ring (Option Pack)) (pos : ℕ) (p : Option Pack)
    → b.range ≡ 0
    → b.buf ≡ none ∷ []
    → pos ≡ 0
    → store b pos p ≡ ok (record b { buf = p ∷ [] })
unfolding store index_of
store_first b pos p zero_range one_slot at_zero = simp (zero_range, one_slot, at_zero) refl

-- The slot of the next one is not there to be looked at.
catch_up_beyond :
    (fuel : ℕ) (b : Ring (Option Pack)) (p : Option Pack)
    → b.range ≡ 0
    → b.buf ≡ p ∷ []
    → b.wpos ≡ 1
    → 0 < fuel
    → catch_up fuel b ≡ fault
unfolding catch_up slot index_of
catch_up_beyond zero b p zero_range one_slot at_one turn = absurd (omega arith)
catch_up_beyond (suc fuel) b p zero_range one_slot at_one turn =
    simp (zero_range, one_slot, at_one) refl

place_beyond :
    (api : Api) (pack : Pack) (l : Link)
    → l.channel.recvbuf.range ≡ 0
    → l.channel.recvbuf.buf ≡ none ∷ []
    → l.channel.recvbuf.wpos ≡ 0
    → pack.head.sn ≡ 0
    → pack.head.ack_type ≡ 0
    → place api pack l ≡ fault
unfolding place recv_due take_ack keep
place_beyond api pack l zero_range one_slot at_zero first no_ack =
    let b : Ring (Option Pack) = record l.channel.recvbuf { buf = some pack ∷ [] } in
    let stored : store l.channel.recvbuf pack.head.sn (some pack) ≡ ok b =
      store_first l.channel.recvbuf pack.head.sn (some pack) zero_range one_slot first in
    let is_due : (pack.head.sn == l.channel.recvbuf.wpos) ≡ true = ground (arith, at_zero, first) in
    let no_ack' : (pack.head.ack_type == 0) ≡ true = ground (arith, no_ack) in
    let beyond : catch_up (b.range + 1) (record b { wpos = inc16 b.wpos }) ≡ fault =
      catch_up_beyond (b.range + 1) (record b { wpos = inc16 b.wpos }) (some pack) zero_range refl
        (ap inc16 at_zero) (omega arith) in
    rw (is_due, no_ack', stored, beyond) refl

receive_beyond :
    (api : Api) (pack : Pack) (answer : Link → Run Link) (l : Link)
    → place api pack l ≡ fault
    → receive api pack answer l ≡ fault
unfolding receive recv_pack
receive_beyond api pack answer l e = rw e refl

opened_buf :
    (sock : ℕ) (addr : List ℕ) (head : Head) (now : ℕ)
    → head.ack_pos ≡ 0
    → ((opened sock addr head now).recvbuf.range ≡ 0)
      × ((opened sock addr head now).recvbuf.buf ≡ none ∷ [])
      × ((opened sock addr head now).recvbuf.wpos ≡ 0)
unfolding opened new_channel empty_ring
opened_buf sock addr head now e = (e, ap (λ n. replicate (n + 1) none) e, refl)

opened_ucid :
    (sock : ℕ) (addr : List ℕ) (head : Head) (now : ℕ)
    → (opened sock addr head now).ucid ≡ with_cid head.cid addr
unfolding opened
opened_ucid sock addr head now = refl

module _ {T : Type 0} (tree : Tree T) where
  abbrev link_of : Api → ℕ → List ℕ → Pack → Msger T → Link
  link_of api sock addr pack m = record {
    channel = opened sock addr pack.head (api.clock m.shared.clocks);
    shared = record m.shared { clocks = m.shared.clocks + 1 };
  }

  accept_added :
      (api : Api) (sock : ℕ) (addr : List ℕ) (pack : Pack) (m : Msger T) (peers : T)
      → tree.add (with_cid pack.head.cid addr) m.fresh m.peers ≡ some peers
      → receive api pack (send_ack api) (link_of api sock addr pack m) ≡ fault
      → accept tree api sock addr pack m ≡ fault
  unfolding accept begin receive recv_pack opened
  accept_added api sock addr pack m peers added e =
      rw (opened_ucid sock addr pack.head (api.clock m.shared.clocks), added, e) refl

  -- A peer's request with the number 0, no acknowledgement and the range 0 makes the messenger read
  -- outside the buffer that it has just allocated, where the tree takes the new channel: the buffer
  -- has one slot, and behind the first pack the code looks into the next.
  pub accept-range_zero :
      (api : Api) (sock : ℕ) (addr : List ℕ) (pack : Pack) (m : Msger T) (peers : T)
      → pack.head.ack_pos ≡ 0
      → pack.head.sn ≡ 0
      → pack.head.ack_type ≡ 0
      → tree.add (with_cid pack.head.cid addr) m.fresh m.peers ≡ some peers
      → accept tree api sock addr pack m ≡ fault
  accept-range_zero api sock addr pack m peers zero_range first no_ack added =
      let l : Link = link_of api sock addr pack m in
      let (no_range, one_slot, at_zero) =
        opened_buf sock addr pack.head (api.clock m.shared.clocks) zero_range in
      accept_added api sock addr pack m peers added (
        receive_beyond api pack (send_ack api) l
          (place_beyond api pack l no_range one_slot at_zero first no_ack))
