-- ===== src/Msger/Loop.antt =====
-- src/xnet/xmsger.c: `msger_loop` takes each datagram to its channel, and `unicid_comp` orders the
-- channels.
use wenas.Base.{
  ℕ, zero, suc, ◌+◌, Bool, true, false, List, [], ◌∷◌, Option, none, some, Run, ok, fault, or_fault,
  ◌>>=◌, ltb, ◌==◌, ◌&&◌, ◌||◌, if◌then◌else◌, get_or,
}
use wenas.Uuid.{Sign, negative, same, positive}
use wenas.Msger.{
  type_ack, type_req, type_msg, type_res, type_local, Head, Pack, sendable, Channel, Link, Api,
  sent, emit,
}
use wenas.Msger.Send.{send_pack, send_ack, final_head}
use wenas.Msger.Acks.{recv_ack}
use wenas.Msger.Receive.{recv_pack}
use wenas.Msger.Resend.{turns}
use wenas.Msger.Peers.{Tree, Msger, channel_at, put_back, new_channel, with_cid, local_recv}

-- `unicid_comp` and `unicid_find`: the first of the three words that differs decides.
unfoldable pub unicid_from : ℕ → List ℕ → List ℕ → Run Sign
unicid_from zero xs ys = ok same
unicid_from (suc n) (x ∷ xs) (y ∷ ys) =
    let rest = unicid_from n xs ys in
    if x == y then rest else (if ltb y x then ok positive else ok negative)
unicid_from (suc n) xs ys = fault

unfoldable pub unicid_comp : List ℕ → List ℕ → Run Sign
unfolding unicid_from
unicid_comp xs ys = unicid_from 3 xs ys

-- How a datagram was taken: the pack kept or not, and whether the loop goes on.
pub record Taken : Type 0 where
  pub kept : Bool
  pub going : Bool
  pub link : Link

-- A pack is received, and if that went well, `answer` follows.
unfoldable pub receive : Api → Pack → (Link → Run Link) → Link → Run Taken
receive api pack answer l = do
  (kept, going, l') ← recv_pack api pack l
  l'' ← if going then answer l' else ok l'
  ok (record { kept = kept; going = going; link = l'' })

-- A message's pack is answered with the next pack, if there is one, or with a bare head.
unfoldable pub answer_msg : Api → Link → Run Link
answer_msg api l = if ltb 0 (sendable l.channel.sendbuf) then send_pack api l else send_ack api l

unfoldable pub unmoved : Link → Taken
unmoved l = record { kept = false; going = true; link = l }

-- A datagram for a channel that there is.
unfoldable pub on_channel : Api → Pack → Link → Run Taken
unfolding receive answer_msg unmoved
on_channel api pack l =
    let type = pack.head.type in
    let acked = recv_ack api pack.head l >>= λ l'. ok (unmoved l') in
    let same_req = ltb 0 pack.head.resend || (pack.head.ack_pos == l.channel.recvbuf.range) in
    if type == type_msg
    then receive api pack (answer_msg api) l
    else (if type == type_ack
        then acked
        else (if type == type_res
            then receive api pack (send_ack api) l
            else (if (type == type_req) && same_req
                then receive api pack (send_ack api) l
                else ok (unmoved l))))

-- The channel that a peer's request opens. The range of its buffers is what the request says.
unfoldable pub opened : ℕ → List ℕ → Head → ℕ → Channel
unfolding new_channel with_cid
opened sock addr head now =
    let c = new_channel head.ack_pos now in
    record c {
      cid = head.cid;
      ack = record c.ack { cid = head.cid };
      addr = addr;
      sock = sock;
      ucid = with_cid head.cid addr;
    }

module _ {T : Type 0} (tree : Tree T) where
  -- The channel with a state, and what it shares.
  abbrev back : Msger T → ℕ → Link → Msger T
  back m a l = record m { sendlist = put_back a l.channel m.sendlist; shared = l.shared }

  -- A peer's request, when there is memory, and when the tree has taken the channel or not. The flag is
  -- false where the loop ends.
  unfoldable pub begin : Api → Pack → Channel → Msger T → Option T → Run (Bool × Msger T)
  begin api pack c m none = ok (false, m)
  begin api pack c m (some peers) = do
    t ← receive api pack (send_ack api) (record { channel = c; shared = m.shared })
    ok (t.going, back (record m { peers = peers; fresh = m.fresh + 1 }) m.fresh t.link)

  unfoldable pub accept : Api → ℕ → List ℕ → Pack → Msger T → Run (Bool × Msger T)
  accept api sock addr pack m =
      let c = opened sock addr pack.head (api.clock m.shared.clocks) in
      let m' = record m {
        sendlist = (m.fresh, c) ∷ m.sendlist;
        shared = record m.shared { clocks = m.shared.clocks + 1 };
      } in
      begin api pack c m' (tree.add c.ucid m.fresh m.peers)

  -- `xchannel_send_final`: only a head is sent, and a failure is not looked at.
  unfoldable pub send_final : Api → ℕ → List ℕ → Head → Msger T → Run (Msger T)
  unfolding emit
  send_final api sock addr head m =
      let s = record m.shared { sends = m.shared.sends + 1 } in
      ok (record m {
        shared =
            if api.accepts m.shared.sends
            then record s { log = sent sock addr (final_head head) [] ∷ s.log }
            else s;
      })

  -- A datagram from address `addr` over the socket `sock`; a local one is handled by itself.
  unfoldable pub on_datagram : Api → ℕ → List ℕ → Pack → Msger T → Run (Bool × Msger T)
  unfolding on_channel
  on_datagram api sock addr pack m =
      let known : ℕ → Run (Bool × Msger T) = λ a. (do
        c ← or_fault (channel_at a m.sendlist)
        t ← on_channel api pack (record { channel = c; shared = m.shared })
        ok (t.going, back m a t.link)) in
      let unknown : Run (Bool × Msger T) =
        if pack.head.type == type_req
        then accept api sock addr pack m
        else (if pack.head.type == type_res
            then (send_final api sock addr pack.head m >>= λ m'. ok (true, m'))
            else ok (true, m)) in
      elim (tree.find (with_cid pack.head.cid addr) m.peers) [ some a ↦ known a | none ↦ unknown ]

  -- `xmsger_send_all`
  unfoldable pub send_all : Api → Msger T → Run (Msger T)
  send_all api m = do
    (channels, s) ← turns api m.shared m.sendlist
    ok (record m { sendlist = channels; shared = s })

  -- One turn of the receiving loop. What a local datagram points to is as `local_recv` says; it
  -- counts only when it comes from the messenger's own socket.
  unfoldable pub receive_one :
      (ℕ → List ℕ)
      → (ℕ → ℕ)
      → (ℕ → Option ℕ)
      → Api
      → ℕ
      → List ℕ
      → Pack
      → Msger T
      → Run (Bool × Msger T)
  unfolding on_datagram send_all
  receive_one addr_of sock_of channel_of api sock addr pack m =
      let here : Run (Bool × Msger T) =
        local_recv tree addr_of sock_of channel_of api pack.head m >>= λ m'. ok (true, m') in
      let there : Run (Bool × Msger T) = on_datagram api sock addr pack m >>= λ r. elim r.0 [
        | true ↦ send_all api r.1 >>= λ m'. ok (true, m')
        | false ↦ ok r
      ] in
      if pack.head.type == type_local
      then (if get_or addr 0 0 == get_or m.laddr 0 0 then here else ok (true, m))
      else there
