-- ===== src/Msger/Passing.antt =====
-- src/xnet/xmsger.c: the packs of a message go from the sender to the receiver one by one.
use wenas.Base.{
  ℕ, zero, suc, Bool, true, false, ◌≡◌, ◌≢◌, refl, ap, some, Run, ok, out_of_fuel, ◌>>=◌, ◌==◌,
  ne→==, if◌then◌else◌,
}
use wenas.Heap.{update}
use wenas.Msger.{Pack, Message, Link, Api}
use wenas.Msger.Send.{fill_pack, advance}
use wenas.Msger.Receive.{hand_over, consume}

-- The packs of message `p` go from `snd` to `rcv` one by one, until the message has been cut up.
unfoldable pub transfer : ℕ → Api → ℕ → Pack → Link → Link → Run (Bool × Link)
transfer zero api p old snd rcv = out_of_fuel
transfer (suc fuel) api p old snd rcv = fill_pack snd p old >>= λ pack.
    consume api pack rcv >>= λ r.
    (let m = advance pack.head.len (snd.shared.messages p) in
      let snd' : Link = record snd {
        shared = record snd.shared { messages = update snd.shared.messages p m };
      } in
      let rest : Run (Bool × Link) = transfer fuel api p pack snd' r.1 in
      if m.frame.spos == m.frame.wpos then ok r else (if r.0 then rest else ok r))

-- The message `m` is in hand, not complete yet.
abbrev pub holding : Message → Link → Link
holding m l = record l { channel = record l.channel { msg = some m } }

pub hand_over-more : (m : Message) (l : Link) → m.frame.range ≢ 0 → hand_over m l ≡ holding m l
unfolding hand_over
hand_over-more m l more = simp (ne→== m.frame.range 0 more) refl

-- One turn of the transfer.
module _ (api : Api) (p fuel n : ℕ) (pack old : Pack) (snd rcv : Link) (h : Message)
    (filled : fill_pack snd p old ≡ ok pack) (long : pack.head.len ≡ n)
    (got : consume api pack rcv ≡ ok (true, hand_over h rcv)) where
  abbrev m : Message
  m = snd.shared.messages p

  abbrev pub cut_off : Link
  cut_off = record snd {
    shared = record snd.shared { messages = update snd.shared.messages p (advance n m) };
  }

  same_cut : advance pack.head.len m ≡ advance n m
  same_cut = ap (λ k. advance k m) long

  pub transfer_last :
      ((advance n m).frame.spos == (advance n m).frame.wpos) ≡ true
      → transfer (suc fuel) api p old snd rcv ≡ ok (true, hand_over h rcv)
  unfolding transfer
  transfer_last e = simp (filled, got, same_cut, e) refl

  pub transfer_more :
      ((advance n m).frame.spos == (advance n m).frame.wpos) ≡ false
      → transfer (suc fuel) api p old snd rcv ≡ transfer fuel api p pack cut_off (hand_over h rcv)
  unfolding transfer
  transfer_more e = simp (filled, got, same_cut, e) refl
