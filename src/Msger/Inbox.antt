-- ===== src/Msger/Inbox.antt =====
-- src/xnet/xmsger.c: what the receiving of one pack depends on: the message that is being received,
-- what has left the messenger, and the peer's address.
use wenas.Base.{
  Bool, true, List, ◌≡◌, Option, none, some, Run, ok, fault, out_of_fuel, ◌>>=◌, inl, inr,
  Bool-cases, ◌==◌, arith,
}
use mathlib.Core.Path.{subst}
use wenas.Msger.{Pack, Message, Link, Event, Api, emit}
use wenas.Msger.Receive.{current, absorb, hand_over, extend, consume}

-- The link with another message in hand, and other events behind it.
abbrev pub with_inbox : Option Message → List Event → Link → Link
with_inbox m log l = record l {
  channel = record l.channel { msg = m };
  shared = record l.shared { log = log };
}

-- The two links have received the same, from the same peer.
pub record Agrees (p l : Link) : Type 0 where
  pub msg : p.channel.msg ≡ l.channel.msg
  pub log : p.shared.log ≡ l.shared.log
  pub addr : p.channel.addr ≡ l.channel.addr

-- What a pack does to one link it does to the other.
abbrev pub Alike : (p l p' : Link) → Run (Bool × Link) → Type 0
Alike p l p' r =
    (r ≡ ok (true, with_inbox p'.channel.msg p'.shared.log l)) × (p'.channel.addr ≡ p.channel.addr)

abbrev handed : Link → Run Message → Run (Bool × Link)
handed l r = r >>= λ m. ok (true, hand_over m l)

module _ (p l : Link) (a : Agrees p l) where
  hand_over-Alike : (m : Message) → Alike p l (hand_over m p) (ok (true, hand_over m l))
  unfolding hand_over emit
  hand_over-Alike m = elim (Bool-cases (m.frame.range == 0)) [
    | inl done ↦ ground (arith, done, a.addr, a.log)
    | inr more ↦ ground (arith, more, a.log)
  ]

  absorbed : (p' : Link) (r : Run Message) → handed p r ≡ ok (true, p') → Alike p l p' (handed l r)
  absorbed p' (ok m) e =
      let same : hand_over m p ≡ p' = cc in
      subst (λ q. Alike p l q (ok (true, hand_over m l))) same (hand_over-Alike m)
  absorbed p' fault e = cc
  absorbed p' out_of_fuel e = cc

  extended :
      (p' : Link) (pack : Pack) (o : Option Message)
      → extend pack p o ≡ ok (true, p')
      → Alike p l p' (extend pack l o)
  unfolding extend
  extended p' pack none e = cc
  extended p' pack (some m) e = absorbed p' (absorb pack m) e

  pub consume-Alike :
      (api : Api) (p' : Link) (pack : Pack)
      → consume api pack p ≡ ok (true, p')
      → Alike p l p' (consume api pack l)
  unfolding consume
  consume-Alike api p' pack e =
      subst (λ m. Alike p l p' (extend pack l (current api m pack))) a.msg
        (extended p' pack (current api p.channel.msg pack) e)
