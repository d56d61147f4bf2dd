-- ===== src/Msger/Transfer.antt =====
-- src/xnet/xmsger.c: a message is cut into packs on one side and put together on the other.
use wenas.Base.{
  ℕ, zero, suc, ◌+◌, ◌-◌, ◌*◌, ◌%◌, ◌≤◌, ◌<◌, Bool, true, false, List, ◌∷◌, ◌++◌, ◌≡◌, refl, sym,
  ap, ◌∙◌, ◌⊎◌, inl, inr, Option, none, some, Run, ok, length, take, drop, take-add, ◌==◌, min,
  arith,
}
use mathlib.Core.Path.{subst}
use wenas.Heap.{update}
use wenas.Heap.Valid.{update_here}
use wenas.Line.{little, n2b, type_obj}
use wenas.Line.Frame.{spare, fixed, creator, created}
use wenas.Msger.{Pack, Message, Link, from_peer, Api, emit}
use wenas.Msger.Send.{pack_len, fill_pack, advance}
use wenas.Msger.Receive.{started, current, absorb, hand_over, extend, consume}
use wenas.Msger.Passing.{transfer, holding, hand_over-more, cut_off, transfer_last, transfer_more}
use wenas.Msger.Parts.{Carries, fill_pack-Carries, Grown, absorb-Grown}

module _ (api : Api) (p type size : ℕ) (bytes : List ℕ) (given : size ≤ length bytes)
    (bounded : size ≤ 8192 * 1280)
    (memory : (n : ℕ) → (mem : List ℕ) × (api.malloc n ≡ some mem) × (length mem ≡ n)) where
  -- `done` bytes have been cut off and `packs` packs are still to come.
  pub record Sends (done packs : ℕ) (m : Message) : Type 0 where
    pub type_is : m.type ≡ type
    pub wpos : m.frame.wpos ≡ size
    pub spos : m.frame.spos ≡ done
    pub range : m.frame.range ≡ packs
    pub buf : m.frame.buf ≡ bytes
    pub within : done ≤ size
    pub some_left : 0 < packs
    pub hold : size - done ≤ packs * 1280
    pub least : packs * 1280 < size - done + 1280 + (1 - (size - done))

  -- The receiver's message has as many.
  pub record Got (done packs : ℕ) (m : Message) : Type 0 where
    pub type_is : m.type ≡ type
    pub wpos : m.frame.wpos ≡ done
    pub range : m.frame.range ≡ packs
    pub bytes_same : take done m.frame.buf ≡ take done bytes
    pub room : done + packs * 1280 ≤ length m.frame.buf

  pub data Gets (done packs : ℕ) : Option Message → Type 0 where
    first : done ≡ 0 → Gets done packs none
    later : {m : Message} → Got done packs m → Gets done packs (some m)

  part_len :
      (done packs : ℕ) (m : Message)
      → Sends done packs m
      → pack_len m.frame ≡ min (size - done) 1280
  unfolding pack_len
  part_len done packs m s = ground (arith, s.wpos, s.spos, s.within)

  record Current (done packs : ℕ) (o : Option Message) : Type 0 where
    pub message : Message
    pub result : o ≡ some message
    pub got : Got done packs message

  current-Got :
      (done packs : ℕ) (pack : Pack) (o : Option Message)
      → Gets done packs o
      → pack.head.range ≡ packs
      → pack.head.type ≡ type
      → Current done packs (current api o pack)
  unfolding current started creator created
  current-Got done packs pack none (first e) r t =
      let (mem, gives, long) = memory (pack.head.range * 1280 + spare) in
      record {
        message = record {
          type = pack.head.type;
          frame = record {
            ref = 1;
            spos = 0;
            range = pack.head.range;
            rpos = 0;
            wpos = 0;
            size = pack.head.range * 1280;
            buf = mem;
            line = api.junk;
          };
        };
        result = simp gives refl;
        got = record {
          type_is = t;
          wpos = sym e;
          range = r;
          bytes_same = ap (λ k. take k mem) e ∙ ap (λ k. take k bytes) (sym e);
          room = omega (arith, ap (λ (k : ℕ). k * 1280) r);
        };
      }
  current-Got done packs pack (some m) (later g) r t = record {
    message = m;
    result = refl;
    got = g;
  }

  -- The receiver has the whole message, and the user has got it.
  pub record Arrived (rcv : Link) (r : Run (Bool × Link)) : Type 0 where
    pub link : Link
    pub message : Message
    pub result : r ≡ ok (true, link)
    pub none_in_hand : link.channel.msg ≡ none
    pub told : link.shared.log ≡ from_peer rcv.channel.addr message ∷ rcv.shared.log
    pub type_same : message.type ≡ type
    pub wpos : message.frame.wpos ≡ size
    pub bytes_same : take size message.frame.buf ≡ take size bytes
    pub line : message.frame.line ≡ n2b little size type_obj

  -- One pack: the receiver's message grows.
  record Step (done packs n : ℕ) (pack : Pack) (rcv : Link) : Type 0 where
    pub message : Message
    pub result : consume api pack rcv ≡ ok (true, hand_over message rcv)
    pub got : Got (done + n) (packs - 1) message

  packs_small : (done packs : ℕ) (m : Message) → Sends done packs m → packs % 65536 ≡ packs
  packs_small done packs m s = omega (arith, s.least, s.within)

  grown_bytes :
      (done n : ℕ) (g h : Message) (pack : Pack)
      → g.frame.wpos ≡ done
      → pack.head.len ≡ n
      → take done g.frame.buf ≡ take done bytes
      → take n pack.body ≡ take n (drop done bytes)
      → take (g.frame.wpos + pack.head.len) h.frame.buf
        ≡ take g.frame.wpos g.frame.buf ++ take pack.head.len pack.body
      → take (done + n) h.frame.buf ≡ take (done + n) bytes
  grown_bytes done n g h pack at len front back e =
      ap (λ k. take k h.frame.buf) (omega arith)
      ∙ e
      ∙ ap (λ k. take k g.frame.buf ++ take pack.head.len pack.body) at
      ∙ ap (λ k. take done g.frame.buf ++ take k pack.body) len
      ∙ ap (λ l. l ++ take n pack.body) front
      ∙ ap (λ l. take done bytes ++ l) back
      ∙ sym (take-add done n bytes)

  step :
      (done packs n : ℕ) (m : Message) (rcv : Link) (r : Run Pack)
      → Sends done packs m
      → Gets done packs rcv.channel.msg
      → n ≡ min (size - done) 1280
      → (c : Carries p m (take n (drop done bytes)) n r) → Step done packs n c.pack rcv
  unfolding consume extend
  step done packs n m rcv r s g e c =
      let cur : Current done packs (current api rcv.channel.msg c.pack) =
        current-Got done packs c.pack rcv.channel.msg g
          (c.range ∙ ap (λ k. k % 65536) s.range ∙ packs_small done packs m s)
          (c.type ∙ s.type_is) in
      let grown : Grown c.pack cur.message (absorb c.pack cur.message) =
        absorb-Grown c.pack cur.message (omega (arith, c.len, c.sized))
          (omega (arith, c.len, cur.got.wpos, cur.got.room, s.hold, s.some_left))
          (omega (arith, c.len, cur.got.wpos, s.within)) in
      record {
        message = grown.message;
        result = simp (cur.result, grown.result) refl;
        got = record {
          type_is = grown.type ∙ cur.got.type_is;
          wpos = omega (arith, grown.wpos, cur.got.wpos, c.len);
          range = omega (arith, grown.range, cur.got.range, s.some_left, s.least, s.within);
          bytes_same =
              grown_bytes done n cur.message grown.message c.pack cur.got.wpos c.len
                cur.got.bytes_same c.body grown.bytes;
          room = omega (arith, grown.sized, cur.got.room, s.hold, s.some_left);
        };
      }

  advanced :
      (done packs n : ℕ) (m : Message)
      → Sends done packs m
      → n ≡ min (size - done) 1280
      → 1280 < size - done
      → Sends (done + n) (packs - 1) (advance n m)
  unfolding advance
  advanced done packs n m s e more = record {
    type_is = s.type_is;
    wpos = s.wpos;
    spos = omega (arith, s.spos, s.within);
    range = omega (arith, s.range, s.some_left, s.least, s.within);
    buf = s.buf;
    within = omega arith;
    some_left = omega (arith, s.hold);
    hold = omega (arith, s.hold);
    least = omega (arith, s.least);
  }

  hand_over-Arrived :
      (m : Message) (l : Link) (done packs : ℕ)
      → Got done packs m
      → done ≡ size
      → packs ≡ 0
      → Arrived l (ok (true, hand_over m l))
  unfolding hand_over emit fixed
  hand_over-Arrived m l done packs g all none_left =
      let complete : m.frame.range ≡ 0 = g.range ∙ none_left in
      record {
        link = record {
          channel = record l.channel { msg = none };
          shared = record l.shared {
            log = from_peer l.channel.addr (record m { frame = fixed m.frame }) ∷ l.shared.log;
          };
        };
        message = record m { frame = fixed m.frame };
        result = simp complete refl;
        none_in_hand = refl;
        told = refl;
        type_same = g.type_is;
        wpos = g.wpos ∙ all;
        bytes_same = subst (λ k. take k m.frame.buf ≡ take k bytes) all g.bytes_same;
        line = ap (λ k. n2b little k type_obj) (g.wpos ∙ all);
      }

  carried :
      (done packs : ℕ) (old : Pack) (snd : Link)
      → Sends done packs (snd.shared.messages p)
      → length old.body ≡ 1280
      → Carries p
          (snd.shared.messages p)
          (take (min (size - done) 1280) (drop done bytes))
          (min (size - done) 1280)
          (fill_pack snd p old)
  carried done packs old snd s sized =
      let m : Message = snd.shared.messages p in
      let n : ℕ = min (size - done) 1280 in
      let source : take n (drop m.frame.spos m.frame.buf) ≡ take n (drop done bytes) =
        ap (λ k. take n (drop k m.frame.buf)) s.spos ∙ ap (λ b. take n (drop done b)) s.buf in
      subst (λ b. Carries p m b n (fill_pack snd p old)) source
        (fill_pack-Carries snd p old m n refl (part_len done packs m s) sized (omega arith)
          (omega (arith, s.spos, s.within, ap length s.buf)))

  cut_up-last :
      (done packs n : ℕ) (m : Message)
      → Sends done packs m
      → n ≡ min (size - done) 1280
      → size - done ≤ 1280
      → ((advance n m).frame.spos == (advance n m).frame.wpos) ≡ true
  unfolding advance
  cut_up-last done packs n m s e last = ground (arith, s.spos, s.wpos, s.within)

  cut_up-more :
      (done packs n : ℕ) (m : Message)
      → Sends done packs m
      → n ≡ min (size - done) 1280
      → 1280 < size - done
      → ((advance n m).frame.spos == (advance n m).frame.wpos) ≡ false
  unfolding advance
  cut_up-more done packs n m s e more = ground (arith, s.spos, s.wpos, s.within)

  cut_Sends :
      (done packs : ℕ) (snd : Link) (m : Message)
      → Sends done packs m
      → Sends done packs (update snd.shared.messages p m p)
  cut_Sends done packs snd m s =
      subst (Sends done packs) (sym (update_here snd.shared.messages p m)) s

  -- The first `done` bytes of a message of `size` bytes, 10 MiB at most, have been cut off and have
  -- arrived, or none has and nothing is in hand. With as much fuel as there are packs to come, the
  -- transfer ends with the user told of one more message, from the peer's address, which has the
  -- type, the size and the bytes of the sender's; nothing is in hand then. There is memory for it.
  pub transfer-Arrived :
      (fuel done packs : ℕ) (old : Pack) (snd rcv : Link)
      → Sends done packs (snd.shared.messages p)
      → Gets done packs rcv.channel.msg
      → length old.body ≡ 1280
      → packs ≤ fuel
      → Arrived rcv (transfer fuel api p old snd rcv)
  transfer-Arrived zero done packs old snd rcv s g sized enough =
      absurd (omega (arith, s.some_left))
  transfer-Arrived (suc fuel) done packs old snd rcv s g sized enough =
      let m : Message = snd.shared.messages p in
      let n : ℕ = min (size - done) 1280 in
      let c : Carries p m (take n (drop done bytes)) n (fill_pack snd p old) =
        carried done packs old snd s sized in
      let st : Step done packs n c.pack rcv =
        step done packs n m rcv (fill_pack snd p old) s g refl c in
      elim (last_one (size - done)) [
        | inl last ↦
            let gone : Run (Bool × Link) = ok (true, hand_over st.message rcv) in
            let turn : transfer (suc fuel) api p old snd rcv ≡ gone =
              transfer_last api p fuel n c.pack old snd rcv st.message c.result c.len st.result
                (cut_up-last done packs n m s refl last) in
            subst (Arrived rcv) (sym turn) (
              hand_over-Arrived st.message rcv (done + n) (packs - 1) st.got
                (omega (arith, s.within)) (omega (arith, s.least)))
        | inr more ↦
            let cut : Link =
              cut_off api p fuel n c.pack old snd rcv st.message c.result c.len st.result in
            let held : Link = holding st.message rcv in
            let turn : transfer (suc fuel) api p old snd rcv ≡ transfer fuel api p c.pack cut held =
              transfer_more api p fuel n c.pack old snd rcv st.message c.result c.len st.result
                (cut_up-more done packs n m s refl more)
              ∙ ap (transfer fuel api p c.pack cut)
                  (hand_over-more st.message rcv (λ e. omega (arith, st.got.range, s.hold))) in
            let rest : Arrived held (transfer fuel api p c.pack cut held) =
              transfer-Arrived fuel (done + n) (packs - 1) c.pack cut held
                (cut_Sends (done + n) (packs - 1) snd (advance n m)
                  (advanced done packs n m s refl more))
                (later st.got) c.sized (omega arith) in
            record {
              link = rest.link;
              message = rest.message;
              result = turn ∙ rest.result;
              none_in_hand = rest.none_in_hand;
              told = rest.told;
              type_same = rest.type_same;
              wpos = rest.wpos;
              bytes_same = rest.bytes_same;
              line = rest.line;
            }
      ]
    where
      last_one : (left : ℕ) → (left ≤ 1280) ⊎ (1280 < left)
      last_one left = omega arith
