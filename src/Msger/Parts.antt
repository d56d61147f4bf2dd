-- ===== src/Msger/Parts.antt =====
-- src/xnet/xmsger.c: one pack takes a part of a message from the sender's memory to the receiver's.
use wenas.Base.{
  ℕ, ◌+◌, ◌%◌, ◌^◌, ◌≤◌, ◌<◌, List, ◌++◌, ◌≡◌, refl, sym, ap, ◌∙◌, some, Run, ok, length, take,
  drop, splice, length-take_le, length-drop, length-splice, take-splice, take_all, add64, sub64,
  le→leb, arith,
}
use wenas.Pipe.{copy_to, copy_from}
use wenas.Msger.{Pack, Message, Link}
use wenas.Msger.Send.{pack_len, pack_head, fill_pack}
use wenas.Msger.Receive.{absorb}

part_length : (j n : ℕ) (xs : List ℕ) → j + n ≤ length xs → length (take n (drop j xs)) ≡ n
part_length j n xs h = length-take_le n (drop j xs) (omega (arith, length-drop j xs))

copy_from_lem :
    (xs : List ℕ) (j n : ℕ) → j + n ≤ length xs → copy_from xs j n ≡ ok (take n (drop j xs))
unfolding copy_from
copy_from_lem xs j n h = rw (le→leb (j + n) (length xs) h) refl

copy_to_lem :
    (xs bs : List ℕ) (j n : ℕ)
    → length bs ≡ n
    → j + n ≤ length xs
    → copy_to xs j bs n ≡ ok (splice xs j bs)
unfolding copy_to
copy_to_lem xs bs j n e h =
    rw
      (
        le→leb n (length bs) (omega arith),
        le→leb (j + n) (length xs) h,
        take_all n bs (omega arith),
      )
      refl

-- A pack with these `n` bytes of message `m`.
pub record Carries (p : ℕ) (m : Message) (bytes : List ℕ) (n : ℕ) (r : Run Pack) : Type 0 where
  pub pack : Pack
  pub result : r ≡ ok pack
  pub len : pack.head.len ≡ n
  pub known : pack.msg ≡ some p
  pub range : pack.head.range ≡ m.frame.range % 65536
  pub type : pack.head.type ≡ m.type
  pub body : take n pack.body ≡ bytes
  pub sized : length pack.body ≡ 1280

pub fill_pack-Carries :
    (l : Link) (p : ℕ) (old : Pack) (m : Message) (n : ℕ)
    → l.shared.messages p ≡ m
    → pack_len m.frame ≡ n
    → length old.body ≡ 1280
    → n ≤ 1280
    → m.frame.spos + n ≤ length m.frame.buf
    → Carries p m (take n (drop m.frame.spos m.frame.buf)) n (fill_pack l p old)
unfolding fill_pack pack_head
fill_pack-Carries l p old m n is lens sized small inside =
    let bytes : List ℕ = take n (drop m.frame.spos m.frame.buf) in
    let long : length bytes ≡ n = part_length m.frame.spos n m.frame.buf inside in
    let read : copy_from m.frame.buf m.frame.spos n ≡ ok bytes =
      copy_from_lem m.frame.buf m.frame.spos n inside in
    let written : copy_to old.body 0 bytes n ≡ ok (splice old.body 0 bytes) =
      copy_to_lem old.body bytes 0 n long (omega arith) in
    let kept : take (0 + length bytes) (splice old.body 0 bytes) ≡ bytes =
      take-splice old.body 0 bytes (omega arith) in
    record {
      pack = record old {
        ts = l.channel.rtt;
        msg = some p;
        head = pack_head l.channel m n old.head;
        body = splice old.body 0 bytes;
      };
      result = simp (is, lens, read, written) refl;
      len = refl;
      known = refl;
      range = refl;
      type = refl;
      body = ap (λ k. take k (splice old.body 0 bytes)) (omega (arith, long)) ∙ kept;
      sized = length-splice old.body 0 bytes (omega arith) ∙ sized;
    }

-- The message with the bytes of the pack behind its own.
pub record Grown (pack : Pack) (m : Message) (r : Run Message) : Type 0 where
  pub message : Message
  pub result : r ≡ ok message
  pub wpos : message.frame.wpos ≡ m.frame.wpos + pack.head.len
  pub bytes :
      take (m.frame.wpos + pack.head.len) message.frame.buf
      ≡ take m.frame.wpos m.frame.buf ++ take pack.head.len pack.body
  pub sized : length message.frame.buf ≡ length m.frame.buf
  pub range : message.frame.range ≡ sub64 m.frame.range 1
  pub type : message.type ≡ m.type

pub absorb-Grown :
    (pack : Pack) (m : Message)
    → pack.head.len ≤ length pack.body
    → m.frame.wpos + pack.head.len ≤ length m.frame.buf
    → m.frame.wpos + pack.head.len < 2 ^ 64
    → Grown pack m (absorb pack m)
unfolding absorb
absorb-Grown pack m given room small =
    let n : ℕ = pack.head.len in
    let bytes : List ℕ = take n pack.body in
    let long : length bytes ≡ n = length-take_le n pack.body given in
    let read : copy_from pack.body 0 n ≡ ok bytes = copy_from_lem pack.body 0 n (omega arith) in
    let written : copy_to m.frame.buf m.frame.wpos bytes n
        ≡ ok (splice m.frame.buf m.frame.wpos bytes) =
      copy_to_lem m.frame.buf bytes m.frame.wpos n long room in
    record {
      message = record m {
        frame = record m.frame {
          buf = splice m.frame.buf m.frame.wpos bytes;
          wpos = add64 m.frame.wpos n;
          range = sub64 m.frame.range 1;
        };
      };
      result = simp (read, written) refl;
      wpos = omega arith;
      bytes =
          ap (λ k. take (m.frame.wpos + k) (splice m.frame.buf m.frame.wpos bytes)) (sym long)
          ∙ take-splice m.frame.buf m.frame.wpos bytes (omega (arith, long));
      sized = length-splice m.frame.buf m.frame.wpos bytes (omega (arith, long));
      range = refl;
      type = refl;
    }
