-- ===== src/Msger/Clearing.antt =====
-- src/xnet/xmsger.c: `xchannel_clear` gives up the packs that have not been sent.
use wenas.Base.{
  ℕ, ◌+◌, ◌%◌, ◌^◌, ◌==◌, if◌then◌else◌, zero, suc, ◌<◌, ◌≡◌, ◌≢◌, List, [], ◌∷◌, Option, none,
  some, length, get_elem?,
}
use wenas.Msger.{Pack, Shared, Link, sendable, recvable}

-- How often the first slots of a queue have message `p`.
abbrev pub has : ℕ → Option ℕ → ℕ
has p none = 0
has p (some q) = if q == p then 1 else 0

abbrev pub times : ℕ → ℕ → List (Option ℕ) → ℕ
times p zero ps = 0
times p (suc n) [] = 0
times p (suc n) (o ∷ ps) = has p o + times p n ps

-- How many references there are to message `p`.
abbrev pub refs : ℕ → Shared → ℕ
refs p s = (s.messages p).frame.ref

-- What is left of a link: no pack to send, to be acknowledged or received, and no message in hand. A
-- message has a reference less for each time that the queue has it, and one less if it is the
-- channel's request.
pub record Cleared (l l' : Link) : Type 0 where
  pub nothing_made : sendable l'.channel.sendbuf ≡ 0
  pub nothing_sent : recvable l'.channel.sendbuf ≡ 0
  pub nothing_received :
      (i : ℕ) (p : Pack)
      → i < l.channel.recvbuf.range
      → get_elem? l'.channel.recvbuf.buf i ≢ some (some p)
  pub nothing_in_hand : l'.channel.msg ≡ none
  pub given_up :
      (p : ℕ)
      → (refs p l'.shared
            + (times p l.channel.msgbuf.range l.channel.msgbuf.buf + has p l.channel.req))
          % 2 ^ 64
        ≡ refs p l.shared % 2 ^ 64
  pub same_packs : length l'.channel.recvbuf.buf ≡ length l.channel.recvbuf.buf
  pub same_slots : length l'.channel.msgbuf.buf ≡ length l.channel.msgbuf.buf

record Freed (n : ℕ) (ps qs : List (Option Pack)) : Type 0 where
  pub same : length qs ≡ length ps
  pub empty : (i : ℕ) (p : Pack) → i < n → get_elem? qs i ≢ some (some p)

record Released (n : ℕ) (ps : List (Option ℕ)) (s : Shared) (r : List (Option ℕ) × Shared)
    : Type 0 where
  pub same : length r.0 ≡ length ps
  pub fewer : (p : ℕ) → (refs p r.1 + times p n ps) % 2 ^ 64 ≡ refs p s % 2 ^ 64
