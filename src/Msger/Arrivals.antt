-- ===== src/Msger/Arrivals.antt =====
-- src/xnet/xmsger.c: packs arrive one after another, out of order and more than once.
use wenas.Base.{
  ℕ, suc, ◌+◌, ◌%◌, ◌≤◌, ◌<◌, Bool, true, List, [], ◌∷◌, ◌≡◌, sym, ap, ◌∙◌, ◌⊎◌, inl, inr, ok,
  arith,
}
use mathlib.Core.Path.{subst}
use mathlib.Core.List.{Memᴰ}
use wenas.Msger.{Pack, Link, Api}
use wenas.Msger.Receive.{consume, recv_pack}
use wenas.Msger.Places.{range_small}
use wenas.Msger.Inbox.{Agrees}
use wenas.Msger.Window.{Holds, Ready}
use wenas.Msger.InOrder.{Delivered, recv_pack-Delivered}

-- `s`, `p`: as in InOrder. The receiver starts at `l0`.
module _ (api : Api) (s : ℕ → Pack) (numbered : (i : ℕ) → (s i).head.sn ≡ i % 65536)
    (quiet : (i : ℕ) → (s i).head.ack_type ≡ 0) (p : ℕ → Link)
    (run : (i : ℕ) → consume api (s i) (p i) ≡ ok (true, p (suc i))) (l0 : Link) where
  -- The packs with the numbers of a list, the last first, have come, each from the window of that
  -- time. `n` is the write position of the link, counted without wrap-around.
  pub data Came : List ℕ → ℕ → Link → Type 0 where
    start : Came [] 0 l0
    arrive :
        {ms : List ℕ} {n : ℕ} {l : Link} {kept : Bool} {l' : Link} (m n' : ℕ)
        → Came ms n l
        → n ≤ m + 32768
        → m < n + l.channel.recvbuf.range
        → recv_pack api (s m) l ≡ ok (kept, true, l')
        → l'.channel.recvbuf.wpos ≡ n' % 65536
        → n ≤ n'
        → n' ≤ n + l.channel.recvbuf.range
        → Came (m ∷ ms) n' l'

  -- What has come is read in order, each pack once, up to the first that is missing.
  pub record Complete (ms : List ℕ) (n : ℕ) (l : Link) : Type 0 where
    pub ready : Ready s n n l.channel.recvbuf
    pub agrees : Agrees (p n) l
    pub here :
        (m : ℕ)
        → Memᴰ m ms
        → (m < n) ⊎ ((m < n + l.channel.recvbuf.range) × Holds s l.channel.recvbuf m)

  split : (i j : ℕ) → (i < j) ⊎ (j ≤ i)
  split i j = omega arith

  module _ (ms : List ℕ) (n m : ℕ) (l : Link) (c : Complete ms n l)
      (d : Delivered api s numbered quiet p run m n l (recv_pack api (s m) l))
      (near : m < n + l.channel.recvbuf.range) where
    PlaceOf : ℕ → Type 0
    PlaceOf i =
        (i < d.count)
        ⊎ ((i < d.count + d.link.channel.recvbuf.range) × Holds s d.link.channel.recvbuf i)

    this_one : PlaceOf m
    unfolding PlaceOf
    this_one = elim (split m d.count) [
      | inl below ↦ inl below
      | inr above ↦ inr (
        omega (arith, d.range_same, d.no_fewer),
        d.held (elim (split n m) [ inl lt ↦ lt | inr le ↦ absurd (behind le above) ]),
      )
    ]
      where
        behind : m ≤ n → d.count ≤ m → ⊥
        behind le above =
            let same : m ≡ n = omega (arith, d.no_fewer) in omega (arith, d.progress same)

    that_one :
        (i : ℕ)
        → (i < n) ⊎ ((i < n + l.channel.recvbuf.range) × Holds s l.channel.recvbuf i)
        → PlaceOf i
    unfolding PlaceOf
    that_one i (inl old) = inl (omega (arith, d.no_fewer))
    that_one i (inr (below, there)) = elim (split i d.count) [
      | inl had ↦ inl had
      | inr above ↦ inr (omega (arith, d.range_same, d.no_fewer), d.still_held i above below there)
    ]

    any_one : (i : ℕ) → Memᴰ i (m ∷ ms) → PlaceOf i
    any_one i (Memᴰ.head e) = subst PlaceOf (sym e) this_one
    any_one i (Memᴰ.tail old) = that_one i (c.here i old)

    delivered-Complete : Complete (m ∷ ms) d.count d.link
    unfolding PlaceOf
    delivered-Complete = record { ready = d.ready; agrees = d.agrees; here = any_one }

    one_more :
        (n' : ℕ) (l' : Link) (kept : Bool)
        → recv_pack api (s m) l ≡ ok (kept, true, l')
        → l'.channel.recvbuf.wpos ≡ n' % 65536
        → n ≤ n'
        → n' ≤ n + l.channel.recvbuf.range
        → Complete (m ∷ ms) n' l'
    one_more n' l' kept e at_n' lo hi =
        let same : d.link ≡ l' = ground (arith, d.result, e) in
        let wpos : d.link.channel.recvbuf.wpos ≡ n' % 65536 =
          ap (λ (q : Link). q.channel.recvbuf.wpos) same ∙ at_n' in
        let count : d.count ≡ n' = omega (
          arith,
          wpos,
          d.ready.filled.written,
          d.no_fewer,
          d.no_more,
          range_small l.channel.recvbuf c.ready.filled.ring,
        ) in
        subst (λ q. Complete (m ∷ ms) n' q) same
          (subst (λ k. Complete (m ∷ ms) k d.link) count delivered-Complete)

  pub Came-Complete :
      (ms : List ℕ) (n : ℕ) (l : Link)
      → Ready s 0 0 l0.channel.recvbuf
      → Agrees (p 0) l0
      → Came ms n l
      → Complete ms n l
  Came-Complete ms n l r a start = record { ready = r; agrees = a; here = λ m h. elim h [ ] }
  Came-Complete all end last r a
        (arrive {ms} {n} {l} {kept} {l'} m n' came old near e at_n' lo hi) =
      let c : Complete ms n l = Came-Complete ms n l r a came in
      one_more ms n m l c
        (recv_pack-Delivered api s numbered quiet p run m n l c.ready c.agrees old near) near n' l'
        kept e at_n' lo hi

  -- Packs of a peer that acknowledges nothing come to a receiver that begins with an empty buffer: in
  -- any order, any of them more than once, each from up to 32768 before the receiver's position and
  -- less than a buffer ahead of it. When all packs before `k` are among those that came, the position
  -- is `k` at least: none of them is missed. The receiver's message in hand, and what has left it, are
  -- those of a receiver that gets the packs before the position in order, each once.
  pub Came-all :
      (ms : List ℕ) (n k : ℕ) (l : Link)
      → Ready s 0 0 l0.channel.recvbuf
      → Agrees (p 0) l0
      → Came ms n l
      → ((i : ℕ) → i < k → Memᴰ i ms)
      → (k ≤ n) × Agrees (p n) l
  Came-all ms n k l r a came all =
      let c : Complete ms n l = Came-Complete ms n l r a came in
      (
        elim (split n k) [
          | inl short ↦ absurd (missing c (c.here n (all n short)))
          | inr enough ↦ enough
        ],
        c.agrees,
      )
    where
      missing :
          Complete ms n l
          → ((n < n) ⊎ ((n < n + l.channel.recvbuf.range) × Holds s l.channel.recvbuf n))
          → ⊥
      missing c (inl before) = omega arith
      missing c (inr (room, there)) = ground (arith, c.ready.gap room, there)
