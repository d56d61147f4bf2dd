-- ===== src/Msger/InOrder.antt =====
-- src/xnet/xmsger.c: `xchannel_recv_pack` puts the packs of a peer in order, whatever the order in
-- which they arrive.
use wenas.Base.{
  ℕ, suc, ◌+◌, ◌-◌, ◌%◌, ◌≤◌, ◌<◌, Bool, true, false, ◌≡◌, ◌≢◌, refl, sym, ap, ◌∙◌, ◌⊎◌, inl, inr,
  Option, none, some, Run, ok, or_fault, ltb, lt→ltb, le→ltb, arith,
}
use mathlib.Core.Path.{subst}
use wenas.Msger.{Head, Pack, Ring, Link, Api, slot, readable, clock}
use wenas.Msger.Receive.{consume, recv_from, recv_msg, owe, recv_late, place, recv_pack}
use wenas.Msger.Places.{
  IsRing, cell, put, range_small, put-IsRing, cell-put_self, cell-put_ahead, cell-put_behind,
}
use wenas.Msger.Placing.{
  caught, due_link, place_due, early_link, filled_link, place_first, place_again, place_late,
}
use wenas.Msger.Inbox.{Agrees}
use wenas.Msger.Window.{Holds, Ready, slot_read}
use wenas.Msger.Reading.{Reads, recv_from-Reads}

-- `s` are the packs that the peer sends, numbered modulo 2 ^ 16 and without acknowledgements, and `p`
-- is the run of a receiver that gets them in order, each once.
module _ (api : Api) (s : ℕ → Pack) (numbered : (i : ℕ) → (s i).head.sn ≡ i % 65536)
    (quiet : (i : ℕ) → (s i).head.ack_type ≡ 0) (p : ℕ → Link)
    (run : (i : ℕ) → consume api (s i) (p i) ≡ ok (true, p (suc i))) where
  -- `xchannel_recv_msg` notes the time first.
  abbrev timed : Link → Link
  timed l = record {
    channel = record l.channel { recv_ts = api.clock l.shared.clocks };
    shared = record l.shared { clocks = l.shared.clocks + 1 };
  }

  filled_by :
      (lo n : ℕ) (l : Link) → Ready s lo n l.channel.recvbuf → readable l.channel.recvbuf ≡ n - lo
  filled_by lo n l r = omega (
    arith,
    r.filled.read,
    r.filled.written,
    r.filled.ahead_of,
    r.filled.fits,
    range_small l.channel.recvbuf r.filled.ring,
  )

  recv_msg_idle :
      (n : ℕ) (l : Link) → Ready s n n l.channel.recvbuf → recv_msg api l ≡ ok (true, timed l)
  unfolding recv_msg clock
  recv_msg_idle n l r =
      let empty : ltb 0 (readable l.channel.recvbuf) ≡ false =
        le→ltb 0 (readable l.channel.recvbuf) (omega (arith, filled_by n n l r)) in
      simp empty refl

  recv_msg-Reads :
      (lo n : ℕ) (l : Link)
      → Ready s lo n l.channel.recvbuf
      → Agrees (p lo) l
      → lo < n
      → Reads api s p run lo n l (recv_msg api l)
  unfolding recv_msg clock
  recv_msg-Reads lo n l r a lt =
      let more : ltb 0 (readable l.channel.recvbuf) ≡ true =
        lt→ltb 0 (readable l.channel.recvbuf) (omega (arith, filled_by lo n l r)) in
      let here : slot l.channel.recvbuf l.channel.recvbuf.rpos ≡ ok (some (s lo)) =
        slot_read s lo n l.channel.recvbuf r.filled
        ∙ ap or_fault (r.filled.full lo (omega arith) lt) in
      let reads : Reads api s p run lo n (timed l)
          (recv_from (l.channel.recvbuf.range + 1) api (s lo) (timed l)) =
        recv_from-Reads api s p run (l.channel.recvbuf.range + 1) lo n (timed l) r
          (record { msg = a.msg; log = a.log; addr = a.addr }) lt (omega (arith, r.filled.fits)) in
      record {
        link = reads.link;
        result = simp (more, here) reads.result;
        ready = reads.ready;
        agrees = reads.agrees;
        ack_same = reads.ack_same;
        range_same = reads.range_same;
        ahead = reads.ahead;
      }

  -- After pack `m` has come to a receiver that had the packs before `n`: it has had those before
  -- `count`, and read them as in order.
  pub record Delivered (m n : ℕ) (l : Link) (r : Run (Bool × Bool × Link)) : Type 0 where
    pub count : ℕ
    pub no_fewer : n ≤ count
    pub progress : m ≡ n → n < count
    pub kept : Bool
    pub link : Link
    pub result : r ≡ ok (kept, true, link)
    pub ready : Ready s count count link.channel.recvbuf
    pub agrees : Agrees (p count) link
    pub held : n < m → Holds s link.channel.recvbuf m
    pub acked : link.channel.ack.ack_pos ≡ count % 65536
    pub no_more : count ≤ n + l.channel.recvbuf.range
    pub range_same : link.channel.recvbuf.range ≡ l.channel.recvbuf.range
    pub still_held :
        (i : ℕ)
        → count ≤ i
        → i < n + l.channel.recvbuf.range
        → Holds s l.channel.recvbuf i
        → Holds s link.channel.recvbuf i

  where_is : (i j : ℕ) → (i ≡ j) ⊎ ((j < i) ⊎ (i < j))
  where_is i j = omega arith

  pack_reads :
      (pack : Pack) (l l' q : Link) (kept : Bool)
      → place api pack l ≡ ok (kept, l')
      → recv_msg api l' ≡ ok (true, q)
      → recv_pack api pack l ≡ ok (kept, true, q)
  unfolding recv_pack
  pack_reads pack l l' q kept e e' = simp (e, e') refl

  module _ (m n : ℕ) (l : Link) (r : Ready s n n l.channel.recvbuf) (a : Agrees (p n) l) where
    -- Nothing new is in order.
    waits :
        (kept : Bool) (l' : Link)
        → m ≢ n
        → place api (s m) l ≡ ok (kept, l')
        → Ready s n n l'.channel.recvbuf
        → Agrees (p n) l'
        → (n < m → Holds s l'.channel.recvbuf m)
        → l'.channel.ack.ack_pos ≡ n % 65536
        → l'.channel.recvbuf.range ≡ l.channel.recvbuf.range
        → ((i : ℕ)
            → n ≤ i
            → i < n + l.channel.recvbuf.range
            → Holds s l.channel.recvbuf i
            → Holds s l'.channel.recvbuf i)
        → Delivered m n l (recv_pack api (s m) l)
    waits kept l' differ placed ready agrees held acked range_same still_held = record {
      count = n;
      no_fewer = omega arith;
      progress = λ e. absurd (differ e);
      kept = kept;
      link = timed l';
      result = pack_reads (s m) l l' (timed l') kept placed (recv_msg_idle n l' ready);
      ready = ready;
      agrees = record { msg = agrees.msg; log = agrees.log; addr = agrees.addr };
      held = held;
      acked = acked;
      no_more = omega arith;
      range_same = range_same;
      still_held = still_held;
    }

    due : m ≡ n → Delivered m n l (recv_pack api (s m) l)
    unfolding owe
    due e =
        let c = caught api s numbered quiet n l r in
        let link = due_link api s numbered quiet n l r in
        let reads : Reads api s p run n c.stop link (recv_msg api link) =
          recv_msg-Reads n c.stop link c.ready (record { msg = a.msg; log = a.log; addr = a.addr })
            (omega (arith, c.after)) in
        record {
          count = c.stop;
          no_fewer = omega (arith, c.after);
          progress = λ _. omega (arith, c.after);
          kept = true;
          link = reads.link;
          result =
              pack_reads (s m) l link reads.link true
                (subst (λ k. place api (s k) l ≡ ok (true, link)) (sym e)
                  (place_due api s numbered quiet n l r))
                reads.result;
          ready = reads.ready;
          agrees = reads.agrees;
          held = λ lt. absurd (omega arith);
          acked = ap (λ (h : Head). h.ack_pos) reads.ack_same ∙ c.ready.filled.written;
          no_more = omega (arith, c.ready.filled.fits, c.range_same);
          range_same = reads.range_same ∙ c.range_same;
          still_held = λ i le below there.
              reads.ahead i le (omega (arith, c.range_same))
              ∙ c.cells i
              ∙ cell-put_ahead l.channel.recvbuf r.filled.ring n i (some (s n))
                  (omega (arith, c.after)) below
              ∙ there;
        }

    -- A pack ahead of its turn keeps the others where they are.
    put-Ready :
        n < m → m < n + l.channel.recvbuf.range → Ready s n n (put l.channel.recvbuf m (some (s m)))
    put-Ready lo hi =
        let b : Ring (Option Pack) = l.channel.recvbuf in
        let ring : IsRing b = r.filled.ring in
        record {
          filled = record {
            ring = put-IsRing b ring m (some (s m));
            read = r.filled.read;
            written = r.filled.written;
            ahead_of = r.filled.ahead_of;
            fits = r.filled.fits;
            full = λ i le below. absurd (omega arith);
            spare = λ i le below. elim (where_is i m) [
              | inl same ↦ inr (
                  subst (λ k. cell (put b m (some (s m))) k ≡ some (some (s k))) (sym same)
                    (cell-put_self b ring m (some (s m))))
              | inr (inl ahead) ↦
                  subst (λ c. (c ≡ some none) ⊎ (c ≡ some (some (s i))))
                    (sym (cell-put_ahead b ring m i (some (s m)) ahead (omega arith)))
                    (r.filled.spare i le below)
              | inr (inr behind) ↦
                  subst (λ c. (c ≡ some none) ⊎ (c ≡ some (some (s i))))
                    (sym (cell-put_behind b ring m i (some (s m)) behind (omega arith)))
                    (r.filled.spare i le below)
            ];
          };
          gap = λ lt. cell-put_behind b ring m n (some (s m)) lo hi ∙ r.gap lt;
        }

    put-Holds :
        (i : ℕ)
        → n < m
        → m < n + l.channel.recvbuf.range
        → n ≤ i
        → i < n + l.channel.recvbuf.range
        → Holds s l.channel.recvbuf i
        → Holds s (put l.channel.recvbuf m (some (s m))) i
    put-Holds i lo hi le below there =
        let b : Ring (Option Pack) = l.channel.recvbuf in
        elim (where_is i m) [
          | inl same ↦
              subst (λ k. cell (put b m (some (s m))) k ≡ some (some (s k))) (sym same)
                (cell-put_self b r.filled.ring m (some (s m)))
          | inr (inl ahead) ↦
              cell-put_ahead b r.filled.ring m i (some (s m)) ahead (omega arith) ∙ there
          | inr (inr behind) ↦
              cell-put_behind b r.filled.ring m i (some (s m)) behind (omega arith) ∙ there
        ]

    early : n < m → m < n + l.channel.recvbuf.range → Delivered m n l (recv_pack api (s m) l)
    unfolding owe
    early lo hi = elim (r.filled.spare m (omega arith) hi) [
      | inl missing ↦
          waits true (filled_link api s numbered quiet n l r m) (λ e. omega arith)
            (place_first api s numbered quiet n l r m lo hi missing) (put-Ready lo hi)
            (record { msg = a.msg; log = a.log; addr = a.addr })
            (λ _. cell-put_self l.channel.recvbuf r.filled.ring m (some (s m))) r.filled.written
            refl (λ i le below there. put-Holds i lo hi le below there)
      | inr there ↦
          waits false (early_link api s numbered quiet n l r m) (λ e. omega arith)
            (place_again api s numbered quiet n l r m lo hi there) r
            (record { msg = a.msg; log = a.log; addr = a.addr }) (λ _. there) r.filled.written refl
            (λ i le below h. h)
    ]

    late : m < n → n ≤ m + 32768 → Delivered m n l (recv_pack api (s m) l)
    unfolding recv_late owe
    late lo hi =
        waits false (recv_late (s m) l) (λ e. omega arith)
          (place_late api s numbered quiet n l r m lo hi) r
          (record { msg = a.msg; log = a.log; addr = a.addr }) (λ lt. absurd (omega arith))
          r.filled.written refl (λ i le below h. h)

    -- A receiver that has had the packs before `n` gets pack `m`, from up to 32768 before `n` and from
    -- less than a buffer's range ahead. It has then had the packs before some `count`, which is above
    -- `n` if `m` is `n`. It has read these in order and each once: its message in hand and what has
    -- left it are those of a receiver that got them so. A pack ahead is in its slot, and the position
    -- to acknowledge is `count`; packs that came ahead before are still there. This is so for a peer whose packs carry no acknowledgement.
    pub recv_pack-Delivered :
        n ≤ m + 32768 → m < n + l.channel.recvbuf.range → Delivered m n l (recv_pack api (s m) l)
    recv_pack-Delivered not_old not_far = elim (where_is m n) [
      | inl same ↦ due same
      | inr (inl ahead) ↦ early ahead not_far
      | inr (inr behind) ↦ late behind not_old
    ]
