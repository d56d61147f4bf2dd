-- ===== src/Msger/Window.antt =====
-- src/xnet/xmsger.c: the receive buffer between the last pack that became part of a message and the
-- first that is missing, and the loops that move these two ends.
use wenas.Base.{
  ℕ, zero, suc, ◌+◌, ◌-◌, ◌%◌, ◌≤◌, ◌<◌, ◌≡◌, refl, sym, ap, ◌∙◌, ◌⊎◌, inl, inr, Option, none, some,
  Run, ok, or_fault, lt→ltb, le→ltb, arith,
}
use mathlib.Core.Path.{subst}
use wenas.Msger.{Pack, Ring, inc16, slot, writable}
use wenas.Msger.Receive.{catch_up}
use wenas.Msger.Places.{IsRing, cell, range_small, slot_lem, cell-round}

-- `s` is the sequence of the packs that the peer sends, the i-th numbered i modulo 2 ^ 16.
module _ (s : ℕ → Pack) where
  abbrev pub Holds : Ring (Option Pack) → ℕ → Type 0
  Holds b i = cell b i ≡ some (some (s i))

  -- A slot for a pack that need not have come yet.
  abbrev pub Spare : Ring (Option Pack) → ℕ → Type 0
  Spare b i = (cell b i ≡ some none) ⊎ Holds b i

  -- The packs from `lo` to before `n` are all there, and those ahead may be.
  pub record Filled (lo n : ℕ) (b : Ring (Option Pack)) : Type 0 where
    pub ring : IsRing b
    pub read : b.rpos ≡ lo % 65536
    pub written : b.wpos ≡ n % 65536
    pub ahead_of : lo ≤ n
    pub fits : n ≤ lo + b.range
    pub full : (i : ℕ) → lo ≤ i → i < n → Holds b i
    pub spare : (i : ℕ) → n ≤ i → i < lo + b.range → Spare b i

  -- And pack `n` is the first that is missing, where there is a slot for it.
  pub record Ready (lo n : ℕ) (b : Ring (Option Pack)) : Type 0 where
    pub filled : Filled lo n b
    pub gap : n < lo + b.range → cell b n ≡ some none

  -- The write position moves to the first gap, or to the end of the buffer.
  pub record CaughtUp (lo n : ℕ) (b : Ring (Option Pack)) (r : Run (Ring (Option Pack)))
      : Type 0 where
    pub stop : ℕ
    pub after : n ≤ stop
    pub buffer : Ring (Option Pack)
    pub result : r ≡ ok buffer
    pub ready : Ready lo stop buffer
    pub range_same : buffer.range ≡ b.range
    pub cells : (i : ℕ) → cell buffer i ≡ cell b i

  module _ (lo n : ℕ) (b : Ring (Option Pack)) (f : Filled lo n b) where
    room : writable b ≡ lo + b.range - n
    room = omega (arith, range_small b f.ring, f.read, f.written, f.ahead_of, f.fits)

    slot_written : slot b b.wpos ≡ or_fault (cell b n)
    slot_written = ap (slot b) f.written ∙ slot_lem b f.ring n

    pub slot_read : slot b b.rpos ≡ or_fault (cell b lo)
    slot_read = ap (slot b) f.read ∙ slot_lem b f.ring lo

    -- One pack more, which came early.
    further : n < lo + b.range → Holds b n → Filled lo (suc n) (record b { wpos = inc16 b.wpos })
    further lt here = record {
      ring = record {
        bits = f.ring.bits;
        few = f.ring.few;
        power = f.ring.power;
        sized = f.ring.sized;
      };
      read = f.read;
      written = omega (arith, f.written);
      ahead_of = omega (arith, f.ahead_of);
      fits = omega arith;
      full = λ i le small. elim (upto i n (omega arith)) [
        | inl below ↦ f.full i le below
        | inr same ↦ subst (Holds b) (sym same) here
      ];
      spare = λ i le small. f.spare i (omega arith) small;
    }
      where
        upto : (i m : ℕ) → i ≤ m → (i < m) ⊎ (i ≡ m)
        upto i m le = omega arith

  pub catch_up-CaughtUp :
      (fuel lo n : ℕ) (b : Ring (Option Pack))
      → Filled lo n b
      → lo < n
      → lo + b.range - n < fuel
      → CaughtUp lo n b (catch_up fuel b)
  unfolding catch_up
  catch_up-CaughtUp zero lo n b f some_read enough = absurd (omega arith)
  catch_up-CaughtUp (suc fuel) lo n b f some_read enough = elim (at_end n (lo + b.range) f.fits) [
    | inl lt ↦ elim (f.spare n (omega arith) lt) [
      | inl missing ↦ record {
        stop = n;
        after = omega arith;
        buffer = b;
        result = rw (slot_written lo n b f, missing) refl;
        ready = record { filled = f; gap = λ _. missing };
        range_same = refl;
        cells = λ i. refl;
      }
      | inr here ↦
          let more : CaughtUp lo (suc n) (record b { wpos = inc16 b.wpos })
              (catch_up fuel (record b { wpos = inc16 b.wpos })) =
            catch_up-CaughtUp fuel lo (suc n) (record b { wpos = inc16 b.wpos })
              (further lo n b f lt here) (omega arith) (omega arith) in
          record {
            stop = more.stop;
            after = omega (arith, more.after);
            buffer = more.buffer;
            result =
                rw
                  (
                    slot_written lo n b f,
                    here,
                    lt→ltb 0 (writable b) (omega (arith, room lo n b f)),
                  )
                  more.result;
            ready = more.ready;
            range_same = more.range_same;
            cells = more.cells;
          }
    ]
    | inr end ↦
        let round : cell b n ≡ some (some (s lo)) =
          ap (cell b) end ∙ cell-round b f.ring lo ∙ f.full lo (omega arith) some_read in
        record {
          stop = n;
          after = omega arith;
          buffer = b;
          result =
              rw
                (slot_written lo n b f, round, le→ltb 0 (writable b) (omega (arith, room lo n b f)))
                refl;
          ready = record { filled = f; gap = λ lt. absurd (omega arith) };
          range_same = refl;
          cells = λ i. refl;
        }
  ]
    where
      at_end : (m e : ℕ) → m ≤ e → (m < e) ⊎ (m ≡ e)
      at_end m e le = omega arith
