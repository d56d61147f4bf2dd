-- ===== src/Pipe/Valid.antt =====
-- src/xnet/xpipe.h: when a pipe is in order, and the queue of bytes that it stands for.
use wenas.Base.{
  ℕ, ◌-◌, ◌%◌, ◌^◌, ◌≤◌, ◌<◌, bit_and, List, ◌≡◌, length, sub64, window, power_pos, power-le,
  power-dvd, bit_and_mask, arith, IsU64,
}
use native.Mathlib.Nat.{mod-mod_of_dvd}
use wenas.Pipe.{Pipe}

-- The ring is as long as it says, a power of two; the writer is ahead of the reader by no more.
pub record IsValid (p : Pipe) : Type 0 where
  pub bits : ℕ
  pub few : bits < 64
  pub power : p.len ≡ 2 ^ bits
  pub sized : length p.buf ≡ p.len
  pub small_writer : IsU64 p.writer
  pub small_reader : IsU64 p.reader
  pub filled : sub64 p.writer p.reader ≤ p.len

-- The bytes that were written and not read yet.
abbrev pub contents : Pipe → List ℕ
contents p = window p.len p.buf p.reader (sub64 p.writer p.reader)

module _ (p : Pipe) (v : IsValid p) where
  pub len_pos : 0 < p.len
  len_pos = omega (arith, v.power, power_pos v.bits)

  pub len_small : p.len ≤ 2 ^ 63
  len_small = omega (arith, v.power, power-le v.bits 63 (omega (arith, v.few)))

  pub place_mask : (x : ℕ) → IsU64 x → bit_and x (sub64 p.len 1) ≡ x % p.len
  place_mask x h =
      let ones : sub64 p.len 1 ≡ 2 ^ v.bits - 1 = omega (arith, len_small, len_pos, v.power) in
      rw (ones, v.power) (bit_and_mask v.bits x)

  pub wrapped : (x : ℕ) → x % 2 ^ 64 % p.len ≡ x % p.len
  wrapped x =
      rw v.power (mod-mod_of_dvd (2 ^ v.bits) x (power-dvd v.bits 64 (omega (arith, v.few))))
