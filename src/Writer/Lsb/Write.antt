-- ===== src/Writer/Lsb/Write.antt =====
-- The LSB-first writes append their fields to what was written.
use native.Mathlib.Nat.{mod-eq_of_lt, mod-lt}
use bitstream_h.Base.{
  ℕ, zero, suc, ◌+◌, ◌-◌, ◌*◌, ◌%◌, ◌^◌, ◌≤◌, ◌<◌, ◌≡◌, arith, le→leb, lt→leb, suc==zero, bit_or,
  aborted, ◌>>=◌, Returns, done-Returns, Returns_mono,
}
use bitstream_h.Word.{u32}
use bitstream_h.Word.Laws.{shl64_lem, mask64_lem, bit_and_mask, one-le-two_pow}
use bitstream_h.BitString.{lsb_first, bits}
use bitstream_h.BitString.Laws.{bits-mod}
use bitstream_h.BitString.Cache.{push_lsb, push_lsb-lt}
use bitstream_h.Writer.{Writer}
use bitstream_h.Writer.State.{IsWriter, Appends, Appends_nothing}
use bitstream_h.Writer.Push.{pushed-IsStaged, IsDumped-Appends}
use bitstream_h.Writer.Lsb.{dump_lsb_if_full, write_bits_lsb, write_bits_lsb_unchecked}
use bitstream_h.Writer.Lsb.Dump.{dump_lsb_if_full-IsDumped}

-- `cache | (value << k)`, above the `k` bits that are cached.
joined_cache : ℕ → ℕ → ℕ → ℕ
joined_cache c v k = bit_or c (v % 2 ^ (64 - k) * 2 ^ k)

module _ (w : Writer) (v n : ℕ) (u : IsWriter lsb_first w) (small : n ≤ 32)
    (room : w.bits_in_cache + n < 64) (fits : v < 2 ^ n) where
  cache : ℕ
  cache = joined_cache w.bit_cache v w.bits_in_cache

  pushed-Appends :
      Returns
        (dump_lsb_if_full
          (record w { bit_cache = cache; bits_in_cache = u32 (w.bits_in_cache + n) }))
        (Appends lsb_first (bits lsb_first n v) w)
  unfolding cache joined_cache
  pushed-Appends =
      let clean = u.staged.clean in
      let joined = push_lsb w.bits_in_cache n w.bit_cache v clean fits (omega arith) in
      let below = push_lsb-lt w.bits_in_cache n w.bit_cache v clean fits (omega arith) in
      rw (mod-eq_of_lt {n = w.bits_in_cache + n} {m = 2 ^ 32} (omega arith)) (
        Returns_mono
          (dump_lsb_if_full-IsDumped _ (pushed-IsStaged lsb_first w u n _ _ joined below room))
          (IsDumped-Appends lsb_first w u n _ _ joined below room))

-- A writer between operations takes `n` bits, at most 32: `bs_write_bits_lsb` returns and appends
-- the `n` lowest bits of the value, whatever stands above them, while the accumulator holds fewer
-- than 64 bits with them.
pub write_bits_lsb-Appends :
    (w : Writer) (v n : ℕ)
    → IsWriter lsb_first w
    → n ≤ 32
    → w.bits_in_cache + n < 64
    → Returns (write_bits_lsb w v n) (Appends lsb_first (bits lsb_first n v) w)
unfolding write_bits_lsb
write_bits_lsb-Appends w v zero u small room = done-Returns w (Appends_nothing lsb_first w v u)
write_bits_lsb-Appends w v (suc n) u small room =
    rw
      (
        le→leb (suc n) 32 small,
        suc==zero,
        mask64_lem (suc n) (omega arith),
        ◌>>=◌,
        bit_and_mask,
        shl64_lem (v % 2 ^ suc n) w.bits_in_cache (omega arith),
      )
      (rw (← bits-mod lsb_first (suc n) (suc n) v (omega arith)) (
        unfold cache joined_cache in
        pushed-Appends w (v % 2 ^ suc n) (suc n) u small room (mod-lt v (one-le-two_pow (suc n)))))

-- More than 32 bits fail the assertion.
pub write_bits_lsb_wide : (w : Writer) (v n : ℕ) → 32 < n → write_bits_lsb w v n ≡ aborted
unfolding write_bits_lsb
write_bits_lsb_wide w v n h = rw (lt→leb _ _ h)

-- `bs_write_bits_lsb_unchecked` of 1 to 32 bits is `bs_write_bits_lsb`, in every state, if the value has
-- no bits above them.
pub write_bits_lsb_unchecked-eq-write_bits_lsb :
    (w : Writer) (v n : ℕ)
    → 0 < n
    → n ≤ 32
    → v < 2 ^ n
    → write_bits_lsb_unchecked w v n ≡ write_bits_lsb w v n
unfolding write_bits_lsb_unchecked write_bits_lsb
write_bits_lsb_unchecked-eq-write_bits_lsb w v zero pos small clean = absurd (omega arith)
write_bits_lsb_unchecked-eq-write_bits_lsb w v (suc n) pos small clean = rw (
  le→leb (suc n) 32 small,
  suc==zero,
  mask64_lem (suc n) (omega arith),
  ◌>>=◌,
  bit_and_mask,
  mod-eq_of_lt clean,
)
