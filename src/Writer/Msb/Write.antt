-- ===== src/Writer/Msb/Write.antt =====
-- The MSB-first writes append their fields to what was written.
use native.Mathlib.Nat.{mod-eq_of_lt, mod-lt}
use bitstream_h.Base.{
  ℕ, zero, suc, ◌+◌, ◌-◌, ◌*◌, ◌%◌, ◌^◌, ◌≤◌, ◌<◌, ◌≡◌, refl, arith, le→leb, lt→leb, suc==zero,
  bit_or, undefined, aborted, ◌>>=◌, Returns, done-Returns, Returns_mono,
}
use bitstream_h.Word.{u32, shl64, mask64}
use bitstream_h.Word.Laws.{shl64_lem, mask64_lem, bit_and_mask, one-le-two_pow}
use bitstream_h.BitString.{msb_first, bits}
use bitstream_h.BitString.Laws.{bits-mod}
use bitstream_h.BitString.Cache.{push_msb}
use bitstream_h.Writer.{Writer}
use bitstream_h.Writer.State.{IsWriter, Appends, Appends_nothing}
use bitstream_h.Writer.Push.{pushed-IsStaged, IsDumped-Appends}
use bitstream_h.Writer.Msb.{dump_if_full, write_bit, write_bits, write_bits_unchecked}
use bitstream_h.Writer.Msb.Dump.{dump_if_full-IsDumped, dump_if_full_undefined}

-- `(cache << n) | value`, for a value of `n` bits.
joined_cache : ℕ → ℕ → ℕ → ℕ
joined_cache c v n = bit_or (c % 2 ^ (64 - n) * 2 ^ n) v

module _ (w : Writer) (v n : ℕ) (u : IsWriter msb_first w) (small : n ≤ 32)
    (room : w.bits_in_cache + n < 64) (fits : v < 2 ^ n) where
  cache : ℕ
  cache = joined_cache w.bit_cache v n

  pushed-Appends :
      Returns
        (dump_if_full (record w { bit_cache = cache; bits_in_cache = u32 (w.bits_in_cache + n) }))
        (Appends msb_first (bits msb_first n v) w)
  unfolding cache joined_cache
  pushed-Appends =
      let joined = push_msb w.bits_in_cache n w.bit_cache v fits (omega arith) in
      rw (mod-eq_of_lt {n = w.bits_in_cache + n} {m = 2 ^ 32} (omega arith)) (
        Returns_mono (dump_if_full-IsDumped _ (pushed-IsStaged msb_first w u n _ _ joined tt room))
          (IsDumped-Appends msb_first w u n _ _ joined tt room))

-- A writer between operations takes `n` bits, at most 32: `bs_write_bits` returns and appends the
-- `n` lowest bits of the value, whatever stands above them, while the accumulator holds fewer
-- than 64 bits with them.
pub write_bits-Appends :
    (w : Writer) (v n : ℕ)
    → IsWriter msb_first w
    → n ≤ 32
    → w.bits_in_cache + n < 64
    → Returns (write_bits w v n) (Appends msb_first (bits msb_first n v) w)
unfolding write_bits
write_bits-Appends w v zero u small room = done-Returns w (Appends_nothing msb_first w v u)
write_bits-Appends w v (suc n) u small room =
    rw
      (
        le→leb (suc n) 32 small,
        suc==zero,
        mask64_lem (suc n) (omega arith),
        ◌>>=◌,
        bit_and_mask,
        shl64_lem w.bit_cache (suc n) (omega arith),
      )
      (rw (← bits-mod msb_first (suc n) (suc n) v (omega arith)) (
        unfold cache joined_cache in
        pushed-Appends w (v % 2 ^ suc n) (suc n) u small room (mod-lt v (one-le-two_pow (suc n)))))

-- More than 32 bits fail the assertion.
pub write_bits_wide : (w : Writer) (v n : ℕ) → 32 < n → write_bits w v n ≡ aborted
unfolding write_bits
write_bits_wide w v n h = rw (lt→leb _ _ h)

-- `bs_write_bit` is `bs_write_bits` of one bit, in every state.
pub write_bit-eq-write_bits : (w : Writer) (v : ℕ) → write_bit w v ≡ write_bits w v 1
unfolding write_bit write_bits mask64 shl64
write_bit-eq-write_bits w v = refl

-- `bs_write_bits_unchecked` of 1 to 32 bits is `bs_write_bits`, in every state, if the value has
-- no bits above them.
pub write_bits_unchecked-eq-write_bits :
    (w : Writer) (v n : ℕ)
    → 0 < n
    → n ≤ 32
    → v < 2 ^ n
    → write_bits_unchecked w v n ≡ write_bits w v n
unfolding write_bits_unchecked write_bits
write_bits_unchecked-eq-write_bits w v zero pos small clean = absurd (omega arith)
write_bits_unchecked-eq-write_bits w v (suc n) pos small clean = rw (
  le→leb (suc n) 32 small,
  suc==zero,
  mask64_lem (suc n) (omega arith),
  ◌>>=◌,
  bit_and_mask,
  mod-eq_of_lt clean,
)

-- On a full buffer, a `bs_write_bits` of 1 to 32 bits that brings the accumulator from fewer than 64
-- bits to 64 or more is undefined: the mask of `_bs_writer_dump` shifts by 64 or more.
pub write_bits_undefined :
    (w : Writer) (v n : ℕ)
    → w.size ≤ w.byte_pos
    → w.bits_in_cache < 64
    → 0 < n
    → n ≤ 32
    → 64 ≤ w.bits_in_cache + n
    → write_bits w v n ≡ undefined
unfolding write_bits
write_bits_undefined w v zero full few pos small many = absurd (omega arith)
write_bits_undefined w v (suc n) full few pos small many =
    rw
      (
        le→leb (suc n) 32 small,
        suc==zero,
        mask64_lem (suc n) (omega arith),
        shl64_lem w.bit_cache (suc n) (omega arith),
        ◌>>=◌,
        mod-eq_of_lt {n = w.bits_in_cache + suc n} {m = 2 ^ 32} (omega arith),
      )
      (dump_if_full_undefined _ many full)
