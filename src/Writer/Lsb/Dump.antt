-- ===== src/Writer/Lsb/Dump.antt =====
-- `_bs_writer_dump_lsb` returns, stays in bounds and in range, and moves bits without changing them.
use native.Mathlib.Decide.{dec_lt}
use native.Mathlib.Nat.{mod-eq_of_lt, mod-mod}
use native.Mathlib.Numerals.{add-one}
use bitstream_h.Base.{
  ℕ, suc, ◌+◌, ◌-◌, ◌/◌, ◌%◌, ◌^◌, ◌≤◌, ◌<◌, ◌≡◌, sym, ap, ◌∙◌, arith, true, ◌++◌, le→leb, lt→leb,
  lt→ltb, length, bit_and, done, ◌>>=◌, Returns, done-Returns,
}
use bitstream_h.Word.{u8, sub32}
use bitstream_h.Word.Laws.{shr64_lem, bit_and_mask}
use bitstream_h.BitString.{lsb_first, bits}
use bitstream_h.BitString.Laws.{bits-mod, bits-lsb_add}
use bitstream_h.BitString.Cache.{pull_lsb-lt}
use bitstream_h.Writer.{Writer}
use bitstream_h.Writer.State.{IsStaged}
use bitstream_h.Writer.Rounds.{Round, IsDumped, loop-IsDumped, IsDumped-self}
use bitstream_h.Writer.Lsb.{dump_lsb_loop, dump_lsb, dump_lsb_if_full}

module _ (w : Writer) (v : IsStaged lsb_first w) (h : 8 ≤ w.bits_in_cache)
    (room : w.byte_pos < w.size) where
  low_lem : u8 (bit_and w.bit_cache 0xFF) ≡ w.bit_cache % 2 ^ 8
  low_lem = ap u8 (bit_and_mask 8 w.bit_cache) ∙ mod-mod w.bit_cache (2 ^ 8)

  whole : w.bits_in_cache ≡ 8 + (w.bits_in_cache - 8)
  whole = omega arith

  dump_lsb_loop-Round : Round lsb_first dump_lsb_loop w
  dump_lsb_loop-Round = record {
    byte = w.bit_cache % 2 ^ 8;
    cache = w.bit_cache / 2 ^ 8;
    is_byte = omega arith;
    cut =
        ap (λ (k : ℕ). bits lsb_first k w.bit_cache) whole
        ∙ bits-lsb_add 8 (w.bits_in_cache - 8) w.bit_cache
        ∙ ap (λ t. t ++ bits lsb_first (w.bits_in_cache - 8) (w.bit_cache / 2 ^ 8))
            (sym (bits-mod lsb_first 8 8 w.bit_cache (omega arith)));
    clean = pull_lsb-lt 8 (w.bits_in_cache - 8) w.bit_cache (rw (← whole) v.clean);
    runs = λ fuel.
        unfold dump_lsb_loop in
        let left : sub32 w.bits_in_cache 8 ≡ w.bits_in_cache - 8 = omega (arith, v.in_word) in
        rw (
          le→leb _ _ h,
          lt→leb _ _ room,
          low_lem,
          lt→ltb w.byte_pos (length w.buffer) (omega (arith, v.storage)),
          shr64_lem w.bit_cache 8 (omega arith),
          ◌>>=◌,
          left,
          mod-eq_of_lt {n = w.byte_pos + 1} {m = 2 ^ 64} (omega (arith, v.addressable)),
        );
  }

dump_lsb_loop_done :
    (fuel : ℕ) (w : Writer) → w.bits_in_cache < 8 → dump_lsb_loop (suc fuel) w ≡ done w
unfolding dump_lsb_loop
dump_lsb_loop_done fuel w h = rw (lt→leb _ _ h)

dump_lsb_loop_full :
    (fuel : ℕ) (w : Writer)
    → 8 ≤ w.bits_in_cache
    → w.size ≤ w.byte_pos
    → dump_lsb_loop (suc fuel) w ≡ done (record w { overflow = true })
unfolding dump_lsb_loop
dump_lsb_loop_full fuel w h e = rw (le→leb _ _ h, le→leb _ _ e)

-- With any number of bits below 64 waiting, `_bs_writer_dump_lsb` returns: what was written is the
-- same, bytes moved to memory until less than one waits or the buffer is full, and in that last case
-- the flag is raised exactly if a byte still waits.
pub dump_lsb-IsDumped :
    (w : Writer) → IsStaged lsb_first w → Returns (dump_lsb w) (IsDumped lsb_first w)
unfolding dump_lsb
dump_lsb-IsDumped w v =
    loop-IsDumped lsb_first dump_lsb_loop dump_lsb_loop_done dump_lsb_loop_full dump_lsb_loop-Round
      (w.bits_in_cache / 8 + 1) w v (omega arith)

pub dump_lsb_if_full-IsDumped :
    (w : Writer) → IsStaged lsb_first w → Returns (dump_lsb_if_full w) (IsDumped lsb_first w)
unfolding dump_lsb_if_full
dump_lsb_if_full-IsDumped w v = elim (dec_lt w.bits_in_cache 8) [
  | yes few ↦ rw (lt→leb _ _ few) (done-Returns w (IsDumped-self lsb_first w v few))
  | no many ↦ rw (le→leb 8 w.bits_in_cache (omega arith)) (dump_lsb-IsDumped w v)
]

-- On a full buffer no bits leave the accumulator, and with a whole byte there the flag is raised.
pub dump_lsb_if_full_stays :
    (w : Writer)
    → 8 ≤ w.bits_in_cache
    → w.size ≤ w.byte_pos
    → dump_lsb_if_full w ≡ done (record w { overflow = true })
unfolding dump_lsb_if_full dump_lsb
dump_lsb_if_full_stays w h full = rw (
  le→leb 8 w.bits_in_cache h,
  add-one (w.bits_in_cache / 8),
  dump_lsb_loop_full (w.bits_in_cache / 8) w h full,
)
