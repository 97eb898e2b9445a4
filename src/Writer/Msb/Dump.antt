-- ===== src/Writer/Msb/Dump.antt =====
-- `_bs_writer_dump` returns, stays in bounds and in range, and moves bits without changing them.
use native.Mathlib.Decide.{dec_lt}
use native.Mathlib.Nat.{mod-eq_of_lt, mod-mod}
use bitstream_h.Base.{
  ℕ, suc, ◌+◌, ◌-◌, ◌/◌, ◌%◌, ◌^◌, ◌≤◌, ◌<◌, ◌≡◌, sym, ap, ◌∙◌, arith, true, ◌++◌, le→leb, lt→leb,
  lt→ltb, length, bit_and, done, undefined, ◌>>=◌, Returns, done-Returns, >>=-Returns,
}
use bitstream_h.Word.{u8, sub32}
use bitstream_h.Word.Laws.{shr64_lem, mask64_lem, mask64_undefined, bit_and_mask}
use native.Mathlib.Numerals.{add-one}
use bitstream_h.BitString.{msb_first, bits}
use bitstream_h.BitString.Laws.{bits-mod, bits-msb_add}
use bitstream_h.Writer.{Writer}
use bitstream_h.Writer.State.{IsStaged}
use bitstream_h.Writer.Rounds.{Round, IsDumped, loop-IsDumped, IsDumped-self, IsDumped-recached}
use bitstream_h.Writer.Msb.{dump_loop, dump, dump_if_full}

module _ (w : Writer) (v : IsStaged msb_first w) (h : 8 ≤ w.bits_in_cache)
    (room : w.byte_pos < w.size) where
  abbrev top : ℕ
  top = w.bit_cache / 2 ^ (w.bits_in_cache - 8)

  top_lem : u8 (bit_and top 0xFF) ≡ top % 2 ^ 8
  top_lem = ap u8 (bit_and_mask 8 top) ∙ mod-mod top (2 ^ 8)

  dump_loop-Round : Round msb_first dump_loop w
  dump_loop-Round = record {
    byte = top % 2 ^ 8;
    cache = w.bit_cache;
    is_byte = omega arith;
    cut =
        ap (λ (k : ℕ). bits msb_first k w.bit_cache) {x = w.bits_in_cache}
          {y = 8 + (w.bits_in_cache - 8)} (omega arith)
        ∙ bits-msb_add 8 (w.bits_in_cache - 8) w.bit_cache
        ∙ ap (λ t. t ++ bits msb_first (w.bits_in_cache - 8) w.bit_cache)
            (sym (bits-mod msb_first 8 8 top (omega arith)));
    clean = tt;
    runs = λ fuel.
        unfold dump_loop in
        let left : sub32 w.bits_in_cache 8 ≡ w.bits_in_cache - 8 = omega (arith, v.in_word) in
        rw (
          le→leb _ _ h,
          lt→leb _ _ room,
          left,
          shr64_lem w.bit_cache (w.bits_in_cache - 8) (omega (arith, v.in_word)),
          ◌>>=◌,
          top_lem,
          lt→ltb w.byte_pos (length w.buffer) (omega (arith, v.storage)),
          mod-eq_of_lt {n = w.byte_pos + 1} {m = 2 ^ 64} (omega (arith, v.addressable)),
        );
  }

dump_loop_done : (fuel : ℕ) (w : Writer) → w.bits_in_cache < 8 → dump_loop (suc fuel) w ≡ done w
unfolding dump_loop
dump_loop_done fuel w h = rw (lt→leb _ _ h)

dump_loop_full :
    (fuel : ℕ) (w : Writer)
    → 8 ≤ w.bits_in_cache
    → w.size ≤ w.byte_pos
    → dump_loop (suc fuel) w ≡ done (record w { overflow = true })
unfolding dump_loop
dump_loop_full fuel w h e = rw (le→leb _ _ h, le→leb _ _ e)

-- The mask at the end clears what is not cached.
masked-IsDumped :
    (w w' : Writer)
    → IsDumped msb_first w w'
    → IsDumped msb_first w
        (record w' { bit_cache = bit_and w'.bit_cache (2 ^ w'.bits_in_cache - 1) })
masked-IsDumped w w' d =
    IsDumped-recached msb_first w w' _ d
      (ap (bits msb_first w'.bits_in_cache) (bit_and_mask w'.bits_in_cache w'.bit_cache)
        ∙ bits-mod msb_first w'.bits_in_cache w'.bits_in_cache w'.bit_cache (omega arith))
      tt

-- With any number of bits below 64 waiting, `_bs_writer_dump` returns: what was written is the same,
-- bytes moved to memory until less than one waits or the buffer is full, and in that last case the
-- flag is raised exactly if a byte still waits.
pub dump-IsDumped : (w : Writer) → IsStaged msb_first w → Returns (dump w) (IsDumped msb_first w)
unfolding dump
dump-IsDumped w v =
    >>=-Returns
      (loop-IsDumped msb_first dump_loop dump_loop_done dump_loop_full dump_loop-Round _ w v
        (omega arith))
      (λ w' d.
        rw (mask64_lem w'.bits_in_cache d.staged.in_word, ◌>>=◌)
          (done-Returns _ (masked-IsDumped w w' d)))

pub dump_if_full-IsDumped :
    (w : Writer) → IsStaged msb_first w → Returns (dump_if_full w) (IsDumped msb_first w)
unfolding dump_if_full
dump_if_full-IsDumped w v = elim (dec_lt w.bits_in_cache 8) [
  | yes few ↦ rw (lt→leb _ _ few) (done-Returns w (IsDumped-self msb_first w v few))
  | no many ↦ rw (le→leb 8 w.bits_in_cache (omega arith)) (dump-IsDumped w v)
]

-- On a full buffer no bits leave the accumulator, and the mask is undefined from 64 of them on.
pub dump_if_full_undefined :
    (w : Writer) → 64 ≤ w.bits_in_cache → w.size ≤ w.byte_pos → dump_if_full w ≡ undefined
unfolding dump_if_full dump
dump_if_full_undefined w h full = rw (
  le→leb 8 w.bits_in_cache (omega arith),
  add-one (w.bits_in_cache / 8),
  dump_loop_full (w.bits_in_cache / 8) w (omega arith) full,
  ◌>>=◌,
  mask64_undefined w.bits_in_cache h,
)
