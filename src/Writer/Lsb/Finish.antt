-- ===== src/Writer/Lsb/Finish.antt =====
-- `bs_writer_flush_lsb` and `bs_writer_align_lsb` pad_lsb the last byte with zeros.
use native.Mathlib.Decide.{dec_lt}
use bitstream_h.Base.{
  ℕ, ◌+◌, ◌%◌, ◌≤◌, ◌<◌, ◌≡◌, ap, ◌∙◌, arith, false, replicate, lt→ltb, not_lt→ltb, Returns,
  done-Returns,
}
use bitstream_h.Word.{sub32}
use bitstream_h.BitString.{lsb_first}
use bitstream_h.BitString.Laws.{bits-zero}
use bitstream_h.Writer.{Writer}
use bitstream_h.Writer.State.{
  IsWriter, Appends, Appends_nil, padding, pad_length, length-written-mod,
}
use bitstream_h.Writer.Flush.{flushed, flush_with-Appends}
use bitstream_h.Writer.Lsb.{pad_lsb, dump_lsb, write_bits_lsb, writer_flush_lsb, writer_align_lsb}
use bitstream_h.Writer.Lsb.Dump.{dump_lsb-IsDumped}
use bitstream_h.Writer.Lsb.Write.{write_bits_lsb-Appends}

-- Writing a zero of the right width is writing the padding.
zeros-Appends :
    (w : Writer) (n : ℕ)
    → IsWriter lsb_first w
    → n ≡ pad_length w.bits_in_cache
    → w.bits_in_cache + n < 64
    → Returns (write_bits_lsb w 0 n) (Appends lsb_first (padding lsb_first w) w)
zeros-Appends w n u e room =
    rw (length-written-mod lsb_first w u.staged, ← e, ← bits-zero lsb_first n)
      (write_bits_lsb-Appends w 0 n u (omega arith) room)

pad_lsb-Appends :
    (w : Writer)
    → IsWriter lsb_first w
    → 0 < w.bits_in_cache
    → w.bits_in_cache < 8
    → Returns (pad_lsb w) (Appends lsb_first (padding lsb_first w) w)
unfolding pad_lsb
pad_lsb-Appends w u some few =
    zeros-Appends w (sub32 8 w.bits_in_cache) u (omega arith) (omega arith)

-- On a valid writer `bs_writer_flush_lsb` returns, and completes the last byte with zeros; where whole
-- bytes wait that the buffer has no room for, nothing is appended.
pub writer_flush_lsb-Appends :
    (w : Writer)
    → IsWriter lsb_first w
    → Returns (writer_flush_lsb w) (Appends lsb_first (flushed lsb_first w) w)
unfolding writer_flush_lsb
writer_flush_lsb-Appends w u =
    flush_with-Appends lsb_first dump_lsb pad_lsb dump_lsb-IsDumped pad_lsb-Appends w u

-- On a valid writer with at most 56 bits waiting `bs_writer_align_lsb` returns, and completes the last
-- byte with zeros.
pub writer_align_lsb-Appends :
    (w : Writer)
    → IsWriter lsb_first w
    → w.bits_in_cache ≤ 56
    → Returns (writer_align_lsb w) (Appends lsb_first (padding lsb_first w) w)
unfolding writer_align_lsb
writer_align_lsb-Appends w u room = elim (dec_lt 0 (w.bits_in_cache % 8)) [
  | yes partial ↦ rw (lt→ltb _ _ partial) (zeros-Appends w _ u (omega arith) (omega arith))
  | no whole ↦
      let no_padding : padding lsb_first w ≡ replicate 0 false =
        ap (λ (k : ℕ). replicate k false) {y = 0}
          (length-written-mod lsb_first w u.staged ∙ omega arith) in
      rw (not_lt→ltb _ _ whole, no_padding) (done-Returns w (Appends_nil lsb_first w u))
]
