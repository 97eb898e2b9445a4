-- ===== src/Writer/Msb/Finish.antt =====
-- `bs_writer_flush` and `bs_writer_align` pad the last byte with zeros.
use native.Mathlib.Decide.{dec_lt}
use bitstream_h.Base.{
  ℕ, ◌+◌, ◌%◌, ◌≤◌, ◌<◌, ◌≡◌, ap, ◌∙◌, arith, false, replicate, lt→ltb, not_lt→ltb, Returns,
  done-Returns,
}
use bitstream_h.Word.{sub32}
use bitstream_h.BitString.{msb_first}
use bitstream_h.BitString.Laws.{bits-zero}
use bitstream_h.Writer.{Writer}
use bitstream_h.Writer.State.{
  IsWriter, Appends, Appends_nil, padding, pad_length, length-written-mod,
}
use bitstream_h.Writer.Flush.{flushed, flush_with-Appends}
use bitstream_h.Writer.Msb.{pad, dump, write_bits, writer_flush, writer_align}
use bitstream_h.Writer.Msb.Dump.{dump-IsDumped}
use bitstream_h.Writer.Msb.Write.{write_bits-Appends}

-- Writing a zero of the right width is writing the padding.
zeros-Appends :
    (w : Writer) (n : ℕ)
    → IsWriter msb_first w
    → n ≡ pad_length w.bits_in_cache
    → w.bits_in_cache + n < 64
    → Returns (write_bits w 0 n) (Appends msb_first (padding msb_first w) w)
zeros-Appends w n u e room =
    rw (length-written-mod msb_first w u.staged, ← e, ← bits-zero msb_first n)
      (write_bits-Appends w 0 n u (omega arith) room)

pad-Appends :
    (w : Writer)
    → IsWriter msb_first w
    → 0 < w.bits_in_cache
    → w.bits_in_cache < 8
    → Returns (pad w) (Appends msb_first (padding msb_first w) w)
unfolding pad
pad-Appends w u some few = zeros-Appends w (sub32 8 w.bits_in_cache) u (omega arith) (omega arith)

-- On a valid writer `bs_writer_flush` returns, and completes the last byte with zeros; where whole
-- bytes wait that the buffer has no room for, nothing is appended.
pub writer_flush-Appends :
    (w : Writer)
    → IsWriter msb_first w
    → Returns (writer_flush w) (Appends msb_first (flushed msb_first w) w)
unfolding writer_flush
writer_flush-Appends w u = flush_with-Appends msb_first dump pad dump-IsDumped pad-Appends w u

-- On a valid writer with at most 56 bits waiting `bs_writer_align` returns, and completes the last
-- byte with zeros.
pub writer_align-Appends :
    (w : Writer)
    → IsWriter msb_first w
    → w.bits_in_cache ≤ 56
    → Returns (writer_align w) (Appends msb_first (padding msb_first w) w)
unfolding writer_align
writer_align-Appends w u room = elim (dec_lt 0 (w.bits_in_cache % 8)) [
  | yes partial ↦ rw (lt→ltb _ _ partial) (zeros-Appends w _ u (omega arith) (omega arith))
  | no whole ↦
      let no_padding : padding msb_first w ≡ replicate 0 false =
        ap (λ (k : ℕ). replicate k false) {y = 0}
          (length-written-mod msb_first w u.staged ∙ omega arith) in
      rw (not_lt→ltb _ _ whole, no_padding) (done-Returns w (Appends_nil msb_first w u))
]
