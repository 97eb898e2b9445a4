-- ===== src/Writer/Interface.antt =====
-- The writer as its clients see it, in either bit order.
use bitstream_h.Base.{ℕ, ◌+◌, ◌≤◌, ◌<◌, Outcome, Returns}
use bitstream_h.BitString.{BitOrder, msb_first, lsb_first, bits}
use bitstream_h.Writer.{Writer}
use bitstream_h.Writer.State.{IsWriter, Appends, padding}
use bitstream_h.Writer.Flush.{flushed}
use bitstream_h.Writer.Msb
use bitstream_h.Writer.Lsb

pub record WriterOps (o : BitOrder) : Type 0 where
  pub write : Writer → ℕ → ℕ → Outcome Writer
  pub flush : Writer → Outcome Writer
  pub align : Writer → Outcome Writer
  pub write-Appends :
      (w : Writer) (v n : ℕ)
      → IsWriter o w
      → n ≤ 32
      → w.bits_in_cache + n < 64
      → Returns (write w v n) (Appends o (bits o n v) w)
  pub flush-Appends : (w : Writer) → IsWriter o w → Returns (flush w) (Appends o (flushed o w) w)
  pub align-Appends :
      (w : Writer)
      → IsWriter o w
      → w.bits_in_cache ≤ 56
      → Returns (align w) (Appends o (padding o w) w)

abbrev pub msb_writer : WriterOps msb_first
msb_writer = record {
  write = Msb.write_bits;
  flush = Msb.writer_flush;
  align = Msb.writer_align;
  write-Appends = Msb.Write.write_bits-Appends;
  flush-Appends = Msb.Finish.writer_flush-Appends;
  align-Appends = Msb.Finish.writer_align-Appends;
}

abbrev pub lsb_writer : WriterOps lsb_first
lsb_writer = record {
  write = Lsb.write_bits_lsb;
  flush = Lsb.writer_flush_lsb;
  align = Lsb.writer_align_lsb;
  write-Appends = Lsb.Write.write_bits_lsb-Appends;
  flush-Appends = Lsb.Finish.writer_flush_lsb-Appends;
  align-Appends = Lsb.Finish.writer_align_lsb-Appends;
}

abbrev pub writer_ops : (o : BitOrder) → WriterOps o
writer_ops msb_first = msb_writer
writer_ops lsb_first = lsb_writer
