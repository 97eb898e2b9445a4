-- ===== src/Writer/Accumulator.antt =====
-- The functions of the writer that work on the accumulator itself, in either bit order: the dump, the
-- flush, and the unchecked write.
use bitstream_h.Base.{ℕ, ◌≤◌, ◌<◌, ◌≡◌, ◌^◌, Outcome, Returns}
use bitstream_h.BitString.{BitOrder, msb_first, lsb_first}
use bitstream_h.Writer.{Writer}
use bitstream_h.Writer.State.{IsWriter, IsStaged, Appends}
use bitstream_h.Writer.Rounds.{IsDumped}
use bitstream_h.Writer.Flush.{flushed}
use bitstream_h.Writer.Interface.{writer_ops}
use bitstream_h.Writer.Msb.{dump, write_bits_unchecked}
use bitstream_h.Writer.Msb.Dump.{dump-IsDumped}
use bitstream_h.Writer.Msb.Finish.{writer_flush-Appends}
use bitstream_h.Writer.Msb.Write.{write_bits_unchecked-eq-write_bits}
use bitstream_h.Writer.Lsb.{dump_lsb, write_bits_lsb_unchecked}
use bitstream_h.Writer.Lsb.Dump.{dump_lsb-IsDumped}
use bitstream_h.Writer.Lsb.Finish.{writer_flush_lsb-Appends}
use bitstream_h.Writer.Lsb.Write.{write_bits_lsb_unchecked-eq-write_bits_lsb}

abbrev pub dump_in : BitOrder → Writer → Outcome Writer
dump_in msb_first = dump
dump_in lsb_first = dump_lsb

abbrev pub write_unchecked_in : BitOrder → Writer → ℕ → ℕ → Outcome Writer
write_unchecked_in msb_first = write_bits_unchecked
write_unchecked_in lsb_first = write_bits_lsb_unchecked

-- With fewer than 64 bits waiting, in either bit order, the dump returns: what was written is the same,
-- bytes moved to memory until less than one waits or the buffer is full, and in that last case the
-- flag is raised exactly if a byte still waits.
pub dump_in-IsDumped :
    (o : BitOrder) (w : Writer) → IsStaged o w → Returns (dump_in o w) (IsDumped o w)
dump_in-IsDumped msb_first = dump-IsDumped
dump_in-IsDumped lsb_first = dump_lsb-IsDumped

-- On a valid writer, in either bit order, the flush returns, and completes the last byte with zeros; where
-- whole bytes wait that the buffer has no room for, nothing is appended.
pub flush_in-Appends :
    (o : BitOrder) (w : Writer)
    → IsWriter o w
    → Returns ((writer_ops o).flush w) (Appends o (flushed o w) w)
flush_in-Appends msb_first = writer_flush-Appends
flush_in-Appends lsb_first = writer_flush_lsb-Appends

-- In either bit order, in every state, the unchecked write of 1 to 32 bits is the checked one, if the value
-- has no bits above them.
pub write_unchecked_in-eq-write :
    (o : BitOrder) (w : Writer) (v n : ℕ)
    → 0 < n
    → n ≤ 32
    → v < 2 ^ n
    → write_unchecked_in o w v n ≡ (writer_ops o).write w v n
write_unchecked_in-eq-write msb_first = write_bits_unchecked-eq-write_bits
write_unchecked_in-eq-write lsb_first = write_bits_lsb_unchecked-eq-write_bits_lsb
