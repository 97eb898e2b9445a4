-- ===== src/Tests/Writers.antt =====
-- The writer's theorems at concrete writers over four bytes of memory: fresh, with three or twenty bits in
-- the accumulator, and full.
use bitstream_h.Base.{
  ℕ, ◌≡◌, arith, List, [], ◌∷◌, false, true, Returns, undefined, length, ◌≤◌, ◌*◌, ◌≢◌, stuck,
}
use bitstream_h.BitString.{BitOrder, msb_first, lsb_first, bits, bytes_bits, odd}
use bitstream_h.Writer.Accumulator.{
  dump_in, dump_in-IsDumped, flush_in-Appends, write_unchecked_in-eq-write,
}
use bitstream_h.Writer.{Writer, writer_init}
use bitstream_h.Writer.State.{IsStaged, IsWriter, Appends}
use bitstream_h.Writer.Rounds.{IsDumped}
use bitstream_h.Writer.Flush.{flushed}
use bitstream_h.Writer.Bulk.{write_bytes}
use bitstream_h.Writer.Bulk.Copy.{WritesBytes, write_bytes-WritesBytes}
use bitstream_h.Writer.Keeps.{IsBounded, Keeps}
use bitstream_h.Writer.History
use bitstream_h.Writer.Interface.{writer_ops}
use bitstream_h.Writer.Session.{
  Request, write_request, align_request, bytes_request, compose, compose_all, put_all,
}
use bitstream_h.Writer.Session.Composed.{HoldsAll}
use bitstream_h.Writer.Orders.{writer_session}
use bitstream_h.Writer.Msb
use bitstream_h.Writer.Lsb

abbrev memory : List ℕ
memory = 0xAA ∷ 0xBB ∷ 0xCC ∷ 0xDD ∷ []

abbrev fresh : Writer
fresh = record {
  buffer = memory;
  size = 4;
  byte_pos = 0;
  bit_cache = 0;
  bits_in_cache = 0;
  overflow = false;
}

-- Three bits wait after the first byte.
abbrev begun : Writer
begun = record {
  buffer = memory;
  size = 4;
  byte_pos = 1;
  bit_cache = 5;
  bits_in_cache = 3;
  overflow = false;
}

-- Twenty bits wait after the first byte.
abbrev waiting : Writer
waiting = record begun { bit_cache = 0xABCDE; bits_in_cache = 20 }

-- No room is left, and forty bits wait.
abbrev full : Writer
full = record {
  buffer = memory;
  size = 4;
  byte_pos = 4;
  bit_cache = 0x1234567890;
  bits_in_cache = 40;
  overflow = true;
}

begun-IsStaged : (o : BitOrder) → IsStaged o begun
begun-IsStaged msb_first = record {
  storage = omega arith;
  addressable = omega arith;
  in_buffer = omega arith;
  in_word = omega arith;
  all_bytes = omega arith;
  clean = tt;
}
begun-IsStaged lsb_first = record {
  storage = omega arith;
  addressable = omega arith;
  in_buffer = omega arith;
  in_word = omega arith;
  all_bytes = omega arith;
  clean = omega arith;
}

begun-IsWriter : (o : BitOrder) → IsWriter o begun
begun-IsWriter o = record {
  staged = begun-IsStaged o;
  settled = omega arith;
  flagged = λ h. absurd (omega arith);
}

waiting-IsStaged : IsStaged msb_first waiting
waiting-IsStaged = record {
  storage = omega arith;
  addressable = omega arith;
  in_buffer = omega arith;
  in_word = omega arith;
  all_bytes = omega arith;
  clean = tt;
}

dump_in-IsDumped_example : Returns (dump_in msb_first waiting) (IsDumped msb_first waiting)
dump_in-IsDumped_example = dump_in-IsDumped msb_first waiting waiting-IsStaged

write_bits-Appends_example :
    Returns (Msb.write_bits begun 0xABCDE 17) (Appends msb_first (bits msb_first 17 0xABCDE) begun)
write_bits-Appends_example =
    Msb.Write.write_bits-Appends begun 0xABCDE 17 (begun-IsWriter msb_first) (omega arith)
      (omega arith)

write_bits_lsb-Appends_example :
    Returns
      (Lsb.write_bits_lsb begun 0xABCDE 17)
      (Appends lsb_first (bits lsb_first 17 0xABCDE) begun)
write_bits_lsb-Appends_example =
    Lsb.Write.write_bits_lsb-Appends begun 0xABCDE 17 (begun-IsWriter lsb_first) (omega arith)
      (omega arith)

write_unchecked_in-eq-write_example :
    Lsb.write_bits_lsb_unchecked begun 0x1FF 9 ≡ Lsb.write_bits_lsb begun 0x1FF 9
write_unchecked_in-eq-write_example =
    write_unchecked_in-eq-write lsb_first begun 0x1FF 9 (omega arith) (omega arith) (omega arith)

flush_in-Appends_example :
    Returns (Msb.writer_flush begun) (Appends msb_first (flushed msb_first begun) begun)
flush_in-Appends_example = flush_in-Appends msb_first begun (begun-IsWriter msb_first)

write_bits_undefined_example : Msb.write_bits full 0 24 ≡ undefined
write_bits_undefined_example =
    Msb.Write.write_bits_undefined full 0 24 (omega arith) (omega arith) (omega arith) (omega arith)
      (omega arith)

-- The writer has written one byte and waits for the next.
abbrev aligned : Writer
aligned = record {
  buffer = memory;
  size = 4;
  byte_pos = 1;
  bit_cache = 0;
  bits_in_cache = 0;
  overflow = false;
}

aligned-IsWriter : IsWriter lsb_first aligned
aligned-IsWriter = record {
  staged = record {
    storage = omega arith;
    addressable = omega arith;
    in_buffer = omega arith;
    in_word = omega arith;
    all_bytes = omega arith;
    clean = omega arith;
  };
  settled = omega arith;
  flagged = λ h. absurd (omega arith);
}

write_bytes-WritesBytes_example :
    Returns (write_bytes aligned (7 ∷ 8 ∷ []) 2) (WritesBytes lsb_first aligned (7 ∷ 8 ∷ []) 2)
write_bytes-WritesBytes_example =
    write_bytes-WritesBytes lsb_first aligned (7 ∷ 8 ∷ []) 2 aligned-IsWriter (omega arith)
      (omega arith)

begun-IsBounded : IsBounded begun
begun-IsBounded = (omega arith, omega arith)

writer_call-terminates_example : History.call (History.bits_lsb_call 5 3) waiting ≢ stuck
writer_call-terminates_example =
    History.writer_call-terminates (History.bits_lsb_call 5 3) waiting (omega arith, omega arith)

-- Seventeen bits more.
written_on :
    Returns (Msb.write_bits begun 0xABCDE 17) (Appends msb_first (bits msb_first 17 0xABCDE) begun)
written_on =
    Msb.Write.write_bits-Appends begun 0xABCDE 17 (begun-IsWriter msb_first) (omega arith)
      (omega arith)

one_call : History.Reach begun written_on.result
unfolding History.call
one_call = History.next History.here (History.bits_call 0xABCDE 17) written_on.returns

writer_history-Keeps_example : Keeps begun written_on.result
writer_history-Keeps_example = History.writer_history-Keeps begun-IsBounded one_call

-- Ten bits, an align and two bytes: all the memory.
abbrev requests : List Request
requests = write_request 0x2A5 10 ∷ align_request ∷ bytes_request (7 ∷ 8 ∷ []) 2 ∷ []

requests-fit : length (compose_all msb_first requests []).1 ≤ 8 * 4
unfolding compose_all compose bits odd bytes_bits
requests-fit = omega arith

writer_session_example :
    Returns (put_all (writer_ops msb_first) requests (writer_init memory 4)) (λ p.
      (p.0 ≡ (compose_all msb_first requests []).0)
      × HoldsAll msb_first 4 (compose_all msb_first requests []).1 p.1)
writer_session_example =
    writer_session msb_first requests memory 4 (omega arith) (omega arith) (omega arith)
      (omega arith, (tt, ((omega arith, omega arith), tt))) requests-fit
