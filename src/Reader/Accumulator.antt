-- ===== src/Reader/Accumulator.antt =====
-- The functions of the reader that work on the accumulator itself, in either bit order: the refill, and the
-- unchecked reads and peeks.
use bitstream_h.Base.{ℕ, ◌≤◌, ◌<◌, ◌≡◌, length, Outcome, Returns}
use bitstream_h.BitString.{BitOrder, msb_first, lsb_first}
use bitstream_h.Reader.{Reader}
use bitstream_h.Reader.State.{IsReader, IsRefilled, remaining}
use bitstream_h.Reader.Interface.{reader_ops}
use bitstream_h.Reader.Msb.{refill, read_bits_unchecked, peek_bits_unchecked}
use bitstream_h.Reader.Msb.Refill.{refill-IsRefilled}
use bitstream_h.Reader.Msb.Unchecked.{unchecked-eq-checked}
use bitstream_h.Reader.Lsb.{refill_lsb, read_bits_lsb_unchecked, peek_bits_lsb_unchecked}
use bitstream_h.Reader.Lsb.Refill.{refill_lsb-IsRefilled}
use bitstream_h.Reader.Lsb.Unchecked.{lsb_unchecked-eq-checked}

abbrev pub refill_in : BitOrder → Reader → Outcome Reader
refill_in msb_first = refill
refill_in lsb_first = refill_lsb

abbrev pub read_unchecked_in : BitOrder → Reader → ℕ → Outcome (ℕ × Reader)
read_unchecked_in msb_first = read_bits_unchecked
read_unchecked_in lsb_first = read_bits_lsb_unchecked

abbrev pub peek_unchecked_in : BitOrder → Reader → ℕ → Outcome (ℕ × Reader)
peek_unchecked_in msb_first = peek_bits_unchecked
peek_unchecked_in lsb_first = peek_bits_lsb_unchecked

-- On a valid reader, in either bit order, the refill returns a valid reader with the same stream, and then
-- more than 56 bits are cached or the buffer is used up.
pub refill_in-IsRefilled :
    (o : BitOrder) (r : Reader) → IsReader o r → Returns (refill_in o r) (IsRefilled o r)
refill_in-IsRefilled msb_first = refill-IsRefilled
refill_in-IsRefilled lsb_first = refill_lsb-IsRefilled

-- On a valid reader, in either bit order, with 1 to 32 bits asked for, and as many left, the unchecked read
-- and peek are the checked ones, in their results and in the readers that they leave.
pub unchecked_in-eq-checked :
    (o : BitOrder) (r : Reader) (n : ℕ)
    → IsReader o r
    → 0 < n
    → n ≤ 32
    → n ≤ length (remaining o r)
    → (read_unchecked_in o r n ≡ (reader_ops o).read r n)
      × (peek_unchecked_in o r n ≡ (reader_ops o).peek r n)
unchecked_in-eq-checked msb_first = unchecked-eq-checked
unchecked_in-eq-checked lsb_first = lsb_unchecked-eq-checked
