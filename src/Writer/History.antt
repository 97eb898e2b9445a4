-- ===== src/Writer/History.antt =====
-- A writer through any calls whatever, of either bit order, checked or not, also after an overflow.
use bitstream_h.Base.{
  ℕ, ◌≡◌, ◌≢◌, List, Outcome, done, stuck, ◌>>=◌, Ends, done-Ends, >>=-Ends, Ends-ne_stuck,
  Ends-done,
}
use bitstream_h.Writer.{Writer}
use bitstream_h.Writer.Msb.{write_bit, write_bits, write_bits_unchecked, writer_flush, writer_align}
use bitstream_h.Writer.Msb.Ends.{
  write_bit-Ends, write_bits-Ends, write_bits_unchecked-Ends, writer_flush-Ends, writer_align-Ends,
}
use bitstream_h.Writer.Lsb.{
  write_bits_lsb, write_bits_lsb_unchecked, writer_flush_lsb, writer_align_lsb,
}
use bitstream_h.Writer.Lsb.Ends.{
  write_bits_lsb-Ends, write_bits_lsb_unchecked-Ends, writer_flush_lsb-Ends, writer_align_lsb-Ends,
}
use bitstream_h.Writer.Bulk.{write_bytes}
use bitstream_h.Writer.Bulk.Ends.{write_bytes-Ends}
use bitstream_h.Writer.Keeps.{IsBounded, Keeps, Keeps-self, Keeps-trans}

-- The calls that change a writer, with their arguments.
pub data Call : Type 0 where
  bit_call : ℕ → Call
  bits_call : ℕ → ℕ → Call
  bits_unchecked_call : ℕ → ℕ → Call
  flush_call : Call
  align_call : Call
  bits_lsb_call : ℕ → ℕ → Call
  bits_lsb_unchecked_call : ℕ → ℕ → Call
  flush_lsb_call : Call
  align_lsb_call : Call
  bytes_call : List ℕ → ℕ → Call

-- The answer of `bs_write_bytes` is left out.
unfoldable pub call : Call → Writer → Outcome Writer
call (bit_call v) w = write_bit w v
call (bits_call v n) w = write_bits w v n
call (bits_unchecked_call v n) w = write_bits_unchecked w v n
call flush_call w = writer_flush w
call align_call w = writer_align w
call (bits_lsb_call v n) w = write_bits_lsb w v n
call (bits_lsb_unchecked_call v n) w = write_bits_lsb_unchecked w v n
call flush_lsb_call w = writer_flush_lsb w
call align_lsb_call w = writer_align_lsb w
call (bytes_call src n) w = write_bytes w src n >>= λ p. done p.1

-- What calls that each gave a result lead to.
pub data Reach (w : Writer) : Writer → Type 0 where
  here : Reach w w
  next : {w' w'' : Writer} → Reach w w' → (c : Call) → call c w' ≡ done w'' → Reach w w''

call-Ends : (c : Call) (w : Writer) → IsBounded w → Ends (call c w) (Keeps w)
unfolding call
call-Ends (bit_call v) w b = write_bit-Ends w v b
call-Ends (bits_call v n) w b = write_bits-Ends w v n b
call-Ends (bits_unchecked_call v n) w b = write_bits_unchecked-Ends w v n b
call-Ends flush_call w b = writer_flush-Ends w b
call-Ends align_call w b = writer_align-Ends w b
call-Ends (bits_lsb_call v n) w b = write_bits_lsb-Ends w v n b
call-Ends (bits_lsb_unchecked_call v n) w b = write_bits_lsb_unchecked-Ends w v n b
call-Ends flush_lsb_call w b = writer_flush_lsb-Ends w b
call-Ends align_lsb_call w b = writer_align_lsb-Ends w b
call-Ends (bytes_call src n) w b = >>=-Ends (write_bytes-Ends w src n b) (λ p k. done-Ends p.1 k)

-- Every call on a writer, whatever its accumulator, arguments and memory, with its position within a size
-- below 2 ^ 64, terminates: no loop runs on.
pub writer_call-terminates : (c : Call) (w : Writer) → IsBounded w → call c w ≢ stuck
writer_call-terminates c w b = Ends-ne_stuck (call-Ends c w b)

-- Through any calls that each give a result, in any order, bit order and mix, with any arguments, a writer
-- whose position is within a size below 2 ^ 64 keeps the bytes before its position and, past the
-- position it comes to, the rest of memory, its size and a raised overflow flag; the position
-- never moves back, and stays within the size.
pub writer_history-Keeps : {w w' : Writer} → IsBounded w → Reach w w' → Keeps w w'
writer_history-Keeps {w} b here = Keeps-self w b
writer_history-Keeps {w} b (next {w'} r c e) =
    let before : Keeps w w' = writer_history-Keeps b r in
    Keeps-trans before (Ends-done (call-Ends c w' before.bounded) e)
