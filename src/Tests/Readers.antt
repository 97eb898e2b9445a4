-- ===== src/Tests/Readers.antt =====
-- The reader's theorems at concrete readers: the header bytes of examples/decode_mp3_header.c, from
-- the start and from inside a byte.
use bitstream_h.Base.{
  ℕ, ◌≤◌, ◌≡◌, refl, arith, List, [], ◌∷◌, Returns, length, ◌==◌, ◌<◌, ◌*◌, ◌^◌, true,
}
use bitstream_h.BitString.{BitOrder, msb_first, lsb_first, bytes_bits, bits, odd}
use bitstream_h.Reader.Accumulator.{refill_in, refill_in-IsRefilled, unchecked_in-eq-checked}
use bitstream_h.Reader.{Reader, reader_init, reader_eof, reader_bits_left}
use bitstream_h.Reader.State.{IsReader, IsRefilled, IsAt, Reads, remaining, length-remaining}
use bitstream_h.Reader.Status.{reader_init-IsReader, reader_status}
use bitstream_h.Reader.Advance.{InBounds, Advances}
use bitstream_h.Reader.Interface.{reader_ops}
use bitstream_h.Reader.History
use bitstream_h.Reader.Session.{
  Request, peek_request, read_request, bytes_request, bits_left_request, eof_request, answers,
  serve_all,
}
use bitstream_h.Reader.Orders.{reader_session, reader_drains}
use bitstream_h.Reader.Drain.{skip_times}
use bitstream_h.Reader.Msb
use bitstream_h.Reader.Lsb
use bitstream_h.Reader.Bulk

abbrev header : List ℕ
header = 0xFF ∷ 0xFB ∷ 0x90 ∷ 0x44 ∷ []

abbrev fresh : Reader
fresh = record { buffer = header; size = 4; byte_pos = 0; bit_cache = 0; bits_in_cache = 0 }

fresh-IsReader : (o : BitOrder) → IsReader o fresh
unfolding reader_init
fresh-IsReader o = (reader_init-IsReader o header 4 (omega arith) (omega arith) (omega arith)).0

-- A reader with the second byte's low six bits in the cache.
abbrev inside_msb : Reader
inside_msb = record {
  buffer = header;
  size = 4;
  byte_pos = 2;
  bit_cache = 0xFFFB;
  bits_in_cache = 6;
}

inside_msb-IsReader : IsReader msb_first inside_msb
unfolding remaining bytes_bits bits odd
inside_msb-IsReader = record {
  storage = omega arith;
  addressable = omega arith;
  in_buffer = omega arith;
  in_word = omega arith;
  behind = omega arith;
  all_bytes = omega arith;
  clean = tt;
  agrees = refl;
}

abbrev inside_lsb : Reader
inside_lsb = record { buffer = header; size = 4; byte_pos = 2; bit_cache = 0x3E; bits_in_cache = 6 }

inside_lsb-IsReader : IsReader lsb_first inside_lsb
unfolding remaining bytes_bits bits odd
inside_lsb-IsReader = record {
  storage = omega arith;
  addressable = omega arith;
  in_buffer = omega arith;
  in_word = omega arith;
  behind = omega arith;
  all_bytes = omega arith;
  clean = omega arith;
  agrees = refl;
}

reader_status_example :
    (reader_bits_left inside_msb ≡ length (remaining msb_first inside_msb))
    × (reader_eof inside_msb ≡ (length (remaining msb_first inside_msb) == 0))
reader_status_example = reader_status msb_first inside_msb inside_msb-IsReader (omega arith)

refill_in-IsRefilled_example :
    Returns (refill_in lsb_first inside_lsb) (IsRefilled lsb_first inside_lsb)
refill_in-IsRefilled_example = refill_in-IsRefilled lsb_first inside_lsb inside_lsb-IsReader

read_bits-Reads_example : Returns (Msb.read_bits inside_msb 11) (Reads msb_first 11 inside_msb)
read_bits-Reads_example = Msb.Read.read_bits-Reads inside_msb 11 inside_msb-IsReader (omega arith)

read_bits_lsb-Reads_example :
    Returns (Lsb.read_bits_lsb inside_lsb 11) (Reads lsb_first 11 inside_lsb)
read_bits_lsb-Reads_example =
    Lsb.Read.read_bits_lsb-Reads inside_lsb 11 inside_lsb-IsReader (omega arith)

twelve_left : 12 ≤ length (remaining msb_first inside_msb)
twelve_left = omega (arith, length-remaining msb_first inside_msb inside_msb-IsReader)

unchecked_in-eq-checked_example :
    (Msb.read_bits_unchecked inside_msb 12 ≡ Msb.read_bits inside_msb 12)
    × (Msb.peek_bits_unchecked inside_msb 12 ≡ Msb.peek_bits inside_msb 12)
unchecked_in-eq-checked_example =
    unchecked_in-eq-checked msb_first inside_msb 12 inside_msb-IsReader (omega arith) (omega arith)
      twelve_left

read_bytes-CopiesBytes_example :
    Returns
      (Bulk.read_bytes fresh (0 ∷ 0 ∷ 0 ∷ []) 3)
      (Bulk.Copy.CopiesBytes msb_first fresh (0 ∷ 0 ∷ 0 ∷ []) 3)
read_bytes-CopiesBytes_example =
    Bulk.Copy.read_bytes-CopiesBytes msb_first fresh (0 ∷ 0 ∷ 0 ∷ []) 3 (fresh-IsReader msb_first)
      (omega arith)

inside-InBounds : InBounds inside_msb
inside-InBounds = record {
  storage = omega arith;
  addressable = omega arith;
  in_buffer = omega arith;
  in_word = omega arith;
  behind = omega arith;
}

read_bits-Advances_example :
    Returns (Msb.read_bits inside_msb 11) (λ p. (p.0 < 2 ^ 11) × Advances inside_msb p.1)
read_bits-Advances_example =
    Msb.Bounds.read_bits-Advances inside_msb 11 inside-InBounds (omega arith)

-- Calls of both orders, one of them of more bits than are left.
abbrev mixed : List History.Call
mixed =
    History.read_call 11
    ∷ History.skip_lsb_call 3
    ∷ History.bytes_call (0 ∷ []) 1
    ∷ History.align_call
    ∷ History.peek_lsb_call 32
    ∷ []

reader_calls-Advances_example : Returns (History.calls mixed inside_msb) (Advances inside_msb)
reader_calls-Advances_example =
    History.reader_calls-Advances mixed inside_msb inside-InBounds (omega arith)

abbrev requests : List Request
requests =
    peek_request 5
    ∷ read_request 6
    ∷ bytes_request (0 ∷ []) 1
    ∷ bits_left_request
    ∷ read_request 9
    ∷ eof_request
    ∷ []

reader_session_example : Returns (serve_all (reader_ops msb_first) requests inside_msb) (λ p.
    (p.0 ≡ (answers msb_first requests (remaining msb_first inside_msb)).0)
    × IsAt msb_first inside_msb p.1 (answers msb_first requests (remaining msb_first inside_msb)).1)
reader_session_example =
    reader_session msb_first requests inside_msb inside_msb-IsReader (omega arith) (omega arith)

-- Three bytes and six bits are left: four skips of seven bits pass them.
four_skips : reader_bits_left inside_msb ≤ 4 * 7
unfolding reader_bits_left
four_skips = omega arith

reader_drains_example :
    Returns (skip_times (reader_ops msb_first) 7 4 inside_msb) (λ r'. reader_eof r' ≡ true)
reader_drains_example =
    reader_drains msb_first 7 4 inside_msb (omega arith) inside_msb-IsReader (omega arith)
      four_skips
