-- ===== src/RoundTrip/Orders.antt =====
-- The round trip of the field-packing client with the two halves of bitstream.h in place.
use bitstream_h.Base.{
  ℕ, ◌*◌, ◌^◌, ◌≤◌, ◌<◌, ◌≡◌, false, List, map, length, replicate, All, Returns, [],
}
use bitstream_h.BitString.{BitOrder}
use bitstream_h.BitString.Bytes.{IsByte}
use bitstream_h.Reader.State.{remaining}
use bitstream_h.Reader.Interface.{reader_ops}
use bitstream_h.Writer.State.{pad_length}
use bitstream_h.Writer.Interface.{writer_ops}
use bitstream_h.RoundTrip.{Field, IsNarrow, exchange, total_width}
use bitstream_h.Reader.Session as ReadSession
use bitstream_h.Reader.Session.{answers}
use bitstream_h.Writer.Session as WriteSession
use bitstream_h.Writer.Session.{compose_all, padded}
use bitstream_h.RoundTrip.Sessions.{converse, converse_lem}
use bitstream_h.RoundTrip.Laws.{field_value, exchange_lem}

-- A writer over `size` bytes of memory, in either bit order, given fields of at most 32 bits each that take no
-- more than `8 * size` bits together, and flushed: the program returns, reading with the same widths
-- gives each value's lowest bits back, and all that is left of the bytes written are the zeros that
-- complete the last one.
pub exchange_orders :
    (o : BitOrder) (buf : List ℕ) (size : ℕ) (fs : List Field)
    → size ≤ length buf
    → size < 2 ^ 64
    → All IsByte buf
    → All IsNarrow fs
    → total_width fs ≤ 8 * size
    → Returns (exchange (writer_ops o) (reader_ops o) buf size fs) (λ p.
      (p.0 ≡ map field_value fs)
      × (remaining o p.1 ≡ replicate (pad_length (total_width fs)) false))
exchange_orders o = exchange_lem o (writer_ops o) (reader_ops o)

-- The two halves of the library joined, in either bit order, over a memory of fewer than 2 ^ 61 bytes: after
-- any requests of a writing client that are valid and fit the memory, and a flush, any valid requests
-- of a reading client are answered as the composed string, filled with zeros to a whole byte,
-- answers them, and the writing client's requests as the string that it composes.
pub converse_orders :
    (o : BitOrder) (buf : List ℕ) (size : ℕ) (puts : List WriteSession.Request)
    (gets : List ReadSession.Request)
    → size ≤ length buf
    → size < 2 ^ 61
    → All IsByte buf
    → All WriteSession.IsRequest puts
    → All ReadSession.IsRequest gets
    → length (compose_all o puts []).1 ≤ 8 * size
    → Returns (converse (writer_ops o) (reader_ops o) buf size puts gets) (λ p.
      (p.0 ≡ (compose_all o puts []).0)
      × (p.1 ≡ (answers o gets (padded (compose_all o puts []).1)).0))
converse_orders o = converse_lem (writer_ops o) (reader_ops o)
