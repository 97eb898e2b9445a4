-- ===== src/Tests/RoundTrips.antt =====
-- The round trips at concrete fields: those of a packet of examples/sensor_protocol.c.
use bitstream_h.Base.{
  ℕ, ◌≡◌, arith, List, [], ◌∷◌, false, map, replicate, Returns, ◌≤◌, ◌*◌, length, ◌++◌,
}
use bitstream_h.BitString.{msb_first, lsb_first, bits, odd, bytes_bits}
use bitstream_h.Reader.State.{remaining}
use bitstream_h.Reader.Interface.{reader_ops, lsb_reader}
use bitstream_h.Writer.State.{pad_length}
use bitstream_h.Reader.Session as ReadSession
use bitstream_h.Writer.Session as WriteSession
use bitstream_h.RoundTrip.Sessions.{converse}
use bitstream_h.Writer.Interface.{writer_ops, msb_writer, lsb_writer}
use bitstream_h.RoundTrip.{Field, exchange, total_width, write_fields, fields_bits}
use bitstream_h.Writer.{writer_init}
use bitstream_h.RoundTrip.Laws.{field_value}
use bitstream_h.RoundTrip.Orders.{exchange_orders, converse_orders}
use bitstream_h.RoundTrip.Overfull.{IsCut, write_fields-IsCut}

-- Device, battery flag, temperature, humidity and alert flag: 23 bits.
abbrev packet : List Field
packet = (2, 4) ∷ (1, 1) ∷ (297, 10) ∷ (89, 7) ∷ (1, 1) ∷ []

abbrev memory : List ℕ
memory = 0 ∷ 0 ∷ 0 ∷ []

exchange_orders_example : Returns (exchange lsb_writer lsb_reader memory 3 packet) (λ p.
    (p.0 ≡ map field_value packet)
    × (remaining lsb_first p.1 ≡ replicate (pad_length (total_width packet)) false))
unfolding total_width
exchange_orders_example =
    exchange_orders lsb_first memory 3 packet (omega arith) (omega arith) (omega arith)
      (omega arith) (omega arith)

-- 46 bits over two bytes.
write_fields-IsCut_example :
    Returns
      (write_fields msb_writer (packet ++ packet) (writer_init memory 2))
      (IsCut msb_first 2 (fields_bits msb_first (packet ++ packet)))
unfolding total_width
write_fields-IsCut_example =
    write_fields-IsCut msb_first (packet ++ packet) memory 2 (omega arith) (omega arith)
      (omega arith) (omega arith) (omega arith)

-- Nine bits, an align and a byte: all the memory.
abbrev puts : List WriteSession.Request
puts =
    WriteSession.write_request 0x1A5 9
    ∷ WriteSession.align_request
    ∷ WriteSession.bytes_request (7 ∷ []) 1
    ∷ []

abbrev gets : List ReadSession.Request
gets =
    ReadSession.read_request 9
    ∷ ReadSession.align_request
    ∷ ReadSession.peek_request 8
    ∷ ReadSession.bytes_request (0 ∷ []) 1
    ∷ ReadSession.eof_request
    ∷ []

puts-fit : length (WriteSession.compose_all lsb_first puts []).1 ≤ 8 * 3
unfolding WriteSession.compose_all WriteSession.compose bits odd bytes_bits
puts-fit = omega arith

converse_orders_example :
    Returns (converse (writer_ops lsb_first) (reader_ops lsb_first) memory 3 puts gets) (λ p.
      (p.0 ≡ (WriteSession.compose_all lsb_first puts []).0)
      × (p.1
          ≡ (ReadSession.answers lsb_first gets
              (WriteSession.padded (WriteSession.compose_all lsb_first puts []).1)).0))
converse_orders_example =
    converse_orders lsb_first memory 3 puts gets (omega arith) (omega arith) (omega arith)
      (omega arith, (tt, ((omega arith, omega arith), tt))) (omega arith) puts-fit
