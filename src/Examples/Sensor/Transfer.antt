-- ===== src/Examples/Sensor/Transfer.antt =====
-- The sensor protocol's round trip.
use bitstream_h.Base.{
  ℕ, ◌+◌, ◌*◌, ◌^◌, ◌≤◌, ◌<◌, ◌≡◌, refl, ap, ◌∙◌, arith, append_assoc, Bool, true, false, List, [],
  ◌∷◌, ◌++◌, All, length, length-append, Returns, done-Returns, >>=-Returns, Returns_mono,
  if◌then◌else◌, ◌&&◌, Bool-cases, inl, inr,
}
use bitstream_h.BitString.{msb_first}
use bitstream_h.BitString.Bytes.{IsByte}
use bitstream_h.Reader.{Reader, reader_init}
use bitstream_h.Reader.State.{IsReader, remaining}
use bitstream_h.Examples.Hex.{hex_byte, hex_bytes_lem}
use bitstream_h.Writer.{Writer, writer_init, writer_bytes_written}
use bitstream_h.Writer.State.{IsWriter, Appends, Appends_nil, Appends_trans, written, padding}
use bitstream_h.Writer.Status.{writer_init-IsWriter}
use bitstream_h.Writer.Interface.{msb_writer}
use bitstream_h.RoundTrip.{fields_bits, total_width}
use bitstream_h.RoundTrip.Laws.{write_fields-Appends, flush_readable, length-fields_bits}
use bitstream_h.Examples.Sensor.{Reading, encode_readings, decode_readings, transfer}
use bitstream_h.Examples.Sensor.Layout.{
  reading_fields, fits_widths, encode_reading-eq-write_fields, same_reading-decoded,
  decode_reading-IsAt,
}

-- The bits of a sequence of readings.
unfoldable pub readings_bits : List Reading → List Bool
readings_bits [] = []
readings_bits (r ∷ rs) = fields_bits msb_first (reading_fields r) ++ readings_bits rs

length-readings_bits : (rs : List Reading) → length (readings_bits rs) ≡ 23 * length rs
unfolding readings_bits
length-readings_bits [] = refl
length-readings_bits (r ∷ rs) = omega (
  arith,
  length-append (fields_bits msb_first (reading_fields r)) (readings_bits rs),
  length-reading r,
  length-readings_bits rs,
)
  where
    length-reading : (r : Reading) → length (fields_bits msb_first (reading_fields r)) ≡ 23
    length-reading r = length-fields_bits msb_first (reading_fields r) ∙ unfold total_width in refl

-- Encoding readings that fit the buffer appends 23 bits for each and raises no flag.
pub encode_readings-Appends :
    (rs : List Reading) (w : Writer)
    → IsWriter msb_first w
    → w.overflow ≡ false
    → length (written msb_first w) + 23 * length rs < 8 * w.size + 8
    → Returns
        (encode_readings w rs)
        (λ w'. Appends msb_first (readings_bits rs) w w' × (w'.overflow ≡ false))
unfolding encode_readings readings_bits
encode_readings-Appends [] w u clear fits = done-Returns w (Appends_nil msb_first w u, clear)
encode_readings-Appends (r ∷ rs) w u clear fits = rw (encode_reading-eq-write_fields w r) (
    >>=-Returns
      (write_fields-Appends msb_first msb_writer (reading_fields r) w u (omega arith) clear
        (unfold total_width in omega arith))
      (λ w' a.
        Returns_mono
          (encode_readings-Appends rs w' a.0.is_writer a.1
            (omega (arith, longer w w' a.0, a.0.same_size)))
          (λ w'' b. (Appends_trans a.0 b.0, b.1))))
  where
    longer :
        (w w' : Writer)
        → Appends msb_first (fields_bits msb_first (reading_fields r)) w w'
        → length (written msb_first w') ≡ length (written msb_first w) + 23
    longer w w' a =
        ap length a.appended
        ∙ length-append (written msb_first w) _
        ∙ ap (λ (k : ℕ). length (written msb_first w) + k)
            (length-fields_bits msb_first (reading_fields r) ∙ unfold total_width in refl)

-- Whether all readings are in range.
unfoldable pub all_fit : List Reading → Bool
all_fit [] = true
all_fit (r ∷ rs) = fits_widths r && all_fit rs

-- Decoding the bits of some readings finds them again if they all fit their widths, and else reports a
-- mismatch.
decode_readings_lem :
    (rs : List Reading) (br : Reader) (rest : List Bool)
    → IsReader msb_first br
    → remaining msb_first br ≡ readings_bits rs ++ rest
    → Returns (decode_readings br rs) (λ code. code ≡ (if all_fit rs then 0 else 1))
unfolding decode_readings readings_bits all_fit
decode_readings_lem [] br rest v front = done-Returns 0 refl
decode_readings_lem (r ∷ rs) br rest v front =
    >>=-Returns
      (decode_reading-IsAt br r (readings_bits rs ++ rest) v
        (front ∙ append_assoc (fields_bits msb_first (reading_fields r)) (readings_bits rs) rest))
      (λ p h.
        rw (h.0, same_reading-decoded r)
          (elim (Bool-cases (fits_widths r)) [
            | inl good ↦ simp good (decode_readings_lem rs p.1 rest h.1.is_reader h.1.at)
            | inr bad ↦ simp bad (done-Returns 1 refl)
          ]))

-- The program's `main` on any readings, over a buffer that has room for 23 bits each: encoding,
-- flushing, the listing of the raw bytes and decoding return, and the exit code is 0 if all readings fit the widths of their fields (a device
-- below 16, a temperature below 1024, a humidity below 128), so that each is found again, and else 1, for a
-- mismatch.
pub transfer_lem :
    (readings : List Reading) (wire : List ℕ) (size : ℕ)
    → All IsByte wire
    → size ≤ length wire
    → size < 2 ^ 64
    → 23 * length readings ≤ 8 * size
    → Returns (transfer readings wire size) (λ code. code ≡ (if all_fit readings then 0 else 1))
unfolding transfer
transfer_lem readings wire size bytes h small fits =
    >>=-Returns
      (encode_readings-Appends readings (writer_init wire size) start.0 (unfold writer_init in refl)
        (unfold writer_init in omega (arith, start_length)))
      (λ w a.
        let all = a.0.appended ∙ ap (λ t. t ++ readings_bits readings) start.1 in
        >>=-Returns
          (flush_readable msb_first msb_writer w a.0.is_writer a.1 (
            omega (arith, ap length all, length-readings_bits readings, a.0.same_size, start_size)))
          (λ w' b.
            rw
              (hex_bytes_lem hex_byte w'.buffer 0 (writer_bytes_written w')
                (unfold reader_init in omega (arith, b.1.storage)))
              (decode_readings_lem readings _ (padding msb_first w) b.1
                (b.2 ∙ ap (λ t. t ++ padding msb_first w) all))))
  where
    start :
        IsWriter msb_first (writer_init wire size)
        × (written msb_first (writer_init wire size) ≡ [])
    start = writer_init-IsWriter msb_first wire size h small bytes

    start_length : length (written msb_first (writer_init wire size)) ≡ 0
    start_length = ap length start.1

    start_size : (writer_init wire size).size ≡ size
    start_size = unfold writer_init in refl
