-- ===== src/RoundTrip/Packed.antt =====
-- A sequence of fields written to a buffer that has room for them, and flushed: what the next reader
-- sees. The examples' encoders write their messages this way.
use bitstream_h.Base.{
  ℕ, ◌+◌, ◌*◌, ◌≤◌, ◌≡◌, refl, ap, ◌∙◌, arith, false, Bool, List, ◌++◌, All, length, length-append,
  length-replicate, Returns, Returns_mono,
}
use bitstream_h.BitString.{BitOrder, bits}
use bitstream_h.BitString.Laws.{length-bits}
use bitstream_h.Reader.{reader_init}
use bitstream_h.Reader.State.{IsReader, remaining, length-remaining, position}
use bitstream_h.Writer.{Writer, writer_bytes_written}
use bitstream_h.Writer.State.{written, padding, pad_length}
use bitstream_h.Writer.Interface.{WriterOps}
use bitstream_h.Writer.Contents.{Holds, Holds-Appends}
use bitstream_h.RoundTrip.{Field, IsNarrow, write_fields, fields_bits, total_width}
use bitstream_h.RoundTrip.Laws.{write_fields-Appends, length-fields_bits, flush_readable}

-- Fields that fit what the buffer has left are held behind what it held.
pub Holds-write_fields :
    {o : BitOrder} {size : ℕ} {s : List Bool} {k : ℕ} {w : Writer} (writer : WriterOps o)
    (fs : List Field)
    → Holds o size s k w
    → All IsNarrow fs
    → k + total_width fs ≤ 8 * size
    → Returns (write_fields writer fs w) (Holds o size (s ++ fields_bits o fs) (k + total_width fs))
Holds-write_fields {o} {w = w} writer fs h narrow fits =
    Returns_mono
      (write_fields-Appends o writer fs w h.is_writer narrow h.clear
        (omega (arith, ap length h.content, h.long, h.same_size)))
      (λ w' a. Holds-Appends h (total_width fs) a.0 (length-fields_bits o fs) fits)

-- A reader over the bytes that a flush leaves: it sees `s` and then zeros that complete a byte.
pub record Shows (o : BitOrder) (size : ℕ) (s : List Bool) (w : Writer) : Type 0 where
  pub clear : w.overflow ≡ false
  pub is_reader : IsReader o (reader_init w.buffer (writer_bytes_written w))
  pub in_buffer : writer_bytes_written w ≤ size
  pub rest : List Bool
  pub shown : remaining o (reader_init w.buffer (writer_bytes_written w)) ≡ s ++ rest

fresh-position :
    (buf : List ℕ) (n : ℕ) → (position (reader_init buf n) ≡ 0) × ((reader_init buf n).size ≡ n)
unfolding reader_init
fresh-position buf n = (omega arith, refl)

pub flush-Shows :
    {o : BitOrder} {size : ℕ} {s : List Bool} {k : ℕ} {w : Writer} (writer : WriterOps o)
    → Holds o size s k w
    → k ≤ 8 * size
    → Returns (writer.flush w) (Shows o size s)
flush-Shows {o} {size} {s} {k} {w} writer h fits =
    Returns_mono
      (flush_readable o writer w h.is_writer h.clear
        (omega (arith, ap length h.content, h.long, h.same_size)))
      (λ w' b.
        let shown = b.2 ∙ ap (λ t. t ++ padding o w) h.content in
        record {
          clear = b.0;
          is_reader = b.1;
          in_buffer = omega (
            arith,
            fits,
            length-remaining o (reader_init w'.buffer (writer_bytes_written w')) b.1,
            fresh-position w'.buffer (writer_bytes_written w'),
            ap length shown,
            length-append s (padding o w),
            h.long,
            ap length h.content,
            length-replicate (pad_length (length (written o w))) false,
          );
          rest = padding o w;
          shown = shown;
        })

-- Fields, a sentinel of six bits and what follows it: six bits or more.
pub six_left :
    (o : BitOrder) (fs : List Field) (v : ℕ) (rest : List Bool)
    → 6 ≤ length (fields_bits o fs ++ (bits o 6 v ++ rest))
six_left o fs v rest = omega (
  arith,
  length-append (fields_bits o fs) (bits o 6 v ++ rest),
  length-append (bits o 6 v) rest,
  length-bits o 6 v,
)
