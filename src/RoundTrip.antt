-- ===== src/RoundTrip.antt =====
-- Clients of both halves of bitstream.h: a sequence of fields that is written, flushed and read
-- again from the same memory comes back. In either bit order, through the interfaces; the programs
-- of examples/ and tests/ pack their fields this way.
pub mod Laws
pub mod Orders
pub mod Packed
pub mod Sessions
pub mod Overfull
use bitstream_h.Base.{ℕ, ◌+◌, ◌≤◌, List, [], ◌∷◌, ◌++◌, Bool, Outcome, done, ◌>>=◌, map}
use bitstream_h.BitString.{BitOrder, bits}
use bitstream_h.Reader.{Reader, reader_init}
use bitstream_h.Reader.Interface.{ReaderOps}
use bitstream_h.Writer.{Writer, writer_init, writer_bytes_written}
use bitstream_h.Writer.Interface.{WriterOps}

-- A value and its width in bits.
abbrev pub Field : Type 0
Field = ℕ × ℕ

module _ {o : BitOrder} (writer : WriterOps o) where
  unfoldable pub write_fields : List Field → Writer → Outcome Writer
  write_fields [] w = done w
  write_fields (f ∷ fs) w = do w' ← writer.write w f.0 f.1; write_fields fs w'

module _ {o : BitOrder} (reader : ReaderOps o) where
  pub read_fields : List ℕ → Reader → Outcome (List ℕ × Reader)
  read_fields [] r = done ([], r)
  read_fields (n ∷ ns) r = do
    (x, r') ← reader.read r n
    (xs, r'') ← read_fields ns r'
    done (x ∷ xs, r'')

module _ {o : BitOrder} (writer : WriterOps o) (reader : ReaderOps o) where
  -- Write, flush, and read again with the same widths.
  pub exchange : List ℕ → ℕ → List Field → Outcome (List ℕ × Reader)
  exchange buf size fs = do
    w ← write_fields writer fs (writer_init buf size)
    w' ← writer.flush w
    read_fields reader (map (λ f. f.1) fs) (reader_init w'.buffer (writer_bytes_written w'))

-- The bits of a sequence of fields.
unfoldable pub fields_bits : BitOrder → List Field → List Bool
fields_bits o [] = []
fields_bits o (f ∷ fs) = bits o f.1 f.0 ++ fields_bits o fs

unfoldable pub total_width : List Field → ℕ
total_width [] = 0
total_width (f ∷ fs) = f.1 + total_width fs

abbrev pub IsNarrow : Field → Type 0
IsNarrow f = f.1 ≤ 32
