-- ===== src/RoundTrip/Laws.antt =====
-- What the field-packing client can rely on: every field is appended, and every field is read back.
use mathlib.Core.Path.{ap₂}
use native.Mathlib.Nat.{mod-eq_of_lt}
use bitstream_h.Base.{
  replicate, lt→leb, ℕ, ◌+◌, ◌*◌, ◌%◌, ◌^◌, ◌≤◌, ◌<◌, ◌≡◌, refl, ap, ◌∙◌, arith, false, List, [],
  ◌∷◌, ◌++◌, append_assoc, map, Bool, length, length-append, length-replicate, All, Returns,
  done-Returns, >>=-Returns, Returns_mono,
}
use bitstream_h.BitString.{BitOrder, bits}
use bitstream_h.BitString.Laws.{length-bits}
use bitstream_h.BitString.Bytes.{IsByte}
use bitstream_h.Reader.{Reader, reader_init}
use bitstream_h.Reader.State.{IsReader, IsAt, IsAt-front, IsAt-trans, remaining}
use bitstream_h.Reader.Status.{reader_init-IsReader}
use bitstream_h.Reader.Interface.{ReaderOps, read_field}
use bitstream_h.Writer.{Writer, writer_init, writer_bytes_written}
use bitstream_h.Writer.State.{
  IsWriter, Appends, Appends_nil, Appends_trans, written, padding, pad_length,
}
use bitstream_h.Writer.Flush.{flushed}
use bitstream_h.Writer.Status.{writer_init-IsWriter, few_cached, no_overflow, finished}
use bitstream_h.Writer.Interface.{WriterOps}
use bitstream_h.RoundTrip.{
  Field, IsNarrow, write_fields, read_fields, exchange, fields_bits, total_width,
}

pub length-fields_bits :
    (o : BitOrder) (fs : List Field) → length (fields_bits o fs) ≡ total_width fs
unfolding fields_bits total_width
length-fields_bits o [] = refl
length-fields_bits o (f ∷ fs) = omega (
  arith,
  length-append (bits o f.1 f.0) (fields_bits o fs),
  length-bits o f.1 f.0,
  length-fields_bits o fs,
)

-- Writing fields that fit the buffer appends them all and raises no flag.
pub write_fields-Appends :
    (o : BitOrder) (writer : WriterOps o) (fs : List Field) (w : Writer)
    → IsWriter o w
    → All IsNarrow fs
    → w.overflow ≡ false
    → length (written o w) + total_width fs < 8 * w.size + 8
    → Returns
        (write_fields writer fs w)
        (λ w'. Appends o (fields_bits o fs) w w' × (w'.overflow ≡ false))
unfolding write_fields fields_bits total_width
write_fields-Appends o writer [] w u narrow clear fits = done-Returns w (Appends_nil o w u, clear)
write_fields-Appends o writer (f ∷ fs) w u narrow clear fits =
    >>=-Returns
      (writer.write-Appends w f.0 f.1 u narrow.0 (omega (arith, few_cached u clear, narrow.0)))
      (λ w' a.
        let long = length-bits o f.1 f.0 in
        let clear' = no_overflow a clear (omega (arith, long)) in
        let wider = ap length a.appended ∙ length-append (written o w) (bits o f.1 f.0) in
        Returns_mono
          (write_fields-Appends o writer fs w' a.is_writer narrow.1 clear'
            (omega (arith, wider, long, a.same_size)))
          (λ w'' b. (Appends_trans a b.0, b.1)))

-- What reading a field of each width gives.
abbrev pub field_value : Field → ℕ
field_value f = f.0 % 2 ^ f.1

-- Reading one field at the front of the stream gives its value, which has no bits above its width.
pub next_field :
    (o : BitOrder) (reader : ReaderOps o) (f : Field) (fs : List Field) (rest : List Bool)
    (r : Reader)
    → IsReader o r
    → f.1 ≤ 32
    → f.0 < 2 ^ f.1
    → remaining o r ≡ fields_bits o (f ∷ fs) ++ rest
    → Returns (reader.read r f.1) (λ p. (p.0 ≡ f.0) × IsAt o r p.1 (fields_bits o fs ++ rest))
unfolding fields_bits
next_field o reader f fs rest r v narrow clean front =
    Returns_mono
      (read_field o reader r f.1 f.0 (fields_bits o fs ++ rest) v narrow
        (front ∙ append_assoc (bits o f.1 f.0) (fields_bits o fs) rest))
      (λ p h. (h.0 ∙ mod-eq_of_lt clean, h.1))

-- Reading the fields at the front of the stream gives their values and steps past them.
pub read_fields-IsAt :
    (o : BitOrder) (reader : ReaderOps o) (fs : List Field) (rest : List Bool) (r : Reader)
    → IsReader o r
    → All IsNarrow fs
    → remaining o r ≡ fields_bits o fs ++ rest
    → Returns
        (read_fields reader (map (λ f. f.1) fs) r)
        (λ p. (p.0 ≡ map field_value fs) × IsAt o r p.1 rest)
unfolding read_fields fields_bits
read_fields-IsAt o reader [] rest r v narrow front =
    done-Returns ([], r) (refl, IsAt-front o r v front)
read_fields-IsAt o reader (f ∷ fs) rest r v narrow front =
    >>=-Returns
      (read_field o reader r f.1 f.0 (fields_bits o fs ++ rest) v narrow.0
        (front ∙ append_assoc (bits o f.1 f.0) (fields_bits o fs) rest))
      (λ p h.
        >>=-Returns (read_fields-IsAt o reader fs rest p.1 h.1.is_reader narrow.1 h.1.at)
          (λ q k. done-Returns _ (ap₂ ◌∷◌ h.0 k.0, IsAt-trans h.1 k.1)))

-- After a flush of a valid writer, in either order, with the flag clear and no more written than fits
-- the buffer, the flag is clear, and a reader over the bytes written is valid and sees what was
-- written and then the padding.
pub flush_readable :
    (o : BitOrder) (writer : WriterOps o) (w : Writer)
    → IsWriter o w
    → w.overflow ≡ false
    → length (written o w) ≤ 8 * w.size
    → Returns (writer.flush w) (λ w'.
      let r = reader_init w'.buffer (writer_bytes_written w') in
      (w'.overflow ≡ false) × IsReader o r × (remaining o r ≡ written o w ++ padding o w))
flush_readable o writer w u clear fits = Returns_mono (writer.flush-Appends w u) (λ w' a.
    let clear' = no_overflow a clear (omega (arith, length-flushed)) in
    let staged = a.is_writer.staged in
    let init =
      reader_init-IsReader o w'.buffer (writer_bytes_written w')
        (unfold writer_bytes_written in omega (arith, staged.storage, staged.in_buffer))
        (unfold writer_bytes_written in omega (arith, staged.in_buffer, staged.addressable))
        staged.all_bytes in
    (clear', init.0, init.1 ∙ (finished o w w' u a clear').1))
  where
    length-flushed : length (flushed o w) < 8
    length-flushed =
        rw (lt→leb 8 w.bits_in_cache (few_cached u clear), length-replicate) (omega arith)

-- Fields that fit a buffer survive the exchange: with the writer and the reader of one bit order,
-- fields of at most 32 bits each, all together no more than the buffer holds, are written, flushed
-- and read back, each as the number in its lowest bits, and only zeros remain.
pub exchange_lem :
    (o : BitOrder) (writer : WriterOps o) (reader : ReaderOps o) (buf : List ℕ) (size : ℕ)
    (fs : List Field)
    → size ≤ length buf
    → size < 2 ^ 64
    → All IsByte buf
    → All IsNarrow fs
    → total_width fs ≤ 8 * size
    → Returns (exchange writer reader buf size fs) (λ p.
      (p.0 ≡ map field_value fs)
      × (remaining o p.1 ≡ replicate (pad_length (total_width fs)) false))
unfolding exchange
exchange_lem o writer reader buf size fs h small bytes narrow fits =
    >>=-Returns
      (write_fields-Appends o writer fs (writer_init buf size) start.0 narrow start_clear
        (omega (arith, start_length, start_size)))
      (λ w a.
        let all = a.0.appended ∙ ap (λ t. t ++ fields_bits o fs) start.1 in
        let long = ap length all ∙ length-fields_bits o fs in
        >>=-Returns
          (flush_readable o writer w a.0.is_writer a.1
            (omega (arith, long, a.0.same_size, start_size)))
          (λ w' b.
            Returns_mono
              (read_fields-IsAt o reader fs (padding o w) _ b.1 narrow
                (b.2 ∙ ap (λ t. t ++ padding o w) all))
              (λ p c. (c.0, c.1.at ∙ ap (λ (k : ℕ). replicate (pad_length k) false) long))))
  where
    start : IsWriter o (writer_init buf size) × (written o (writer_init buf size) ≡ [])
    start = writer_init-IsWriter o buf size h small bytes

    start_length : length (written o (writer_init buf size)) ≡ 0
    start_length = ap length start.1

    start_size : (writer_init buf size).size ≡ size
    start_size = unfold writer_init in refl

    start_clear : (writer_init buf size).overflow ≡ false
    start_clear = unfold writer_init in refl
