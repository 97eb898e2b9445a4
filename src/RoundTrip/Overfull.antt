-- ===== src/RoundTrip/Overfull.antt =====
-- A client that writes more fields than the buffer has room for: what it finds afterwards.
use native.Mathlib.Decide.{dec_le}
use bitstream_h.Base.{
  ℕ, ◌+◌, ◌*◌, ◌/◌, ◌^◌, ◌≤◌, ◌<◌, ◌≡◌, refl, sym, ap, ◌∙◌, arith, leb, le→leb, lt→leb,
  if◌then◌else◌, Bool, List, [], ◌∷◌, ◌++◌, ◌||◌, All, length, length-append, length-take,
  length-replicate, true, false, take, take-append, Returns, Returns_mono, done-Returns,
  >>=-Returns,
}
use bitstream_h.BitString.{BitOrder, bits, bytes_bits}
use bitstream_h.BitString.Laws.{length-bits}
use bitstream_h.BitString.Bytes.{IsByte, length-bytes_bits}
use bitstream_h.Writer.{Writer, writer_init}
use bitstream_h.Writer.State.{
  IsWriter, IsStaged, Appends, Appends_nil, Appends_trans, written, length-written, padding,
  pad_length,
}
use bitstream_h.Writer.Contents.{Holds, Holds-init}
use bitstream_h.Writer.Interface.{WriterOps, writer_ops}
use bitstream_h.RoundTrip.{Field, IsNarrow, write_fields, fields_bits, total_width}

-- A writer over `size` bytes that was given the bits `s`, fewer than 64 more than the buffer has room for:
-- the flag is raised exactly if a whole byte of them did not fit, and the bytes that did are in memory.
pub record IsCut (o : BitOrder) (size : ℕ) (s : List Bool) (w : Writer) : Type 0 where
  pub flag : w.overflow ≡ leb (8 * size + 8) (length s)
  pub stored : w.byte_pos ≡ (if leb size (length s / 8) then size else length s / 8)
  pub in_memory : bytes_bits o (take w.byte_pos w.buffer) ≡ take (8 * w.byte_pos) s

-- While fewer than 64 bits are beyond the buffer, whatever has fit, every field is appended.
pub write_past-Appends :
    (o : BitOrder) (writer : WriterOps o) (fs : List Field) (w : Writer)
    → IsWriter o w
    → All IsNarrow fs
    → length (written o w) + total_width fs < 8 * w.size + 64
    → Returns (write_fields writer fs w) (Appends o (fields_bits o fs) w)
unfolding write_fields fields_bits total_width
write_past-Appends o writer [] w u narrow fits = done-Returns w (Appends_nil o w u)
write_past-Appends o writer (f ∷ fs) w u narrow fits =
    >>=-Returns
      (writer.write-Appends w f.0 f.1 u narrow.0
        (omega (arith, length-written o w u.staged, u.settled, u.staged.in_buffer, narrow.0)))
      (λ w' a.
        let long = length-bits o f.1 f.0 in
        let wider = ap length a.appended ∙ length-append (written o w) (bits o f.1 f.0) in
        Returns_mono
          (write_past-Appends o writer fs w' a.is_writer narrow.1
            (omega (arith, wider, long, a.same_size)))
          (λ w'' b. Appends_trans a b))

Appends-IsCut :
    (o : BitOrder) (size : ℕ) (s : List Bool) (w w' : Writer)
    → Holds o size [] 0 w
    → Appends o s w w'
    → IsCut o size s w'
Appends-IsCut o size s w w' h a = record {
  flag = a.flag ∙ rw (h.clear, h.same_size, whole) refl;
  stored = position;
  in_memory =
      (sym (
          take-append (8 * w'.byte_pos) (bytes_bits o (take w'.byte_pos w'.buffer))
            (bits o w'.bits_in_cache w'.bit_cache)
            (omega (
              arith,
              length-bytes_bits o (take w'.byte_pos w'.buffer),
              length-take w'.byte_pos w'.buffer (omega (arith, staged.storage, staged.in_buffer)),
            )))
        ∙ ap (take (8 * w'.byte_pos)) (unfold written in whole));
}
  where
    whole : written o w' ≡ s
    whole = a.appended ∙ ap (λ t. t ++ s) h.content

    staged : IsStaged o w'
    staged = a.is_writer.staged

    total : length s ≡ 8 * w'.byte_pos + w'.bits_in_cache
    total = ap length (sym whole) ∙ length-written o w' staged

    position : w'.byte_pos ≡ (if leb size (length s / 8) then size else length s / 8)
    position = elim (dec_le size (length s / 8)) [
      | yes full ↦
          rw (le→leb _ _ full)
            (omega (arith, total, staged.in_buffer, a.is_writer.settled, a.same_size, h.same_size))
      | no room ↦
          rw (lt→leb size (length s / 8) (omega arith))
            (omega (arith, total, staged.in_buffer, a.is_writer.settled, a.same_size, h.same_size))
    ]

-- A fresh writer, in either bit order, given fields of at most 32 bits each, fewer than 64 bits more than its
-- buffer has room for: all writes return, the flag is raised exactly if a whole byte did not fit, and the
-- memory has the bytes that did.
pub write_fields-IsCut :
    (o : BitOrder) (fs : List Field) (buf : List ℕ) (size : ℕ)
    → size ≤ length buf
    → size < 2 ^ 64
    → All IsByte buf
    → All IsNarrow fs
    → total_width fs < 8 * size + 64
    → Returns
        (write_fields (writer_ops o) fs (writer_init buf size))
        (IsCut o size (fields_bits o fs))
write_fields-IsCut o fs buf size held addressable bytes narrow fits =
    Returns_mono
      (write_past-Appends o (writer_ops o) fs (writer_init buf size) h.is_writer narrow
        (omega (arith, ap length h.content, h.same_size)))
      (λ w a. Appends-IsCut o size (fields_bits o fs) (writer_init buf size) w h a)
  where
    h : Holds o size [] 0 (writer_init buf size)
    h = Holds-init o buf size held addressable bytes

or_true : (b : Bool) → b || true ≡ true
or_true true = refl
or_true false = refl

-- A flush of more bits than the buffer has room for leaves the flag raised.
pub flush_past :
    (o : BitOrder) (writer : WriterOps o) (w : Writer)
    → IsWriter o w
    → 8 * w.size < length (written o w)
    → Returns (writer.flush w) (λ w'. w'.overflow ≡ true)
flush_past o writer w u past = Returns_mono (writer.flush-Appends w u) (λ w' a.
    elim (dec_le 8 w.bits_in_cache) [
      | yes many ↦ a.flag ∙ rw (u.flagged many) refl
      | no few ↦
          let longer : length (written o w')
              ≡ length (written o w) + pad_length (length (written o w)) =
            ap length a.appended
            ∙ rw
                (
                  lt→leb 8 w.bits_in_cache (omega arith),
                  length-append (written o w) (padding o w),
                  length-replicate (pad_length (length (written o w))) false,
                )
                refl in
          a.flag
          ∙ rw
              (le→leb (8 * w.size + 8) (length (written o w')) (
                omega (
                  arith,
                  longer,
                  past,
                  length-written o w u.staged,
                  u.settled,
                  u.staged.in_buffer,
                )))
              (or_true w.overflow)
    ])
