-- ===== src/Examples/DeflateCodes/Overflow.antt =====
-- The encoder's answer where the buffer is too small.
use bitstream_h.Base.{
  ℕ, ◌+◌, ◌*◌, ◌^◌, ◌≤◌, ◌<◌, ◌≡◌, refl, sym, ap, ◌∙◌, arith, append-nil, List, [], map, All,
  length, length-append, >>=_assoc, Returns, done-Returns, >>=-Returns,
}
use bitstream_h.BitString.{lsb_first}
use bitstream_h.BitString.Laws.{length-bits}
use bitstream_h.BitString.Bytes.{IsByte}
use bitstream_h.Writer.{writer_init}
use bitstream_h.Writer.State.{written, length-written}
use bitstream_h.Writer.Contents.{Holds, Holds-init}
use bitstream_h.Writer.Interface.{lsb_writer}
use bitstream_h.RoundTrip.{write_fields}
use bitstream_h.RoundTrip.Laws.{length-fields_bits}
use bitstream_h.RoundTrip.Overfull.{write_past-Appends, flush_past}
use bitstream_h.Examples.DeflateCodes.{CodeEntry, encode, encode_message}
use bitstream_h.Examples.DeflateCodes.Table.{IsLetter}
use bitstream_h.Examples.DeflateCodes.Loop.{entry_field}
use bitstream_h.Examples.DeflateCodes.Transfer.{encode_message-append, narrow, message_width}

-- `encode` of deflate_codes.c on letters of the table whose code words and sentinel take more bits than the
-- wire has room for, but fewer than 64 more: it returns 0 bytes, since the writer flagged the overflow.
pub deflate_encode_overflow :
    (es : List CodeEntry) (wire : List ℕ) (size : ℕ)
    → All IsLetter es
    → size ≤ length wire
    → size < 2 ^ 64
    → All IsByte wire
    → 8 * size < message_width es + 6
    → message_width es + 6 < 8 * size + 64
    → Returns (encode (map (λ e. e.symbol) es) wire size) (λ p. p.0 ≡ 0)
unfolding encode encode_message
deflate_encode_overflow es wire size ls held addressable bytes past near =
    rw
      (
        sym (append-nil (map (λ (e : CodeEntry). e.symbol) es)),
        encode_message-append es [] (writer_init wire size) ls,
        >>=_assoc (write_fields lsb_writer (map entry_field es) (writer_init wire size)),
      )
      (>>=-Returns
        (write_past-Appends lsb_first lsb_writer (map entry_field es) (writer_init wire size)
          h.is_writer (narrow es ls) (omega (arith, ap length h.content, h.same_size)))
        (λ w a.
          let long =
            ap length a.appended ∙ length-append (written lsb_first (writer_init wire size)) _ in
          let width = length-fields_bits lsb_first (map entry_field es) in
          >>=-Returns
            (lsb_writer.write-Appends w 63 6 a.is_writer (omega arith) (
              omega (
                arith,
                long,
                width,
                near,
                ap length h.content,
                h.same_size,
                a.same_size,
                length-written lsb_first w a.is_writer.staged,
                a.is_writer.settled,
                a.is_writer.staged.in_buffer,
              )))
            (λ w' b.
              >>=-Returns
                (flush_past lsb_first lsb_writer w' b.is_writer (
                  omega (
                    arith,
                    long,
                    width,
                    past,
                    ap length h.content,
                    h.same_size,
                    a.same_size,
                    b.same_size,
                    ap length b.appended ∙ length-append (written lsb_first w) _,
                    length-bits lsb_first 6 63,
                  )))
                (λ w'' set. rw set (done-Returns _ refl)))))
  where
    h : Holds lsb_first size [] 0 (writer_init wire size)
    h = Holds-init lsb_first wire size held addressable bytes
