-- ===== src/Examples/DeflateCodes/Transfer.antt =====
-- The program's round trip, and its answers to what it cannot encode.
use mathlib.Core.Path.{subst}
use bitstream_h.Base.{
  ℕ, ◌+◌, ◌*◌, ◌^◌, ◌≤◌, ◌<◌, ◌≡◌, ◌≢◌, refl, sym, ap, ◌∙◌, arith, append_assoc, append-nil, true,
  none, List, [], ◌∷◌, ◌++◌, map, All, length, ◌>>=◌, >>=_assoc, >>=_cong, Returns, done-Returns,
  >>=-Returns, c_string, All-map, same_text_self, length-map,
}
use bitstream_h.Word.{sub64}
use bitstream_h.Word.Bounds.{div64-Returns}
use bitstream_h.BitString.{lsb_first, bits}
use bitstream_h.BitString.Bytes.{IsByte}
use bitstream_h.Reader.{reader_init}
use bitstream_h.Writer.{Writer, writer_init, writer_bytes_written}
use bitstream_h.Writer.Lsb.{write_bits_lsb}
use bitstream_h.Writer.Interface.{lsb_writer}
use bitstream_h.Writer.Contents.{Holds, Holds-init, Holds-write}
use bitstream_h.RoundTrip.{IsNarrow, write_fields, total_width}
use bitstream_h.RoundTrip.Packed.{Holds-write_fields, flush-Shows, Shows}
use bitstream_h.Examples.Hex.{byte_hex, hex_bytes_lem}
use bitstream_h.Examples.Text.{IsText-Returns}
use bitstream_h.Examples.DeflateCodes.{
  CodeEntry, code_table, find_symbol, encode_entry, encode_message, encode, decode, run,
}
use bitstream_h.Examples.DeflateCodes.Table.{IsLetter, find_symbol-code, code-IsNarrow}
use bitstream_h.Examples.DeflateCodes.Loop.{entry_field, message_bits}
use bitstream_h.Examples.DeflateCodes.Listing.{code_table_listed}
use bitstream_h.Examples.DeflateCodes.Text.{decode_loop-IsText}

-- The letters at the front of a message are encoded by their code words one after another.
pub encode_message-append :
    (es : List CodeEntry) (rest : List ℕ) (w : Writer)
    → All IsLetter es
    → encode_message w (map (λ e. e.symbol) es ++ rest)
      ≡ (write_fields lsb_writer (map entry_field es) w >>= λ w'. encode_message w' rest)
unfolding encode_message write_fields encode_entry
encode_message-append [] rest w ls = refl
encode_message-append (e ∷ es) rest w ls = rw (find_symbol-code ls.0.0) (
    >>=_assoc (write_bits_lsb w e.code e.length) _ _
    ∙ >>=_cong (write_bits_lsb w e.code e.length) (λ w'. encode_message-append es rest w' ls.1)
    ∙ sym (>>=_assoc (write_bits_lsb w e.code e.length) _ _))

pub narrow : (es : List CodeEntry) → All IsLetter es → All IsNarrow (map entry_field es)
narrow = All-map IsNarrow entry_field (λ e l. omega (arith, (code-IsNarrow l.0).narrow))

no_terminator : (es : List CodeEntry) → All IsLetter es → All (λ c. c ≢ 0) (map (λ e. e.symbol) es)
no_terminator = All-map (λ c. c ≢ 0) (λ e. e.symbol) (λ e l. l.1)

abbrev pub message_width : List CodeEntry → ℕ
message_width es = total_width (map entry_field es)

module _ (es : List CodeEntry) (ls : All IsLetter es) (wire : List ℕ) (size : ℕ)
    (held : size ≤ length wire) (addressable : size < 2 ^ 64) (bytes : All IsByte wire) where
  written_letters :
      message_width es ≤ 8 * size
      → Returns
          (write_fields lsb_writer (map entry_field es) (writer_init wire size))
          (Holds lsb_first size (message_bits es) (0 + message_width es))
  written_letters fits =
      Holds-write_fields lsb_writer (map entry_field es)
        (Holds-init lsb_first wire size held addressable bytes) (narrow es ls) (omega arith)

  -- `encode` of deflate_codes.c on letters of the table, over a wire of fewer than 2 ^ 64 bytes that has room
  -- for their code words, and then a character without a code: it returns 0 bytes.
  pub deflate_encode_unknown :
      (c : ℕ) (rest : List ℕ)
      → find_symbol code_table c ≡ none
      → message_width es ≤ 8 * size
      → Returns (encode (map (λ e. e.symbol) es ++ (c ∷ rest)) wire size) (λ p. p.0 ≡ 0)
  unfolding encode encode_message encode_entry
  deflate_encode_unknown c rest unknown fits =
      rw
        (
          encode_message-append es (c ∷ rest) (writer_init wire size) ls,
          >>=_assoc (write_fields lsb_writer (map entry_field es) (writer_init wire size)),
        )
        (>>=-Returns (written_letters fits) (λ w h. rw unknown (done-Returns _ refl)))

module _ (es : List CodeEntry) (ls : All IsLetter es) (wire : List ℕ) (size : ℕ)
    (held : size ≤ length wire) (small : size < 2 ^ 29) (bytes : All IsByte wire) where
  encoded :
      message_width es ≤ 8 * size
      → Returns
          (encode_message (writer_init wire size) (map (λ e. e.symbol) es))
          (λ p. (p.0 ≡ true) × Holds lsb_first size (message_bits es) (0 + message_width es) p.1)
  encoded fits =
      subst
        (λ m.
          Returns m
            (λ p. (p.0 ≡ true) × Holds lsb_first size (message_bits es) (0 + message_width es) p.1))
        (sym (encode_message-append es [] (writer_init wire size) ls)
          ∙ ap (encode_message (writer_init wire size)) (append-nil (map (λ e. e.symbol) es)))
        (>>=-Returns (written_letters es ls wire size held (omega arith) bytes fits)
          (λ w h. unfold encode_message in done-Returns _ (refl, h)))

  -- What the encoder returns shows the message's code words and the sentinel.
  encode-Shows :
      message_width es + 6 ≤ 8 * size
      → Returns (encode (map (λ e. e.symbol) es) wire size) (λ p.
        (w : Writer) × (p ≡ (writer_bytes_written w, w.buffer))
        × Shows lsb_first size (message_bits es ++ bits lsb_first 6 63) w)
  unfolding encode
  encode-Shows fits = >>=-Returns (encoded (omega arith)) (λ p a. rw a.0 (
      >>=-Returns (Holds-write a.1 lsb_writer 63 6 (omega arith) (omega arith)) (λ w h.
        >>=-Returns (flush-Shows lsb_writer h (omega arith))
          (λ w' b. simp b.clear (done-Returns _ (w', refl, b))))))

  -- The decoder finds the message in what the encoder wrote.
  decoded_text :
      (w : Writer) (decoded : List ℕ) (decoded_size : ℕ)
      → Shows lsb_first size (message_bits es ++ bits lsb_first 6 63) w
      → length decoded ≡ decoded_size
      → decoded_size < 2 ^ 64
      → length es < decoded_size
      → Returns
          (decode w.buffer (writer_bytes_written w) decoded decoded_size)
          (λ out. c_string out ≡ map (λ e. e.symbol) es)
  unfolding decode
  decoded_text w decoded decoded_size b room addressable short =
      >>=-Returns
        (decode_loop-IsText (sub64 decoded_size 1) es (sub64 decoded_size 1 + 1)
          (reader_init w.buffer (writer_bytes_written w)) decoded 0 b.rest ls (omega arith)
          (unfold reader_init in omega (arith, b.in_buffer))
          (record {
            is_reader = b.is_reader;
            room = omega arith;
            in_array = omega arith;
            fuelled = omega arith;
          })
          (b.shown ∙ append_assoc (message_bits es) (bits lsb_first 6 63) b.rest))
        (λ q t. IsText-Returns q t (omega arith) (no_terminator es ls))

  -- The program's `main` on any message of letters of the table, not empty, over a wire of
  -- fewer than 2 ^ 29 bytes that has room for their code words and the sentinel, an array of eight
  -- characters for the listing, and an array that has room for the message and the terminator: it
  -- returns, the decoded text is the message, and the exit code is 0.
  pub deflate_run_lem :
      (bits_str decoded : List ℕ) (decoded_size : ℕ)
      → length bits_str ≡ 8
      → 0 < length es
      → length decoded ≡ decoded_size
      → decoded_size < 2 ^ 64
      → length es < decoded_size
      → message_width es + 6 ≤ 8 * size
      → Returns
          (run (map (λ e. e.symbol) es) bits_str wire size decoded decoded_size)
          (λ code. code ≡ 0)
  unfolding run
  deflate_run_lem bits_str decoded decoded_size eight nonempty room addressable short fits =
      rw (code_table_listed bits_str eight) (
        >>=-Returns (encode-Shows fits) (λ p a. rw a.1 (
          >>=-Returns
            (div64-Returns _ (length (map (λ (e : CodeEntry). e.symbol) es))
              (omega (arith, nonempty, length-map (λ (e : CodeEntry). e.symbol) es)))
            (λ ratio q.
              rw
                (hex_bytes_lem byte_hex a.0.buffer 0 (writer_bytes_written a.0)
                  (unfold reader_init in omega (arith, a.2.is_reader.storage)))
                (>>=-Returns (decoded_text a.0 decoded decoded_size a.2 room addressable short)
                  (λ out text.
                    rw (text, same_text_self (map (λ e. e.symbol) es)) (done-Returns 0 refl)))))))
