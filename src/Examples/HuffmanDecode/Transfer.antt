-- ===== src/Examples/HuffmanDecode/Transfer.antt =====
-- The program's round trip, and its answer to a character without a code.
use bitstream_h.Base.{
  ℕ, ◌+◌, ◌*◌, ◌^◌, ◌≤◌, ◌<◌, ◌≡◌, ◌≢◌, refl, sym, ap, ◌∙◌, arith, append_assoc, true, none, List,
  [], ◌∷◌, ◌++◌, map, All, length, done, ◌>>=◌, >>=_assoc, >>=_cong, Returns, done-Returns,
  >>=-Returns, All-map, same_text_self, append-nil,
}
use mathlib.Core.Path.{subst}
use bitstream_h.BitString.{msb_first, bits}
use bitstream_h.BitString.Bytes.{IsByte}
use bitstream_h.Reader.{reader_init}
use bitstream_h.Writer.{Writer, writer_init, writer_bytes_written}
use bitstream_h.Examples.Hex.{hex_byte, hex_bytes_lem}
use bitstream_h.Writer.Msb.{write_bits}
use bitstream_h.Writer.Interface.{msb_writer}
use bitstream_h.Writer.Contents.{Holds, Holds-init, Holds-write}
use bitstream_h.RoundTrip.{IsNarrow, write_fields, total_width}
use bitstream_h.RoundTrip.Packed.{Holds-write_fields, flush-Shows}
use bitstream_h.Examples.Text.{IsText-Returns}
use bitstream_h.Examples.HuffmanDecode.{
  HuffmanEntry, codebook, find_symbol, encode_symbol, encode_entry, encode_message, run,
}
use bitstream_h.Examples.HuffmanDecode.Codebook.{
  IsCode, IsLetter, sentinel, find_symbol-code, code-IsNarrow,
}
use bitstream_h.Examples.HuffmanDecode.Loop.{entry_field, message_bits, decode_loop-IsText}

encode_symbol-eq-write_bits :
    (w : Writer) {e : HuffmanEntry}
    → IsCode e
    → encode_symbol w e.symbol ≡ (write_bits w e.code e.bits >>= λ w'. done (true, w'))
unfolding encode_symbol encode_entry
encode_symbol-eq-write_bits w c = rw (find_symbol-code c) refl

-- The letters at the front of a message are encoded by their code words one after another.
encode_message-append :
    (es : List HuffmanEntry) (rest : List ℕ) (w : Writer)
    → All IsLetter es
    → encode_message w (map (λ e. e.symbol) es ++ rest)
      ≡ (write_fields msb_writer (map entry_field es) w >>= λ w'. encode_message w' rest)
unfolding encode_message write_fields
encode_message-append [] rest w ls = refl
encode_message-append (e ∷ es) rest w ls = rw (encode_symbol-eq-write_bits w ls.0.0) (
    >>=_assoc (write_bits w e.code e.bits) _ _
    ∙ >>=_cong (write_bits w e.code e.bits) (λ w'. encode_message-append es rest w' ls.1)
    ∙ sym (>>=_assoc (write_bits w e.code e.bits) _ _))

narrow : (es : List HuffmanEntry) → All IsLetter es → All IsNarrow (map entry_field es)
narrow = All-map IsNarrow entry_field (λ e l. omega (arith, (code-IsNarrow l.0).narrow))

no_terminator :
    (es : List HuffmanEntry) → All IsLetter es → All (λ c. c ≢ 0) (map (λ e. e.symbol) es)
no_terminator = All-map (λ c. c ≢ 0) (λ e. e.symbol) (λ e l. l.1)

abbrev pub message_width : List HuffmanEntry → ℕ
message_width es = total_width (map entry_field es)

module _ (es : List HuffmanEntry) (ls : All IsLetter es) (wire : List ℕ) (size : ℕ)
    (held : size ≤ length wire) (small : size < 2 ^ 61) (bytes : All IsByte wire) where
  written_letters :
      message_width es ≤ 8 * size
      → Returns
          (write_fields msb_writer (map entry_field es) (writer_init wire size))
          (Holds msb_first size (message_bits es) (0 + message_width es))
  written_letters fits =
      Holds-write_fields msb_writer (map entry_field es)
        (Holds-init msb_first wire size held (omega arith) bytes) (narrow es ls) (omega arith)

  encoded :
      message_width es ≤ 8 * size
      → Returns
          (encode_message (writer_init wire size) (map (λ e. e.symbol) es))
          (λ p. (p.0 ≡ true) × Holds msb_first size (message_bits es) (0 + message_width es) p.1)
  encoded fits =
      subst
        (λ m.
          Returns m
            (λ p. (p.0 ≡ true) × Holds msb_first size (message_bits es) (0 + message_width es) p.1))
        (sym (encode_message-append es [] (writer_init wire size) ls)
          ∙ ap (encode_message (writer_init wire size)) (append-nil (map (λ e. e.symbol) es)))
        (>>=-Returns (written_letters fits)
          (λ w h. unfold encode_message in done-Returns _ (refl, h)))

  -- The program's `main` on any message of at most 255 letters of the codebook, over a wire that has
  -- room for their code words and the sentinel, and an array `decoded` of 256 characters: it returns,
  -- the decoded text is the message, and the exit code is 0.
  pub huffman_run_lem :
      (decoded : List ℕ)
      → length decoded ≡ 256
      → length es ≤ 255
      → message_width es + 6 ≤ 8 * size
      → Returns (run (map (λ e. e.symbol) es) wire size decoded) (λ code. code ≡ 0)
  unfolding run
  huffman_run_lem decoded room short fits = >>=-Returns (encoded (omega arith)) (λ p a.
      rw (a.0, encode_symbol-eq-write_bits p.1 sentinel, >>=_assoc (write_bits p.1 63 6))
        (>>=-Returns (Holds-write a.1 msb_writer 63 6 (omega arith) (omega arith)) (λ w' h'.
          >>=-Returns (flush-Shows msb_writer h' (omega arith)) (λ w'' b.
            rw
              (hex_bytes_lem hex_byte w''.buffer 0 (writer_bytes_written w'')
                (unfold reader_init in omega (arith, b.is_reader.storage)))
              (>>=-Returns
                (decode_loop-IsText es 256 (reader_init w''.buffer (writer_bytes_written w''))
                  decoded 0 b.rest ls (omega arith)
                  (unfold reader_init in omega (arith, b.in_buffer))
                  (record {
                    is_reader = b.is_reader;
                    room = room;
                    in_array = omega arith;
                    fuelled = omega arith;
                  })
                  (b.shown ∙ append_assoc (message_bits es) (bits msb_first 6 63) b.rest))
                (λ q t.
                  >>=-Returns (IsText-Returns q t (omega (arith, room)) (no_terminator es ls))
                    (λ out text.
                      rw (text, same_text_self (map (λ e. e.symbol) es))
                        (done-Returns 0 refl))))))))

  -- A message that has a character without a code behind such letters: `main` returns 1.
  pub huffman_run_unknown :
      (decoded : List ℕ) (c : ℕ) (rest : List ℕ)
      → find_symbol codebook c ≡ none
      → message_width es ≤ 8 * size
      → Returns (run (map (λ e. e.symbol) es ++ (c ∷ rest)) wire size decoded) (λ code. code ≡ 1)
  unfolding run encode_message encode_symbol encode_entry
  huffman_run_unknown decoded c rest unknown fits =
      rw
        (
          encode_message-append es (c ∷ rest) (writer_init wire size) ls,
          >>=_assoc (write_fields msb_writer (map entry_field es) (writer_init wire size)),
        )
        (>>=-Returns (written_letters fits) (λ w h. rw unknown (done-Returns 1 refl)))
