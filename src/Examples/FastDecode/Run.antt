-- ===== src/Examples/FastDecode/Run.antt =====
-- The program's round trip with both decoders.
use bitstream_h.Base.{
  All-map, ℕ, ◌+◌, ◌*◌, ◌^◌, ◌≤◌, ◌<◌, ◌≡◌, ◌≢◌, refl, arith, ◌∙◌, append_assoc, List, ◌++◌, map,
  All, length, c_string, Outcome, Returns, done-Returns, >>=-Returns, same_text_self, length-map,
}
use bitstream_h.Word.{sub64}
use bitstream_h.Word.Bounds.{div64-Returns}
use bitstream_h.BitString.{msb_first, bits}
use bitstream_h.BitString.Bytes.{IsByte}
use bitstream_h.Reader.{Reader, reader_init}
use bitstream_h.Reader.State.{IsReader, remaining}
use bitstream_h.Writer.{Writer, writer_bytes_written}
use bitstream_h.RoundTrip.Packed.{Shows}
use bitstream_h.Examples.Hex.{print_hex_lem}
use bitstream_h.Examples.Text.{IsText-Returns}
use bitstream_h.Examples.FastDecode.{
  HuffEntry, decode, look_safe, pass_safe, look_fast, pass_fast, run,
}
use bitstream_h.Examples.FastDecode.Table.{
  IsLetter, letter_e, letter_t, letter_a, space, letter_h, letter_r,
}
use bitstream_h.Examples.FastDecode.Message.{message_bits}
use bitstream_h.Examples.FastDecode.Encode.{message_width, encode-Shows}
use bitstream_h.Examples.FastDecode.Loop.{Sees, decode_loop-IsText}
use bitstream_h.Examples.FastDecode.Looks.{safe-Sees, fast-Sees}

no_terminator : (e : HuffEntry) → IsLetter e → e.symbol ≢ 0
no_terminator _ letter_e = omega arith
no_terminator _ letter_t = omega arith
no_terminator _ letter_a = omega arith
no_terminator _ space = omega arith
no_terminator _ letter_h = omega arith
no_terminator _ letter_r = omega arith

no_terminators : (es : List HuffEntry) → All IsLetter es → All (λ c. c ≢ 0) (map (λ e. e.symbol) es)
no_terminators = All-map (λ c. c ≢ 0) (λ e. e.symbol) no_terminator

module _ (es : List HuffEntry) (ls : All IsLetter es) (wire : List ℕ) (size : ℕ)
    (held : size ≤ length wire) (small : size < 2 ^ 61) (bytes : All IsByte wire)
    (fits : message_width es + 6 ≤ 8 * size) where
  -- A decoder whose looks serve six bits or more finds the message.
  decoded_text :
      (look : Reader → Outcome (ℕ × Reader)) (pass : Reader → ℕ → Outcome Reader)
      → ((br : Reader)
          → IsReader msb_first br
          → br.size < 2 ^ 61
          → 6 ≤ length (remaining msb_first br)
          → Sees look pass br)
      → (w : Writer) (out : List ℕ) (out_size : ℕ)
      → Shows msb_first size (message_bits es ++ bits msb_first 6 63) w
      → length out ≡ out_size
      → out_size < 2 ^ 64
      → length es < out_size
      → Returns
          (decode look pass w.buffer (writer_bytes_written w) out out_size)
          (λ out'. c_string out' ≡ map (λ e. e.symbol) es)
  unfolding decode
  decoded_text look pass sees w out out_size b room addressable short =
      >>=-Returns
        (decode_loop-IsText look pass (sub64 out_size 1) sees es (sub64 out_size 1 + 1)
          (reader_init w.buffer (writer_bytes_written w)) out 0 b.rest ls (omega arith)
          (record {
            is_reader = b.is_reader;
            small = unfold reader_init in omega (arith, b.in_buffer);
            room = omega arith;
            in_array = omega arith;
            fuelled = omega arith;
          })
          (b.shown ∙ append_assoc (message_bits es) (bits msb_first 6 63) b.rest))
        (λ p t. IsText-Returns p t (omega arith) (no_terminators es ls))

  -- The program's `main` for any message of the table's letters, not empty, whose code words and
  -- sentinel fit a wire of fewer than 2 ^ 61 bytes, with arrays that have room for the message and the
  -- terminator: it returns 0, so neither decoder runs past the stream or its array, no assertion
  -- fails, and both texts are the message.
  pub fast_decode_run_lem :
      (decoded_safe : List ℕ) (safe_size : ℕ) (decoded_fast : List ℕ) (fast_size : ℕ)
      → 0 < length es
      → length decoded_safe ≡ safe_size
      → safe_size < 2 ^ 64
      → length es < safe_size
      → length decoded_fast ≡ fast_size
      → fast_size < 2 ^ 64
      → length es < fast_size
      → Returns
          (run (map (λ e. e.symbol) es) wire size decoded_safe safe_size decoded_fast fast_size)
          (λ code. code ≡ 0)
  unfolding run
  fast_decode_run_lem ds sn df fn nonempty room addressable short room' addressable' short' =
      >>=-Returns (encode-Shows es ls wire size held (omega arith) bytes fits) (λ p a.
        rw
          (
            a.1,
            print_hex_lem _ a.0.buffer (writer_bytes_written a.0)
                (unfold reader_init in a.2.is_reader.storage),
          )
          (>>=-Returns
            (div64-Returns _ (length (map (λ (e : HuffEntry). e.symbol) es))
              (omega (arith, nonempty, length-map (λ (e : HuffEntry). e.symbol) es)))
            (λ ratio q.
              >>=-Returns
                (decoded_text look_safe pass_safe (λ br v n enough. safe-Sees br v) a.0 ds sn a.2
                  room addressable short)
                (λ safe s.
                  >>=-Returns
                    (decoded_text look_fast pass_fast fast-Sees a.0 df fn a.2 room' addressable'
                      short')
                    (λ fast f.
                      rw (s, f, same_text_self (map (λ e. e.symbol) es)) (done-Returns 0 refl))))))
