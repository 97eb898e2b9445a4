-- ===== src/Examples/FastDecode/Encode.antt =====
-- What the encoder writes.
use bitstream_h.Base.{
  ℕ, ◌+◌, ◌*◌, ◌^◌, ◌≤◌, ◌<◌, ◌≡◌, refl, sym, ◌∙◌, arith, append_assoc, Bool, some, List, [], ◌∷◌,
  ◌++◌, map, All, length, append-nil, Returns, done-Returns, >>=-Returns, Returns_mono,
}
use bitstream_h.BitString.{msb_first, bits}
use bitstream_h.BitString.Bytes.{IsByte}
use bitstream_h.Writer.{Writer, writer_init, writer_bytes_written}
use bitstream_h.Writer.Interface.{msb_writer}
use bitstream_h.Writer.Contents.{Holds, Holds-init, Holds-write}
use bitstream_h.RoundTrip.{fields_bits, total_width}
use bitstream_h.RoundTrip.Packed.{Shows, flush-Shows}
use bitstream_h.Examples.FastDecode.{HuffEntry, huff_find, find_in, encode_symbols, huffman_encode}
use bitstream_h.Examples.FastDecode.Table.{IsLetter, sentinel, huff_find-symbol}
use bitstream_h.Examples.FastDecode.Message.{entry_field, message_bits, bits-narrow}

-- The length of a message's code words in bits.
abbrev pub message_width : List HuffEntry → ℕ
message_width es = total_width (map entry_field es)

encode_symbols-Holds :
    (es : List HuffEntry) {size : ℕ} {s : List Bool} {k : ℕ} (w : Writer)
    → All IsLetter es
    → Holds msb_first size s k w
    → k + message_width es ≤ 8 * size
    → Returns (encode_symbols w (map (λ e. e.symbol) es)) (λ w'.
      (t : List Bool) × (n : ℕ) × (t ≡ s ++ message_bits es)
      × (n ≡ k + message_width es)
      × Holds msb_first size t n w')
unfolding encode_symbols fields_bits total_width
encode_symbols-Holds [] {s = s} {k = k} w ls h fits =
    done-Returns w (s, k, sym (append-nil s), omega arith, h)
encode_symbols-Holds (e ∷ es) {s = s} {k = k} w ls h fits = rw (huff_find-symbol e ls.0) (
    >>=-Returns
      (Holds-write h msb_writer e.code e.bits (omega (arith, bits-narrow e ls.0)) (omega arith))
      (λ w' h'. Returns_mono (encode_symbols-Holds es w' ls.1 h' (omega arith)) (λ w'' q. (
        q.0,
        q.1,
        q.2 ∙ append_assoc s (bits msb_first e.bits e.code) (message_bits es),
        omega (arith, q.3),
        q.4,
      ))))

huff_find-sentinel : huff_find 0 ≡ some sentinel
unfolding huff_find find_in
huff_find-sentinel = refl

module _ (es : List HuffEntry) (ls : All IsLetter es) (out : List ℕ) (size : ℕ)
    (held : size ≤ length out) (addressable : size < 2 ^ 64) (bytes : All IsByte out)
    (fits : message_width es + 6 ≤ 8 * size) where
  -- What the encoder returns shows the message's code words and the sentinel.
  pub encode-Shows : Returns (huffman_encode (map (λ e. e.symbol) es) out size) (λ p.
      (w : Writer) × (p ≡ (writer_bytes_written w, w.buffer))
      × Shows msb_first size (message_bits es ++ bits msb_first 6 63) w)
  unfolding huffman_encode
  encode-Shows =
      >>=-Returns
        (encode_symbols-Holds es (writer_init out size) ls
          (Holds-init msb_first out size held addressable bytes) (omega arith))
        (λ w q. rw huff_find-sentinel (
          >>=-Returns (Holds-write q.4 msb_writer 63 6 (omega arith) (omega (arith, q.3))) (λ w' h.
            >>=-Returns (flush-Shows msb_writer (rw q.2 at h) (omega (arith, q.3)))
              (λ w'' b. simp b.clear (done-Returns _ (w'', refl, b))))))
