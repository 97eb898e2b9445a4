-- ===== src/Examples/HuffmanDecode/Loop.antt =====
-- The decoding loop: it ends on every stream inside its array, and finds an encoded message.
use native.Mathlib.Decide.{dec_lt, ℕ_discrete}
use bitstream_h.Base.{
  store-set, false, ℕ, zero, suc, ◌+◌, ◌^◌, ◌≤◌, ◌<◌, ◌≡◌, ◌∙◌, arith, append_assoc, Bool, not,
  ◌&&◌, List, [], ◌∷◌, ◌++◌, map, All, length, length-set, take, set, ltb, lt→ltb, not_lt→ltb,
  ne→==, eq→==, Bool-cases, inl, inr, Returns, Returns_mono, done-Returns, >>=-Returns,
}
use bitstream_h.RoundTrip.Packed.{six_left}
use bitstream_h.BitString.{msb_first, bits}
use bitstream_h.Reader.{Reader, reader_eof}
use bitstream_h.Reader.State.{IsReader, remaining}
use bitstream_h.Reader.Status.{reader_status}
use bitstream_h.RoundTrip.{Field, fields_bits}
use bitstream_h.Examples.Text.{IsText, IsText-nil, IsText-cons}
use bitstream_h.Examples.HuffmanDecode.{HuffmanEntry, decode_loop}
use bitstream_h.Examples.HuffmanDecode.Codebook.{IsLetter, sentinel, end_entry}
use bitstream_h.Examples.HuffmanDecode.Symbol.{decode_symbol_lem, decode_symbol_total}

abbrev pub entry_field : HuffmanEntry → Field
entry_field e = (e.code, e.bits)

-- The bits of a message, without the sentinel.
abbrev pub message_bits : List HuffmanEntry → List Bool
message_bits es = fields_bits msb_first (map entry_field es)

-- The loop's state: the array has 256 characters, and the fuel covers the turns left.
pub record IsTurn (fuel : ℕ) (br : Reader) (decoded : List ℕ) (idx : ℕ) : Type 0 where
  pub is_reader : IsReader msb_first br
  pub room : length decoded ≡ 256
  pub in_array : idx ≤ 255
  pub fuelled : 255 < fuel + idx

-- From any valid reader, whatever its bits, an index of at most 255 in the array of 256 characters, and
-- more fuel than there are characters left, the loop returns, with at most 255 characters in the array.
pub huffman_loop_ends :
    (fuel : ℕ) (br : Reader) (decoded : List ℕ) (idx : ℕ)
    → IsTurn fuel br decoded idx
    → Returns (decode_loop fuel br decoded idx) (λ p. (p.1 ≤ 255) × (length p.0 ≡ 256))
unfolding decode_loop
huffman_loop_ends zero br decoded idx t = absurd (omega (arith, t.in_array, t.fuelled))
huffman_loop_ends (suc fuel) br decoded idx t =
    elim (Bool-cases (not (reader_eof br) && ltb idx 255)) [
      | inr stop ↦ rw stop (done-Returns _ (t.in_array, t.room))
      | inl more ↦ rw more (
          >>=-Returns (decode_symbol_total br t.is_reader) (λ p a. elim (ℕ_discrete p.0 0) [
            | yes end ↦ rw (eq→== _ _ end) (done-Returns _ (t.in_array, t.room))
            | no letter ↦
                let below : idx < 255 = ground (arith, more) in
                rw (ne→== _ _ letter, store-set decoded idx p.0 (omega (arith, t.room)))
                  (huffman_loop_ends fuel p.1 (set decoded idx p.0) (idx + 1) (record {
                    is_reader = a.3.is_reader;
                    room = length-set decoded idx p.0 ∙ t.room;
                    in_array = omega arith;
                    fuelled = omega (arith, t.fuelled);
                  }))
          ]))
    ]

not_eof :
    (br : Reader)
    → IsReader msb_first br
    → br.size < 2 ^ 61
    → 6 ≤ length (remaining msb_first br)
    → reader_eof br ≡ false
not_eof br v small h =
    (reader_status msb_first br v small).1 ∙ ne→== (length (remaining msb_first br)) 0 (omega arith)

-- On a stream that starts with the code words of a message of at most 255 characters that fit the
-- array behind the text so far, and the sentinel, the loop appends the message to the text.
pub decode_loop-IsText :
    (es : List HuffmanEntry) (fuel : ℕ) (br : Reader) (decoded : List ℕ) (idx : ℕ)
    (rest : List Bool)
    → All IsLetter es
    → length es + idx ≤ 255
    → br.size < 2 ^ 61
    → IsTurn fuel br decoded idx
    → remaining msb_first br ≡ message_bits es ++ (bits msb_first 6 63 ++ rest)
    → Returns
        (decode_loop fuel br decoded idx)
        (IsText 255 decoded (take idx decoded) (map (λ e. e.symbol) es))
unfolding decode_loop fields_bits
decode_loop-IsText es zero br decoded idx rest ls h small t front =
    absurd (omega (arith, t.in_array, t.fuelled))
decode_loop-IsText [] (suc fuel) br decoded idx rest ls h small t front =
    rw (not_eof br t.is_reader small (rw front (six_left msb_first [] 63 rest)))
      (elim (dec_lt idx 255) [
        | no full ↦ rw (not_lt→ltb _ _ full) (done-Returns _ stays)
        | yes more ↦ rw (lt→ltb _ _ more) (
            >>=-Returns
              (decode_symbol_lem br end_entry rest t.is_reader sentinel (omega arith) front)
              (λ p a. rw a.0 (done-Returns _ stays)))
      ])
  where
    stays : IsText 255 decoded (take idx decoded) [] (decoded, idx)
    stays = IsText-nil 255 idx decoded t.in_array
decode_loop-IsText (e ∷ es) (suc fuel) br decoded idx rest ls h small t front =
    rw
      (
        not_eof br t.is_reader small
            (rw front (six_left msb_first (map entry_field (e ∷ es)) 63 rest)),
        lt→ltb idx 255 (omega arith),
      )
      (>>=-Returns
        (decode_symbol_lem br e (message_bits es ++ (bits msb_first 6 63 ++ rest)) t.is_reader
          ls.0.0 (omega (arith, six_left msb_first (map entry_field es) 63 rest))
          (front ∙ append_assoc (bits msb_first e.bits e.code) (message_bits es) _))
        (λ p a.
          rw (a.0, ne→== _ _ ls.0.1, store-set decoded idx e.symbol (omega (arith, t.room)))
            (Returns_mono
              (decode_loop-IsText es fuel p.1 (set decoded idx e.symbol) (idx + 1) rest ls.1
                (omega arith) (omega (arith, a.1.same_size, small))
                (record {
                  is_reader = a.1.is_reader;
                  room = length-set decoded idx e.symbol ∙ t.room;
                  in_array = omega arith;
                  fuelled = omega (arith, t.fuelled);
                })
                a.1.at)
              (λ q b. IsText-cons (omega (arith, t.room)) b))))
