-- ===== src/Examples/DeflateCodes/Text.antt =====
-- The decoding loop on a stream that an encoder wrote finds the message.
use native.Mathlib.Decide.{dec_lt}
use bitstream_h.Base.{
  store-set, false, ℕ, zero, suc, ◌+◌, ◌-◌, ◌^◌, ◌≤◌, ◌<◌, ◌≡◌, ap, ◌∙◌, arith, append_assoc, Bool,
  List, [], ◌∷◌, ◌++◌, map, All, length, length-set, take, set, ltb, ◌==◌, lt→ltb, not_lt→ltb,
  le→ltb, ne→==, some, Returns, Returns_mono, done-Returns, >>=-Returns,
}
use bitstream_h.RoundTrip.Packed.{six_left}
use bitstream_h.Word.{u32}
use bitstream_h.BitString.{lsb_first, bits, value}
use bitstream_h.Stream
use bitstream_h.Reader.{Reader, reader_bits_left}
use bitstream_h.Reader.State.{IsReader, remaining, length-remaining}
use bitstream_h.Reader.Status.{reader_status}
use bitstream_h.Reader.Lsb.Read.{peek_bits_lsb-Peeks, skip_bits_lsb-Skips}
use bitstream_h.RoundTrip.{fields_bits}
use bitstream_h.Examples.Text.{IsText, IsText-nil, IsText-cons}
use bitstream_h.Examples.DeflateCodes.{CodeEntry, code_table, find_code, advance, decode_loop}
use bitstream_h.Examples.DeflateCodes.Table.{
  IsCode, IsLetter, sentinel, end_entry, code-IsNarrow, find_code-code,
}
use bitstream_h.Examples.DeflateCodes.Loop.{message_bits, entry_field, IsTurn}

-- With six bits left or more, and fewer than 2 ^ 32, the window has its full length.
full_window :
    (br : Reader)
    → IsReader lsb_first br
    → br.size < 2 ^ 29
    → 6 ≤ length (remaining lsb_first br)
    → (u32 (reader_bits_left br) == 0 ≡ false) × (ltb (u32 (reader_bits_left br)) 6 ≡ false)
full_window br v small h =
    (ne→== (u32 (reader_bits_left br)) 0 (omega (arith, exact)), le→ltb _ _ (omega (arith, exact)))
  where
    exact :
        (reader_bits_left br ≡ length (remaining lsb_first br))
        × (length (remaining lsb_first br) < 2 ^ 32)
    exact = (
      (reader_status lsb_first br v (omega arith)).0,
      omega (arith, length-remaining lsb_first br v),
    )

found :
    (br : Reader) (e : CodeEntry) (tail : List Bool)
    → IsCode e
    → 6 ≤ e.length + length tail
    → remaining lsb_first br ≡ bits lsb_first e.length e.code ++ tail
    → find_code (Stream.peek lsb_first 6 (remaining lsb_first br)) 6 code_table ≡ some e
found br e tail c enough front = find_code-code _ (value lsb_first (take (6 - e.length) tail)) c (
    ap (Stream.peek lsb_first 6) front
    ∙ Stream.peek_field_lsb 6 e.code e.length tail (code-IsNarrow c).narrow (code-IsNarrow c).fits
        enough)

-- On a stream of fewer than 2 ^ 29 bytes that starts with the code words of a message that fits the
-- array behind the text so far, and the sentinel, the loop appends the message to the text.
pub decode_loop-IsText :
    (limit : ℕ) (es : List CodeEntry) (fuel : ℕ) (br : Reader) (out : List ℕ) (idx : ℕ)
    (rest : List Bool)
    → All IsLetter es
    → length es + idx ≤ limit
    → br.size < 2 ^ 29
    → IsTurn limit fuel br out idx
    → remaining lsb_first br ≡ message_bits es ++ (bits lsb_first 6 63 ++ rest)
    → Returns
        (decode_loop limit fuel br out idx)
        (IsText limit out (take idx out) (map (λ e. e.symbol) es))
unfolding decode_loop advance fields_bits
decode_loop-IsText limit es zero br out idx rest ls h small t front =
    absurd (omega (arith, t.in_array, t.fuelled))
decode_loop-IsText limit [] (suc fuel) br out idx rest ls h small t front =
    elim (dec_lt idx limit) [
      | no full ↦ rw (not_lt→ltb _ _ full) (done-Returns _ stays)
      | yes below ↦
          rw (lt→ltb _ _ below, wide.0, wide.1)
            (>>=-Returns (peek_bits_lsb-Peeks br 6 t.is_reader (omega arith)) (λ p a.
              rw (a.0, found br end_entry rest sentinel (omega arith) front)
                (>>=-Returns (skip_bits_lsb-Skips p.1 6 a.1.is_reader (omega arith))
                  (λ r b. done-Returns _ stays))))
    ]
  where
    wide : (u32 (reader_bits_left br) == 0 ≡ false) × (ltb (u32 (reader_bits_left br)) 6 ≡ false)
    wide = full_window br t.is_reader small (rw front (six_left lsb_first [] 63 rest))

    stays : IsText limit out (take idx out) [] (out, idx)
    stays = IsText-nil limit idx out t.in_array
decode_loop-IsText limit (e ∷ es) (suc fuel) br out idx rest ls h small t front =
    rw (lt→ltb idx limit (omega arith), wide.0, wide.1)
      (>>=-Returns (peek_bits_lsb-Peeks br 6 t.is_reader (omega arith)) (λ p a.
        rw
          (
            a.0,
            found br e tail ls.0.0 (omega (arith, six_left lsb_first (map entry_field es) 63 rest))
                first,
          )
          (>>=-Returns
            (skip_bits_lsb-Skips p.1 e.length a.1.is_reader
              (omega (arith, (code-IsNarrow ls.0.0).narrow)))
            (λ r b.
              rw (ne→== _ _ ls.0.1, store-set out idx e.symbol (omega (arith, t.room)))
                (Returns_mono
                  (decode_loop-IsText limit es fuel r (set out idx e.symbol) (idx + 1) rest ls.1
                    (omega arith) (omega (arith, b.same_size, a.1.same_size))
                    (record {
                      is_reader = b.is_reader;
                      room = omega (arith, length-set out idx e.symbol, t.room);
                      in_array = omega arith;
                      fuelled = omega (arith, t.fuelled);
                    })
                    (b.at
                      ∙ ap (Stream.skip e.length) (a.1.at ∙ first)
                      ∙ Stream.skip_field lsb_first e.length e.code tail))
                  (λ q c. IsText-cons (omega (arith, t.room)) c))))))
  where
    tail : List Bool
    tail = message_bits es ++ (bits lsb_first 6 63 ++ rest)

    first : remaining lsb_first br ≡ bits lsb_first e.length e.code ++ tail
    first = front ∙ append_assoc (bits lsb_first e.length e.code) (message_bits es) _

    wide : (u32 (reader_bits_left br) == 0 ≡ false) × (ltb (u32 (reader_bits_left br)) 6 ≡ false)
    wide =
        full_window br t.is_reader small
          (rw front (six_left lsb_first (map entry_field (e ∷ es)) 63 rest))
