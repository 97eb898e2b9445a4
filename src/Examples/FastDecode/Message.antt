-- ===== src/Examples/FastDecode/Message.antt =====
-- The bits of a message, and what a decoder sees and leaves at a code word.
use bitstream_h.Base.{
  ◌-◌, ◌^◌, ◌≤◌, ◌<◌, ◌≡◌, refl, ap, ◌∙◌, arith, Bool, false, some, ◌==◌, List, ◌++◌, map, length,
  take,
}
use bitstream_h.BitString.{msb_first, bits, value}
use bitstream_h.BitString.Window.{value-take-lt}
use bitstream_h.Stream
use bitstream_h.Reader.{Reader}
use bitstream_h.Reader.State.{remaining}
use bitstream_h.RoundTrip.{Field, fields_bits}
use bitstream_h.Examples.FastDecode.{HuffEntry, huff_match}
use bitstream_h.Examples.FastDecode.Table.{
  IsLetter, letter_e, letter_t, letter_a, space, letter_h, letter_r, huff_match-code,
}

abbrev pub entry_field : HuffEntry → Field
entry_field e = (e.code, e.bits)

-- The bits of a message, without the sentinel.
abbrev pub message_bits : List HuffEntry → List Bool
message_bits es = fields_bits msb_first (map entry_field es)

-- A code word has one to six bits.
pub bits-narrow : (e : HuffEntry) → IsLetter e → (e.bits ≤ 6) × (e.code < 2 ^ e.bits)
bits-narrow _ letter_e = (omega arith, omega arith)
bits-narrow _ letter_t = (omega arith, omega arith)
bits-narrow _ letter_a = (omega arith, omega arith)
bits-narrow _ space = (omega arith, omega arith)
bits-narrow _ letter_h = (omega arith, omega arith)
bits-narrow _ letter_r = (omega arith, omega arith)

pub not_sentinel : (e : HuffEntry) → IsLetter e → (e.symbol == 0) ≡ false
not_sentinel _ letter_e = refl
not_sentinel _ letter_t = refl
not_sentinel _ letter_a = refl
not_sentinel _ space = refl
not_sentinel _ letter_h = refl
not_sentinel _ letter_r = refl

-- What follows the code word of `e` in the stream: at least six bits in all.
module _ (e : HuffEntry) (l : IsLetter e) (tail : List Bool) (enough : 6 ≤ length tail) where
  pub matched :
      (br : Reader)
      → remaining msb_first br ≡ bits msb_first e.bits e.code ++ tail
      → huff_match (Stream.peek msb_first 6 (remaining msb_first br)) ≡ some e
  matched br front =
      huff_match-code e _ (value msb_first (take (6 - e.bits) tail)) l
        (ap (Stream.peek msb_first 6) front
          ∙ Stream.peek_field_msb 6 e.code e.bits tail (bits-narrow e l).0 (bits-narrow e l).1
              (omega arith))
        (value-take-lt msb_first (6 - e.bits) tail (omega arith))

  pub skipped :
      (s : List Bool) → s ≡ bits msb_first e.bits e.code ++ tail → Stream.skip e.bits s ≡ tail
  skipped s front = ap (Stream.skip e.bits) front ∙ Stream.skip_field msb_first e.bits e.code tail

pub sentinel_window :
    (rest : List Bool) → Stream.peek msb_first 6 (bits msb_first 6 63 ++ rest) ≡ 63
unfolding Stream.peek
sentinel_window rest = ap (λ t. t.0) (Stream.read_field msb_first 6 63 rest) ∙ omega arith
