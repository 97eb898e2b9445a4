-- ===== src/Examples/HuffmanDecode/Symbol.antt =====
-- One symbol decoded: what stands at the front of the stream, and what any stream gives.
use bitstream_h.Base.{
  ◌+◌, ◌-◌, ◌≤◌, ◌≡◌, refl, ap, ◌∙◌, arith, Bool, List, ◌++◌, length, take, Returns, Returns_mono,
  done-Returns, >>=-Returns, some,
}
use bitstream_h.BitString.{msb_first, bits, value}
use bitstream_h.BitString.Window.{value-take-lt}
use bitstream_h.Stream
use bitstream_h.Reader.{Reader}
use bitstream_h.Reader.State.{IsReader, IsAt, IsAt-trans, remaining}
use bitstream_h.Reader.Msb.Read.{peek_bits-Peeks, skip_bits-Skips}
use bitstream_h.Examples.HuffmanDecode.{
  HuffmanEntry, decode_symbol, decode_entry, find_code, codebook,
}
use bitstream_h.Examples.HuffmanDecode.Codebook.{
  IsCode, IsNarrow, code-IsNarrow, find_code-code, find_code_total,
}

-- The entry that was found: the decoder returns its symbol and steps past its code word.
entry_found :
    (br : Reader) (e : HuffmanEntry)
    → IsReader msb_first br
    → IsCode e
    → Returns (decode_entry br (some e)) (λ p.
      (p.0 ≡ e.symbol) × IsAt msb_first br p.1 (Stream.skip e.bits (remaining msb_first br)))
unfolding decode_entry
entry_found br e v c =
    >>=-Returns (skip_bits-Skips br e.bits v (omega (arith, code-IsNarrow c)))
      (λ r b. done-Returns _ (refl, b))

-- With a code word at the front of the stream and six bits in all, `decode_symbol` returns its symbol
-- and steps past it.
pub decode_symbol_lem :
    (br : Reader) (e : HuffmanEntry) (tail : List Bool)
    → IsReader msb_first br
    → IsCode e
    → 6 ≤ e.bits + length tail
    → remaining msb_first br ≡ bits msb_first e.bits e.code ++ tail
    → Returns (decode_symbol br) (λ p. (p.0 ≡ e.symbol) × IsAt msb_first br p.1 tail)
unfolding decode_symbol
decode_symbol_lem br e tail v c enough front =
    >>=-Returns (peek_bits-Peeks br 6 v (omega arith)) (λ p a.
      rw (a.0, found)
        (Returns_mono (entry_found p.1 e a.1.is_reader c) (λ q b. (
          b.0,
          IsAt-trans a.1
              (rw (a.1.at, front, Stream.skip_field msb_first e.bits e.code tail) at b.1),
        ))))
  where
    n : IsNarrow e
    n = code-IsNarrow c

    found : find_code codebook (Stream.peek msb_first 6 (remaining msb_first br)) ≡ some e
    found =
        find_code-code _ (value msb_first (take (6 - e.bits) tail)) c
          (ap (Stream.peek msb_first 6) front
            ∙ Stream.peek_field_msb 6 e.code e.bits tail n.narrow n.fits enough)
          (value-take-lt msb_first (6 - e.bits) tail (omega (arith, n.narrow)))

-- On any stream, whatever its bits, `decode_symbol` returns the symbol of an entry of the codebook and
-- steps past as many bits as its code has, or to the end: the search never fails.
pub decode_symbol_total :
    (br : Reader)
    → IsReader msb_first br
    → Returns (decode_symbol br) (λ p.
      (e : HuffmanEntry) × IsCode e
      × (p.0 ≡ e.symbol)
      × IsAt msb_first br p.1 (Stream.skip e.bits (remaining msb_first br)))
unfolding decode_symbol
decode_symbol_total br v = >>=-Returns (peek_bits-Peeks br 6 v (omega arith)) (λ p a.
    let m = find_code_total p.0 (rw a.0 (Stream.peek-lt msb_first 6 (remaining msb_first br))) in
    rw m.2 (
      Returns_mono (entry_found p.1 m.0 a.1.is_reader m.1)
        (λ q b. (m.0, m.1, b.0, IsAt-trans a.1 (rw a.1.at at b.1)))))
