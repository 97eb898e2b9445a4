-- ===== src/Reader/Lsb/Unchecked.antt =====
-- The LSB-first fast paths agree with the checked functions where their preconditions hold, and
-- `bs_reader_align_lsb` goes to a byte boundary.
use native.Mathlib.Decide.{dec_lt}
use bitstream_h.Base.{
  ℕ, zero, suc, ◌%◌, ◌≤◌, ◌<◌, ◌≡◌, arith, length, ◌>>=◌, le→ltb, not_lt→ltb, lt→ltb, suc==zero,
  Returns, done-Returns,
}
use bitstream_h.Word.Laws.{shr64_lem}
use bitstream_h.BitString.{lsb_first}
use bitstream_h.Stream
use bitstream_h.Reader.{Reader}
use bitstream_h.Reader.State.{
  IsReader, IsAt, Skips, remaining, length-remaining-mod, IsAt-self, IsRefilled_cached,
}
use bitstream_h.Reader.Lsb.{
  read_bits_lsb, peek_bits_lsb, read_bits_lsb_unchecked, peek_bits_lsb_unchecked,
  skip_bits_lsb_unchecked, reader_align_lsb,
}
use bitstream_h.Reader.Lsb.Refill.{refill_lsb-IsRefilled}
use bitstream_h.Reader.Lsb.Read.{dropped-IsAt}

-- On a valid reader, with 1 to 32 bits asked for, and as many left, `bs_read_bits_lsb_unchecked` and
-- `bs_peek_bits_lsb_unchecked` are the checked functions, in their results and in the readers that
-- they leave.
pub lsb_unchecked-eq-checked :
    (r : Reader) (n : ℕ)
    → IsReader lsb_first r
    → 0 < n
    → n ≤ 32
    → n ≤ length (remaining lsb_first r)
    → (read_bits_lsb_unchecked r n ≡ read_bits_lsb r n)
      × (peek_bits_lsb_unchecked r n ≡ peek_bits_lsb r n)
unfolding read_bits_lsb_unchecked read_bits_lsb peek_bits_lsb_unchecked peek_bits_lsb
lsb_unchecked-eq-checked r zero v pos small enough = absurd (omega arith)
lsb_unchecked-eq-checked r (suc n) v pos small enough =
    let f = refill_lsb-IsRefilled r v in
    let cached = IsRefilled_cached lsb_first r f.result f.holds (suc n) (omega arith) enough in
    (
      rw (suc==zero, f.returns, ◌>>=◌, le→ltb _ _ cached),
      rw (suc==zero, f.returns, ◌>>=◌, le→ltb _ _ cached),
    )

-- On a valid reader `bs_skip_bits_lsb_unchecked` steps past `n` bits, fewer than 64, that are cached.
pub skip_bits_lsb_unchecked-Skips :
    (r : Reader) (n : ℕ)
    → IsReader lsb_first r
    → n ≤ r.bits_in_cache
    → n < 64
    → Returns (skip_bits_lsb_unchecked r n) (Skips lsb_first n r)
unfolding skip_bits_lsb_unchecked Stream.skip
skip_bits_lsb_unchecked-Skips r n v h small =
    rw (shr64_lem r.bit_cache n small) (done-Returns _ (dropped-IsAt r v n h))

-- On a valid reader `bs_reader_align_lsb` gives up the rest of the byte that the stream is in, and
-- nothing at a boundary.
pub reader_align_lsb-IsAt :
    (r : Reader)
    → IsReader lsb_first r
    → Returns
        (reader_align_lsb r)
        (λ r'. IsAt lsb_first r r' (Stream.align (remaining lsb_first r)))
unfolding reader_align_lsb Stream.align
reader_align_lsb-IsAt r v = elim (dec_lt 0 (r.bits_in_cache % 8)) [
  | yes partial ↦
      rw
        (lt→ltb _ _ partial, rest, shr64_lem r.bit_cache (r.bits_in_cache % 8) (omega arith), ◌>>=◌)
        (done-Returns _ (dropped-IsAt r v _ (omega arith)))
  | no whole ↦
      let zero_rest : r.bits_in_cache % 8 ≡ 0 = omega arith in
      rw (not_lt→ltb _ _ whole, rest) (done-Returns r (rw zero_rest (IsAt-self lsb_first r v)))
]
  where
    rest : length (remaining lsb_first r) % 8 ≡ r.bits_in_cache % 8
    rest = length-remaining-mod lsb_first r v
