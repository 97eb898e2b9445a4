-- ===== src/Reader/Msb/Unchecked.antt =====
-- The MSB-first fast paths agree with the checked functions where their preconditions hold, and
-- `bs_reader_align` goes to a byte boundary.
use native.Mathlib.Decide.{dec_lt}
use bitstream_h.Base.{
  ℕ, zero, suc, ◌%◌, ◌≤◌, ◌<◌, ◌≡◌, arith, length, ◌>>=◌, le→ltb, not_lt→ltb, lt→ltb, suc==zero,
  sym, ◌∙◌, Outcome, done, undefined, aborted, stuck, Returns,
}
use mathlib.Core.Path.{subst}
use bitstream_h.Word.{sub32}
use bitstream_h.Reader.State.{
  IsRefilled, Peeks, IsReader, IsAt, Skips, remaining, length-remaining-mod, IsAt-self,
  IsRefilled_cached,
}
use bitstream_h.Reader.Msb.{
  refill, extract, read_bits, peek_bits, read_bits_unchecked, peek_bits_unchecked,
  skip_bits_unchecked, reader_align,
}
use bitstream_h.Reader.Msb.Read.{peek_bits-Peeks, dropped-IsAt}
use bitstream_h.BitString.{msb_first}
use bitstream_h.Stream
use bitstream_h.Reader.{Reader}
use bitstream_h.Reader.Msb.Refill.{refill-IsRefilled}

-- On a valid reader, with 1 to 32 bits asked for, and as many left, `bs_read_bits_unchecked` and
-- `bs_peek_bits_unchecked` are the checked functions, in their results and in the readers that
-- they leave.
pub unchecked-eq-checked :
    (r : Reader) (n : ℕ)
    → IsReader msb_first r
    → 0 < n
    → n ≤ 32
    → n ≤ length (remaining msb_first r)
    → (read_bits_unchecked r n ≡ read_bits r n) × (peek_bits_unchecked r n ≡ peek_bits r n)
unfolding read_bits_unchecked read_bits peek_bits_unchecked peek_bits
unchecked-eq-checked r zero v pos small enough = absurd (omega arith)
unchecked-eq-checked r (suc n) v pos small enough =
    let f = refill-IsRefilled r v in
    let cached = IsRefilled_cached msb_first r f.result f.holds (suc n) (omega arith) enough in
    (
      rw (suc==zero, f.returns, ◌>>=◌, le→ltb _ _ cached),
      rw (suc==zero, f.returns, ◌>>=◌, le→ltb _ _ cached),
    )

-- On a valid reader `bs_skip_bits_unchecked` steps past `n` bits that are cached.
pub skip_bits_unchecked-Skips :
    (r : Reader) (n : ℕ)
    → IsReader msb_first r
    → n ≤ r.bits_in_cache
    → Skips msb_first n r (skip_bits_unchecked r n)
unfolding skip_bits_unchecked Stream.skip
skip_bits_unchecked-Skips r n v h = dropped-IsAt r v n h

-- On a valid reader `bs_reader_align` gives up the rest of the byte that the stream is in, and
-- nothing at a boundary.
pub reader_align-IsAt :
    (r : Reader)
    → IsReader msb_first r
    → IsAt msb_first r (reader_align r) (Stream.align (remaining msb_first r))
unfolding reader_align Stream.align
reader_align-IsAt r v = elim (dec_lt 0 (r.bits_in_cache % 8)) [
  | yes partial ↦ rw (lt→ltb _ _ partial, rest) (dropped-IsAt r v _ (omega arith))
  | no whole ↦
      let zero_rest : r.bits_in_cache % 8 ≡ 0 = omega arith in
      rw (not_lt→ltb _ _ whole, rest) (rw zero_rest (IsAt-self msb_first r v))
]
  where
    rest : length (remaining msb_first r) % 8 ≡ r.bits_in_cache % 8
    rest = length-remaining-mod msb_first r v

-- The reader that stands second in a result does not depend on the first.
second_lem :
    (m : Outcome ℕ) (s : Reader) (q : ℕ × Reader) → (m >>= λ x. done (x, s)) ≡ done q → q.1 ≡ s
second_lem (done x) s q e = cc
second_lem undefined s q e = absurd cc
second_lem aborted s q e = absurd cc
second_lem stuck s q e = absurd cc

-- An unchecked peek of what is left also caches it.
pub peek_bits_unchecked-Peeks :
    (r : Reader) (n : ℕ)
    → IsReader msb_first r
    → 0 < n
    → n ≤ 32
    → n ≤ length (remaining msb_first r)
    → Returns (peek_bits_unchecked r n) (λ p. Peeks msb_first n r p × (n ≤ p.1.bits_in_cache))
unfolding peek_bits_unchecked
peek_bits_unchecked-Peeks r n v pos small enough = record {
  result = q.result;
  returns = equal ∙ q.returns;
  holds = (q.holds, subst (λ (s : Reader). n ≤ s.bits_in_cache) (sym same) cached);
}
  where
    f : Returns (refill r) (IsRefilled msb_first r)
    f = refill-IsRefilled r v

    cached : n ≤ f.result.bits_in_cache
    cached = IsRefilled_cached msb_first r f.result f.holds n (omega arith) enough

    q : Returns (peek_bits r n) (Peeks msb_first n r)
    q = peek_bits-Peeks r n v small

    equal : peek_bits_unchecked r n ≡ peek_bits r n
    equal = (unchecked-eq-checked r n v pos small enough).1

    same : q.result.1 ≡ f.result
    same =
        second_lem (extract f.result.bit_cache (sub32 f.result.bits_in_cache n) n) f.result q.result
          (rw f.returns at (equal ∙ q.returns))
