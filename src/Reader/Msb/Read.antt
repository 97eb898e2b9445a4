-- ===== src/Reader/Msb/Read.antt =====
-- The MSB-first reads, peeks and skips do to the stream what `Stream` says.
use native.Mathlib.Decide.{dec_lt}
use native.Mathlib.Nat.{mod-eq_of_lt, mod-lt}
use bitstream_h.Base.{
  ℕ, zero, suc, ◌+◌, ◌-◌, ◌/◌, ◌%◌, ◌^◌, ◌≤◌, ◌<◌, ◌≡◌, refl, sym, ap, ◌∙◌, arith, Bool, List, take,
  drop, done, ◌>>=◌, lt→ltb, not_lt→ltb, suc==zero, Returns, done-Returns, >>=-Returns,
}
use bitstream_h.Word.{sub32}
use bitstream_h.Word.Laws.{shr64_lem, mask64_lem, bit_and_mask, one-le-two_pow}
use bitstream_h.BitString.{msb_first, bits, value}
use bitstream_h.BitString.Laws.{length-bits, bits-msb_add, value-bits}
use bitstream_h.BitString.Cache.{lt_two_pow_mono}
use bitstream_h.Stream
use bitstream_h.Reader.{Reader}
use bitstream_h.Reader.State.{
  IsReader, IsRefilled, IsAt, Reads, remaining, IsRefilled-IsAt, IsRefilled_enough,
  IsRefilled_short, Reads-short, Reads-enough, Reads-zero, Peeks, Reads-Peeks, Skips, Skips-short,
  Skips-enough, IsAt-self, IsRefilled_here,
}
use bitstream_h.Reader.Moves.{Cut, take-remaining, Cut-IsAt}
use bitstream_h.Reader.Msb.{extract, read_bits, peek_bits, skip_bits}
use bitstream_h.Reader.Msb.Refill.{refill-IsRefilled}

-- The `n` bits of the cache above its lowest `left`.
extract_lem :
    (cache left n : ℕ) → left < 64 → n ≤ 32 → extract cache left n ≡ done (cache / 2 ^ left % 2 ^ n)
unfolding extract
extract_lem cache left n hl hn =
    rw (mask64_lem n (omega arith), shr64_lem cache left hl, bit_and_mask)
      (ap done (mod-eq_of_lt (lt_two_pow_mono n 32 _ (mod-lt _ (one-le-two_pow n)) hn)))

module _ (r : Reader) (v : IsReader msb_first r) (n : ℕ) (h : n ≤ r.bits_in_cache) where
  abbrev front : List Bool
  front = bits msb_first n (r.bit_cache / 2 ^ (r.bits_in_cache - n))

  front-Cut : Cut msb_first r n r.bit_cache front
  front-Cut = record {
    cached = h;
    long = length-bits msb_first n _;
    cut =
        ap (λ (k : ℕ). bits msb_first k r.bit_cache) {x = r.bits_in_cache}
          {y = n + (r.bits_in_cache - n)} (omega arith)
        ∙ bits-msb_add n (r.bits_in_cache - n) r.bit_cache;
    clean = tt;
  }

  left_lem : sub32 r.bits_in_cache n ≡ r.bits_in_cache - n
  left_lem = omega (arith, v.in_word)

  pub extract-remaining :
      n ≤ 32
      → 0 < n
      → extract r.bit_cache (sub32 r.bits_in_cache n) n
        ≡ done (value msb_first (take n (remaining msb_first r)))
  extract-remaining small pos =
      rw
        (left_lem, extract_lem r.bit_cache (r.bits_in_cache - n) n (omega (arith, v.in_word)) small)
        (ap done (
          sym (
            ap (value msb_first) (take-remaining msb_first r v n r.bit_cache front front-Cut)
            ∙ value-bits msb_first n _)))

  pub dropped-IsAt :
      IsAt msb_first r
        (record r { bits_in_cache = sub32 r.bits_in_cache n })
        (drop n (remaining msb_first r))
  dropped-IsAt = rw left_lem (Cut-IsAt msb_first r v n r.bit_cache front front-Cut)

emptied-IsAt :
    (r : Reader)
    → IsReader msb_first r
    → IsAt msb_first r
        (record r { bits_in_cache = 0 })
        (drop r.bits_in_cache (remaining msb_first r))
emptied-IsAt r v =
    let none : sub32 r.bits_in_cache r.bits_in_cache ≡ 0 = omega (arith, v.in_word) in
    rw none at (dropped-IsAt r v r.bits_in_cache (omega arith))

module _ (r r' : Reader) (n : ℕ) (f : IsRefilled msb_first r r') (small : n ≤ 32) where
  -- Reading the front of the refilled cache is reading the stream.
  after_refill :
      n ≤ r'.bits_in_cache
      → {s : Reader} → IsAt msb_first r' s (drop n (remaining msb_first r'))
      → Reads msb_first n r (value msb_first (take n (remaining msb_first r')), s)
  after_refill cached a =
      Reads-enough msb_first n r _ (IsRefilled_enough msb_first r r' f n cached)
        (ap (λ t. value msb_first (take n t)) f.same_remaining)
        (IsRefilled-IsAt f (rw (← f.same_remaining) a))

  after_refill_short : r'.bits_in_cache < n → Reads msb_first n r (0, r')
  after_refill_short short =
      Reads-short msb_first n r (0, r') (IsRefilled_short msb_first r r' f n (omega arith) short)
        refl (IsRefilled_here msb_first r r' f)

-- On a valid reader, with `n` at most 32, `bs_read_bits` returns, and gives the number in the
-- next `n` bits of the stream and steps past them, or gives 0 and stays where fewer are left.
pub read_bits-Reads :
    (r : Reader) (n : ℕ)
    → IsReader msb_first r
    → n ≤ 32
    → Returns (read_bits r n) (Reads msb_first n r)
unfolding read_bits
read_bits-Reads r zero v small = done-Returns (0, r) (Reads-zero msb_first r v)
read_bits-Reads r (suc n) v small = rw suc==zero (
    >>=-Returns (refill-IsRefilled r v) (λ r' f. elim (dec_lt r'.bits_in_cache (suc n)) [
      | yes short ↦
          rw (lt→ltb _ _ short)
            (done-Returns (0, r') (after_refill_short r r' (suc n) f small short))
      | no cached ↦
          rw
            (
              not_lt→ltb _ _ cached,
              extract-remaining r' f.is_reader (suc n) (omega arith) small (omega arith),
              ◌>>=◌,
            )
            (done-Returns _ (
              after_refill r r' (suc n) f small (omega arith)
                (dropped-IsAt r' f.is_reader (suc n) (omega arith))))
    ]))

-- On a valid reader, with `n` at most 32, `bs_peek_bits` returns the number in the next `n` bits,
-- or 0 where fewer are left, and takes nothing.
pub peek_bits-Peeks :
    (r : Reader) (n : ℕ)
    → IsReader msb_first r
    → n ≤ 32
    → Returns (peek_bits r n) (Peeks msb_first n r)
unfolding peek_bits
peek_bits-Peeks r zero v small =
    done-Returns (0, r) (Reads-Peeks _ 0 r r r (Reads-zero msb_first r v) (IsAt-self msb_first r v))
peek_bits-Peeks r (suc n) v small = rw suc==zero (
    >>=-Returns (refill-IsRefilled r v) (λ r' f. elim (dec_lt r'.bits_in_cache (suc n)) [
      | yes short ↦ rw (lt→ltb _ _ short) (
          done-Returns (0, r')
            (Reads-Peeks _ (suc n) r r' r' (after_refill_short r r' (suc n) f small short)
              (IsRefilled_here _ r r' f)))
      | no cached ↦
          rw
            (
              not_lt→ltb _ _ cached,
              extract-remaining r' f.is_reader (suc n) (omega arith) small (omega arith),
              ◌>>=◌,
            )
            (done-Returns _ (
              Reads-Peeks _ (suc n) r _ r'
                (after_refill r r' (suc n) f small (omega arith)
                  (dropped-IsAt r' f.is_reader (suc n) (omega arith)))
                (IsRefilled_here _ r r' f)))
    ]))

-- On a valid reader, with `n` at most 32, `bs_skip_bits` returns, `n` bits further or at the end
-- of the stream.
pub skip_bits-Skips :
    (r : Reader) (n : ℕ)
    → IsReader msb_first r
    → n ≤ 32
    → Returns (skip_bits r n) (Skips msb_first n r)
unfolding skip_bits
skip_bits-Skips r zero v small = done-Returns r (unfold Stream.skip in IsAt-self msb_first r v)
skip_bits-Skips r (suc n) v small = rw suc==zero (
    >>=-Returns (refill-IsRefilled r v) (λ r' f. elim (dec_lt r'.bits_in_cache (suc n)) [
      | yes short ↦ rw (lt→ltb _ _ short) (
          done-Returns _
            (Skips-short _ r r' _ (suc n) f short (omega arith) (emptied-IsAt r' f.is_reader)))
      | no cached ↦ rw (not_lt→ltb _ _ cached) (
          done-Returns _
            (Skips-enough _ r r' _ (suc n) f (dropped-IsAt r' f.is_reader (suc n) (omega arith))))
    ]))
