-- ===== src/Reader/Lsb/Read.antt =====
-- The LSB-first reads, peeks and skips do to the stream what `Stream` says.
use native.Mathlib.Decide.{dec_lt}
use native.Mathlib.Nat.{div-eq_of_lt, mod-eq_of_lt, mod-lt}
use bitstream_h.Base.{
  ℕ, zero, suc, ◌+◌, ◌-◌, ◌/◌, ◌%◌, ◌^◌, ◌≤◌, ◌<◌, ◌≡◌, refl, sym, ap, ◌∙◌, arith, Bool, List, take,
  drop, done, ◌>>=◌, lt→ltb, not_lt→ltb, suc==zero, Returns, done-Returns, >>=-Returns,
}
use bitstream_h.Word.{sub32}
use bitstream_h.Word.Laws.{shr64_lem, mask64_lem, bit_and_mask, one-le-two_pow}
use bitstream_h.BitString.{lsb_first, bits, value}
use bitstream_h.BitString.Laws.{length-bits, bits-lsb_add, value-bits}
use bitstream_h.BitString.Cache.{pull_lsb-lt, lt_two_pow_mono}
use bitstream_h.Stream
use bitstream_h.Reader.{Reader}
use bitstream_h.Reader.State.{
  IsReader, IsRefilled, IsAt, Reads, remaining, IsRefilled-IsAt, IsRefilled_enough,
  IsRefilled_short, Reads-short, Reads-enough, Reads-zero, Peeks, Reads-Peeks, Skips, Skips-short,
  Skips-enough, IsAt-self, IsRefilled_here,
}
use bitstream_h.Reader.Moves.{Cut, take-remaining, Cut-IsAt}
use bitstream_h.Reader.Lsb.{extract_low, read_bits_lsb, peek_bits_lsb, skip_bits_lsb}
use bitstream_h.Reader.Lsb.Refill.{refill_lsb-IsRefilled}

-- The lowest `n` bits of the cache.
extract_low_lem : (cache n : ℕ) → n ≤ 32 → extract_low cache n ≡ done (cache % 2 ^ n)
unfolding extract_low
extract_low_lem cache n hn =
    rw (mask64_lem n (omega arith), bit_and_mask)
      (ap done (mod-eq_of_lt (lt_two_pow_mono n 32 _ (mod-lt _ (one-le-two_pow n)) hn)))

module _ (r : Reader) (v : IsReader lsb_first r) (n : ℕ) (h : n ≤ r.bits_in_cache) where
  abbrev front : List Bool
  front = bits lsb_first n r.bit_cache

  front-Cut : Cut lsb_first r n (r.bit_cache / 2 ^ n) front
  front-Cut = record {
    cached = h;
    long = length-bits lsb_first n _;
    cut =
        ap (λ (k : ℕ). bits lsb_first k r.bit_cache) whole
        ∙ bits-lsb_add n (r.bits_in_cache - n) r.bit_cache;
    clean = pull_lsb-lt n (r.bits_in_cache - n) r.bit_cache (rw (← whole) v.clean);
  }
    where
      whole : r.bits_in_cache ≡ n + (r.bits_in_cache - n)
      whole = omega arith

  left_lem : sub32 r.bits_in_cache n ≡ r.bits_in_cache - n
  left_lem = omega (arith, v.in_word)

  pub extract-remaining :
      n ≤ 32 → extract_low r.bit_cache n ≡ done (value lsb_first (take n (remaining lsb_first r)))
  extract-remaining small = rw (extract_low_lem r.bit_cache n small) (
      ap done (
        sym (
          ap (value lsb_first)
            (take-remaining lsb_first r v n (r.bit_cache / 2 ^ n) front front-Cut)
          ∙ value-bits lsb_first n _)))

  pub dropped-IsAt :
      IsAt lsb_first r
        (record r { bit_cache = r.bit_cache / 2 ^ n; bits_in_cache = sub32 r.bits_in_cache n })
        (drop n (remaining lsb_first r))
  dropped-IsAt = rw left_lem (Cut-IsAt lsb_first r v n (r.bit_cache / 2 ^ n) front front-Cut)

emptied-IsAt :
    (r : Reader)
    → IsReader lsb_first r
    → IsAt lsb_first r
        (record r { bits_in_cache = 0; bit_cache = 0 })
        (drop r.bits_in_cache (remaining lsb_first r))
emptied-IsAt r v = rw (none, gone) at (dropped-IsAt r v r.bits_in_cache (omega arith))
  where
    none : sub32 r.bits_in_cache r.bits_in_cache ≡ 0
    none = omega (arith, v.in_word)

    gone : r.bit_cache / 2 ^ r.bits_in_cache ≡ 0
    gone = div-eq_of_lt v.clean

module _ (r r' : Reader) (n : ℕ) (f : IsRefilled lsb_first r r') (small : n ≤ 32) where
  -- Reading the front of the refilled cache is reading the stream.
  after_refill :
      n ≤ r'.bits_in_cache
      → {s : Reader} → IsAt lsb_first r' s (drop n (remaining lsb_first r'))
      → Reads lsb_first n r (value lsb_first (take n (remaining lsb_first r')), s)
  after_refill cached a =
      Reads-enough lsb_first n r _ (IsRefilled_enough lsb_first r r' f n cached)
        (ap (λ t. value lsb_first (take n t)) f.same_remaining)
        (IsRefilled-IsAt f (rw (← f.same_remaining) a))

  after_refill_short : r'.bits_in_cache < n → Reads lsb_first n r (0, r')
  after_refill_short short =
      Reads-short lsb_first n r (0, r') (IsRefilled_short lsb_first r r' f n (omega arith) short)
        refl (IsRefilled_here lsb_first r r' f)

-- On a valid reader, with `n` at most 32, `bs_read_bits_lsb` returns, and gives the number in the
-- next `n` bits of the stream and steps past them, or gives 0 and stays where fewer are left.
pub read_bits_lsb-Reads :
    (r : Reader) (n : ℕ)
    → IsReader lsb_first r
    → n ≤ 32
    → Returns (read_bits_lsb r n) (Reads lsb_first n r)
unfolding read_bits_lsb
read_bits_lsb-Reads r zero v small = done-Returns (0, r) (Reads-zero lsb_first r v)
read_bits_lsb-Reads r (suc n) v small = rw suc==zero (
    >>=-Returns (refill_lsb-IsRefilled r v) (λ r' f. elim (dec_lt r'.bits_in_cache (suc n)) [
      | yes short ↦
          rw (lt→ltb _ _ short)
            (done-Returns (0, r') (after_refill_short r r' (suc n) f small short))
      | no cached ↦
          rw
            (
              not_lt→ltb _ _ cached,
              extract-remaining r' f.is_reader (suc n) (omega arith) small,
              shr64_lem r'.bit_cache (suc n) (omega arith),
              ◌>>=◌,
            )
            (done-Returns _ (
              after_refill r r' (suc n) f small (omega arith)
                (dropped-IsAt r' f.is_reader (suc n) (omega arith))))
    ]))

-- On a valid reader, with `n` at most 32, `bs_peek_bits_lsb` returns the number in the next `n` bits,
-- or 0 where fewer are left, and takes nothing.
pub peek_bits_lsb-Peeks :
    (r : Reader) (n : ℕ)
    → IsReader lsb_first r
    → n ≤ 32
    → Returns (peek_bits_lsb r n) (Peeks lsb_first n r)
unfolding peek_bits_lsb
peek_bits_lsb-Peeks r zero v small =
    done-Returns (0, r) (Reads-Peeks _ 0 r r r (Reads-zero lsb_first r v) (IsAt-self lsb_first r v))
peek_bits_lsb-Peeks r (suc n) v small = rw suc==zero (
    >>=-Returns (refill_lsb-IsRefilled r v) (λ r' f. elim (dec_lt r'.bits_in_cache (suc n)) [
      | yes short ↦ rw (lt→ltb _ _ short) (
          done-Returns (0, r')
            (Reads-Peeks _ (suc n) r r' r' (after_refill_short r r' (suc n) f small short)
              (IsRefilled_here _ r r' f)))
      | no cached ↦
          rw
            (
              not_lt→ltb _ _ cached,
              extract-remaining r' f.is_reader (suc n) (omega arith) small,
              ◌>>=◌,
            )
            (done-Returns _ (
              Reads-Peeks _ (suc n) r _ r'
                (after_refill r r' (suc n) f small (omega arith)
                  (dropped-IsAt r' f.is_reader (suc n) (omega arith)))
                (IsRefilled_here _ r r' f)))
    ]))

-- On a valid reader, with `n` at most 32, `bs_skip_bits_lsb` returns, `n` bits further or at the end
-- of the stream.
pub skip_bits_lsb-Skips :
    (r : Reader) (n : ℕ)
    → IsReader lsb_first r
    → n ≤ 32
    → Returns (skip_bits_lsb r n) (Skips lsb_first n r)
unfolding skip_bits_lsb
skip_bits_lsb-Skips r zero v small = done-Returns r (unfold Stream.skip in IsAt-self lsb_first r v)
skip_bits_lsb-Skips r (suc n) v small = rw suc==zero (
    >>=-Returns (refill_lsb-IsRefilled r v) (λ r' f. elim (dec_lt r'.bits_in_cache (suc n)) [
      | yes short ↦ rw (lt→ltb _ _ short) (
          done-Returns _
            (Skips-short _ r r' _ (suc n) f short (omega arith) (emptied-IsAt r' f.is_reader)))
      | no cached ↦
          rw (not_lt→ltb _ _ cached, shr64_lem r'.bit_cache (suc n) (omega arith), ◌>>=◌)
            (done-Returns _
              (Skips-enough _ r r' _ (suc n) f (dropped-IsAt r' f.is_reader (suc n) (omega arith))))
    ]))
