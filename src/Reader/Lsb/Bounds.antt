-- ===== src/Reader/Lsb/Bounds.antt =====
-- The LSB-first functions of the reader return in every state within bounds, and go on in the input.
use native.Mathlib.Nat.{mod-eq_of_lt}
use bitstream_h.Base.{
  ℕ, zero, suc, ◌+◌, ◌*◌, ◌%◌, ◌^◌, ◌≤◌, ◌<◌, ◌≡◌, arith, bit_or, ltb, leb, ◌==◌, leb→le, leb→lt,
  ltb→le, Returns, Returns_mono, done-Returns, >>=-Returns, if-Returns, access-Returns, false,
  le→ltb,
}
use bitstream_h.Word.{sub32}
use bitstream_h.Word.Laws.{one-le-two_pow}
use bitstream_h.Word.Bounds.{shl64-Returns, shr64-Returns, mask64-Returns, masked-lt}
use bitstream_h.Reader.{Reader}
use bitstream_h.Reader.Advance.{
  InBounds, Advances, Advances-self, Advances-trans, Advances-dropped, Advances-filled,
}
use bitstream_h.Reader.Lsb.{
  refill_lsb_loop, refill_lsb, extract_low, read_bits_lsb, peek_bits_lsb, skip_bits_lsb,
  reader_align_lsb,
}

refill_lsb_loop-Advances :
    (fuel : ℕ) (r : Reader)
    → InBounds r
    → 65 ≤ r.bits_in_cache + 8 * fuel
    → Returns (refill_lsb_loop fuel r) (Advances r)
unfolding refill_lsb_loop
refill_lsb_loop-Advances zero r v enough = absurd (omega (arith, v.in_word))
refill_lsb_loop-Advances (suc fuel) r v enough =
    if-Returns (leb r.bits_in_cache 56)
      (λ room.
        if-Returns (leb r.size r.byte_pos) (λ end. done-Returns r (Advances-self r v))
          (λ more.
            >>=-Returns
              (access-Returns r.buffer r.byte_pos (omega (arith, leb→lt _ _ more, v.storage)))
              (λ byte at.
                >>=-Returns (shl64-Returns byte r.bits_in_cache (omega (arith, leb→le _ _ room)))
                  (λ shifted s.
                    let filled : Advances r (record r {
                      bit_cache = bit_or r.bit_cache shifted;
                      bits_in_cache = r.bits_in_cache + 8;
                      byte_pos = r.byte_pos + 1;
                    }) =
                      Advances-filled r (bit_or r.bit_cache shifted) v (leb→le _ _ room)
                        (leb→lt _ _ more) in
                    rw
                      (
                        mod-eq_of_lt {n = r.bits_in_cache + 8} {m = 2 ^ 32}
                            (omega (arith, v.in_word)),
                        mod-eq_of_lt {n = r.byte_pos + 1} {m = 2 ^ 64}
                            (omega (arith, leb→lt _ _ more, v.addressable)),
                      )
                      (Returns_mono (refill_lsb_loop-Advances fuel _ filled.in_bounds (omega arith))
                        (λ r'. Advances-trans filled))))))
      (λ full. done-Returns r (Advances-self r v))

pub refill_lsb-Advances : (r : Reader) → InBounds r → Returns (refill_lsb r) (Advances r)
unfolding refill_lsb
refill_lsb-Advances r v = refill_lsb_loop-Advances 9 r v (omega arith)

extract_low-Returns : (cache n : ℕ) → n ≤ 32 → Returns (extract_low cache n) (λ x. x < 2 ^ n)
unfolding extract_low
extract_low-Returns cache n small =
    >>=-Returns (mask64-Returns n (omega arith))
      (λ mask m. done-Returns _ (masked-lt cache mask n m))

-- `n` bits fewer in the accumulator.
taken :
    (r : Reader) (cache n : ℕ)
    → InBounds r
    → ltb r.bits_in_cache n ≡ false
    → Advances r (record r { bit_cache = cache; bits_in_cache = sub32 r.bits_in_cache n })
taken r cache n v enough =
    Advances-dropped r cache (sub32 r.bits_in_cache n) v
      (omega (arith, v.in_word, ltb→le _ _ enough))

module _ (r : Reader) (n : ℕ) (v : InBounds r) (small : n ≤ 32) where
  -- In every state within bounds, with `n` at most 32, `bs_read_bits_lsb` returns a number below 2 ^ n, and
  -- the reader goes on in the input.
  pub read_bits_lsb-Advances : Returns (read_bits_lsb r n) (λ p. (p.0 < 2 ^ n) × Advances r p.1)
  unfolding read_bits_lsb
  read_bits_lsb-Advances =
      if-Returns (n == 0)
        (λ none. done-Returns _ (omega (arith, one-le-two_pow n), Advances-self r v))
        (λ some. >>=-Returns (refill_lsb-Advances r v) (λ r' a.
          if-Returns (ltb r'.bits_in_cache n)
            (λ short. done-Returns _ (omega (arith, one-le-two_pow n), a))
            (λ enough. >>=-Returns (extract_low-Returns r'.bit_cache n small) (λ x below.
              >>=-Returns (shr64-Returns r'.bit_cache n (omega arith)) (λ rest s.
                done-Returns _ (below, Advances-trans a (taken r' rest n a.in_bounds enough)))))))

  pub peek_bits_lsb-Advances : Returns (peek_bits_lsb r n) (λ p. (p.0 < 2 ^ n) × Advances r p.1)
  unfolding peek_bits_lsb
  peek_bits_lsb-Advances =
      if-Returns (n == 0)
        (λ none. done-Returns _ (omega (arith, one-le-two_pow n), Advances-self r v))
        (λ some. >>=-Returns (refill_lsb-Advances r v) (λ r' a.
          if-Returns (ltb r'.bits_in_cache n)
            (λ short. done-Returns _ (omega (arith, one-le-two_pow n), a))
            (λ enough.
              >>=-Returns (extract_low-Returns r'.bit_cache n small)
                (λ x below. done-Returns _ (below, a)))))

  pub skip_bits_lsb-Advances : Returns (skip_bits_lsb r n) (Advances r)
  unfolding skip_bits_lsb
  skip_bits_lsb-Advances =
      if-Returns (n == 0) (λ none. done-Returns _ (Advances-self r v))
        (λ some. >>=-Returns (refill_lsb-Advances r v) (λ r' a.
          if-Returns (ltb r'.bits_in_cache n)
            (λ short.
              done-Returns _ (Advances-trans a (Advances-dropped r' 0 0 a.in_bounds (omega arith))))
            (λ enough.
              >>=-Returns (shr64-Returns r'.bit_cache n (omega arith)) (λ rest s.
                done-Returns _ (Advances-trans a (taken r' rest n a.in_bounds enough))))))

pub reader_align_lsb-Advances :
    (r : Reader) → InBounds r → Returns (reader_align_lsb r) (Advances r)
unfolding reader_align_lsb
reader_align_lsb-Advances r v =
    if-Returns (ltb 0 (r.bits_in_cache % 8))
      (λ over.
        >>=-Returns (shr64-Returns r.bit_cache (r.bits_in_cache % 8) (omega arith)) (λ rest s.
          done-Returns _ (taken r rest (r.bits_in_cache % 8) v (le→ltb _ _ (omega arith)))))
      (λ even. done-Returns r (Advances-self r v))
