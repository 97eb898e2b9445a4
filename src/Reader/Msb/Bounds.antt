-- ===== src/Reader/Msb/Bounds.antt =====
-- The MSB-first functions of the reader return in every state within bounds, and go on in the input.
use native.Mathlib.Nat.{mod-eq_of_lt}
use bitstream_h.Base.{
  ℕ, zero, suc, ◌+◌, ◌*◌, ◌%◌, ◌^◌, ◌≤◌, ◌<◌, ◌≡◌, arith, bit_or, ltb, leb, ◌==◌, leb→le, leb→lt,
  ltb→le, ==→ne, Returns, Returns_mono, done-Returns, >>=-Returns, if-Returns, access-Returns,
  Bool-cases, inl, inr, false,
}
use bitstream_h.Word.{sub32}
use bitstream_h.Word.Laws.{one-le-two_pow}
use bitstream_h.Word.Bounds.{shl64-Returns, shr64-Returns, mask64-Returns, masked-lt}
use bitstream_h.Reader.{Reader}
use bitstream_h.Reader.Advance.{
  InBounds, Advances, Advances-self, Advances-trans, Advances-dropped, Advances-filled,
}
use bitstream_h.Reader.Msb.{
  refill_loop, refill, extract, read_bits, peek_bits, skip_bits, reader_align,
}

refill_loop-Advances :
    (fuel : ℕ) (r : Reader)
    → InBounds r
    → 65 ≤ r.bits_in_cache + 8 * fuel
    → Returns (refill_loop fuel r) (Advances r)
unfolding refill_loop
refill_loop-Advances zero r v enough = absurd (omega (arith, v.in_word))
refill_loop-Advances (suc fuel) r v enough =
    if-Returns (leb r.bits_in_cache 56)
      (λ room.
        if-Returns (leb r.size r.byte_pos) (λ end. done-Returns r (Advances-self r v))
          (λ more.
            >>=-Returns
              (access-Returns r.buffer r.byte_pos (omega (arith, leb→lt _ _ more, v.storage)))
              (λ byte at. >>=-Returns (shl64-Returns r.bit_cache 8 (omega arith)) (λ shifted s.
                let filled : Advances r (record r {
                  bit_cache = bit_or shifted byte;
                  bits_in_cache = r.bits_in_cache + 8;
                  byte_pos = r.byte_pos + 1;
                }) =
                  Advances-filled r (bit_or shifted byte) v (leb→le _ _ room) (leb→lt _ _ more) in
                rw
                  (
                    mod-eq_of_lt {n = r.bits_in_cache + 8} {m = 2 ^ 32} (omega (arith, v.in_word)),
                    mod-eq_of_lt {n = r.byte_pos + 1} {m = 2 ^ 64}
                        (omega (arith, leb→lt _ _ more, v.addressable)),
                  )
                  (Returns_mono (refill_loop-Advances fuel _ filled.in_bounds (omega arith))
                    (λ r'. Advances-trans filled))))))
      (λ full. done-Returns r (Advances-self r v))

pub refill-Advances : (r : Reader) → InBounds r → Returns (refill r) (Advances r)
unfolding refill
refill-Advances r v = refill_loop-Advances 9 r v (omega arith)

extract-Returns :
    (cache shift n : ℕ) → shift < 64 → n ≤ 32 → Returns (extract cache shift n) (λ x. x < 2 ^ n)
unfolding extract
extract-Returns cache shift n h small = >>=-Returns (mask64-Returns n (omega arith)) (λ mask m.
    >>=-Returns (shr64-Returns cache shift h)
      (λ shifted s. done-Returns _ (masked-lt shifted mask n m)))

-- The bits that are left after some are taken.
abbrev after : Reader → ℕ → ℕ
after r n = sub32 r.bits_in_cache n

after-le : (r : Reader) (n : ℕ) → InBounds r → n ≤ r.bits_in_cache → after r n ≤ r.bits_in_cache
after-le r n v h = omega (arith, v.in_word)

after-lt :
    (r : Reader) (n : ℕ) → InBounds r → (n == 0) ≡ false → n ≤ r.bits_in_cache → after r n < 64
after-lt r n v some h = omega (arith, v.in_word, ==→ne n 0 some)

module _ (r : Reader) (n : ℕ) (v : InBounds r) (small : n ≤ 32) where
  -- In every state within bounds, with `n` at most 32, `bs_read_bits` returns a number below 2 ^ n, and the
  -- reader goes on in the input.
  pub read_bits-Advances : Returns (read_bits r n) (λ p. (p.0 < 2 ^ n) × Advances r p.1)
  unfolding read_bits
  read_bits-Advances =
      if-Returns (n == 0)
        (λ none. done-Returns _ (omega (arith, one-le-two_pow n), Advances-self r v))
        (λ some. >>=-Returns (refill-Advances r v) (λ r' a.
          if-Returns (ltb r'.bits_in_cache n)
            (λ short. done-Returns _ (omega (arith, one-le-two_pow n), a))
            (λ enough.
              >>=-Returns
                (extract-Returns r'.bit_cache (after r' n) n
                  (after-lt r' n a.in_bounds some (ltb→le _ _ enough)) small)
                (λ x below. done-Returns _ (
                  below,
                  Advances-trans a (
                      Advances-dropped r' r'.bit_cache (after r' n) a.in_bounds
                        (after-le r' n a.in_bounds (ltb→le _ _ enough))),
                )))))

  pub peek_bits-Advances : Returns (peek_bits r n) (λ p. (p.0 < 2 ^ n) × Advances r p.1)
  unfolding peek_bits
  peek_bits-Advances =
      if-Returns (n == 0)
        (λ none. done-Returns _ (omega (arith, one-le-two_pow n), Advances-self r v))
        (λ some. >>=-Returns (refill-Advances r v) (λ r' a.
          if-Returns (ltb r'.bits_in_cache n)
            (λ short. done-Returns _ (omega (arith, one-le-two_pow n), a))
            (λ enough.
              >>=-Returns
                (extract-Returns r'.bit_cache (after r' n) n
                  (after-lt r' n a.in_bounds some (ltb→le _ _ enough)) small)
                (λ x below. done-Returns _ (below, a)))))

-- A skip takes what there is, for any `n`.
pub skip_bits-Advances : (r : Reader) (n : ℕ) → InBounds r → Returns (skip_bits r n) (Advances r)
unfolding skip_bits
skip_bits-Advances r n v =
    if-Returns (n == 0) (λ none. done-Returns _ (Advances-self r v))
      (λ some. >>=-Returns (refill-Advances r v) (λ r' a.
        if-Returns (ltb r'.bits_in_cache n)
          (λ short.
            done-Returns _
              (Advances-trans a (Advances-dropped r' r'.bit_cache 0 a.in_bounds (omega arith))))
          (λ enough. done-Returns _ (
            Advances-trans a (
              Advances-dropped r' r'.bit_cache (after r' n) a.in_bounds
                (after-le r' n a.in_bounds (ltb→le _ _ enough)))))))

pub reader_align-Advances : (r : Reader) → InBounds r → Advances r (reader_align r)
unfolding reader_align
reader_align-Advances r v = elim (Bool-cases (ltb 0 (r.bits_in_cache % 8))) [
  | inl over ↦ rw over (
      Advances-dropped r r.bit_cache (after r (r.bits_in_cache % 8)) v
        (after-le r (r.bits_in_cache % 8) v (omega arith)))
  | inr even ↦ rw even (Advances-self r v)
]
