-- ===== src/Reader/Rounds.antt =====
-- The refill loop of either bit order, from what one round of it does: it returns, and leaves the
-- stream where it was with as many bits cached as fit.
use bitstream_h.Base.{
  ℕ, zero, suc, ◌+◌, ◌*◌, ◌≤◌, ◌<◌, ◌≡◌, refl, ◌∙◌, arith, inl, inr, ◌⊎◌, ◌++◌, get_elem?, some,
  Outcome, done, Returns, done-Returns, Returns_mono,
}
use native.Mathlib.Decide.{dec_le, dec_lt}
use bitstream_h.BitString.{IsClean, BitOrder, bits}
use bitstream_h.Reader.{Reader}
use bitstream_h.Reader.State.{IsReader, IsRefilled}
use bitstream_h.Reader.Moves.{filled, filled-IsReader, remaining-filled}

-- One round of the loop: the byte at `byte_pos` is cached.
pub record Round (o : BitOrder) (loop : ℕ → Reader → Outcome Reader) (r : Reader) (v : IsReader o r)
    : Type 0 where
  pub cache : ℕ
  pub byte : ℕ
  pub at : get_elem? r.buffer r.byte_pos ≡ some byte
  pub joined :
      bits o (r.bits_in_cache + 8) cache ≡ bits o r.bits_in_cache r.bit_cache ++ bits o 8 byte
  pub clean : IsClean o (r.bits_in_cache + 8) cache
  pub runs : (fuel : ℕ) → loop (suc fuel) r ≡ loop fuel (filled o r v cache)

IsRefilled-self :
    (o : BitOrder) (r : Reader)
    → IsReader o r
    → (56 < r.bits_in_cache) ⊎ (r.byte_pos ≡ r.size)
    → IsRefilled o r r
IsRefilled-self o r v h = record {
  is_reader = v;
  same_size = refl;
  same_buffer = refl;
  same_position = refl;
  same_remaining = refl;
  is_full = h;
}

module _ (o : BitOrder) (loop : ℕ → Reader → Outcome Reader)
    (when_full : (fuel : ℕ) (r : Reader) → 56 < r.bits_in_cache → loop (suc fuel) r ≡ done r)
    (at_end : (fuel : ℕ) (r : Reader)
      → r.bits_in_cache ≤ 56
      → r.size ≤ r.byte_pos
      → loop (suc fuel) r ≡ done r)
    (round : (r : Reader) (v : IsReader o r)
      → r.bits_in_cache ≤ 56
      → r.byte_pos < r.size
      → Round o loop r v) where
  module _ (r : Reader) (v : IsReader o r) (room : r.bits_in_cache ≤ 56)
      (more : r.byte_pos < r.size) where
    step : Round o loop r v
    step = round r v room more

    next : Reader
    next = filled o r v step.cache

    next-IsReader : IsReader o next
    unfolding next
    next-IsReader =
        filled-IsReader o r v step.cache step.byte room more step.at step.joined step.clean

    next-bits_in_cache : next.bits_in_cache ≡ r.bits_in_cache + 8
    unfolding next
    next-bits_in_cache = refl

    next-loop : (fuel : ℕ) → loop (suc fuel) r ≡ loop fuel next
    unfolding next
    next-loop = step.runs

    next-IsRefilled : (r' : Reader) → IsRefilled o next r' → IsRefilled o r r'
    unfolding next
    next-IsRefilled r' f = record {
      is_reader = f.is_reader;
      same_size = f.same_size;
      same_buffer = f.same_buffer;
      same_position = omega (arith, f.same_position, v.behind);
      same_remaining =
          f.same_remaining
          ∙ remaining-filled o r v step.cache step.byte room more step.at step.joined step.clean;
      is_full = f.is_full;
    }

  -- Eight rounds fill the accumulator, and the test that ends the loop is one more.
  pub loop-IsRefilled :
      (fuel : ℕ) (r : Reader)
      → IsReader o r
      → 65 ≤ r.bits_in_cache + 8 * fuel
      → Returns (loop fuel r) (IsRefilled o r)
  loop-IsRefilled zero r v h = absurd (omega (arith, v.in_word))
  loop-IsRefilled (suc fuel) r v h = elim (dec_le r.bits_in_cache 56) [
    | no full ↦
        rw (when_full fuel r (omega arith))
          (done-Returns r (IsRefilled-self o r v (inl (omega arith))))
    | yes room ↦ elim (dec_lt r.byte_pos r.size) [
      | no end ↦
          rw (at_end fuel r room (omega arith))
            (done-Returns r (IsRefilled-self o r v (inr (omega (arith, v.in_buffer)))))
      | yes more ↦
          let rest =
            loop-IsRefilled fuel (next r v room more) (next-IsReader r v room more)
              (omega (arith, next-bits_in_cache r v room more)) in
          rw (next-loop r v room more fuel) (Returns_mono rest (next-IsRefilled r v room more))
    ]
  ]
