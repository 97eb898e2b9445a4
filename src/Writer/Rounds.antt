-- ===== src/Writer/Rounds.antt =====
-- The dump loop of either bit order, from what one round of it does: it returns, moves whole bytes
-- from the accumulator to memory while there is room, and flags the overflow when there is none.
use native.Mathlib.Decide.{dec_lt}
use bitstream_h.Base.{
  ℕ, zero, suc, ◌+◌, ◌-◌, ◌*◌, ◌≤◌, ◌<◌, ◌≡◌, refl, sym, ap, ◌∙◌, arith, inl, inr, ◌⊎◌, ◌++◌, true,
  ◌||◌, leb, [], ◌∷◌, length, take, drop, set, length-set, append_assoc, Outcome, done, Returns,
  done-Returns, Returns_mono,
}
use bitstream_h.BitString.{BitOrder, bits, IsClean, bytes_bits}
use bitstream_h.BitString.Bytes.{IsByte, take-set, set-IsByte, drop-set, bytes_bits-snoc}
use bitstream_h.Writer.{Writer}
use bitstream_h.Writer.State.{IsStaged, written}

-- The writer after a byte went from the accumulator to memory.
abbrev pub moved_out : Writer → ℕ → ℕ → Writer
moved_out w byte cache = record w {
  buffer = set w.buffer w.byte_pos byte;
  byte_pos = w.byte_pos + 1;
  bit_cache = cache;
  bits_in_cache = w.bits_in_cache - 8;
}

pub record Round (o : BitOrder) (loop : ℕ → Writer → Outcome Writer) (w : Writer) : Type 0 where
  pub byte : ℕ
  pub cache : ℕ
  pub is_byte : IsByte byte
  pub cut : bits o w.bits_in_cache w.bit_cache ≡ bits o 8 byte ++ bits o (w.bits_in_cache - 8) cache
  pub clean : IsClean o (w.bits_in_cache - 8) cache
  pub runs : (fuel : ℕ) → loop (suc fuel) w ≡ loop fuel (moved_out w byte cache)

-- What the loop has done when it stops.
pub record IsDumped (o : BitOrder) (w w' : Writer) : Type 0 where
  pub staged : IsStaged o w'
  pub same_size : w'.size ≡ w.size
  pub same_length : length w'.buffer ≡ length w.buffer
  pub onward : w.byte_pos ≤ w'.byte_pos
  pub untouched : drop w'.byte_pos w'.buffer ≡ drop w'.byte_pos w.buffer
  pub same_written : written o w' ≡ written o w
  pub settled : (w'.bits_in_cache < 8) ⊎ (w'.byte_pos ≡ w'.size)
  pub flag : w'.overflow ≡ w.overflow || leb 8 w'.bits_in_cache

pub IsDumped-self :
    (o : BitOrder) (w : Writer) → IsStaged o w → w.bits_in_cache < 8 → IsDumped o w w
IsDumped-self o w v few = record {
  staged = v;
  same_size = refl;
  same_length = refl;
  onward = omega arith;
  untouched = refl;
  same_written = refl;
  settled = inl few;
  flag = ground arith;
}

module _ (o : BitOrder) (loop : ℕ → Writer → Outcome Writer) (w : Writer) (v : IsStaged o w)
    (h : 8 ≤ w.bits_in_cache) (room : w.byte_pos < w.size) (step : Round o loop w) where
  abbrev next : Writer
  next = moved_out w step.byte step.cache

  next-IsStaged : IsStaged o next
  next-IsStaged = record {
    storage = rw length-set v.storage;
    addressable = v.addressable;
    in_buffer = omega arith;
    in_word = omega (arith, v.in_word);
    all_bytes = set-IsByte w.byte_pos step.byte w.buffer step.is_byte v.all_bytes;
    clean = step.clean;
  }

  written-next : written o next ≡ written o w
  unfolding written
  written-next =
      ap (λ t. bytes_bits o t ++ bits o (w.bits_in_cache - 8) step.cache) stored
      ∙ ap (λ t. t ++ bits o (w.bits_in_cache - 8) step.cache)
          (bytes_bits-snoc o (take w.byte_pos w.buffer) step.byte)
      ∙ append_assoc (bytes_bits o (take w.byte_pos w.buffer)) _ _
      ∙ ap (λ t. bytes_bits o (take w.byte_pos w.buffer) ++ t) (sym step.cut)
    where
      stored :
          take (w.byte_pos + 1) (set w.buffer w.byte_pos step.byte)
          ≡ take w.byte_pos w.buffer ++ (step.byte ∷ [])
      stored =
          ap (λ (k : ℕ). take k (set w.buffer w.byte_pos step.byte)) {x = w.byte_pos + 1}
            {y = suc w.byte_pos} (omega arith)
          ∙ take-set w.byte_pos step.byte w.buffer (omega (arith, v.storage))

  next-IsDumped : (w' : Writer) → IsDumped o next w' → IsDumped o w w'
  next-IsDumped w' d = record {
    staged = d.staged;
    same_size = d.same_size;
    same_length = d.same_length ∙ length-set w.buffer w.byte_pos step.byte;
    onward = omega (arith, d.onward);
    untouched =
        d.untouched ∙ drop-set w.byte_pos w'.byte_pos step.byte w.buffer (omega (arith, d.onward));
    same_written = d.same_written ∙ written-next;
    settled = d.settled;
    flag = d.flag;
  }

module _ (o : BitOrder) (loop : ℕ → Writer → Outcome Writer)
    (when_done : (fuel : ℕ) (w : Writer) → w.bits_in_cache < 8 → loop (suc fuel) w ≡ done w)
    (when_full : (fuel : ℕ) (w : Writer)
      → 8 ≤ w.bits_in_cache
      → w.size ≤ w.byte_pos
      → loop (suc fuel) w ≡ done (record w { overflow = true }))
    (round : (w : Writer)
      → IsStaged o w
      → 8 ≤ w.bits_in_cache
      → w.byte_pos < w.size
      → Round o loop w) where
  pub loop-IsDumped :
      (fuel : ℕ) (w : Writer)
      → IsStaged o w
      → w.bits_in_cache < 8 * fuel
      → Returns (loop fuel w) (IsDumped o w)
  loop-IsDumped zero w v h = absurd (omega arith)
  loop-IsDumped (suc fuel) w v h = elim (dec_lt w.bits_in_cache 8) [
    | yes few ↦ rw (when_done fuel w few) (
        done-Returns w (record {
          staged = v;
          same_size = refl;
          same_length = refl;
          onward = omega arith;
          untouched = refl;
          same_written = refl;
          settled = inl few;
          flag = ground arith;
        }))
    | no many ↦ elim (dec_lt w.byte_pos w.size) [
      | no full ↦ rw (when_full fuel w (omega arith) (omega arith)) (
          done-Returns _ (record {
            staged = record {
              storage = v.storage;
              addressable = v.addressable;
              in_buffer = v.in_buffer;
              in_word = v.in_word;
              all_bytes = v.all_bytes;
              clean = v.clean;
            };
            same_size = refl;
            same_length = refl;
            onward = omega arith;
            untouched = refl;
            same_written = unfold written in refl;
            settled = inr (omega (arith, v.in_buffer));
            flag = ground arith;
          }))
      | yes room ↦
          let step = round w v (omega arith) room in
          rw (step.runs fuel) (
            Returns_mono
              (loop-IsDumped fuel _ (next-IsStaged o loop w v (omega arith) room step)
                (omega arith))
              (next-IsDumped o loop w v (omega arith) room step))
    ]
  ]

-- A dump may put the accumulator in another form, as long as its bits stay.
pub IsDumped-recached :
    (o : BitOrder) (w w' : Writer) (cache : ℕ)
    → IsDumped o w w'
    → bits o w'.bits_in_cache cache ≡ bits o w'.bits_in_cache w'.bit_cache
    → IsClean o w'.bits_in_cache cache
    → IsDumped o w (record w' { bit_cache = cache })
IsDumped-recached o w w' cache d same clean = record {
  staged = record {
    storage = d.staged.storage;
    addressable = d.staged.addressable;
    in_buffer = d.staged.in_buffer;
    in_word = d.staged.in_word;
    all_bytes = d.staged.all_bytes;
    clean = clean;
  };
  same_size = d.same_size;
  same_length = d.same_length;
  onward = d.onward;
  untouched = d.untouched;
  same_written =
      unfold written in
      (ap (λ t. bytes_bits o (take w'.byte_pos w'.buffer) ++ t) same ∙ d.same_written);
  settled = d.settled;
  flag = d.flag;
}
