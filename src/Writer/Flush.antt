-- ===== src/Writer/Flush.antt =====
-- The flush of either bit order, from what its dump and its padding do.
use native.Mathlib.Decide.{dec_lt, ℕ_discrete}
use mathlib.Core.Path.{subst}
use bitstream_h.Base.{
  ℕ, ◌≤◌, ◌<◌, ◌≡◌, ap, ◌∙◌, arith, inl, inr, Bool, true, false, ◌||◌, leb, ◌==◌, if◌then◌else◌,
  List, [], length, replicate, Bool-cases, Outcome, done, ◌>>=◌, Returns, done-Returns, >>=-Returns,
  Returns_mono, le→leb, lt→leb, ne→==, eq→==,
}
use bitstream_h.BitString.{BitOrder}
use bitstream_h.Writer.{Writer}
use bitstream_h.Writer.State.{
  IsStaged, IsWriter, Appends, Appends_nil, Appends_trans, padding, pad_length, length-written,
  length-written-mod,
}
use bitstream_h.Writer.Rounds.{IsDumped}
use bitstream_h.Writer.Push.{dumped-Appends}

module _ (dump pad : Writer → Outcome Writer) where
  -- The code that `bs_writer_flush` and `bs_writer_flush_lsb` share.
  abbrev pub flush_with : Writer → Outcome Writer
  flush_with bs =
      if bs.bits_in_cache == 0
      then done bs
      else if bs.overflow || leb 8 bs.bits_in_cache
      then (do
        bs ← dump bs
        if bs.bits_in_cache == 0
            then done bs
            else if leb 8 bs.bits_in_cache
            then done (record bs { overflow = true })
            else pad bs)
      else pad bs

-- What a flush appends: the padding, unless whole bytes wait that do not fit.
abbrev pub flushed : BitOrder → Writer → List Bool
flushed o w = if leb 8 w.bits_in_cache then [] else padding o w

module _ (o : BitOrder) (w : Writer) (u : IsWriter o w) where
  -- Between operations a dump has nothing to do.
  dumped_same : (w' : Writer) → IsDumped o w w' → w'.bits_in_cache ≡ w.bits_in_cache
  dumped_same w' d = omega (
    arith,
    length-written o w u.staged,
    length-written o w' d.staged,
    ap length d.same_written,
    u.settled,
    d.onward,
    d.same_size,
    d.staged.in_buffer,
    d.settled,
  )

  dumped_padding : (w' : Writer) → IsDumped o w w' → padding o w' ≡ padding o w
  dumped_padding w' d = ap (λ (k : ℕ). replicate (pad_length k) false) (ap length d.same_written)

test_true : (b : Bool) → b ≡ true → b || false ≡ true
test_true b e = ground arith

test_false : (b : Bool) → b ≡ false → b || false ≡ false
test_false b e = ground arith

module _ (o : BitOrder) (dump pad : Writer → Outcome Writer)
    (dumps : (w : Writer) → IsStaged o w → Returns (dump w) (IsDumped o w))
    (pads : (w : Writer)
      → IsWriter o w
      → 0 < w.bits_in_cache
      → w.bits_in_cache < 8
      → Returns (pad w) (Appends o (padding o w) w)) where
  busy :
      (w : Writer) → IsWriter o w → 8 ≤ w.bits_in_cache → w.overflow || leb 8 w.bits_in_cache ≡ true
  busy w u many = ground arith

  -- A full buffer keeps the accumulator as it is.
  still_full :
      (w : Writer)
      → IsWriter o w
      → (w' : Writer) → IsDumped o w w'
      → 8 ≤ w'.bits_in_cache
      → Appends o [] w (record w' { overflow = true })
  still_full w u w' d many =
      let flag : w'.overflow ≡ true = ground (arith, d.flag) in
      subst (Appends o [] w) (ap (λ b. record w' { overflow = b }) flag) (dumped-Appends o w w' d)

  pub flush_with-Appends :
      (w : Writer) → IsWriter o w → Returns (flush_with dump pad w) (Appends o (flushed o w) w)
  flush_with-Appends w u = elim (ℕ_discrete w.bits_in_cache 0) [
    | yes none ↦
        let no_padding : padding o w ≡ [] =
          ap (λ (k : ℕ). replicate k false) {y = 0}
            (length-written-mod o w u.staged ∙ omega arith) in
        rw (eq→== _ _ none, lt→leb 8 w.bits_in_cache (omega arith), no_padding)
          (done-Returns w (Appends_nil o w u))
    | no some ↦ elim (dec_lt w.bits_in_cache 8) [
      | no many ↦
          rw (ne→== _ _ some, busy w u (omega arith), le→leb 8 w.bits_in_cache (omega arith))
            (>>=-Returns (dumps w u.staged) (λ w' d.
              let same = dumped_same o w u w' d in
              rw (ne→== w'.bits_in_cache 0 (omega arith), le→leb 8 w'.bits_in_cache (omega arith))
                (done-Returns _ (still_full w u w' d (omega arith)))))
      | yes few ↦
          rw (ne→== _ _ some, lt→leb 8 w.bits_in_cache few)
            (elim (Bool-cases w.overflow) [
              | inl over ↦ rw (test_true w.overflow over) (
                  >>=-Returns (dumps w u.staged) (λ w' d.
                    let same = dumped_same o w u w' d in
                    rw
                      (
                        ne→== w'.bits_in_cache 0 (omega arith),
                        lt→leb 8 w'.bits_in_cache (omega arith),
                        ← dumped_padding o w u w' d,
                      )
                      (Returns_mono
                        (pads w' (dumped-Appends o w w' d).is_writer (omega arith) (omega arith))
                        (λ w''. Appends_trans (dumped-Appends o w w' d)))))
              | inr clear ↦ rw (test_false w.overflow clear) (pads w u (omega arith) few)
            ])
    ]
  ]
