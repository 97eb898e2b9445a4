-- ===== src/Reader/Drain.antt =====
-- Skipping comes to the end of the stream.
use native.Mathlib.Nat.{suc-mul}
use bitstream_h.Base.{
  ℕ, zero, suc, ◌-◌, ◌*◌, ◌^◌, ◌≤◌, ◌<◌, ◌≡◌, ap, ◌∙◌, arith, true, eq→==, Bool, List, length,
  length-drop, Outcome, done, ◌>>=◌, Returns, done-Returns, >>=-Returns,
}
use bitstream_h.BitString.{BitOrder}
use bitstream_h.Stream
use bitstream_h.Reader.{Reader, reader_eof, reader_bits_left}
use bitstream_h.Reader.State.{IsReader, remaining}
use bitstream_h.Reader.Status.{reader_status}
use bitstream_h.Reader.Interface.{ReaderOps}

length-skip : (n : ℕ) (s : List Bool) → length (Stream.skip n s) ≡ length s - n
unfolding Stream.skip
length-skip n s = length-drop n s

module _ {o : BitOrder} (ops : ReaderOps o) (n : ℕ) where
  -- `n` bits skipped, `k` times.
  pub skip_times : ℕ → Reader → Outcome Reader
  skip_times zero r = done r
  skip_times (suc k) r = do r ← ops.skip r n; skip_times k r

  module _ (small : n ≤ 32) where
    drained :
        (k : ℕ) (r : Reader)
        → IsReader o r
        → r.size < 2 ^ 61
        → length (remaining o r) ≤ k * n
        → Returns (skip_times k r) (λ r'. reader_eof r' ≡ true)
    unfolding skip_times
    drained zero r v h left =
        done-Returns r ((reader_status o r v h).1 ∙ eq→== (length (remaining o r)) 0 (omega arith))
    drained (suc k) r v h left = >>=-Returns (ops.skip-Skips r n v small) (λ r' a.
        drained k r' a.is_reader (omega (arith, a.same_size))
          (omega (arith, ap length a.at, length-skip n (remaining o r), suc-mul k n)))

    -- On a valid reader over fewer than 2 ^ 61 bytes, in either bit order, a client that skips `n` bits at a
    -- time, at most 32, comes to the end: once it asked for as many bits as `bs_reader_bits_left` gave,
    -- every skip has returned and `bs_reader_eof` holds.
    pub skip_times-reader_eof :
        (k : ℕ) (r : Reader)
        → IsReader o r
        → r.size < 2 ^ 61
        → reader_bits_left r ≤ k * n
        → Returns (skip_times k r) (λ r'. reader_eof r' ≡ true)
    skip_times-reader_eof k r v h left = drained k r v h (omega (arith, (reader_status o r v h).0))
