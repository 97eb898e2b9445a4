-- ===== src/Writer/Lsb/Ends.antt =====
-- The LSB-first functions of the writer end in every state, and touch only what they may.
use native.Mathlib.Nat.{mod-eq_of_lt}
use bitstream_h.Base.{
  ℕ, zero, suc, ◌+◌, ◌*◌, ◌/◌, ◌%◌, ◌^◌, ◌<◌, arith, bit_and, ltb, leb, ◌==◌, leb→le, leb→lt, Ends,
  done-Ends, Ends_mono, >>=-Ends, if-Ends, store-Ends, assert-Ends,
}
use bitstream_h.Word.{u8, sub32}
use bitstream_h.Word.Ends.{shl64-Ends, shr64-Ends, mask64-Ends}
use bitstream_h.Writer.{Writer}
use bitstream_h.Writer.Keeps.{
  IsBounded, Keeps, Keeps-self, Keeps-flagged, Keeps-trans, Keeps-recached, recached-Keeps,
  Keeps-stored, flush_with-Ends,
}
use bitstream_h.Writer.Lsb.{
  dump_lsb_loop, dump_lsb, dump_lsb_if_full, write_bits_lsb, write_bits_lsb_unchecked, pad_lsb,
  writer_flush_lsb, writer_align_lsb,
}

dump_lsb_loop-Ends :
    (fuel : ℕ) (w : Writer)
    → IsBounded w
    → w.bits_in_cache < 8 * fuel
    → Ends (dump_lsb_loop fuel w) (Keeps w)
unfolding dump_lsb_loop
dump_lsb_loop-Ends zero w b enough = absurd (omega arith)
dump_lsb_loop-Ends (suc fuel) w b enough =
    if-Ends (leb 8 w.bits_in_cache)
      (λ many.
        if-Ends (leb w.size w.byte_pos) (λ full. done-Ends _ (Keeps-flagged w b))
          (λ room.
            >>=-Ends (store-Ends w.buffer w.byte_pos (u8 (bit_and w.bit_cache 0xFF))) (λ buffer' p.
              >>=-Ends (shr64-Ends w.bit_cache 8) (λ rest s.
                rw
                  (
                    p.1,
                    mod-eq_of_lt {n = w.byte_pos + 1} {m = 2 ^ 64} (omega (arith, leb→lt _ _ room)),
                  )
                  (Ends_mono
                    (dump_lsb_loop-Ends fuel _ (omega (arith, leb→lt _ _ room), omega arith)
                      (omega (arith, leb→le _ _ many)))
                    (λ w' k.
                      Keeps-trans
                        (Keeps-recached rest (sub32 w.bits_in_cache 8)
                          (Keeps-stored w (u8 (bit_and w.bit_cache 0xFF)) b (leb→lt _ _ room)))
                        k))))))
      (λ few. done-Ends w (Keeps-self w b))

dump_lsb-Ends : (w : Writer) → IsBounded w → Ends (dump_lsb w) (Keeps w)
unfolding dump_lsb
dump_lsb-Ends w b = dump_lsb_loop-Ends (w.bits_in_cache / 8 + 1) w b (omega arith)

-- Bits that join the accumulator, and the dump that may follow.
joined-Ends :
    (w : Writer) (cache k : ℕ)
    → IsBounded w
    → Ends (dump_lsb_if_full (record w { bit_cache = cache; bits_in_cache = k })) (Keeps w)
unfolding dump_lsb_if_full
joined-Ends w cache k b =
    if-Ends (leb 8 k)
      (λ many.
        Ends_mono (dump_lsb-Ends (record w { bit_cache = cache; bits_in_cache = k }) b)
          (λ w'. recached-Keeps cache k))
      (λ few. done-Ends _ (Keeps-recached cache k (Keeps-self w b)))

pub write_bits_lsb-Ends :
    (w : Writer) (v n : ℕ) → IsBounded w → Ends (write_bits_lsb w v n) (Keeps w)
unfolding write_bits_lsb
write_bits_lsb-Ends w v n b = >>=-Ends (assert-Ends (leb n 32)) (λ u narrow.
    if-Ends (n == 0) (λ none. done-Ends w (Keeps-self w b))
      (λ some. >>=-Ends (mask64-Ends n) (λ mask s.
        >>=-Ends (shl64-Ends (bit_and v mask) w.bits_in_cache) (λ shifted t. joined-Ends w _ _ b))))

pub write_bits_lsb_unchecked-Ends :
    (w : Writer) (v n : ℕ) → IsBounded w → Ends (write_bits_lsb_unchecked w v n) (Keeps w)
unfolding write_bits_lsb_unchecked
write_bits_lsb_unchecked-Ends w v n b =
    >>=-Ends (shl64-Ends v w.bits_in_cache) (λ shifted s. joined-Ends w _ _ b)

pad_lsb-Ends : (w : Writer) → IsBounded w → Ends (pad_lsb w) (Keeps w)
unfolding pad_lsb
pad_lsb-Ends w b = write_bits_lsb-Ends w 0 (sub32 8 w.bits_in_cache) b

pub writer_flush_lsb-Ends : (w : Writer) → IsBounded w → Ends (writer_flush_lsb w) (Keeps w)
unfolding writer_flush_lsb
writer_flush_lsb-Ends w b = flush_with-Ends dump_lsb pad_lsb dump_lsb-Ends pad_lsb-Ends w b

pub writer_align_lsb-Ends : (w : Writer) → IsBounded w → Ends (writer_align_lsb w) (Keeps w)
unfolding writer_align_lsb
writer_align_lsb-Ends w b =
    if-Ends (ltb 0 (w.bits_in_cache % 8))
      (λ over. write_bits_lsb-Ends w 0 (sub32 8 (w.bits_in_cache % 8)) b)
      (λ even. done-Ends w (Keeps-self w b))
