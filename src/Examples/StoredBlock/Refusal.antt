-- ===== src/Examples/StoredBlock/Refusal.antt =====
-- The encoder of a stored block on a buffer that is too small.
use bitstream_h.Base.{
  ℕ, ◌+◌, ◌*◌, ◌%◌, ◌^◌, ◌≤◌, ◌<◌, ◌≡◌, refl, sym, ap, [], ◌∙◌, arith, Bool, false, leb, List, All,
  length, length-append, length-replicate, Bool-cases, inl, inr, eq→==, lt→leb, Outcome, aborted,
  ◌>>=◌, >>=-leads, Returns, Returns_mono,
}
use bitstream_h.BitString.{lsb_first}
use bitstream_h.BitString.Laws.{length-bits}
use bitstream_h.BitString.Bytes.{IsByte}
use bitstream_h.Writer.{Writer, writer_init}
use bitstream_h.Writer.State.{IsWriter, Appends, written, length-written, pad_length}
use bitstream_h.Writer.Lsb.{write_bits_lsb, writer_align_lsb}
use bitstream_h.Writer.Lsb.Write.{write_bits_lsb-Appends}
use bitstream_h.Writer.Lsb.Finish.{writer_align_lsb-Appends}
use bitstream_h.Writer.Contents.{Holds, Holds-init}
use bitstream_h.Writer.Bulk.{write_bytes}
use bitstream_h.Writer.Bulk.Copy.{write_bytes-WritesBytes}
use bitstream_h.Examples.StoredBlock.{encode_stored_block, complement, low_byte, high_byte}
use bitstream_h.Examples.StoredBlock.Transfer.{final_bit}

-- A valid writer over `size` bytes that took `k` bits, with or without an overflow.
record Took (size k : ℕ) (w : Writer) : Type 0 where
  is_writer : IsWriter lsb_first w
  same_size : w.size ≡ size
  long : length (written lsb_first w) ≡ k
  flag : w.overflow ≡ leb (8 * size + 8) k

module _ {size k : ℕ} {w : Writer} (t : Took size k w) where
  cached : w.bits_in_cache ≤ k
  cached = omega (arith, length-written lsb_first w t.is_writer.staged, t.long)

  taken :
      (n : ℕ) {w' : Writer} {s : List Bool}
      → length s ≡ n
      → Appends lsb_first s w w'
      → Took size (k + n) w'
  taken n {w'} {s} e a = record {
    is_writer = a.is_writer;
    same_size = a.same_size ∙ t.same_size;
    long = longer;
    flag = ground (arith, a.flag, t.flag, t.same_size, longer);
  }
    where
      longer : length (written lsb_first w') ≡ k + n
      longer = omega (arith, ap length a.appended, length-append (written lsb_first w) s, t.long, e)

  write-Took : (v n : ℕ) → n ≤ 8 → k ≤ 48 → Returns (write_bits_lsb w v n) (Took size (k + n))
  write-Took v n small few =
      Returns_mono (write_bits_lsb-Appends w v n t.is_writer (omega arith) (omega (arith, cached)))
        (λ w' a. taken n (length-bits lsb_first n v) a)

align-Took : {size : ℕ} {w : Writer} → Took size 3 w → Returns (writer_align_lsb w) (Took size 8)
align-Took {w = w} t =
    Returns_mono (writer_align_lsb-Appends w t.is_writer (omega (arith, cached t))) (λ w' a.
      taken t 5
        (length-replicate (pad_length (length (written lsb_first w))) false ∙ ap pad_length t.long)
        a)

-- Over fewer than five bytes and the literal's the copy is refused.
refused :
    {size : ℕ} {w : Writer} (literal : List ℕ) (len : ℕ)
    → Took size 40 w
    → All IsByte literal
    → len ≤ length literal
    → size < 5 + len
    → Returns (write_bytes w literal len) (λ p. p.0 ≡ false)
refused {size} {w} literal len t bytes given short =
    Returns_mono (write_bytes-WritesBytes lsb_first w literal len t.is_writer bytes given) (λ p q.
      elim (Bool-cases w.overflow) [
        | inl set ↦ ap (λ r. r.0) (simp set at q)
        | inr clear ↦
            ap (λ r. r.0)
              (simp
                (
                  clear,
                  eq→== (length (written lsb_first w) % 8) 0 (omega (arith, t.long)),
                  lt→leb (length (written lsb_first w) + 8 * len) (8 * w.size)
                      (omega (arith, t.long, t.same_size)),
                )
                at q)
      ])

-- What comes after a call that returns aborts the whole.
aborting :
    {A B : Type 0} {m : Outcome A} {f : A → Outcome B} {P : A → Type 0}
    → Returns m P
    → ((a : A) → P a → f a ≡ aborted)
    → (m >>= f) ≡ aborted
aborting = >>=-leads (λ m. m ≡ aborted)

-- Into a buffer with fewer than five bytes and the literal's, encoding a stored block fails an assertion, and
-- nothing is undefined on the way there.
pub encode_stored_block_aborts :
    (literal : List ℕ) (len is_final : ℕ) (out : List ℕ) (out_size : ℕ)
    → len ≤ length literal
    → All IsByte literal
    → out_size < 5 + len
    → out_size ≤ length out
    → out_size < 2 ^ 64
    → All IsByte out
    → encode_stored_block literal len is_final out out_size ≡ aborted
unfolding encode_stored_block
encode_stored_block_aborts literal len is_final out out_size given bytes short held addressable
      clean =
    aborting (write-Took fresh (final_bit is_final) 1 (omega arith) (omega arith)) (λ w1 t1.
      aborting (write-Took t1 0 2 (omega arith) (omega arith)) (λ w2 t2.
        aborting (align-Took t2) (λ w3 t3.
          aborting (write-Took t3 (low_byte len) 8 (omega arith) (omega arith)) (λ w4 t4.
            aborting (write-Took t4 (high_byte len) 8 (omega arith) (omega arith)) (λ w5 t5.
              aborting (write-Took t5 (low_byte (complement len)) 8 (omega arith) (omega arith))
                (λ w6 t6.
                  aborting
                    (write-Took t6 (high_byte (complement len)) 8 (omega arith) (omega arith))
                    (λ w7 t7.
                      aborting (refused literal len t7 bytes given short) (λ p e. rw e refl))))))))
  where
    start : Holds lsb_first out_size [] 0 (writer_init out out_size)
    start = Holds-init lsb_first out out_size held addressable clean

    fresh : Took out_size 0 (writer_init out out_size)
    fresh = record {
      is_writer = start.is_writer;
      same_size = start.same_size;
      long = ap length start.content;
      flag = start.clear ∙ sym (lt→leb (8 * out_size + 8) 0 (omega arith));
    }
