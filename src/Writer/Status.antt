-- ===== src/Writer/Status.antt =====
-- What a client may conclude from `bs_writer_init`, the overflow flag and
-- `bs_writer_bytes_written`.
use bitstream_h.Base.{
  ℕ, ◌+◌, ◌*◌, ◌^◌, ◌≤◌, ◌<◌, ◌≡◌, refl, sym, ap, ◌∙◌, arith, false, ◌++◌, Bool, List, [], All,
  length, take, length-append, length-replicate, append-nil, lt→leb,
}
use bitstream_h.BitString.{BitOrder, msb_first, lsb_first, bits, bytes_bits, IsClean}
use bitstream_h.BitString.Bytes.{IsByte}
use bitstream_h.Writer.{Writer, writer_init, writer_bytes_written}
use bitstream_h.Writer.State.{IsWriter, Appends, written, padding, pad_length, length-written}
use bitstream_h.Writer.Flush.{flushed}

IsClean-none : (o : BitOrder) → IsClean o 0 0
IsClean-none msb_first = tt
IsClean-none lsb_first = omega arith

-- Over `n` bytes of memory `bs_writer_init` makes a valid writer in either order, and nothing is
-- written.
pub writer_init-IsWriter :
    (o : BitOrder) (buf : List ℕ) (n : ℕ)
    → n ≤ length buf
    → n < 2 ^ 64
    → All IsByte buf
    → IsWriter o (writer_init buf n) × (written o (writer_init buf n) ≡ [])
unfolding writer_init written
writer_init-IsWriter o buf n h small bytes = (
  record {
    staged = record {
      storage = h;
      addressable = small;
      in_buffer = omega arith;
      in_word = omega arith;
      all_bytes = bytes;
      clean = IsClean-none o;
    };
    settled = omega arith;
    flagged = λ h. absurd (omega arith);
  },
  unfold bytes_bits bits in refl,
)

-- Without an overflow less than a byte waits in the accumulator.
pub few_cached :
    {o : BitOrder} {w : Writer} → IsWriter o w → w.overflow ≡ false → w.bits_in_cache < 8
few_cached u clear = ground (arith, u.flagged)

-- What fits the buffer raises no flag.
pub no_overflow :
    {o : BitOrder} {s : List Bool} {w w' : Writer}
    → Appends o s w w'
    → w.overflow ≡ false
    → length (written o w) + length s < 8 * w.size + 8
    → w'.overflow ≡ false
no_overflow {o} {s} {w} {w'} a clear fits =
    ground (arith, a.flag, ap length a.appended, length-append (written o w) s)

pub written_empty :
    (o : BitOrder) (w : Writer)
    → w.bits_in_cache ≡ 0
    → written o w ≡ bytes_bits o (take w.byte_pos w.buffer)
unfolding written bits
written_empty o w e =
    ap (λ (k : ℕ). bytes_bits o (take w.byte_pos w.buffer) ++ bits o k w.bit_cache) e
    ∙ append-nil (bytes_bits o (take w.byte_pos w.buffer))

-- After a flush of a valid writer with the flag clear, memory holds what was written and its padding, up to the number
-- of bytes that `bs_writer_bytes_written` returns, and nothing waits in the accumulator.
pub finished :
    (o : BitOrder) (w w' : Writer)
    → IsWriter o w
    → Appends o (flushed o w) w w'
    → w'.overflow ≡ false
    → (w'.bits_in_cache ≡ 0)
      × (bytes_bits o (take (writer_bytes_written w') w'.buffer) ≡ written o w ++ padding o w)
unfolding writer_bytes_written
finished o w w' u a clear = (empty, whole)
  where
    few : w.bits_in_cache < 8
    few = ground (arith, u.flagged, a.flag)

    length-padded : length (written o w') ≡ length (written o w) + pad_length (length (written o w))
    length-padded =
        ap length a.appended
        ∙ length-append (written o w) (flushed o w)
        ∙ rw (lt→leb 8 w.bits_in_cache few, length-replicate)

    empty : w'.bits_in_cache ≡ 0
    empty =
        omega (
          arith,
          length-padded,
          length-written o w' a.is_writer.staged,
          few_cached a.is_writer clear,
        )

    whole : bytes_bits o (take w'.byte_pos w'.buffer) ≡ written o w ++ padding o w
    whole =
        sym (written_empty o w' empty)
        ∙ a.appended
        ∙ ap (λ t. written o w ++ t) (rw (lt→leb 8 w.bits_in_cache few))
