-- ===== src/Writer/Contents.antt =====
-- A writer through a sequence of operations that fit its buffer: what it holds, and how each
-- operation adds to it.
use bitstream_h.Base.{
  ℕ, ◌+◌, ◌*◌, ◌%◌, ◌^◌, ◌≤◌, ◌<◌, ◌≡◌, refl, sym, ap, ◌∙◌, arith, false, true, List, Bool, [],
  ◌++◌, All, length, length-append, length-replicate, replicate, take, length-take, Returns,
  Returns_mono, eq→==, le→leb,
}
use bitstream_h.BitString.{BitOrder, lsb_first, bits, bytes_bits}
use bitstream_h.BitString.Laws.{length-bits}
use bitstream_h.BitString.Bytes.{IsByte, length-bytes_bits}
use bitstream_h.Reader.{reader_init}
use bitstream_h.Reader.State.{IsReader, remaining}
use bitstream_h.Reader.Status.{reader_init-IsReader}
use bitstream_h.Writer.{Writer, writer_init, writer_bytes_written}
use bitstream_h.Writer.State.{IsWriter, Appends, written, length-written, pad_length}
use bitstream_h.Writer.Status.{writer_init-IsWriter, few_cached, no_overflow, written_empty}
use bitstream_h.Writer.Interface.{WriterOps}
use bitstream_h.Writer.Lsb.{writer_align_lsb}
use bitstream_h.Writer.Lsb.Finish.{writer_align_lsb-Appends}
use bitstream_h.Writer.Bulk.{write_bytes}
use bitstream_h.Writer.Bulk.Copy.{IsPlaced, write_bytes-WritesBytes}

-- A valid writer over `size` bytes that wrote the `k` bits `s` without an overflow.
pub record Holds (o : BitOrder) (size : ℕ) (s : List Bool) (k : ℕ) (w : Writer) : Type 0 where
  pub is_writer : IsWriter o w
  pub clear : w.overflow ≡ false
  pub same_size : w.size ≡ size
  pub content : written o w ≡ s
  pub long : length s ≡ k

pub Holds-init :
    (o : BitOrder) (buf : List ℕ) (size : ℕ)
    → size ≤ length buf
    → size < 2 ^ 64
    → All IsByte buf
    → Holds o size [] 0 (writer_init buf size)
Holds-init o buf size h small bytes = record {
  is_writer = start.0;
  clear = unfold writer_init in refl;
  same_size = unfold writer_init in refl;
  content = start.1;
  long = refl;
}
  where
    start : IsWriter o (writer_init buf size) × (written o (writer_init buf size) ≡ [])
    start = writer_init-IsWriter o buf size h small bytes

module _ {o : BitOrder} {size : ℕ} {s : List Bool} {k : ℕ} {w : Writer}
    (h : Holds o size s k w) where
  -- What is appended without filling more than the buffer is held.
  pub Holds-Appends :
      {t : List Bool} {w' : Writer} (n : ℕ)
      → Appends o t w w'
      → length t ≡ n
      → k + n ≤ 8 * size
      → Holds o size (s ++ t) (k + n) w'
  Holds-Appends {t} n a e fits = record {
    is_writer = a.is_writer;
    clear =
        no_overflow a h.clear (omega (arith, ap length h.content, h.long, e, h.same_size, fits));
    same_size = a.same_size ∙ h.same_size;
    content = a.appended ∙ ap (λ r. r ++ t) h.content;
    long = omega (arith, length-append s t, h.long, e);
  }

  few : w.bits_in_cache < 8
  few = few_cached h.is_writer h.clear

  pub Holds-write :
      (writer : WriterOps o) (v n : ℕ)
      → n ≤ 32
      → k + n ≤ 8 * size
      → Returns (writer.write w v n) (Holds o size (s ++ bits o n v) (k + n))
  Holds-write writer v n small fits =
      Returns_mono (writer.write-Appends w v n h.is_writer small (omega (arith, few)))
        (λ w' a. Holds-Appends n a (length-bits o n v) fits)

  pub Holds-write_bytes :
      (src : List ℕ) (n : ℕ)
      → All IsByte src
      → n ≤ length src
      → k % 8 ≡ 0
      → k + 8 * n ≤ 8 * size
      → Returns
          (write_bytes w src n)
          (λ p. (p.0 ≡ true) × Holds o size (s ++ bytes_bits o (take n src)) (k + 8 * n) p.1)
  Holds-write_bytes src n bytes given aligned fits =
      Returns_mono (write_bytes-WritesBytes o w src n h.is_writer bytes given) (λ p q.
        let done_placed : IsPlaced o w src n p =
          simp
            (
              h.clear,
              eq→== (length (written o w) % 8) 0 (omega (arith, total, aligned)),
              le→leb (length (written o w) + 8 * n) (8 * w.size)
                  (omega (arith, total, fits, h.same_size)),
            )
            at q in
        (
          done_placed.accepted,
          Holds-Appends (8 * n) done_placed.placed
              (omega (arith, length-bytes_bits o (take n src), length-take n src given)) fits,
        ))
    where
      total : length (written o w) ≡ k
      total = ap length h.content ∙ h.long

  -- At a byte boundary all that was written is in memory, for a reader to see.
  pub Holds-readable :
      k % 8 ≡ 0
      → IsReader o (reader_init w.buffer (writer_bytes_written w))
        × (remaining o (reader_init w.buffer (writer_bytes_written w)) ≡ s)
  unfolding writer_bytes_written
  Holds-readable aligned = (start.0, start.1 ∙ sym (written_empty o w empty) ∙ h.content)
    where
      empty : w.bits_in_cache ≡ 0
      empty =
          omega (
            arith,
            few,
            length-written o w h.is_writer.staged,
            ap length h.content,
            h.long,
            aligned,
          )

      start :
          IsReader o (reader_init w.buffer w.byte_pos)
          × (remaining o (reader_init w.buffer w.byte_pos)
              ≡ bytes_bits o (take w.byte_pos w.buffer))
      start =
          reader_init-IsReader o w.buffer w.byte_pos
            (omega (arith, h.is_writer.staged.storage, h.is_writer.staged.in_buffer))
            (omega (arith, h.is_writer.staged.addressable, h.is_writer.staged.in_buffer))
            h.is_writer.staged.all_bytes

pub Holds-writer_align_lsb :
    {size : ℕ} {s : List Bool} {k : ℕ} {w : Writer}
    → Holds lsb_first size s k w
    → k + pad_length k ≤ 8 * size
    → Returns
        (writer_align_lsb w)
        (Holds lsb_first size (s ++ replicate (pad_length k) false) (k + pad_length k))
Holds-writer_align_lsb {s = s} {k = k} {w = w} h fits =
    Returns_mono
      (rw (← (ap length h.content ∙ h.long))
        (writer_align_lsb-Appends w h.is_writer (omega (arith, few_cached h.is_writer h.clear))))
      (λ w' a. Holds-Appends h (pad_length k) a (length-replicate (pad_length k) false) fits)
