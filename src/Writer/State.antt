-- ===== src/Writer/State.antt =====
-- What a writer stands for: the string of bits written so far, those in memory and then those in
-- the accumulator.
use bitstream_h.Base.{
  ap, ◌∙◌, append_assoc, drop_mono, replicate, false, ◌-◌, ◌%◌, ℕ, refl, sym, append-nil, [], ◌+◌,
  ◌*◌, ◌^◌, ◌≤◌, ◌<◌, ◌≡◌, arith, ◌⊎◌, Bool, true, ◌||◌, leb, List, ◌++◌, All, length, take, drop,
  length-append, length-take,
}
use bitstream_h.BitString.{IsClean, BitOrder, bits, bytes_bits}
use bitstream_h.BitString.Bytes.{IsByte, length-bytes_bits}
use bitstream_h.BitString.Laws.{length-bits}
use bitstream_h.Writer.{Writer}

unfoldable pub written : BitOrder → Writer → List Bool
written o w = bytes_bits o (take w.byte_pos w.buffer) ++ bits o w.bits_in_cache w.bit_cache

-- The state inside an operation: any number of bits may wait in the accumulator.
pub record IsStaged (o : BitOrder) (w : Writer) : Type 0 where
  pub storage : w.size ≤ length w.buffer
  pub addressable : w.size < 2 ^ 64
  pub in_buffer : w.byte_pos ≤ w.size
  pub in_word : w.bits_in_cache < 64
  pub all_bytes : All IsByte w.buffer
  pub clean : IsClean o w.bits_in_cache w.bit_cache

-- The state between operations: less than a byte waits, unless the buffer is full and the overflow
-- is flagged.
pub record IsWriter (o : BitOrder) (w : Writer) : Type 0 where
  pub staged : IsStaged o w
  pub settled : (w.bits_in_cache < 8) ⊎ (w.byte_pos ≡ w.size)
  pub flagged : 8 ≤ w.bits_in_cache → w.overflow ≡ true

pub length-written :
    (o : BitOrder) (w : Writer)
    → IsStaged o w
    → length (written o w) ≡ 8 * w.byte_pos + w.bits_in_cache
unfolding written
length-written o w v = omega (
  arith,
  length-append (bytes_bits o (take w.byte_pos w.buffer)) (bits o w.bits_in_cache w.bit_cache),
  length-bytes_bits o (take w.byte_pos w.buffer),
  length-take w.byte_pos w.buffer (omega (arith, v.storage, v.in_buffer)),
  length-bits o w.bits_in_cache w.bit_cache,
)

-- `w'` comes from `w` by writing: `s` is appended, memory past the position is not touched, and the
-- flag is raised if a whole byte did not fit.
pub record Appends (o : BitOrder) (s : List Bool) (w w' : Writer) : Type 0 where
  pub is_writer : IsWriter o w'
  pub same_size : w'.size ≡ w.size
  pub same_length : length w'.buffer ≡ length w.buffer
  pub onward : w.byte_pos ≤ w'.byte_pos
  pub untouched : drop w'.byte_pos w'.buffer ≡ drop w'.byte_pos w.buffer
  pub appended : written o w' ≡ written o w ++ s
  pub flag : w'.overflow ≡ w.overflow || leb (8 * w.size + 8) (length (written o w'))

-- No bits leave the writer as it is.
pub Appends_nil : (o : BitOrder) (w : Writer) → IsWriter o w → Appends o [] w w
Appends_nil o w u = record {
  is_writer = u;
  same_size = refl;
  same_length = refl;
  onward = omega arith;
  untouched = refl;
  appended = sym (append-nil (written o w));
  flag = ground (arith, length-written o w u.staged, u.staged.in_buffer, u.settled, u.flagged);
}

pub Appends_nothing :
    (o : BitOrder) (w : Writer) (v : ℕ) → IsWriter o w → Appends o (bits o 0 v) w w
unfolding bits
Appends_nothing o w v u = Appends_nil o w u

-- One write after another appends the one field after the other.
pub Appends_trans :
    {o : BitOrder} {s t : List Bool} {w w' w'' : Writer}
    → Appends o s w w'
    → Appends o t w' w''
    → Appends o (s ++ t) w w''
Appends_trans {o} {s} {t} {w} {w'} {w''} a b = record {
  is_writer = b.is_writer;
  same_size = b.same_size ∙ a.same_size;
  same_length = b.same_length ∙ a.same_length;
  onward = omega (arith, a.onward, b.onward);
  untouched =
      b.untouched ∙ drop_mono w'.byte_pos w''.byte_pos w'.buffer w.buffer a.untouched b.onward;
  appended = joined;
  flag = ground (arith, a.flag, b.flag, a.same_size, longer);
}
  where
    joined : written o w'' ≡ written o w ++ (s ++ t)
    joined = b.appended ∙ ap (λ r. r ++ t) a.appended ∙ append_assoc (written o w) s t

    longer : length (written o w') ≤ length (written o w'')
    longer = omega (arith, ap length b.appended, length-append (written o w') t)

-- The bits that complete a byte after `k` bits.
abbrev pub pad_length : ℕ → ℕ
pad_length k = (8 - k % 8) % 8

-- What a flush appends to a writer between operations: zeros up to the next byte boundary.
abbrev pub padding : BitOrder → Writer → List Bool
padding o w = replicate (pad_length (length (written o w))) false

pub length-written-mod :
    (o : BitOrder) (w : Writer)
    → IsStaged o w
    → pad_length (length (written o w)) ≡ pad_length w.bits_in_cache
length-written-mod o w v = omega (arith, length-written o w v)
