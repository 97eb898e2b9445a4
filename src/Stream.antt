-- ===== src/Stream.antt =====
-- What the reader of bitstream.h promises, by its documentation: operations on the string of bits
-- still to be read. The accumulator, the byte positions and the refills do not show.
use bitstream_h.BitString.Laws.{length-bits, value-bits}
use bitstream_h.Base.{
  arith, ◌++◌, ◌∙◌, ◌^◌, length-append, take-append, drop-append, ℕ, ◌%◌, ltb, if◌then◌else◌, Bool,
  List, length, take, drop, ◌≤◌, ◌<◌, ◌≡◌, le→ltb, lt→ltb, ◌+◌, ◌-◌, ◌*◌, ap,
}
use native.Mathlib.Decide.{dec_lt}
use bitstream_h.Word.Laws.{one-le-two_pow}
use bitstream_h.BitString.Window.{window_msb, window_lsb, value-take-lt}
use bitstream_h.BitString.{msb_first, lsb_first, BitOrder, value, bits}

-- A read that asks for more than is left gives 0 and takes nothing.
unfoldable pub read : BitOrder → ℕ → List Bool → ℕ × List Bool
read o n s = if ltb (length s) n then (0, s) else (value o (take n s), drop n s)

unfoldable pub peek : BitOrder → ℕ → List Bool → ℕ
peek o n s = (read o n s).0

-- A skip clips at the end of the stream.
unfoldable pub skip : ℕ → List Bool → List Bool
skip n s = drop n s

-- A stream of whole bytes is at a byte boundary when a multiple of eight bits is left.
unfoldable pub align : List Bool → List Bool
align s = drop (length s % 8) s

fields_length :
    (o : BitOrder) (m v n : ℕ) (tail : List Bool)
    → m ≤ n + length tail
    → m ≤ length (bits o n v ++ tail)
fields_length o m v n tail h = omega (arith, length-append (bits o n v) tail, length-bits o n v)

pub read_enough :
    (o : BitOrder) (n : ℕ) (s : List Bool)
    → n ≤ length s
    → read o n s ≡ (value o (take n s), drop n s)
unfolding read
read_enough o n s h = rw (le→ltb _ _ h)

pub read_short : (o : BitOrder) (n : ℕ) (s : List Bool) → length s < n → read o n s ≡ (0, s)
unfolding read
read_short o n s h = rw (lt→ltb _ _ h)

-- A field at the front of the stream is read back, without what stood above it.
pub read_field :
    (o : BitOrder) (n v : ℕ) (rest : List Bool) → read o n (bits o n v ++ rest) ≡ (v % 2 ^ n, rest)
read_field o n v rest =
    read_enough o n (bits o n v ++ rest)
      (omega (arith, length-append (bits o n v) rest, length-bits o n v))
    ∙ rw (
      take-append n (bits o n v) rest (length-bits o n v),
      drop-append n (bits o n v) rest (length-bits o n v),
      value-bits o n v,
    )

-- A window of `m` bits over a field and what follows it: the field on top, in MSB-first order.
pub peek_field_msb :
    (m v n : ℕ) (tail : List Bool)
    → n ≤ m
    → v < 2 ^ n
    → m ≤ n + length tail
    → peek msb_first m (bits msb_first n v ++ tail)
      ≡ v * 2 ^ (m - n) + value msb_first (take (m - n) tail)
unfolding peek
peek_field_msb m v n tail small clean enough =
    ap (λ t. t.0)
      (read_enough msb_first m (bits msb_first n v ++ tail)
        (fields_length msb_first m v n tail enough))
    ∙ window_msb m v n tail small clean enough

-- The same in LSB-first order: the field below.
pub peek_field_lsb :
    (m v n : ℕ) (tail : List Bool)
    → n ≤ m
    → v < 2 ^ n
    → m ≤ n + length tail
    → peek lsb_first m (bits lsb_first n v ++ tail)
      ≡ v + 2 ^ n * value lsb_first (take (m - n) tail)
unfolding peek
peek_field_lsb m v n tail small clean enough =
    ap (λ t. t.0)
      (read_enough lsb_first m (bits lsb_first n v ++ tail)
        (fields_length lsb_first m v n tail enough))
    ∙ window_lsb m v n tail small clean enough

-- Skipping a field leaves what follows it.
pub skip_field : (o : BitOrder) (n v : ℕ) (tail : List Bool) → skip n (bits o n v ++ tail) ≡ tail
unfolding skip
skip_field o n v tail = drop-append n (bits o n v) tail (length-bits o n v)

-- What is peeked fits its width.
pub peek-lt : (o : BitOrder) (n : ℕ) (s : List Bool) → peek o n s < 2 ^ n
unfolding peek
peek-lt o n s = elim (dec_lt (length s) n) [
  | yes short ↦ rw (peek, read_short o n s short) (omega (arith, one-le-two_pow n))
  | no enough ↦ rw (peek, read_enough o n s (omega arith)) (value-take-lt o n s (omega arith))
]
