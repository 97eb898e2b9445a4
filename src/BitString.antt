-- ===== src/BitString.antt =====
-- Strings of bits, the language in which the readers and writers of bitstream.h are specified. The
-- file's two packing orders, MSB-first and LSB-first, are the two ways to lay a field of `n` bits
-- out in a string.
pub mod Laws
pub mod Bytes
pub mod Cache
pub mod Window
pub mod Chunks
use bitstream_h.Base.{
  ℕ, zero, suc, ◌+◌, ◌*◌, ◌/◌, ◌%◌, ◌^◌, ◌<◌, ◌==◌, if◌then◌else◌, Bool, List, [], ◌∷◌, ◌++◌,
  length,
}

pub data BitOrder : Type 0 where
  msb_first lsb_first : BitOrder

-- Whether the lowest bit is set.
unfoldable pub odd : ℕ → Bool
odd v = v % 2 == 1

-- The `n` lowest bits of `v`, in the order in which they stand in the stream.
unfoldable pub bits : BitOrder → ℕ → ℕ → List Bool
bits o zero v = []
bits msb_first (suc n) v = odd (v / 2 ^ n) ∷ bits msb_first n v
bits lsb_first (suc n) v = odd v ∷ bits lsb_first n (v / 2)

abbrev pub bit_value : Bool → ℕ
bit_value b = if b then 1 else 0

-- The number that a field of bits stands for.
unfoldable pub value : BitOrder → List Bool → ℕ
value o [] = 0
value msb_first (b ∷ bs) = bit_value b * 2 ^ length bs + value msb_first bs
value lsb_first (b ∷ bs) = bit_value b + 2 * value lsb_first bs

-- The bits of a sequence of bytes.
unfoldable pub bytes_bits : BitOrder → List ℕ → List Bool
bytes_bits o [] = []
bytes_bits o (b ∷ bs) = bits o 8 b ++ bytes_bits o bs

-- An accumulator of `k` bits in LSB-first order holds nothing above them; in MSB-first order it may
-- hold bits that were consumed.
abbrev pub IsClean : BitOrder → ℕ → ℕ → Type 0
IsClean msb_first k c = Unit {0}
IsClean lsb_first k c = c < 2 ^ k
