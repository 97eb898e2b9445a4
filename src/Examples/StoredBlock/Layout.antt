-- ===== src/Examples/StoredBlock/Layout.antt =====
-- The bytes of a stored block, what the encoder's fields add up to, and what the parser makes of them.
use bitstream_h.Base.{
  ℕ, ◌+◌, ◌*◌, ◌-◌, ◌/◌, ◌%◌, ◌^◌, ◌≤◌, ◌<◌, ◌≡◌, refl, ap, ◌∙◌, arith, append_assoc, false, List,
  [], ◌∷◌, ◌++◌, take, length, replicate, eq→==,
}
use bitstream_h.Word.Laws.{bit_and_mask}
use bitstream_h.BitString.{lsb_first, odd, bits, bytes_bits}
use bitstream_h.BitString.Laws.{bits-lsb_add}
use bitstream_h.Examples.StoredBlock.{complement, low_byte, high_byte}
use bitstream_h.Examples.StoredBlock.Parse.{parse_literal, parse_block}

-- The flag, the length and its complement in little-endian order, and the literal bytes.
abbrev pub block_bytes : List ℕ → ℕ → ℕ → List ℕ
block_bytes literal len flag =
    flag ∷ (len % 256) ∷ (len / 256) ∷ (255 - len % 256) ∷ (255 - len / 256) ∷ take len literal

low_byte_lem : (x : ℕ) → low_byte x ≡ x % 256
low_byte_lem x = omega (arith, bit_and_mask 8 (x / 2 ^ 0))

high_byte_lem : (x : ℕ) → high_byte x ≡ x / 256 % 256
high_byte_lem x = omega (arith, bit_and_mask 8 (x / 2 ^ 8))

module _ (literal : List ℕ) (len flag : ℕ) (small : len < 2 ^ 16) (one : flag < 2) where
  low : low_byte len ≡ len % 256
  low = low_byte_lem len

  high : high_byte len ≡ len / 256
  high = omega (arith, high_byte_lem len)

  low_complement : low_byte (complement len) ≡ 255 - len % 256
  low_complement = omega (arith, low_byte_lem (complement len))

  high_complement : high_byte (complement len) ≡ 255 - len / 256
  high_complement = omega (arith, high_byte_lem (complement len))

  -- The two fields and the padding are the first byte.
  first_bits :
      bits lsb_first 8 flag ≡ bits lsb_first 1 flag ++ (bits lsb_first 2 0 ++ replicate 5 false)
  first_bits =
      bits-lsb_add 1 7 flag
      ∙ ap (λ (k : ℕ). bits lsb_first 1 flag ++ bits lsb_first 7 k) {y = 0} (omega arith)
      ∙ unfold bits odd in refl

  -- The two fields, the padding and the four bytes, in the order in which they are appended.
  pub block_bytes_lem :
      ((((((([] ++ bits lsb_first 1 flag) ++ bits lsb_first 2 0) ++ replicate 5 false)
                ++ bits lsb_first 8 (low_byte len))
              ++ bits lsb_first 8 (high_byte len))
            ++ bits lsb_first 8 (low_byte (complement len)))
          ++ bits lsb_first 8 (high_byte (complement len)))
        ++ bytes_bits lsb_first (take len literal)
      ≡ bytes_bits lsb_first (block_bytes literal len flag)
  unfolding bytes_bits
  block_bytes_lem =
      rw (low, high, low_complement, high_complement, first_bits) (simp (append_assoc) refl)

  -- A block is parsed as its flag and its literal bytes.
  pub parse-block_bytes :
      len ≤ length literal
      → parse_block (block_bytes literal len flag) ≡ parse_literal flag len (take len literal)
  unfolding parse_block
  parse-block_bytes given =
      rw
        (
          eq→== (flag / 2 % 4) 0 (omega arith),
          eq→== ((len % 256 + 256 * (len / 256)) + (255 - len % 256 + 256 * (255 - len / 256)))
              65535 (omega arith),
        )
        (ap (λ (k : ℕ). parse_literal k (len % 256 + 256 * (len / 256)) (take len literal))
            {y = flag} (omega arith)
          ∙ ap (λ (k : ℕ). parse_literal flag k (take len literal)) {y = len} (omega arith))
