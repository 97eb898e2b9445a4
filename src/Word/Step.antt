-- ===== src/Word/Step.antt =====
-- `&` and `|` by their lowest binary digit: Prim.Native.Nat gives their meaning by a count of digits,
-- and any count that is large enough gives the same.
use Prim.Native.Nat.{
  digits, bitwise, bit_and-bitwise, bit_or-bitwise, bit_xor-bitwise, min, max, differ,
}
use bitstream_h.Base.{
  ℕ, zero, suc, ◌+◌, ◌-◌, ◌*◌, ◌/◌, ◌%◌, ◌≤◌, ◌≡◌, refl, ap, ◌∙◌, bit_and, bit_or, bit_xor, arith,
}

module _ (at_end : ℕ → ℕ) (op : ℕ → ℕ → ℕ) where
  abbrev counted : ℕ → ℕ → ℕ → ℕ
  counted count a b = digits at_end op count a b

  one_more : (count a b : ℕ) → a ≤ count → counted (suc count) a b ≡ counted count a b
  one_more zero zero b enough = refl
  one_more (suc count) zero b enough = refl
  one_more zero (suc a) b enough = absurd (omega arith)
  one_more (suc count) (suc a) b enough =
      ap (λ (q : ℕ). q * 2 + op (suc a % 2) (b % 2))
        (one_more count (suc a / 2) (b / 2) (omega arith))

  many_more :
      (more count a b : ℕ)
      → a ≤ count
      → (total : ℕ) → total ≡ more + count
      → counted total a b ≡ counted count a b
  many_more zero count a b enough total e = ap (λ (c : ℕ). counted c a b) (omega (arith, e))
  many_more (suc more) count a b enough total e =
      ap (λ (c : ℕ). counted c a b) {y = suc (more + count)} (omega (arith, e))
      ∙ one_more (more + count) a b (omega arith)
      ∙ many_more more count a b enough (more + count) refl

  lowest_digit :
      (a b : ℕ)
      → bitwise at_end op (suc a) b
        ≡ bitwise at_end op (suc a / 2) (b / 2) * 2 + op (suc a % 2) (b % 2)
  lowest_digit a b =
      ap (λ (q : ℕ). q * 2 + op (suc a % 2) (b % 2))
        (many_more (a - suc a / 2) (suc a / 2) (suc a / 2) (b / 2) (omega arith) a (omega arith))

pub bit_or_step : (a b : ℕ) → bit_or a b ≡ max (a % 2) (b % 2) + 2 * bit_or (a / 2) (b / 2)
bit_or_step zero b = omega (arith, bit_or-bitwise 0 b, bit_or-bitwise 0 (b / 2))
bit_or_step (suc a) b = omega (
  arith,
  bit_or-bitwise (suc a) b,
  bit_or-bitwise (suc a / 2) (b / 2),
  lowest_digit (λ y. y) max a b,
)

pub bit_and_step : (a b : ℕ) → bit_and a b ≡ min (a % 2) (b % 2) + 2 * bit_and (a / 2) (b / 2)
bit_and_step zero b = omega (arith, bit_and-bitwise 0 b, bit_and-bitwise 0 (b / 2))
bit_and_step (suc a) b = omega (
  arith,
  bit_and-bitwise (suc a) b,
  bit_and-bitwise (suc a / 2) (b / 2),
  lowest_digit (λ y. 0) min a b,
)

pub bit_xor_step : (a b : ℕ) → bit_xor a b ≡ differ (a % 2) (b % 2) + 2 * bit_xor (a / 2) (b / 2)
bit_xor_step zero b = omega (arith, bit_xor-bitwise 0 b, bit_xor-bitwise 0 (b / 2))
bit_xor_step (suc a) b = omega (
  arith,
  bit_xor-bitwise (suc a) b,
  bit_xor-bitwise (suc a / 2) (b / 2),
  lowest_digit (λ y. y) differ a b,
)
