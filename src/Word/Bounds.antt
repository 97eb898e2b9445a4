-- ===== src/Word/Bounds.antt =====
-- Shifts by less than 64, and what a mask leaves.
use native.Mathlib.Nat.{mod-lt}
use bitstream_h.Base.{
  ◌/◌, ne→==, ℕ, ◌^◌, ◌<◌, arith, bit_and, Returns, done-Returns, ◌-◌, ◌≡◌, refl,
}
use bitstream_h.Word.{u32, div64, shl64, shr64, mask64}
use bitstream_h.Word.Laws.{shl64_lem, shr64_lem, mask64_lem, bit_and_mask, one-le-two_pow}

pub shl64-Returns : (x k : ℕ) → k < 64 → Returns (shl64 x k) (λ y. Unit {0})
shl64-Returns x k h = rw (shl64_lem x k h) (done-Returns _ tt)

pub shr64-Returns : (x k : ℕ) → k < 64 → Returns (shr64 x k) (λ y. Unit {0})
shr64-Returns x k h = rw (shr64_lem x k h) (done-Returns _ tt)

pub mask64-Returns : (n : ℕ) → n < 64 → Returns (mask64 n) (λ mask. mask ≡ 2 ^ n - 1)
mask64-Returns n h = rw (mask64_lem n h) (done-Returns _ refl)

-- What a mask of `n` bits leaves of any number, as a 32-bit word, is below 2 ^ n.
pub masked-lt : (x mask n : ℕ) → mask ≡ 2 ^ n - 1 → u32 (bit_and x mask) < 2 ^ n
masked-lt x mask n e = rw (e, bit_and_mask n x) (omega (arith, mod-lt x (one-le-two_pow n)))

pub div64-Returns : (a b : ℕ) → 0 < b → Returns (div64 a b) (λ q. q ≡ a / b)
unfolding div64
div64-Returns a b h = rw (ne→== b 0 (omega arith)) (done-Returns _ refl)
