-- ===== src/Word/Laws.antt =====
-- The word operations as arithmetic on natural numbers.
use Prim.Native.Nat.{bit_or-bitwise}
use native.Mathlib.Nat.{
  pow-suc, one-le-pow, pow-le-pow_right, mul-one, mod-lt, div-add-mod', mod-eq_of_lt,
  add-mul-mod_self_right, add-zero, add-suc, mul-lt-mul_of_pos_right,
}
use bitstream_h.Base.{
  ℕ, zero, suc, ◌+◌, ◌-◌, ◌*◌, ◌/◌, ◌%◌, ◌^◌, ◌≤◌, ◌<◌, bit_and, bit_or, ◌≡◌, refl, ap, ◌∙◌, ◌≡⟨◌⟩◌,
  ◌∎, arith, lt→ltb, le→ltb, done, undefined,
}
use bitstream_h.Word.{u64, shl64, shr64, mask64}
use bitstream_h.Word.Step.{bit_and_step, bit_or_step}

pub pow_add : (m n : ℕ) → 2 ^ (m + n) ≡ 2 ^ m * 2 ^ n
pow_add m zero = rw (add-zero, mul-one)
pow_add m (suc n) = rw add-suc (
    omega (
      arith,
      pow-suc 2 (m + n),
      ap (λ (t : ℕ). 2 * t) (pow_add m n),
      ap (λ (t : ℕ). 2 ^ m * t) (pow-suc 2 n),
    ))

pub one-le-two_pow : (n : ℕ) → 1 ≤ 2 ^ n
one-le-two_pow n = one-le-pow n 2 (omega arith)

mul-two_pow-suc : (q k : ℕ) → q * 2 ^ suc k ≡ 2 * (q * 2 ^ k)
mul-two_pow-suc q k = omega (arith, ap (λ (t : ℕ). q * t) (pow-suc 2 k))

bit_or-zero : (k a : ℕ) → a ≤ k → bit_or a 0 ≡ a
bit_or-zero zero a h = ground (arith, bit_or_step a 0)
bit_or-zero (suc k) zero h = refl
bit_or-zero (suc k) (suc a) h = omega (arith, bit_or_step (suc a) 0, bit_or-zero k (suc a / 2))

-- `|` of a word shifted left and one that fits below is their sum, on either side.
pub bit_or_shifted : (k q r : ℕ) → r < 2 ^ k → bit_or (q * 2 ^ k) r ≡ q * 2 ^ k + r
bit_or_shifted zero q r h = ground (arith, bit_or-zero q q)
bit_or_shifted (suc k) q r h = ground (
  arith,
  pow-suc 2 k,
  bit_or_step (q * 2 ^ suc k) r,
  mul-two_pow-suc q k,
  bit_or_shifted k q (r / 2) (omega (arith, pow-suc 2 k)),
)

zero-bit_or : (a : ℕ) → bit_or 0 a ≡ a
zero-bit_or a = bit_or-bitwise 0 a

pub bit_or_low : (k q r : ℕ) → r < 2 ^ k → bit_or r (q * 2 ^ k) ≡ q * 2 ^ k + r
bit_or_low zero q r h = ground (arith, zero-bit_or q)
bit_or_low (suc k) q r h = ground (
  arith,
  pow-suc 2 k,
  bit_or_step r (q * 2 ^ suc k),
  mul-two_pow-suc q k,
  bit_or_low k q (r / 2) (omega (arith, pow-suc 2 k)),
)

bit_and-zero : (k a : ℕ) → a ≤ k → bit_and a 0 ≡ 0
bit_and-zero zero a h = ground (arith, bit_and_step a 0)
bit_and-zero (suc k) zero h = refl
bit_and-zero (suc k) (suc a) h = omega (arith, bit_and_step (suc a) 0, bit_and-zero k (suc a / 2))

bit_and_low : (k q r : ℕ) → r < 2 ^ k → bit_and (q * 2 ^ k + r) (2 ^ k - 1) ≡ r
bit_and_low zero q r h = omega (arith, bit_and-zero (q * 1 + r) (q * 1 + r))
bit_and_low (suc k) q r h = ground (
  arith,
  pow-suc 2 k,
  one-le-two_pow k,
  bit_and_step (q * 2 ^ suc k + r) (2 ^ suc k - 1),
  mul-two_pow-suc q k,
  bit_and_low k q (r / 2) (omega (arith, pow-suc 2 k)),
)

-- A mask keeps the remainder.
pub bit_and_mask : (k a : ℕ) → bit_and a (2 ^ k - 1) ≡ a % 2 ^ k
bit_and_mask k a = omega (
  arith,
  one-le-two_pow k,
  bit_and_low k (a / 2 ^ k) (a % 2 ^ k) (mod-lt a (one-le-two_pow k)),
  ap (λ (t : ℕ). bit_and t (2 ^ k - 1)) (div-add-mod' a (2 ^ k)),
)

mul-mod-mul : (x p k : ℕ) → 0 < p → 0 < k → x * k % (p * k) ≡ x % p * k
mul-mod-mul x p k hp hk =
    x * k % (p * k)
    ≡⟨ ap (λ (t : ℕ). t % (p * k)) split ⟩ (x % p * k + x / p * (p * k)) % (p * k)
    ≡⟨ add-mul-mod_self_right (x % p * k) (x / p) (p * k) ⟩ x % p * k % (p * k)
    ≡⟨ mod-eq_of_lt (mul-lt-mul_of_pos_right (mod-lt x hp) hk) ⟩ x % p * k ∎
  where
    split : x * k ≡ x % p * k + x / p * (p * k)
    split = omega (arith, ap (λ (t : ℕ). t * k) (div-add-mod' x p))

-- Shifting left in 64 bits drops the top `k` bits.
pub u64_shifted : (k x : ℕ) → k ≤ 64 → u64 (x * 2 ^ k) ≡ x % 2 ^ (64 - k) * 2 ^ k
u64_shifted k x h =
    let whole : 2 ^ 64 ≡ 2 ^ (64 - k) * 2 ^ k =
      ap (λ (t : ℕ). 2 ^ t) {x = 64} {y = 64 - k + k} (omega arith) ∙ pow_add (64 - k) k in
    ap (λ (t : ℕ). x * 2 ^ k % t) whole
    ∙ mul-mod-mul x (2 ^ (64 - k)) (2 ^ k) (one-le-two_pow (64 - k)) (one-le-two_pow k)

pub shl64_lem : (x k : ℕ) → k < 64 → shl64 x k ≡ done (x % 2 ^ (64 - k) * 2 ^ k)
unfolding shl64
shl64_lem x k h = rw (lt→ltb _ _ h) (ap done (u64_shifted k x (omega arith)))

pub shr64_lem : (x k : ℕ) → k < 64 → shr64 x k ≡ done (x / 2 ^ k)
unfolding shr64
shr64_lem x k h = rw (lt→ltb _ _ h)

two_pow-lt : (n : ℕ) → n < 64 → 2 ^ n ≤ 2 ^ 63
two_pow-lt n h = pow-le-pow_right (omega arith) {i = n} {j = 63} (omega arith)

pub mask64_lem : (n : ℕ) → n < 64 → mask64 n ≡ done (2 ^ n - 1)
unfolding mask64
mask64_lem n h = rw (lt→ltb _ _ h) (ap done (omega (arith, one-le-two_pow n, two_pow-lt n h)))

pub mask64_undefined : (n : ℕ) → 64 ≤ n → mask64 n ≡ undefined
unfolding mask64 shl64
mask64_undefined n h = rw (le→ltb _ _ h)

pub shl64_undefined : (x n : ℕ) → 64 ≤ n → shl64 x n ≡ undefined
unfolding shl64
shl64_undefined x n h = rw (le→ltb _ _ h)
