-- ===== src/BitString/Cache.antt =====
-- The 64-bit accumulator of the readers and writers: `n` bits are pushed below the `k` cached ones
-- in MSB-first order, and above them in LSB-first order.
use native.Mathlib.Nat.{
  mul-add-div_right, div-eq_of_lt, div-lt_iff_lt-mul, mod-eq_of_lt, add_comm, pow-le-pow_right,
  mul-le-mul_right,
}
use bitstream_h.Base.{ℕ, ◌+◌, ◌-◌, ◌*◌, ◌/◌, ◌%◌, ◌^◌, ◌≤◌, ◌<◌, ◌≡◌, ap, ◌∙◌, arith, bit_or, ◌++◌}
use mathlib.Core.Path.{ap₂}
use bitstream_h.Word.Laws.{pow_add, one-le-two_pow, bit_or_shifted, bit_or_low}
use bitstream_h.BitString.{msb_first, lsb_first, bits}
use bitstream_h.BitString.Laws.{bits-mod, bits-msb_add, bits-lsb_add, bits_above}

pub lt_two_pow_mono : (k n x : ℕ) → x < 2 ^ k → k ≤ n → x < 2 ^ n
lt_two_pow_mono k n x hx h = omega (arith, pow-le-pow_right {n = 2} (omega arith) {i = k} {j = n} h)

push_msb_value : (k n c v : ℕ) → v < 2 ^ n → (c * 2 ^ n + v) / 2 ^ n ≡ c
push_msb_value k n c v hv =
    mul-add-div_right (one-le-two_pow n) c v ∙ omega (arith, div-eq_of_lt hv)

-- `(cache << n) | v`
pub push_msb :
    (k n c v : ℕ)
    → v < 2 ^ n
    → k + n ≤ 64
    → bits msb_first (k + n) (bit_or (c % 2 ^ (64 - n) * 2 ^ n) v)
      ≡ bits msb_first k c ++ bits msb_first n v
push_msb k n c v hv h =
    ap (bits msb_first (k + n)) (bit_or_shifted n (c % 2 ^ (64 - n)) v hv)
    ∙ bits-msb_add k n _
    ∙ ap₂ ◌++◌
        (ap (bits msb_first k) (push_msb_value k n (c % 2 ^ (64 - n)) v hv)
          ∙ bits-mod msb_first k (64 - n) c (omega arith))
        (ap (bits msb_first n) (add_comm _ v) ∙ bits_above msb_first n v (c % 2 ^ (64 - n)))

-- `v << k` does not lose bits of a field that fits above the cached ones.
field_fits : (k n v : ℕ) → v < 2 ^ n → k + n ≤ 64 → v % 2 ^ (64 - k) ≡ v
field_fits k n v hv h = mod-eq_of_lt (lt_two_pow_mono n (64 - k) v hv (omega arith))

-- `cache | (v << k)`
push_lsb_value :
    (k n c v : ℕ)
    → c < 2 ^ k
    → v < 2 ^ n
    → k + n ≤ 64
    → bit_or c (v % 2 ^ (64 - k) * 2 ^ k) ≡ c + v * 2 ^ k
push_lsb_value k n c v hc hv h =
    bit_or_low k (v % 2 ^ (64 - k)) c hc
    ∙ ap (λ (t : ℕ). t * 2 ^ k + c) (field_fits k n v hv h)
    ∙ add_comm _ c

pub push_lsb :
    (k n c v : ℕ)
    → c < 2 ^ k
    → v < 2 ^ n
    → k + n ≤ 64
    → bits lsb_first (k + n) (bit_or c (v % 2 ^ (64 - k) * 2 ^ k))
      ≡ bits lsb_first k c ++ bits lsb_first n v
push_lsb k n c v hc hv h =
    ap (bits lsb_first (k + n)) (push_lsb_value k n c v hc hv h)
    ∙ bits-lsb_add k n _
    ∙ ap₂ ◌++◌ (bits_above lsb_first k c v) (
        ap (bits lsb_first n)
          (ap (λ (t : ℕ). t / 2 ^ k) (add_comm c _) ∙ push_msb_value 0 k v c hc))

-- and leaves the cache clean above its bits.
pub push_lsb-lt :
    (k n c v : ℕ)
    → c < 2 ^ k
    → v < 2 ^ n
    → k + n ≤ 64
    → bit_or c (v % 2 ^ (64 - k) * 2 ^ k) < 2 ^ (k + n)
push_lsb-lt k n c v hc hv h = omega (
  arith,
  push_lsb_value k n c v hc hv h,
  pow_add k n,
  mul-le-mul_right {m = v + 1} {n = 2 ^ n} (2 ^ k) (omega arith),
)

-- Taking the lowest `n` bits away, `cache >> n`.
pub pull_lsb-lt : (n k c : ℕ) → c < 2 ^ (n + k) → c / 2 ^ n < 2 ^ k
pull_lsb-lt n k c h = (div-lt_iff_lt-mul (one-le-two_pow n)).1 (omega (arith, pow_add n k))
