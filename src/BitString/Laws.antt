-- ===== src/BitString/Laws.antt =====
-- How fields of bits are joined, cut and read back.
use native.Mathlib.Nat.{
  pow-suc, add-mul-div_right, div-div-eq-div-mul, div-add-mod', zero-add, div-one,
  add-mul-mod_self_right, mod-eq_of_lt, mod-lt, div-eq_of_lt, mul-le-mul_right, mul-add-div_right,
  zero-div, add-mul, mul_assoc,
}
use Prim.Native.Nat.add
use mathlib.Core.Path.{ap₂}
use bitstream_h.Base.{
  ℕ, zero, suc, ◌+◌, ◌-◌, ◌*◌, ◌/◌, ◌%◌, ◌^◌, ◌≤◌, ◌<◌, ◌≡◌, refl, sym, ap, ◌∙◌, arith, Bool, true,
  false, List, [], ◌∷◌, ◌++◌, length, length-append, replicate, ◌==◌,
}
use bitstream_h.Word.Laws.{pow_add, one-le-two_pow}
use bitstream_h.BitString.{BitOrder, msb_first, lsb_first, odd, bits, bit_value, value}

pub bit_value-odd : (v : ℕ) → bit_value (odd v) ≡ v % 2
unfolding odd
bit_value-odd v = ground arith

odd_add : (v q : ℕ) → odd (v + 2 * q) ≡ odd v
unfolding odd
odd_add v q = ground arith

odd-bit_value : (b : Bool) (q : ℕ) → odd (bit_value b + 2 * q) ≡ b
odd-bit_value true q = odd_add 1 q ∙ unfold odd in refl
odd-bit_value false q = odd_add 0 q ∙ unfold odd in refl

mod_unique : (x q r m : ℕ) → x ≡ r + q * m → r < m → x % m ≡ r
mod_unique x q r m e h = ap (λ (t : ℕ). t % m) e ∙ add-mul-mod_self_right r q m ∙ mod-eq_of_lt h

pub length-bits : (o : BitOrder) (n v : ℕ) → length (bits o n v) ≡ n
unfolding bits
length-bits msb_first zero v = refl
length-bits lsb_first zero v = refl
length-bits msb_first (suc n) v = ap suc (length-bits msb_first n v)
length-bits lsb_first (suc n) v = ap suc (length-bits lsb_first n (v / 2))

mul-two_pow-suc : (q k : ℕ) → q * 2 ^ suc k ≡ 2 * q * 2 ^ k
mul-two_pow-suc q k = omega (arith, ap (λ (t : ℕ). q * t) (pow-suc 2 k))

-- What stands above the field does not count.
pub bits_above : (o : BitOrder) (n v q : ℕ) → bits o n (v + q * 2 ^ n) ≡ bits o n v
unfolding bits
bits_above msb_first zero v q = refl
bits_above lsb_first zero v q = refl
bits_above msb_first (suc n) v q =
    ap₂ ◌∷◌
      (ap odd (
          ap (λ (t : ℕ). (v + t) / 2 ^ n) (mul-two_pow-suc q n)
          ∙ add-mul-div_right v (2 * q) (one-le-two_pow n))
        ∙ odd_add (v / 2 ^ n) q)
      (ap (λ (t : ℕ). bits msb_first n (v + t)) (mul-two_pow-suc q n)
        ∙ bits_above msb_first n v (2 * q))
bits_above lsb_first (suc n) v q =
    ap₂ ◌∷◌
      (ap (λ (t : ℕ). odd (v + t)) {y = 2 * (q * 2 ^ n)} (omega (arith, mul-two_pow-suc q n))
        ∙ odd_add v (q * 2 ^ n))
      (ap (bits lsb_first n) {y = v / 2 + q * 2 ^ n} (omega (arith, mul-two_pow-suc q n))
        ∙ bits_above lsb_first n (v / 2) q)

pub bits-mod : (o : BitOrder) (n k v : ℕ) → n ≤ k → bits o n (v % 2 ^ k) ≡ bits o n v
bits-mod o n k v h =
    sym (bits_above o n (v % 2 ^ k) (v / 2 ^ k * 2 ^ (k - n))) ∙ ap (bits o n) whole
  where
    power : 2 ^ k ≡ 2 ^ (k - n) * 2 ^ n
    power = ap (λ (t : ℕ). 2 ^ t) {x = k} {y = k - n + n} (omega arith) ∙ pow_add (k - n) n

    whole : v % 2 ^ k + v / 2 ^ k * 2 ^ (k - n) * 2 ^ n ≡ v
    whole = omega (arith, div-add-mod' v (2 ^ k), ap (λ (t : ℕ). v / 2 ^ k * t) power)

-- The top `m` of `m + n` bits come first in MSB-first order, the lowest `m` in LSB-first order.
pub bits-msb_add :
    (m n v : ℕ) → bits msb_first (m + n) v ≡ bits msb_first m (v / 2 ^ n) ++ bits msb_first n v
unfolding bits
bits-msb_add zero n v = rw zero-add
bits-msb_add (suc m) n v = rw add.suc (
    ap₂ ◌∷◌
      (ap odd (
        ap (λ (t : ℕ). v / t) (omega (arith, pow_add m n))
        ∙ sym (div-div-eq-div-mul v (2 ^ n) (2 ^ m))))
      (bits-msb_add m n v))

pub bits-lsb_add :
    (m n v : ℕ) → bits lsb_first (m + n) v ≡ bits lsb_first m v ++ bits lsb_first n (v / 2 ^ m)
unfolding bits
bits-lsb_add zero n v = rw (zero-add, div-one)
bits-lsb_add (suc m) n v = rw add.suc (
    ap (λ t. odd v ∷ t)
      (bits-lsb_add m n (v / 2)
        ∙ ap (λ (t : ℕ). bits lsb_first m (v / 2) ++ bits lsb_first n t)
            (div-div-eq-div-mul v 2 (2 ^ m) ∙ ap (λ (t : ℕ). v / t) (omega (arith, pow-suc 2 m)))))

-- The clauses of `bits` and `value` as equations, for proofs that keep both shut.
bits-msb_suc : (n v : ℕ) → bits msb_first (suc n) v ≡ odd (v / 2 ^ n) ∷ bits msb_first n v
unfolding bits
bits-msb_suc n v = refl

bits-lsb_suc : (n v : ℕ) → bits lsb_first (suc n) v ≡ odd v ∷ bits lsb_first n (v / 2)
unfolding bits
bits-lsb_suc n v = refl

value-msb_cons :
    (b : Bool) (bs : List Bool)
    → value msb_first (b ∷ bs) ≡ bit_value b * 2 ^ length bs + value msb_first bs
unfolding value
value-msb_cons b bs = refl

value-lsb_cons :
    (b : Bool) (bs : List Bool) → value lsb_first (b ∷ bs) ≡ bit_value b + 2 * value lsb_first bs
unfolding value
value-lsb_cons b bs = refl

-- The lowest `n + 1` bits of a number, split at the top and at the bottom.
mod-two_pow_top : (n v : ℕ) → v % 2 ^ suc n ≡ v / 2 ^ n % 2 * 2 ^ n + v % 2 ^ n
mod-two_pow_top n v =
    mod_unique v (v / 2 ^ n / 2) _ (2 ^ suc n)
      (omega (
        arith,
        div-add-mod' v (2 ^ n),
        ap (λ (t : ℕ). t * 2 ^ n) (div-add-mod' (v / 2 ^ n) 2),
        mul-two_pow-suc (v / 2 ^ n / 2) n,
      ))
      (omega (
        arith,
        pow-suc 2 n,
        mod-lt v (one-le-two_pow n),
        mul-le-mul_right {m = v / 2 ^ n % 2} {n = 1} (2 ^ n) (omega arith),
      ))

mod-two_pow_bottom : (n v : ℕ) → v % 2 ^ suc n ≡ v % 2 + 2 * (v / 2 % 2 ^ n)
mod-two_pow_bottom n v =
    mod_unique v (v / 2 / 2 ^ n) _ (2 ^ suc n)
      (omega (arith, div-add-mod' (v / 2) (2 ^ n), mul-two_pow-suc (v / 2 / 2 ^ n) n))
      (omega (arith, pow-suc 2 n, mod-lt (v / 2) (one-le-two_pow n)))

-- Reading a field of `n` bits gives its number back, without what stood above it.
pub value-bits : (o : BitOrder) (n v : ℕ) → value o (bits o n v) ≡ v % 2 ^ n
value-bits msb_first zero v = unfold bits value in omega arith
value-bits lsb_first zero v = unfold bits value in omega arith
value-bits msb_first (suc n) v =
    rw (bits-msb_suc, value-msb_cons, bit_value-odd, length-bits, value-bits msb_first n v)
      (sym (mod-two_pow_top n v))
value-bits lsb_first (suc n) v =
    rw (bits-lsb_suc, value-lsb_cons, bit_value-odd, value-bits lsb_first n (v / 2))
      (sym (mod-two_pow_bottom n v))

pub value-lt : (o : BitOrder) (bs : List Bool) → value o bs < 2 ^ length bs
unfolding value
value-lt msb_first [] = omega arith
value-lt lsb_first [] = omega arith
value-lt msb_first (b ∷ bs) = ground (arith, pow-suc 2 (length bs), value-lt msb_first bs)
value-lt lsb_first (b ∷ bs) = ground (arith, pow-suc 2 (length bs), value-lt lsb_first bs)

pub bits-value : (o : BitOrder) (bs : List Bool) → bits o (length bs) (value o bs) ≡ bs
unfolding bits value
bits-value msb_first [] = refl
bits-value lsb_first [] = refl
bits-value msb_first (b ∷ bs) = ap₂ ◌∷◌ (ap odd top ∙ odd-bit_value b 0) (
    ap (bits msb_first (length bs)) (omega arith)
    ∙ bits_above msb_first (length bs) (value msb_first bs) (bit_value b)
    ∙ bits-value msb_first bs)
  where
    top : (bit_value b * 2 ^ length bs + value msb_first bs) / 2 ^ length bs ≡ bit_value b + 2 * 0
    top =
        mul-add-div_right (one-le-two_pow (length bs)) (bit_value b) (value msb_first bs)
        ∙ omega (arith, div-eq_of_lt (value-lt msb_first bs))
bits-value lsb_first (b ∷ bs) = ap₂ ◌∷◌ (odd-bit_value b (value lsb_first bs)) (
    ap (bits lsb_first (length bs)) {y = value lsb_first bs} (ground arith)
    ∙ bits-value lsb_first bs)

-- The field of the number 0.
pub bits-zero : (o : BitOrder) (n : ℕ) → bits o n 0 ≡ replicate n false
unfolding bits odd
bits-zero msb_first zero = refl
bits-zero lsb_first zero = refl
bits-zero msb_first (suc n) =
    ap₂ ◌∷◌ (ap (λ (t : ℕ). t % 2 == 1) (zero-div (2 ^ n))) (bits-zero msb_first n)
bits-zero lsb_first (suc n) = ap (λ t. false ∷ t) (bits-zero lsb_first n)

-- In MSB-first order the first bits are the high ones.
pub value-msb_append :
    (xs ys : List Bool)
    → value msb_first (xs ++ ys) ≡ value msb_first xs * 2 ^ length ys + value msb_first ys
value-msb_append [] ys = unfold value in omega arith
value-msb_append (x ∷ xs) ys = omega (
  arith,
  value-msb_cons x (xs ++ ys),
  value-msb_cons x xs,
  value-msb_append xs ys,
  ap (λ (k : ℕ). bit_value x * 2 ^ k) (length-append xs ys),
  ap (λ (t : ℕ). bit_value x * t) (pow_add (length xs) (length ys)),
  mul_assoc (bit_value x) (2 ^ length xs) (2 ^ length ys),
  add-mul (bit_value x * 2 ^ length xs) (value msb_first xs) (2 ^ length ys),
  ap (λ (t : ℕ). t * 2 ^ length ys) (value-msb_cons x xs),
)

-- In LSB-first order the first bits are the low ones.
pub value-lsb_append :
    (xs ys : List Bool)
    → value lsb_first (xs ++ ys) ≡ value lsb_first xs + 2 ^ length xs * value lsb_first ys
value-lsb_append [] ys = unfold value in omega arith
value-lsb_append (x ∷ xs) ys = omega (
  arith,
  value-lsb_cons x (xs ++ ys),
  value-lsb_cons x xs,
  value-lsb_append xs ys,
  ap (λ (t : ℕ). t * value lsb_first ys) (pow-suc 2 (length xs)),
  mul_assoc 2 (2 ^ length xs) (value lsb_first ys),
)
