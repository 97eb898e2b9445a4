-- ===== src/Word/Complement.antt =====
-- `^` of a word and its complement, and what an integrity check by it asks for.
use Prim.Native.Nat.{differ}
use native.Mathlib.Nat.{pow-suc}
use bitstream_h.Base.{
  ℕ, zero, suc, ◌+◌, ◌-◌, ◌*◌, ◌/◌, ◌%◌, ◌^◌, ◌<◌, bit_xor, ◌≡◌, refl, ap, ◌∙◌, arith, ◌==◌, eq→==,
  ne→==,
}
use native.Mathlib.Decide.{ℕ_discrete}
use bitstream_h.Word.{u16}
use bitstream_h.Word.Step.{bit_xor_step}
use bitstream_h.Word.Laws.{one-le-two_pow}

differ_complement : (c : ℕ) → c < 2 → differ c (1 - c) ≡ 1
differ_complement zero h = refl
differ_complement (suc zero) h = refl
differ_complement (suc (suc c)) h = absurd (omega arith)

-- `^` of a word and its complement is all ones.
pub bit_xor_complement : (k x : ℕ) → x < 2 ^ k → bit_xor x (2 ^ k - 1 - x) ≡ 2 ^ k - 1
bit_xor_complement zero zero h = refl
bit_xor_complement zero (suc x) h = absurd (omega arith)
bit_xor_complement (suc k) x h = omega (
  arith,
  pow-suc 2 k,
  one-le-two_pow k,
  bit_xor_step x (2 ^ suc k - 1 - x),
  bit_xor_complement k (x / 2) (omega (arith, pow-suc 2 k)),
  ap (λ (c : ℕ). differ (x % 2) c) {x = (2 ^ suc k - 1 - x) % 2} {y = 1 - x % 2}
      (omega (arith, pow-suc 2 k, one-le-two_pow k)),
  differ_complement (x % 2) (omega arith),
  ap (λ (c : ℕ). bit_xor (x / 2) c) {x = (2 ^ suc k - 1 - x) / 2} {y = 2 ^ k - 1 - x / 2}
      (omega (arith, pow-suc 2 k, one-le-two_pow k)),
)

differ_full : (c d : ℕ) → c < 2 → d < 2 → differ c d ≡ 1 → c + d ≡ 1
differ_full zero zero h l e = absurd (omega (arith, e))
differ_full zero (suc zero) h l e = refl
differ_full zero (suc (suc d)) h l e = absurd (omega arith)
differ_full (suc zero) zero h l e = refl
differ_full (suc zero) (suc d) h l e = absurd (omega (arith, e))
differ_full (suc (suc c)) d h l e = absurd (omega arith)

differ-lt : (c d : ℕ) → c < 2 → d < 2 → differ c d < 2
differ-lt zero d h l = l
differ-lt (suc zero) zero h l = omega arith
differ-lt (suc zero) (suc d) h l = omega arith
differ-lt (suc (suc c)) d h l = absurd (omega arith)

-- Words whose `^` is all ones are complements.
pub bit_xor_full : (k x y : ℕ) → x < 2 ^ k → y < 2 ^ k → bit_xor x y ≡ 2 ^ k - 1 → x + y ≡ 2 ^ k - 1
bit_xor_full zero x y h l e = omega arith
bit_xor_full (suc k) x y h l e = omega (
  arith,
  pow-suc 2 k,
  one-le-two_pow k,
  lowest,
  bit_xor_full k (x / 2) (y / 2) (omega (arith, pow-suc 2 k)) (omega (arith, pow-suc 2 k)) upper,
)
  where
    parts : differ (x % 2) (y % 2) + 2 * bit_xor (x / 2) (y / 2) ≡ 2 * 2 ^ k - 1
    parts = omega (arith, bit_xor_step x y, pow-suc 2 k, e)

    bit : differ (x % 2) (y % 2) < 2
    bit = differ-lt (x % 2) (y % 2) (omega arith) (omega arith)

    upper : bit_xor (x / 2) (y / 2) ≡ 2 ^ k - 1
    upper = omega (arith, parts, bit, one-le-two_pow k)

    lowest : x % 2 + y % 2 ≡ 1
    lowest =
        differ_full (x % 2) (y % 2) (omega arith) (omega arith)
          (omega (arith, parts, bit, one-le-two_pow k))

pub bit_xor-lt : (k x y : ℕ) → x < 2 ^ k → y < 2 ^ k → bit_xor x y < 2 ^ k
bit_xor-lt zero zero zero h l = omega arith
bit_xor-lt zero zero (suc y) h l = absurd (omega arith)
bit_xor-lt zero (suc x) y h l = absurd (omega arith)
bit_xor-lt (suc k) x y h l = omega (
  arith,
  pow-suc 2 k,
  bit_xor_step x y,
  differ-lt (x % 2) (y % 2) (omega arith) (omega arith),
  bit_xor-lt k (x / 2) (y / 2) (omega (arith, pow-suc 2 k)) (omega (arith, pow-suc 2 k)),
)

-- The integrity check on two 16-bit words asks for complements.
pub bit_xor-complements :
    (x y : ℕ) → x < 2 ^ 16 → y < 2 ^ 16 → (u16 (bit_xor x y) == 0xFFFF) ≡ (x + y == 0xFFFF)
bit_xor-complements x y h l = elim (ℕ_discrete (x + y) 0xFFFF) [
  | yes e ↦
      let full : bit_xor x y ≡ 0xFFFF =
        ap (bit_xor x) {x = y} {y = 2 ^ 16 - 1 - x} (omega arith) ∙ bit_xor_complement 16 x h in
      rw (full, eq→== (x + y) 0xFFFF e) refl
  | no n ↦
      rw
        (
          ne→== (u16 (bit_xor x y)) 0xFFFF
              (λ e. n (bit_xor_full 16 x y h l (omega (arith, e, bit_xor-lt 16 x y h l)))),
          ne→== (x + y) 0xFFFF n,
        )
        refl
]
