-- ===== src/BitString/Window.antt =====
-- What a window over the stream shows of the field at its front, in either order.
use mathlib.Core.Path.{subst}
use native.Mathlib.Nat.{mod-eq_of_lt}
use bitstream_h.Base.{
  ℕ, zero, suc, ◌+◌, ◌-◌, ◌*◌, ◌^◌, ◌≤◌, ◌<◌, ◌≡◌, refl, ap, ◌∙◌, arith, Bool, List, [], ◌∷◌, ◌++◌,
  length, take, length-take,
}
use bitstream_h.BitString.{BitOrder, msb_first, lsb_first, bits, value}
use bitstream_h.BitString.Laws.{
  length-bits, value-bits, value-msb_append, value-lsb_append, value-lt,
}

take-append_more :
    (n : ℕ) (xs ys : List Bool) → length xs ≤ n → take n (xs ++ ys) ≡ xs ++ take (n - length xs) ys
take-append_more n [] ys h = ap (λ (k : ℕ). take k ys) (omega arith)
take-append_more zero (x ∷ xs) ys h = absurd (omega arith)
take-append_more (suc n) (x ∷ xs) ys h =
    ap (λ t. x ∷ t)
      (take-append_more n xs ys (omega arith)
        ∙ ap (λ (k : ℕ). xs ++ take k ys) {x = n - length xs} (omega arith))

pub value-take-lt :
    (o : BitOrder) (n : ℕ) (s : List Bool) → n ≤ length s → value o (take n s) < 2 ^ n
value-take-lt o n s h =
    subst (λ (k : ℕ). value o (take n s) < 2 ^ k) (length-take n s h) (value-lt o (take n s))

module _ (m v n : ℕ) (tail : List Bool) (small : n ≤ m) (clean : v < 2 ^ n)
    (enough : m ≤ n + length tail) where
  -- The `m` next bits are the field and the first bits of what follows it.
  take-window : (o : BitOrder) → take m (bits o n v ++ tail) ≡ bits o n v ++ take (m - n) tail
  take-window o =
      take-append_more m (bits o n v) tail (omega (arith, length-bits o n v))
      ∙ ap (λ (k : ℕ). bits o n v ++ take (m - k) tail) (length-bits o n v)

  -- In MSB-first order the field stands on top.
  pub window_msb :
      value msb_first (take m (bits msb_first n v ++ tail))
      ≡ v * 2 ^ (m - n) + value msb_first (take (m - n) tail)
  window_msb =
      ap (value msb_first) (take-window msb_first)
      ∙ value-msb_append (bits msb_first n v) (take (m - n) tail)
      ∙ rw (value-bits msb_first n v, mod-eq_of_lt clean, length-take (m - n) tail (omega arith))
          refl

  -- In LSB-first order the field stands below.
  pub window_lsb :
      value lsb_first (take m (bits lsb_first n v ++ tail))
      ≡ v + 2 ^ n * value lsb_first (take (m - n) tail)
  window_lsb =
      ap (value lsb_first) (take-window lsb_first)
      ∙ value-lsb_append (bits lsb_first n v) (take (m - n) tail)
      ∙ rw (value-bits lsb_first n v, mod-eq_of_lt clean, length-bits lsb_first n v) refl
