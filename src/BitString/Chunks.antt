-- ===== src/BitString/Chunks.antt =====
-- A string of bits cut into bytes.
use mathlib.Core.Path.{ap₂}
use bitstream_h.Base.{
  ℕ, zero, suc, ◌+◌, ◌*◌, ◌≤◌, ◌≡◌, refl, sym, ap, ◌∙◌, arith, Bool, List, [], ◌∷◌, ◌++◌, All,
  length, take, drop, length-take, length-drop, take-length,
}
use bitstream_h.BitString.{BitOrder, bits, value, bytes_bits}
use bitstream_h.BitString.Bytes.{IsByte}
use bitstream_h.BitString.Laws.{bits-value}
use bitstream_h.BitString.Window.{value-take-lt}

-- The next `n` bytes of a string of bits.
pub bytes_of : BitOrder → ℕ → List Bool → List ℕ
bytes_of o zero s = []
bytes_of o (suc n) s = value o (take 8 s) ∷ bytes_of o n (drop 8 s)

take_add : {A : Type 0} (m n : ℕ) (xs : List A) → take (m + n) xs ≡ take m xs ++ take n (drop m xs)
take_add zero n xs = ap (λ k. take k xs) {x = 0 + n} {y = n} (omega arith)
take_add (suc m) n [] =
    take-length (suc m + n) [] (omega arith) ∙ sym (take-length n [] (omega arith))
take_add (suc m) n (x ∷ xs) =
    ap (λ k. take k (x ∷ xs)) {x = suc m + n} {y = suc (m + n)} (omega arith)
    ∙ ap (λ t. x ∷ t) (take_add m n xs)

pub bytes_bits-bytes_of :
    (o : BitOrder) (n : ℕ) (s : List Bool)
    → 8 * n ≤ length s
    → bytes_bits o (bytes_of o n s) ≡ take (8 * n) s
unfolding bytes_of bytes_bits
bytes_bits-bytes_of o zero s h = refl
bytes_bits-bytes_of o (suc n) s h =
    ap₂ ◌++◌ first (bytes_bits-bytes_of o n (drop 8 s) (omega (arith, length-drop 8 s)))
    ∙ sym (take_add 8 (8 * n) s)
    ∙ ap (λ k. take k s) {x = 8 + 8 * n} {y = 8 * suc n} (omega arith)
  where
    first : bits o 8 (value o (take 8 s)) ≡ take 8 s
    first =
        ap (λ k. bits o k (value o (take 8 s))) (sym (length-take 8 s (omega arith)))
        ∙ bits-value o (take 8 s)

pub bytes_of-IsByte :
    (o : BitOrder) (n : ℕ) (s : List Bool) → 8 * n ≤ length s → All IsByte (bytes_of o n s)
unfolding bytes_of
bytes_of-IsByte o zero s h = tt
bytes_of-IsByte o (suc n) s h = (
  value-take-lt o 8 s (omega arith),
  bytes_of-IsByte o n (drop 8 s) (omega (arith, length-drop 8 s)),
)
