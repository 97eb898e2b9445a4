-- ===== src/Base/Text.antt =====
-- C strings in character arrays: the characters before the terminator, and what `strcmp` compares.
use Prim.Native.Nat.{ℕ, zero, suc, ◌<◌, ◌≤◌}
use mathlib.Core.Path.{◌≡◌, refl, ap}
use mathlib.Core.Logic.{◌≢◌}
use mathlib.Core.Bool.{Bool, true, false, ◌&&◌}
use mathlib.Core.List.{List, [], ◌∷◌}
use native.Mathlib.Omega.{arith}
use bitstream_h.Base.Lists.{length, set, take, All}
use bitstream_h.Base.Tests.{◌==◌, if◌then◌else◌, eq→==, ne→==}

-- The characters before the terminator.
unfoldable pub c_string : List ℕ → List ℕ
c_string [] = []
c_string (c ∷ cs) = if c == 0 then [] else c ∷ c_string cs

-- `strcmp (a, b) == 0`, of the characters before the terminators.
unfoldable pub same_text : List ℕ → List ℕ → Bool
same_text [] [] = true
same_text [] (y ∷ ys) = false
same_text (x ∷ xs) [] = false
same_text (x ∷ xs) (y ∷ ys) = (x == y) && same_text xs ys

pub same_text_self : (xs : List ℕ) → same_text xs xs ≡ true
unfolding same_text
same_text_self [] = refl
same_text_self (x ∷ xs) = rw (eq→== x x refl, same_text_self xs) refl

-- A terminator after characters that are none ends the string there.
pub c_string-set :
    (n : ℕ) (xs : List ℕ)
    → n < length xs
    → All (λ c. c ≢ 0) (take n xs)
    → c_string (set xs n 0) ≡ take n xs
unfolding c_string
c_string-set n [] h a = absurd (omega arith)
c_string-set zero (x ∷ xs) h a = refl
c_string-set (suc n) (x ∷ xs) h a =
    rw (ne→== x 0 a.0) (ap (λ t. x ∷ t) (c_string-set n xs (omega arith) a.1))

-- Wherever its first terminator stands, the string of an array with one is no longer than up to there.
pub length-c_string-set : (n : ℕ) (xs : List ℕ) → n < length xs → length (c_string (set xs n 0)) ≤ n
unfolding c_string
length-c_string-set n [] h = absurd (omega arith)
length-c_string-set zero (x ∷ xs) h = omega arith
length-c_string-set (suc n) (x ∷ xs) h =
    let rest = length-c_string-set n xs (omega arith) in ground arith
