-- ===== src/Examples/Text.antt =====
-- The text that a decoding loop of the programs leaves in its array, and its terminator.
use mathlib.Core.Path.{subst}
use bitstream_h.Base.{
  ℕ, ◌+◌, ◌≤◌, ◌<◌, ◌≡◌, ◌≢◌, refl, sym, ◌∙◌, arith, append-nil, List, [], ◌∷◌, ◌++◌, All, length,
  length-set, take, set, c_string, c_string-set, length-c_string-set, store, store-set, Returns,
  done-Returns,
}
use bitstream_h.BitString.Bytes.{take-set_append}

-- Behind the text `before` stands `text`, up to the index that the loop leaves.
pub record IsText (limit : ℕ) (out before text : List ℕ) (p : List ℕ × ℕ) : Type 0 where
  pub in_array : p.1 ≤ limit
  pub room : length p.0 ≡ length out
  pub shown : take p.1 p.0 ≡ before ++ text

pub IsText-nil :
    (limit idx : ℕ) (out : List ℕ) → idx ≤ limit → IsText limit out (take idx out) [] (out, idx)
IsText-nil limit idx out h = record {
  in_array = h;
  room = refl;
  shown = sym (append-nil (take idx out));
}

-- A character written at the index comes before the rest of the text.
pub IsText-cons :
    {limit idx c : ℕ} {out cs : List ℕ} {p : List ℕ × ℕ}
    → idx < length out
    → IsText limit (set out idx c) (take (idx + 1) (set out idx c)) cs p
    → IsText limit out (take idx out) (c ∷ cs) p
IsText-cons {idx = idx} {c = c} {out = out} {cs = cs} h t = record {
  in_array = t.in_array;
  room = t.room ∙ length-set out idx c;
  shown = t.shown ∙ take-set_append idx c out cs h;
}

-- The terminator behind the text makes it the array's string.
pub IsText-Returns :
    {limit : ℕ} {out text : List ℕ} (p : List ℕ × ℕ)
    → IsText limit out [] text p
    → limit < length out
    → All (λ c. c ≢ 0) text
    → Returns (store p.0 p.1 0) (λ out'. c_string out' ≡ text)
IsText-Returns p t h letters = rw (store-set p.0 p.1 0 (omega (arith, t.in_array, t.room))) (
    done-Returns _ (
      c_string-set p.1 p.0 (omega (arith, t.in_array, t.room))
        (subst (All (λ c. c ≢ 0)) (sym t.shown) letters)
      ∙ t.shown))

-- What a loop leaves on any input: the index is within the limit, and the array as long as before.
abbrev pub IsInside : ℕ → List ℕ → List ℕ × ℕ → Type 0
IsInside limit out p = (p.1 ≤ limit) × (length p.0 ≡ length out)

-- The terminator fits then, and the array holds a string.
pub IsInside-Returns :
    (limit : ℕ) (out : List ℕ) (p : List ℕ × ℕ)
    → IsInside limit out p
    → limit < length out
    → Returns
        (store p.0 p.1 0)
        (λ out'. (length out' ≡ length out) × (length (c_string out') ≤ limit))
IsInside-Returns limit out p t h = rw (store-set p.0 p.1 0 (omega (arith, t.0, t.1))) (
    done-Returns _ (
      length-set p.0 p.1 0 ∙ t.1,
      omega (arith, length-c_string-set p.1 p.0 (omega (arith, t.0, t.1)), t.0),
    ))
