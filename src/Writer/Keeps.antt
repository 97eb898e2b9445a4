-- ===== src/Writer/Keeps.antt =====
-- What a writer's operations never touch, in whatever state they are called: the memory before the
-- position and past where it moves to, the size, and a raised overflow flag.
use bitstream_h.Base.{
  ℕ, zero, suc, [], ◌∷◌, ◌+◌, ◌^◌, ◌≤◌, ◌<◌, ◌≡◌, refl, sym, ap, ◌∙◌, arith, Bool, true, ◌||◌, List,
  length, take, drop, set, length-set, drop_mono, leb, ◌==◌, Outcome, Ends, done-Ends, Ends_mono,
  >>=-Ends, if-Ends,
}
use bitstream_h.BitString.Bytes.{drop-set}
use bitstream_h.Writer.Flush.{flush_with}
use bitstream_h.Writer.{Writer}

-- The position is in the memory that the writer was given, of a size that C can express.
abbrev pub IsBounded : Writer → Type 0
IsBounded w = (w.byte_pos ≤ w.size) × (w.size < 2 ^ 64)

pub record Keeps (w w' : Writer) : Type 0 where
  pub bounded : IsBounded w'
  pub same_size : w'.size ≡ w.size
  pub same_length : length w'.buffer ≡ length w.buffer
  pub onward : w.byte_pos ≤ w'.byte_pos
  pub before : take w.byte_pos w'.buffer ≡ take w.byte_pos w.buffer
  pub beyond : drop w'.byte_pos w'.buffer ≡ drop w'.byte_pos w.buffer
  pub sticky : w.overflow || w'.overflow ≡ w'.overflow

pub either_same : (b : Bool) → b || b ≡ b
either_same b = ground arith

either_true : (b : Bool) → b || true ≡ true
either_true b = ground arith

pub Keeps-self : (w : Writer) → IsBounded w → Keeps w w
Keeps-self w b = record {
  bounded = b;
  same_size = refl;
  same_length = refl;
  onward = omega arith;
  before = refl;
  beyond = refl;
  sticky = either_same w.overflow;
}

-- Raising the flag.
pub Keeps-flagged : (w : Writer) → IsBounded w → Keeps w (record w { overflow = true })
Keeps-flagged w b = record {
  bounded = b;
  same_size = refl;
  same_length = refl;
  onward = omega arith;
  before = refl;
  beyond = refl;
  sticky = either_true w.overflow;
}

take-take {ℓ} : {A : Type ℓ} (m n : ℕ) (xs : List A) → m ≤ n → take m (take n xs) ≡ take m xs
take-take zero n xs h = refl
take-take (suc m) zero xs h = absurd (omega arith)
take-take (suc m) (suc n) [] h = refl
take-take (suc m) (suc n) (x ∷ xs) h = ap (λ t. x ∷ t) (take-take m n xs (omega arith))

-- What agrees on the first elements agrees on fewer.
take_mono {ℓ} :
    {A : Type ℓ} (m n : ℕ) (xs ys : List A) → take n xs ≡ take n ys → m ≤ n → take m xs ≡ take m ys
take_mono m n xs ys e h = sym (take-take m n xs h) ∙ ap (take m) e ∙ take-take m n ys h

pub Keeps-trans : {w w' w'' : Writer} → Keeps w w' → Keeps w' w'' → Keeps w w''
Keeps-trans {w} {w'} {w''} a b = record {
  bounded = b.bounded;
  same_size = b.same_size ∙ a.same_size;
  same_length = b.same_length ∙ a.same_length;
  onward = omega (arith, a.onward, b.onward);
  before = take_mono w.byte_pos w'.byte_pos w''.buffer w'.buffer b.before a.onward ∙ a.before;
  beyond = b.beyond ∙ drop_mono w'.byte_pos w''.byte_pos w'.buffer w.buffer a.beyond b.onward;
  sticky = ground (arith, a.sticky, b.sticky);
}

-- The accumulator plays no part.
pub Keeps-recached :
    {w w' : Writer} (cache k : ℕ)
    → Keeps w w'
    → Keeps w (record w' { bit_cache = cache; bits_in_cache = k })
Keeps-recached cache k a = record {
  bounded = a.bounded;
  same_size = a.same_size;
  same_length = a.same_length;
  onward = a.onward;
  before = a.before;
  beyond = a.beyond;
  sticky = a.sticky;
}

pub recached-Keeps :
    {w w' : Writer} (cache k : ℕ)
    → Keeps (record w { bit_cache = cache; bits_in_cache = k }) w'
    → Keeps w w'
recached-Keeps cache k a = record {
  bounded = a.bounded;
  same_size = a.same_size;
  same_length = a.same_length;
  onward = a.onward;
  before = a.before;
  beyond = a.beyond;
  sticky = a.sticky;
}

take-set_before : (i x : ℕ) (xs : List ℕ) → take i (set xs i x) ≡ take i xs
take-set_before zero x xs = refl
take-set_before (suc i) x [] = refl
take-set_before (suc i) x (y ∷ ys) = ap (λ t. y ∷ t) (take-set_before i x ys)

-- A byte stored at the position, which then moves on.
pub Keeps-stored :
    (w : Writer) (byte : ℕ)
    → IsBounded w
    → w.byte_pos < w.size
    → Keeps w (record w { buffer = set w.buffer w.byte_pos byte; byte_pos = w.byte_pos + 1 })
Keeps-stored w byte b room = record {
  bounded = omega arith;
  same_size = refl;
  same_length = length-set w.buffer w.byte_pos byte;
  onward = omega arith;
  before = take-set_before w.byte_pos byte w.buffer;
  beyond = drop-set w.byte_pos (w.byte_pos + 1) byte w.buffer (omega arith);
  sticky = either_same w.overflow;
}

-- The flush of either bit order, from what its dump and its padding touch.
module _ (dump pad : Writer → Outcome Writer)
    (dumps : (w : Writer) → IsBounded w → Ends (dump w) (Keeps w))
    (pads : (w : Writer) → IsBounded w → Ends (pad w) (Keeps w)) where
  after_dump : (w w' : Writer) → Keeps w w' → Ends (pad w') (Keeps w)
  after_dump w w' k = Ends_mono (pads w' k.bounded) (λ w''. Keeps-trans k)

  pub flush_with-Ends : (w : Writer) → IsBounded w → Ends (flush_with dump pad w) (Keeps w)
  flush_with-Ends w b =
      if-Ends (w.bits_in_cache == 0) (λ none. done-Ends w (Keeps-self w b))
        (λ some.
          if-Ends (w.overflow || leb 8 w.bits_in_cache)
            (λ busy. >>=-Ends (dumps w b) (λ w' k.
              if-Ends (w'.bits_in_cache == 0) (λ none. done-Ends w' k)
                (λ left.
                  if-Ends (leb 8 w'.bits_in_cache)
                    (λ full. done-Ends _ (Keeps-trans k (Keeps-flagged w' k.bounded)))
                    (λ few. after_dump w w' k))))
            (λ few. pads w b))
