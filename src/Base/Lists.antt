-- ===== src/Base/Lists.antt =====
-- Lists measured and indexed by native numbers, under the library's names.
use Prim.Native.Nat.{ℕ, zero, suc, ◌+◌, ◌-◌, ◌≤◌, ◌<◌}
use mathlib.Core.Path.{◌≡◌, refl, sym, ap, ◌∙◌}
use mathlib.Core.List.{List, [], ◌∷◌, ◌++◌, map}
use mathlib.Core.Option.{Option, none, some}
use mathlib.Core.Logic.{◌≢◌}
use native.Mathlib.Omega.{arith}

module _ {ℓ} {A : Type ℓ} where
  abbrev pub length : List A → ℕ
  length [] = 0
  length (x ∷ xs) = suc (length xs)

  abbrev pub get_elem? : List A → ℕ → Option A
  get_elem? [] i = none
  get_elem? (x ∷ xs) zero = some x
  get_elem? (x ∷ xs) (suc i) = get_elem? xs i

  -- A write out of bounds changes nothing.
  abbrev pub set : List A → ℕ → A → List A
  set [] i v = []
  set (x ∷ xs) zero v = v ∷ xs
  set (x ∷ xs) (suc i) v = x ∷ set xs i v

  abbrev pub take : ℕ → List A → List A
  take zero xs = []
  take (suc n) [] = []
  take (suc n) (x ∷ xs) = x ∷ take n xs

  abbrev pub drop : ℕ → List A → List A
  drop zero xs = xs
  drop (suc n) [] = []
  drop (suc n) (x ∷ xs) = drop n xs

  abbrev pub replicate : ℕ → A → List A
  replicate zero a = []
  replicate (suc n) a = a ∷ replicate n a

  abbrev pub All {κ} : (A → Type κ) → List A → Type κ
  All P [] = Unit {κ}
  All P (x ∷ xs) = P x × All P xs

module _ {ℓ} {A : Type ℓ} where
  pub length-append : (xs ys : List A) → length (xs ++ ys) ≡ length xs + length ys
  length-append [] ys = omega arith
  length-append (x ∷ xs) ys = omega (arith, length-append xs ys)

  pub length-set : (xs : List A) (i : ℕ) (v : A) → length (set xs i v) ≡ length xs
  length-set [] i v = refl
  length-set (x ∷ xs) zero v = refl
  length-set (x ∷ xs) (suc i) v = ap suc (length-set xs i v)

  pub length-take : (n : ℕ) (xs : List A) → n ≤ length xs → length (take n xs) ≡ n
  length-take zero xs h = refl
  length-take (suc n) [] h = absurd (omega arith)
  length-take (suc n) (x ∷ xs) h = ap suc (length-take n xs (omega arith))

  pub length-drop : (n : ℕ) (xs : List A) → length (drop n xs) ≡ length xs - n
  length-drop zero xs = omega arith
  length-drop (suc n) [] = omega arith
  length-drop (suc n) (x ∷ xs) = omega (arith, length-drop n xs)

  pub take-append-drop : (n : ℕ) (xs : List A) → take n xs ++ drop n xs ≡ xs
  take-append-drop zero xs = refl
  take-append-drop (suc n) [] = refl
  take-append-drop (suc n) (x ∷ xs) = ap (λ t. x ∷ t) (take-append-drop n xs)

  -- Cutting a list at the end of its first part.
  pub take-append : (n : ℕ) (xs ys : List A) → length xs ≡ n → take n (xs ++ ys) ≡ xs
  take-append zero [] ys h = refl
  take-append zero (x ∷ xs) ys h = absurd (omega arith)
  take-append (suc n) [] ys h = absurd (omega arith)
  take-append (suc n) (x ∷ xs) ys h = ap (λ t. x ∷ t) (take-append n xs ys (omega arith))

  pub drop-append : (n : ℕ) (xs ys : List A) → length xs ≡ n → drop n (xs ++ ys) ≡ ys
  drop-append zero [] ys h = refl
  drop-append zero (x ∷ xs) ys h = absurd (omega arith)
  drop-append (suc n) [] ys h = absurd (omega arith)
  drop-append (suc n) (x ∷ xs) ys h = drop-append n xs ys (omega arith)

  pub drop-length : (n : ℕ) (xs : List A) → length xs ≤ n → drop n xs ≡ []
  drop-length zero [] h = refl
  drop-length zero (x ∷ xs) h = absurd (omega arith)
  drop-length (suc n) [] h = refl
  drop-length (suc n) (x ∷ xs) h = drop-length n xs (omega arith)

  pub take-length : (n : ℕ) (xs : List A) → length xs ≤ n → take n xs ≡ xs
  take-length zero [] h = refl
  take-length zero (x ∷ xs) h = absurd (omega arith)
  take-length (suc n) [] h = refl
  take-length (suc n) (x ∷ xs) h = ap (λ t. x ∷ t) (take-length n xs (omega arith))

  pub drop-drop : (m n : ℕ) (xs : List A) → drop m (drop n xs) ≡ drop (n + m) xs
  drop-drop m zero xs = ap (λ k. drop k xs) {x = m} {y = 0 + m} (omega arith)
  drop-drop m (suc n) [] =
      drop-length m [] (omega arith) ∙ sym (drop-length (suc n + m) [] (omega arith))
  drop-drop m (suc n) (x ∷ xs) =
      drop-drop m n xs ∙ ap (λ k. drop k (x ∷ xs)) {x = suc (n + m)} {y = suc n + m} (omega arith)

  -- Lists that agree from one position on agree from every later one.
  pub drop_mono : (m n : ℕ) (xs ys : List A) → drop m xs ≡ drop m ys → m ≤ n → drop n xs ≡ drop n ys
  drop_mono m n xs ys e h =
      ap (λ k. drop k xs) {x = n} {y = m + (n - m)} (omega arith)
      ∙ sym (drop-drop (n - m) m xs)
      ∙ ap (drop (n - m)) e
      ∙ drop-drop (n - m) m ys
      ∙ ap (λ k. drop k ys) {x = m + (n - m)} {y = n} (omega arith)

  pub length-replicate : (n : ℕ) (a : A) → length (replicate n a) ≡ n
  length-replicate zero a = refl
  length-replicate (suc n) a = ap suc (length-replicate n a)

pub drop-replicate {ℓ} :
    {A : Type ℓ} (n m : ℕ) (a : A) → drop n (replicate m a) ≡ replicate (m - n) a
drop-replicate zero m a = ap (λ (k : ℕ). replicate k a) {x = m} {y = m - 0} (omega arith)
drop-replicate (suc n) zero a = ap (λ (k : ℕ). replicate k a) {x = 0} {y = 0 - suc n} (omega arith)
drop-replicate (suc n) (suc m) a =
    drop-replicate n m a
    ∙ ap (λ (k : ℕ). replicate k a) {x = m - n} {y = suc m - suc n} (omega arith)

pub length-map {ℓ κ} :
    {A : Type ℓ} {B : Type κ} (f : A → B) (xs : List A) → length (map f xs) ≡ length xs
length-map f [] = refl
length-map f (x ∷ xs) = ap suc (length-map f xs)

pub some_of {ℓ} : {A : Type ℓ} (o : Option A) → o ≢ none → (a : A) × (o ≡ some a)
some_of none h = absurd (h refl)
some_of (some a) h = (a, refl)

-- What the elements' property gives of their images.
pub All-map {ℓ κ ι μ} :
    {A : Type ℓ} {B : Type κ} {P : A → Type ι} (Q : B → Type μ) (f : A → B)
    → ((a : A) → P a → Q (f a))
    → (xs : List A) → All P xs
    → All Q (map f xs)
All-map Q f h [] ps = tt
All-map Q f h (x ∷ xs) ps = (h x ps.0, All-map Q f h xs ps.1)

-- The list of the first `n` values of a function.
abbrev pub tabulate {ℓ} : {A : Type ℓ} → (ℕ → A) → ℕ → List A
tabulate f zero = []
tabulate f (suc n) = f 0 ∷ tabulate (λ i. f (suc i)) n

pub get_elem?-tabulate {ℓ} :
    {A : Type ℓ} (f : ℕ → A) (n i : ℕ) → i < n → get_elem? (tabulate f n) i ≡ some (f i)
get_elem?-tabulate f zero i h = absurd (omega arith)
get_elem?-tabulate f (suc n) zero h = refl
get_elem?-tabulate f (suc n) (suc i) h = get_elem?-tabulate (λ k. f (suc k)) n i (omega arith)
