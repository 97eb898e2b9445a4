-- ===== src/BitString/Bytes.antt =====
-- The bits of byte sequences: eight to a byte, so that positions in bytes and in bits agree.
use bitstream_h.Base.{
  ℕ, zero, suc, ◌+◌, ◌*◌, ◌<◌, ◌≡◌, refl, sym, ap, ◌∙◌, arith, List, [], ◌∷◌, ◌++◌, append_assoc,
  append-nil, All, length, length-append, take, drop, drop-append, some, get_elem?, set,
  drop-length, drop-drop, take-append, take-append-drop, length-take, ◌≤◌,
}
use bitstream_h.BitString.{BitOrder, bits, bytes_bits, value}
use mathlib.Core.Path.{ap₂}
use bitstream_h.BitString.Laws.{length-bits, value-bits}

abbrev pub IsByte : ℕ → Type 0
IsByte b = b < 256

pub length-bytes_bits : (o : BitOrder) (bs : List ℕ) → length (bytes_bits o bs) ≡ 8 * length bs
unfolding bytes_bits
length-bytes_bits o [] = refl
length-bytes_bits o (b ∷ bs) =
    omega (
      arith,
      length-append (bits o 8 b) (bytes_bits o bs),
      length-bits o 8 b,
      length-bytes_bits o bs,
    )

pub bytes_bits-cons :
    (o : BitOrder) (b : ℕ) (bs : List ℕ) → bytes_bits o (b ∷ bs) ≡ bits o 8 b ++ bytes_bits o bs
unfolding bytes_bits
bytes_bits-cons o b bs = refl

pub bytes_bits-append :
    (o : BitOrder) (xs ys : List ℕ) → bytes_bits o (xs ++ ys) ≡ bytes_bits o xs ++ bytes_bits o ys
unfolding bytes_bits
bytes_bits-append o [] ys = refl
bytes_bits-append o (x ∷ xs) ys =
    rw (bytes_bits-append o xs ys) (sym (append_assoc (bits o 8 x) _ _))

-- Going `k` bytes on is going `8 * k` bits on.
pub bytes_bits-drop :
    (o : BitOrder) (k : ℕ) (bs : List ℕ) → bytes_bits o (drop k bs) ≡ drop (8 * k) (bytes_bits o bs)
bytes_bits-drop o zero bs = refl
bytes_bits-drop o (suc k) [] = unfold bytes_bits in sym (drop-length (8 * suc k) [] (omega arith))
bytes_bits-drop o (suc k) (b ∷ bs) =
    bytes_bits-drop o k bs
    ∙ ap (drop (8 * k)) (sym (drop-append 8 (bits o 8 b) (bytes_bits o bs) (length-bits o 8 b)))
    ∙ drop-drop (8 * k) 8 _
    ∙ ap (λ (n : ℕ). drop n (bits o 8 b ++ bytes_bits o bs)) {x = 8 + 8 * k} {y = 8 * suc k}
        (omega arith)
    ∙ unfold bytes_bits in refl

-- The byte at position `i` is the first of those from `i` on.
pub drop-cons :
    (i : ℕ) (bs : List ℕ) {b : ℕ} → get_elem? bs i ≡ some b → drop i bs ≡ b ∷ drop (suc i) bs
drop-cons i [] e = cc
drop-cons zero (x ∷ bs) e = cc
drop-cons (suc i) (x ∷ bs) e = drop-cons i bs e

pub get_elem?-take : (i n : ℕ) (bs : List ℕ) → i < n → get_elem? (take n bs) i ≡ get_elem? bs i
get_elem?-take i zero bs h = absurd (omega arith)
get_elem?-take i (suc n) [] h = refl
get_elem?-take zero (suc n) (b ∷ bs) h = refl
get_elem?-take (suc i) (suc n) (b ∷ bs) h = get_elem?-take i n bs (omega arith)

-- There is a byte at every position below the length.
pub get_elem?_total :
    (i : ℕ) (bs : List ℕ)
    → All IsByte bs
    → i < length bs
    → (b : ℕ) × (get_elem? bs i ≡ some b) × IsByte b
get_elem?_total i [] a h = absurd (omega arith)
get_elem?_total zero (x ∷ bs) a h = (x, refl, a.0)
get_elem?_total (suc i) (x ∷ bs) a h = get_elem?_total i bs a.1 (omega arith)

-- A byte stored just past the first `i` extends them.
pub take-set :
    (i b : ℕ) (bs : List ℕ) → i < length bs → take (suc i) (set bs i b) ≡ take i bs ++ (b ∷ [])
take-set i b [] h = absurd (omega arith)
take-set zero b (x ∷ bs) h = refl
take-set (suc i) b (x ∷ bs) h = ap (λ t. x ∷ t) (take-set i b bs (omega arith))

pub set-IsByte : (i b : ℕ) (bs : List ℕ) → IsByte b → All IsByte bs → All IsByte (set bs i b)
set-IsByte i b [] h a = a
set-IsByte zero b (x ∷ bs) h a = (h, a.1)
set-IsByte (suc i) b (x ∷ bs) h a = (a.0, set-IsByte i b bs h a.1)

pub take-IsByte : (n : ℕ) (bs : List ℕ) → All IsByte bs → All IsByte (take n bs)
take-IsByte zero bs a = tt
take-IsByte (suc n) [] a = tt
take-IsByte (suc n) (x ∷ bs) a = (a.0, take-IsByte n bs a.1)

-- The first `k` bytes are the first `8 * k` bits.
pub bytes_bits-take :
    (o : BitOrder) (k : ℕ) (bs : List ℕ)
    → k ≤ length bs
    → bytes_bits o (take k bs) ≡ take (8 * k) (bytes_bits o bs)
bytes_bits-take o k bs h = sym (
    ap (λ t. take (8 * k) (bytes_bits o t)) (sym (take-append-drop k bs))
    ∙ ap (take (8 * k)) (bytes_bits-append o (take k bs) (drop k bs))
    ∙ take-append (8 * k) (bytes_bits o (take k bs)) _
        (length-bytes_bits o (take k bs) ∙ omega (arith, length-take k bs h)))

-- A range within the first `s` elements, cut out of them.
pub take-drop-take :
    (n i s : ℕ) (bs : List ℕ) → i + n ≤ s → take n (drop i (take s bs)) ≡ take n (drop i bs)
take-drop-take zero i zero bs h = refl
take-drop-take (suc n) i zero bs h = absurd (omega arith)
take-drop-take n i (suc s) [] h = refl
take-drop-take zero i (suc s) (b ∷ bs) h = refl
take-drop-take (suc n) zero (suc s) (b ∷ bs) h =
    ap (λ t. b ∷ t) (take-drop-take n 0 s bs (omega arith))
take-drop-take (suc n) (suc i) (suc s) (b ∷ bs) h = take-drop-take (suc n) i s bs (omega arith)

pub drop-set : (i k b : ℕ) (bs : List ℕ) → i < k → drop k (set bs i b) ≡ drop k bs
drop-set i k b [] h = refl
drop-set i zero b (x ∷ bs) h = absurd (omega arith)
drop-set zero (suc k) b (x ∷ bs) h = refl
drop-set (suc i) (suc k) b (x ∷ bs) h = drop-set i k b bs (omega arith)

pub bytes_bits-snoc :
    (o : BitOrder) (xs : List ℕ) (b : ℕ)
    → bytes_bits o (xs ++ (b ∷ [])) ≡ bytes_bits o xs ++ bits o 8 b
bytes_bits-snoc o xs b =
    bytes_bits-append o xs (b ∷ [])
    ∙ ap (λ t. bytes_bits o xs ++ t)
        (bytes_bits-cons o b [] ∙ unfold bytes_bits in append-nil (bits o 8 b))

pub drop-IsByte : (n : ℕ) (bs : List ℕ) → All IsByte bs → All IsByte (drop n bs)
drop-IsByte zero bs a = a
drop-IsByte (suc n) [] a = a
drop-IsByte (suc n) (x ∷ bs) a = drop-IsByte n bs a.1

pub append-IsByte : (xs ys : List ℕ) → All IsByte xs → All IsByte ys → All IsByte (xs ++ ys)
append-IsByte [] ys a b = b
append-IsByte (x ∷ xs) ys a b = (a.0, append-IsByte xs ys a.1 b)

-- Bytes are determined by their bits.
pub bytes_bits-injective :
    (o : BitOrder) (xs ys : List ℕ)
    → All IsByte xs
    → All IsByte ys
    → bytes_bits o xs ≡ bytes_bits o ys
    → xs ≡ ys
bytes_bits-injective o [] [] a b e = refl
bytes_bits-injective o [] (y ∷ ys) a b e =
    absurd (omega (arith, ap length e, length-bytes_bits o [], length-bytes_bits o (y ∷ ys)))
bytes_bits-injective o (x ∷ xs) [] a b e =
    absurd (omega (arith, ap length e, length-bytes_bits o [], length-bytes_bits o (x ∷ xs)))
bytes_bits-injective o (x ∷ xs) (y ∷ ys) a b e =
    ap₂ ◌∷◌ same_byte (bytes_bits-injective o xs ys a.1 b.1 same_rest)
  where
    whole : bits o 8 x ++ bytes_bits o xs ≡ bits o 8 y ++ bytes_bits o ys
    whole = sym (bytes_bits-cons o x xs) ∙ e ∙ bytes_bits-cons o y ys

    same_bits : bits o 8 x ≡ bits o 8 y
    same_bits =
        sym (take-append 8 (bits o 8 x) (bytes_bits o xs) (length-bits o 8 x))
        ∙ ap (take 8) whole
        ∙ take-append 8 (bits o 8 y) (bytes_bits o ys) (length-bits o 8 y)

    same_rest : bytes_bits o xs ≡ bytes_bits o ys
    same_rest =
        sym (drop-append 8 (bits o 8 x) (bytes_bits o xs) (length-bits o 8 x))
        ∙ ap (drop 8) whole
        ∙ drop-append 8 (bits o 8 y) (bytes_bits o ys) (length-bits o 8 y)

    same_byte : x ≡ y
    same_byte = omega (arith, a.0, b.0, value-bits o 8 x, value-bits o 8 y, ap (value o) same_bits)

-- A text with one more character.
pub take-set_append :
    (i b : ℕ) (bs after : List ℕ)
    → i < length bs
    → take (i + 1) (set bs i b) ++ after ≡ take i bs ++ (b ∷ after)
take-set_append i b bs after h =
    ap (λ (k : ℕ). take k (set bs i b) ++ after) {y = suc i} (omega arith)
    ∙ ap (λ xs. xs ++ after) (take-set i b bs h)
    ∙ append_assoc (take i bs) (b ∷ []) after
