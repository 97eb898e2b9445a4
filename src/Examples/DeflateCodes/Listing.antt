-- ===== src/Examples/DeflateCodes/Listing.antt =====
-- The listing of the table spells each code as its bits stand in the stream.
use native.Mathlib.Nat.{div-div-eq-div-mul, div-one}
use bitstream_h.Base.{
  ℕ, zero, suc, ◌+◌, ◌*◌, ◌/◌, ◌^◌, ◌<◌, ◌≡◌, ◌≢◌, ◌==◌, refl, ap, arith, bit_and, Bool, true,
  false, if◌then◌else◌, List, [], ◌∷◌, map, All, length, length-set, take, set, lt→ltb, store-set,
  Returns, Returns_mono, done-Returns, >>=-leads, done,
}
use bitstream_h.Word.{shr32}
use bitstream_h.Word.Laws.{bit_and_mask, pow_add}
use bitstream_h.BitString.{lsb_first, odd, bits}
use bitstream_h.Examples.Text.{IsText, IsText-nil, IsText-cons, IsText-Returns}
use bitstream_h.Examples.DeflateCodes.{
  CodeEntry, code_table, symbol_text, spell_bits, Line, list_entry, list_codes,
}

-- '1' or '0'.
abbrev pub digit : Bool → ℕ
digit b = if b then 49 else 48

-- What the table at the head of the file calls its symbols: 'e', 't', 'a' in quotes, SPACE, 'h', 'r', EOS.
abbrev pub labels : List (List ℕ)
labels =
    (39 ∷ 101 ∷ 39 ∷ [])
    ∷ (39 ∷ 116 ∷ 39 ∷ [])
    ∷ (39 ∷ 97 ∷ 39 ∷ [])
    ∷ (83 ∷ 80 ∷ 65 ∷ 67 ∷ 69 ∷ [])
    ∷ (39 ∷ 104 ∷ 39 ∷ [])
    ∷ (39 ∷ 114 ∷ 39 ∷ [])
    ∷ (69 ∷ 79 ∷ 83 ∷ [])
    ∷ []

-- What a line is to say of an entry with the label `l`.
abbrev pub entry_line : List ℕ → CodeEntry → Line
entry_line l e = (l, map digit (bits lsb_first e.length e.code), e.length)

-- The lines of the entries, each with its label.
abbrev pub entry_lines : List (List ℕ) → List CodeEntry → List Line
entry_lines [] es = []
entry_lines (l ∷ ls) [] = []
entry_lines (l ∷ ls) (e ∷ es) = entry_line l e ∷ entry_lines ls es

-- What the listing calls a symbol.
abbrev label : CodeEntry → List ℕ
label e = take 7 (symbol_text e.symbol)

digits_letters : (bs : List Bool) → All (λ c. c ≢ 0) (map digit bs)
digits_letters [] = tt
digits_letters (true ∷ bs) = (omega arith, digits_letters bs)
digits_letters (false ∷ bs) = (omega arith, digits_letters bs)

digit_lem : (x : ℕ) → (if bit_and x 1 == 0 then 48 else 49) ≡ digit (odd x)
unfolding odd
digit_lem x = ground (arith, bit_and_mask 1 x)

-- The loop appends the digits of the bits left to the text so far.
spell_bits-IsText :
    (limit k b code : ℕ) (bits_str : List ℕ)
    → b + k ≡ limit
    → limit < length bits_str
    → limit < 32
    → Returns (spell_bits bits_str code b k) (λ out.
      IsText limit bits_str
        (take b bits_str)
        (map digit (bits lsb_first k (code / 2 ^ b)))
        (out, limit))
unfolding spell_bits bits shr32
spell_bits-IsText limit zero b code bits_str h room small =
    let here : b ≡ limit = omega (arith, h) in
    rw (← here) (done-Returns _ (IsText-nil b b bits_str (omega arith)))
spell_bits-IsText limit (suc k) b code bits_str h room small =
    rw
      (
        lt→ltb b 32 (omega (arith, h)),
        store-set bits_str b _ (omega (arith, h)),
        digit_lem (code / 2 ^ b),
        div-div-eq-div-mul code (2 ^ b) 2,
      )
      (Returns_mono
        (spell_bits-IsText limit k (b + 1) code (set bits_str b (digit (odd (code / 2 ^ b))))
          (omega (arith, h)) (omega (arith, length-set bits_str b (digit (odd (code / 2 ^ b)))))
          small)
        (λ out t. IsText-cons (omega (arith, h)) (rw next_bit at t)))
  where
    next_bit : code / 2 ^ (b + 1) ≡ code / (2 ^ b * 2)
    next_bit = ap (λ (d : ℕ). code / d) (pow_add b 1)

-- An entry of fewer bits than the array has characters makes the line that the bits of its code in
-- LSB-first order give.
list_entry_lem :
    (bits_str : List ℕ) (e : CodeEntry)
    → e.length < length bits_str
    → e.length < 32
    → list_entry bits_str e ≡ done (entry_line (label e) e)
unfolding list_entry
list_entry_lem bits_str e room small =
    >>=-leads (λ m. m ≡ done (entry_line (label e) e))
      (spell_bits-IsText e.length e.length 0 e.code bits_str (omega arith) room small)
      (λ out t.
        >>=-leads (λ m. m ≡ done (entry_line (label e) e))
          (IsText-Returns (out, e.length) t room (digits_letters _))
          (λ spelled text. rw (text, div-one e.code) refl))

list_codes_lem :
    (bits_str : List ℕ) (es : List CodeEntry)
    → All (λ e. (e.length < length bits_str) × (e.length < 32)) es
    → list_codes bits_str es ≡ done (entry_lines (map label es) es)
unfolding list_codes
list_codes_lem bits_str [] ls = refl
list_codes_lem bits_str (e ∷ es) ls =
    rw (list_entry_lem bits_str e ls.0.0 ls.0.1, list_codes_lem bits_str es ls.1) refl

-- The listing of deflate_codes.c, with any contents of its array of eight characters before, stays inside
-- the array, and gives each entry of the table its label, its bits from the lowest on, as they stand in the
-- stream in LSB-first order, and their number.
pub code_table_listed :
    (bits_str : List ℕ)
    → length bits_str ≡ 8
    → list_codes bits_str code_table ≡ done (entry_lines labels code_table)
unfolding symbol_text
code_table_listed bits_str room = list_codes_lem bits_str code_table (omega (arith, room))
