-- ===== src/Examples/Hex.antt =====
-- `print_hex` of examples/deflate_block.c and of examples/fast_decode.c, and the same loop in `main` of
-- examples/sensor_protocol.c, examples/huffman_decode.c and examples/deflate_codes.c: the text that they
-- print.
use bitstream_h.Base.{
  ℕ, zero, suc, ◌+◌, ◌/◌, ◌%◌, ◌≤◌, ◌≡◌, refl, arith, ltb, if◌then◌else◌, List, [], ◌∷◌, ◌++◌,
  length, take, drop, get_elem?, Outcome, done, ◌>>=◌, access, access-Returns,
}
use bitstream_h.BitString.Bytes.{drop-cons}

abbrev pub hex_digit : ℕ → ℕ
hex_digit d = if ltb d 10 then 48 + d else 55 + d

-- A byte by "%02X ".
abbrev pub hex_byte : ℕ → List ℕ
hex_byte b = hex_digit (b / 16) ∷ hex_digit (b % 16) ∷ 32 ∷ []

-- A byte by " %02X".
abbrev pub byte_hex : ℕ → List ℕ
byte_hex b = 32 ∷ hex_digit (b / 16) ∷ hex_digit (b % 16) ∷ []

-- The loop from position `i`, with `k` bytes to go, each printed by `form`.
unfoldable pub hex_bytes : (ℕ → List ℕ) → List ℕ → ℕ → ℕ → Outcome (List ℕ)
hex_bytes form bytes i zero = done []
hex_bytes form bytes i (suc k) = do
  b ← access (get_elem? bytes i)
  cs ← hex_bytes form bytes (suc i) k
  done (form b ++ cs)

unfoldable pub print_hex : List ℕ → List ℕ → ℕ → Outcome (List ℕ)
unfolding hex_bytes
print_hex label bytes len = do cs ← hex_bytes hex_byte bytes 0 len; done (label ++ cs ++ 10 ∷ [])

-- "  Wire: ", the label of both programs.
abbrev pub wire_label : List ℕ
wire_label = 32 ∷ 32 ∷ 87 ∷ 105 ∷ 114 ∷ 101 ∷ 58 ∷ 32 ∷ []

-- What is to be printed of some bytes.
unfoldable pub hex_text : (ℕ → List ℕ) → List ℕ → List ℕ
hex_text form [] = []
hex_text form (b ∷ bs) = form b ++ hex_text form bs

pub hex_bytes_lem :
    (form : ℕ → List ℕ) (bytes : List ℕ) (i k : ℕ)
    → i + k ≤ length bytes
    → hex_bytes form bytes i k ≡ done (hex_text form (take k (drop i bytes)))
unfolding hex_bytes hex_text
hex_bytes_lem form bytes i zero h = refl
hex_bytes_lem form bytes i (suc k) h =
    let found = access-Returns bytes i (omega arith) in
    rw
      (
        found.returns,
        hex_bytes_lem form bytes (suc i) k (omega arith),
        drop-cons i bytes found.holds,
      )
      refl

-- Within its array `print_hex` returns, and prints the label and the digits of the bytes.
pub print_hex_lem :
    (label bytes : List ℕ) (len : ℕ)
    → len ≤ length bytes
    → print_hex label bytes len ≡ done (label ++ hex_text hex_byte (take len bytes) ++ 10 ∷ [])
unfolding print_hex
print_hex_lem label bytes len h = rw (hex_bytes_lem hex_byte bytes 0 len (omega arith)) refl
