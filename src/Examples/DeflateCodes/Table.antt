-- ===== src/Examples/DeflateCodes/Table.antt =====
-- The table is a prefix code in LSB-first order: a window with a code word at its low end is matched
-- to that word's entry.
use bitstream_h.Base.{ℕ, ◌+◌, ◌*◌, ◌^◌, ◌≤◌, ◌<◌, ◌≡◌, ◌≢◌, refl, arith, some, bit_and, ◌%◌}
use bitstream_h.Word.Laws.{bit_and_mask}
use bitstream_h.Examples.DeflateCodes.{CodeEntry, code_entry, code_table, find_symbol, find_code}

-- The entries of the table.
pub data IsCode : CodeEntry → Type 0 where
  letter_e : IsCode (code_entry 101 0x00 1)
  letter_t : IsCode (code_entry 116 0x01 2)
  letter_a : IsCode (code_entry 97 0x03 3)
  space : IsCode (code_entry 32 0x07 4)
  letter_h : IsCode (code_entry 104 0x0F 5)
  letter_r : IsCode (code_entry 114 0x1F 6)
  sentinel : IsCode (code_entry 0 0x3F 6)

-- An entry of a character.
abbrev pub IsLetter : CodeEntry → Type 0
IsLetter e = IsCode e × (e.symbol ≢ 0)

abbrev pub end_entry : CodeEntry
end_entry = code_entry 0 0x3F 6

pub record IsNarrow (e : CodeEntry) : Type 0 where
  pub positive : 0 < e.length
  pub narrow : e.length ≤ 6
  pub fits : e.code < 2 ^ e.length

pub code-IsNarrow : {e : CodeEntry} → IsCode e → IsNarrow e
code-IsNarrow letter_e = omega arith
code-IsNarrow letter_t = omega arith
code-IsNarrow letter_a = omega arith
code-IsNarrow space = omega arith
code-IsNarrow letter_h = omega arith
code-IsNarrow letter_r = omega arith
code-IsNarrow sentinel = omega arith

pub find_symbol-code : {e : CodeEntry} → IsCode e → find_symbol code_table e.symbol ≡ some e
unfolding find_symbol
find_symbol-code letter_e = refl
find_symbol-code letter_t = refl
find_symbol-code letter_a = refl
find_symbol-code space = refl
find_symbol-code letter_h = refl
find_symbol-code letter_r = refl
find_symbol-code sentinel = refl

-- The masks of the six lengths keep remainders.
masked :
    (w : ℕ)
    → (bit_and w 1 ≡ w % 2)
      × (bit_and w 3 ≡ w % 4)
      × (bit_and w 7 ≡ w % 8)
      × (bit_and w 15 ≡ w % 16)
      × (bit_and w 31 ≡ w % 32)
      × (bit_and w 63 ≡ w % 64)
masked w = (
  bit_and_mask 1 w,
  bit_and_mask 2 w,
  bit_and_mask 3 w,
  bit_and_mask 4 w,
  bit_and_mask 5 w,
  bit_and_mask 6 w,
)

-- Whatever follows a code word in a window of six bits, the search finds the code word's entry.
pub find_code-code :
    {e : CodeEntry} (w t : ℕ)
    → IsCode e
    → w ≡ e.code + 2 ^ e.length * t
    → find_code w 6 code_table ≡ some e
unfolding find_code
find_code-code w t letter_e h = ground (arith, masked w)
find_code-code w t letter_t h = ground (arith, masked w)
find_code-code w t letter_a h = ground (arith, masked w)
find_code-code w t space h = ground (arith, masked w)
find_code-code w t letter_h h = ground (arith, masked w)
find_code-code w t letter_r h = ground (arith, masked w)
find_code-code w t sentinel h = ground (arith, masked w)
