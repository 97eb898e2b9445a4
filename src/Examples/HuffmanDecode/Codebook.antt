-- ===== src/Examples/HuffmanDecode/Codebook.antt =====
-- The codebook is a complete prefix code: every window of six bits starts with exactly one code word.
use native.Mathlib.Decide.{dec_lt}
use bitstream_h.Base.{ℕ, ◌+◌, ◌-◌, ◌*◌, ◌^◌, ◌≤◌, ◌<◌, ◌≡◌, ◌≢◌, refl, arith, some}
use bitstream_h.Examples.HuffmanDecode.{
  HuffmanEntry, huffman_entry, codebook, find_symbol, find_code,
}

-- The entries of the codebook.
pub data IsCode : HuffmanEntry → Type 0 where
  letter_e : IsCode (huffman_entry 0x00 1 101)
  letter_t : IsCode (huffman_entry 0x02 2 116)
  letter_a : IsCode (huffman_entry 0x06 3 97)
  space : IsCode (huffman_entry 0x0E 4 32)
  letter_h : IsCode (huffman_entry 0x1E 5 104)
  letter_r : IsCode (huffman_entry 0x3E 6 114)
  sentinel : IsCode (huffman_entry 0x3F 6 0)

-- An entry of a character.
abbrev pub IsLetter : HuffmanEntry → Type 0
IsLetter e = IsCode e × (e.symbol ≢ 0)

abbrev pub end_entry : HuffmanEntry
end_entry = huffman_entry 0x3F 6 0

pub record IsNarrow (e : HuffmanEntry) : Type 0 where
  pub positive : 0 < e.bits
  pub narrow : e.bits ≤ 6
  pub fits : e.code < 2 ^ e.bits

pub code-IsNarrow : {e : HuffmanEntry} → IsCode e → IsNarrow e
code-IsNarrow letter_e = omega arith
code-IsNarrow letter_t = omega arith
code-IsNarrow letter_a = omega arith
code-IsNarrow space = omega arith
code-IsNarrow letter_h = omega arith
code-IsNarrow letter_r = omega arith
code-IsNarrow sentinel = omega arith

pub find_symbol-code : {e : HuffmanEntry} → IsCode e → find_symbol codebook e.symbol ≡ some e
unfolding find_symbol
find_symbol-code letter_e = refl
find_symbol-code letter_t = refl
find_symbol-code letter_a = refl
find_symbol-code space = refl
find_symbol-code letter_h = refl
find_symbol-code letter_r = refl
find_symbol-code sentinel = refl

-- Whatever follows a code word in the window, the search finds the code word's entry.
pub find_code-code :
    {e : HuffmanEntry} (w t : ℕ)
    → IsCode e
    → w ≡ e.code * 2 ^ (6 - e.bits) + t
    → t < 2 ^ (6 - e.bits)
    → find_code codebook w ≡ some e
unfolding find_code
find_code-code w t letter_e h b = ground arith
find_code-code w t letter_t h b = ground arith
find_code-code w t letter_a h b = ground arith
find_code-code w t space h b = ground arith
find_code-code w t letter_h h b = ground arith
find_code-code w t letter_r h b = ground arith
find_code-code w t sentinel h b = ground arith

-- Every window of six bits is matched.
pub find_code_total :
    (w : ℕ) → w < 64 → (e : HuffmanEntry) × IsCode e × (find_code codebook w ≡ some e)
find_code_total w h = elim (dec_lt w 32) [
  | yes p ↦ (huffman_entry 0x00 1 101, letter_e, find_code-code w w letter_e (omega arith) p)
  | no p ↦ elim (dec_lt w 48) [
    | yes q ↦ (
      huffman_entry 0x02 2 116,
      letter_t,
      find_code-code w (w - 32) letter_t (omega arith) (omega arith),
    )
    | no q ↦ elim (dec_lt w 56) [
      | yes r ↦ (
        huffman_entry 0x06 3 97,
        letter_a,
        find_code-code w (w - 48) letter_a (omega arith) (omega arith),
      )
      | no r ↦ elim (dec_lt w 60) [
        | yes s ↦ (
          huffman_entry 0x0E 4 32,
          space,
          find_code-code w (w - 56) space (omega arith) (omega arith),
        )
        | no s ↦ elim (dec_lt w 62) [
          | yes t ↦ (
            huffman_entry 0x1E 5 104,
            letter_h,
            find_code-code w (w - 60) letter_h (omega arith) (omega arith),
          )
          | no t ↦ elim (dec_lt w 63) [
            | yes u ↦ (
              huffman_entry 0x3E 6 114,
              letter_r,
              find_code-code w 0 letter_r (omega arith) (omega arith),
            )
            | no u ↦ (end_entry, sentinel, find_code-code w 0 sentinel (omega arith) (omega arith))
          ]
        ]
      ]
    ]
  ]
]
