-- ===== src/Examples/FastDecode/Table.antt =====
-- The code is prefix-free: a window that starts with a code word is matched to its entry.
use bitstream_h.Base.{
  ◌≤◌, ◌≢◌, none, some_of, ℕ, ◌+◌, ◌-◌, ◌*◌, ◌/◌, ◌^◌, ◌<◌, ◌≡◌, refl, ap, ◌∙◌, arith, some, eq→==,
  ne→==,
}
use bitstream_h.Examples.FastDecode.{
  HuffEntry, huff_entry, huff_find, huff_match, find_in, match_in,
}

-- An entry of the table other than the sentinel.
pub data IsLetter : HuffEntry → Type 0 where
  letter_e : IsLetter (huff_entry 101 0x00 1)
  letter_t : IsLetter (huff_entry 116 0x02 2)
  letter_a : IsLetter (huff_entry 97 0x06 3)
  space : IsLetter (huff_entry 32 0x0E 4)
  letter_h : IsLetter (huff_entry 104 0x1E 5)
  letter_r : IsLetter (huff_entry 114 0x3E 6)

abbrev pub sentinel : HuffEntry
sentinel = huff_entry 0 0x3F 6

pub huff_find-symbol : (e : HuffEntry) → IsLetter e → huff_find e.symbol ≡ some e
unfolding huff_find find_in
huff_find-symbol _ letter_e = refl
huff_find-symbol _ letter_t = refl
huff_find-symbol _ letter_a = refl
huff_find-symbol _ space = refl
huff_find-symbol _ letter_h = refl
huff_find-symbol _ letter_r = refl

-- Whatever follows a code word in the window, the search finds the code word's entry.
pub huff_match-code :
    (e : HuffEntry) (w t : ℕ)
    → IsLetter e
    → w ≡ e.code * 2 ^ (6 - e.bits) + t
    → t < 2 ^ (6 - e.bits)
    → huff_match w ≡ some e
unfolding huff_match match_in
huff_match-code _ w t letter_e h b = rw (eq→== (w / 2 ^ 5) 0x00 (omega arith)) refl
huff_match-code _ w t letter_t h b =
    rw (ne→== (w / 2 ^ 5) 0x00 (omega arith), eq→== (w / 2 ^ 4) 0x02 (omega arith)) refl
huff_match-code _ w t letter_a h b =
    rw
      (
        ne→== (w / 2 ^ 5) 0x00 (omega arith),
        ne→== (w / 2 ^ 4) 0x02 (omega arith),
        eq→== (w / 2 ^ 3) 0x06 (omega arith),
      )
      refl
huff_match-code _ w t space h b =
    rw
      (
        ne→== (w / 2 ^ 5) 0x00 (omega arith),
        ne→== (w / 2 ^ 4) 0x02 (omega arith),
        ne→== (w / 2 ^ 3) 0x06 (omega arith),
        eq→== (w / 2 ^ 2) 0x0E (omega arith),
      )
      refl
huff_match-code _ w t letter_h h b =
    rw
      (
        ne→== (w / 2 ^ 5) 0x00 (omega arith),
        ne→== (w / 2 ^ 4) 0x02 (omega arith),
        ne→== (w / 2 ^ 3) 0x06 (omega arith),
        ne→== (w / 2 ^ 2) 0x0E (omega arith),
        eq→== (w / 2 ^ 1) 0x1E (omega arith),
      )
      refl
huff_match-code _ w t letter_r h b = ap huff_match {x = w} {y = 62} (omega arith) ∙ refl

pub huff_match-sentinel : huff_match 63 ≡ some sentinel
unfolding huff_match match_in
huff_match-sentinel = refl

some_match : (w : ℕ) → w < 64 → huff_match w ≢ none
unfolding huff_match match_in
some_match w h = ground arith

match_narrow : (w : ℕ) (e : HuffEntry) → huff_match w ≡ some e → e.bits ≤ 6
unfolding huff_match match_in
match_narrow w e found = ground arith

-- The code is complete: every window of six bits is matched, to an entry of at most six bits.
pub huff_match_total : (w : ℕ) → w < 64 → (e : HuffEntry) × (huff_match w ≡ some e) × (e.bits ≤ 6)
huff_match_total w h =
    let (e, found) = some_of (huff_match w) (some_match w h) in (e, found, match_narrow w e found)
