-- ===== src/Examples/DeflateCodes/Loop.antt =====
-- The decoding loop: it ends on every stream inside its array, and finds an encoded message.
use native.Mathlib.Decide.{dec_lt, ℕ_discrete}
use bitstream_h.Base.{
  store-set, ℕ, zero, suc, ◌+◌, ◌≤◌, ◌<◌, ◌≡◌, refl, ◌∙◌, arith, Bool, List, map, length,
  length-set, set, lt→ltb, not_lt→ltb, ne→==, eq→==, Option, none, some, Outcome, Returns,
  Returns_mono, done-Returns, >>=-Returns,
}
use bitstream_h.Word.{u32}
use bitstream_h.BitString.{lsb_first}
use bitstream_h.Reader.{Reader, reader_bits_left}
use bitstream_h.Reader.State.{IsReader}
use bitstream_h.Reader.Lsb.Read.{peek_bits_lsb-Peeks, skip_bits_lsb-Skips}
use bitstream_h.RoundTrip.{Field, fields_bits}
use bitstream_h.Examples.Text.{IsInside}
use bitstream_h.Examples.DeflateCodes.{
  CodeEntry, code_table, find_code, advance, decode_loop, window_length,
}

abbrev pub entry_field : CodeEntry → Field
entry_field e = (e.code, e.length)

-- The bits of a message, without the sentinel.
abbrev pub message_bits : List CodeEntry → List Bool
message_bits es = fields_bits lsb_first (map entry_field es)

-- The loop's state: the array has room for the terminator at the limit, and the fuel covers the turns
-- left.
pub record IsTurn (limit fuel : ℕ) (br : Reader) (out : List ℕ) (idx : ℕ) : Type 0 where
  pub is_reader : IsReader lsb_first br
  pub room : limit < length out
  pub in_array : idx ≤ limit
  pub fuelled : limit < fuel + idx

-- Every entry found is one of the table.
found_narrow :
    (window peek_len : ℕ) (e : CodeEntry)
    → find_code window peek_len code_table ≡ some e
    → e.length ≤ 6
unfolding find_code
found_narrow window peek_len e h = ground arith

module _ (limit fuel : ℕ) (next : Reader → List ℕ → ℕ → Outcome (List ℕ × ℕ))
    (ends : (br : Reader) (out : List ℕ) (idx : ℕ)
      → IsTurn limit fuel br out idx
      → Returns (next br out idx) (IsInside limit out)) where
  -- Whatever the search finds, the turn and all later ones return.
  advance_ends :
      (br : Reader) (out : List ℕ) (idx : ℕ) (found : Option CodeEntry)
      → IsTurn limit (suc fuel) br out idx
      → idx < limit
      → ((e : CodeEntry) → found ≡ some e → e.length ≤ 6)
      → Returns (advance next br out idx found) (IsInside limit out)
  unfolding advance
  advance_ends br out idx none t below narrow = done-Returns _ (t.in_array, refl)
  advance_ends br out idx (some e) t below narrow =
      >>=-Returns (skip_bits_lsb-Skips br e.length t.is_reader (omega (arith, narrow e refl)))
        (λ r b. elim (ℕ_discrete e.symbol 0) [
          | yes end ↦ rw (eq→== _ _ end) (done-Returns _ (t.in_array, refl))
          | no letter ↦
              rw (ne→== _ _ letter, store-set out idx e.symbol (omega (arith, t.room)))
                (Returns_mono
                  (ends r (set out idx e.symbol) (idx + 1) (record {
                    is_reader = b.is_reader;
                    room = omega (arith, length-set out idx e.symbol, t.room);
                    in_array = omega arith;
                    fuelled = omega (arith, t.fuelled);
                  }))
                  (λ p q. (q.0, q.1 ∙ length-set out idx e.symbol)))
        ])

-- On any stream, whatever its bits, the loop returns, with no more characters than the limit.
pub decode_loop_ends :
    (limit fuel : ℕ) (br : Reader) (out : List ℕ) (idx : ℕ)
    → IsTurn limit fuel br out idx
    → Returns (decode_loop limit fuel br out idx) (IsInside limit out)
unfolding decode_loop
decode_loop_ends limit zero br out idx t = absurd (omega (arith, t.in_array, t.fuelled))
decode_loop_ends limit (suc fuel) br out idx t = elim (dec_lt idx limit) [
  | no full ↦ rw (not_lt→ltb _ _ full) (done-Returns _ (t.in_array, refl))
  | yes below ↦ rw (lt→ltb _ _ below) (elim (ℕ_discrete (u32 (reader_bits_left br)) 0) [
    | yes empty ↦ rw (eq→== _ _ empty) (done-Returns _ (t.in_array, refl))
    | no more ↦ rw (ne→== _ _ more) (
        >>=-Returns
          (peek_bits_lsb-Peeks br (window_length (u32 (reader_bits_left br))) t.is_reader
            (ground arith))
          (λ p a.
            advance_ends limit fuel (decode_loop limit fuel) (decode_loop_ends limit fuel) p.1 out
              idx _
              (record {
                is_reader = a.1.is_reader;
                room = t.room;
                in_array = t.in_array;
                fuelled = t.fuelled;
              })
              below (found_narrow p.0 (window_length (u32 (reader_bits_left br))))))
  ])
]
