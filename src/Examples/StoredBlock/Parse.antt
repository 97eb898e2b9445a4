-- ===== src/Examples/StoredBlock/Parse.antt =====
-- What the decoder of examples/deflate_block.c is to make of a sequence of bytes, without a reader.
use bitstream_h.Base.{
  ℕ, ◌+◌, ◌-◌, ◌*◌, ◌/◌, ◌%◌, ◌==◌, leb, if◌then◌else◌, List, [], ◌∷◌, ◌++◌, length, take,
  replicate, Outcome, done, undefined, aborted,
}
use bitstream_h.Examples.StoredBlock.{StoredBlock}

-- The literal bytes in an array of 256, with zeros behind them. More of them have no room there.
unfoldable pub parse_literal : ℕ → ℕ → List ℕ → Outcome StoredBlock
parse_literal flag len literal =
    if leb len (length literal)
    then (if leb len 256
        then done (record {
          is_final = flag;
          len = len;
          contents = take len literal ++ replicate (256 - len) 0;
        })
        else undefined)
    else aborted

-- The flag is the lowest bit of the first byte and the type the next two. Two words in little-endian
-- order follow, the length and its complement, then the literal bytes.
unfoldable pub parse_block : List ℕ → Outcome StoredBlock
parse_block [] = aborted
parse_block (h ∷ []) = aborted
parse_block (h ∷ lo ∷ []) = aborted
parse_block (h ∷ lo ∷ hi ∷ []) = aborted
parse_block (h ∷ lo ∷ hi ∷ nlo ∷ []) = aborted
parse_block (h ∷ lo ∷ hi ∷ nlo ∷ nhi ∷ literal) =
    if h / 2 % 4 == 0
    then (if (lo + 256 * hi) + (nlo + 256 * nhi) == 65535
        then parse_literal (h % 2) (lo + 256 * hi) literal
        else aborted)
    else aborted
