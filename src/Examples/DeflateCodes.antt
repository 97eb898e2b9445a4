-- ===== src/Examples/DeflateCodes.antt =====
-- examples/deflate_codes.c: a prefix code in LSB-first order, decoded by a window that is cut to the
-- bits left. A character is its number, a string the list of its characters before the terminator;
-- of the printing the listing of the table and the loop over the raw bytes are there.
pub mod Table
pub mod Loop
pub mod Text
pub mod Listing
pub mod Transfer
pub mod Overflow
use bitstream_h.Base.{
  ◌*◌, length, ℕ, zero, suc, ◌+◌, ◌^◌, ltb, leb, ◌==◌, ◌&&◌, if◌then◌else◌, Bool, true, false, List,
  [], ◌∷◌, Option, none, some, Outcome, done, stuck, ◌>>=◌, store, bit_and, c_string, same_text,
  take,
}
use bitstream_h.Word.{u32, u64, sub32, sub64, div64, shr32}
use bitstream_h.Reader.{Reader, reader_init, reader_bits_left}
use bitstream_h.Reader.Lsb.{peek_bits_lsb, skip_bits_lsb}
use bitstream_h.Writer.{Writer, writer_init, writer_bytes_written}
use bitstream_h.Writer.Lsb.{write_bits_lsb, writer_flush_lsb}
use bitstream_h.Examples.Hex.{byte_hex, hex_bytes}

pub record CodeEntry : Type 0 where
  pub symbol : ℕ
  pub code : ℕ
  pub length : ℕ

abbrev pub code_entry : ℕ → ℕ → ℕ → CodeEntry
code_entry s c n = record { symbol = s; code = c; length = n }

-- 'e', 't', 'a', ' ', 'h', 'r' and the sentinel.
abbrev pub code_table : List CodeEntry
code_table =
    code_entry 101 0x00 1
    ∷ code_entry 116 0x01 2
    ∷ code_entry 97 0x03 3
    ∷ code_entry 32 0x07 4
    ∷ code_entry 104 0x0F 5
    ∷ code_entry 114 0x1F 6
    ∷ code_entry 0 0x3F 6
    ∷ []

-- The encoder's search: the first entry of the character.
unfoldable pub find_symbol : List CodeEntry → ℕ → Option CodeEntry
find_symbol [] ch = none
find_symbol (e ∷ es) ch = let rest = find_symbol es ch in if e.symbol == ch then some e else rest

pub encode_entry : Writer → Option CodeEntry → Outcome (Bool × Writer)
encode_entry bw none = done (false, bw)
encode_entry bw (some e) = do bw ← write_bits_lsb bw e.code e.length; done (true, bw)

-- The encoder's loop, which ends at a character that has no code.
pub encode_message : Writer → List ℕ → Outcome (Bool × Writer)
encode_message bw [] = done (true, bw)
encode_message bw (c ∷ cs) = do
  (found, bw) ← encode_entry bw (find_symbol code_table c)
  let rest = encode_message bw cs
  if found then rest else done (false, bw)

-- Returns the number of bytes written, 0 on an error, and the memory.
pub encode : List ℕ → List ℕ → ℕ → Outcome (ℕ × List ℕ)
encode message out out_size = do
  (found, bw) ← encode_message (writer_init out out_size) message
  let rest = do
    bw ← write_bits_lsb bw 0x3F 6
    bw ← writer_flush_lsb bw
    done (if bw.overflow then 0 else writer_bytes_written bw, bw.buffer)
  if found then rest else done (0, bw.buffer)

-- The decoder's search: the first entry that is no longer than the window and stands at its low end.
pub find_code : ℕ → ℕ → List CodeEntry → Option CodeEntry
find_code window peek_len [] = none
find_code window peek_len (e ∷ es) =
    let rest = find_code window peek_len es in
    if leb e.length peek_len && (bit_and window (sub32 (u32 (2 ^ e.length)) 1) == e.code)
    then some e
    else rest

-- What a turn does with the entry found. Without one, and at the sentinel, the decoder ends.
pub advance :
    (Reader → List ℕ → ℕ → Outcome (List ℕ × ℕ))
    → Reader
    → List ℕ
    → ℕ
    → Option CodeEntry
    → Outcome (List ℕ × ℕ)
advance next br out idx none = done (out, idx)
advance next br out idx (some e) = do
  br ← skip_bits_lsb br e.length
  if e.symbol == 0 then done (out, idx) else do out ← store out idx e.symbol; next br out (idx + 1)

abbrev pub window_length : ℕ → ℕ
window_length available = if ltb available 6 then available else 6

-- The decoder's loop, up to index `limit`: the array and the index behind its last character.
pub decode_loop : ℕ → ℕ → Reader → List ℕ → ℕ → Outcome (List ℕ × ℕ)
decode_loop limit zero br out idx = stuck
decode_loop limit (suc fuel) br out idx =
    let available = u32 (reader_bits_left br) in
    let peek_len = window_length available in
    let turn = do
      (window, br) ← peek_bits_lsb br peek_len
      advance (decode_loop limit fuel) br out idx (find_code window peek_len code_table)
    in if ltb idx limit then (if available == 0 then done (out, idx) else turn) else done (out, idx)

-- Every way out of the loop is followed by the terminator. Each turn but the last writes a
-- character, so a turn more than there is room for is enough.
pub decode : List ℕ → ℕ → List ℕ → ℕ → Outcome (List ℕ)
decode input size out out_size = do
  let limit = sub64 out_size 1
  (out, idx) ← decode_loop limit (limit + 1) (reader_init input size) out 0
  store out idx 0

-- `sym_str`, which has room for seven characters: "SPACE", "EOS", or the character in quotes.
unfoldable pub symbol_text : ℕ → List ℕ
symbol_text symbol =
    if symbol == 32
    then 83 ∷ 80 ∷ 65 ∷ 67 ∷ 69 ∷ []
    else if symbol == 0
    then 69 ∷ 79 ∷ 83 ∷ []
    else 39 ∷ symbol ∷ 39 ∷ []

-- The loop of the listing that writes the bits of a code from the lowest on, with `k` to go.
unfoldable pub spell_bits : List ℕ → ℕ → ℕ → ℕ → Outcome (List ℕ)
spell_bits bits_str code b zero = done bits_str
spell_bits bits_str code b (suc k) = do
  shifted ← shr32 code b
  bits_str ← store bits_str b (if bit_and shifted 1 == 0 then 48 else 49)
  spell_bits bits_str code (b + 1) k

-- A line of the listing: the symbol, the bits of its code, and their number.
abbrev pub Line : Type 0
Line = List ℕ × List ℕ × ℕ

unfoldable pub list_entry : List ℕ → CodeEntry → Outcome Line
list_entry bits_str e = do
  bits_str ← spell_bits bits_str e.code 0 e.length
  bits_str ← store bits_str e.length 0
  done (take 7 (symbol_text e.symbol), c_string bits_str, e.length)

-- The listing, with what stands in `bits_str` before each entry.
unfoldable pub list_codes : List ℕ → List CodeEntry → Outcome (List Line)
list_codes bits_str [] = done []
list_codes bits_str (e ∷ es) = do
  line ← list_entry bits_str e
  lines ← list_codes bits_str es
  done (line ∷ lines)

-- `main` for any message, wire and contents of `bits_str` and `decoded` before: the exit code. The ratio
-- and the listing are printed.
pub run : List ℕ → List ℕ → List ℕ → ℕ → List ℕ → ℕ → Outcome ℕ
run message bits_str wire size decoded decoded_size = do
  lines ← list_codes bits_str code_table
  (wire_bytes, wire) ← encode message wire size
  ratio ← div64 (u64 (wire_bytes * 100)) (length message)
  raw_bytes ← hex_bytes byte_hex wire 0 wire_bytes
  decoded ← decode wire wire_bytes decoded decoded_size
  done (if same_text message (c_string decoded) then 0 else 1)
