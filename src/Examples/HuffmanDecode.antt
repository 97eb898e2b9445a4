-- ===== src/Examples/HuffmanDecode.antt =====
-- examples/huffman_decode.c: a prefix code over a codebook, decoded by peeking six bits and skipping
-- the code word. A character is its number, a string the list of its characters before the
-- terminator; of the printing only the loop over the raw bytes is there.
pub mod Codebook
pub mod Symbol
pub mod Loop
pub mod Transfer
use bitstream_h.Base.{
  ℕ, zero, suc, ◌+◌, ◌-◌, ◌/◌, ◌^◌, ltb, ◌==◌, ◌&&◌, not, if◌then◌else◌, Bool, true, false, List,
  [], ◌∷◌, Option, none, some, Outcome, done, stuck, ◌>>=◌, store, c_string, same_text,
}
use bitstream_h.Reader.{Reader, reader_init, reader_eof}
use bitstream_h.Reader.Msb.{peek_bits, skip_bits}
use bitstream_h.Writer.{Writer, writer_init, writer_bytes_written}
use bitstream_h.Writer.Msb.{write_bits, writer_flush}
use bitstream_h.Examples.Hex.{hex_byte, hex_bytes}

pub record HuffmanEntry : Type 0 where
  pub code : ℕ
  pub bits : ℕ
  pub symbol : ℕ

abbrev pub huffman_entry : ℕ → ℕ → ℕ → HuffmanEntry
huffman_entry c b s = record { code = c; bits = b; symbol = s }

-- 'e', 't', 'a', ' ', 'h', 'r' and the sentinel.
abbrev pub codebook : List HuffmanEntry
codebook =
    huffman_entry 0x00 1 101
    ∷ huffman_entry 0x02 2 116
    ∷ huffman_entry 0x06 3 97
    ∷ huffman_entry 0x0E 4 32
    ∷ huffman_entry 0x1E 5 104
    ∷ huffman_entry 0x3E 6 114
    ∷ huffman_entry 0x3F 6 0
    ∷ []

-- The encoder's search: the first entry of the character.
pub find_symbol : List HuffmanEntry → ℕ → Option HuffmanEntry
find_symbol [] ch = none
find_symbol (e ∷ es) ch = let rest = find_symbol es ch in if e.symbol == ch then some e else rest

pub encode_entry : Writer → Option HuffmanEntry → Outcome (Bool × Writer)
encode_entry bw none = done (false, bw)
encode_entry bw (some e) = do bw ← write_bits bw e.code e.bits; done (true, bw)

pub encode_symbol : Writer → ℕ → Outcome (Bool × Writer)
encode_symbol bw ch = encode_entry bw (find_symbol codebook ch)

-- The decoder's search: the first entry whose code is on top of the window.
pub find_code : List HuffmanEntry → ℕ → Option HuffmanEntry
find_code [] window = none
find_code (e ∷ es) window =
    let rest = find_code es window in if window / 2 ^ (6 - e.bits) == e.code then some e else rest

-- Without a match the decoder skips a bit and returns a question mark.
pub decode_entry : Reader → Option HuffmanEntry → Outcome (ℕ × Reader)
decode_entry br (some e) = do br ← skip_bits br e.bits; done (e.symbol, br)
decode_entry br none = do br ← skip_bits br 1; done (63, br)

pub decode_symbol : Reader → Outcome (ℕ × Reader)
decode_symbol br = do (window, br) ← peek_bits br 6; decode_entry br (find_code codebook window)

-- The encoding loop of `main`, which ends at a character that has no code.
pub encode_message : Writer → List ℕ → Outcome (Bool × Writer)
encode_message bw [] = done (true, bw)
encode_message bw (c ∷ cs) = do
  (ok, bw) ← encode_symbol bw c
  let rest = encode_message bw cs
  if ok then rest else done (false, bw)

-- The decoding loop of `main`: the array `decoded` and the index behind its last character.
pub decode_loop : ℕ → Reader → List ℕ → ℕ → Outcome (List ℕ × ℕ)
decode_loop zero br decoded idx = stuck
decode_loop (suc fuel) br decoded idx =
    let turn = do
      (ch, br) ← decode_symbol br
      let next = do decoded ← store decoded idx ch; decode_loop fuel br decoded (idx + 1)
      if ch == 0 then done (decoded, idx) else next
    in if not (reader_eof br) && ltb idx 255 then turn else done (decoded, idx)

-- `main` for any message, wire and contents of `decoded` before: the exit code. At most 255
-- characters are decoded, so 256 turns are enough.
pub run : List ℕ → List ℕ → ℕ → List ℕ → Outcome ℕ
run message wire size decoded = do
  (ok, bw) ← encode_message (writer_init wire size) message
  let rest = do
    (ok, bw) ← encode_symbol bw 0
    bw ← writer_flush bw
    raw_bytes ← hex_bytes hex_byte bw.buffer 0 (writer_bytes_written bw)
    (decoded, idx) ← decode_loop 256 (reader_init bw.buffer (writer_bytes_written bw)) decoded 0
    decoded ← store decoded idx 0
    done (if same_text (c_string decoded) message then 0 else 1)
  if ok then rest else done 1
