-- ===== src/Examples/FastDecode.antt =====
-- examples/fast_decode.c: a prefix code over a table, an encoder, a decoder with the checked functions
-- and one with the unchecked ones. A character is its number, a string the list of its characters
-- before the terminator.
pub mod Table
pub mod Message
pub mod Encode
pub mod Loop
pub mod Looks
pub mod Input
pub mod Run
use bitstream_h.Base.{
  ◌*◌, length, ℕ, zero, suc, ◌-◌, ◌/◌, ◌^◌, leb, ◌==◌, not, if◌then◌else◌, List, [], ◌∷◌, Option,
  none, some, Outcome, done, aborted, ◌>>=◌, ◌>>◌, assert, same_text, c_string, store, stuck, ltb,
  ◌+◌,
}
use bitstream_h.Word.{sub64, u64, div64}
use bitstream_h.Reader.{Reader, reader_init, reader_bits_left}
use bitstream_h.Reader.Msb.{peek_bits, skip_bits, peek_bits_unchecked, skip_bits_unchecked}
use bitstream_h.Writer.{Writer, writer_init, writer_bytes_written}
use bitstream_h.Writer.Msb.{write_bits, writer_flush}
use bitstream_h.Examples.Hex.{print_hex, wire_label}

pub record HuffEntry : Type 0 where
  pub symbol : ℕ
  pub code : ℕ
  pub bits : ℕ

abbrev pub huff_entry : ℕ → ℕ → ℕ → HuffEntry
huff_entry s c b = record { symbol = s; code = c; bits = b }

-- 'e', 't', 'a', ' ', 'h', 'r' and the sentinel.
abbrev pub huff_table : List HuffEntry
huff_table =
    huff_entry 101 0x00 1
    ∷ huff_entry 116 0x02 2
    ∷ huff_entry 97 0x06 3
    ∷ huff_entry 32 0x0E 4
    ∷ huff_entry 104 0x1E 5
    ∷ huff_entry 114 0x3E 6
    ∷ huff_entry 0 0x3F 6
    ∷ []

pub find_in : List HuffEntry → ℕ → Option HuffEntry
find_in [] symbol = none
find_in (e ∷ es) symbol =
    let rest = find_in es symbol in if e.symbol == symbol then some e else rest

pub huff_find : ℕ → Option HuffEntry
huff_find symbol = find_in huff_table symbol

pub match_in : List HuffEntry → ℕ → Option HuffEntry
match_in [] window = none
match_in (e ∷ es) window =
    let rest = match_in es window in if window / 2 ^ (6 - e.bits) == e.code then some e else rest

pub huff_match : ℕ → Option HuffEntry
huff_match window = match_in huff_table window

-- `assert (e != NULL)` before `e` is used.
abbrev pub assert_some : Option HuffEntry → Outcome HuffEntry
assert_some none = aborted
assert_some (some e) = done e

pub encode_symbols : Writer → List ℕ → Outcome Writer
encode_symbols bw [] = done bw
encode_symbols bw (c ∷ cs) = do
  e ← assert_some (huff_find c)
  bw ← write_bits bw e.code e.bits
  encode_symbols bw cs

-- Returns the number of bytes written, and the memory.
pub huffman_encode : List ℕ → List ℕ → ℕ → Outcome (ℕ × List ℕ)
huffman_encode msg out out_size = do
  bw ← encode_symbols (writer_init out out_size) msg
  sentinel ← assert_some (huff_find 0)
  bw ← write_bits bw sentinel.code sentinel.bits
  bw ← writer_flush bw
  assert (not bw.overflow)
  done (writer_bytes_written bw, bw.buffer)

-- How a decoder looks at the next six bits, and how it steps past a code word: the safe one by the
-- checked functions, the fast one by the unchecked functions, after its assertion.
pub look_safe : Reader → Outcome (ℕ × Reader)
look_safe br = peek_bits br 6

pub look_fast : Reader → Outcome (ℕ × Reader)
look_fast br = do assert (leb 6 (reader_bits_left br)); peek_bits_unchecked br 6

abbrev pub pass_safe : Reader → ℕ → Outcome Reader
pass_safe = skip_bits

abbrev pub pass_fast : Reader → ℕ → Outcome Reader
pass_fast br n = done (skip_bits_unchecked br n)

-- The loop of both decoders, up to position `limit` of the output: the output and the position behind
-- its last character.
pub decode_loop :
    (Reader → Outcome (ℕ × Reader))
    → (Reader → ℕ → Outcome Reader)
    → ℕ
    → ℕ
    → Reader
    → List ℕ
    → ℕ
    → Outcome (List ℕ × ℕ)
decode_loop look pass limit zero br out pos = stuck
decode_loop look pass limit (suc fuel) br out pos =
    let turn = do
      (window, br) ← look br
      e ← assert_some (huff_match window)
      let last = do br ← pass br e.bits; done (out, pos)
      let next = do
        out ← store out pos e.symbol
        br ← pass br e.bits
        decode_loop look pass limit fuel br out (pos + 1)
      if e.symbol == 0 then last else next
    in if ltb pos limit then turn else done (out, pos)

-- Each turn but the last writes a character, so a turn more than there is room for is enough.
pub decode :
    (Reader → Outcome (ℕ × Reader))
    → (Reader → ℕ → Outcome Reader)
    → List ℕ
    → ℕ
    → List ℕ
    → ℕ
    → Outcome (List ℕ)
decode look pass input len out out_size = do
  let limit = sub64 out_size 1
  (out, pos) ← decode_loop look pass limit (limit + 1) (reader_init input len) out 0
  store out pos 0

abbrev pub huffman_decode_safe : List ℕ → ℕ → List ℕ → ℕ → Outcome (List ℕ)
huffman_decode_safe = decode look_safe pass_safe

abbrev pub huffman_decode_fast : List ℕ → ℕ → List ℕ → ℕ → Outcome (List ℕ)
huffman_decode_fast = decode look_fast pass_fast

-- `main` for any message and wire, and any contents of the two output arrays before: the exit code.
-- The ratio is printed.
pub run : List ℕ → List ℕ → ℕ → List ℕ → ℕ → List ℕ → ℕ → Outcome ℕ
run message wire size decoded_safe safe_size decoded_fast fast_size = do
  (wire_len, wire) ← huffman_encode message wire size
  dump ← print_hex wire_label wire wire_len
  ratio ← div64 (u64 (wire_len * 100)) (length message)
  decoded_safe ← huffman_decode_safe wire wire_len decoded_safe safe_size
  decoded_fast ← huffman_decode_fast wire wire_len decoded_fast fast_size
  assert (same_text (c_string decoded_safe) message)
  assert (same_text (c_string decoded_fast) message)
  assert (same_text (c_string decoded_safe) (c_string decoded_fast))
  done 0
