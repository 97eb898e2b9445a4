-- ===== src/Examples/StoredBlock.antt =====
-- examples/deflate_block.c: a stored block of DEFLATE, with its header bits, aligned lengths and the
-- literal bytes, encoded and decoded.
pub mod Layout
pub mod Parse
pub mod Bytewise
pub mod Literal
pub mod Input
pub mod Transfer
pub mod Refusal
pub mod Run
use bitstream_h.Base.{
  [], ◌∷◌, length, take, leb, ◌&&◌, Bool, same_text, access, get_elem?, undefined, ℕ, ◌*◌, ◌-◌, ◌/◌,
  ◌^◌, ◌==◌, not, if◌then◌else◌, List, replicate, bit_and, bit_or, bit_xor, Outcome, done, ◌>>=◌,
  ◌>>◌, assert,
}
use bitstream_h.Word.{u16, u32}
use bitstream_h.Reader.{reader_init}
use bitstream_h.Reader.Lsb.{read_bits_lsb, reader_align_lsb}
use bitstream_h.Reader.Bulk.{read_bytes}
use bitstream_h.Writer.{Writer, writer_init, writer_bytes_written}
use bitstream_h.Writer.Lsb.{write_bits_lsb, writer_align_lsb}
use bitstream_h.Writer.Bulk.{write_bytes}
use bitstream_h.Examples.Hex.{print_hex, wire_label}

-- The low and the high byte of a 16-bit word, as they are written.
abbrev pub low_byte : ℕ → ℕ
low_byte x = bit_and (x / 2 ^ 0) 0xFF

abbrev pub high_byte : ℕ → ℕ
high_byte x = bit_and (x / 2 ^ 8) 0xFF

-- `(uint16_t)~len`
abbrev pub complement : ℕ → ℕ
complement len = u16 (2 ^ 32 - 1 - len)

-- Returns the number of bytes written, and the memory.
pub encode_stored_block : List ℕ → ℕ → ℕ → List ℕ → ℕ → Outcome (ℕ × List ℕ)
encode_stored_block literal len is_final out out_size = do
  bw ← write_bits_lsb (writer_init out out_size) (if is_final == 0 then 0 else 1) 1
  bw ← write_bits_lsb bw 0 2
  bw ← writer_align_lsb bw
  bw ← write_bits_lsb bw (low_byte len) 8
  bw ← write_bits_lsb bw (high_byte len) 8
  bw ← write_bits_lsb bw (low_byte (complement len)) 8
  bw ← write_bits_lsb bw (high_byte (complement len)) 8
  (ok, bw) ← write_bytes bw literal len
  assert ok
  assert (not bw.overflow)
  done (writer_bytes_written bw, bw.buffer)

pub record StoredBlock : Type 0 where
  pub is_final : ℕ
  pub len : ℕ
  pub contents : List ℕ

-- `(uint16_t)(lo | (hi << 8))`
abbrev pub joined : ℕ → ℕ → ℕ
joined lo hi = u16 (bit_or lo (u32 (hi * 2 ^ 8)))

pub decode_stored_block : List ℕ → ℕ → Outcome StoredBlock
decode_stored_block input in_size = do
  (is_final, br) ← read_bits_lsb (reader_init input in_size) 1
  (btype, br) ← read_bits_lsb br 2
  assert (btype == 0)
  br ← reader_align_lsb br
  (len_lo, br) ← read_bits_lsb br 8
  (len_hi, br) ← read_bits_lsb br 8
  (nlen_lo, br) ← read_bits_lsb br 8
  (nlen_hi, br) ← read_bits_lsb br 8
  let len = joined len_lo len_hi
  let nlen = joined nlen_lo nlen_hi
  assert (u16 (bit_xor len nlen) == 0xFFFF)
  (ok, contents, br) ← read_bytes br (replicate 256 0) len
  assert ok
  done (record { is_final = is_final; len = len; contents = contents })

-- `memcmp (a, b, n) == 0`
unfoldable pub same_bytes : List ℕ → List ℕ → ℕ → Outcome Bool
same_bytes a b n =
    if leb n (length a) && leb n (length b)
    then done (same_text (take n a) (take n b))
    else undefined

-- The bytes that `main` lists as the layout of the block.
unfoldable pub listed_layout : List ℕ → Outcome (List ℕ)
listed_layout wire = do
  header ← access (get_elem? wire 0)
  len_lo ← access (get_elem? wire 1)
  len_hi ← access (get_elem? wire 2)
  nlen_lo ← access (get_elem? wire 3)
  nlen_hi ← access (get_elem? wire 4)
  done (header ∷ len_lo ∷ len_hi ∷ nlen_lo ∷ nlen_hi ∷ [])

-- `main` for any message, given by the characters before its terminator, and any wire of `size` bytes:
-- the exit code. Of the output the parts that are read from memory are formed.
pub run : List ℕ → List ℕ → ℕ → Outcome ℕ
run message wire size = do
  let payload_len = u16 (length message)
  (wire_len, wire) ← encode_stored_block message payload_len 1 wire size
  dump ← print_hex wire_label wire wire_len
  layout ← listed_layout wire
  block ← decode_stored_block wire wire_len
  assert (block.is_final == 1)
  assert (block.len == payload_len)
  same ← same_bytes block.contents message payload_len
  assert same
  done 0
