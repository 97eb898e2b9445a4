-- ===== src/Reader.antt =====
-- The reader of bitstream.h, `bs_reader_t`: its state, and the functions that do not depend on the
-- bit order. The children hold the functions of each order and what is proved of them.
pub mod Msb
pub mod Lsb
pub mod Bulk
pub mod State
pub mod Moves
pub mod Rounds
pub mod Status
pub mod Interface
pub mod Advance
pub mod History
pub mod Session
pub mod Drain
pub mod Accumulator
pub mod Orders
use bitstream_h.Base.{ℕ, ◌+◌, ◌-◌, ◌*◌, Bool, ◌&&◌, ltb, leb, ◌==◌, if◌then◌else◌, List}
use bitstream_h.Word.{u64, sub64}

pub record Reader : Type 0 where
  pub buffer : List ℕ
  pub size : ℕ
  pub byte_pos : ℕ
  pub bit_cache : ℕ
  pub bits_in_cache : ℕ

unfoldable pub reader_init : List ℕ → ℕ → Reader
reader_init buf n = record {
  buffer = buf;
  size = n;
  byte_pos = 0;
  bit_cache = 0;
  bits_in_cache = 0;
}

unfoldable pub reader_eof : Reader → Bool
reader_eof bs = leb bs.size bs.byte_pos && (bs.bits_in_cache == 0)

unfoldable pub reader_bits_left : Reader → ℕ
reader_bits_left bs =
    if leb bs.size bs.byte_pos
    then bs.bits_in_cache
    else u64 (u64 (sub64 bs.size bs.byte_pos * 8) + bs.bits_in_cache)
