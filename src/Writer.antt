-- ===== src/Writer.antt =====
-- The writer of bitstream.h, `bs_writer_t`: its state, and the functions that do not depend on the
-- bit order. The children hold the functions of each order and what is proved of them.
pub mod Msb
pub mod Lsb
pub mod State
pub mod Rounds
pub mod Push
pub mod Flush
pub mod Status
pub mod Interface
pub mod Bulk
pub mod Contents
pub mod Keeps
pub mod History
pub mod Session
pub mod Accumulator
pub mod Orders
use bitstream_h.Base.{ℕ, Bool, false, List}

pub record Writer : Type 0 where
  pub buffer : List ℕ
  pub size : ℕ
  pub byte_pos : ℕ
  pub bit_cache : ℕ
  pub bits_in_cache : ℕ
  pub overflow : Bool

unfoldable pub writer_init : List ℕ → ℕ → Writer
writer_init buf n = record {
  buffer = buf;
  size = n;
  byte_pos = 0;
  bit_cache = 0;
  bits_in_cache = 0;
  overflow = false;
}

unfoldable pub writer_bytes_written : Writer → ℕ
writer_bytes_written bs = bs.byte_pos
