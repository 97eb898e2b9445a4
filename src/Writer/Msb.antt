-- ===== src/Writer/Msb.antt =====
-- The MSB-first functions of the writer: dump, write, flush and align.
pub mod Dump
pub mod Write
pub mod Finish
pub mod Ends
use bitstream_h.Base.{
  ℕ, zero, suc, ◌+◌, ◌/◌, ◌%◌, bit_and, bit_or, ltb, leb, ◌==◌, ◌||◌, true, if◌then◌else◌, Outcome,
  done, stuck, ◌>>=◌, ◌>>◌, assert, store,
}
use bitstream_h.Word.{u8, u32, u64, sub32, shl64, shr64, mask64}
use bitstream_h.Writer.{Writer}

-- The loop of `_bs_writer_dump`.
pub dump_loop : ℕ → Writer → Outcome Writer
dump_loop zero bs = stuck
dump_loop (suc fuel) bs =
    let round = do
      let shift_amount = sub32 bs.bits_in_cache 8
      shifted ← shr64 bs.bit_cache shift_amount
      let byte_to_write = u8 (bit_and shifted 0xFF)
      buffer' ← store bs.buffer bs.byte_pos byte_to_write
      dump_loop fuel (record bs {
        buffer = buffer';
        byte_pos = u64 (bs.byte_pos + 1);
        bits_in_cache = sub32 bs.bits_in_cache 8;
      })
    in if leb 8 bs.bits_in_cache
      then (if leb bs.size bs.byte_pos then done (record bs { overflow = true }) else round)
      else done bs

-- Each round takes eight bits, so the fuel covers every round and the test that ends the loop.
pub dump : Writer → Outcome Writer
dump bs = do
  bs ← dump_loop (bs.bits_in_cache / 8 + 1) bs
  mask ← mask64 bs.bits_in_cache
  done (record bs { bit_cache = bit_and bs.bit_cache mask })

-- `if (bs->bits_in_cache >= 8) _bs_writer_dump(bs);`
pub dump_if_full : Writer → Outcome Writer
dump_if_full bs = if leb 8 bs.bits_in_cache then dump bs else done bs

pub write_bit : Writer → ℕ → Outcome Writer
write_bit bs v = do
  shifted ← shl64 bs.bit_cache 1
  dump_if_full (record bs {
    bit_cache = bit_or shifted (bit_and v 1);
    bits_in_cache = u32 (bs.bits_in_cache + 1);
  })

pub write_bits : Writer → ℕ → ℕ → Outcome Writer
write_bits bs v n = do
  assert (leb n 32)
  if n == 0 then done bs else do
    mask ← mask64 n
    let clean_value = bit_and v mask
    shifted ← shl64 bs.bit_cache n
    dump_if_full (record bs {
      bit_cache = bit_or shifted clean_value;
      bits_in_cache = u32 (bs.bits_in_cache + n);
    })

pub write_bits_unchecked : Writer → ℕ → ℕ → Outcome Writer
write_bits_unchecked bs v n = do
  shifted ← shl64 bs.bit_cache n
  dump_if_full
      (record bs { bit_cache = bit_or shifted v; bits_in_cache = u32 (bs.bits_in_cache + n) })

pub pad : Writer → Outcome Writer
pad bs = write_bits bs 0 (sub32 8 bs.bits_in_cache)

pub writer_flush : Writer → Outcome Writer
writer_flush bs =
    if bs.bits_in_cache == 0
    then done bs
    else if bs.overflow || leb 8 bs.bits_in_cache
    then (do
      bs ← dump bs
      if bs.bits_in_cache == 0
          then done bs
          else if leb 8 bs.bits_in_cache
          then done (record bs { overflow = true })
          else pad bs)
    else pad bs

pub writer_align : Writer → Outcome Writer
writer_align bs =
    let res = bs.bits_in_cache % 8 in if ltb 0 res then write_bits bs 0 (sub32 8 res) else done bs
