-- ===== src/Writer/Lsb.antt =====
-- The LSB-first functions of the writer: dump, write, flush and align.
pub mod Dump
pub mod Write
pub mod Finish
pub mod Ends
use bitstream_h.Base.{
  ℕ, zero, suc, ◌+◌, ◌/◌, ◌%◌, bit_and, bit_or, ltb, leb, ◌==◌, ◌||◌, true, if◌then◌else◌, Outcome,
  done, stuck, ◌>>=◌, ◌>>◌, assert, store,
}
use bitstream_h.Word.{u8, u32, u64, sub32, shl64, shr64, mask64}
use bitstream_h.Writer.{Writer}

-- The loop of `_bs_writer_dump_lsb`.
pub dump_lsb_loop : ℕ → Writer → Outcome Writer
dump_lsb_loop zero bs = stuck
dump_lsb_loop (suc fuel) bs =
    let round = do
      let byte_to_write = u8 (bit_and bs.bit_cache 0xFF)
      buffer' ← store bs.buffer bs.byte_pos byte_to_write
      rest ← shr64 bs.bit_cache 8
      dump_lsb_loop fuel (record bs {
        buffer = buffer';
        byte_pos = u64 (bs.byte_pos + 1);
        bit_cache = rest;
        bits_in_cache = sub32 bs.bits_in_cache 8;
      })
    in if leb 8 bs.bits_in_cache
      then (if leb bs.size bs.byte_pos then done (record bs { overflow = true }) else round)
      else done bs

-- Each round takes eight bits, so the fuel covers every round and the test that ends the loop.
pub dump_lsb : Writer → Outcome Writer
dump_lsb bs = dump_lsb_loop (bs.bits_in_cache / 8 + 1) bs

-- `if (bs->bits_in_cache >= 8) _bs_writer_dump_lsb(bs);`
pub dump_lsb_if_full : Writer → Outcome Writer
dump_lsb_if_full bs = if leb 8 bs.bits_in_cache then dump_lsb bs else done bs

pub write_bits_lsb : Writer → ℕ → ℕ → Outcome Writer
write_bits_lsb bs v n = do
  assert (leb n 32)
  if n == 0 then done bs else do
    mask ← mask64 n
    let clean_value = bit_and v mask
    shifted ← shl64 clean_value bs.bits_in_cache
    dump_lsb_if_full (record bs {
      bit_cache = bit_or bs.bit_cache shifted;
      bits_in_cache = u32 (bs.bits_in_cache + n);
    })

pub write_bits_lsb_unchecked : Writer → ℕ → ℕ → Outcome Writer
write_bits_lsb_unchecked bs v n = do
  shifted ← shl64 v bs.bits_in_cache
  dump_lsb_if_full (record bs {
    bit_cache = bit_or bs.bit_cache shifted;
    bits_in_cache = u32 (bs.bits_in_cache + n);
  })

pub pad_lsb : Writer → Outcome Writer
pad_lsb bs = write_bits_lsb bs 0 (sub32 8 bs.bits_in_cache)

pub writer_flush_lsb : Writer → Outcome Writer
writer_flush_lsb bs =
    if bs.bits_in_cache == 0
    then done bs
    else if bs.overflow || leb 8 bs.bits_in_cache
    then (do
      bs ← dump_lsb bs
      if bs.bits_in_cache == 0
          then done bs
          else if leb 8 bs.bits_in_cache
          then done (record bs { overflow = true })
          else pad_lsb bs)
    else pad_lsb bs

pub writer_align_lsb : Writer → Outcome Writer
writer_align_lsb bs =
    let res = bs.bits_in_cache % 8 in
    if ltb 0 res then write_bits_lsb bs 0 (sub32 8 res) else done bs
