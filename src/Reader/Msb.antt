-- ===== src/Reader/Msb.antt =====
-- The MSB-first functions of the reader: refill, read, peek, skip, align, checked and unchecked.
pub mod Refill
pub mod Read
pub mod Unchecked
pub mod Bounds
use bitstream_h.Base.{
  ℕ, zero, suc, ◌+◌, ◌%◌, bit_and, bit_or, ltb, leb, ◌==◌, if◌then◌else◌, Outcome, done, stuck,
  ◌>>=◌, access, get_elem?,
}
use bitstream_h.Word.{u8, u32, u64, sub32, shl64, shr64, mask64}
use bitstream_h.Reader.{Reader}

-- The loop of `_bs_reader_refill`. Each round caches eight bits more, so nine tests are enough.
pub refill_loop : ℕ → Reader → Outcome Reader
refill_loop zero bs = stuck
refill_loop (suc fuel) bs =
    let round = do
      next_byte ← access (get_elem? bs.buffer bs.byte_pos)
      shifted ← shl64 bs.bit_cache 8
      refill_loop fuel (record bs {
        bit_cache = bit_or shifted next_byte;
        bits_in_cache = u32 (bs.bits_in_cache + 8);
        byte_pos = u64 (bs.byte_pos + 1);
      })
    in if leb bs.bits_in_cache 56
      then (if leb bs.size bs.byte_pos then done bs else round)
      else done bs

pub refill : Reader → Outcome Reader
refill bs = refill_loop 9 bs

-- `(uint32_t)((cache >> shift) & ((1ULL << n) - 1))`
pub extract : ℕ → ℕ → ℕ → Outcome ℕ
extract cache shift n = do
  mask ← mask64 n
  shifted ← shr64 cache shift
  done (u32 (bit_and shifted mask))

pub read_bits : Reader → ℕ → Outcome (ℕ × Reader)
read_bits bs n = if n == 0 then done (0, bs) else do
  bs ← refill bs
  if ltb bs.bits_in_cache n then done (0, bs) else do
    let left = sub32 bs.bits_in_cache n
    result ← extract bs.bit_cache left n
    done (result, record bs { bits_in_cache = left })

pub read_bit : Reader → Outcome (ℕ × Reader)
read_bit bs = do (result, bs') ← read_bits bs 1; done (u8 result, bs')

pub peek_bits : Reader → ℕ → Outcome (ℕ × Reader)
peek_bits bs n = if n == 0 then done (0, bs) else do
  bs ← refill bs
  if ltb bs.bits_in_cache n
      then done (0, bs)
      else do result ← extract bs.bit_cache (sub32 bs.bits_in_cache n) n; done (result, bs)

pub skip_bits : Reader → ℕ → Outcome Reader
skip_bits bs n = if n == 0 then done bs else do
  bs ← refill bs
  if ltb bs.bits_in_cache n
      then done (record bs { bits_in_cache = 0 })
      else done (record bs { bits_in_cache = sub32 bs.bits_in_cache n })

pub read_bits_unchecked : Reader → ℕ → Outcome (ℕ × Reader)
read_bits_unchecked bs n = do
  bs ← refill bs
  let left = sub32 bs.bits_in_cache n
  result ← extract bs.bit_cache left n
  done (result, record bs { bits_in_cache = left })

pub peek_bits_unchecked : Reader → ℕ → Outcome (ℕ × Reader)
peek_bits_unchecked bs n = do
  bs ← refill bs
  result ← extract bs.bit_cache (sub32 bs.bits_in_cache n) n
  done (result, bs)

pub skip_bits_unchecked : Reader → ℕ → Reader
skip_bits_unchecked bs n = record bs { bits_in_cache = sub32 bs.bits_in_cache n }

pub reader_align : Reader → Reader
reader_align bs =
    let res = bs.bits_in_cache % 8 in
    if ltb 0 res then record bs { bits_in_cache = sub32 bs.bits_in_cache res } else bs
