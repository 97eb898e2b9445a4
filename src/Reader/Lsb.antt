-- ===== src/Reader/Lsb.antt =====
-- The LSB-first functions of the reader: refill, read, peek, skip, align, checked and unchecked.
pub mod Refill
pub mod Read
pub mod Unchecked
pub mod Bounds
use bitstream_h.Base.{
  ℕ, zero, suc, ◌+◌, ◌%◌, bit_and, bit_or, ltb, leb, ◌==◌, if◌then◌else◌, Outcome, done, stuck,
  ◌>>=◌, access, get_elem?,
}
use bitstream_h.Word.{u32, u64, sub32, shl64, shr64, mask64}
use bitstream_h.Reader.{Reader}

-- The loop of `_bs_reader_refill_lsb`.
pub refill_lsb_loop : ℕ → Reader → Outcome Reader
refill_lsb_loop zero bs = stuck
refill_lsb_loop (suc fuel) bs =
    let round = do
      next_byte ← access (get_elem? bs.buffer bs.byte_pos)
      shifted ← shl64 next_byte bs.bits_in_cache
      refill_lsb_loop fuel (record bs {
        bit_cache = bit_or bs.bit_cache shifted;
        bits_in_cache = u32 (bs.bits_in_cache + 8);
        byte_pos = u64 (bs.byte_pos + 1);
      })
    in if leb bs.bits_in_cache 56
      then (if leb bs.size bs.byte_pos then done bs else round)
      else done bs

pub refill_lsb : Reader → Outcome Reader
refill_lsb bs = refill_lsb_loop 9 bs

-- `(uint32_t)(cache & ((1ULL << n) - 1))`
pub extract_low : ℕ → ℕ → Outcome ℕ
extract_low cache n = do mask ← mask64 n; done (u32 (bit_and cache mask))

-- `bit_cache >>= n; bits_in_cache -= n;`
pub skip_bits_lsb_unchecked : Reader → ℕ → Outcome Reader
skip_bits_lsb_unchecked bs n = do
  rest ← shr64 bs.bit_cache n
  done (record bs { bit_cache = rest; bits_in_cache = sub32 bs.bits_in_cache n })

pub read_bits_lsb : Reader → ℕ → Outcome (ℕ × Reader)
read_bits_lsb bs n = if n == 0 then done (0, bs) else do
  bs ← refill_lsb bs
  if ltb bs.bits_in_cache n then done (0, bs) else do
    result ← extract_low bs.bit_cache n
    rest ← shr64 bs.bit_cache n
    done (result, record bs { bit_cache = rest; bits_in_cache = sub32 bs.bits_in_cache n })

pub peek_bits_lsb : Reader → ℕ → Outcome (ℕ × Reader)
peek_bits_lsb bs n = if n == 0 then done (0, bs) else do
  bs ← refill_lsb bs
  if ltb bs.bits_in_cache n
      then done (0, bs)
      else do result ← extract_low bs.bit_cache n; done (result, bs)

pub skip_bits_lsb : Reader → ℕ → Outcome Reader
skip_bits_lsb bs n = if n == 0 then done bs else do
  bs ← refill_lsb bs
  if ltb bs.bits_in_cache n then done (record bs { bits_in_cache = 0; bit_cache = 0 }) else do
    rest ← shr64 bs.bit_cache n
    done (record bs { bit_cache = rest; bits_in_cache = sub32 bs.bits_in_cache n })

pub read_bits_lsb_unchecked : Reader → ℕ → Outcome (ℕ × Reader)
read_bits_lsb_unchecked bs n = do
  bs ← refill_lsb bs
  result ← extract_low bs.bit_cache n
  rest ← shr64 bs.bit_cache n
  done (result, record bs { bit_cache = rest; bits_in_cache = sub32 bs.bits_in_cache n })

pub peek_bits_lsb_unchecked : Reader → ℕ → Outcome (ℕ × Reader)
peek_bits_lsb_unchecked bs n = do
  bs ← refill_lsb bs
  result ← extract_low bs.bit_cache n
  done (result, bs)

pub reader_align_lsb : Reader → Outcome Reader
reader_align_lsb bs =
    let res = bs.bits_in_cache % 8 in
    if ltb 0 res
    then (do
      rest ← shr64 bs.bit_cache res
      done (record bs { bit_cache = rest; bits_in_cache = sub32 bs.bits_in_cache res }))
    else done bs
