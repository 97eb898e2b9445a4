-- ===== src/Writer/Bulk.antt =====
-- `bs_write_bytes`, the bulk copy past the accumulator, of either order.
pub mod Copy
pub mod Ends
use bitstream_h.Base.{
  ℕ, ◌+◌, ltb, leb, ◌==◌, ◌&&◌, not, if◌then◌else◌, Outcome, done, ◌>>=◌, undefined, Bool, true,
  false, List, ◌++◌, length, take, drop,
}
use bitstream_h.Word.{u64, sub64}
use bitstream_h.Writer.{Writer}

-- `memcpy (dst + i, src, n)`: undefined where either range leaves its array.
pub memcpy_to : List ℕ → ℕ → List ℕ → ℕ → Outcome (List ℕ)
memcpy_to dst i src n =
    if leb (i + n) (length dst) && leb n (length src)
    then done (take i dst ++ (take n src ++ drop (i + n) dst))
    else undefined

-- Returns the answer and the writer.
pub write_bytes : Writer → List ℕ → ℕ → Outcome (Bool × Writer)
write_bytes bs src n_bytes =
    if not (bs.bits_in_cache == 0)
    then done (false, bs)
    else if bs.overflow
    then done (false, bs)
    else if ltb (sub64 bs.size bs.byte_pos) n_bytes
    then done (false, record bs { overflow = true })
    else do
      buffer' ← memcpy_to bs.buffer bs.byte_pos src n_bytes
      done (true, record bs { buffer = buffer'; byte_pos = u64 (bs.byte_pos + n_bytes) })
