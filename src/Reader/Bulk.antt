-- ===== src/Reader/Bulk.antt =====
-- `bs_read_bytes`, the bulk copy past the accumulator, of either order.
pub mod Copy
pub mod Bounds
pub mod Overrun
use bitstream_h.Base.{
  ℕ, ◌+◌, ◌/◌, ◌%◌, ltb, ◌==◌, not, if◌then◌else◌, Outcome, done, ◌>>=◌, undefined, Bool, true,
  false, List, ◌++◌, length, take, drop, leb, ◌&&◌,
}
use bitstream_h.Word.{u64, sub64}
use bitstream_h.Reader.{Reader}

-- `memcpy (dst, src + i, n)`: undefined where either range leaves its array.
pub memcpy_from : List ℕ → List ℕ → ℕ → ℕ → Outcome (List ℕ)
memcpy_from dst src i n =
    if leb (i + n) (length src) && leb n (length dst)
    then done (take n (drop i src) ++ drop n dst)
    else undefined

-- Returns the answer, the destination array and the reader.
pub read_bytes : Reader → List ℕ → ℕ → Outcome (Bool × List ℕ × Reader)
read_bytes bs dst n_bytes =
    if not (bs.bits_in_cache % 8 == 0)
    then done (false, dst, bs)
    else let back = record bs {
      byte_pos = sub64 bs.byte_pos (bs.bits_in_cache / 8);
      bits_in_cache = 0;
      bit_cache = 0;
    } in
      if ltb (sub64 back.size back.byte_pos) n_bytes then done (false, dst, back) else do
        dst' ← memcpy_from dst back.buffer back.byte_pos n_bytes
        done (true, dst', record back { byte_pos = u64 (back.byte_pos + n_bytes) })
