-- ===== src/Reader/Bulk/Overrun.antt =====
-- `bs_read_bytes` does not know how long its destination is.
use bitstream_h.Base.{
  ℕ, ◌+◌, ◌-◌, ◌*◌, ◌/◌, ◌%◌, ◌≤◌, ◌<◌, ◌≡◌, arith, List, length, eq→==, le→ltb, lt→leb, le→leb,
  undefined,
}
use bitstream_h.BitString.{BitOrder}
use bitstream_h.Word.{sub64}
use bitstream_h.Reader.{Reader}
use bitstream_h.Reader.State.{IsReader, remaining, length-remaining, length-remaining-mod}
use bitstream_h.Reader.Bulk.{read_bytes, memcpy_from}

-- At a byte boundary with `n` bytes left, a copy into fewer than `n` is undefined.
pub read_bytes_overrun :
    (o : BitOrder) (r : Reader) (dst : List ℕ) (n : ℕ)
    → IsReader o r
    → length (remaining o r) % 8 ≡ 0
    → 8 * n ≤ length (remaining o r)
    → length dst < n
    → read_bytes r dst n ≡ undefined
unfolding read_bytes memcpy_from
read_bytes_overrun o r dst n v aligned enough short = rw (
  eq→== (r.bits_in_cache % 8) 0 (omega (arith, length-remaining-mod o r v)),
  start_lem,
  le→ltb (sub64 r.size start) n (omega (arith, v.addressable, fits)),
  le→leb (start + n) (length r.buffer) (omega (arith, fits, v.storage)),
  lt→leb n (length dst) short,
)
  where
    start : ℕ
    start = r.byte_pos - r.bits_in_cache / 8

    start_lem : sub64 r.byte_pos (r.bits_in_cache / 8) ≡ start
    start_lem = omega (arith, v.behind, v.in_buffer, v.addressable)

    fits : start + n ≤ r.size
    fits = omega (arith, length-remaining o r v, length-remaining-mod o r v, v.behind, v.in_buffer)
