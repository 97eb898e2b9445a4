-- ===== src/Reader/Lsb/Refill.antt =====
-- `_bs_reader_refill_lsb` returns, stays in bounds and in range, and leaves the stream as it was.
use native.Mathlib.Nat.{mod-eq_of_lt}
use bitstream_h.Base.{
  ℕ, suc, ◌+◌, ◌-◌, ◌*◌, ◌%◌, ◌^◌, ◌≤◌, ◌<◌, ◌≡◌, le→leb, lt→leb, arith, get_elem?, some, bit_or,
  done, Returns,
}
use bitstream_h.Word.Laws.{shl64_lem}
use bitstream_h.BitString.{lsb_first}
use bitstream_h.BitString.Bytes.{get_elem?_total}
use bitstream_h.BitString.Cache.{push_lsb, push_lsb-lt}
use bitstream_h.Reader.{Reader}
use bitstream_h.Reader.State.{IsReader, IsRefilled}
use bitstream_h.Reader.Rounds.{Round, loop-IsRefilled}
use bitstream_h.Reader.Lsb.{refill_lsb_loop, refill_lsb}

module _ (r : Reader) (v : IsReader lsb_first r) (room : r.bits_in_cache ≤ 56)
    (more : r.byte_pos < r.size) where
  next : (b : ℕ) × (get_elem? r.buffer r.byte_pos ≡ some b) × (b < 256)
  next = get_elem?_total r.byte_pos r.buffer v.all_bytes (omega (arith, v.storage))

  abbrev cache : ℕ
  cache = bit_or r.bit_cache (next.0 % 2 ^ (64 - r.bits_in_cache) * 2 ^ r.bits_in_cache)

  refill_lsb_loop-Round : Round lsb_first refill_lsb_loop r v
  refill_lsb_loop-Round = record {
    cache = cache;
    byte = next.0;
    at = next.1;
    joined = push_lsb r.bits_in_cache 8 r.bit_cache next.0 v.clean next.2 (omega arith);
    clean = push_lsb-lt r.bits_in_cache 8 r.bit_cache next.0 v.clean next.2 (omega arith);
    runs = λ fuel.
        unfold refill_lsb_loop in
        rw (
          le→leb _ _ room,
          lt→leb _ _ more,
          next.1,
          shl64_lem next.0 r.bits_in_cache (omega arith),
          mod-eq_of_lt {n = r.bits_in_cache + 8} {m = 2 ^ 32} (omega arith),
          mod-eq_of_lt {n = r.byte_pos + 1} {m = 2 ^ 64} (omega (arith, v.addressable)),
        );
  }

refill_lsb_loop_full :
    (fuel : ℕ) (r : Reader) → 56 < r.bits_in_cache → refill_lsb_loop (suc fuel) r ≡ done r
unfolding refill_lsb_loop
refill_lsb_loop_full fuel r h = rw (lt→leb _ _ h)

refill_lsb_loop_end :
    (fuel : ℕ) (r : Reader)
    → r.bits_in_cache ≤ 56
    → r.size ≤ r.byte_pos
    → refill_lsb_loop (suc fuel) r ≡ done r
unfolding refill_lsb_loop
refill_lsb_loop_end fuel r h e = rw (le→leb _ _ h, le→leb _ _ e)

-- On a valid reader `_bs_reader_refill_lsb` returns a valid reader with the same stream, size and
-- buffer, and then more than 56 bits are cached or the buffer is used up.
pub refill_lsb-IsRefilled :
    (r : Reader) → IsReader lsb_first r → Returns (refill_lsb r) (IsRefilled lsb_first r)
unfolding refill_lsb
refill_lsb-IsRefilled r v =
    loop-IsRefilled lsb_first refill_lsb_loop refill_lsb_loop_full refill_lsb_loop_end
      refill_lsb_loop-Round 9 r v (omega arith)
