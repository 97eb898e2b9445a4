-- ===== src/Reader/Bulk/Bounds.antt =====
-- `bs_read_bytes` returns in every state within bounds, and goes on in the input.
use native.Mathlib.Nat.{mod-eq_of_lt}
use bitstream_h.Base.{
  ℕ, ◌+◌, ◌-◌, ◌/◌, ◌%◌, ◌^◌, ◌≤◌, ◌≡◌, refl, arith, not, ◌==◌, ltb, ltb→le, le→leb, List, length,
  take, drop, length-append, length-take, length-drop, Returns, done-Returns, >>=-Returns,
  if-Returns,
}
use bitstream_h.Word.{sub64}
use bitstream_h.Reader.{Reader}
use bitstream_h.Reader.Advance.{InBounds, Advances, Advances-self, Advances-moved}
use bitstream_h.Reader.Bulk.{read_bytes, memcpy_from}

memcpy_from-Returns :
    (dst src : List ℕ) (i n : ℕ)
    → i + n ≤ length src
    → n ≤ length dst
    → Returns (memcpy_from dst src i n) (λ dst'. length dst' ≡ length dst)
unfolding memcpy_from
memcpy_from-Returns dst src i n inside room =
    rw (le→leb (i + n) (length src) inside, le→leb n (length dst) room)
      (done-Returns _ (
        omega (
          arith,
          length-append (take n (drop i src)) (drop n dst),
          length-take n (drop i src) (omega (arith, length-drop i src)),
          length-drop n dst,
        )))

module _ (r : Reader) (dst : List ℕ) (n : ℕ) (v : InBounds r) (room : n ≤ length dst) where
  abbrev start : ℕ
  start = r.byte_pos - r.bits_in_cache / 8

  start_lem : sub64 r.byte_pos (r.bits_in_cache / 8) ≡ start
  start_lem = omega (arith, v.behind, v.addressable, v.in_buffer)

  moved-Advances :
      (p : ℕ)
      → start ≤ p
      → p ≤ r.size
      → Advances r (record r { byte_pos = p; bits_in_cache = 0; bit_cache = 0 })
  moved-Advances p ahead inside = Advances-moved r p v (omega (arith, v.behind)) inside

  -- In every state within bounds, with room for `n` bytes, `bs_read_bytes` returns, the destination is as
  -- long as before, and the reader goes on in the input.
  pub read_bytes-Advances :
      Returns (read_bytes r dst n) (λ p. (length p.1 ≡ length dst) × Advances r p.2)
  unfolding read_bytes
  read_bytes-Advances =
      if-Returns (not (r.bits_in_cache % 8 == 0)) (λ off. done-Returns _ (refl, Advances-self r v))
        (λ on. rw start_lem (
          if-Returns (ltb (sub64 r.size start) n)
            (λ short.
              done-Returns _
                (refl, moved-Advances start (omega arith) (omega (arith, v.in_buffer))))
            (λ enough.
              let fits : start + n ≤ r.size =
                omega (arith, ltb→le _ _ enough, v.in_buffer, v.addressable) in
              >>=-Returns
                (memcpy_from-Returns dst r.buffer start n (omega (arith, v.storage, fits)) room)
                (λ dst' same.
                  rw
                    (mod-eq_of_lt {n = start + n} {m = 2 ^ 64} (omega (arith, fits, v.addressable)))
                    (done-Returns _ (same, moved-Advances (start + n) (omega arith) fits))))))
