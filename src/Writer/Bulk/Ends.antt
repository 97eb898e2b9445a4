-- ===== src/Writer/Bulk/Ends.antt =====
-- `bs_write_bytes` ends in every state, and touches only what it may.
use native.Mathlib.Nat.{mod-eq_of_lt}
use bitstream_h.Base.{
  ℕ, ◌+◌, ◌^◌, ◌≤◌, ◌≡◌, refl, sym, ap, ◌∙◌, arith, Bool, true, ◌&&◌, not, ◌==◌, ltb, leb, leb→le,
  ltb→le, List, ◌++◌, length, take, drop, length-append, length-take, length-drop, take-append,
  drop-append, append_assoc, Ends, done-Ends, undefines, >>=-Ends, if-Ends,
}
use bitstream_h.Word.{sub64}
use bitstream_h.Writer.{Writer}
use bitstream_h.Writer.Keeps.{IsBounded, Keeps, Keeps-self, Keeps-flagged, either_same}
use bitstream_h.Writer.Bulk.{write_bytes, memcpy_to}

both-left : (a b : Bool) → a && b ≡ true → a ≡ true
both-left a b h = ground arith

both-right : (a b : Bool) → a && b ≡ true → b ≡ true
both-right a b h = ground arith

abbrev copied : List ℕ → ℕ → List ℕ → ℕ → List ℕ
copied dst i src n = take i dst ++ (take n src ++ drop (i + n) dst)

memcpy_to-Ends :
    (dst : List ℕ) (i : ℕ) (src : List ℕ) (n : ℕ)
    → Ends
        (memcpy_to dst i src n)
        (λ dst'. (i + n ≤ length dst) × (n ≤ length src) × (dst' ≡ copied dst i src n))
unfolding memcpy_to
memcpy_to-Ends dst i src n =
    if-Ends (leb (i + n) (length dst) && leb n (length src))
      (λ h. done-Ends _ (
        leb→le _ _ (both-left _ _ h),
        leb→le _ _ (both-right (leb (i + n) (length dst)) _ h),
        refl,
      ))
      (λ h. undefines refl)

module _ (dst : List ℕ) (i : ℕ) (src : List ℕ) (n : ℕ) (room : i + n ≤ length dst)
    (given : n ≤ length src) where
  length-copied : length (copied dst i src n) ≡ length dst
  length-copied = omega (
    arith,
    length-append (take i dst) (take n src ++ drop (i + n) dst),
    length-append (take n src) (drop (i + n) dst),
    length-take i dst (omega arith),
    length-take n src given,
    length-drop (i + n) dst,
  )

  copied_before : take i (copied dst i src n) ≡ take i dst
  copied_before = take-append i (take i dst) _ (length-take i dst (omega arith))

  copied_beyond : drop (i + n) (copied dst i src n) ≡ drop (i + n) dst
  copied_beyond =
      ap (drop (i + n)) (sym (append_assoc (take i dst) (take n src) (drop (i + n) dst)))
      ∙ drop-append (i + n) (take i dst ++ take n src) (drop (i + n) dst) (
          omega (
            arith,
            length-append (take i dst) (take n src),
            length-take i dst (omega arith),
            length-take n src given,
          ))

pub write_bytes-Ends :
    (w : Writer) (src : List ℕ) (n : ℕ)
    → IsBounded w
    → Ends (write_bytes w src n) (λ p. Keeps w p.1)
unfolding write_bytes
write_bytes-Ends w src n b =
    if-Ends (not (w.bits_in_cache == 0)) (λ waiting. done-Ends _ (Keeps-self w b))
      (λ empty.
        if-Ends w.overflow (λ over. done-Ends _ (Keeps-self w b))
          (λ clear.
            if-Ends (ltb (sub64 w.size w.byte_pos) n) (λ full. done-Ends _ (Keeps-flagged w b))
              (λ room. >>=-Ends (memcpy_to-Ends w.buffer w.byte_pos src n) (λ buffer' p.
                let fits : w.byte_pos + n ≤ w.size = omega (arith, ltb→le _ _ room, b) in
                rw (p.2, mod-eq_of_lt {n = w.byte_pos + n} {m = 2 ^ 64} (omega (arith, fits, b)))
                  (done-Ends _ (record {
                    bounded = (fits, b.1);
                    same_size = refl;
                    same_length = length-copied w.buffer w.byte_pos src n p.0 p.1;
                    onward = omega arith;
                    before = copied_before w.buffer w.byte_pos src n p.0 p.1;
                    beyond = copied_beyond w.buffer w.byte_pos src n p.0 p.1;
                    sticky = either_same w.overflow;
                  }))))))
