-- ===== src/Reader/Bulk/Copy.antt =====
-- `bs_read_bytes` copies the next bytes of the stream, or nothing.
use native.Mathlib.Decide.{dec_le, ℕ_discrete}
use bitstream_h.Base.{
  ℕ, ◌+◌, ◌-◌, ◌%◌, ◌/◌, ◌*◌, ◌^◌, ◌≤◌, ◌<◌, ◌≡◌, ◌≢◌, refl, sym, ap, ◌∙◌, arith, List, length-take,
  take-append, drop-append, length, take, drop, drop-drop, length-drop, le→ltb, lt→ltb, le→leb,
  lt→leb, leb, ◌&&◌, ◌==◌, if◌then◌else◌, eq→==, ne→==, Bool, true, false, Returns, done-Returns,
  All,
}
use native.Mathlib.Nat.{mod-eq_of_lt}
use bitstream_h.Word.{sub64}
use bitstream_h.BitString.{BitOrder, bytes_bits}
use mathlib.Core.Path.{subst}
use bitstream_h.BitString.Bytes.{
  IsByte, take-IsByte, drop-IsByte, take-drop-take, bytes_bits-take, bytes_bits-drop,
}
use bitstream_h.Reader.{Reader}
use bitstream_h.Reader.State.{
  IsReader, IsAt, IsAt-self, input, remaining, length-remaining, length-remaining-mod, length-input,
  position,
}
use bitstream_h.Reader.Status.{moved, moved-IsReader, remaining-moved}
use bitstream_h.Reader.Bulk.{read_bytes, memcpy_from}

-- Fails without a trace: the stream and the destination are as they were.
pub record IsUncopied (o : BitOrder) (r : Reader) (dst : List ℕ) (p : Bool × List ℕ × Reader)
    : Type 0 where
  pub refused : p.0 ≡ false
  pub untouched : p.1 ≡ dst
  pub at : IsAt o r p.2 (remaining o r)

-- The first `n` bytes of the destination are the next `8 * n` bits of the stream.
pub record IsCopied (o : BitOrder) (r : Reader) (dst : List ℕ) (n : ℕ) (p : Bool × List ℕ × Reader)
    : Type 0 where
  pub accepted : p.0 ≡ true
  pub copied : bytes_bits o (take n p.1) ≡ take (8 * n) (remaining o r)
  pub are_bytes : All IsByte (take n p.1)
  pub untouched : drop n p.1 ≡ drop n dst
  pub at : IsAt o r p.2 (drop (8 * n) (remaining o r))

module _ (o : BitOrder) (r : Reader) (dst : List ℕ) (n : ℕ) (v : IsReader o r) where
  abbrev start : ℕ
  start = r.byte_pos - r.bits_in_cache / 8

  -- Off a byte boundary nothing is copied.
  unaligned_read_bytes : r.bits_in_cache % 8 ≢ 0 → Returns (read_bytes r dst n) (IsUncopied o r dst)
  unfolding read_bytes
  unaligned_read_bytes h =
      rw (ne→== _ _ h)
        (done-Returns _ (record { refused = refl; untouched = refl; at = IsAt-self o r v }))

  module _ (aligned : r.bits_in_cache % 8 ≡ 0) where
    in_size : start ≤ r.size
    in_size = omega (arith, v.in_buffer)

    start_lem : 8 * start ≡ position r
    start_lem = omega (arith, v.behind)

    back_lem : sub64 r.byte_pos (r.bits_in_cache / 8) ≡ start
    back_lem = omega (arith, v.behind, v.in_buffer, v.addressable)

    available_lem : sub64 r.size start ≡ r.size - start
    available_lem = omega (arith, in_size, v.addressable)

    rewound-IsAt : IsAt o r (moved o r start v in_size) (remaining o r)
    rewound-IsAt = record {
      is_reader = moved-IsReader o r start v in_size;
      same_size = refl;
      same_buffer = refl;
      at =
          remaining-moved o r start v in_size
          ∙ ap (λ (k : ℕ). drop k (bytes_bits o (input r))) start_lem
          ∙ unfold remaining in refl;
    }

    pub short_read_bytes :
        length (remaining o r) < 8 * n → Returns (read_bytes r dst n) (IsUncopied o r dst)
    unfolding read_bytes
    short_read_bytes h =
        rw
          (
            eq→== _ _ aligned,
            back_lem,
            available_lem,
            lt→ltb (r.size - start) n (omega (arith, length-remaining o r v, start_lem, in_size)),
          )
          (done-Returns _ (record { refused = refl; untouched = refl; at = rewound-IsAt }))

    -- What is left is the bytes from `start` on.
    remaining-start : remaining o r ≡ bytes_bits o (drop start (input r))
    unfolding remaining
    remaining-start =
        ap (λ (k : ℕ). drop k (bytes_bits o (input r))) (sym start_lem)
        ∙ sym (bytes_bits-drop o start (input r))

    module _ (h : 8 * n ≤ length (remaining o r)) where
      fits : start + n ≤ r.size
      fits = omega (arith, length-remaining o r v, start_lem, in_size)

      length-source : n ≤ length (drop start (input r))
      length-source = omega (arith, length-drop start (input r), length-input v, fits)

      copied_lem : bytes_bits o (take n (drop start r.buffer)) ≡ take (8 * n) (remaining o r)
      copied_lem =
          ap (bytes_bits o) (sym (take-drop-take n start r.size r.buffer fits))
          ∙ bytes_bits-take o n (drop start (input r)) length-source
          ∙ ap (take (8 * n)) (sym remaining-start)

      length-copied : length (take n (drop start r.buffer)) ≡ n
      length-copied = length-take n _ (omega (arith, length-drop start r.buffer, v.storage, fits))

      passed-IsAt : IsAt o r (moved o r (start + n) v fits) (drop (8 * n) (remaining o r))
      passed-IsAt = record {
        is_reader = moved-IsReader o r (start + n) v fits;
        same_size = refl;
        same_buffer = refl;
        at =
            remaining-moved o r (start + n) v fits
            ∙ ap (λ (k : ℕ). drop k (bytes_bits o (input r))) {y = position r + 8 * n}
                (omega (arith, start_lem))
            ∙ sym (drop-drop (8 * n) (position r) _)
            ∙ unfold remaining in refl;
      }

      pub IsCopied-read_bytes : n ≤ length dst → Returns (read_bytes r dst n) (IsCopied o r dst n)
      unfolding read_bytes memcpy_from
      IsCopied-read_bytes room =
          rw
            (
              eq→== _ _ aligned,
              back_lem,
              available_lem,
              le→ltb (r.size - start) n (omega (arith, fits)),
              le→leb (start + n) (length r.buffer) (omega (arith, fits, v.storage)),
              le→leb n (length dst) room,
              mod-eq_of_lt {n = start + n} {m = 2 ^ 64} (omega (arith, fits, v.addressable)),
            )
            (done-Returns _ (record {
              accepted = refl;
              copied =
                  ap (bytes_bits o) (take-append n (take n (drop start r.buffer)) _ length-copied)
                  ∙ copied_lem;
              are_bytes =
                  subst (All IsByte)
                    (sym (take-append n (take n (drop start r.buffer)) _ length-copied))
                    (take-IsByte n (drop start r.buffer) (drop-IsByte start r.buffer v.all_bytes));
              untouched = drop-append n (take n (drop start r.buffer)) _ length-copied;
              at = passed-IsAt;
            }))

-- What `bs_read_bytes` promises for `n` bytes: they are copied if the reader is at a byte boundary
-- and has them.
abbrev pub CopiesBytes : BitOrder → Reader → List ℕ → ℕ → Bool × List ℕ × Reader → Type 0
CopiesBytes o r dst n =
    if (length (remaining o r) % 8 == 0) && leb (8 * n) (length (remaining o r))
    then IsCopied o r dst n
    else IsUncopied o r dst

-- At a byte boundary with `n` bytes left, `bs_read_bytes` returns true, copies these bytes into the
-- destination, which must have room for them, leaves the rest of it, and steps past them; in all
-- other cases it returns false, and neither the destination nor the stream changes.
pub read_bytes-CopiesBytes :
    (o : BitOrder) (r : Reader) (dst : List ℕ) (n : ℕ)
    → IsReader o r
    → n ≤ length dst
    → Returns (read_bytes r dst n) (CopiesBytes o r dst n)
read_bytes-CopiesBytes o r dst n v room = elim (ℕ_discrete (r.bits_in_cache % 8) 0) [
  | no off ↦
      rw (ne→== (length (remaining o r) % 8) 0 (omega (arith, length-remaining-mod o r v)))
        (unaligned_read_bytes o r dst n v off)
  | yes aligned ↦ elim (dec_le (8 * n) (length (remaining o r))) [
    | yes h ↦
        rw
          (
            eq→== (length (remaining o r) % 8) 0 (omega (arith, length-remaining-mod o r v)),
            le→leb _ _ h,
          )
          (IsCopied-read_bytes o r dst n v aligned h room)
    | no h ↦
        rw
          (
            eq→== (length (remaining o r) % 8) 0 (omega (arith, length-remaining-mod o r v)),
            lt→leb (8 * n) (length (remaining o r)) (omega arith),
          )
          (short_read_bytes o r dst n v aligned (omega arith))
  ]
]
