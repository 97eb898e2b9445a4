-- ===== src/Examples/StoredBlock/Literal.antt =====
-- The copy of the literal bytes, on a reader that has bytes left.
use native.Mathlib.Decide.{dec_le}
use bitstream_h.Base.{
  ℕ, ◌-◌, ◌*◌, ◌%◌, ◌≤◌, ◌≡◌, refl, sym, ap, ◌∙◌, arith, Bool, List, ◌++◌, length, take, replicate,
  take-append-drop, length-replicate, drop-replicate, Outcome, done, aborted, ◌>>=◌, ◌>>◌, assert,
  >>=-leads, le→leb, lt→leb,
}
use bitstream_h.BitString.{lsb_first}
use bitstream_h.BitString.Bytes.{
  bytes_bits-injective, length-bytes_bits, bytes_bits-take, take-IsByte,
}
use bitstream_h.Reader.{Reader}
use bitstream_h.Reader.State.{remaining, length-remaining-mod}
use bitstream_h.Reader.Bulk.{read_bytes}
use bitstream_h.Reader.Bulk.Copy.{IsCopied, IsCopied-read_bytes, short_read_bytes}
use bitstream_h.Reader.Bulk.Overrun.{read_bytes_overrun}
use bitstream_h.Examples.StoredBlock.{StoredBlock}
use bitstream_h.Examples.StoredBlock.Parse.{parse_literal}
use bitstream_h.Examples.StoredBlock.Bytewise.{HasBytes}

module _ (flag len : ℕ) where
  -- The decoder's last step.
  abbrev pub copy_literal : Reader → Outcome StoredBlock
  copy_literal br = do
    (ok, contents, br) ← read_bytes br (replicate 256 0) len
    assert ok
    done (record { is_final = flag; len = len; contents = contents })

  -- The literal bytes in the array of the result.
  abbrev placed : List ℕ → StoredBlock
  placed t = record { is_final = flag; len = len; contents = take len t ++ replicate (256 - len) 0 }

  module _ (br : Reader) (t : List ℕ) (h : HasBytes t br) where
    left-length : length (remaining lsb_first br) ≡ 8 * length t
    left-length = ap length h.left ∙ length-bytes_bits lsb_first t

    aligned : br.bits_in_cache % 8 ≡ 0
    aligned = omega (arith, length-remaining-mod lsb_first br h.is_reader, left-length)

    -- The array after the copy.
    copied_contents :
        (p : Bool × List ℕ × Reader)
        → len ≤ length t
        → IsCopied lsb_first br (replicate 256 0) len p
        → p.1 ≡ take len t ++ replicate (256 - len) 0
    copied_contents p enough c =
        sym (take-append-drop len p.1)
        ∙ rw (front, c.untouched, drop-replicate {A = ℕ} len 256 0) refl
      where
        front : take len p.1 ≡ take len t
        front =
            bytes_bits-injective lsb_first (take len p.1) (take len t) c.are_bytes
              (take-IsByte len t h.bytes)
              (c.copied ∙ ap (take (8 * len)) h.left ∙ sym (bytes_bits-take lsb_first len t enough))

    pub copy_literal-parses : copy_literal br ≡ parse_literal flag len t
    unfolding parse_literal
    copy_literal-parses = elim (dec_le len (length t)) [
      | no short ↦ rw (lt→leb len (length t) (omega arith)) (
          >>=-leads (λ m. m ≡ aborted)
            (short_read_bytes lsb_first br (replicate 256 0) len h.is_reader aligned
              (omega (arith, left-length)))
            (λ p c. rw c.refused refl))
      | yes enough ↦ elim (dec_le len 256) [
        | yes room ↦
            rw (le→leb len (length t) enough, le→leb len 256 room)
              (>>=-leads (λ m. m ≡ done (placed t))
                (IsCopied-read_bytes lsb_first br (replicate 256 0) len h.is_reader aligned
                  (omega (arith, left-length)) (omega (arith, length-replicate {A = ℕ} 256 0)))
                (λ p c. rw (c.accepted, copied_contents p enough c) refl))
        | no long ↦
            rw (le→leb len (length t) enough, lt→leb len 256 (omega arith))
              (rw
                (read_bytes_overrun lsb_first br (replicate 256 0) len h.is_reader
                  (omega (arith, left-length)) (omega (arith, left-length))
                  (omega (arith, length-replicate {A = ℕ} 256 0)))
                refl)
      ]
    ]
