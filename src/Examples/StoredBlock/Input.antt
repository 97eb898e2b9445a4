-- ===== src/Examples/StoredBlock/Input.antt =====
-- The decoder of a stored block on any bytes: it parses them.
use native.Mathlib.Decide.{ℕ_discrete}
use bitstream_h.Base.{
  ℕ, ◌+◌, ◌*◌, ◌/◌, ◌%◌, ◌^◌, ◌≤◌, ◌<◌, ◌≡◌, ◌==◌, refl, ◌∙◌, arith, Bool, if◌then◌else◌, List, [],
  ◌∷◌, All, length, take, bit_xor, Bool-cases, inl, inr, Outcome, aborted, ◌>>=◌, ◌>>◌, assert,
  >>=-leads, eq→==, ne→==, lt→leb,
}
use bitstream_h.Word.{u16}
use bitstream_h.Word.Complement.{bit_xor-complements}
use bitstream_h.BitString.{lsb_first, bytes_bits}
use bitstream_h.BitString.Bytes.{IsByte, take-IsByte}
use bitstream_h.Stream
use bitstream_h.Reader.{Reader, reader_init}
use bitstream_h.Reader.State.{IsReader, remaining}
use bitstream_h.Reader.Status.{reader_init-IsReader}
use bitstream_h.Reader.Interface.{lsb_reader, read_field}
use bitstream_h.Reader.Lsb.{read_bits_lsb, reader_align_lsb}
use bitstream_h.Examples.StoredBlock.{StoredBlock, joined, decode_stored_block}
use bitstream_h.Examples.StoredBlock.Parse.{parse_literal, parse_block}
use bitstream_h.Examples.StoredBlock.Bytewise.{
  HasBytes, next_byte, next_byte-lt, read_none, read_byte, joined_bytes, first_byte, align-padding,
  align_byte,
}
use bitstream_h.Examples.StoredBlock.Literal.{copy_literal, copy_literal-parses}

-- The decoder after its header, and what it makes of the bytes there.
abbrev decode_lengths : ℕ → Reader → Outcome StoredBlock
decode_lengths flag br = do
  (len_lo, br) ← read_bits_lsb br 8
  (len_hi, br) ← read_bits_lsb br 8
  (nlen_lo, br) ← read_bits_lsb br 8
  (nlen_hi, br) ← read_bits_lsb br 8
  let len = joined len_lo len_hi
  let nlen = joined nlen_lo nlen_hi
  assert (u16 (bit_xor len nlen) == 0xFFFF)
  copy_literal flag len br

abbrev parse_words : ℕ → ℕ → ℕ → List ℕ → Outcome StoredBlock
parse_words flag len nlen t = if len + nlen == 0xFFFF then parse_literal flag len t else aborted

abbrev parse_lengths : ℕ → List ℕ → Outcome StoredBlock
parse_lengths flag t =
    let (lo, t1) = next_byte t in
    let (hi, t2) = next_byte t1 in
    let (nlo, t3) = next_byte t2 in
    let (nhi, t4) = next_byte t3 in parse_words flag (lo + 256 * hi) (nlo + 256 * nhi) t4

checked_literal :
    (flag len nlen : ℕ) (br : Reader) (t : List ℕ)
    → HasBytes t br
    → len < 2 ^ 16
    → nlen < 2 ^ 16
    → (assert (u16 (bit_xor len nlen) == 0xFFFF) >> copy_literal flag len br)
      ≡ parse_words flag len nlen t
checked_literal flag len nlen br t h small nsmall =
    rw (bit_xor-complements len nlen small nsmall) (elim (Bool-cases (len + nlen == 0xFFFF)) [
      | inl e ↦ rw e (copy_literal-parses flag len br t h)
      | inr e ↦ rw e refl
    ])

decode_lengths-parses :
    (flag : ℕ) (br : Reader) (t : List ℕ)
    → HasBytes t br
    → decode_lengths flag br ≡ parse_lengths flag t
decode_lengths-parses flag br t h =
    >>=-leads (λ m. m ≡ parse_lengths flag t) (read_byte t br h)
      (λ p a.
        >>=-leads (λ m. m ≡ parse_lengths flag t) (read_byte _ p.1 a.1)
          (λ q b.
            >>=-leads (λ m. m ≡ parse_lengths flag t) (read_byte _ q.1 b.1)
              (λ r c.
                >>=-leads (λ m. m ≡ parse_lengths flag t) (read_byte _ r.1 c.1)
                  (λ s d.
                    rw
                      (
                        a.0,
                        b.0,
                        c.0,
                        d.0,
                        joined_bytes _ _ (next_byte-lt t h.bytes) (next_byte-lt _ a.1.bytes),
                        joined_bytes _ _ (next_byte-lt _ b.1.bytes) (next_byte-lt _ c.1.bytes),
                      )
                      (checked_literal flag _ _ s.1 _ d.1
                        (omega (arith, next_byte-lt t h.bytes, next_byte-lt _ a.1.bytes))
                        (omega (arith, next_byte-lt _ b.1.bytes, next_byte-lt _ c.1.bytes)))))))

abbrev decode_typed : ℕ → ℕ → Reader → Outcome StoredBlock
decode_typed flag btype br = do
  assert (btype == 0)
  br ← reader_align_lsb br
  decode_lengths flag br

abbrev decode_header : Reader → Outcome StoredBlock
decode_header br = do
  (is_final, br) ← read_bits_lsb br 1
  (btype, br) ← read_bits_lsb br 2
  decode_typed is_final btype br

abbrev parse_header : List ℕ → Outcome StoredBlock
parse_header [] = parse_lengths 0 []
parse_header (h ∷ t) = if h / 2 % 4 == 0 then parse_lengths (h % 2) t else aborted

decode_typed-parses :
    (flag btype : ℕ) (br : Reader) (s : List Bool) (t : List ℕ)
    → IsReader lsb_first br
    → remaining lsb_first br ≡ s
    → Stream.align s ≡ bytes_bits lsb_first t
    → All IsByte t
    → decode_typed flag btype br ≡ (if btype == 0 then parse_lengths flag t else aborted)
decode_typed-parses flag btype br s t v left e bytes = elim (Bool-cases (btype == 0)) [
  | inl z ↦ rw z (
      >>=-leads (λ m. m ≡ parse_lengths flag t) (align_byte br s t v left e bytes)
        (λ br' h. decode_lengths-parses flag br' t h))
  | inr z ↦ rw z refl
]

decode_header-parses :
    (bs : List ℕ) (br : Reader) → HasBytes bs br → decode_header br ≡ parse_header bs
decode_header-parses [] br h =
    >>=-leads (λ m. m ≡ parse_header []) (read_none 1 br h (omega arith) (omega arith))
      (λ p a.
        >>=-leads (λ m. m ≡ parse_header []) (read_none 2 p.1 a.1 (omega arith) (omega arith))
          (λ q b.
            rw (a.0, b.0)
              (decode_typed-parses 0 0 q.1 [] [] b.1.is_reader
                (b.1.left ∙ unfold bytes_bits in refl) (unfold Stream.align bytes_bits in refl)
                tt)))
decode_header-parses (h ∷ t) br u =
    >>=-leads (λ m. m ≡ parse_header (h ∷ t))
      (read_field lsb_first lsb_reader br 1 h _ u.is_reader (omega arith) (u.left ∙ first_byte h t))
      (λ p a.
        >>=-leads (λ m. m ≡ parse_header (h ∷ t))
          (read_field lsb_first lsb_reader p.1 2 (h / 2) _ a.1.is_reader (omega arith) a.1.at)
          (λ q b.
            rw (a.0, b.0)
              (decode_typed-parses (h % 2) (h / 2 % 4) q.1 _ t b.1.is_reader b.1.at
                (align-padding (h / 2 / 4) t) u.bytes.1)))

-- Where no byte is left, a length and a word that is not its complement's full are no block.
no_literal : (flag len nlen : ℕ) → nlen < 0xFFFF → parse_words flag len nlen [] ≡ aborted
unfolding parse_literal
no_literal flag len nlen h = elim (ℕ_discrete (len + nlen) 0xFFFF) [
  | yes e ↦ rw (eq→== (len + nlen) 0xFFFF e, lt→leb len 0 (omega arith)) refl
  | no n ↦ rw (ne→== (len + nlen) 0xFFFF n) refl
]

-- Fewer than five bytes are no block.
parse_header-block : (bs : List ℕ) → All IsByte bs → parse_header bs ≡ parse_block bs
unfolding parse_block
parse_header-block [] a = refl
parse_header-block (h ∷ []) a = elim (Bool-cases (h / 2 % 4 == 0)) [
  | inl e ↦ rw e refl
  | inr e ↦ rw e refl
]
parse_header-block (h ∷ lo ∷ []) a = elim (Bool-cases (h / 2 % 4 == 0)) [
  | inl e ↦ rw (e, ne→== (lo + 256 * 0 + (0 + 256 * 0)) 0xFFFF (omega (arith, a.1.0))) refl
  | inr e ↦ rw e refl
]
parse_header-block (h ∷ lo ∷ hi ∷ []) a = elim (Bool-cases (h / 2 % 4 == 0)) [
  | inl e ↦ rw e (no_literal (h % 2) (lo + 256 * hi) (0 + 256 * 0) (omega arith))
  | inr e ↦ rw e refl
]
parse_header-block (h ∷ lo ∷ hi ∷ nlo ∷ []) a = elim (Bool-cases (h / 2 % 4 == 0)) [
  | inl e ↦ rw e (no_literal (h % 2) (lo + 256 * hi) (nlo + 256 * 0) (omega (arith, a.1.1.1.0)))
  | inr e ↦ rw e refl
]
parse_header-block (h ∷ lo ∷ hi ∷ nlo ∷ nhi ∷ t) a = refl

-- On any bytes, fewer than 2 ^ 64, the decoder comes to what `parse_block` says of them.
pub decode_stored_block-parses :
    (input : List ℕ) (in_size : ℕ)
    → in_size ≤ length input
    → in_size < 2 ^ 64
    → All IsByte input
    → decode_stored_block input in_size ≡ parse_block (take in_size input)
unfolding decode_stored_block
decode_stored_block-parses input in_size held small bytes =
    decode_header-parses (take in_size input) (reader_init input in_size)
      (record { is_reader = start.0; left = start.1; bytes = take-IsByte in_size input bytes })
    ∙ parse_header-block (take in_size input) (take-IsByte in_size input bytes)
  where
    start :
        IsReader lsb_first (reader_init input in_size)
        × (remaining lsb_first (reader_init input in_size)
            ≡ bytes_bits lsb_first (take in_size input))
    start = reader_init-IsReader lsb_first input in_size held small bytes
