-- ===== src/Examples/StoredBlock/Bytewise.antt =====
-- The reads of a stored block take whole bytes, after its first.
use bitstream_h.Base.{
  ℕ, ◌+◌, ◌*◌, ◌/◌, ◌^◌, ◌≤◌, ◌<◌, ◌≡◌, refl, ap, ◌∙◌, arith, Bool, List, [], ◌∷◌, ◌++◌, All,
  length, drop, append_assoc, drop-append, length-append, bit_or, Returns, Returns_mono,
}
use bitstream_h.Word.{u32}
use bitstream_h.Word.Laws.{bit_or_low}
use bitstream_h.BitString.{lsb_first, bits, bytes_bits}
use bitstream_h.BitString.Laws.{bits-lsb_add, length-bits}
use bitstream_h.BitString.Bytes.{IsByte, length-bytes_bits, bytes_bits-cons}
use bitstream_h.Stream
use bitstream_h.Reader.{Reader}
use bitstream_h.Reader.State.{IsReader, remaining}
use bitstream_h.Reader.Interface.{lsb_reader, read_field}
use bitstream_h.Reader.Lsb.{read_bits_lsb, reader_align_lsb}
use bitstream_h.Reader.Lsb.Unchecked.{reader_align_lsb-IsAt}
use bitstream_h.Examples.StoredBlock.{joined}

-- A valid reader at a byte boundary that has the bytes `t` left.
pub record HasBytes (t : List ℕ) (br : Reader) : Type 0 where
  pub is_reader : IsReader lsb_first br
  pub left : remaining lsb_first br ≡ bytes_bits lsb_first t
  pub bytes : All IsByte t

-- A byte that is not there reads as 0.
abbrev pub next_byte : List ℕ → ℕ × List ℕ
next_byte [] = (0, [])
next_byte (b ∷ t) = (b, t)

pub next_byte-lt : (t : List ℕ) → All IsByte t → (next_byte t).0 < 256
next_byte-lt [] a = omega arith
next_byte-lt (b ∷ t) a = a.0

-- Reading more bits than are left gives 0 and moves nothing.
pub read_none :
    (n : ℕ) (br : Reader)
    → HasBytes [] br
    → 0 < n
    → n ≤ 32
    → Returns (read_bits_lsb br n) (λ p. (p.0 ≡ 0) × HasBytes [] p.1)
read_none n br h some_bits small =
    Returns_mono (lsb_reader.read-Reads br n h.is_reader small) (λ p a.
      let none : length (remaining lsb_first br) < n =
        omega (arith, ap length h.left, length-bytes_bits lsb_first []) in
      let a' = rw (Stream.read_short lsb_first n (remaining lsb_first br) none) at a in
      (a'.0, record { is_reader = a'.1.is_reader; left = a'.1.at ∙ h.left; bytes = tt }))

pub read_byte :
    (t : List ℕ) (br : Reader)
    → HasBytes t br
    → Returns (read_bits_lsb br 8) (λ p. (p.0 ≡ (next_byte t).0) × HasBytes (next_byte t).1 p.1)
read_byte [] br h = read_none 8 br h (omega arith) (omega arith)
read_byte (b ∷ t) br h =
    Returns_mono
      (read_field lsb_first lsb_reader br 8 b (bytes_bits lsb_first t) h.is_reader (omega arith)
        (h.left ∙ bytes_bits-cons lsb_first b t))
      (λ p a. (
        omega (arith, a.0, h.bytes.0),
        record { is_reader = a.1.is_reader; left = a.1.at; bytes = h.bytes.1 },
      ))

pub joined_bytes : (lo hi : ℕ) → lo < 256 → hi < 256 → joined lo hi ≡ lo + 256 * hi
joined_bytes lo hi h l = omega (
  arith,
  bit_or_low 8 hi lo h,
  ap (bit_or lo) {x = u32 (hi * 2 ^ 8)} {y = hi * 2 ^ 8} (omega arith),
)

-- The flag, the type and the rest of the first byte.
pub first_byte :
    (h : ℕ) (t : List ℕ)
    → bytes_bits lsb_first (h ∷ t)
      ≡ bits lsb_first 1 h
        ++ (bits lsb_first 2 (h / 2) ++ (bits lsb_first 5 (h / 2 / 4) ++ bytes_bits lsb_first t))
first_byte h t =
    bytes_bits-cons lsb_first h t
    ∙ rw (bits-lsb_add 1 7 h, bits-lsb_add 2 5 (h / 2 ^ 1)) (simp (append_assoc) refl)

pub align-padding :
    (x : ℕ) (t : List ℕ)
    → Stream.align (bits lsb_first 5 x ++ bytes_bits lsb_first t) ≡ bytes_bits lsb_first t
unfolding Stream.align
align-padding x t =
    ap (λ (k : ℕ). drop k (bits lsb_first 5 x ++ bytes_bits lsb_first t)) {y = 5}
      (omega (
        arith,
        length-append (bits lsb_first 5 x) (bytes_bits lsb_first t),
        length-bits lsb_first 5 x,
        length-bytes_bits lsb_first t,
      ))
    ∙ drop-append 5 (bits lsb_first 5 x) (bytes_bits lsb_first t) (length-bits lsb_first 5 x)

-- Aligning gives up the rest of the first byte.
pub align_byte :
    (br : Reader) (s : List Bool) (t : List ℕ)
    → IsReader lsb_first br
    → remaining lsb_first br ≡ s
    → Stream.align s ≡ bytes_bits lsb_first t
    → All IsByte t
    → Returns (reader_align_lsb br) (HasBytes t)
align_byte br s t v left e bytes = Returns_mono (reader_align_lsb-IsAt br v) (λ br' a. record {
  is_reader = a.is_reader;
  left = a.at ∙ ap Stream.align left ∙ e;
  bytes = bytes;
})
