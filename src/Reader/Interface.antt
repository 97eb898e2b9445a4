-- ===== src/Reader/Interface.antt =====
-- The reader as its clients see it, in either bit order: operations on a valid reader, and what
-- they do to the stream.
use mathlib.Core.Path.{subst}
use bitstream_h.Base.{
  ℕ, ◌≤◌, ◌≡◌, ◌%◌, ◌^◌, ◌++◌, List, Bool, Outcome, Returns, Returns_mono, done, done-Returns, ap,
  ◌∙◌,
}
use bitstream_h.BitString.{BitOrder, msb_first, lsb_first, bits}
use bitstream_h.Stream
use bitstream_h.Reader.{Reader}
use bitstream_h.Reader.State.{IsReader, IsAt, Reads, Peeks, Skips, remaining}
use bitstream_h.Reader.Msb
use bitstream_h.Reader.Lsb

pub record ReaderOps (o : BitOrder) : Type 0 where
  pub read : Reader → ℕ → Outcome (ℕ × Reader)
  pub peek : Reader → ℕ → Outcome (ℕ × Reader)
  pub skip : Reader → ℕ → Outcome Reader
  pub align : Reader → Outcome Reader
  pub read-Reads : (r : Reader) (n : ℕ) → IsReader o r → n ≤ 32 → Returns (read r n) (Reads o n r)
  pub peek-Peeks : (r : Reader) (n : ℕ) → IsReader o r → n ≤ 32 → Returns (peek r n) (Peeks o n r)
  pub skip-Skips : (r : Reader) (n : ℕ) → IsReader o r → n ≤ 32 → Returns (skip r n) (Skips o n r)
  pub align-IsAt :
      (r : Reader)
      → IsReader o r
      → Returns (align r) (λ r'. IsAt o r r' (Stream.align (remaining o r)))

abbrev pub msb_reader : ReaderOps msb_first
msb_reader = record {
  read = Msb.read_bits;
  peek = Msb.peek_bits;
  skip = Msb.skip_bits;
  align = λ r. done (Msb.reader_align r);
  read-Reads = Msb.Read.read_bits-Reads;
  peek-Peeks = Msb.Read.peek_bits-Peeks;
  skip-Skips = Msb.Read.skip_bits-Skips;
  align-IsAt = λ r v. done-Returns _ (Msb.Unchecked.reader_align-IsAt r v);
}

abbrev pub lsb_reader : ReaderOps lsb_first
lsb_reader = record {
  read = Lsb.read_bits_lsb;
  peek = Lsb.peek_bits_lsb;
  skip = Lsb.skip_bits_lsb;
  align = Lsb.reader_align_lsb;
  read-Reads = Lsb.Read.read_bits_lsb-Reads;
  peek-Peeks = Lsb.Read.peek_bits_lsb-Peeks;
  skip-Skips = Lsb.Read.skip_bits_lsb-Skips;
  align-IsAt = Lsb.Unchecked.reader_align_lsb-IsAt;
}

abbrev pub reader_ops : (o : BitOrder) → ReaderOps o
reader_ops msb_first = msb_reader
reader_ops lsb_first = lsb_reader

module _ (o : BitOrder) (ops : ReaderOps o) (r : Reader) (n v : ℕ) (rest : List Bool)
    (u : IsReader o r) (small : n ≤ 32) (next : remaining o r ≡ bits o n v ++ rest) where
  -- Reading a field of `n` bits gives its number, without what stood above it.
  pub read_field : Returns (ops.read r n) (λ p. (p.0 ≡ v % 2 ^ n) × IsAt o r p.1 rest)
  read_field =
      Returns_mono (ops.read-Reads r n u small)
        (λ p h. (h.0 ∙ ap (λ t. t.0) front, subst (IsAt o r p.1) (ap (λ t. t.1) front) h.1))
    where
      front : Stream.read o n (remaining o r) ≡ (v % 2 ^ n, rest)
      front = ap (Stream.read o n) next ∙ Stream.read_field o n v rest
