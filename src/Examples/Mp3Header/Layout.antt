-- ===== src/Examples/Mp3Header/Layout.antt =====
-- The layout of the header: what the reads find in the 32-bit number that its bytes make.
use bitstream_h.Base.{
  ℕ, ◌+◌, ◌/◌, ◌%◌, ◌^◌, ◌≤◌, ◌<◌, ◌≡◌, refl, sym, ap, ◌∙◌, arith, append-nil, List, [], ◌∷◌, ◌++◌,
  Returns, Returns_mono, done-Returns, >>=-Returns, All, length, take,
}
use bitstream_h.BitString.{msb_first, bits, bytes_bits}
use bitstream_h.BitString.Bytes.{IsByte}
use bitstream_h.BitString.Laws.{bits-msb_add, bits-mod, length-bits}
use bitstream_h.Reader.{Reader, reader_init, reader_bits_left}
use bitstream_h.Reader.State.{IsReader, remaining}
use bitstream_h.Reader.Status.{reader_init-IsReader, reader_status}
use bitstream_h.Reader.Interface.{msb_reader, read_field}
use bitstream_h.Reader.Msb.{read_bits}
use bitstream_h.Examples.Mp3Header.{Header, read_header}

-- The header of a number, its highest byte first.
abbrev pub header_bytes : ℕ → List ℕ
header_bytes h = h / 2 ^ 24 ∷ h / 2 ^ 16 % 2 ^ 8 ∷ h / 2 ^ 8 % 2 ^ 8 ∷ h % 2 ^ 8 ∷ []

-- The fields by their places in the number, from the top.
abbrev pub header_fields : ℕ → Header
header_fields h = record {
  sync = h / 2 ^ 21 % 2 ^ 11;
  version = h / 2 ^ 19 % 2 ^ 2;
  layer = h / 2 ^ 17 % 2 ^ 2;
  protection = h / 2 ^ 16 % 2 ^ 1;
  bitrate_idx = h / 2 ^ 12 % 2 ^ 4;
  srate_idx = h / 2 ^ 10 % 2 ^ 2;
  padding = h / 2 ^ 9 % 2 ^ 1;
  private_bit = h / 2 ^ 8 % 2 ^ 1;
  channel = h / 2 ^ 6 % 2 ^ 2;
  mode_ext = h / 2 ^ 4 % 2 ^ 2;
  copyright = h / 2 ^ 3 % 2 ^ 1;
  original = h / 2 ^ 2 % 2 ^ 1;
  emphasis = h % 2 ^ 2;
}

header_bytes-IsByte : (h : ℕ) → h < 2 ^ 32 → All IsByte (header_bytes h)
header_bytes-IsByte h small = (omega arith, (omega arith, (omega arith, (omega arith, tt))))

bytes_bits-header_bytes : (h : ℕ) → bytes_bits msb_first (header_bytes h) ≡ bits msb_first 32 h
unfolding bytes_bits
bytes_bits-header_bytes h = sym (
    bits-msb_add 8 24 h
    ∙ ap (λ t. bits msb_first 8 (h / 2 ^ 24) ++ t)
        (next 16
          ∙ ap (λ t. bits msb_first 8 (h / 2 ^ 16 % 2 ^ 8) ++ t)
              (next 8
                ∙ ap (λ t. bits msb_first 8 (h / 2 ^ 8 % 2 ^ 8) ++ t)
                    (sym (bits-mod msb_first 8 8 h (omega arith)) ∙ sym (append-nil _)))))
  where
    next :
        (k : ℕ)
        → bits msb_first (8 + k) h ≡ bits msb_first 8 (h / 2 ^ k % 2 ^ 8) ++ bits msb_first k h
    next k =
        bits-msb_add 8 k h
        ∙ ap (λ t. t ++ bits msb_first k h) (sym (bits-mod msb_first 8 8 (h / 2 ^ k) (omega arith)))

-- The `k` lowest bits of the number are still to be read.
record Left (h k : ℕ) (r : Reader) : Type 0 where
  is_reader : IsReader msb_first r
  four_bytes : r.size ≡ 4
  at : remaining msb_first r ≡ bits msb_first k h

-- A read of `n` bits of those left gives the upper ones.
next_bits :
    (h n k : ℕ) (r : Reader)
    → n ≤ 32
    → Left h (n + k) r
    → Returns (read_bits r n) (λ p. (p.0 ≡ h / 2 ^ k % 2 ^ n) × Left h k p.1)
next_bits h n k r small l =
    Returns_mono
      (read_field msb_first msb_reader r n (h / 2 ^ k) (bits msb_first k h) l.is_reader small
        (l.at ∙ bits-msb_add n k h))
      (λ p a. (
        a.0,
        record {
          is_reader = a.1.is_reader;
          four_bytes = a.1.same_size ∙ l.four_bytes;
          at = a.1.at;
        },
      ))

-- Over the four bytes of any number below 2 ^ 32, the reads give its fields, and nothing is left.
pub read_header_lem :
    (h : ℕ)
    → h < 2 ^ 32
    → Returns
        (read_header (reader_init (header_bytes h) 4))
        (λ p. (p.0 ≡ header_fields h) × (reader_bits_left p.1 ≡ 0))
unfolding read_header
read_header_lem h small = >>=-Returns (next 11 21 _ (omega arith) start) (λ a u.
    >>=-Returns (next 2 19 a.1 (omega arith) u.1) (λ b v.
      >>=-Returns (next 2 17 b.1 (omega arith) v.1) (λ c w.
        >>=-Returns (next 1 16 c.1 (omega arith) w.1) (λ d x.
          >>=-Returns (next 4 12 d.1 (omega arith) x.1) (λ e y.
            >>=-Returns (next 2 10 e.1 (omega arith) y.1) (λ f z.
              >>=-Returns (next 1 9 f.1 (omega arith) z.1) (λ g i.
                >>=-Returns (next 1 8 g.1 (omega arith) i.1) (λ j k.
                  >>=-Returns (next 2 6 j.1 (omega arith) k.1) (λ l m.
                    >>=-Returns (next 2 4 l.1 (omega arith) m.1) (λ n o.
                      >>=-Returns (next 1 3 n.1 (omega arith) o.1) (λ p q.
                        >>=-Returns (next 1 2 p.1 (omega arith) q.1) (λ r s.
                          >>=-Returns (next 2 0 r.1 (omega arith) s.1) (λ t last. done-Returns _ (
                            rw
                                (
                                  u.0,
                                  v.0,
                                  w.0,
                                  x.0,
                                  y.0,
                                  z.0,
                                  i.0,
                                  k.0,
                                  m.0,
                                  o.0,
                                  q.0,
                                  s.0,
                                  last.0 ∙ lowest,
                                )
                                refl,
                            nothing_left t.1 last.1,
                          ))))))))))))))
  where
    next :
        (n k : ℕ) (r : Reader)
        → n ≤ 32
        → Left h (n + k) r
        → Returns (read_bits r n) (λ p. (p.0 ≡ h / 2 ^ k % 2 ^ n) × Left h k p.1)
    next = next_bits h

    init :
        IsReader msb_first (reader_init (header_bytes h) 4)
        × (remaining msb_first (reader_init (header_bytes h) 4)
            ≡ bytes_bits msb_first (take 4 (header_bytes h)))
    init =
        reader_init-IsReader msb_first (header_bytes h) 4 (omega arith) (omega arith)
          (header_bytes-IsByte h small)

    start : Left h 32 (reader_init (header_bytes h) 4)
    start = record {
      is_reader = init.0;
      four_bytes = unfold reader_init in refl;
      at = init.1 ∙ bytes_bits-header_bytes h;
    }

    lowest : h / 2 ^ 0 % 2 ^ 2 ≡ h % 2 ^ 2
    lowest = omega arith

    nothing_left : (r : Reader) → Left h 0 r → reader_bits_left r ≡ 0
    nothing_left r l =
        (reader_status msb_first r l.is_reader (omega (arith, l.four_bytes))).0
        ∙ ap length l.at
        ∙ length-bits msb_first 0 h
