-- ===== src/Reader/Status.antt =====
-- What a reader says of itself: `bs_reader_init`, `bs_reader_eof` and `bs_reader_bits_left`.
use bitstream_h.Base.{
  ℕ, ◌-◌, ◌*◌, ◌^◌, ◌≤◌, ◌<◌, ◌≡◌, refl, sym, ap, ◌∙◌, arith, List, All, length, take, drop, ◌==◌,
  Bool, ◌++◌,
}
use bitstream_h.BitString.{IsClean, BitOrder, msb_first, lsb_first, bits, bytes_bits}
use bitstream_h.BitString.Bytes.{IsByte, bytes_bits-drop}
use bitstream_h.Reader.{Reader, reader_init, reader_eof, reader_bits_left}
use bitstream_h.Reader.State.{IsReader, input, remaining, length-remaining}

bits_none : (o : BitOrder) (s : List Bool) → bits o 0 0 ++ s ≡ s
unfolding bits
bits_none msb_first s = refl
bits_none lsb_first s = refl

IsClean-none : (o : BitOrder) → IsClean o 0 0
IsClean-none msb_first = tt
IsClean-none lsb_first = omega arith

-- With nothing cached, a reader may stand at any byte of its input.
module _ (o : BitOrder) (r : Reader) (p : ℕ) (v : IsReader o r) (h : p ≤ r.size) where
  abbrev pub moved : Reader
  moved = record r { byte_pos = p; bit_cache = 0; bits_in_cache = 0 }

  pub remaining-moved : remaining o moved ≡ drop (8 * p) (bytes_bits o (input r))
  unfolding remaining
  remaining-moved =
      ap (λ (k : ℕ). drop k (bytes_bits o (input r))) {x = 8 * p - 0} {y = 8 * p} (omega arith)

  pub moved-IsReader : IsReader o moved
  moved-IsReader = record {
    storage = v.storage;
    addressable = v.addressable;
    in_buffer = h;
    in_word = omega arith;
    behind = omega arith;
    all_bytes = v.all_bytes;
    clean = IsClean-none o;
    agrees =
        bits_none o (bytes_bits o (drop p (input r)))
        ∙ bytes_bits-drop o p (input r)
        ∙ sym remaining-moved;
  }

-- Over `n` bytes of memory `bs_reader_init` makes a valid reader in either order, and all their bits
-- are still to be read.
pub reader_init-IsReader :
    (o : BitOrder) (buf : List ℕ) (n : ℕ)
    → n ≤ length buf
    → n < 2 ^ 64
    → All IsByte buf
    → IsReader o (reader_init buf n) × (remaining o (reader_init buf n) ≡ bytes_bits o (take n buf))
unfolding reader_init remaining
reader_init-IsReader o buf n h small bytes = (
  record {
    storage = h;
    addressable = small;
    in_buffer = omega arith;
    in_word = omega arith;
    behind = omega arith;
    all_bytes = bytes;
    clean = IsClean-none o;
    agrees = bits_none o (bytes_bits o (take n buf));
  },
  refl,
)

-- On a valid reader over fewer than 2 ^ 61 bytes, `bs_reader_bits_left` is the number of bits still to be
-- read, and `bs_reader_eof` holds exactly when there is none.
pub reader_status :
    (o : BitOrder) (r : Reader)
    → IsReader o r
    → r.size < 2 ^ 61
    → (reader_bits_left r ≡ length (remaining o r)) × (reader_eof r ≡ (length (remaining o r) == 0))
unfolding reader_bits_left reader_eof
reader_status o r v small = ground (arith, length-remaining o r v)
