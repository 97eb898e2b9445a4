-- ===== src/Writer/Push.antt =====
-- Bits that join the accumulator, and the dump that may follow, append to what was written.
use bitstream_h.Base.{
  ℕ, ◌+◌, ◌<◌, ◌≡◌, sym, ap, ◌∙◌, arith, ◌++◌, Bool, List, take, append_assoc, append-nil, [],
}
use bitstream_h.BitString.{BitOrder, bits, IsClean, bytes_bits}
use bitstream_h.Writer.{Writer}
use bitstream_h.Writer.State.{IsStaged, IsWriter, Appends, written, length-written}
use bitstream_h.Writer.Rounds.{IsDumped}

module _ (o : BitOrder) (w : Writer) (v : IsWriter o w) (n cache : ℕ) (s : List Bool)
    (joined : bits o (w.bits_in_cache + n) cache ≡ bits o w.bits_in_cache w.bit_cache ++ s)
    (clean : IsClean o (w.bits_in_cache + n) cache) (room : w.bits_in_cache + n < 64) where
  abbrev pub pushed : Writer
  pushed = record w { bit_cache = cache; bits_in_cache = w.bits_in_cache + n }

  pub pushed-IsStaged : IsStaged o pushed
  pushed-IsStaged = record {
    storage = v.staged.storage;
    addressable = v.staged.addressable;
    in_buffer = v.staged.in_buffer;
    in_word = room;
    all_bytes = v.staged.all_bytes;
    clean = clean;
  }

  written-pushed : written o pushed ≡ written o w ++ s
  unfolding written
  written-pushed =
      ap (λ t. bytes_bits o (take w.byte_pos w.buffer) ++ t) joined ∙ sym (append_assoc _ _ s)

  pub IsDumped-Appends : (w' : Writer) → IsDumped o pushed w' → Appends o s w w'
  IsDumped-Appends w' d = record {
    is_writer = record { staged = d.staged; settled = d.settled; flagged = ground arith };
    same_size = d.same_size;
    same_length = d.same_length;
    onward = d.onward;
    untouched = d.untouched;
    appended = d.same_written ∙ written-pushed;
    flag = ground (arith, length-written o w' d.staged, d.staged.in_buffer);
  }

-- A dump on its own appends nothing.
pub dumped-Appends : (o : BitOrder) (w w' : Writer) → IsDumped o w w' → Appends o [] w w'
dumped-Appends o w w' d = record {
  is_writer = record { staged = d.staged; settled = d.settled; flagged = ground arith };
  same_size = d.same_size;
  same_length = d.same_length;
  onward = d.onward;
  untouched = d.untouched;
  appended = d.same_written ∙ sym (append-nil (written o w));
  flag = ground (arith, length-written o w' d.staged, d.staged.in_buffer);
}
