-- ===== src/Reader/Moves.antt =====
-- The two moves that every function of the reader is made of, for either bit order: taking a byte
-- into the accumulator, and giving cached bits up.
use bitstream_h.Base.{
  ℕ, suc, ◌+◌, ◌-◌, ◌≤◌, ◌<◌, ◌≡◌, refl, sym, ap, ◌∙◌, arith, Bool, List, ◌∷◌, ◌++◌, append_assoc,
  length, take, take-append, drop, drop-append, drop-drop, get_elem?, some,
}
use bitstream_h.BitString.{IsClean, BitOrder, bits, bytes_bits}
use bitstream_h.BitString.Bytes.{drop-cons, get_elem?-take, bytes_bits-cons}
use bitstream_h.Reader.{Reader}
use bitstream_h.Reader.State.{IsReader, IsAt, input, position, remaining}

module _ (o : BitOrder) (r : Reader) (v : IsReader o r) where
  -- The reader after `n` cached bits are given up.
  abbrev pub consumed : ℕ → ℕ → Reader
  consumed n cache = record r { bit_cache = cache; bits_in_cache = r.bits_in_cache - n }

  module _ (n cache : ℕ) (front : List Bool) (h : n ≤ r.bits_in_cache) (long : length front ≡ n)
      (cut : bits o r.bits_in_cache r.bit_cache ≡ front ++ bits o (r.bits_in_cache - n) cache)
      (clean : IsClean o (r.bits_in_cache - n) cache) where
    whole :
        remaining o r
        ≡ front ++ (bits o (r.bits_in_cache - n) cache ++ bytes_bits o (drop r.byte_pos (input r)))
    whole =
        sym v.agrees
        ∙ ap (λ t. t ++ bytes_bits o (drop r.byte_pos (input r))) cut
        ∙ append_assoc front _ _

    remaining-consumed : remaining o (consumed n cache) ≡ drop n (remaining o r)
    unfolding remaining
    remaining-consumed =
        ap (λ (k : ℕ). drop k (bytes_bits o (input r))) {y = position r + n}
          (omega (arith, v.behind))
        ∙ sym (drop-drop n (position r) _)

    pub consumed-IsReader : IsReader o (consumed n cache)
    consumed-IsReader = record {
      storage = v.storage;
      addressable = v.addressable;
      in_buffer = v.in_buffer;
      in_word = omega (arith, v.in_word);
      behind = omega (arith, v.behind);
      all_bytes = v.all_bytes;
      clean = clean;
      agrees = sym (remaining-consumed ∙ ap (drop n) whole ∙ drop-append n front _ long);
    }

    pub remaining-split : remaining o r ≡ front ++ remaining o (consumed n cache)
    remaining-split =
        whole
        ∙ ap (λ t. front ++ t) (sym (drop-append n front _ long))
        ∙ ap (λ t. front ++ drop n t) (sym whole)
        ∙ ap (λ t. front ++ t) (sym remaining-consumed)

  -- The reader after the byte at its position is cached.
  abbrev pub filled : ℕ → Reader
  filled cache = record r {
    bit_cache = cache;
    bits_in_cache = r.bits_in_cache + 8;
    byte_pos = r.byte_pos + 1;
  }

  module _ (cache b : ℕ) (room : r.bits_in_cache ≤ 56) (more : r.byte_pos < r.size)
      (at : get_elem? r.buffer r.byte_pos ≡ some b)
      (joined : bits o (r.bits_in_cache + 8) cache
        ≡ bits o r.bits_in_cache r.bit_cache ++ bits o 8 b)
      (clean : IsClean o (r.bits_in_cache + 8) cache) where
    next_bytes : drop r.byte_pos (input r) ≡ b ∷ drop (r.byte_pos + 1) (input r)
    next_bytes =
        drop-cons r.byte_pos (input r) (get_elem?-take r.byte_pos r.size r.buffer more ∙ at)
        ∙ ap (λ (k : ℕ). b ∷ drop k (input r)) {x = suc r.byte_pos} {y = r.byte_pos + 1}
            (omega arith)

    pub remaining-filled : remaining o (filled cache) ≡ remaining o r
    unfolding remaining
    remaining-filled =
        ap (λ (k : ℕ). drop k (bytes_bits o (input r))) {y = position r} (omega (arith, v.behind))

    pub filled-IsReader : IsReader o (filled cache)
    filled-IsReader = record {
      storage = v.storage;
      addressable = v.addressable;
      in_buffer = omega (arith, v.behind);
      in_word = omega arith;
      behind = omega (arith, v.behind);
      all_bytes = v.all_bytes;
      clean = clean;
      agrees =
          ap (λ t. t ++ bytes_bits o (drop (r.byte_pos + 1) (input r))) joined
          ∙ append_assoc (bits o r.bits_in_cache r.bit_cache) _ _
          ∙ ap (λ t. bits o r.bits_in_cache r.bit_cache ++ t)
              (sym (bytes_bits-cons o b _) ∙ ap (bytes_bits o) (sym next_bytes))
          ∙ v.agrees
          ∙ sym remaining-filled;
    }

-- Giving up `n` cached bits is a step of `n` in the stream; the bits given up come next in it.
pub record Cut (o : BitOrder) (r : Reader) (n cache : ℕ) (front : List Bool) : Type 0 where
  pub cached : n ≤ r.bits_in_cache
  pub long : length front ≡ n
  pub cut : bits o r.bits_in_cache r.bit_cache ≡ front ++ bits o (r.bits_in_cache - n) cache
  pub clean : IsClean o (r.bits_in_cache - n) cache

module _ (o : BitOrder) (r : Reader) (v : IsReader o r) (n cache : ℕ) (front : List Bool)
    (c : Cut o r n cache front) where
  pub take-remaining : take n (remaining o r) ≡ front
  take-remaining =
      ap (take n) (remaining-split o r v n cache front c.cached c.long c.cut c.clean)
      ∙ take-append n front _ c.long

  pub Cut-IsAt :
      IsAt o r
        (record r { bit_cache = cache; bits_in_cache = r.bits_in_cache - n })
        (drop n (remaining o r))
  Cut-IsAt = record {
    is_reader = consumed-IsReader o r v n cache front c.cached c.long c.cut c.clean;
    same_size = refl;
    same_buffer = refl;
    at = remaining-consumed o r v n cache front c.cached c.long c.cut c.clean;
  }
