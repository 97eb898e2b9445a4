-- ===== src/Reader/Advance.antt =====
-- What a reader's operations do in whatever state they are called: they go on in the input, and touch
-- nothing else. What the accumulator holds does not matter.
use bitstream_h.Base.{ℕ, ◌+◌, ◌*◌, ◌^◌, ◌≤◌, ◌<◌, ◌≡◌, refl, ◌∙◌, arith, length}
use bitstream_h.Reader.{Reader}

pub record InBounds (r : Reader) : Type 0 where
  pub storage : r.size ≤ length r.buffer
  pub addressable : r.size < 2 ^ 64
  pub in_buffer : r.byte_pos ≤ r.size
  pub in_word : r.bits_in_cache ≤ 64
  pub behind : r.bits_in_cache ≤ 8 * r.byte_pos

-- The position, `8 * byte_pos - bits_in_cache`, does not move back.
pub record Advances (r r' : Reader) : Type 0 where
  pub in_bounds : InBounds r'
  pub same_size : r'.size ≡ r.size
  pub same_buffer : r'.buffer ≡ r.buffer
  pub onward : 8 * r.byte_pos + r'.bits_in_cache ≤ 8 * r'.byte_pos + r.bits_in_cache

pub Advances-self : (r : Reader) → InBounds r → Advances r r
Advances-self r v = record {
  in_bounds = v;
  same_size = refl;
  same_buffer = refl;
  onward = omega arith;
}

pub Advances-trans : {r r' r'' : Reader} → Advances r r' → Advances r' r'' → Advances r r''
Advances-trans a b = record {
  in_bounds = b.in_bounds;
  same_size = b.same_size ∙ a.same_size;
  same_buffer = b.same_buffer ∙ a.same_buffer;
  onward = omega (arith, a.onward, b.onward);
}

-- Fewer bits in the accumulator, whatever it holds then.
pub Advances-dropped :
    (r : Reader) (cache k : ℕ)
    → InBounds r
    → k ≤ r.bits_in_cache
    → Advances r (record r { bit_cache = cache; bits_in_cache = k })
Advances-dropped r cache k v h = record {
  in_bounds = record {
    storage = v.storage;
    addressable = v.addressable;
    in_buffer = v.in_buffer;
    in_word = omega (arith, v.in_word);
    behind = omega (arith, v.behind);
  };
  same_size = refl;
  same_buffer = refl;
  onward = omega arith;
}

-- A byte more in the accumulator.
pub Advances-filled :
    (r : Reader) (cache : ℕ)
    → InBounds r
    → r.bits_in_cache ≤ 56
    → r.byte_pos < r.size
    → Advances r (record r {
      bit_cache = cache;
      bits_in_cache = r.bits_in_cache + 8;
      byte_pos = r.byte_pos + 1;
    })
Advances-filled r cache v room more = record {
  in_bounds = record {
    storage = v.storage;
    addressable = v.addressable;
    in_buffer = omega arith;
    in_word = omega arith;
    behind = omega (arith, v.behind);
  };
  same_size = refl;
  same_buffer = refl;
  onward = omega arith;
}

-- Another position further on, with nothing in the accumulator.
pub Advances-moved :
    (r : Reader) (p : ℕ)
    → InBounds r
    → 8 * r.byte_pos ≤ 8 * p + r.bits_in_cache
    → p ≤ r.size
    → Advances r (record r { byte_pos = p; bits_in_cache = 0; bit_cache = 0 })
Advances-moved r p v ahead inside = record {
  in_bounds = record {
    storage = v.storage;
    addressable = v.addressable;
    in_buffer = inside;
    in_word = omega arith;
    behind = omega arith;
  };
  same_size = refl;
  same_buffer = refl;
  onward = omega arith;
}
