-- ===== src/Reader/State.antt =====
-- What a reader stands for: a position in the bit string of its input. The accumulator is a copy of
-- the bits just past that position, which the invariant says and no client sees.
use bitstream_h.Base.{
  ℕ, ◌-◌, ◌*◌, ◌%◌, ◌^◌, ◌≤◌, ◌<◌, ◌≡◌, arith, refl, sym, ap, ◌∙◌, Bool, ◌⊎◌, List, ◌++◌, All,
  length, take, drop, length-take, drop-length, length-drop,
}
use bitstream_h.BitString.{IsClean, BitOrder, bits, bytes_bits, value}
use bitstream_h.BitString.Bytes.{IsByte, length-bytes_bits}
use bitstream_h.Stream
use bitstream_h.Reader.{Reader}

-- The bytes that the reader may read.
abbrev pub input : Reader → List ℕ
input r = take r.size r.buffer

-- The number of bits consumed.
abbrev pub position : Reader → ℕ
position r = 8 * r.byte_pos - r.bits_in_cache

-- The bits still to be read.
unfoldable pub remaining : BitOrder → Reader → List Bool
remaining o r = drop (position r) (bytes_bits o (input r))

pub record IsReader (o : BitOrder) (r : Reader) : Type 0 where
  pub storage : r.size ≤ length r.buffer
  pub addressable : r.size < 2 ^ 64
  pub in_buffer : r.byte_pos ≤ r.size
  pub in_word : r.bits_in_cache ≤ 64
  pub behind : r.bits_in_cache ≤ 8 * r.byte_pos
  pub all_bytes : All IsByte r.buffer
  pub clean : IsClean o r.bits_in_cache r.bit_cache
  pub agrees :
      bits o r.bits_in_cache r.bit_cache ++ bytes_bits o (drop r.byte_pos (input r)) ≡ remaining o r

pub length-input : {o : BitOrder} {r : Reader} → IsReader o r → length (input r) ≡ r.size
length-input {r = r} v = length-take r.size r.buffer v.storage

pub length-remaining :
    (o : BitOrder) (r : Reader) → IsReader o r → length (remaining o r) ≡ 8 * r.size - position r
unfolding remaining
length-remaining o r v = omega (
  arith,
  length-drop (position r) (bytes_bits o (input r)),
  length-bytes_bits o (input r),
  length-input v,
)

-- The reader is at a byte boundary when whole bytes are cached.
pub length-remaining-mod :
    (o : BitOrder) (r : Reader) → IsReader o r → length (remaining o r) % 8 ≡ r.bits_in_cache % 8
length-remaining-mod o r v = omega (arith, length-remaining o r v, v.in_buffer, v.behind)

-- What a refill does: the reader stands where it stood, and has cached as much as fits.
pub record IsRefilled (o : BitOrder) (r r' : Reader) : Type 0 where
  pub is_reader : IsReader o r'
  pub same_size : r'.size ≡ r.size
  pub same_buffer : r'.buffer ≡ r.buffer
  pub same_position : position r' ≡ position r
  pub same_remaining : remaining o r' ≡ remaining o r
  pub is_full : (56 < r'.bits_in_cache) ⊎ (r'.byte_pos ≡ r'.size)

-- The reader `r'` is a state of the same stream as `r`, with the bits `s` still to be read.
pub record IsAt (o : BitOrder) (r r' : Reader) (s : List Bool) : Type 0 where
  pub is_reader : IsReader o r'
  pub same_size : r'.size ≡ r.size
  pub same_buffer : r'.buffer ≡ r.buffer
  pub at : remaining o r' ≡ s

pub IsRefilled-IsAt :
    {o : BitOrder} {r r' r'' : Reader} {s : List Bool}
    → IsRefilled o r r'
    → IsAt o r' r'' s
    → IsAt o r r'' s
IsRefilled-IsAt f a = record {
  is_reader = a.is_reader;
  same_size = a.same_size ∙ f.same_size;
  same_buffer = a.same_buffer ∙ f.same_buffer;
  at = a.at;
}

module _ (o : BitOrder) (r r' : Reader) (f : IsRefilled o r r') where
  length-refilled : length (remaining o r) ≡ 8 * r'.size - position r'
  length-refilled = ap length (sym f.same_remaining) ∙ length-remaining o r' f.is_reader

  -- After a refill a request of up to 57 bits is served from the cache, or not at all.
  pub IsRefilled_enough : (n : ℕ) → n ≤ r'.bits_in_cache → n ≤ length (remaining o r)
  IsRefilled_enough n h = omega (arith, length-refilled, f.is_reader.in_buffer, f.is_reader.behind)

  pub IsRefilled_short : (n : ℕ) → n ≤ 57 → r'.bits_in_cache < n → length (remaining o r) < n
  IsRefilled_short n small h =
      omega (arith, length-refilled, f.is_full, f.is_reader.in_buffer, f.is_reader.behind)

  pub IsRefilled_cached : (n : ℕ) → n ≤ 57 → n ≤ length (remaining o r) → n ≤ r'.bits_in_cache
  IsRefilled_cached n small h =
      omega (arith, length-refilled, f.is_full, f.is_reader.in_buffer, f.is_reader.behind)

  pub IsRefilled_here : IsAt o r r' (remaining o r)
  IsRefilled_here = record {
    is_reader = f.is_reader;
    same_size = f.same_size;
    same_buffer = f.same_buffer;
    at = f.same_remaining;
  }

-- A result and a reader are what the stream's `read` gives.
abbrev pub Reads : BitOrder → ℕ → Reader → ℕ × Reader → Type 0
Reads o n r p =
    (p.0 ≡ (Stream.read o n (remaining o r)).0) × IsAt o r p.1 (Stream.read o n (remaining o r)).1

pub Reads-enough :
    (o : BitOrder) (n : ℕ) (r : Reader) (p : ℕ × Reader)
    → n ≤ length (remaining o r)
    → p.0 ≡ value o (take n (remaining o r))
    → IsAt o r p.1 (drop n (remaining o r))
    → Reads o n r p
Reads-enough o n r p h e a = rw (Stream.read_enough o n (remaining o r) h) (e, a)

pub Reads-short :
    (o : BitOrder) (n : ℕ) (r : Reader) (p : ℕ × Reader)
    → length (remaining o r) < n
    → p.0 ≡ 0
    → IsAt o r p.1 (remaining o r)
    → Reads o n r p
Reads-short o n r p h e a = rw (Stream.read_short o n (remaining o r) h) (e, a)

pub IsAt-self : (o : BitOrder) (r : Reader) → IsReader o r → IsAt o r r (remaining o r)
IsAt-self o r v = record { is_reader = v; same_size = refl; same_buffer = refl; at = refl }

-- A request for no bits gives 0 and changes nothing.
pub Reads-zero : (o : BitOrder) (r : Reader) → IsReader o r → Reads o 0 r (0, r)
Reads-zero o r v = Reads-enough o 0 r (0, r) (omega arith) (unfold value in refl) (IsAt-self o r v)

-- A result and a reader are what a look ahead of `n` bits gives.
abbrev pub Peeks : BitOrder → ℕ → Reader → ℕ × Reader → Type 0
Peeks o n r p = (p.0 ≡ Stream.peek o n (remaining o r)) × IsAt o r p.1 (remaining o r)

-- Looking ahead sees what a read gives.
pub Reads-Peeks :
    (o : BitOrder) (n : ℕ) (r s r' : Reader) {x : ℕ}
    → Reads o n r (x, s)
    → IsAt o r r' (remaining o r)
    → Peeks o n r (x, r')
Reads-Peeks o n r s r' e a = (unfold Stream.peek in e.0, a)

abbrev pub Skips : BitOrder → ℕ → Reader → Reader → Type 0
Skips o n r r' = IsAt o r r' (Stream.skip n (remaining o r))

module _ (o : BitOrder) (r r' s : Reader) (n : ℕ) (f : IsRefilled o r r') where
  pub Skips-enough : IsAt o r' s (drop n (remaining o r')) → Skips o n r s
  unfolding Stream.skip
  Skips-enough a = rw (← f.same_remaining) (IsRefilled-IsAt f a)

  -- Fewer than `n` bits are left, and the cache holds them all.
  pub Skips-short :
      r'.bits_in_cache < n
      → n ≤ 57
      → IsAt o r' s (drop r'.bits_in_cache (remaining o r'))
      → Skips o n r s
  unfolding Stream.skip
  Skips-short short small a = IsRefilled-IsAt f (rw none_left at a)
    where
      none_left : drop r'.bits_in_cache (remaining o r') ≡ drop n (remaining o r)
      none_left =
          drop-length r'.bits_in_cache (remaining o r') (
            omega (
              arith,
              length-remaining o r' f.is_reader,
              f.is_full,
              f.is_reader.in_buffer,
              f.is_reader.behind,
            ))
          ∙ sym (
              drop-length n (remaining o r)
                (omega (arith, IsRefilled_short o r r' f n small short)))

pub IsAt-front :
    (o : BitOrder) (r : Reader) {s : List Bool} → IsReader o r → remaining o r ≡ s → IsAt o r r s
IsAt-front o r v e = record { is_reader = v; same_size = refl; same_buffer = refl; at = e }

pub IsAt-trans :
    {o : BitOrder} {r r' r'' : Reader} {s t : List Bool}
    → IsAt o r r' s
    → IsAt o r' r'' t
    → IsAt o r r'' t
IsAt-trans a b = record {
  is_reader = b.is_reader;
  same_size = b.same_size ∙ a.same_size;
  same_buffer = b.same_buffer ∙ a.same_buffer;
  at = b.at;
}
