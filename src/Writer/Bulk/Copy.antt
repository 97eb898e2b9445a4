-- ===== src/Writer/Bulk/Copy.antt =====
-- `bs_write_bytes` appends the bytes of an array, or refuses.
use native.Mathlib.Decide.{dec_le, ℕ_discrete}
use native.Mathlib.Nat.{mod-eq_of_lt}
use bitstream_h.Base.{
  ℕ, ◌+◌, ◌*◌, ◌%◌, ◌^◌, ◌≤◌, ◌≡◌, refl, sym, ap, ◌∙◌, arith, append_assoc, List, [], ◌++◌, All,
  length, take, drop, length-append, length-take, length-drop, take-append, drop-append, append-nil,
  le→ltb, lt→ltb, le→leb, lt→leb, leb, ◌||◌, ◌==◌, not, if◌then◌else◌, eq→==, ne→==, Bool, true,
  false, Returns, done-Returns, Returns_mono, Bool-cases, inl, inr,
}
use bitstream_h.Word.{sub64}
use bitstream_h.BitString.{BitOrder, bits, bytes_bits}
use bitstream_h.BitString.Bytes.{IsByte, bytes_bits-append, take-IsByte, drop-IsByte, append-IsByte}
use bitstream_h.Writer.{Writer}
use bitstream_h.Writer.State.{IsWriter, IsStaged, Appends, written, length-written}
use bitstream_h.Writer.Status.{few_cached}
use bitstream_h.Writer.Bulk.{write_bytes, memcpy_to}

-- The bytes are appended to what was written.
pub record IsPlaced (o : BitOrder) (w : Writer) (src : List ℕ) (n : ℕ) (p : Bool × Writer)
    : Type 0 where
  pub accepted : p.0 ≡ true
  pub placed : Appends o (bytes_bits o (take n src)) w p.1

-- The answer and the writer are those of `a`.
abbrev pub IsIt : Bool × Writer → Bool × Writer → Type 0
IsIt a p = p ≡ a

-- What `bs_write_bytes` promises for `n` bytes: a refusal without a trace off a byte boundary or
-- after an overflow, a refusal that flags the overflow without room, and the copy otherwise.
abbrev pub WritesBytes : BitOrder → Writer → List ℕ → ℕ → Bool × Writer → Type 0
WritesBytes o w src n =
    if w.overflow || not (length (written o w) % 8 == 0)
    then IsIt (false, w)
    else if leb (length (written o w) + 8 * n) (8 * w.size)
    then IsPlaced o w src n
    else IsIt (false, record w { overflow = true })

module _ (o : BitOrder) (w : Writer) (src : List ℕ) (n : ℕ) (u : IsWriter o w)
    (bytes : All IsByte src) (clear : w.overflow ≡ false) (empty : w.bits_in_cache ≡ 0)
    (room : w.byte_pos + n ≤ w.size) (given : n ≤ length src) where
  abbrev front : List ℕ
  front = take w.byte_pos w.buffer

  abbrev back : List ℕ
  back = drop (w.byte_pos + n) w.buffer

  abbrev after : Writer
  after = record w {
    buffer = front ++ (take n src ++ back);
    byte_pos = w.byte_pos + n;
    overflow = false;
  }

  length-front : length front ≡ w.byte_pos
  length-front =
      length-take w.byte_pos w.buffer (omega (arith, u.staged.storage, u.staged.in_buffer))

  length-body : length (front ++ take n src) ≡ w.byte_pos + n
  length-body =
      omega (arith, length-append front (take n src), length-front, length-take n src given)

  length-after : length after.buffer ≡ length w.buffer
  length-after = omega (
    arith,
    length-append front (take n src ++ back),
    length-append (take n src) back,
    length-front,
    length-take n src given,
    length-drop (w.byte_pos + n) w.buffer,
    u.staged.storage,
  )

  take-after : take (w.byte_pos + n) after.buffer ≡ front ++ take n src
  take-after =
      ap (take (w.byte_pos + n)) (sym (append_assoc front (take n src) back))
      ∙ take-append (w.byte_pos + n) (front ++ take n src) back length-body

  drop-after : drop (w.byte_pos + n) after.buffer ≡ back
  drop-after =
      ap (drop (w.byte_pos + n)) (sym (append_assoc front (take n src) back))
      ∙ drop-append (w.byte_pos + n) (front ++ take n src) back length-body

  -- Nothing stands in the accumulator, before and after.
  no_bits : bits o w.bits_in_cache w.bit_cache ≡ []
  unfolding bits
  no_bits = ap (λ (k : ℕ). bits o k w.bit_cache) empty

  written-after : written o after ≡ written o w ++ bytes_bits o (take n src)
  unfolding written
  written-after = rw (
    no_bits,
    take-after,
    bytes_bits-append o front (take n src),
    append-nil (bytes_bits o front ++ bytes_bits o (take n src)),
    append-nil (bytes_bits o front),
  )

  after-IsStaged : IsStaged o after
  after-IsStaged = record {
    storage = omega (arith, length-after, u.staged.storage);
    addressable = u.staged.addressable;
    in_buffer = room;
    in_word = u.staged.in_word;
    all_bytes =
        append-IsByte front (take n src ++ back)
          (take-IsByte w.byte_pos w.buffer u.staged.all_bytes)
          (append-IsByte (take n src) back (take-IsByte n src bytes)
            (drop-IsByte (w.byte_pos + n) w.buffer u.staged.all_bytes));
    clean = u.staged.clean;
  }

  after-Appends : Appends o (bytes_bits o (take n src)) w after
  after-Appends = record {
    is_writer = record {
      staged = after-IsStaged;
      settled = inl (omega (arith, empty));
      flagged = λ h. absurd (omega (arith, empty));
    };
    same_size = refl;
    same_length = length-after;
    onward = omega arith;
    untouched = drop-after;
    appended = written-after;
    flag = ground (arith, length-written o after after-IsStaged, clear, empty, room);
  }

  IsPlaced-write_bytes : Returns (write_bytes w src n) (IsPlaced o w src n)
  unfolding write_bytes memcpy_to
  IsPlaced-write_bytes =
      simp
        (
          eq→== w.bits_in_cache 0 empty,
          clear,
          le→ltb (sub64 w.size w.byte_pos) n (omega (arith, u.staged.addressable, room)),
          le→leb (w.byte_pos + n) (length w.buffer) (omega (arith, u.staged.storage, room)),
          le→leb n (length src) given,
          mod-eq_of_lt {n = w.byte_pos + n} {m = 2 ^ 64}
              (omega (arith, u.staged.addressable, room)),
        )
        (done-Returns _ (record { accepted = refl; placed = after-Appends }))

-- `bs_write_bytes` of `n` bytes that the source holds returns: at a byte boundary, with the flag
-- clear and room for them, true, and the bytes are appended; off a byte boundary or with the flag
-- set, false, and the writer does not change; without room, false, and only the flag is raised.
pub write_bytes-WritesBytes :
    (o : BitOrder) (w : Writer) (src : List ℕ) (n : ℕ)
    → IsWriter o w
    → All IsByte src
    → n ≤ length src
    → Returns (write_bytes w src n) (WritesBytes o w src n)
unfolding write_bytes
write_bytes-WritesBytes o w src n u bytes given = elim (Bool-cases w.overflow) [
  | inl set ↦ elim (Bool-cases (w.bits_in_cache == 0)) [
    | inl empty ↦ simp (set, empty) (done-Returns (false, w) refl)
    | inr off ↦ simp (set, off) (done-Returns (false, w) refl)
  ]
  | inr clear ↦ elim (ℕ_discrete w.bits_in_cache 0) [
    | no off ↦
        simp
          (
            clear,
            ne→== _ _ off,
            ne→== (length (written o w) % 8) 0 (omega (arith, total, few_cached u clear)),
          )
          (done-Returns (false, w) refl)
    | yes empty ↦ elim (dec_le (w.byte_pos + n) w.size) [
      | yes room ↦
          Returns_mono (IsPlaced-write_bytes o w src n u bytes clear empty room given) (λ p h.
            simp
              (
                clear,
                eq→== (length (written o w) % 8) 0 (omega (arith, total)),
                le→leb (length (written o w) + 8 * n) (8 * w.size) (omega (arith, total)),
              )
              h)
      | no short ↦
          simp
            (
              clear,
              eq→== (length (written o w) % 8) 0 (omega (arith, total)),
              lt→leb (length (written o w) + 8 * n) (8 * w.size) (omega (arith, total)),
              eq→== _ _ empty,
              lt→ltb (sub64 w.size w.byte_pos) n
                  (omega (arith, u.staged.in_buffer, u.staged.addressable)),
            )
            (done-Returns _ refl)
    ]
  ]
]
  where
    total : length (written o w) ≡ 8 * w.byte_pos + w.bits_in_cache
    total = length-written o w u.staged
