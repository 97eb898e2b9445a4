-- ===== src/Examples/FastDecode/Looks.antt =====
-- The two ways to look ahead and step serve the stream, the fast one where six bits are left, and on any
-- stream the fast decoder is the safe one stopped where fewer are left.
use native.Mathlib.Decide.{dec_le, dec_lt, ℕ_discrete}
use bitstream_h.Base.{
  ℕ, zero, suc, ◌+◌, ◌^◌, ◌≤◌, ◌<◌, ◌≡◌, refl, sym, ap, ◌∙◌, arith, List, length, set, ltb, inl,
  inr, lt→ltb, not_lt→ltb, le→leb, lt→leb, leb, if◌then◌else◌, eq→==, ne→==, Bool-cases, Outcome,
  aborted, ◌>>=◌, >>=-leads, Returns, Returns_mono, done-Returns,
}
use bitstream_h.BitString.{msb_first}
use bitstream_h.Stream
use bitstream_h.Reader.{Reader, reader_bits_left}
use bitstream_h.Reader.State.{IsReader, IsAt, Skips, remaining}
use bitstream_h.Reader.Status.{reader_status}
use bitstream_h.Reader.Msb.Read.{peek_bits-Peeks, skip_bits-Skips}
use bitstream_h.Reader.Msb.Unchecked.{peek_bits_unchecked-Peeks, skip_bits_unchecked-Skips}
use bitstream_h.Examples.FastDecode.{look_safe, look_fast, pass_safe, pass_fast, decode_loop}
use bitstream_h.Examples.FastDecode.Table.{huff_match_total}
use bitstream_h.Examples.FastDecode.Loop.{Sees}

-- A step after a look is a step.
later-Skips :
    (n : ℕ) {br br' r : Reader}
    → IsAt msb_first br br' (remaining msb_first br)
    → Skips msb_first n br' r
    → Skips msb_first n br r
later-Skips n a b = record {
  is_reader = b.is_reader;
  same_size = b.same_size ∙ a.same_size;
  same_buffer = b.same_buffer ∙ a.same_buffer;
  at = b.at ∙ ap (Stream.skip n) a.at;
}

pub safe-Sees : (br : Reader) → IsReader msb_first br → Sees look_safe pass_safe br
unfolding look_safe
safe-Sees br v = Returns_mono (peek_bits-Peeks br 6 v (omega arith)) (λ p a. (
  a.0,
  λ n small.
      Returns_mono (skip_bits-Skips p.1 n a.1.is_reader (omega arith)) (λ r b. later-Skips n a.1 b),
))

pub fast-Sees :
    (br : Reader)
    → IsReader msb_first br
    → br.size < 2 ^ 61
    → 6 ≤ length (remaining msb_first br)
    → Sees look_fast pass_fast br
unfolding look_fast
fast-Sees br v small enough =
    rw (le→leb 6 (reader_bits_left br) (omega (arith, (reader_status msb_first br v small).0))) (
      Returns_mono (peek_bits_unchecked-Peeks br 6 v (omega arith) (omega arith) enough) (λ p a. (
        a.0.0,
        λ n narrow. done-Returns _ (
            later-Skips n a.0.1
              (skip_bits_unchecked-Skips p.1 n a.0.1.is_reader (omega (arith, a.1)))),
      )))

-- With fewer than six bits left the fast decoder's assertion fails.
fast_aborts :
    (br : Reader)
    → IsReader msb_first br
    → br.size < 2 ^ 61
    → length (remaining msb_first br) < 6
    → look_fast br ≡ aborted
unfolding look_fast
fast_aborts br v small short =
    rw (lt→leb 6 (reader_bits_left br) (omega (arith, (reader_status msb_first br v small).0))) refl

-- Readers of the two decoders with the same bits left.
pub record IsPair (fast safe : Reader) : Type 0 where
  pub fast_reader : IsReader msb_first fast
  pub safe_reader : IsReader msb_first safe
  pub same : remaining msb_first fast ≡ remaining msb_first safe
  pub small : fast.size < 2 ^ 61

next-IsPair :
    (n : ℕ) {fast safe fast' safe' : Reader}
    → IsPair fast safe
    → Skips msb_first n fast fast'
    → Skips msb_first n safe safe'
    → IsPair fast' safe'
next-IsPair n h a b = record {
  fast_reader = a.is_reader;
  safe_reader = b.is_reader;
  same = a.at ∙ ap (Stream.skip n) h.same ∙ sym b.at;
  small = omega (arith, a.same_size, h.small);
}

-- The safe look, where at least six bits of the stream are still to be read; where fewer are, an abort.
pub look_guarded : Reader → Outcome (ℕ × Reader)
look_guarded br = if leb 6 (length (remaining msb_first br)) then look_safe br else aborted

-- Where two runs return, they are the same if what follows is.
>>=-eq :
    {A B C : Type 0} {m : Outcome A} {m' : Outcome B} {f : A → Outcome C} {g : B → Outcome C}
    {P : A → Type 0} {Q : B → Type 0}
    → Returns m P
    → Returns m' Q
    → ((a : A) → P a → (b : B) → Q b → f a ≡ g b)
    → (m >>= f) ≡ (m' >>= g)
>>=-eq {m' = m'} {f = f} {g = g} r s k =
    >>=-leads (λ x. x ≡ (m' >>= g)) r (λ a p. >>=-leads (λ y. f a ≡ y) s (λ b q. k a p b q))

-- The fast loop is the safe loop that stops where fewer than six bits are left.
pub decode_loop-eq-guarded :
    (limit fuel : ℕ) (fast safe : Reader) (out : List ℕ) (pos : ℕ)
    → IsPair fast safe
    → decode_loop look_fast pass_fast limit fuel fast out pos
      ≡ decode_loop look_guarded pass_safe limit fuel safe out pos
unfolding decode_loop look_guarded
decode_loop-eq-guarded limit zero fast safe out pos h = refl
decode_loop-eq-guarded limit (suc fuel) fast safe out pos h = elim (dec_lt pos limit) [
  | no full ↦ rw (not_lt→ltb _ _ full) (refl)
  | yes below ↦ rw (lt→ltb _ _ below) (elim (dec_le 6 (length (remaining msb_first fast))) [
    | no short ↦
        rw
          (
            fast_aborts fast h.fast_reader h.small (omega arith),
            lt→leb 6 (length (remaining msb_first safe)) (omega (arith, ap length h.same)),
          )
          refl
    | yes enough ↦
        rw (le→leb 6 (length (remaining msb_first safe)) (omega (arith, ap length h.same))) (
          >>=-eq (fast-Sees fast h.fast_reader h.small enough) (safe-Sees safe h.safe_reader)
            (λ p a q b.
              let (e, found, narrow) =
                huff_match_total q.0
                  (omega (arith, b.0, Stream.peek-lt msb_first 6 (remaining msb_first safe))) in
              let same_window : p.0 ≡ q.0 = a.0 ∙ ap (Stream.peek msb_first 6) h.same ∙ sym b.0 in
              rw (same_window, found)
                (elim (ℕ_discrete e.symbol 0) [
                  | yes end ↦
                      rw (eq→== _ _ end)
                        (>>=-eq (a.1 e.bits narrow) (b.1 e.bits narrow) (λ r c s d. refl))
                  | no letter ↦ rw (ne→== _ _ letter) (elim (Bool-cases (ltb pos (length out))) [
                    | inr full ↦ rw full (refl)
                    | inl room ↦ rw room (
                        >>=-eq (a.1 e.bits narrow) (b.1 e.bits narrow) (λ r c s d.
                          decode_loop-eq-guarded limit fuel r s (set out pos e.symbol) (pos + 1)
                            (next-IsPair e.bits h c d)))
                  ])
                ])))
  ])
]
