-- ===== src/Examples/FastDecode/Loop.antt =====
-- The loop of both decoders: what it does with any way to look ahead and step that serves the stream.
use native.Mathlib.Decide.{dec_lt, ℕ_discrete}
use bitstream_h.Base.{
  ℕ, zero, suc, ◌+◌, ◌^◌, ◌≤◌, ◌<◌, ◌≡◌, refl, ap, ◌∙◌, arith, append_assoc, Bool, List, [], ◌∷◌,
  ◌++◌, map, All, length, length-set, take, set, lt→ltb, not_lt→ltb, eq→==, ne→==, store-set,
  Outcome, Returns, Returns_mono, done-Returns, >>=-Returns,
}
use bitstream_h.RoundTrip.Packed.{six_left}
use bitstream_h.BitString.{msb_first, bits}
use bitstream_h.Stream
use bitstream_h.Reader.{Reader}
use bitstream_h.Reader.State.{IsReader, Skips, remaining}
use bitstream_h.RoundTrip.{fields_bits}
use bitstream_h.Examples.Text.{IsText, IsText-nil, IsText-cons, IsInside}
use bitstream_h.Examples.FastDecode.{HuffEntry, decode_loop}
use bitstream_h.Examples.FastDecode.Table.{IsLetter, huff_match_total, huff_match-sentinel}
use bitstream_h.Examples.FastDecode.Message.{
  entry_field, message_bits, bits-narrow, matched, skipped, not_sentinel, sentinel_window,
}

-- A turn sees the next six bits of the stream, and can step past any of them.
abbrev pub Sees : (Reader → Outcome (ℕ × Reader)) → (Reader → ℕ → Outcome Reader) → Reader → Type 0
Sees look pass br = Returns (look br) (λ p.
    (p.0 ≡ Stream.peek msb_first 6 (remaining msb_first br))
    × ((n : ℕ) → n ≤ 6 → Returns (pass p.1 n) (Skips msb_first n br)))

-- The loop's state: the array has room for the terminator at the limit, and the fuel covers the turns
-- left.
pub record IsTurn (limit fuel : ℕ) (br : Reader) (out : List ℕ) (pos : ℕ) : Type 0 where
  pub is_reader : IsReader msb_first br
  pub small : br.size < 2 ^ 61
  pub room : limit < length out
  pub in_array : pos ≤ limit
  pub fuelled : limit < fuel + pos

pub next-IsTurn :
    {limit fuel pos : ℕ} (n c : ℕ) {br br' : Reader} {out : List ℕ}
    → IsTurn limit (suc fuel) br out pos
    → pos < limit
    → Skips msb_first n br br'
    → IsTurn limit fuel br' (set out pos c) (pos + 1)
next-IsTurn {pos = pos} n c {out = out} t below b = record {
  is_reader = b.is_reader;
  small = omega (arith, b.same_size, t.small);
  room = omega (arith, length-set out pos c, t.room);
  in_array = omega arith;
  fuelled = omega (arith, t.fuelled);
}

module _ (look : Reader → Outcome (ℕ × Reader)) (pass : Reader → ℕ → Outcome Reader)
    (limit : ℕ) where
  -- If every look serves the stream, the loop returns on any stream, inside its array.
  pub decode_loop-IsInside :
      ((br : Reader) → IsReader msb_first br → Sees look pass br)
      → (fuel : ℕ) (br : Reader) (out : List ℕ) (pos : ℕ) → IsTurn limit fuel br out pos
      → Returns (decode_loop look pass limit fuel br out pos) (IsInside limit out)
  unfolding decode_loop
  decode_loop-IsInside sees zero br out pos t = absurd (omega (arith, t.in_array, t.fuelled))
  decode_loop-IsInside sees (suc fuel) br out pos t = elim (dec_lt pos limit) [
    | no full ↦ rw (not_lt→ltb _ _ full) (done-Returns _ (t.in_array, refl))
    | yes below ↦ rw (lt→ltb _ _ below) (
        >>=-Returns (sees br t.is_reader) (λ p a.
          let (e, found, narrow) =
            huff_match_total p.0
              (omega (arith, a.0, Stream.peek-lt msb_first 6 (remaining msb_first br))) in
          rw found (elim (ℕ_discrete e.symbol 0) [
            | yes end ↦
                rw (eq→== _ _ end)
                  (>>=-Returns (a.1 e.bits narrow) (λ r b. done-Returns _ (t.in_array, refl)))
            | no letter ↦
                rw (ne→== _ _ letter, store-set out pos e.symbol (omega (arith, t.room)))
                  (>>=-Returns (a.1 e.bits narrow) (λ r b.
                    Returns_mono
                      (decode_loop-IsInside sees fuel r (set out pos e.symbol) (pos + 1)
                        (next-IsTurn e.bits e.symbol t below b))
                      (λ q c. (c.0, c.1 ∙ length-set out pos e.symbol))))
          ])))
  ]

  -- If a look serves a stream of six bits or more, the loop appends the message whose code words the
  -- stream starts with, before the sentinel, to the text so far.
  pub decode_loop-IsText :
      ((br : Reader)
        → IsReader msb_first br
        → br.size < 2 ^ 61
        → 6 ≤ length (remaining msb_first br)
        → Sees look pass br)
      → (es : List HuffEntry) (fuel : ℕ) (br : Reader) (out : List ℕ) (pos : ℕ) (rest : List Bool)
      → All IsLetter es
      → length es + pos ≤ limit
      → IsTurn limit fuel br out pos
      → remaining msb_first br ≡ message_bits es ++ (bits msb_first 6 63 ++ rest)
      → Returns
          (decode_loop look pass limit fuel br out pos)
          (IsText limit out (take pos out) (map (λ e. e.symbol) es))
  unfolding decode_loop fields_bits
  decode_loop-IsText sees es zero br out pos rest ls h t front =
      absurd (omega (arith, t.in_array, t.fuelled))
  decode_loop-IsText sees [] (suc fuel) br out pos rest ls h t front = elim (dec_lt pos limit) [
    | no full ↦ rw (not_lt→ltb _ _ full) (done-Returns _ (IsText-nil limit pos out t.in_array))
    | yes below ↦ rw (lt→ltb _ _ below) (
        >>=-Returns (sees br t.is_reader t.small (rw front (six_left msb_first [] 63 rest))) (λ p a.
          rw (a.0, ap (Stream.peek msb_first 6) front, sentinel_window rest, huff_match-sentinel)
            (>>=-Returns (a.1 6 (omega arith))
              (λ r b. done-Returns _ (IsText-nil limit pos out t.in_array)))))
  ]
  decode_loop-IsText sees (e ∷ es) (suc fuel) br out pos rest ls h t front =
      rw (lt→ltb pos limit (omega arith)) (
        >>=-Returns
          (sees br t.is_reader t.small
            (rw front (six_left msb_first (map entry_field (e ∷ es)) 63 rest)))
          (λ p a.
            rw
              (
                a.0,
                matched e ls.0 tail (six_left msb_first (map entry_field es) 63 rest) br first,
                not_sentinel e ls.0,
                store-set out pos e.symbol (omega (arith, t.room)),
              )
              (>>=-Returns (a.1 e.bits (bits-narrow e ls.0).0) (λ r b.
                Returns_mono
                  (decode_loop-IsText sees es fuel r (set out pos e.symbol) (pos + 1) rest ls.1
                    (omega arith) (next-IsTurn e.bits e.symbol t (omega arith) b)
                    (b.at
                      ∙ skipped e ls.0 tail (six_left msb_first (map entry_field es) 63 rest) _
                          first))
                  (λ q c. IsText-cons (omega (arith, t.room)) c)))))
    where
      tail : List Bool
      tail = message_bits es ++ (bits msb_first 6 63 ++ rest)

      first : remaining msb_first br ≡ bits msb_first e.bits e.code ++ tail
      first = front ∙ append_assoc (bits msb_first e.bits e.code) (message_bits es) _
