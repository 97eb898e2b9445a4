-- ===== src/Writer/Session/Composed.antt =====
-- What the writer holds after a sequence of requests is the string that they compose.
use native.Mathlib.Decide.{ℕ_discrete}
use mathlib.Core.Path.{subst, ap₂}
use bitstream_h.Base.{
  ℕ, ◌*◌, ◌%◌, ◌≤◌, ◌≡◌, ◌≢◌, refl, arith, eq→==, ne→==, Bool, false, List, [], ◌∷◌, ◌++◌, All,
  length, length-append, length-replicate, length-take, take, replicate, lt→leb, Returns,
  Returns_mono, done-Returns, >>=-Returns,
}
use bitstream_h.BitString.{BitOrder, bits, bytes_bits}
use bitstream_h.BitString.Bytes.{IsByte, length-bytes_bits}
use bitstream_h.BitString.Laws.{length-bits}
use bitstream_h.Writer.{Writer}
use bitstream_h.Writer.State.{pad_length, padding, Appends}
use bitstream_h.Writer.Status.{few_cached}
use bitstream_h.Writer.Interface.{WriterOps}
use bitstream_h.Writer.Bulk.{write_bytes}
use bitstream_h.Writer.Bulk.Copy.{write_bytes-WritesBytes}
use bitstream_h.Writer.Contents.{Holds, Holds-Appends, Holds-write, Holds-write_bytes}
use bitstream_h.Writer.Session.{
  Request, write_request, flush_request, align_request, bytes_request, padded, compose, compose_all,
  put, put_all, IsRequest,
}

-- Nothing that was composed is lost.
compose-longer : (o : BitOrder) (q : Request) (s : List Bool) → length s ≤ length (compose o q s).1
unfolding compose
compose-longer o (write_request v n) s = omega (arith, length-append s (bits o n v))
compose-longer o flush_request s =
    omega (arith, length-append s (replicate (pad_length (length s)) false))
compose-longer o align_request s =
    omega (arith, length-append s (replicate (pad_length (length s)) false))
compose-longer o (bytes_request src n) s = elim (ℕ_discrete (length s % 8) 0) [
  | yes on ↦ rw (eq→== _ _ on) (omega (arith, length-append s (bytes_bits o (take n src))))
  | no off ↦ rw (ne→== _ _ off) (omega arith)
]

compose_all-longer :
    (o : BitOrder) (qs : List Request) (s : List Bool) → length s ≤ length (compose_all o qs s).1
unfolding compose_all
compose_all-longer o [] s = omega arith
compose_all-longer o (q ∷ qs) s =
    omega (arith, compose-longer o q s, compose_all-longer o qs (compose o q s).1)

-- The writer holds the whole of a string.
abbrev pub HoldsAll : BitOrder → ℕ → List Bool → Writer → Type 0
HoldsAll o size s = Holds o size s (length s)

all_held :
    {o : BitOrder} {size n : ℕ} {s : List Bool} {w : Writer}
    → Holds o size s n w
    → HoldsAll o size s w
all_held b = record {
  is_writer = b.is_writer;
  clear = b.clear;
  same_size = b.same_size;
  content = b.content;
  long = refl;
}

module _ {o : BitOrder} {size : ℕ} {s : List Bool} {w : Writer} (ops : WriterOps o)
    (h : HoldsAll o size s w) where
  -- A flush or an align.
  finished_held :
      {w' : Writer}
      → length (padded s) ≤ 8 * size
      → Appends o (padding o w) w w'
      → HoldsAll o size (padded s) w'
  finished_held {w'} fits a = all_held (
      Holds-Appends h (pad_length (length s))
        (subst (λ t. Appends o (replicate (pad_length (length t)) false) w w') h.content a)
        (length-replicate (pad_length (length s)) false)
        (omega (
          arith,
          length-append s (replicate (pad_length (length s)) false),
          length-replicate (pad_length (length s)) false,
        )))

  -- Off a byte boundary a bulk copy is refused.
  refused_held :
      (src : List ℕ) (n : ℕ)
      → n ≤ length src
      → All IsByte src
      → length s % 8 ≢ 0
      → Returns (write_bytes w src n) (λ p. (p.0 ≡ false) × HoldsAll o size s p.1)
  refused_held src n given bytes off =
      Returns_mono (write_bytes-WritesBytes o w src n h.is_writer bytes given) (λ p q.
        let same : p ≡ (false, w) = simp (h.clear, h.content, ne→== (length s % 8) 0 off) at q in
        rw same (refl, h))

  pub put-Composed :
      (q : Request)
      → IsRequest q
      → length (compose o q s).1 ≤ 8 * size
      → Returns
          (put ops q w)
          (λ p. (p.0 ≡ (compose o q s).0) × HoldsAll o size (compose o q s).1 p.1)
  unfolding put compose
  put-Composed (write_request v n) narrow fits =
      >>=-Returns
        (Holds-write h ops v n narrow
          (omega (arith, length-append s (bits o n v), length-bits o n v)))
        (λ w' b. done-Returns _ (refl, all_held b))
  put-Composed flush_request u fits =
      >>=-Returns
        (rw (lt→leb 8 w.bits_in_cache (few_cached h.is_writer h.clear)) at
          (ops.flush-Appends w h.is_writer))
        (λ w' a. done-Returns _ (refl, finished_held fits a))
  put-Composed align_request u fits =
      >>=-Returns (ops.align-Appends w h.is_writer (omega (arith, few_cached h.is_writer h.clear)))
        (λ w' a. done-Returns _ (refl, finished_held fits a))
  put-Composed (bytes_request src n) given fits = elim (ℕ_discrete (length s % 8) 0) [
    | yes on ↦
        let fits' : length (s ++ bytes_bits o (take n src)) ≤ 8 * size =
          rw (eq→== (length s % 8) 0 on) at fits in
        rw (eq→== _ _ on) (
          Returns_mono
            (Holds-write_bytes h src n given.1 given.0 on (
              omega (
                arith,
                fits',
                length-append s (bytes_bits o (take n src)),
                length-bytes_bits o (take n src),
                length-take n src given.0,
              )))
            (λ p b. (b.0, all_held b.1)))
    | no off ↦ rw (ne→== _ _ off) (refused_held src n given.0 given.1 off)
  ]

  -- A flush completes the last byte.
  pub flush-Composed :
      length (padded s) ≤ 8 * size
      → Returns (put ops flush_request w) (λ p. HoldsAll o size (padded s) p.1)
  flush-Composed fits =
      unfold compose in Returns_mono (put-Composed flush_request tt fits) (λ p a. a.1)

module _ {o : BitOrder} (ops : WriterOps o) {size : ℕ} where
  -- A client that writes at most 32 bits at a time, and bytes that its arrays hold, and no more than the
  -- buffer has room for: any sequence of requests returns, each is accepted or refused as the string
  -- says, no overflow is flagged, and what was written is the string that they compose.
  pub session-composes :
      (qs : List Request) (s : List Bool) (w : Writer)
      → Holds o size s (length s) w
      → All IsRequest qs
      → length (compose_all o qs s).1 ≤ 8 * size
      → Returns (put_all ops qs w) (λ p.
        (p.0 ≡ (compose_all o qs s).0)
        × Holds o size (compose_all o qs s).1 (length (compose_all o qs s).1) p.1)
  unfolding put_all compose_all
  session-composes [] s w h given fits = done-Returns _ (refl, h)
  session-composes (q ∷ qs) s w h given fits =
      >>=-Returns
        (put-Composed ops h q given.0 (omega (arith, compose_all-longer o qs (compose o q s).1)))
        (λ p a.
          >>=-Returns (session-composes qs (compose o q s).1 p.1 a.1 given.1 fits)
            (λ p' b. done-Returns _ (ap₂ ◌∷◌ a.0 b.0, b.1)))
