-- ===== src/Reader/Session/Answers.antt =====
-- The answers of the code are those of the string.
use mathlib.Core.Path.{subst, ap₂}
use bitstream_h.Base.{
  ℕ, ◌*◌, ◌%◌, ◌^◌, ◌≤◌, ◌<◌, ◌≡◌, refl, sym, ap, ◌∙◌, arith, Bool, true, ◌==◌, ◌&&◌, leb,
  if◌then◌else◌, List, [], ◌∷◌, All, length, take, drop, Returns, done-Returns, >>=-Returns,
  Bool-cases, inl, inr,
}
use bitstream_h.BitString.{BitOrder}
use bitstream_h.BitString.Bytes.{bytes_bits-injective}
use bitstream_h.BitString.Chunks.{bytes_of, bytes_bits-bytes_of, bytes_of-IsByte}
use bitstream_h.Reader.Session.{
  Request, read_request, peek_request, skip_request, align_request, bytes_request, eof_request,
  bits_left_request, Answer, number, bytes, refused, flag, answer, answers, serve, serve_all,
  IsRequest,
}
use bitstream_h.Reader.{Reader}
use bitstream_h.Reader.State.{IsReader, IsAt, IsAt-self, IsAt-trans, remaining}
use bitstream_h.Reader.Status.{reader_status}
use bitstream_h.Reader.Interface.{ReaderOps}
use bitstream_h.Reader.Bulk.Copy.{IsCopied, IsUncopied, CopiesBytes, read_bytes-CopiesBytes}

-- What an answer and a reader promise of a string: they are what the string gives.
abbrev Serves : BitOrder → Request → Reader → Answer × Reader → Type 0
Serves o q r p =
    (p.0 ≡ (answer o q (remaining o r)).0) × IsAt o r p.1 (answer o q (remaining o r)).1

and_leb : (b : Bool) (m k : ℕ) → b && leb m k ≡ true → m ≤ k
and_leb b m k h = ground arith

module _ (o : BitOrder) (dst : List ℕ) (n : ℕ) (r : Reader) where
  copied-Serves :
      (p : Bool × List ℕ × Reader)
      → 8 * n ≤ length (remaining o r)
      → IsCopied o r dst n p
      → ((if p.0 then bytes (take n p.1) else refused) ≡ bytes (bytes_of o n (remaining o r)))
        × IsAt o r p.2 (drop (8 * n) (remaining o r))
  copied-Serves p fits c = (
    rw c.accepted (
        ap bytes (
          bytes_bits-injective o (take n p.1) (bytes_of o n (remaining o r)) c.are_bytes
            (bytes_of-IsByte o n (remaining o r) fits)
            (c.copied ∙ sym (bytes_bits-bytes_of o n (remaining o r) fits)))),
    c.at,
  )

  uncopied-Serves :
      (p : Bool × List ℕ × Reader)
      → IsUncopied o r dst p
      → ((if p.0 then bytes (take n p.1) else refused) ≡ refused) × IsAt o r p.2 (remaining o r)
  uncopied-Serves p u = (rw u.refused refl, u.at)

  read_bytes-Serves :
      (p : Bool × List ℕ × Reader)
      → CopiesBytes o r dst n p
      → Serves o (bytes_request dst n) r (if p.0 then bytes (take n p.1) else refused, p.2)
  unfolding answer
  read_bytes-Serves p q =
      elim (Bool-cases
        ((length (remaining o r) % 8 == 0) && leb (8 * n) (length (remaining o r)))) [
          | inl yes_it ↦ rw yes_it (copied-Serves p (and_leb _ _ _ yes_it) (rw yes_it at q))
          | inr no_it ↦ rw no_it (uncopied-Serves p (rw no_it at q))
        ]

module _ {o : BitOrder} (ops : ReaderOps o) where
  serve-Serves :
      (q : Request) (r : Reader)
      → IsReader o r
      → r.size < 2 ^ 61
      → IsRequest q
      → Returns (serve ops q r) (Serves o q r)
  unfolding serve answer
  serve-Serves (read_request n) r v small h =
      >>=-Returns (ops.read-Reads r n v h) (λ p a. done-Returns _ (ap number a.0, a.1))
  serve-Serves (peek_request n) r v small h =
      >>=-Returns (ops.peek-Peeks r n v h) (λ p a. done-Returns _ (ap number a.0, a.1))
  serve-Serves (skip_request n) r v small h =
      >>=-Returns (ops.skip-Skips r n v h) (λ p a. done-Returns _ (refl, a))
  serve-Serves align_request r v small h =
      >>=-Returns (ops.align-IsAt r v) (λ p a. done-Returns _ (refl, a))
  serve-Serves (bytes_request dst n) r v small h =
      >>=-Returns (read_bytes-CopiesBytes o r dst n v h)
        (λ p a. done-Returns _ (unfold answer in read_bytes-Serves o dst n r p a))
  serve-Serves eof_request r v small h =
      done-Returns _ (ap flag (reader_status o r v small).1, IsAt-self o r v)
  serve-Serves bits_left_request r v small h =
      done-Returns _ (ap number (reader_status o r v small).0, IsAt-self o r v)

  -- A client that asks for at most 32 bits at a time, and for as many bytes as its arrays have room for,
  -- over fewer than 2 ^ 61 bytes, sees only the string of bits still to be read: any sequence of
  -- requests returns, with the answers that the string gives one after another, and leaves a
  -- valid reader at what they leave of the string.
  pub session-refines-answers :
      (qs : List Request) (r : Reader)
      → IsReader o r
      → r.size < 2 ^ 61
      → All IsRequest qs
      → Returns (serve_all ops qs r) (λ p.
        (p.0 ≡ (answers o qs (remaining o r)).0) × IsAt o r p.1 (answers o qs (remaining o r)).1)
  unfolding serve_all answers
  session-refines-answers [] r v small h = done-Returns _ (refl, IsAt-self o r v)
  session-refines-answers (q ∷ qs) r v small h = >>=-Returns (serve-Serves q r v small h.0) (λ p a.
      >>=-Returns (session-refines-answers qs p.1 a.1.is_reader (omega (arith, a.1.same_size)) h.1)
        (λ p' b. done-Returns _ (
          ap₂ ◌∷◌ a.0 (b.0 ∙ ap (λ s. (answers o qs s).0) a.1.at),
          IsAt-trans a.1 (subst (λ s. IsAt o p.1 p'.1 (answers o qs s).1) a.1.at b.1),
        )))
