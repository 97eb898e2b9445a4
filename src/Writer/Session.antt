-- ===== src/Writer/Session.antt =====
-- A client of the writer sees a string of bits that grows: any requests that fit the buffer, in any
-- order, append to it what the string alone says.
pub mod Composed
use bitstream_h.Base.{
  ℕ, ◌+◌, ◌%◌, ◌≤◌, ◌==◌, if◌then◌else◌, Bool, true, false, List, [], ◌∷◌, ◌++◌, All, length, take,
  replicate, Outcome, done, ◌>>=◌,
}
use bitstream_h.BitString.{BitOrder, bits, bytes_bits}
use bitstream_h.BitString.Bytes.{IsByte}
use bitstream_h.Writer.{Writer}
use bitstream_h.Writer.State.{pad_length}
use bitstream_h.Writer.Interface.{WriterOps}
use bitstream_h.Writer.Bulk.{write_bytes}

pub data Request : Type 0 where
  write_request : ℕ → ℕ → Request
  flush_request : Request
  align_request : Request
  bytes_request : List ℕ → ℕ → Request

-- Zeros up to the next byte boundary.
abbrev pub padded : List Bool → List Bool
padded s = s ++ replicate (pad_length (length s)) false

-- Whether a request is accepted, and the string after it.
unfoldable pub compose : BitOrder → Request → List Bool → Bool × List Bool
compose o (write_request v n) s = (true, s ++ bits o n v)
compose o flush_request s = (true, padded s)
compose o align_request s = (true, padded s)
compose o (bytes_request src n) s =
    if length s % 8 == 0 then (true, s ++ bytes_bits o (take n src)) else (false, s)

unfoldable pub compose_all : BitOrder → List Request → List Bool → List Bool × List Bool
compose_all o [] s = ([], s)
compose_all o (q ∷ qs) s =
    let first = compose o q s in let rest = compose_all o qs first.1 in (first.0 ∷ rest.0, rest.1)

module _ {o : BitOrder} (ops : WriterOps o) where
  -- The code, in either bit order. Only the bulk copy answers.
  pub put : Request → Writer → Outcome (Bool × Writer)
  put (write_request v n) w = do w ← ops.write w v n; done (true, w)
  put flush_request w = do w ← ops.flush w; done (true, w)
  put align_request w = do w ← ops.align w; done (true, w)
  put (bytes_request src n) w = write_bytes w src n

  pub put_all : List Request → Writer → Outcome (List Bool × Writer)
  put_all [] w = done ([], w)
  put_all (q ∷ qs) w = do (a, w) ← put q w; (later, w) ← put_all qs w; done (a ∷ later, w)

abbrev pub IsRequest : Request → Type 0
IsRequest (write_request v n) = n ≤ 32
IsRequest flush_request = Unit {0}
IsRequest align_request = Unit {0}
IsRequest (bytes_request src n) = (n ≤ length src) × All IsByte src
