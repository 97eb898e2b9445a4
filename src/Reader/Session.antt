-- ===== src/Reader/Session.antt =====
-- A client of the reader sees a string of bits: any requests in any order are answered as the string
-- alone answers them.
pub mod Answers
use native.Mathlib.Decide.{dec_le, ℕ_discrete}
use mathlib.Core.Path.{subst, ap₂}
use bitstream_h.Base.{
  ℕ, zero, suc, ◌+◌, ◌-◌, ◌*◌, ◌%◌, ◌^◌, ◌≤◌, ◌<◌, ◌≡◌, refl, sym, ap, ◌∙◌, arith, Bool, true,
  false, ◌==◌, ◌&&◌, leb, le→leb, lt→leb, eq→==, ne→==, if◌then◌else◌, List, [], ◌∷◌, ◌++◌, All,
  length, take, drop, length-take, length-drop, take-length, Outcome, done, ◌>>=◌, Returns,
  Returns_mono, done-Returns, >>=-Returns, Bool-cases, inl, inr,
}
use bitstream_h.BitString.{BitOrder, bits, value, bytes_bits}
use bitstream_h.BitString.Bytes.{IsByte, bytes_bits-injective}
use bitstream_h.BitString.Laws.{bits-value}
use bitstream_h.BitString.Window.{value-take-lt}
use bitstream_h.Stream
use bitstream_h.BitString.Chunks.{bytes_of, bytes_bits-bytes_of, bytes_of-IsByte}
use bitstream_h.Reader.{Reader, reader_eof, reader_bits_left}
use bitstream_h.Reader.State.{IsReader, IsAt, IsAt-self, IsAt-trans, remaining}
use bitstream_h.Reader.Status.{reader_status}
use bitstream_h.Reader.Interface.{ReaderOps}
use bitstream_h.Reader.Bulk.{read_bytes}
use bitstream_h.Reader.Bulk.Copy.{IsCopied, IsUncopied, CopiesBytes, read_bytes-CopiesBytes}

-- What a client asks: the array of a bulk read is where its bytes go.
pub data Request : Type 0 where
  read_request : ℕ → Request
  peek_request : ℕ → Request
  skip_request : ℕ → Request
  align_request : Request
  bytes_request : List ℕ → ℕ → Request
  eof_request : Request
  bits_left_request : Request

pub data Answer : Type 0 where
  number : ℕ → Answer
  nothing : Answer
  bytes : List ℕ → Answer
  refused : Answer
  flag : Bool → Answer

-- The answer of a string of bits, and the string after it.
pub answer : BitOrder → Request → List Bool → Answer × List Bool
answer o (read_request n) s = (number (Stream.read o n s).0, (Stream.read o n s).1)
answer o (peek_request n) s = (number (Stream.peek o n s), s)
answer o (skip_request n) s = (nothing, Stream.skip n s)
answer o align_request s = (nothing, Stream.align s)
answer o (bytes_request dst n) s =
    if (length s % 8 == 0) && leb (8 * n) (length s)
    then (bytes (bytes_of o n s), drop (8 * n) s)
    else (refused, s)
answer o eof_request s = (flag (length s == 0), s)
answer o bits_left_request s = (number (length s), s)

pub answers : BitOrder → List Request → List Bool → List Answer × List Bool
answers o [] s = ([], s)
answers o (q ∷ qs) s =
    let first = answer o q s in let rest = answers o qs first.1 in (first.0 ∷ rest.0, rest.1)

module _ {o : BitOrder} (ops : ReaderOps o) where
  -- The answer of the code, in either bit order.
  pub serve : Request → Reader → Outcome (Answer × Reader)
  serve (read_request n) r = do (x, r) ← ops.read r n; done (number x, r)
  serve (peek_request n) r = do (x, r) ← ops.peek r n; done (number x, r)
  serve (skip_request n) r = do r ← ops.skip r n; done (nothing, r)
  serve align_request r = do r ← ops.align r; done (nothing, r)
  serve (bytes_request dst n) r = do
    (accepted, dst, r) ← read_bytes r dst n
    done (if accepted then bytes (take n dst) else refused, r)
  serve eof_request r = done (flag (reader_eof r), r)
  serve bits_left_request r = done (number (reader_bits_left r), r)

  pub serve_all : List Request → Reader → Outcome (List Answer × Reader)
  serve_all [] r = done ([], r)
  serve_all (q ∷ qs) r = do (a, r) ← serve q r; (later, r) ← serve_all qs r; done (a ∷ later, r)

abbrev pub IsRequest : Request → Type 0
IsRequest (read_request n) = n ≤ 32
IsRequest (peek_request n) = n ≤ 32
IsRequest (skip_request n) = n ≤ 32
IsRequest align_request = Unit {0}
IsRequest (bytes_request dst n) = n ≤ length dst
IsRequest eof_request = Unit {0}
IsRequest bits_left_request = Unit {0}
