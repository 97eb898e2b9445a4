-- ===== src/Reader/History.antt =====
-- A reader through any checked calls, of both bit orders in any mix, over any input.
use bitstream_h.Base.{
  ℕ, ◌≤◌, List, [], ◌∷◌, All, length, Outcome, done, ◌>>=◌, Returns, Returns_mono, done-Returns,
  >>=-Returns,
}
use bitstream_h.Reader.{Reader}
use bitstream_h.Reader.Msb.{read_bits, peek_bits, skip_bits, reader_align}
use bitstream_h.Reader.Msb.Bounds.{
  read_bits-Advances, peek_bits-Advances, skip_bits-Advances, reader_align-Advances,
}
use bitstream_h.Reader.Lsb.{read_bits_lsb, peek_bits_lsb, skip_bits_lsb, reader_align_lsb}
use bitstream_h.Reader.Lsb.Bounds.{
  read_bits_lsb-Advances, peek_bits_lsb-Advances, skip_bits_lsb-Advances, reader_align_lsb-Advances,
}
use bitstream_h.Reader.Bulk.{read_bytes}
use bitstream_h.Reader.Bulk.Bounds.{read_bytes-Advances}
use bitstream_h.Reader.Advance.{InBounds, Advances, Advances-self, Advances-trans}

-- The checked calls that change a reader, with their arguments.
pub data Call : Type 0 where
  read_call : ℕ → Call
  peek_call : ℕ → Call
  skip_call : ℕ → Call
  align_call : Call
  read_lsb_call : ℕ → Call
  peek_lsb_call : ℕ → Call
  skip_lsb_call : ℕ → Call
  align_lsb_call : Call
  bytes_call : List ℕ → ℕ → Call

-- The answers are left out.
pub call : Call → Reader → Outcome Reader
call (read_call n) r = read_bits r n >>= λ p. done p.1
call (peek_call n) r = peek_bits r n >>= λ p. done p.1
call (skip_call n) r = skip_bits r n
call align_call r = done (reader_align r)
call (read_lsb_call n) r = read_bits_lsb r n >>= λ p. done p.1
call (peek_lsb_call n) r = peek_bits_lsb r n >>= λ p. done p.1
call (skip_lsb_call n) r = skip_bits_lsb r n
call align_lsb_call r = reader_align_lsb r
call (bytes_call dst n) r = read_bytes r dst n >>= λ p. done p.2

pub calls : List Call → Reader → Outcome Reader
calls [] r = done r
calls (c ∷ cs) r = call c r >>= calls cs

-- At most 32 bits at a time, and room for the bytes.
abbrev pub IsAllowed : Call → Type 0
IsAllowed (read_call n) = n ≤ 32
IsAllowed (peek_call n) = n ≤ 32
IsAllowed (skip_call n) = Unit {0}
IsAllowed align_call = Unit {0}
IsAllowed (read_lsb_call n) = n ≤ 32
IsAllowed (peek_lsb_call n) = n ≤ 32
IsAllowed (skip_lsb_call n) = n ≤ 32
IsAllowed align_lsb_call = Unit {0}
IsAllowed (bytes_call dst n) = n ≤ length dst

call-Advances : (c : Call) (r : Reader) → InBounds r → IsAllowed c → Returns (call c r) (Advances r)
unfolding call
call-Advances (read_call n) r v h =
    >>=-Returns (read_bits-Advances r n v h) (λ p a. done-Returns _ a.1)
call-Advances (peek_call n) r v h =
    >>=-Returns (peek_bits-Advances r n v h) (λ p a. done-Returns _ a.1)
call-Advances (skip_call n) r v h = skip_bits-Advances r n v
call-Advances align_call r v h = done-Returns _ (reader_align-Advances r v)
call-Advances (read_lsb_call n) r v h =
    >>=-Returns (read_bits_lsb-Advances r n v h) (λ p a. done-Returns _ a.1)
call-Advances (peek_lsb_call n) r v h =
    >>=-Returns (peek_bits_lsb-Advances r n v h) (λ p a. done-Returns _ a.1)
call-Advances (skip_lsb_call n) r v h = skip_bits_lsb-Advances r n v h
call-Advances align_lsb_call r v h = reader_align_lsb-Advances r v
call-Advances (bytes_call dst n) r v h =
    >>=-Returns (read_bytes-Advances r dst n v h) (λ p a. done-Returns _ a.1)

-- On a reader within bounds, whatever its accumulator holds, any sequence of checked calls, of both bit
-- orders in any mix, that ask for at most 32 bits or for as many bytes as their destination has
-- room for, returns: no byte is read outside the input, the buffer and the size are the same,
-- and the position never moves back and stays within the input.
pub reader_calls-Advances :
    (cs : List Call) (r : Reader)
    → InBounds r
    → All IsAllowed cs
    → Returns (calls cs r) (Advances r)
unfolding calls
reader_calls-Advances [] r v h = done-Returns r (Advances-self r v)
reader_calls-Advances (c ∷ cs) r v h =
    >>=-Returns (call-Advances c r v h.0)
      (λ r' a. Returns_mono (reader_calls-Advances cs r' a.in_bounds h.1) (λ r''. Advances-trans a))
