-- ===== src/Reader/Orders.antt =====
-- The clients of the reader with the functions of either bit order in place.
use bitstream_h.Base.{ℕ, ◌*◌, ◌^◌, ◌≤◌, ◌<◌, ◌≡◌, true, List, All, Returns}
use bitstream_h.BitString.{BitOrder}
use bitstream_h.Reader.{Reader, reader_eof, reader_bits_left}
use bitstream_h.Reader.State.{IsReader, IsAt, remaining}
use bitstream_h.Reader.Interface.{reader_ops}
use bitstream_h.Reader.Session.{Request, answers, serve_all, IsRequest}
use bitstream_h.Reader.Session.Answers.{session-refines-answers}
use bitstream_h.Reader.Drain.{skip_times, skip_times-reader_eof}

-- A client that asks for at most 32 bits at a time, and for as many bytes as its arrays have room for,
-- over fewer than 2 ^ 61 bytes, in either bit order, sees only the string of bits still to be read: any
-- sequence of requests returns, with the answers that the string gives one after another, and leaves
-- a valid reader at what they leave of the string.
pub reader_session :
    (o : BitOrder) (qs : List Request) (r : Reader)
    → IsReader o r
    → r.size < 2 ^ 61
    → All IsRequest qs
    → Returns (serve_all (reader_ops o) qs r) (λ p.
      (p.0 ≡ (answers o qs (remaining o r)).0) × IsAt o r p.1 (answers o qs (remaining o r)).1)
reader_session o = session-refines-answers (reader_ops o)

-- On a valid reader over fewer than 2 ^ 61 bytes, in either bit order, a client that skips `n` bits at a
-- time, at most 32, comes to the end: once it asked for as many bits as `bs_reader_bits_left` gave,
-- every skip has returned and `bs_reader_eof` holds.
pub reader_drains :
    (o : BitOrder) (n k : ℕ) (r : Reader)
    → n ≤ 32
    → IsReader o r
    → r.size < 2 ^ 61
    → reader_bits_left r ≤ k * n
    → Returns (skip_times (reader_ops o) n k r) (λ r'. reader_eof r' ≡ true)
reader_drains o n k r small = skip_times-reader_eof (reader_ops o) n small k r
