-- ===== src/Writer/Orders.antt =====
-- The client of the writer with the functions of either bit order in place.
use bitstream_h.Base.{ℕ, ◌*◌, ◌^◌, ◌≤◌, ◌<◌, ◌≡◌, [], List, All, length, Returns}
use bitstream_h.BitString.{BitOrder}
use bitstream_h.BitString.Bytes.{IsByte}
use bitstream_h.Writer.{writer_init}
use bitstream_h.Writer.Contents.{Holds-init}
use bitstream_h.Writer.Interface.{writer_ops}
use bitstream_h.Writer.Session.{Request, compose_all, put_all, IsRequest}
use bitstream_h.Writer.Session.Composed.{HoldsAll, session-composes}

-- A client of a fresh writer, in either bit order, that writes at most 32 bits at a time, and bytes that
-- its arrays hold, and no more than the buffer has room for: any sequence of requests returns, each
-- is accepted or refused as the string says, no overflow is flagged, and what was written is the
-- string that they compose.
pub writer_session :
    (o : BitOrder) (qs : List Request) (buf : List ℕ) (size : ℕ)
    → size ≤ length buf
    → size < 2 ^ 64
    → All IsByte buf
    → All IsRequest qs
    → length (compose_all o qs []).1 ≤ 8 * size
    → Returns
        (put_all (writer_ops o) qs (writer_init buf size))
        (λ p. (p.0 ≡ (compose_all o qs []).0) × HoldsAll o size (compose_all o qs []).1 p.1)
writer_session o qs buf size held small bytes =
    session-composes (writer_ops o) qs [] (writer_init buf size)
      (Holds-init o buf size held small bytes)
