-- ===== src/RoundTrip/Sessions.antt =====
-- Two clients with a memory between them: what the one composes, the other reads.
use bitstream_h.Base.{
  refl, ℕ, ◌*◌, ◌%◌, ◌^◌, ◌≤◌, ◌<◌, ◌≡◌, arith, false, Bool, List, [], All, length, length-append,
  length-replicate, replicate, Outcome, done, ◌>>=◌, Returns, done-Returns, >>=-Returns, ap, ◌∙◌,
}
use bitstream_h.BitString.{BitOrder}
use bitstream_h.BitString.Bytes.{IsByte}
use bitstream_h.Reader.{reader_init}
use bitstream_h.Reader.Interface.{ReaderOps}
use bitstream_h.Reader.Session.{Answer, answers, serve_all}
use bitstream_h.Reader.Session as ReadSession
use bitstream_h.Reader.Session.Answers.{session-refines-answers}
use bitstream_h.Writer.{Writer, writer_init, writer_bytes_written}
use bitstream_h.Writer.Interface.{WriterOps}
use bitstream_h.Writer.State.{pad_length}
use bitstream_h.Writer.Contents.{Holds-init, Holds-readable}
use bitstream_h.Writer.Session.{
  Request, flush_request, padded, compose_all, put, put_all, IsRequest,
}
use bitstream_h.Writer.Session.Composed.{HoldsAll, flush-Composed, session-composes}

module _ {o : BitOrder} (writer : WriterOps o) (reader : ReaderOps o) where
  -- The first client writes and flushes, the second reads what was written.
  pub converse :
      List ℕ → ℕ → List Request → List ReadSession.Request → Outcome (List Bool × List Answer)
  converse buf size puts gets = do
    (accepted, w) ← put_all writer puts (writer_init buf size)
    (flushed, w) ← put writer flush_request w
    (given, r) ← serve_all reader gets (reader_init w.buffer (writer_bytes_written w))
    done (accepted, given)

length-padded-mod : (s : List Bool) → length (padded s) % 8 ≡ 0
length-padded-mod s = omega (
  arith,
  length-append s (replicate (pad_length (length s)) false),
  length-replicate (pad_length (length s)) false,
)

length-padded-le : (s : List Bool) (n : ℕ) → length s ≤ 8 * n → length (padded s) ≤ 8 * n
length-padded-le s n h = omega (
  arith,
  length-append s (replicate (pad_length (length s)) false),
  length-replicate (pad_length (length s)) false,
)

reader_init-size : (buf : List ℕ) (n : ℕ) → (reader_init buf n).size ≡ n
unfolding reader_init
reader_init-size buf n = refl

in_memory :
    {o : BitOrder} {size : ℕ} {s : List Bool} {w : Writer}
    → HoldsAll o size s w
    → (reader_init w.buffer (writer_bytes_written w)).size ≤ size
unfolding writer_bytes_written
in_memory {w = w} h =
    omega (arith, reader_init-size w.buffer w.byte_pos, h.is_writer.staged.in_buffer, h.same_size)

-- The two halves of the library joined, in either bit order, over a memory of fewer than 2 ^ 61 bytes: after
-- any requests of a writing client that are valid and fit the memory, and a flush, any valid requests
-- of a reading client are answered as the composed string, filled with zeros to a whole byte,
-- answers them, and the writing client's requests as the string that it composes.
pub converse_lem :
    {o : BitOrder} (writer : WriterOps o) (reader : ReaderOps o) (buf : List ℕ) (size : ℕ)
    (puts : List Request) (gets : List ReadSession.Request)
    → size ≤ length buf
    → size < 2 ^ 61
    → All IsByte buf
    → All IsRequest puts
    → All ReadSession.IsRequest gets
    → length (compose_all o puts []).1 ≤ 8 * size
    → Returns (converse writer reader buf size puts gets) (λ p.
      (p.0 ≡ (compose_all o puts []).0)
      × (p.1 ≡ (answers o gets (padded (compose_all o puts []).1)).0))
unfolding converse
converse_lem {o} writer reader buf size puts gets held small memory valid valid' fits =
    >>=-Returns
      (session-composes writer puts [] (writer_init buf size)
        (Holds-init o buf size held (omega arith) memory) valid fits)
      (λ p a.
        >>=-Returns
          (flush-Composed writer a.1 (length-padded-le (compose_all o puts []).1 size fits))
          (λ q h.
            let seen = Holds-readable h (length-padded-mod (compose_all o puts []).1) in
            >>=-Returns
              (session-refines-answers reader gets
                (reader_init q.1.buffer (writer_bytes_written q.1)) seen.0
                (omega (arith, in_memory h)) valid')
              (λ r c. done-Returns _ (a.0, c.0 ∙ ap (λ s. (answers o gets s).0) seen.1))))
