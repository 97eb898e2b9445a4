-- ===== src/Examples/StoredBlock/Transfer.antt =====
-- A stored block survives encoding and decoding, if the decoder has room for it.
use bitstream_h.Base.{
  ℕ, ◌+◌, ◌-◌, ◌^◌, ◌≤◌, ◌<◌, ◌≡◌, ◌==◌, refl, ap, ◌∙◌, arith, Bool, true, false, if◌then◌else◌,
  List, All, length, take, replicate, length-take, take-length, take-append, le→leb, lt→leb,
  Returns, done-Returns, >>=-Returns, Returns_mono, undefined,
}
use bitstream_h.BitString.{lsb_first, bytes_bits}
use bitstream_h.BitString.Bytes.{IsByte, take-IsByte, bytes_bits-injective}
use bitstream_h.Reader.{reader_init}
use bitstream_h.Reader.State.{IsReader, remaining}
use bitstream_h.Writer.Interface.{lsb_writer}
use bitstream_h.Writer.Contents.{
  Holds-init, Holds-write, Holds-writer_align_lsb, Holds-write_bytes, Holds-readable,
}
use bitstream_h.Examples.StoredBlock.{
  StoredBlock, encode_stored_block, decode_stored_block, complement, low_byte, high_byte,
}
use bitstream_h.Examples.StoredBlock.Parse.{parse_literal, parse_block}
use bitstream_h.Examples.StoredBlock.Layout.{block_bytes, block_bytes_lem, parse-block_bytes}
use bitstream_h.Examples.StoredBlock.Input.{decode_stored_block-parses}

-- What the decoder finds: the flag, the length and the literal bytes.
pub record IsDecoded (literal : List ℕ) (n flag : ℕ) (b : StoredBlock) : Type 0 where
  pub is_final : b.is_final ≡ flag
  pub len : b.len ≡ n
  pub contents : take n b.contents ≡ take n literal

-- `is_final ? 1 : 0`
abbrev pub final_bit : ℕ → ℕ
final_bit is_final = if is_final == 0 then 0 else 1

one_bit : (b : Bool) → (if b then 0 else 1) < 2
one_bit true = omega arith
one_bit false = omega arith

module _ (literal : List ℕ) (len is_final : ℕ) (out : List ℕ) (out_size : ℕ)
    (given : len ≤ length literal) (bytes : All IsByte literal) (room : 5 + len ≤ out_size)
    (held : out_size ≤ length out) (addressable : out_size < 2 ^ 64) (clean : All IsByte out) where
  -- A reader that has the bits of a block left stands before the bytes of one.
  written_bytes :
      (flag : ℕ) (buffer : List ℕ) (n : ℕ)
      → flag < 2
      → len < 2 ^ 16
      → IsReader lsb_first (reader_init buffer n)
      → remaining lsb_first (reader_init buffer n)
        ≡ bytes_bits lsb_first (block_bytes literal len flag)
      → (n ≤ length buffer) × All IsByte buffer × (take n buffer ≡ block_bytes literal len flag)
  unfolding reader_init remaining
  written_bytes flag buffer n one small u seen = (
    u.storage,
    u.all_bytes,
    bytes_bits-injective lsb_first (take n buffer) (block_bytes literal len flag)
        (take-IsByte n buffer u.all_bytes)
        (
          omega (arith, one),
          (omega arith, (omega arith, (omega arith, (omega arith, take-IsByte len literal bytes)))),
        )
        seen,
  )

  -- For up to 65535 literal bytes and a buffer with five bytes more, encoding a stored block returns, and the
  -- bytes written are the flag, the length and its complement in little-endian order, and the literal
  -- bytes.
  pub encode_stored_block_lem :
      len < 2 ^ 16
      → Returns (encode_stored_block literal len is_final out out_size) (λ p.
        (p.0 ≤ length p.1)
        × All IsByte p.1
        × (take p.0 p.1 ≡ block_bytes literal len (final_bit is_final)))
  unfolding encode_stored_block
  encode_stored_block_lem small =
      >>=-Returns
        (Holds-write (Holds-init lsb_first out out_size held addressable clean) lsb_writer
          (final_bit is_final) 1 (omega arith) (omega arith))
        (λ w1 h1. >>=-Returns (Holds-write h1 lsb_writer 0 2 (omega arith) (omega arith)) (λ w2 h2.
          >>=-Returns (Holds-writer_align_lsb h2 (omega arith)) (λ w3 h3.
            >>=-Returns (Holds-write h3 lsb_writer (low_byte len) 8 (omega arith) (omega arith))
              (λ w4 h4.
                >>=-Returns
                  (Holds-write h4 lsb_writer (high_byte len) 8 (omega arith) (omega arith))
                  (λ w5 h5.
                    >>=-Returns
                      (Holds-write h5 lsb_writer (low_byte (complement len)) 8 (omega arith)
                        (omega arith))
                      (λ w6 h6.
                        >>=-Returns
                          (Holds-write h6 lsb_writer (high_byte (complement len)) 8 (omega arith)
                            (omega arith))
                          (λ w7 h7.
                            >>=-Returns
                              (Holds-write_bytes h7 literal len bytes given refl (omega arith))
                              (λ p q.
                                let (u, seen) = Holds-readable q.1 (omega arith) in
                                simp (q.0, q.1.clear)
                                  (done-Returns _ (
                                    written_bytes (final_bit is_final) _ _ (one_bit (is_final == 0))
                                      small u
                                      (seen
                                        ∙ block_bytes_lem literal len (final_bit is_final) small
                                            (one_bit (is_final == 0)))))))))))))

  -- The decoder on the bytes of a block, wherever they stand.
  pub decode-block_bytes :
      (flag : ℕ) (buffer : List ℕ) (n : ℕ)
      → flag < 2
      → len < 2 ^ 16
      → n ≤ length buffer
      → All IsByte buffer
      → take n buffer ≡ block_bytes literal len flag
      → decode_stored_block buffer n ≡ parse_literal flag len (take len literal)
  decode-block_bytes flag buffer n one small inside all_bytes e =
      decode_stored_block-parses buffer n inside
        (omega (arith, ap length e, length-take n buffer inside, length-take len literal given))
        all_bytes
      ∙ ap parse_block e
      ∙ parse-block_bytes literal len flag small one given

  decoded_lem :
      len < 2 ^ 16
      → Returns (encode_stored_block literal len is_final out out_size) (λ p.
        decode_stored_block p.1 p.0 ≡ parse_literal (final_bit is_final) len (take len literal))
  decoded_lem small = Returns_mono (encode_stored_block_lem small) (λ p e.
      decode-block_bytes (final_bit is_final) p.1 p.0 (one_bit (is_final == 0)) small e.0 e.1 e.2)

  -- For up to 256 literal bytes and a buffer with five bytes more, encoding a stored block returns, and
  -- decoding the bytes written returns the flag, the length and the literal bytes.
  pub stored_block_lem :
      len ≤ 256
      → Returns
          (encode_stored_block literal len is_final out out_size)
          (λ p. Returns (decode_stored_block p.1 p.0) (IsDecoded literal len (final_bit is_final)))
  unfolding parse_literal
  stored_block_lem short = Returns_mono (decoded_lem (omega arith)) (λ p e.
      rw
        (
          e,
          le→leb len (length (take len literal)) (omega (arith, length-take len literal given)),
          le→leb len 256 short,
          take-length len (take len literal) (omega (arith, length-take len literal given)),
        )
        (done-Returns _ (record {
          is_final = refl;
          len = refl;
          contents =
              take-append len (take len literal) (replicate (256 - len) 0)
                (length-take len literal given);
        })))

  -- For more than 256 literal bytes, up to the 65535 that a block may have, and a buffer with five bytes
  -- more, encoding a stored block returns, and decoding the bytes written is undefined: the copy
  -- overruns the array of the result.
  stored_block_overruns :
      256 < len
      → len < 2 ^ 16
      → Returns
          (encode_stored_block literal len is_final out out_size)
          (λ p. decode_stored_block p.1 p.0 ≡ undefined)
  unfolding parse_literal
  stored_block_overruns long small = Returns_mono (decoded_lem small) (λ p e.
      rw
        (
          e,
          le→leb len (length (take len literal)) (omega (arith, length-take len literal given)),
          lt→leb len 256 long,
        )
        refl)
