-- ===== src/Examples/StoredBlock/Run.antt =====
-- The program's round trip.
use bitstream_h.Base.{
  ℕ, ◌+◌, ◌-◌, ◌^◌, ◌≤◌, ◌<◌, ◌≡◌, refl, ap, arith, List, ◌++◌, All, length, take, replicate,
  length-take, length-append, take-length, take-append, le→leb, eq→==, Returns, done-Returns,
  >>=-Returns, access-Returns, same_text_self, done, true,
}
use native.Mathlib.Nat.{mod-eq_of_lt}
use bitstream_h.BitString.Bytes.{IsByte}
use bitstream_h.Examples.Hex.{print_hex_lem}
use bitstream_h.Examples.StoredBlock.{StoredBlock, same_bytes, listed_layout, run}
use bitstream_h.Examples.StoredBlock.Parse.{parse_literal}
use bitstream_h.Examples.StoredBlock.Transfer.{encode_stored_block_lem, decode-block_bytes}

-- The five bytes of the layout are there in a memory of five bytes or more.
listed_layout-Returns :
    (wire : List ℕ) → 5 ≤ length wire → Returns (listed_layout wire) (λ bytes. length bytes ≡ 5)
unfolding listed_layout
listed_layout-Returns wire h = >>=-Returns (access-Returns wire 0 (omega arith)) (λ a p.
    >>=-Returns (access-Returns wire 1 (omega arith)) (λ b q.
      >>=-Returns (access-Returns wire 2 (omega arith)) (λ c r.
        >>=-Returns (access-Returns wire 3 (omega arith))
          (λ d s. >>=-Returns (access-Returns wire 4 (omega arith)) (λ e t. done-Returns _ refl)))))

module _ (message : List ℕ) (bytes : All IsByte message) (short : length message ≤ 256) where
  abbrev payload_len : ℕ
  payload_len = length message

  whole : take payload_len message ≡ message
  whole = take-length payload_len message (omega arith)

  abbrev found : StoredBlock
  found = record {
    is_final = 1;
    len = payload_len;
    contents = message ++ replicate (256 - payload_len) 0;
  }

  parsed : parse_literal 1 payload_len (take payload_len message) ≡ done found
  unfolding parse_literal
  parsed =
      rw (whole, le→leb payload_len payload_len (omega arith), le→leb payload_len 256 short, whole)
        refl

  payload_found : same_bytes found.contents message payload_len ≡ done true
  unfolding same_bytes
  payload_found =
      rw
        (
          le→leb payload_len (length found.contents)
              (omega (arith, length-append message (replicate (256 - payload_len) 0))),
          le→leb payload_len payload_len (omega arith),
          take-append payload_len message (replicate (256 - payload_len) 0) refl,
          whole,
          same_text_self message,
        )
        refl

  -- `main` of deflate_block.c for any message of at most 256 bytes, over a wire with five bytes more and
  -- fewer than 2 ^ 64: it returns 0, so no array is left, the copy of the payload fits the result, and no
  -- assertion fails: the decoded block is final and has the payload.
  pub stored_block_run_lem :
      (wire : List ℕ) (size : ℕ)
      → 5 + length message ≤ size
      → size ≤ length wire
      → size < 2 ^ 64
      → All IsByte wire
      → Returns (run message wire size) (λ code. code ≡ 0)
  unfolding run
  stored_block_run_lem wire size room held addressable clean =
      rw (mod-eq_of_lt {n = length message} {m = 2 ^ 16} (omega arith)) (
        >>=-Returns
          (encode_stored_block_lem message payload_len 1 wire size (omega arith) bytes room held
            addressable clean (omega arith))
          (λ p e. rw (print_hex_lem _ p.1 p.0 e.0) (
            >>=-Returns
              (listed_layout-Returns p.1
                (omega (arith, ap length e.2, length-take p.0 p.1 e.0, e.0)))
              (λ layout l.
                rw
                  (
                    decode-block_bytes message payload_len 1 wire size (omega arith) bytes room held
                        addressable clean 1 p.1 p.0 (omega arith) (omega arith) e.0 e.1 e.2,
                    parsed,
                    eq→== payload_len payload_len refl,
                    payload_found,
                  )
                  (done-Returns 0 refl)))))
