-- ===== src/Tests/Examples.antt =====
-- The theorems about the programs of examples/ at the data that the programs use.
use bitstream_h.Base.{
  ℕ, ◌≡◌, arith, List, [], ◌∷◌, true, false, replicate, Returns, map, All, ◌+◌, ◌*◌, ◌≤◌, ◌<◌,
  length, take, refl, done, aborted, c_string,
}
use bitstream_h.Examples.Sensor.{Reading, transfer}
use bitstream_h.Examples.Sensor.Transfer.{transfer_lem, all_fit}
use bitstream_h.Examples.FastDecode
use bitstream_h.Examples.FastDecode.{
  HuffEntry, huff_entry, huffman_decode_safe, huffman_decode_fast, pass_safe,
}
use bitstream_h.Examples.FastDecode.Input.{
  huffman_decode_safe_total, huffman_decode_fast-eq-guarded,
}
use bitstream_h.Examples.FastDecode.Looks.{look_guarded}
use bitstream_h.Examples.FastDecode.Run.{fast_decode_run_lem}
use bitstream_h.Examples.Mp3Header
use bitstream_h.Examples.Mp3Header.{Lines}
use bitstream_h.Examples.FastDecode.Table.{IsLetter, letter_t, letter_h, letter_e}
use bitstream_h.Examples.FastDecode.Encode.{message_width}
use bitstream_h.RoundTrip.{total_width}
use bitstream_h.Examples.StoredBlock
use bitstream_h.Examples.StoredBlock.{encode_stored_block, decode_stored_block}
use bitstream_h.Examples.StoredBlock.Parse.{parse_literal, parse_block}
use bitstream_h.Examples.StoredBlock.Layout.{block_bytes}
use bitstream_h.Examples.StoredBlock.Input.{decode_stored_block-parses}
use bitstream_h.Examples.StoredBlock.Refusal.{encode_stored_block_aborts}
use bitstream_h.Examples.StoredBlock.Run.{stored_block_run_lem}
use bitstream_h.BitString.Bytes.{IsByte}
use bitstream_h.Examples.StoredBlock.Transfer.{encode_stored_block_lem, final_bit}

abbrev memory : List ℕ
memory = replicate 12 0

abbrev indoors : Reading
indoors = record {
  device_id = 1;
  battery_low = false;
  temp_raw = 625;
  humidity = 45;
  alert = false;
}

abbrev frost : Reading
frost = record { device_id = 2; battery_low = true; temp_raw = 297; humidity = 89; alert = true }

-- A humidity of more than seven bits.
abbrev faulty : Reading
faulty = record { device_id = 7; battery_low = false; temp_raw = 958; humidity = 200; alert = true }

transfer_lem_example :
    Returns (transfer (indoors ∷ frost ∷ faulty ∷ []) memory 12) (λ code. code ≡ 1)
unfolding all_fit
transfer_lem_example =
    transfer_lem (indoors ∷ frost ∷ faulty ∷ []) memory 12 (omega arith) (omega arith) (omega arith)
      (omega arith)

-- "Hello"
abbrev hello : List ℕ
hello = 72 ∷ 101 ∷ 108 ∷ 108 ∷ 111 ∷ []

encode_stored_block_lem_example :
    Returns (encode_stored_block hello 5 1 memory 12) (λ p.
      (p.0 ≤ length p.1) × All IsByte p.1 × (take p.0 p.1 ≡ block_bytes hello 5 (final_bit 1)))
encode_stored_block_lem_example =
    encode_stored_block_lem hello 5 1 memory 12 (omega arith) (omega arith) (omega arith)
      (omega arith) (omega arith) (omega arith) (omega arith)

-- A block of two bytes, with padding that is not zero and a byte behind it.
abbrev wire_block : List ℕ
wire_block = 0xF9 ∷ 2 ∷ 0 ∷ 0xFD ∷ 0xFF ∷ 72 ∷ 105 ∷ 33 ∷ []

decode_stored_block-parses_example :
    decode_stored_block wire_block 8 ≡ parse_block (take 8 wire_block)
decode_stored_block-parses_example =
    decode_stored_block-parses wire_block 8 (omega arith) (omega arith) (omega arith)

wire_block_parsed :
    parse_block wire_block
    ≡ done (record { is_final = 1; len = 2; contents = 72 ∷ 105 ∷ replicate 254 0 })
unfolding parse_block parse_literal
wire_block_parsed = refl

stored_block_run_lem_example : Returns (StoredBlock.run hello memory 12) (λ code. code ≡ 0)
stored_block_run_lem_example =
    stored_block_run_lem hello (omega arith) (omega arith) memory 12 (omega arith) (omega arith)
      (omega arith) (omega arith)

-- One byte less than the block has.
encode_stored_block_aborts_example : encode_stored_block hello 5 1 memory 9 ≡ aborted
encode_stored_block_aborts_example =
    encode_stored_block_aborts hello 5 1 memory 9 (omega arith) (omega arith) (omega arith)
      (omega arith) (omega arith) (omega arith)

-- "the"
abbrev the : List HuffEntry
the = huff_entry 116 0x02 2 ∷ huff_entry 104 0x1E 5 ∷ huff_entry 101 0x00 1 ∷ []

the-IsLetter : All IsLetter the
the-IsLetter = (letter_t, (letter_h, (letter_e, tt)))

the-fits : message_width the + 6 ≤ 8 * 12
unfolding total_width
the-fits = omega arith

-- The arrays of the program, of 128 characters.
abbrev decoded : List ℕ
decoded = replicate 128 0

fast_decode_run_lem_example :
    Returns
      (FastDecode.run (map (λ e. e.symbol) the) memory 12 decoded 128 decoded 128)
      (λ code. code ≡ 0)
fast_decode_run_lem_example =
    fast_decode_run_lem the the-IsLetter memory 12 (omega arith) (omega arith) (omega arith)
      the-fits decoded 128 decoded 128 (omega arith) (omega arith) (omega arith) (omega arith)
      (omega arith) (omega arith) (omega arith)

-- Two bytes without a sentinel.
abbrev noise : List ℕ
noise = 0xA5 ∷ 0x3C ∷ []

huffman_decode_safe_total_example :
    Returns
      (huffman_decode_safe noise 2 decoded 128)
      (λ out. (length out ≡ 128) × (length (c_string out) < 128))
huffman_decode_safe_total_example =
    huffman_decode_safe_total noise 2 (omega arith) (omega arith) (omega arith) decoded 128
      (omega arith) (omega arith) (omega arith)

huffman_decode_fast-eq-guarded_example :
    huffman_decode_fast noise 2 decoded 128
    ≡ FastDecode.decode look_guarded pass_safe noise 2 decoded 128
huffman_decode_fast-eq-guarded_example =
    huffman_decode_fast-eq-guarded noise 2 (omega arith) (omega arith) (omega arith) decoded 128
