-- ===== src/Tests/Codes.antt =====
-- The theorems about the prefix codes of examples/huffman_decode.c and examples/deflate_codes.c at
-- small messages, and at bytes that no encoder wrote.
use bitstream_h.Base.{
  ℕ, ◌+◌, ◌*◌, ◌≤◌, ◌<◌, ◌≡◌, none, refl, arith, List, [], ◌∷◌, ◌++◌, map, All, length, replicate,
  Returns, done,
}
use bitstream_h.BitString.{msb_first}
use bitstream_h.Reader.{reader_init}
use bitstream_h.Reader.Status.{reader_init-IsReader}
use bitstream_h.RoundTrip.{total_width}
use bitstream_h.Examples.HuffmanDecode as Huffman
use bitstream_h.Examples.HuffmanDecode.Codebook as Codebook
use bitstream_h.Examples.HuffmanDecode.Loop.{IsTurn, huffman_loop_ends}
use bitstream_h.Examples.HuffmanDecode.Transfer.{huffman_run_lem}
use bitstream_h.Examples.HuffmanDecode.Transfer as HuffmanTransfer
use bitstream_h.Examples.DeflateCodes.Listing
use bitstream_h.Examples.DeflateCodes as Deflate
use bitstream_h.Examples.DeflateCodes.Table as Table
use bitstream_h.Examples.DeflateCodes.Transfer as DeflateTransfer
use bitstream_h.Examples.DeflateCodes.Transfer.{deflate_run_lem, deflate_encode_unknown}
use bitstream_h.Examples.DeflateCodes.Overflow.{deflate_encode_overflow}

abbrev wire : List ℕ
wire = replicate 12 0

abbrev array : List ℕ
array = replicate 256 0

-- Bytes that no encoder wrote.
abbrev noise : List ℕ
noise = 0xA5 ∷ 0x5A ∷ 0x13 ∷ []

-- "the"
abbrev huffman_the : List Huffman.HuffmanEntry
huffman_the =
    Huffman.huffman_entry 0x02 2 116
    ∷ Huffman.huffman_entry 0x1E 5 104
    ∷ Huffman.huffman_entry 0x00 1 101
    ∷ []

huffman_the-IsLetter : All Codebook.IsLetter huffman_the
huffman_the-IsLetter = (
  (Codebook.letter_t, omega arith),
  ((Codebook.letter_h, omega arith), ((Codebook.letter_e, omega arith), tt)),
)

huffman_the-fits : HuffmanTransfer.message_width huffman_the + 6 ≤ 8 * 12
unfolding total_width
huffman_the-fits = omega arith

huffman_run_lem_example :
    Returns (Huffman.run (map (λ e. e.symbol) huffman_the) wire 12 array) (λ code. code ≡ 0)
huffman_run_lem_example =
    huffman_run_lem huffman_the huffman_the-IsLetter wire 12 (omega arith) (omega arith)
      (omega arith) array refl (omega arith) huffman_the-fits

noise-IsTurn : IsTurn 256 (reader_init noise 3) array 0
noise-IsTurn = record {
  is_reader = (reader_init-IsReader msb_first noise 3 (omega arith) (omega arith) (omega arith)).0;
  room = refl;
  in_array = omega arith;
  fuelled = omega arith;
}

huffman_loop_ends_example :
    Returns
      (Huffman.decode_loop 256 (reader_init noise 3) array 0)
      (λ p. (p.1 ≤ 255) × (length p.0 ≡ 256))
huffman_loop_ends_example = huffman_loop_ends 256 (reader_init noise 3) array 0 noise-IsTurn

abbrev deflate_the : List Deflate.CodeEntry
deflate_the =
    Deflate.code_entry 116 0x01 2
    ∷ Deflate.code_entry 104 0x0F 5
    ∷ Deflate.code_entry 101 0x00 1
    ∷ []

deflate_the-IsLetter : All Table.IsLetter deflate_the
deflate_the-IsLetter = (
  (Table.letter_t, omega arith),
  ((Table.letter_h, omega arith), ((Table.letter_e, omega arith), tt)),
)

deflate_the-fits : DeflateTransfer.message_width deflate_the + 6 ≤ 8 * 12
unfolding total_width
deflate_the-fits = omega arith

deflate_run_lem_example :
    Returns
      (Deflate.run (map (λ e. e.symbol) deflate_the) (replicate 8 7) wire 12 array 256)
      (λ code. code ≡ 0)
deflate_run_lem_example =
    deflate_run_lem deflate_the deflate_the-IsLetter wire 12 (omega arith) (omega arith)
      (omega arith) (replicate 8 7) array 256 (omega arith) (omega arith) refl (omega arith)
      (omega arith) deflate_the-fits

-- "thex": the table has no code for x.
no_code : Deflate.find_symbol Deflate.code_table 120 ≡ none
unfolding Deflate.find_symbol
no_code = refl

deflate_encode_unknown_example :
    Returns (Deflate.encode (map (λ e. e.symbol) deflate_the ++ (120 ∷ [])) wire 12) (λ p. p.0 ≡ 0)
deflate_encode_unknown_example =
    deflate_encode_unknown deflate_the deflate_the-IsLetter wire 12 (omega arith) (omega arith)
      (omega arith) 120 [] no_code (unfold total_width in omega arith)

deflate_the-overflows :
    (8 * 1 < DeflateTransfer.message_width deflate_the + 6)
    × (DeflateTransfer.message_width deflate_the + 6 < 8 * 1 + 64)
unfolding total_width
deflate_the-overflows = (omega arith, omega arith)

-- The 14 bits of "the" and the sentinel over a wire of one byte.
deflate_encode_overflow_example :
    Returns (Deflate.encode (map (λ e. e.symbol) deflate_the) wire 1) (λ p. p.0 ≡ 0)
deflate_encode_overflow_example =
    deflate_encode_overflow deflate_the wire 1 deflate_the-IsLetter (omega arith) (omega arith)
      (omega arith) deflate_the-overflows.0 deflate_the-overflows.1

code_table_listed_example :
    Deflate.list_codes (replicate 8 7) Deflate.code_table
    ≡ done (Listing.entry_lines Listing.labels Deflate.code_table)
code_table_listed_example = Listing.code_table_listed (replicate 8 7) (omega arith)
