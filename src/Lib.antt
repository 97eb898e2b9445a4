-- ===== src/Lib.antt =====
-- A verification library for bitstream.h, a single-header bit reader and writer in C.
--
-- The header has two halves that share only the memory between them. A `bs_reader_t` fetches bytes
-- from a buffer into a 64-bit accumulator and hands fields of up to 32 bits out; a `bs_writer_t` takes
-- fields into its accumulator and moves whole bytes to a buffer, until the buffer is full and a flag is
-- raised. Each half has its functions twice, for the MSB-first and the LSB-first packing order, once
-- with guards and once unchecked, and bulk copies of whole bytes that pass the accumulator by.
--
-- How the files correspond to bitstream.h:
--   Base.antt and its children: lists over native numbers, Boolean tests, and `Outcome`, what a run of a
--     C function comes to: `done`, `undefined` (an access out of bounds, a shift by 64 or more, a
--     division by zero), `aborted` (a failed assert) or `stuck` (a loop of the model ran out of fuel).
--   Word.antt: casts, wrapping subtraction and shifts of 8 to 64 bits, for a 64-bit `size_t` and a 32-bit
--     `unsigned int`.
--   BitString.antt: strings of bits, and how a field and a sequence of bytes are laid out in either order.
--   Stream.antt: what the reader promises: reading, peeking, skipping and aligning a string of bits.
--   Reader.antt: the struct, `bs_reader_init`, `bs_reader_eof`, `bs_reader_bits_left`. Reader/Msb.antt and
--     Reader/Lsb.antt: refill, read, peek, skip, align and the unchecked functions of each order.
--     Reader/Bulk.antt: `bs_read_bytes`. Reader/State.antt: `remaining`, the string of bits that a reader
--     still has to give, and `IsReader`, its invariant. Their children prove what the functions do to it.
--   Writer.antt: the struct, `bs_writer_init`, `bs_writer_bytes_written`. Writer/Msb.antt and
--     Writer/Lsb.antt: dump, write, flush, align and the unchecked functions of each order.
--     Writer/Bulk.antt: `bs_write_bytes`. Writer/State.antt: `written`, the string of bits that a writer
--     took, and `IsWriter`, its invariant.
--   Reader/Interface.antt, Writer/Interface.antt: each half as a record of operations and laws, which
--     either order fills. RoundTrip.antt: a client of both, through the records. RoundTrip/Overfull.antt: what it
--     finds in a buffer that is too small.
--   Reader/Session.antt, Writer/Session.antt: clients of one half that may send any requests, what the
--     code does with them, and what the string of bits alone says. RoundTrip/Sessions.antt joins the two.
--   Reader/History.antt, Writer/History.antt: sequences of calls of both bit orders in any mix, in states
--     of which only the bounds are known. Reader/Drain.antt: a client that skips to the end.
--   Reader/Accumulator.antt, Writer/Accumulator.antt: the functions below the records, refill and dump, and the
--     unchecked ones, in either bit order.
--   Reader/Orders.antt, Writer/Orders.antt, RoundTrip/Orders.antt: these clients with either bit order's
--     functions in place.
--   Examples.antt and its children: clients of both halves. Examples/Sensor.antt is
--     examples/sensor_protocol.c, Examples/StoredBlock.antt is examples/deflate_block.c,
--     Examples/FastDecode.antt is examples/fast_decode.c, Examples/HuffmanDecode.antt is
--     examples/huffman_decode.c, Examples/DeflateCodes.antt is examples/deflate_codes.c, and
--     Examples/Mp3Header.antt is examples/decode_mp3_header.c.
--   Examples/Hex.antt is their listings of raw bytes, Examples/Text.antt the text that their loops leave in an
--     array.
--   Tests: runs of the model and the theorems at concrete inputs.
--
-- The names are those of the C functions without the `bs_` prefix. A function that changes its context
-- returns it, and one that reads or writes memory, shifts by a variable amount or asserts returns an
-- `Outcome`, so a theorem that says it returns excludes undefined behaviour. A buffer is the list of
-- its bytes, `size` may be less than its length.
--
-- The loops run on fuel. A refill takes at most eight rounds, since each caches eight bits and it stops
-- above 56 of them, so nine tests are enough; a dump takes one round for each whole byte that waits.
-- The theorems that the functions return show that this fuel is enough. In states of which less is
-- known a run may be undefined, but it does not run out of fuel (Base/Endings.antt). The decoding loop
-- of examples/huffman_decode.c has 256 turns, since its array has 256 characters; that of
-- examples/deflate_codes.c and that of both decoders of examples/fast_decode.c have a turn more than
-- characters that fit their arrays.
--
-- The accumulator of a writer grows after an overflow, and a write into one of 64 bits or more is
-- undefined in C; the theorems about writing ask for fewer than 64 bits with the new field, which a
-- valid writer without an overflow always has.
--
-- Not modelled: printing in the examples, except for the listings of raw bytes, that of the table in
-- examples/deflate_codes.c and the lines of examples/decode_mp3_header.c; the conversion of
-- temperatures in floating point; and the test programs of tests/ and test.c, which run the functions
-- on fixed inputs.
pub mod Base
pub mod Word
pub mod BitString
pub mod Stream
pub mod Reader
pub mod Writer
pub mod RoundTrip
pub mod Examples
pub mod Tests
