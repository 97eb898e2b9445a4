-- ===== src/Examples/FastDecode/Input.antt =====
-- Both decoders on any bytes.
use bitstream_h.Base.{
  ℕ, ◌+◌, ◌^◌, ◌≤◌, ◌<◌, ◌≡◌, refl, arith, List, All, length, c_string, Returns, Returns_mono,
  >>=-Returns,
}
use bitstream_h.Word.{sub64}
use bitstream_h.BitString.{msb_first}
use bitstream_h.BitString.Bytes.{IsByte}
use bitstream_h.Reader.{reader_init}
use bitstream_h.Reader.State.{IsReader}
use bitstream_h.Reader.Status.{reader_init-IsReader}
use bitstream_h.Examples.Text.{IsInside-Returns}
use bitstream_h.Examples.FastDecode.{
  decode, huffman_decode_safe, huffman_decode_fast, look_safe, pass_safe,
}
use bitstream_h.Examples.FastDecode.Loop.{decode_loop-IsInside}
use bitstream_h.Examples.FastDecode.Looks.{safe-Sees, look_guarded, decode_loop-eq-guarded}

module _ (input : List ℕ) (len : ℕ) (held : len ≤ length input) (small : len < 2 ^ 61)
    (bytes : All IsByte input) (out : List ℕ) (out_size : ℕ) where
  start : IsReader msb_first (reader_init input len)
  start = (reader_init-IsReader msb_first input len held (omega arith) bytes).0

  -- `huffman_decode_safe` on any bytes whatever, fewer than 2 ^ 61, with an array that has room for a
  -- character or more, returns: its assertion never fails, since every window matches a code word, it
  -- writes inside the array, and ends a string there.
  pub huffman_decode_safe_total :
      length out ≡ out_size
      → 0 < out_size
      → out_size < 2 ^ 64
      → Returns
          (huffman_decode_safe input len out out_size)
          (λ out'. (length out' ≡ out_size) × (length (c_string out') < out_size))
  unfolding decode
  huffman_decode_safe_total room some_room addressable =
      >>=-Returns
        (decode_loop-IsInside look_safe pass_safe (sub64 out_size 1) safe-Sees
          (sub64 out_size 1 + 1) (reader_init input len) out 0
          (record {
            is_reader = start;
            small = unfold reader_init in small;
            room = omega arith;
            in_array = omega arith;
            fuelled = omega arith;
          }))
        (λ p q.
          Returns_mono (IsInside-Returns (sub64 out_size 1) out p q (omega arith))
            (λ out' t. (omega (arith, t.0), omega (arith, t.1))))

  -- `huffman_decode_fast` on any bytes whatever, fewer than 2 ^ 61, with any array, does what
  -- `huffman_decode_safe` does with an abort at the first look that finds fewer than six bits left.
  pub huffman_decode_fast-eq-guarded :
      huffman_decode_fast input len out out_size
      ≡ decode look_guarded pass_safe input len out out_size
  unfolding decode
  huffman_decode_fast-eq-guarded =
      rw
        (decode_loop-eq-guarded (sub64 out_size 1) (sub64 out_size 1 + 1) (reader_init input len)
          (reader_init input len) out 0
          (record {
            fast_reader = start;
            safe_reader = start;
            same = refl;
            small = unfold reader_init in small;
          }))
        refl
