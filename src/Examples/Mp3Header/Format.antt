-- ===== src/Examples/Mp3Header/Format.antt =====
-- The format of a frame header, from the comment at the head of examples/decode_mp3_header.c and the tables
-- of MPEG-1 Layer III: what the bits of the fields stand for, the upper bit of a field first.
use bitstream_h.Base.{
  ℕ, ◌+◌, ◌*◌, ◌-◌, ◌/◌, ◌%◌, ◌^◌, ◌<◌, ◌≡◌, refl, sym, ap, ◌∙◌, arith, ◌==◌, if◌then◌else◌, Bool,
  true, false, get_elem?, some, get_elem?-tabulate,
}
use native.Mathlib.Nat.{div-div-eq-div-mul}
use bitstream_h.Word.Laws.{pow_add}
use bitstream_h.BitString.{odd, bit_value}
use bitstream_h.BitString.Laws.{bit_value-odd}
use bitstream_h.Examples.Mp3Header.{
  Entry, number, minus_one, ChannelMode, stereo, joint_stereo, dual_channel, mono, EmphasisMode,
  no_emphasis, us_50_15, reserved_emphasis, ccit_j_17, Version, mpeg1, mpeg2, mpeg2_5, Layer,
  layer_iii, layer_ii, layer_i, bitrate_table, samplerate_table, channel_modes, emphasis_modes,
  version_name, layer_name, yes_no,
}

-- Bit `i` of a number, from the lowest on.
abbrev pub bit : ℕ → ℕ → Bool
bit h i = odd (h / 2 ^ i)

-- 00 is MPEG 2.5, 10 is MPEG 2, 11 is MPEG 1; for the reserved 01 the program prints MPEG 2.5.
abbrev pub version_of : Bool → Bool → Version
version_of true true = mpeg1
version_of true false = mpeg2
version_of false lower = mpeg2_5

-- 01 is Layer III, 10 is Layer II, 11 is Layer I; for the unnamed 00 the program prints Layer I.
abbrev pub layer_of : Bool → Bool → Layer
layer_of true true = layer_i
layer_of true false = layer_ii
layer_of false true = layer_iii
layer_of false false = layer_i

-- From 32 kbps on the bitrates go up in quarters of a doubling, from 32 by 8 to 64, by 16 to 128, and so on;
-- 0 is free, and 15 is no bitrate.
abbrev pub bitrate_of : ℕ → Entry
bitrate_of i =
    if i == 0
    then number 0
    else if i == 15
    then minus_one
    else number ((4 + (i - 1) % 4) * 2 ^ (3 + (i - 1) / 4))

abbrev pub sample_rate_of : Bool → Bool → Entry
sample_rate_of false false = number 44100
sample_rate_of false true = number 48000
sample_rate_of true false = number 32000
sample_rate_of true true = minus_one

abbrev pub channel_mode_of : Bool → Bool → ChannelMode
channel_mode_of false false = stereo
channel_mode_of false true = joint_stereo
channel_mode_of true false = dual_channel
channel_mode_of true true = mono

abbrev pub emphasis_of : Bool → Bool → EmphasisMode
emphasis_of false false = no_emphasis
emphasis_of false true = us_50_15
emphasis_of true false = reserved_emphasis
emphasis_of true true = ccit_j_17

-- Four values at the numbers below four are those at the pairs of bits.
two_bits {ℓ} :
    {A : Type ℓ} (g : ℕ → A) (f : Bool → Bool → A)
    → g 0 ≡ f false false
    → g 1 ≡ f false true
    → g 2 ≡ f true false
    → g 3 ≡ f true true
    → (h k : ℕ) → g (h / 2 ^ k % 4) ≡ f (bit h (k + 1)) (bit h k)
two_bits g f zeroth first second third h k = ap g number_of_bits ∙ same (bit h (k + 1)) (bit h k)
  where
    next_bit : h / 2 ^ k / 2 ≡ h / 2 ^ (k + 1)
    next_bit = div-div-eq-div-mul h (2 ^ k) 2 ∙ ap (λ (d : ℕ). h / d) (sym (pow_add k 1))

    number_of_bits : h / 2 ^ k % 4 ≡ bit_value (bit h (k + 1)) * 2 + bit_value (bit h k)
    number_of_bits =
        omega (arith, bit_value-odd (h / 2 ^ k), bit_value-odd (h / 2 ^ (k + 1)), next_bit)

    same : (a b : Bool) → g (bit_value a * 2 + bit_value b) ≡ f a b
    same false false = zeroth
    same false true = first
    same true false = second
    same true true = third

-- The program's tests and tables say what the format does.
pub version_lem : (h k : ℕ) → version_name (h / 2 ^ k % 4) ≡ version_of (bit h (k + 1)) (bit h k)
version_lem = two_bits version_name version_of refl refl refl refl

pub layer_lem : (h k : ℕ) → layer_name (h / 2 ^ k % 4) ≡ layer_of (bit h (k + 1)) (bit h k)
layer_lem = two_bits layer_name layer_of refl refl refl refl

pub bitrate_lem : (i : ℕ) → i < 16 → get_elem? bitrate_table i ≡ some (bitrate_of i)
bitrate_lem i = get_elem?-tabulate bitrate_of 16 i

pub sample_rate_lem :
    (h k : ℕ)
    → get_elem? samplerate_table (h / 2 ^ k % 4) ≡ some (sample_rate_of (bit h (k + 1)) (bit h k))
sample_rate_lem =
    two_bits (get_elem? samplerate_table) (λ a b. some (sample_rate_of a b)) refl refl refl refl

pub channel_mode_lem :
    (h k : ℕ)
    → get_elem? channel_modes (h / 2 ^ k % 4) ≡ some (channel_mode_of (bit h (k + 1)) (bit h k))
channel_mode_lem =
    two_bits (get_elem? channel_modes) (λ a b. some (channel_mode_of a b)) refl refl refl refl

pub emphasis_lem :
    (h k : ℕ)
    → get_elem? emphasis_modes (h / 2 ^ k % 4) ≡ some (emphasis_of (bit h (k + 1)) (bit h k))
emphasis_lem =
    two_bits (get_elem? emphasis_modes) (λ a b. some (emphasis_of a b)) refl refl refl refl

pub yes_no_lem : (h k : ℕ) → yes_no (h / 2 ^ k % 2) ≡ bit h k
yes_no_lem h k = ap yes_no (sym (bit_value-odd (h / 2 ^ k))) ∙ same (bit h k)
  where
    same : (b : Bool) → yes_no (bit_value b) ≡ b
    same true = refl
    same false = refl
