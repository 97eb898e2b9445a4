-- ===== src/Examples/Mp3Header/Lookup.antt =====
-- What the program prints for a header: no table is read outside its entries.
use bitstream_h.Base.{not, Option, if◌then◌else◌, ◌==◌, ℕ, ◌/◌, ◌%◌, ◌^◌, ◌≡◌, none, some}
use bitstream_h.Examples.Mp3Header.{Lines}
use bitstream_h.BitString.{bit_value}
use bitstream_h.Examples.Mp3Header.Format.{
  bit, version_of, layer_of, bitrate_of, sample_rate_of, channel_mode_of, emphasis_of,
}

-- The lines name the fields of the header `h` as the format says.
pub record Names (h : ℕ) (lines : Lines) : Type 0 where
  pub version : lines.version ≡ version_of (bit h 20) (bit h 19)
  pub layer : lines.layer ≡ layer_of (bit h 18) (bit h 17)
  pub crc_protected : lines.crc_protected ≡ not (bit h 16)
  pub bitrate : lines.bitrate ≡ bitrate_of (h / 2 ^ 12 % 16)
  pub sample_rate : lines.sample_rate ≡ sample_rate_of (bit h 11) (bit h 10)
  pub padding : lines.padding ≡ bit h 9
  pub private_bit : lines.private_bit ≡ bit_value (bit h 8)
  pub channel_mode : lines.channel_mode ≡ channel_mode_of (bit h 7) (bit h 6)
  pub mode_extension : lines.mode_extension ≡ h / 2 ^ 4 % 4
  pub copyright : lines.copyright ≡ bit h 3
  pub original : lines.original ≡ bit h 2
  pub emphasis : lines.emphasis ≡ emphasis_of (bit h 1) (bit h 0)
  pub all_read : lines.bits_remaining ≡ 0

-- What `main` comes to on the header `h`: with the upper eleven bits set it returns 0 and names the fields,
-- and else it returns 1 and prints no line of the header.
abbrev pub Reports : ℕ → ℕ × Option Lines → Type 0
Reports h p =
    if h / 2 ^ 21 == 0x7FF
    then ((lines : Lines) × (p ≡ (0, some lines)) × Names h lines)
    else p ≡ (1, none)
