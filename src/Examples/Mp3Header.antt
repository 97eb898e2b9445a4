-- ===== src/Examples/Mp3Header.antt =====
-- examples/decode_mp3_header.c: the fields of a frame header, and the tables that name them. A text
-- that the program prints is a constructor with its words; the layout of the lines is left out.
pub mod Layout
pub mod Format
pub mod Lookup
use bitstream_h.Base.{
  ℕ, ◌==◌, if◌then◌else◌, not, Bool, List, [], ◌∷◌, get_elem?, Option, none, some, Outcome, done,
  ◌>>=◌, access,
}
use bitstream_h.Reader.{Reader, reader_init, reader_bits_left}
use bitstream_h.Reader.Msb.{read_bits}

-- An `int` of a table: all are numbers but the entry -1.
pub data Entry : Type 0 where
  number : ℕ → Entry
  minus_one : Entry

pub data ChannelMode : Type 0 where
  stereo joint_stereo dual_channel mono : ChannelMode

pub data EmphasisMode : Type 0 where
  no_emphasis us_50_15 reserved_emphasis ccit_j_17 : EmphasisMode

pub data Version : Type 0 where
  mpeg1 mpeg2 mpeg2_5 : Version

pub data Layer : Type 0 where
  layer_iii layer_ii layer_i : Layer

abbrev pub bitrate_table : List Entry
bitrate_table =
    number 0
    ∷ number 32
    ∷ number 40
    ∷ number 48
    ∷ number 56
    ∷ number 64
    ∷ number 80
    ∷ number 96
    ∷ number 112
    ∷ number 128
    ∷ number 160
    ∷ number 192
    ∷ number 224
    ∷ number 256
    ∷ number 320
    ∷ minus_one
    ∷ []

abbrev pub samplerate_table : List Entry
samplerate_table = number 44100 ∷ number 48000 ∷ number 32000 ∷ minus_one ∷ []

abbrev pub channel_modes : List ChannelMode
channel_modes = stereo ∷ joint_stereo ∷ dual_channel ∷ mono ∷ []

abbrev pub emphasis_modes : List EmphasisMode
emphasis_modes = no_emphasis ∷ us_50_15 ∷ reserved_emphasis ∷ ccit_j_17 ∷ []

-- The local variables of `main`.
pub record Header : Type 0 where
  pub sync : ℕ
  pub version : ℕ
  pub layer : ℕ
  pub protection : ℕ
  pub bitrate_idx : ℕ
  pub srate_idx : ℕ
  pub padding : ℕ
  pub private_bit : ℕ
  pub channel : ℕ
  pub mode_ext : ℕ
  pub copyright : ℕ
  pub original : ℕ
  pub emphasis : ℕ

-- What the lines printed say of the fields, and the last of them of the bits left. The raw bytes and
-- the sync word, printed above them, are left out.
pub record Lines : Type 0 where
  pub version : Version
  pub layer : Layer
  pub crc_protected : Bool
  pub bitrate : Entry
  pub sample_rate : Entry
  pub padding : Bool
  pub private_bit : ℕ
  pub channel_mode : ChannelMode
  pub mode_extension : ℕ
  pub copyright : Bool
  pub original : Bool
  pub emphasis : EmphasisMode
  pub bits_remaining : ℕ

-- The thirteen reads, in order.
pub read_header : Reader → Outcome (Header × Reader)
read_header bs = do
  (sync, bs) ← read_bits bs 11
  (version, bs) ← read_bits bs 2
  (layer, bs) ← read_bits bs 2
  (protection, bs) ← read_bits bs 1
  (bitrate_idx, bs) ← read_bits bs 4
  (srate_idx, bs) ← read_bits bs 2
  (padding, bs) ← read_bits bs 1
  (private_bit, bs) ← read_bits bs 1
  (channel, bs) ← read_bits bs 2
  (mode_ext, bs) ← read_bits bs 2
  (copyright, bs) ← read_bits bs 1
  (original, bs) ← read_bits bs 1
  (emphasis, bs) ← read_bits bs 2
  done (
    record {
      sync = sync;
      version = version;
      layer = layer;
      protection = protection;
      bitrate_idx = bitrate_idx;
      srate_idx = srate_idx;
      padding = padding;
      private_bit = private_bit;
      channel = channel;
      mode_ext = mode_ext;
      copyright = copyright;
      original = original;
      emphasis = emphasis;
    },
    bs,
  )

abbrev pub version_name : ℕ → Version
version_name v = if v == 3 then mpeg1 else if v == 2 then mpeg2 else mpeg2_5

abbrev pub layer_name : ℕ → Layer
layer_name l = if l == 1 then layer_iii else if l == 2 then layer_ii else layer_i

-- `x ? "Yes" : "No"`
abbrev pub yes_no : ℕ → Bool
yes_no x = not (x == 0)

-- The lines for the fields of a header: each lookup is an access to its table.
pub print_header : Header → ℕ → Outcome Lines
print_header h left = do
  bitrate ← access (get_elem? bitrate_table h.bitrate_idx)
  sample_rate ← access (get_elem? samplerate_table h.srate_idx)
  channel_mode ← access (get_elem? channel_modes h.channel)
  emphasis ← access (get_elem? emphasis_modes h.emphasis)
  done (record {
    version = version_name h.version;
    layer = layer_name h.layer;
    crc_protected = not (yes_no h.protection);
    bitrate = bitrate;
    sample_rate = sample_rate;
    padding = yes_no h.padding;
    private_bit = h.private_bit;
    channel_mode = channel_mode;
    mode_extension = h.mode_ext;
    copyright = yes_no h.copyright;
    original = yes_no h.original;
    emphasis = emphasis;
    bits_remaining = left;
  })

-- `main` for any header: the exit code, and the lines printed where the sync word is right.
pub run : List ℕ → Outcome (ℕ × Option Lines)
run raw_header = do
  (h, bs) ← read_header (reader_init raw_header 4)
  let shown = do lines ← print_header h (reader_bits_left bs); done (0, some lines)
  if h.sync == 0x7FF then shown else done (1, none)
