-- ===== src/Examples/Sensor.antt =====
-- examples/sensor_protocol.c: sensor readings packed into 23 bits each, written to a shared buffer and
-- read back, less the conversion of temperatures from and to degrees,
-- and of the printing with only the loop over the raw bytes.
pub mod Layout
pub mod Transfer
use bitstream_h.Base.{
  ℕ, ◌==◌, ◌&&◌, not, if◌then◌else◌, Bool, true, false, List, [], ◌∷◌, Outcome, done, ◌>>=◌,
}
use bitstream_h.Word.{u8, u16}
use bitstream_h.BitString.{bit_value}
use bitstream_h.Reader.{Reader, reader_init}
use bitstream_h.Reader.Msb.{read_bits}
use bitstream_h.Writer.{Writer, writer_init, writer_bytes_written}
use bitstream_h.Writer.Msb.{write_bits, writer_flush}
use bitstream_h.Examples.Hex.{hex_byte, hex_bytes}

pub record Reading : Type 0 where
  pub device_id : ℕ
  pub battery_low : Bool
  pub temp_raw : ℕ
  pub humidity : ℕ
  pub alert : Bool

pub encode_reading : Writer → Reading → Outcome Writer
encode_reading bw r = do
  bw ← write_bits bw r.device_id 4
  bw ← write_bits bw (bit_value r.battery_low) 1
  bw ← write_bits bw r.temp_raw 10
  bw ← write_bits bw r.humidity 7
  bw ← write_bits bw (bit_value r.alert) 1
  done bw

-- `(bool)x`
abbrev pub to_bool : ℕ → Bool
to_bool x = not (x == 0)

-- The struct with the casts of its fields.
abbrev pub as_reading : ℕ → ℕ → ℕ → ℕ → ℕ → Reading
as_reading device_id battery_low temp_raw humidity alert = record {
  device_id = u8 device_id;
  battery_low = to_bool battery_low;
  temp_raw = u16 temp_raw;
  humidity = u8 humidity;
  alert = to_bool alert;
}

pub decode_reading : Reader → Outcome (Reading × Reader)
decode_reading br = do
  (device_id, br) ← read_bits br 4
  (battery_low, br) ← read_bits br 1
  (temp_raw, br) ← read_bits br 10
  (humidity, br) ← read_bits br 7
  (alert, br) ← read_bits br 1
  done (as_reading device_id battery_low temp_raw humidity alert, br)

pub encode_readings : Writer → List Reading → Outcome Writer
encode_readings bw [] = done bw
encode_readings bw (r ∷ rs) = do bw ← encode_reading bw r; encode_readings bw rs

-- `==` of two flags.
abbrev pub same_flag : Bool → Bool → Bool
same_flag true b = b
same_flag false b = not b

-- The negation of the test for a mismatch.
abbrev pub same_reading : Reading → Reading → Bool
same_reading r s =
    (r.device_id == s.device_id)
    && same_flag r.battery_low s.battery_low
    && (r.temp_raw == s.temp_raw)
    && (r.humidity == s.humidity)
    && same_flag r.alert s.alert

-- Decodes one reading after another; the exit code is 1 at the first mismatch.
pub decode_readings : Reader → List Reading → Outcome ℕ
decode_readings br [] = done 0
decode_readings br (expected ∷ rest) = do
  (r, br) ← decode_reading br
  let later = decode_readings br rest
  if same_reading r expected then later else done 1

-- `main` for any readings and any buffer. The listing of the raw bytes reads the buffer.
pub transfer : List Reading → List ℕ → ℕ → Outcome ℕ
transfer readings wire size = do
  bw ← encode_readings (writer_init wire size) readings
  bw ← writer_flush bw
  raw_bytes ← hex_bytes hex_byte bw.buffer 0 (writer_bytes_written bw)
  decode_readings (reader_init bw.buffer (writer_bytes_written bw)) readings
