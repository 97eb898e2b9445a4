-- ===== src/Examples/Sensor/Layout.antt =====
-- A reading of the sensor protocol as fields, and what it is decoded as.
use native.Mathlib.Decide.{dec_lt}
use native.Mathlib.Nat.{mod-lt}
use bitstream_h.Base.{
  ℕ, ◌^◌, ◌≤◌, ◌<◌, ◌≡◌, refl, ap, ◌∙◌, arith, append_assoc, Bool, true, false, List, [], ◌∷◌, ◌++◌,
  Returns, done-Returns, >>=-Returns, eq→==, ne→==, ltb, lt→ltb, not_lt→ltb, ◌%◌, ◌==◌, ◌&&◌,
}
use native.Mathlib.Nat.{mod-eq_of_lt}
use bitstream_h.Reader.Msb.{read_bits}
use bitstream_h.BitString.{msb_first, bits, bit_value}
use bitstream_h.Reader.{Reader}
use bitstream_h.Reader.State.{IsReader, IsAt, IsAt-trans, remaining}
use bitstream_h.Reader.Interface.{msb_reader, read_field}
use bitstream_h.Writer.{Writer}
use bitstream_h.Writer.Interface.{msb_writer}
use bitstream_h.RoundTrip.{Field, write_fields, fields_bits}
use bitstream_h.Examples.Sensor.{
  Reading, encode_reading, decode_reading, same_reading, same_flag, to_bool, as_reading,
}

-- A reading with its values cut to the widths of their fields.
abbrev pub decoded : Reading → Reading
decoded r = record r {
  device_id = r.device_id % 16;
  temp_raw = r.temp_raw % 1024;
  humidity = r.humidity % 128;
}

-- Whether the values fit the widths of their fields.
abbrev pub fits_widths : Reading → Bool
fits_widths r = ltb r.device_id 16 && ltb r.temp_raw 1024 && ltb r.humidity 128

abbrev pub reading_fields : Reading → List Field
reading_fields r =
    (r.device_id, 4)
    ∷ (bit_value r.battery_low, 1)
    ∷ (r.temp_raw, 10)
    ∷ (r.humidity, 7)
    ∷ (bit_value r.alert, 1)
    ∷ []

pub encode_reading-eq-write_fields :
    (w : Writer) (r : Reading) → encode_reading w r ≡ write_fields msb_writer (reading_fields r) w
unfolding encode_reading write_fields
encode_reading-eq-write_fields w r = refl

same_flag_self : (b : Bool) → same_flag b b ≡ true
same_flag_self true = refl
same_flag_self false = refl

same_remainder : (x m : ℕ) → 0 < m → (x % m == x) ≡ ltb x m
same_remainder x m pos = elim (dec_lt x m) [
  | yes below ↦ rw (lt→ltb x m below, mod-eq_of_lt below) (eq→== x x refl)
  | no above ↦
      let below_m : x % m < m = mod-lt x pos in
      rw (not_lt→ltb x m above) (ne→== (x % m) x (λ e. above (omega (arith, e, below_m))))
]

-- A reading is the one that it is decoded as if its values fit their widths.
pub same_reading-decoded : (r : Reading) → same_reading (decoded r) r ≡ fits_widths r
same_reading-decoded r =
    rw
      (
        same_remainder r.device_id 16 (omega arith),
        same_remainder r.temp_raw 1024 (omega arith),
        same_remainder r.humidity 128 (omega arith),
        same_flag_self r.battery_low,
        same_flag_self r.alert,
      )
      (ground arith)

flag_lem : (x : ℕ) (b : Bool) → x ≡ bit_value b % 2 ^ 1 → to_bool x ≡ b
flag_lem x true e = ap to_bool e
flag_lem x false e = ap to_bool e

as_reading_lem :
    (r : Reading) {d b t h k : ℕ}
    → d ≡ r.device_id % 2 ^ 4
    → b ≡ bit_value r.battery_low % 2 ^ 1
    → t ≡ r.temp_raw % 2 ^ 10
    → h ≡ r.humidity % 2 ^ 7
    → k ≡ bit_value r.alert % 2 ^ 1
    → as_reading d b t h k ≡ decoded r
as_reading_lem r {d} {b} {t} {h} {k} ed eb et eh ek =
    rw
      (
        flag_lem b r.battery_low eb,
        flag_lem k r.alert ek,
        mod-eq_of_lt {n = d} {m = 2 ^ 8} (omega (arith, ed)),
        mod-eq_of_lt {n = t} {m = 2 ^ 16} (omega (arith, et)),
        mod-eq_of_lt {n = h} {m = 2 ^ 8} (omega (arith, eh)),
        ed,
        et,
        eh,
      )
      refl

-- From the bits of a reading `decode_reading` returns it with its values cut to their widths.
pub decode_reading-IsAt :
    (br : Reader) (r : Reading) (rest : List Bool)
    → IsReader msb_first br
    → remaining msb_first br ≡ fields_bits msb_first (reading_fields r) ++ rest
    → Returns (decode_reading br) (λ p. (p.0 ≡ decoded r) × IsAt msb_first br p.1 rest)
unfolding decode_reading
decode_reading-IsAt br r rest v front = >>=-Returns (next _ _ br v (omega arith) front) (λ d a.
    >>=-Returns (next _ _ d.1 a.1.is_reader (omega arith) a.1.at) (λ b c.
      >>=-Returns (next _ _ b.1 c.1.is_reader (omega arith) c.1.at) (λ t e.
        >>=-Returns (next _ _ t.1 e.1.is_reader (omega arith) e.1.at) (λ h g.
          >>=-Returns (next _ _ h.1 g.1.is_reader (omega arith) g.1.at) (λ k l. done-Returns _ (
            as_reading_lem r a.0 c.0 e.0 g.0 l.0,
            IsAt-trans a.1
                (IsAt-trans c.1 (IsAt-trans e.1 (IsAt-trans g.1 (unfold fields_bits in l.1)))),
          ))))))
  where
    next :
        (f : Field) (fs : List Field) (b : Reader)
        → IsReader msb_first b
        → f.1 ≤ 32
        → remaining msb_first b ≡ fields_bits msb_first (f ∷ fs) ++ rest
        → Returns
            (read_bits b f.1)
            (λ p. (p.0 ≡ f.0 % 2 ^ f.1) × IsAt msb_first b p.1 (fields_bits msb_first fs ++ rest))
    next f fs b u narrow e =
        read_field msb_first msb_reader b f.1 f.0 (fields_bits msb_first fs ++ rest) u narrow (
          e
          ∙ unfold fields_bits in
            append_assoc (bits msb_first f.1 f.0) (fields_bits msb_first fs) rest)
