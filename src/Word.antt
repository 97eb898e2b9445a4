-- ===== src/Word.antt =====
-- The machine words of C on a platform with a 64-bit `size_t` and a 32-bit `unsigned int`: the
-- casts, shifts and masks that bitstream.h writes out.
mod Step
pub mod Laws
pub mod Complement
pub mod Ends
pub mod Bounds
use bitstream_h.Base.{
  ℕ, ◌+◌, ◌-◌, ◌*◌, ◌/◌, ◌%◌, ◌^◌, if◌then◌else◌, ltb, Outcome, done, undefined, ◌>>=◌, ◌==◌,
}

abbrev pub u8 : ℕ → ℕ
u8 x = x % 2 ^ 8

abbrev pub u16 : ℕ → ℕ
u16 x = x % 2 ^ 16

abbrev pub u32 : ℕ → ℕ
u32 x = x % 2 ^ 32

abbrev pub u64 : ℕ → ℕ
u64 x = x % 2 ^ 64

-- Subtraction of `unsigned int` and of 64-bit words wraps; `-` on ℕ stops at 0.
abbrev pub sub32 : ℕ → ℕ → ℕ
sub32 a b = u32 (a + 2 ^ 32 - b)

abbrev pub sub64 : ℕ → ℕ → ℕ
sub64 a b = u64 (a + 2 ^ 64 - b)

-- A shift of a `uint64_t` by 64 or more is undefined.
unfoldable pub shl64 : ℕ → ℕ → Outcome ℕ
shl64 x k = if ltb k 64 then done (u64 (x * 2 ^ k)) else undefined

unfoldable pub shr64 : ℕ → ℕ → Outcome ℕ
shr64 x k = if ltb k 64 then done (x / 2 ^ k) else undefined

-- That of a `uint32_t` by 32 or more too.
unfoldable pub shr32 : ℕ → ℕ → Outcome ℕ
shr32 x k = if ltb k 32 then done (x / 2 ^ k) else undefined

-- `(1ULL << n) - 1`
unfoldable pub mask64 : ℕ → Outcome ℕ
unfolding shl64
mask64 n = do one ← shl64 1 n; done (sub64 one 1)

-- Division by zero is undefined.
unfoldable pub div64 : ℕ → ℕ → Outcome ℕ
div64 a b = if b == 0 then undefined else done (a / b)
