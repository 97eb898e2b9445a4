-- ===== src/Word/Ends.antt =====
-- The shifts and masks end, whatever they are given.
use bitstream_h.Base.{ℕ, ltb, refl, Ends, undefines, done-Ends, if-Ends, >>=-Ends}
use bitstream_h.Word.{shl64, shr64, mask64}

pub shl64-Ends : (x k : ℕ) → Ends (shl64 x k) (λ y. Unit {0})
unfolding shl64
shl64-Ends x k = if-Ends (ltb k 64) (λ h. done-Ends _ tt) (λ h. undefines refl)

pub shr64-Ends : (x k : ℕ) → Ends (shr64 x k) (λ y. Unit {0})
unfolding shr64
shr64-Ends x k = if-Ends (ltb k 64) (λ h. done-Ends _ tt) (λ h. undefines refl)

pub mask64-Ends : (n : ℕ) → Ends (mask64 n) (λ y. Unit {0})
unfolding mask64
mask64-Ends n = >>=-Ends (shl64-Ends 1 n) (λ one h. done-Ends _ tt)
