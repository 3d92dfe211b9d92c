-- ===== src/Base/Word.antt =====
-- Go's `int64`: a signed integer with its wrap-around written out.
use Prim.Native.Nat.{ℕ, ◌-◌, ◌%◌, ◌^◌, ◌≤◌, ◌<◌}
use mathlib.Core.Path.{◌≡◌}
use native.Mathlib.Omega.{arith}
use ai_peer.Base.Tests.{ltb, if◌then◌else◌}
use ai_peer.Base.Int.{ℤ, pos, negsuc, pos_part, neg_part, ◌+ℤ◌, ◌*ℤ◌, ◌-ℤ◌}

-- The value modulo 2 ^ 64, as a number below 2 ^ 64.
abbrev bits64 : ℤ → ℕ
bits64 (pos n) = n % 2 ^ 64
bits64 (negsuc n) = 2 ^ 64 - 1 - n % 2 ^ 64

abbrev signed64 : ℕ → ℤ
signed64 b = if ltb b (2 ^ 63) then pos b else negsuc (2 ^ 64 - 1 - b)

unfoldable pub wrap64 : ℤ → ℤ
wrap64 z = signed64 (bits64 z)

abbrev pub Int64 : ℤ → Type 0
Int64 z = (pos_part z < 2 ^ 63) × (neg_part z ≤ 2 ^ 63)

pub wrap64-Int64 : (z : ℤ) → Int64 (wrap64 z)
unfolding wrap64
wrap64-Int64 (pos n) = ground arith
wrap64-Int64 (negsuc n) = ground arith

pub wrap64_of_Int64 : (z : ℤ) → Int64 z → wrap64 z ≡ z
unfolding wrap64
wrap64_of_Int64 (pos n) h = ground arith
wrap64_of_Int64 (negsuc n) h = ground arith

pub wrap64_small : (n : ℕ) → n < 2 ^ 63 → wrap64 (pos n) ≡ pos n
unfolding wrap64
wrap64_small n h = ground arith

-- A sum of two int64 values that passes 2 ^ 63 comes out negative.
pub wrap64_overflow : (n : ℕ) → 2 ^ 63 ≤ n → n < 2 ^ 64 → wrap64 (pos n) ≡ negsuc (2 ^ 64 - 1 - n)
unfolding wrap64
wrap64_overflow n h k = ground arith

unfoldable pub add64 : ℤ → ℤ → ℤ
add64 a b = wrap64 (a +ℤ b)

unfoldable pub sub64 : ℤ → ℤ → ℤ
sub64 a b = wrap64 (a -ℤ b)

unfoldable pub mul64 : ℤ → ℤ → ℤ
mul64 a b = wrap64 (a *ℤ b)
