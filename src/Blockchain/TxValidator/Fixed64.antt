-- ===== src/Blockchain/TxValidator/Fixed64.antt =====
-- Fixed64, an int64: a sum or a difference wraps around.
pub mod Sums
use elastos_ela_side_chain.Common.{ℕ, ◌-◌, ◌%◌, ◌^◌, ◌<◌, ◌≡◌, if◌then◌else◌, ltb, arith}
use elastos_ela_side_chain.Common.Int.{ℤ, pos, negsuc, ◌+ℤ◌, ◌-ℤ◌}

-- The int64 of the bits of a uint64.
abbrev pub to_int64 : ℕ → ℤ
to_int64 n = if ltb n (2 ^ 63) then pos n else negsuc (2 ^ 64 - 1 - n)

abbrev pub wrap64 : ℤ → ℤ
wrap64 (pos n) = to_int64 (n % 2 ^ 64)
wrap64 (negsuc n) = to_int64 (2 ^ 64 - 1 - n % 2 ^ 64)

abbrev pub add64 : ℤ → ℤ → ℤ
add64 a b = wrap64 (a +ℤ b)

abbrev pub sub64 : ℤ → ℤ → ℤ
sub64 a b = wrap64 (a -ℤ b)

-- A number that an int64 holds.
wrap64-small : (n : ℕ) → n < 2 ^ 63 → wrap64 (pos n) ≡ pos n
wrap64-small n h = ground arith
