-- ===== src/Blockchain/Compact.antt =====
-- blockchain/difficulty.go and the compact encoding that blockchain/blockchain.go repeats: target
-- difficulties in their 32-bit form, the work of a target, and the retarget rule.
-- A big.Int is an integer without bound; a uint32 is a number with its wrap-around written out.
pub mod Precision
use Prim.Native.Nat.{bit_or}
use elastos_ela_side_chain.Common.{
  ℕ, zero, suc, ◌+◌, ◌-◌, ◌*◌, ◌/◌, ◌%◌, ◌^◌, Bool, leb, ◌==◌, if◌then◌else◌,
}
use elastos_ela_side_chain.Common.Int.{ℤ, pos, negsuc, ◌-ℤ◌, ltb_ℤ}

-- The magnitude of an integer: `Bits` and `Bytes` of a big.Int leave the sign out.
abbrev pub magnitude : ℤ → ℕ
magnitude (pos n) = n
magnitude (negsuc n) = suc n

abbrev pub sign : ℤ → ℤ
sign (pos zero) = pos 0
sign (pos (suc _)) = pos 1
sign (negsuc _) = negsuc 0

-- `Rsh` of a big.Int shifts arithmetically: it rounds down.
abbrev pub shift_right : ℤ → ℕ → ℤ
shift_right (pos n) k = pos (n / 2 ^ k)
shift_right (negsuc n) k = negsuc (n / 2 ^ k)

-- `Lsh` of a big.Int.
abbrev pub shift_left : ℤ → ℕ → ℤ
shift_left (pos n) k = pos (n * 2 ^ k)
shift_left (negsuc n) k = negsuc (suc n * 2 ^ k - 1)

-- `Div` of a big.Int by a positive divisor rounds down.
abbrev pub div_ℤ : ℤ → ℕ → ℤ
div_ℤ (pos n) d = pos (n / d)
div_ℤ (negsuc n) d = negsuc (n / d)

-- `len(n.Bytes())`: how many bytes the magnitude takes, the fuel being the number itself.
bytes_fuel : ℕ → ℕ → ℕ
bytes_fuel zero n = 0
bytes_fuel (suc f) n = let rest = bytes_fuel f (n / 256) in if n == 0 then 0 else 1 + rest

unfoldable pub byte_length : ℕ → ℕ
unfolding bytes_fuel
byte_length n = bytes_fuel n n

-- The mantissa before the sign bit is cleared: the top three bytes of the number.
unfoldable pub raw_mantissa : ℤ → ℕ → ℕ
raw_mantissa n exponent =
    if leb exponent 3
    then magnitude n % 2 ^ 32 * 2 ^ (8 * (3 - exponent)) % 2 ^ 32
    else magnitude (shift_right n (8 * (exponent - 3))) % 2 ^ 32

-- `uint32(exponent<<24) | mantissa`, and the sign bit.
unfoldable pub pack_compact : ℤ → ℕ → ℕ → ℕ
pack_compact n exponent mantissa =
    let compact = bit_or (exponent * 2 ^ 24 % 2 ^ 32) mantissa in
    if ltb_ℤ n (pos 0) then bit_or compact (2 ^ 23) else compact

-- `BigToCompact`. The test of bit 23 is the parity of the number shifted by 23.
unfoldable pub big_to_compact : ℤ → ℕ
unfolding byte_length raw_mantissa pack_compact
big_to_compact n =
    if magnitude n == 0
    then 0
    else let exponent = byte_length (magnitude n) in
      let mantissa = raw_mantissa n exponent in
      if mantissa / 2 ^ 23 % 2 == 1
      then pack_compact n (exponent + 1) (mantissa / 2 ^ 8)
      else pack_compact n exponent mantissa

-- `CompactToBig`, from the mantissa, the sign bit and the exponent on.
unfoldable pub unpack_compact : ℕ → Bool → ℕ → ℤ
unpack_compact mantissa is_negative exponent =
    let bn =
      if leb exponent 3
      then pos (mantissa / 2 ^ (8 * (3 - exponent)))
      else shift_left (pos mantissa) (8 * (exponent - 3)) in
    if is_negative then pos 0 -ℤ bn else bn

-- `CompactToBig`, which `compactToBig` of blockchain/blockchain.go repeats.
unfoldable pub compact_to_big : ℕ → ℤ
unfolding unpack_compact
compact_to_big compact =
    unpack_compact (compact % 2 ^ 23) (compact / 2 ^ 23 % 2 == 1) (compact / 2 ^ 24)

-- `CalcWork`: 2^256 divided by the target plus one.
unfoldable pub calc_work : ℕ → ℤ
calc_work bits =
    let difficulty_num = compact_to_big bits in
    if ltb_ℤ (pos 0) difficulty_num then pos (2 ^ 256 / (magnitude difficulty_num + 1)) else pos 0
