-- ===== src/Blockchain/Retarget/Work.antt =====
-- The proof of work of blockchain/blockvalidator.go and the work of blockchain/blockchain.go.
use native.Mathlib.Nat.{div-mul-le_self, mul-le-mul_left, le-div_iff_mul-le}
use mathlib.Core.List.{foldl, reverse-cons}
use elastos_ela_side_chain.Common.{
  ℕ, ◌+◌, ◌*◌, ◌/◌, ◌^◌, ◌≤◌, ◌<◌, ◌≡◌, refl, ap, List, [], ◌∷◌, ◌++◌, arith,
}
use elastos_ela_side_chain.Common.Int.{ℤ, pos, negsuc, leb_ℤ, ltb_ℤ, pos-injective}
use elastos_ela_side_chain.Common.Result.{ok, fail_if, ◌>>◌}
use elastos_ela_side_chain.Blockchain.Compact.{compact_to_big, calc_work}
use elastos_ela_side_chain.Blockchain.Retarget.{
  hash_to_big, target_too_low, target_too_high, hash_above_target, check_proof_of_work,
}

-- The number that a string of bytes stands for, lowest byte first.
abbrev pub little_endian : List ℕ → ℕ
little_endian [] = 0
little_endian (b ∷ bytes) = b + 256 * little_endian bytes

set_bytes-append_one :
    (bytes : List ℕ) (acc b : ℕ)
    → foldl (λ a c. a * 256 + c) acc (bytes ++ b ∷ [])
      ≡ foldl (λ a c. a * 256 + c) acc bytes * 256 + b
set_bytes-append_one [] acc b = refl
set_bytes-append_one (c ∷ bytes) acc b = set_bytes-append_one bytes (acc * 256 + c) b

-- `HashToBig` reads a hash as a number with the lowest byte first.
pub hash_to_big-little_endian : (hash : List ℕ) → hash_to_big hash ≡ pos (little_endian hash)
unfolding hash_to_big
hash_to_big-little_endian [] = refl
hash_to_big-little_endian (b ∷ hash) =
    rw (reverse-cons, set_bytes-append_one)
      (ap pos (omega (arith, pos-injective (hash_to_big-little_endian hash))))

work_counted : (t : ℕ) → t < 2 ^ 256 → 1 ≤ 2 ^ 256 / (t + 1)
work_counted t h = (le-div_iff_mul-le {k = t + 1} (omega arith)).1 (omega arith)

-- A hash that passes the check is at most the target, the target is positive and within the limit,
-- and the work that the chain counts for it is at least one and at most what the hash shows:
-- the work times the hash plus one is at most 2 ^ 256.
pub check_proof_of_work-calc_work :
    (bits : ℕ) (hash : List ℕ) (limit : ℕ)
    → limit < 2 ^ 256
    → check_proof_of_work bits hash (pos limit) ≡ ok tt
    → (t w : ℕ) × (compact_to_big bits ≡ pos t)
      × (calc_work bits ≡ pos w)
      × (0 < t)
      × (t ≤ limit)
      × (little_endian hash ≤ t)
      × (1 ≤ w)
      × (w * (little_endian hash + 1) ≤ 2 ^ 256)
unfolding check_proof_of_work calc_work
check_proof_of_work-calc_work bits hash limit small passes =
    go (compact_to_big bits) refl (rw hash_to_big-little_endian at passes)
  where
    go :
        (target : ℤ)
        → compact_to_big bits ≡ target
        → (fail_if (leb_ℤ target (pos 0)) target_too_low
            >> (fail_if (ltb_ℤ (pos limit) target) target_too_high
                >> fail_if (ltb_ℤ target (pos (little_endian hash))) hash_above_target))
          ≡ ok tt
        → (t w : ℕ) × (compact_to_big bits ≡ pos t)
          × (calc_work bits ≡ pos w)
          × (0 < t)
          × (t ≤ limit)
          × (little_endian hash ≤ t)
          × (1 ≤ w)
          × (w * (little_endian hash + 1) ≤ 2 ^ 256)
    go (negsuc n) e passes = absurd (ground arith)
    go (pos t) e passes =
        let positive : 0 < t = ground arith in
        let within : t ≤ limit = ground arith in
        let shown : little_endian hash ≤ t = ground arith in
        let w : ℕ = 2 ^ 256 / (t + 1) in
        let scaled : w * (little_endian hash + 1) ≤ w * (t + 1) = mul-le-mul_left w (omega arith) in
        let whole : w * (t + 1) ≤ 2 ^ 256 = div-mul-le_self (2 ^ 256) (t + 1) in
        (
          t,
          w,
          e,
          rw e (ground arith),
          positive,
          within,
          shown,
          work_counted t (omega arith),
          omega arith,
        )
