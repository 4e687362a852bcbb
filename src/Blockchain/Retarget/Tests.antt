-- ===== src/Blockchain/Retarget/Tests.antt =====
-- Runs of the difficulty rules, and the theorems at concrete inputs.
use elastos_ela_side_chain.Common.{
  ℕ, ◌+◌, ◌-◌, ◌*◌, ◌^◌, ◌≤◌, ◌<◌, ◌≡◌, refl, false, List, [], ◌∷◌, arith, replicate,
}
use elastos_ela_side_chain.Common.Int.{pos, ◌*ℤ◌}
use elastos_ela_side_chain.Common.Result.{ok}
use elastos_ela_side_chain.Blockchain.Compact.{big_to_compact, compact_to_big, calc_work}
use elastos_ela_side_chain.Blockchain.Compact.Precision.{Rounds, compact_to_big-big_to_compact}
use elastos_ela_side_chain.Blockchain.Retarget.{
  ChainParams, BlockNode, max_retarget_timespan, adjusted_timespan, new_target,
  calc_next_required_difficulty, hash_to_big, check_proof_of_work,
}
use elastos_ela_side_chain.Blockchain.Retarget.Window.{
  calc_next_required_difficulty-IsChain, adjusted_timespan-backwards,
}
use elastos_ela_side_chain.Blockchain.Retarget.Limit.{
  IsWithin, calc_next_required_difficulty-IsWithin,
}
use elastos_ela_side_chain.Blockchain.Retarget.Work.{
  little_endian, hash_to_big-little_endian, check_proof_of_work-calc_work,
}

genesis_code : compact_to_big 0x1d03ffff ≡ pos (0x03ffff * 2 ^ 208)
unfolding compact_to_big
genesis_code = refl

encode_genesis : big_to_compact (pos (0x03ffff * 2 ^ 208)) ≡ 0x1d03ffff
unfolding big_to_compact
encode_genesis = refl

-- A mantissa with its top bit set takes one more byte of exponent.
encode_sign_bit : big_to_compact (pos 0x800000) ≡ 0x04008000
unfolding big_to_compact
encode_sign_bit = refl

-- The parameters with a window of four blocks.
abbrev params : ChainParams
params = record {
  is_reg_net = false;
  pow_limit = pos (2 ^ 255 - 1);
  pow_limit_bits = 0x207fffff;
  target_timespan = 480;
  target_time_per_block = 120;
  adjustment_factor = 4;
}

abbrev node : ℕ → ℕ → BlockNode
node h t = record { height = h; bits = 0x1d03ffff; timestamp = t }

abbrev ancestors : List BlockNode
ancestors = node 2 1240 ∷ node 1 1120 ∷ node 0 1000 ∷ []

-- Three blocks in 360 seconds where 480 are meant: the target shrinks by a quarter.
retarget_run : calc_next_required_difficulty params (node 3 1360) ancestors ≡ ok 0x1d02ffff
unfolding calc_next_required_difficulty new_target adjusted_timespan big_to_compact compact_to_big
    ◌*ℤ◌
retarget_run = refl

compact_to_big-big_to_compact_example :
    (m : ℕ) × (compact_to_big (big_to_compact (pos 0x12345678)) ≡ pos m) × Rounds 0x12345678 m
compact_to_big-big_to_compact_example =
    compact_to_big-big_to_compact 0x12345678 (omega arith) (omega arith)

calc_next_required_difficulty-IsChain_example :
    (bits : ℕ) × (calc_next_required_difficulty params (node 3 1360) ancestors ≡ ok bits)
calc_next_required_difficulty-IsChain_example =
    calc_next_required_difficulty-IsChain params (node 3 1360) ancestors (omega arith) (omega arith)
      (omega arith)

adjusted_timespan-backwards_example :
    adjusted_timespan params (node 3 1360) (node 0 1400) ≡ max_retarget_timespan params
adjusted_timespan-backwards_example =
    adjusted_timespan-backwards params (node 3 1360) (node 0 1400) (omega arith) (omega arith)
      (omega arith) (omega arith) (omega arith)

calc_next_required_difficulty-IsWithin_example : IsWithin (2 ^ 255 - 1) 0x1d02ffff
unfolding calc_next_required_difficulty new_target adjusted_timespan big_to_compact compact_to_big
    ◌*ℤ◌
calc_next_required_difficulty-IsWithin_example =
    calc_next_required_difficulty-IsWithin params (node 3 1360) ancestors (2 ^ 255 - 1) refl
      (omega arith) (omega arith) (omega arith) (0x7fffff * 2 ^ 232, refl, omega arith)
      (0x03ffff * 2 ^ 208, refl, omega arith) refl

-- A hash with a one in its lowest byte.
abbrev low_hash : List ℕ
low_hash = 1 ∷ replicate 31 0

check_proof_of_work-calc_work_example :
    (t w : ℕ) × (compact_to_big 0x1d03ffff ≡ pos t)
    × (calc_work 0x1d03ffff ≡ pos w)
    × (0 < t)
    × (t ≤ 2 ^ 255 - 1)
    × (little_endian low_hash ≤ t)
    × (1 ≤ w)
    × (w * (little_endian low_hash + 1) ≤ 2 ^ 256)
unfolding check_proof_of_work compact_to_big hash_to_big
check_proof_of_work-calc_work_example =
    check_proof_of_work-calc_work 0x1d03ffff low_hash (2 ^ 255 - 1) (omega arith) refl

hash_to_big-little_endian_example : hash_to_big (1 ∷ 2 ∷ []) ≡ pos 513
hash_to_big-little_endian_example = hash_to_big-little_endian (1 ∷ 2 ∷ [])
