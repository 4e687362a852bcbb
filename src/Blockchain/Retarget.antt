-- ===== src/Blockchain/Retarget.antt =====
-- blockchain/difficulty.go: the difficulty that the next block must have, and
-- blockchain/blockvalidator.go: the proof of work that a block must show.
-- A block node is what the rules read of it; the nodes that its `Parent` pointers lead to are a list.
pub mod Window
pub mod Limit
pub mod Work
mod Tests
use mathlib.Core.List.{reverse, foldl}
use elastos_ela_side_chain.Common.{
  ℕ, ◌+◌, ◌-◌, ◌*◌, ◌/◌, ◌%◌, ◌^◌, Bool, ◌||◌, Option, none, some, List, [], ◌∷◌, ltb, ◌==◌,
  if◌then◌else◌,
}
use elastos_ela_side_chain.Common.Int.{ℤ, pos, ◌*ℤ◌, ltb_ℤ, leb_ℤ}
use elastos_ela_side_chain.Common.Result.{Result, ok, ◌>>=◌, ◌>>◌, fail_if, or_panic, panic}
use elastos_ela_side_chain.Blockchain.Compact.{div_ℤ, big_to_compact, compact_to_big}

-- `config.ChainParams`, times in seconds. `Name` is read only by its test against "RegNet".
pub record ChainParams : Type 0 where
  pub is_reg_net : Bool
  pub pow_limit : ℤ
  pub pow_limit_bits : ℕ
  pub target_timespan : ℕ
  pub target_time_per_block : ℕ
  pub adjustment_factor : ℕ

abbrev pub blocks_per_retarget : ChainParams → ℕ
blocks_per_retarget p = p.target_timespan / p.target_time_per_block % 2 ^ 32

abbrev pub min_retarget_timespan : ChainParams → ℕ
min_retarget_timespan p = p.target_timespan / p.adjustment_factor

abbrev pub max_retarget_timespan : ChainParams → ℕ
max_retarget_timespan p = p.target_timespan * p.adjustment_factor

pub record BlockNode : Type 0 where
  pub height : ℕ
  pub bits : ℕ
  pub timestamp : ℕ

-- The subtraction of two uint32.
abbrev pub sub32 : ℕ → ℕ → ℕ
sub32 a b = (a + 2 ^ 32 - b) % 2 ^ 32

-- The loop that follows `Parent` to the node of a height; past the last node it stands on nil.
unfoldable pub find_height : ℕ → List BlockNode → Option BlockNode
find_height height [] = none
find_height height (node ∷ parents) =
    if node.height == height then some node else find_height height parents

pub data DifficultyError : Type 0 where
  no_retarget_block : DifficultyError

-- The seconds that the last window took, held within the adjustment factor.
unfoldable pub adjusted_timespan : ChainParams → BlockNode → BlockNode → ℕ
adjusted_timespan p prev first =
    let actual = sub32 prev.timestamp first.timestamp in
    if ltb actual (min_retarget_timespan p)
    then min_retarget_timespan p
    else if ltb (max_retarget_timespan p) actual
    then max_retarget_timespan p
    else actual

-- The new target before it is encoded.
unfoldable pub new_target : ChainParams → BlockNode → BlockNode → ℤ
new_target p prev first =
    let target =
      div_ℤ (compact_to_big prev.bits *ℤ pos (adjusted_timespan p prev first)) p.target_timespan in
    if ltb_ℤ p.pow_limit target then p.pow_limit else target

-- The height at which the window that ends at a node begins.
abbrev pub window_start : ChainParams → BlockNode → ℕ
window_start p prev = (sub32 prev.height (blocks_per_retarget p) + 1) % 2 ^ 32

-- `CalcNextRequiredDifficulty` at a retarget height.
unfoldable pub retarget : ChainParams → BlockNode → List BlockNode → Result DifficultyError ℕ
unfolding find_height
retarget p prev parents = do
  fail_if (ltb prev.height (window_start p prev)) no_retarget_block
  first ← or_panic (find_height (window_start p prev) (prev ∷ parents))
  ok (big_to_compact (new_target p prev first))

-- `CalcNextRequiredDifficulty`, on the previous node and its ancestors. The remainder by a window
-- of no blocks is a run-time panic.
unfoldable pub calc_next_required_difficulty :
    ChainParams → BlockNode → List BlockNode → Result DifficultyError ℕ
unfolding retarget
calc_next_required_difficulty p prev parents =
    if prev.height == 0 || p.is_reg_net
    then ok p.pow_limit_bits
    else if blocks_per_retarget p == 0
    then panic
    else if (prev.height + 1) % 2 ^ 32 % blocks_per_retarget p == 0
    then retarget p prev parents
    else ok prev.bits

-- `HashToBig`: the bytes are reversed, and `SetBytes` reads them with the highest first.
abbrev pub set_bytes : List ℕ → ℕ
set_bytes = foldl (λ acc byte. acc * 256 + byte) 0

unfoldable pub hash_to_big : List ℕ → ℤ
hash_to_big hash = pos (set_bytes (reverse hash))

pub data PowError : Type 0 where
  target_too_low target_too_high hash_above_target : PowError

-- `CheckProofOfWork`, on the header's bits and the hash of its parent block in the main chain.
unfoldable pub check_proof_of_work : ℕ → List ℕ → ℤ → Result PowError (Unit {0})
check_proof_of_work bits hash pow_limit = do
  let target = compact_to_big bits
  fail_if (leb_ℤ target (pos 0)) target_too_low
  fail_if (ltb_ℤ pow_limit target) target_too_high
  fail_if (ltb_ℤ target (hash_to_big hash)) hash_above_target
