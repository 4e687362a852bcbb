-- ===== src/Blockchain/BlockValidator/Tests.antt =====
-- The checks of a concrete block.
use elastos_ela_side_chain.Common.{
  ℕ, ◌↔◌, ◌+◌, ◌-◌, ◌*◌, ◌%◌, ◌^◌, ◌<◌, ◌≡◌, refl, inl, true, false, Option, some, List, [], ◌∷◌,
  replicate,
}
use elastos_ela_side_chain.Common.Int.{ℤ, ◌-ℤ◌, pos, pos_part, neg_part, ◌+ℤ◌}
use elastos_ela_side_chain.Common.Result.{ok}
use elastos_ela_side_chain.Core.{OutPoint, Transaction, transfer_asset, other_payload}
use elastos_ela_side_chain.Common.Table.{lookup, insert, erase}
use elastos_ela_side_chain.Blockchain.TxReference.{
  get_tx_reference, input_references, referenced_output,
}
use elastos_ela_side_chain.Blockchain.Fees.{
  add_amount, asset_sums, subtract_outputs, keep_inputs, get_tx_fee_map, get_tx_fee,
}
use elastos_ela_side_chain.Blockchain.TxValidator.Inputs.{check_inputs, check_transaction_input}
use elastos_ela_side_chain.Blockchain.TxValidator.Outputs.{
  check_output_program_hash, coinbase_rewards, check_outputs, check_transaction_output,
  check_attributes, check_programs, check_attribute_program,
}
use elastos_ela_side_chain.Blockchain.TxValidator.Precision.{
  precision_unit, check_amount_precise, group_outputs, check_group, check_groups,
  check_asset_precision, check_transaction_payload,
}
use elastos_ela_side_chain.Blockchain.TxValidator.Ledger.{check_transaction_sanity}
use elastos_ela_side_chain.Blockchain.Fees.Conservation.{coin}
use elastos_ela_side_chain.Blockchain.Fixtures.{
  holder, input_of, store, rules, spending_tx, coinbase_tx,
}
use elastos_ela_side_chain.Blockchain.MedianTime.Samples.{IsMedian}
use elastos_ela_side_chain.Blockchain.Compact.{compact_to_big}
use elastos_ela_side_chain.Blockchain.Retarget.{
  ChainParams, BlockNode, set_bytes, calc_next_required_difficulty, hash_to_big,
  check_proof_of_work,
}
use elastos_ela_side_chain.Blockchain.BlockValidator.{
  Block, fee_total, check_reward, check_block_inputs, check_block_main, check_transactions,
  check_root, are_inputs_final, BlockRules, block_fee, pow_check_block_sanity,
  calc_past_median_time, is_finalized_transaction, check_finalized, pow_check_block_context,
}
use elastos_ela_side_chain.Blockchain.BlockValidator.Sanity.{
  IsRewarded, pow_check_block_sanity-IsRewarded, pow_check_block_sanity-distinct,
  pow_check_block_sanity-root,
}
use elastos_ela_side_chain.Blockchain.BlockValidator.Context.{
  timestamps_of, AreFinal, IsFinal, pow_check_block_context_sound, is_finalized_transaction-IsFinal,
}

abbrev refer_key : OutPoint → ℕ
refer_key point = point.tx_id * 2 ^ 16 + point.index

abbrev block : Block
block = record {
  header = record {
    bits = 0x1d03ffff;
    merkle_root = 770;
    timestamp = 1480;
    proof_hash = 1 ∷ replicate 31 0;
  };
  transactions = coinbase_tx ∷ spending_tx ∷ [];
}

abbrev root_of : List ℕ → Option ℕ
root_of hashes = some (set_bytes hashes)

abbrev block_rules : BlockRules refer_key
block_rules = record {
  pow_limit = pos (2 ^ 255 - 1);
  max_tx_in_block = 10000;
  adjusted_time = 1480;
  aux_pow_check = λ block. true;
  get_size = λ block. 1000;
  tx_rules = rules;
  store = store;
  compute_root = root_of;
}

block_is_sane : pow_check_block_sanity refer_key block_rules block ≡ ok tt
unfolding pow_check_block_sanity check_proof_of_work compact_to_big hash_to_big check_reward
    fee_total check_transactions check_block_inputs check_block_main check_root ◌+ℤ◌ block_fee
    get_tx_fee get_tx_fee_map get_tx_reference input_references referenced_output asset_sums
    add_amount subtract_outputs keep_inputs lookup insert erase ◌-ℤ◌ check_transaction_sanity
    check_transaction_input check_inputs check_transaction_output coinbase_rewards check_outputs
    check_output_program_hash check_asset_precision check_groups check_group group_outputs
    check_amount_precise precision_unit check_attribute_program check_attributes check_programs
    check_transaction_payload
block_is_sane = refl

pow_check_block_sanity-IsRewarded_example :
    IsRewarded (block_fee refer_key block_rules) (coinbase_tx ∷ spending_tx ∷ [])
pow_check_block_sanity-IsRewarded_example =
    pow_check_block_sanity-IsRewarded refer_key block_rules block block_is_sane

pow_check_block_sanity-distinct_example : ◌≡◌ {A = ℕ} 1 1
pow_check_block_sanity-distinct_example =
    pow_check_block_sanity-distinct refer_key block_rules block 1 1 0 0 spending_tx spending_tx
      (input_of 1 0) (input_of 1 0) block_is_sane refl refl refl refl (inl refl)

pow_check_block_sanity-root_example :
    (check_transaction_sanity rules spending_tx ≡ ok tt) × (root_of (3 ∷ 2 ∷ []) ≡ some 770)
pow_check_block_sanity-root_example =
    pow_check_block_sanity-root refer_key block_rules block 1 spending_tx block_is_sane refl

abbrev params : ChainParams
params = record {
  is_reg_net = false;
  pow_limit = pos (2 ^ 255 - 1);
  pow_limit_bits = 0x1f0008ff;
  target_timespan = 480;
  target_time_per_block = 120;
  adjustment_factor = 4;
}

abbrev node : ℕ → ℕ → BlockNode
node height timestamp = record { height = height; bits = 0x1d03ffff; timestamp = timestamp }

abbrev ancestors : List BlockNode
ancestors = node 1 1240 ∷ node 0 1120 ∷ []

block_fits : pow_check_block_context params block (node 2 1360 ∷ ancestors) ≡ ok tt
unfolding pow_check_block_context calc_next_required_difficulty calc_past_median_time
    check_finalized is_finalized_transaction
block_fits = refl

pow_check_block_context_sound_example :
    (calc_next_required_difficulty params (node 2 1360) ancestors ≡ ok 0x1d03ffff)
    × (median : ℤ) × IsMedian median (timestamps_of (node 2 1360 ∷ ancestors))
    × (pos_part median < 1480 + neg_part median)
    × AreFinal ((2 + 1) % 2 ^ 32) (coinbase_tx ∷ spending_tx ∷ [])
pow_check_block_context_sound_example =
    pow_check_block_context_sound params block (node 2 1360) ancestors block_fits

abbrev locked_tx : Transaction
locked_tx = record {
  hash = 6;
  tx_type = transfer_asset;
  payload = other_payload;
  inputs = input_of 1 0 ∷ [];
  outputs = coin 5 70 holder ∷ [];
  lock_time = 8;
  attributes = [];
  programs = [];
}

-- Its only input has the highest sequence number of 32 bits.
locked_tx_is_not_final : is_finalized_transaction locked_tx 3 ≡ false
unfolding is_finalized_transaction are_inputs_final
locked_tx_is_not_final = refl

is_finalized_transaction-IsFinal_example :
    (is_finalized_transaction locked_tx 3 ≡ true) ↔ IsFinal locked_tx 3
is_finalized_transaction-IsFinal_example = is_finalized_transaction-IsFinal locked_tx 3
