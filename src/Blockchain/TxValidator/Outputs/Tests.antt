-- ===== src/Blockchain/TxValidator/Outputs/Tests.antt =====
-- The outputs of concrete transactions.
use elastos_ela_side_chain.Common.{◌≤◌, ◌≡◌, refl, length, All, [], ◌∷◌}
use elastos_ela_side_chain.Common.Int.{pos, ◌+ℤ◌, ◌≤ℤ◌}
use elastos_ela_side_chain.Common.Result.{ok}
use elastos_ela_side_chain.Core.{Output}
use elastos_ela_side_chain.Blockchain.TxValidator.Fixed64.{wrap64}
use elastos_ela_side_chain.Blockchain.TxValidator.Fixed64.Sums.{sum_ℤ}
use elastos_ela_side_chain.Blockchain.Fixtures.{
  foundation, prefixes, three_tenths, spending_tx, coinbase_tx,
}
use elastos_ela_side_chain.Blockchain.TxValidator.Outputs.{
  check_output_program_hash, coinbase_rewards, check_outputs, check_transaction_output,
}
use elastos_ela_side_chain.Blockchain.TxValidator.Outputs.Sound.{check_transaction_output-coinbase}

spending_tx_passes : check_transaction_output prefixes 5 foundation three_tenths spending_tx ≡ ok tt
unfolding check_transaction_output check_outputs check_output_program_hash
spending_tx_passes = refl

coinbase_tx_passes : check_transaction_output prefixes 5 foundation three_tenths coinbase_tx ≡ ok tt
unfolding check_transaction_output coinbase_rewards ◌+ℤ◌
coinbase_tx_passes = refl

check_transaction_output-coinbase_example :
    (2 ≤ length coinbase_tx.outputs)
    × All (λ (output : Output). output.asset_id ≡ 5) coinbase_tx.outputs
    × (three_tenths (wrap64 (sum_ℤ (pos 9 ∷ pos 21 ∷ []))) ≤ℤ wrap64 (sum_ℤ (pos 9 ∷ [])))
check_transaction_output-coinbase_example =
    check_transaction_output-coinbase prefixes 5 foundation three_tenths coinbase_tx refl
      coinbase_tx_passes
