-- ===== src/Blockchain/Fees/Tests.antt =====
-- Balances of concrete transactions.
use elastos_ela_side_chain.Common.{◌^◌, ◌-◌, ◌≡◌, refl, some, [], ◌∷◌, arith}
use elastos_ela_side_chain.Common.Int.{pos, ◌+ℤ◌, ◌-ℤ◌}
use elastos_ela_side_chain.Common.Result.{ok}
use elastos_ela_side_chain.Common.Table.{lookup, insert, erase}
use elastos_ela_side_chain.Core.{Transaction, transfer_asset}
use elastos_ela_side_chain.Blockchain.TxReference.{
  get_tx_reference, input_references, referenced_output,
}
use elastos_ela_side_chain.Blockchain.Fees.{
  add_amount, asset_sums, subtract_outputs, keep_inputs, get_tx_fee_map, check_transaction_balance,
}
use elastos_ela_side_chain.Blockchain.Fees.Conservation.{coin, check_transaction_balance-overflow}
use elastos_ela_side_chain.Blockchain.Fixtures.{
  holder, foundation, same_amount, to_address, decode_none, store, input_of, transaction_of,
  spending_tx,
}

spending_tx_found :
    get_tx_reference store spending_tx ≡ some ((input_of 1 0, coin 5 100 holder) ∷ [])
unfolding get_tx_reference input_references referenced_output
spending_tx_found = refl

spending_tx_passes :
    check_transaction_balance same_amount to_address decode_none (pos 10) store spending_tx ≡ ok tt
unfolding check_transaction_balance get_tx_fee_map get_tx_reference input_references
    referenced_output asset_sums add_amount subtract_outputs keep_inputs lookup insert erase ◌+ℤ◌
    ◌-ℤ◌
spending_tx_passes = refl

abbrev rich_tx : Transaction
rich_tx =
    transaction_of 4 transfer_asset (input_of 1 0 ∷ [])
      (coin 5 (2 ^ 63 - 1) holder ∷ coin 5 (2 ^ 63 - 1) foundation ∷ [])

rich_tx_found : get_tx_reference store rich_tx ≡ some ((input_of 1 0, coin 5 100 holder) ∷ [])
unfolding get_tx_reference input_references referenced_output
rich_tx_found = refl

check_transaction_balance-overflow_example :
    check_transaction_balance same_amount to_address decode_none (pos 100) store rich_tx ≡ ok tt
check_transaction_balance-overflow_example =
    check_transaction_balance-overflow same_amount to_address decode_none 100 store rich_tx
      (input_of 1 0) 5 100 holder holder foundation refl rich_tx_found refl (omega arith)
      (omega arith)
