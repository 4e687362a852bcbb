-- ===== src/Blockchain/TxValidator/Precision/Tests.antt =====
-- The precision of concrete values.
use elastos_ela_side_chain.Common.{ℕ, ◌≡◌, refl, Option, some, [], ◌∷◌}
use elastos_ela_side_chain.Common.Result.{ok}
use elastos_ela_side_chain.Common.Table.{lookup, insert, erase}
use elastos_ela_side_chain.Core.{Transaction, transfer_asset}
use elastos_ela_side_chain.Blockchain.Fees.Conservation.{coin}
use elastos_ela_side_chain.Blockchain.Fixtures.{holder, transaction_of}
use elastos_ela_side_chain.Blockchain.TxValidator.Precision.{
  precision_unit, check_amount_precise, group_outputs, check_group, check_groups,
  check_asset_precision,
}

abbrev six_digits : ℕ → Option ℕ
six_digits asset = some 6

abbrev precise_tx : Transaction
precise_tx =
    transaction_of 2 transfer_asset []
      (coin 5 700 holder ∷ coin 4 100 holder ∷ coin 5 200 holder ∷ [])

precise_tx_passes : check_asset_precision six_digits precise_tx ≡ ok tt
unfolding check_asset_precision check_groups check_group group_outputs check_amount_precise
    precision_unit lookup insert erase
precise_tx_passes = refl
