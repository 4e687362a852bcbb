-- ===== src/Blockchain/TxValidator/Recharge/Tests.antt =====
-- The check of a concrete recharge.
use elastos_ela_side_chain.Common.{
  ℕ, ◌≡◌, refl, Bool, false, true, Option, some, List, [], ◌∷◌, All, map,
}
use elastos_ela_side_chain.Common.Int.{pos, ◌+ℤ◌, ◌-ℤ◌}
use elastos_ela_side_chain.Common.Result.{ok}
use elastos_ela_side_chain.Core.{
  Transaction, recharge_to_side_chain, recharge, PayloadTransferCrossChainAsset,
}
use elastos_ela_side_chain.Blockchain.Fees.Conservation.{coin}
use elastos_ela_side_chain.Blockchain.Fixtures.{foundation, holder, same_amount, to_address}
use elastos_ela_side_chain.Blockchain.TxValidator.Fixed64.{wrap64}
use elastos_ela_side_chain.Blockchain.TxValidator.Fixed64.Sums.{sum_ℤ}
use elastos_ela_side_chain.Blockchain.TxValidator.Recharge.{
  ElaTransaction, target_total, recharge_amount, origin_total, check_recharge_amounts,
  check_recharge_to_side_chain,
}
use elastos_ela_side_chain.Blockchain.TxValidator.Recharge.Dues.{Due, dues, IsPaid}
use elastos_ela_side_chain.Blockchain.TxValidator.Recharge.Sound.{
  check_recharge_to_side_chain-IsPaid,
}

-- The program hash of the genesis block, which the main chain transaction pays 100 and 50.
abbrev genesis : List ℕ
genesis = 75 ∷ []

abbrev payload : PayloadTransferCrossChainAsset
payload = record {
  cross_chain_addresses = holder ∷ foundation ∷ holder ∷ [];
  output_indexes = 0 ∷ 1 ∷ 2 ∷ [];
  cross_chain_amounts = pos 90 ∷ pos 7 ∷ pos 40 ∷ [];
}

abbrev main : ElaTransaction
main = record {
  hash = 11;
  payload = some payload;
  outputs = coin 5 100 genesis ∷ coin 5 8 holder ∷ coin 5 50 genesis ∷ [];
}

abbrev recharge_tx : Transaction
recharge_tx = record {
  hash = 5;
  tx_type = recharge_to_side_chain;
  payload = recharge (some 11);
  inputs = [];
  outputs = coin 5 90 holder ∷ coin 5 40 holder ∷ [];
  lock_time = 0;
  attributes = [];
  programs = [];
}

abbrev decode_ela : Transaction → Option ElaTransaction
decode_ela tx = some main

abbrev is_decoded : Transaction → Bool
is_decoded tx = true

abbrev is_duplicate : ℕ → Bool
is_duplicate hash = false

recharge_tx_passes :
    check_recharge_to_side_chain same_amount to_address
      (pos 10)
      true
      is_decoded
      decode_ela
      is_duplicate
      (some genesis)
      recharge_tx
    ≡ ok tt
unfolding check_recharge_to_side_chain check_recharge_amounts origin_total recharge_amount
    target_total ◌+ℤ◌ ◌-ℤ◌
recharge_tx_passes = refl

check_recharge_to_side_chain-IsPaid_example :
    let ds =
      dues genesis main.outputs payload.cross_chain_addresses payload.output_indexes
        payload.cross_chain_amounts in
    (◌≡◌ {A = Bool} false false)
    × All
        (λ (d : Due).
          IsPaid same_amount to_address
            (pos 10)
            recharge_tx.outputs
            d.main_output
            d.address
            d.amount)
        ds
    × (wrap64 (sum_ℤ (pos 90 ∷ pos 40 ∷ [])) ≡ wrap64 (sum_ℤ (map (λ (d : Due). d.amount) ds)))
check_recharge_to_side_chain-IsPaid_example =
    check_recharge_to_side_chain-IsPaid same_amount to_address (pos 10) true is_decoded decode_ela
      is_duplicate (some genesis) recharge_tx main payload genesis refl refl refl refl
      recharge_tx_passes
