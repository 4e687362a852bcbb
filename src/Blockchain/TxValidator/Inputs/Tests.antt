-- ===== src/Blockchain/TxValidator/Inputs/Tests.antt =====
-- Checks of the inputs of concrete transactions.
use elastos_ela_side_chain.Common.{ℕ, ◌≡◌, refl, List, [], ◌∷◌}
use elastos_ela_side_chain.Common.Result.{ok, err}
use elastos_ela_side_chain.Core.{Input, Transaction, transfer_asset, other_payload}
use elastos_ela_side_chain.Blockchain.TxValidator.Inputs.{
  check_inputs, check_transaction_input, duplicated_inputs,
}

abbrev spend : ℕ → ℕ → Input
spend tx_id index = record { previous = record { tx_id = tx_id; index = index }; sequence = 0 }

abbrev spending : List Input → Transaction
spending inputs = record {
  hash = 5;
  tx_type = transfer_asset;
  payload = other_payload;
  inputs = inputs;
  outputs = [];
  lock_time = 0;
  attributes = [];
  programs = [];
}

check_transaction_input-two :
    check_transaction_input (spending (spend 3 0 ∷ spend 3 1 ∷ [])) ≡ ok tt
unfolding check_transaction_input check_inputs
check_transaction_input-two = refl

check_transaction_input-twice :
    check_transaction_input (spending (spend 3 0 ∷ spend 3 0 ∷ [])) ≡ err duplicated_inputs
unfolding check_transaction_input check_inputs
check_transaction_input-twice = refl
