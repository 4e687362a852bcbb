-- ===== src/Blockchain/TxValidator/CrossChain/Tests.antt =====
-- Checks of concrete transfers to the main chain.
use elastos_ela_side_chain.Common.{ℕ, ◌^◌, ◌≡◌, refl, Option, some, List, [], ◌∷◌, arith}
use elastos_ela_side_chain.Common.Int.{pos, ◌+ℤ◌, ◌-ℤ◌}
use elastos_ela_side_chain.Common.Result.{ok, panic, Returns}
use elastos_ela_side_chain.Core.{
  Output, Transaction, transfer_asset, transfer_cross_chain_asset, other_payload,
  transfer_cross_chain, PayloadTransferCrossChainAsset,
}
use elastos_ela_side_chain.Blockchain.TxReference.{
  Store, get_tx_reference, input_references, referenced_output,
}
use elastos_ela_side_chain.Blockchain.TxValidator.CrossChain.{
  check_indexes, cross_chain_count, check_amounts, check_fee, check_addresses,
  check_cross_chain_payload, check_transfer_cross_chain_asset,
}
use elastos_ela_side_chain.Blockchain.TxValidator.CrossChain.Sound.{
  IsCovered, check_transfer_cross_chain_asset-IsCovered, check_transfer_cross_chain_asset-distinct,
}
use elastos_ela_side_chain.Blockchain.TxValidator.CrossChain.Panics.{
  check_transfer_cross_chain_asset-Returns, check_transfer_cross_chain_asset-panic,
}

-- The hash of every address is a standard one.
abbrev from_address : List ℕ → Option (List ℕ)
from_address address = some (33 ∷ address)

abbrev output_of : ℕ → Output
output_of value = record {
  asset_id = 0;
  value = pos value;
  output_lock = 0;
  program_hash = 0 ∷ 0 ∷ [];
}

abbrev previous : Transaction
previous = record {
  hash = 1;
  tx_type = transfer_asset;
  payload = other_payload;
  inputs = [];
  outputs = output_of 100 ∷ [];
  lock_time = 0;
  attributes = [];
  programs = [];
}

abbrev store : Store
store hash = some previous

abbrev payload_at : ℕ → PayloadTransferCrossChainAsset
payload_at index = record {
  cross_chain_addresses = (7 ∷ []) ∷ [];
  output_indexes = index ∷ [];
  cross_chain_amounts = pos 60 ∷ [];
}

abbrev transfer_at : ℕ → Transaction
transfer_at index = record {
  hash = 2;
  tx_type = transfer_cross_chain_asset;
  payload = transfer_cross_chain (payload_at index);
  inputs = record { previous = record { tx_id = 1; index = 0 }; sequence = 0 } ∷ [];
  outputs = output_of 70 ∷ [];
  lock_time = 0;
  attributes = [];
  programs = [];
}

transfer_passes :
    check_transfer_cross_chain_asset from_address 33 18 (pos 10) store (transfer_at 0) ≡ ok tt
unfolding check_transfer_cross_chain_asset check_cross_chain_payload check_indexes cross_chain_count
    check_addresses check_amounts check_fee get_tx_reference input_references referenced_output ◌+ℤ◌
    ◌-ℤ◌
transfer_passes = refl

check_transfer_cross_chain_asset-IsCovered_example :
    IsCovered (pos 10) (pos 60) (output_of 70 ∷ []) 0
check_transfer_cross_chain_asset-IsCovered_example =
    check_transfer_cross_chain_asset-IsCovered from_address 33 18 (pos 10) store (transfer_at 0)
      (payload_at 0) refl 0 0 (pos 60) transfer_passes refl refl

check_transfer_cross_chain_asset-distinct_example : (◌≡◌ {A = ℕ} 0 0) × (◌≡◌ {A = ℕ} 1 1)
check_transfer_cross_chain_asset-distinct_example =
    check_transfer_cross_chain_asset-distinct from_address 33 18 (pos 10) store (transfer_at 0)
      (payload_at 0) refl 0 0 0 transfer_passes refl refl

check_transfer_cross_chain_asset-Returns_example :
    Returns (check_transfer_cross_chain_asset from_address 33 18 (pos 10) store (transfer_at 3))
check_transfer_cross_chain_asset-Returns_example =
    check_transfer_cross_chain_asset-Returns from_address 33 18 (pos 10) store (transfer_at 3)
      (payload_at 3) refl (omega arith, tt)

address_passes : check_addresses from_address 33 18 ((7 ∷ []) ∷ []) ≡ ok tt
unfolding check_addresses
address_passes = refl

one_crossing : cross_chain_count (output_of 70 ∷ []) ≡ 1
unfolding cross_chain_count
one_crossing = refl

check_transfer_cross_chain_asset-panic_example :
    check_transfer_cross_chain_asset from_address 33 18 (pos 10) store (transfer_at (2 ^ 63))
    ≡ panic
check_transfer_cross_chain_asset-panic_example =
    check_transfer_cross_chain_asset-panic from_address 33 18 (pos 10) store (transfer_at (2 ^ 63))
      (7 ∷ []) (2 ^ 63) (pos 60) refl address_passes one_crossing (omega arith) (omega arith)
      (omega arith) (omega arith)
