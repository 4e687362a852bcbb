-- ===== src/Blockchain/Fixtures.antt =====
-- Concrete transactions, a store and rules that the tests of the checks share.
use elastos_ela_side_chain.Common.{
  ℕ, ◌*◌, ◌-◌, ◌/◌, ◌^◌, true, false, Option, none, some, List, [], ◌∷◌, ◌==◌, if◌then◌else◌,
}
use elastos_ela_side_chain.Common.Int.{ℤ, pos, pos_part}
use elastos_ela_side_chain.Core.{
  Input, Output, Transaction, TransactionType, coin_base, transfer_asset, other_payload,
}
use elastos_ela_side_chain.Blockchain.TxReference.{Store}
use elastos_ela_side_chain.Blockchain.Fees.{MainTransaction}
use elastos_ela_side_chain.Blockchain.Fees.Conservation.{coin}
use elastos_ela_side_chain.Blockchain.TxValidator.Outputs.{Prefixes}
use elastos_ela_side_chain.Blockchain.TxValidator.Ledger.{Rules, Chain}

abbrev pub foundation : List ℕ
foundation = 18 ∷ []

abbrev pub holder : List ℕ
holder = 33 ∷ 7 ∷ []

abbrev pub prefixes : Prefixes
prefixes = record { standard = 33; multisig = 18; cross_chain = 75; register_id = 103 }

abbrev pub same_amount : ℤ → ℤ
same_amount amount = amount

abbrev pub three_tenths : ℤ → ℤ
three_tenths amount = pos (pos_part amount * 3 / 10)

abbrev pub to_address : List ℕ → Option (List ℕ)
to_address program_hash = some program_hash

abbrev pub decode_none : Transaction → Option MainTransaction
decode_none tx = none

abbrev pub transaction_of : ℕ → TransactionType → List Input → List Output → Transaction
transaction_of hash tx_type inputs outputs = record {
  hash = hash;
  tx_type = tx_type;
  payload = other_payload;
  inputs = inputs;
  outputs = outputs;
  lock_time = 0;
  attributes = [];
  programs = [];
}

abbrev pub input_of : ℕ → ℕ → Input
input_of tx_id index = record {
  previous = record { tx_id = tx_id; index = index };
  sequence = 2 ^ 32 - 1;
}

-- The first transaction holds 100 of asset 5, which the second spends.
abbrev pub previous_tx : Transaction
previous_tx = transaction_of 1 transfer_asset [] (coin 5 100 holder ∷ [])

abbrev pub spending_tx : Transaction
spending_tx = transaction_of 2 transfer_asset (input_of 1 0 ∷ []) (coin 5 70 holder ∷ [])

abbrev pub coinbase_tx : Transaction
coinbase_tx =
    transaction_of 3 coin_base (input_of 0 (2 ^ 16 - 1) ∷ [])
      (coin 5 9 foundation ∷ coin 5 21 holder ∷ [])

abbrev pub store : Store
store hash = if hash == 1 then some previous_tx else none

abbrev pub unspent : ℕ → Option (List ℕ)
unspent hash = if hash == 1 then some (0 ∷ []) else none

abbrev pub chain : Chain
chain = record {
  store = store;
  unspent = unspent;
  is_mainchain_duplicate = λ hash. false;
  height = 9;
}

abbrev pub rules : Rules
rules = record {
  get_size = λ tx. 200;
  max_block_size = 8000000;
  prefixes = prefixes;
  asset = 5;
  foundation = foundation;
  three_tenths = three_tenths;
  get_asset = λ asset. some 8;
  to_program_hash = λ code. some code;
  uint168_from_address = to_address;
  to_address = to_address;
  converted = same_amount;
  is_rate_positive = true;
  is_proof_decoded = λ tx. true;
  decode_ela = λ tx. none;
  decode_main = decode_none;
  genesis_program_hash = none;
  verify_signature = λ tx. true;
  min_tx_fee = 10;
  min_cross_chain_tx_fee = pos 10;
  spend_coinbase_span = 100;
}
