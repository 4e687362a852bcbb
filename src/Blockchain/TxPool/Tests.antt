-- ===== src/Blockchain/TxPool/Tests.antt =====
-- Runs of the pool, and the theorems at concrete pools.
use elastos_ela_side_chain.Common.{
  ℕ, ◌+◌, ◌*◌, ◌≡◌, refl, some, none, List, [], ◌∷◌, arith, ◌==◌, if◌then◌else◌,
}
use elastos_ela_side_chain.Common.Int.{pos}
use elastos_ela_side_chain.Common.Table.{lookup, insert, erase}
use elastos_ela_side_chain.Core.{
  OutPoint, Input, Output, transfer_asset, recharge_to_side_chain, recharge, other_payload,
  Transaction,
}
use elastos_ela_side_chain.Blockchain.TxReference.{Store, get_tx_reference}
use elastos_ela_side_chain.Blockchain.TxPool.{
  TxPool, ErrCode, success, double_spend, mainchain_tx_duplicate, empty_pool, any_reserved,
  reserve_all, add_input_utxo_list, append_to_txn_pool, verify_transaction_with_txn_pool,
  clean_submitted_transactions,
}
use elastos_ela_side_chain.Blockchain.TxPool.Reserved.{IsReserved, Spends}
use elastos_ela_side_chain.Blockchain.TxPool.Append.{
  Appended, append_to_txn_pool-Appended, append_to_txn_pool-IsReserved, append_all,
  append_all-no_double_spend,
}
use elastos_ela_side_chain.Blockchain.TxPool.Clean.{
  clean_submitted_transactions-conflict, verify_transaction_with_txn_pool-mark,
}

-- A key that tells outpoints with small indexes apart.
abbrev refer_key : OutPoint → ℕ
refer_key point = point.tx_id * 1000 + point.index

abbrev point : ℕ → ℕ → OutPoint
point h i = record { tx_id = h; index = i }

abbrev output : Output
output = record { asset_id = 1; value = pos 100; output_lock = 0; program_hash = [] }

abbrev transfer : ℕ → List Input → Transaction
transfer h inputs = record {
  hash = h;
  tx_type = transfer_asset;
  payload = other_payload;
  inputs = inputs;
  outputs = output ∷ output ∷ [];
  lock_time = 0;
  attributes = [];
  programs = [];
}

abbrev spend : OutPoint → Input
spend p = record { previous = p; sequence = 0 }

-- Three transactions over the one that the store holds: the first two spend the same output.
abbrev funding : Transaction
funding = transfer 5 []

abbrev first : Transaction
first = transfer 10 (spend (point 5 0) ∷ [])

abbrev second : Transaction
second = transfer 11 (spend (point 5 0) ∷ [])

abbrev third : Transaction
third = transfer 12 (spend (point 5 1) ∷ [])

abbrev store : Store
store h = if h == 5 then some funding else none

abbrev fine : Transaction → ErrCode
fine _ = success

-- The pool that takes a transaction and then another.
run : Transaction → Transaction → ErrCode × TxPool
run tx ty =
    append_to_txn_pool refer_key store fine fine ty
      (append_to_txn_pool refer_key store fine fine tx empty_pool).1

double_spend_run : (run first second).0 ≡ double_spend
unfolding run append_to_txn_pool any_reserved reserve_all add_input_utxo_list get_tx_reference
    lookup insert erase
double_spend_run = refl

accept_run : (run first third).0 ≡ success
unfolding run append_to_txn_pool any_reserved reserve_all add_input_utxo_list get_tx_reference
    lookup insert erase
accept_run = refl

empty_pool-IsReserved : IsReserved refer_key store empty_pool
unfolding lookup
empty_pool-IsReserved hash tx h = cc

append_to_txn_pool-IsReserved_example :
    IsReserved refer_key store (append_to_txn_pool refer_key store fine fine first empty_pool).1
append_to_txn_pool-IsReserved_example =
    append_to_txn_pool-IsReserved refer_key store fine fine first empty_pool empty_pool-IsReserved

append_to_txn_pool-Appended_example :
    Appended refer_key store first empty_pool
      (append_to_txn_pool refer_key store fine fine first empty_pool)
append_to_txn_pool-Appended_example =
    append_to_txn_pool-Appended refer_key store fine fine first empty_pool

-- The pool that holds the first transaction.
abbrev one_pool : TxPool
one_pool = record {
  tx_list = (10, first) ∷ [];
  input_utxo_list = (5000, first) ∷ [];
  mainchain_tx_list = [];
}

first-Spends : Spends refer_key store first 5000
unfolding get_tx_reference
first-Spends = ((spend (point 5 0), output) ∷ [], 0, (spend (point 5 0), output), refl, refl, refl)

append_all-no_double_spend_example : first ≡ first
unfolding append_all append_to_txn_pool any_reserved reserve_all add_input_utxo_list
    get_tx_reference lookup insert erase
append_all-no_double_spend_example =
    append_all-no_double_spend refer_key store fine fine (first ∷ second ∷ third ∷ []) 10 10 5000
      first first refl refl first-Spends first-Spends

-- A block confirms `second`, which spends what the pool's `first` spends, and `third`.
clean_submitted_transactions-conflict_example :
    let pool' = clean_submitted_transactions refer_key store (third ∷ second ∷ []) one_pool in
    (lookup 10 pool'.tx_list ≡ some first) × (lookup 5000 pool'.input_utxo_list ≡ none)
unfolding lookup get_tx_reference
clean_submitted_transactions-conflict_example =
    clean_submitted_transactions-conflict refer_key store (third ∷ second ∷ []) 1 second first
      one_pool 5000 (refl, (refl, tt)) (omega arith, (omega arith, tt)) refl refl
      ((spend (point 5 0), output) ∷ [], 0, (spend (point 5 0), output), refl, refl, refl)

-- Two recharges of the main chain transaction 77; the first refers to a transaction 6 that the
-- store does not hold.
abbrev recharge_tx : ℕ → List Input → Transaction
recharge_tx h inputs = record {
  hash = h;
  tx_type = recharge_to_side_chain;
  payload = recharge (some 77);
  inputs = inputs;
  outputs = output ∷ [];
  lock_time = 0;
  attributes = [];
  programs = [];
}

verify_transaction_with_txn_pool-mark_example :
    let (code, pool') =
      verify_transaction_with_txn_pool refer_key store
        (recharge_tx 20 (spend (point 6 0) ∷ []))
        empty_pool in
    (code ≡ double_spend)
    × ((verify_transaction_with_txn_pool refer_key store (recharge_tx 21 []) pool').0
        ≡ mainchain_tx_duplicate)
unfolding lookup get_tx_reference
verify_transaction_with_txn_pool-mark_example =
    verify_transaction_with_txn_pool-mark refer_key store (recharge_tx 20 (spend (point 6 0) ∷ []))
      (recharge_tx 21 []) empty_pool 77 refl refl refl refl refl refl
