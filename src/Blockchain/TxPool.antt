-- ===== src/Blockchain/TxPool.antt =====
-- blockchain/txpool.go: the pool of verified transactions that wait for a block. Each method returns
-- the new pool with its result. `refer_key` is `Input.ReferKey`, a double SHA-256 of the outpoint,
-- and `store` the ledger that `GetTxReference` reads.
pub mod Reserved
pub mod Append
pub mod Release
pub mod Clean
mod Tests
use elastos_ela_side_chain.Common.{
  ℕ, zero, suc, ◌+◌, ◌%◌, ◌^◌, Bool, true, false, Option, none, some, List, [], ◌∷◌, if◌then◌else◌,
  ◌==◌, map,
}
use elastos_ela_side_chain.Common.Table.{Table, lookup, insert, erase}
use elastos_ela_side_chain.Core.{
  OutPoint, Input, Output, Payload, recharge, other_payload, Transaction, is_coin_base_tx,
  is_recharge_to_side_chain_tx,
}
use elastos_ela_side_chain.Blockchain.TxReference.{Store, get_tx_reference}

pub record TxPool : Type 0 where
  pub tx_list : Table Transaction
  pub input_utxo_list : Table Transaction
  pub mainchain_tx_list : Table Transaction

-- The codes that the pool itself decides on; `rejected` is any other code of the two checks that
-- come before it.
pub data ErrCode : Type 0 where
  success mainchain_tx_duplicate double_spend : ErrCode
  rejected : ℕ → ErrCode

-- `Init`
abbrev pub empty_pool : TxPool
empty_pool = record { tx_list = []; input_utxo_list = []; mainchain_tx_list = [] }

-- `GetTransaction`
abbrev pub get_transaction : TxPool → ℕ → Option Transaction
get_transaction pool hash = lookup hash pool.tx_list

-- `addToTxList`: a transaction that is there already is kept.
unfoldable pub add_to_tx_list : Transaction → TxPool → TxPool
add_to_tx_list tx pool = elim (lookup tx.hash pool.tx_list) [
  | none ↦ record pool { tx_list = insert tx.hash tx pool.tx_list }
  | some _ ↦ pool
]

-- `delFromTxList`
unfoldable pub del_from_tx_list : ℕ → TxPool → TxPool
del_from_tx_list hash pool = record pool { tx_list = erase hash pool.tx_list }

-- `GetMainchainTxHash` on the payload of a recharge; `none` where the payload is of another type
-- or does not decode.
abbrev pub get_mainchain_tx_hash : Transaction → Option ℕ
get_mainchain_tx_hash tx = elim tx.payload [ recharge hash ↦ hash | _ ↦ none ]

-- `verifyDuplicateMainchainTx`, and `addMainchainTx` where it finds no duplicate.
unfoldable pub verify_duplicate_mainchain_tx : Transaction → TxPool → Bool × TxPool
verify_duplicate_mainchain_tx tx pool = elim (get_mainchain_tx_hash tx) [
  | none ↦ (false, pool)
  | some hash ↦ elim (lookup hash pool.mainchain_tx_list) [
    | some _ ↦ (false, pool)
    | none ↦ (true, record pool { mainchain_tx_list = insert hash tx pool.mainchain_tx_list })
  ]
]

-- `IsDuplicateMainchainTx`
unfoldable pub is_duplicate_mainchain_tx : TxPool → ℕ → Bool
is_duplicate_mainchain_tx pool hash = elim (lookup hash pool.mainchain_tx_list) [
  | none ↦ false
  | some _ ↦ true
]

module _ (refer_key : OutPoint → ℕ) where
  abbrev pub input_key : Input → ℕ
  input_key input = refer_key input.previous

  -- `addInputUTXOList`: the first transaction to reserve an output keeps it.
  unfoldable pub add_input_utxo_list : Transaction → Input → TxPool → TxPool
  add_input_utxo_list tx input pool = elim (lookup (input_key input) pool.input_utxo_list) [
    | none ↦ record pool { input_utxo_list = insert (input_key input) tx pool.input_utxo_list }
    | some _ ↦ pool
  ]

  -- `delInputUTXOList`
  unfoldable pub del_input_utxo_list : Input → TxPool → TxPool
  del_input_utxo_list input pool = record pool {
    input_utxo_list = erase (input_key input) pool.input_utxo_list;
  }

  -- The loop of `verifyDoubleSpend` that looks for a reserved output.
  unfoldable pub any_reserved : List (Input × Output) → TxPool → Bool
  any_reserved [] pool = false
  any_reserved (r ∷ references) pool =
      let rest = any_reserved references pool in
      elim (lookup (input_key r.0) pool.input_utxo_list) [ some _ ↦ true | none ↦ rest ]

  -- The loop of `verifyDoubleSpend` that reserves the outputs.
  unfoldable pub reserve_all : Transaction → List (Input × Output) → TxPool → TxPool
  reserve_all tx [] pool = pool
  reserve_all tx (r ∷ references) pool = reserve_all tx references (add_input_utxo_list tx r.0 pool)

  -- The loop that gives the outputs of a transaction free again.
  unfoldable pub release_all : List Input → TxPool → TxPool
  release_all [] pool = pool
  release_all (input ∷ inputs) pool = release_all inputs (del_input_utxo_list input pool)

  module _ (store : Store) where
    -- `verifyDoubleSpend`
    unfoldable pub verify_double_spend : Transaction → TxPool → Bool × TxPool
    verify_double_spend tx pool = elim (get_tx_reference store tx) [
      | none ↦ (false, pool)
      | some references ↦
          if any_reserved references pool
          then (false, pool)
          else (true, reserve_all tx references pool)
    ]

    -- The double spend check and its error code.
    unfoldable pub verify_inputs : Transaction → TxPool → ErrCode × TxPool
    unfolding verify_double_spend
    verify_inputs tx pool =
        let (fresh, pool') = verify_double_spend tx pool in
        (if fresh then success else double_spend, pool')

    -- `verifyTransactionWithTxnPool`
    unfoldable pub verify_transaction_with_txn_pool : Transaction → TxPool → ErrCode × TxPool
    unfolding verify_inputs verify_duplicate_mainchain_tx
    verify_transaction_with_txn_pool tx pool =
        if is_recharge_to_side_chain_tx tx
        then (let (fresh, pool') = verify_duplicate_mainchain_tx tx pool in
            if fresh then verify_inputs tx pool' else (mainchain_tx_duplicate, pool'))
        else verify_inputs tx pool

    -- The outputs that a transaction refers to are given free; a failed lookup gives none.
    unfoldable pub release_references : Transaction → TxPool → TxPool
    release_references tx pool = elim (get_tx_reference store tx) [
      | none ↦ pool
      | some references ↦ release_all (map (λ r. r.0) references) pool
    ]

    -- `removeTransaction`
    unfoldable pub remove_from_pool : Transaction → TxPool → TxPool
    unfolding del_from_tx_list release_references
    remove_from_pool tx pool = release_references tx (del_from_tx_list tx.hash pool)

    -- The transaction that has reserved an output goes.
    unfoldable pub remove_spender : ℕ → TxPool → TxPool
    unfolding remove_from_pool
    remove_spender key pool = elim (lookup key pool.input_utxo_list) [
      | none ↦ pool
      | some spender ↦ remove_from_pool spender pool
    ]

    -- `RemoveTransaction`, from the output of index `i` on: the pool's spenders of the outputs go.
    unfoldable pub remove_spenders : ℕ → ℕ → List Output → TxPool → TxPool
    remove_spenders hash i [] pool = pool
    remove_spenders hash i (_ ∷ outputs) pool =
        remove_spenders hash (i + 1) outputs
          (remove_spender (refer_key (record { tx_id = hash; index = i % 2 ^ 16 })) pool)

    unfoldable pub remove_transaction : Transaction → TxPool → TxPool
    unfolding remove_spenders remove_spender
    remove_transaction tx pool = remove_spenders tx.hash 0 tx.outputs pool

    -- `AppendToTxnPool`: the sanity and the context check are taken with their codes. The method locks
    -- the pool for the verification and for the listing, not in between; here it is one step. The fee
    -- that `GetTxFee` computes in between is written into the transaction and read by no method of the
    -- pool; a panic of it, on a transaction that both checks let through, is left out.
    unfoldable pub append_to_txn_pool :
        (check_sanity check_context : Transaction → ErrCode)
        → Transaction
        → TxPool
        → ErrCode × TxPool
    unfolding verify_transaction_with_txn_pool add_to_tx_list
    append_to_txn_pool check_sanity check_context tx pool = elim (check_sanity tx) [
      | success ↦ elim (check_context tx) [
        | success ↦
            let (code, pool') = verify_transaction_with_txn_pool tx pool in
            elim code [ success ↦ (success, add_to_tx_list tx pool') | other ↦ (other, pool') ]
        | other ↦ (other, pool)
      ]
      | other ↦ (other, pool)
    ]

    -- `MaybeAcceptTransaction`: whether the transaction was taken.
    unfoldable pub maybe_accept_transaction :
        (check_sanity check_context : Transaction → ErrCode) → Transaction → TxPool → Bool × TxPool
    unfolding append_to_txn_pool
    maybe_accept_transaction check_sanity check_context tx pool =
        elim (get_transaction pool tx.hash) [
          | some _ ↦ (false, pool)
          | none ↦
              if is_coin_base_tx tx
              then (false, pool)
              else (let (code, pool') = append_to_txn_pool check_sanity check_context tx pool in
                  (elim code [ success ↦ true | _ ↦ false ], pool'))
        ]

    -- `cleanTransactionList`
    unfoldable pub clean_transaction_list : List Transaction → TxPool → TxPool
    clean_transaction_list [] pool = pool
    clean_transaction_list (tx ∷ txs) pool =
        clean_transaction_list txs
          (if is_coin_base_tx tx then pool else del_from_tx_list tx.hash pool)

    -- `cleanUTXOList`
    unfoldable pub clean_utxo_list : List Transaction → TxPool → TxPool
    clean_utxo_list [] pool = pool
    clean_utxo_list (tx ∷ txs) pool = clean_utxo_list txs (release_references tx pool)

    -- One transaction of `cleanMainchainTx`. The payload of a recharge is of the recharge's kind, since
    -- the type of a transaction decides how it is read; on another the code's type assertion panics,
    -- which is left out here.
    unfoldable pub clean_one_mainchain_tx : Transaction → TxPool → TxPool
    clean_one_mainchain_tx tx pool = elim (get_mainchain_tx_hash tx) [
      | none ↦ pool
      | some hash ↦ elim (lookup hash pool.mainchain_tx_list) [
        | none ↦ pool
        | some pool_tx ↦
            let pool' = release_all pool_tx.inputs (del_from_tx_list pool_tx.hash pool) in
            record pool' { mainchain_tx_list = erase hash pool'.mainchain_tx_list }
      ]
    ]

    -- `cleanMainchainTx`
    unfoldable pub clean_mainchain_tx : List Transaction → TxPool → TxPool
    clean_mainchain_tx [] pool = pool
    clean_mainchain_tx (tx ∷ txs) pool =
        clean_mainchain_tx txs
          (if is_recharge_to_side_chain_tx tx then clean_one_mainchain_tx tx pool else pool)

    -- `CleanSubmittedTransactions`, on the transactions of a block.
    unfoldable pub clean_submitted_transactions : List Transaction → TxPool → TxPool
    clean_submitted_transactions txs pool =
        clean_mainchain_tx txs (clean_utxo_list txs (clean_transaction_list txs pool))
