-- ===== src/Blockchain/TxValidator/Ledger.antt =====
-- blockchain/txvalidator.go: the checks against the store, and `CheckTransactionSanity` and
-- `CheckTransactionContext`, which put all the checks together. The store's unspent outputs are those
-- of the index that `IsDoubleSpend` of blockchain/chainstore.go reads. An error is its code.
pub mod Locks
pub mod Spendable
pub mod Context
mod Tests
use elastos_ela_side_chain.Common.{
  ℕ, zero, suc, ◌-◌, ◌^◌, Bool, true, false, not, ◌||◌, ◌&&◌, Option, none, some, List, [], ◌∷◌,
  length, get_elem?, ◌==◌, ltb, if◌then◌else◌,
}
use elastos_ela_side_chain.Common.Int.{ℤ, pos, ltb_ℤ}
use elastos_ela_side_chain.Common.Result.{Result, ok, err, panic, ◌>>=◌, ◌>>◌, fail_if, or_panic}
use elastos_ela_side_chain.Core.{
  Input, Output, Transaction, is_coin_base_tx, is_recharge_to_side_chain_tx,
  is_transfer_cross_chain_asset_tx,
}
use elastos_ela_side_chain.Blockchain.TxReference.{Store, get_tx_reference}
use elastos_ela_side_chain.Blockchain.TxPool.{ErrCode, double_spend, rejected}
use elastos_ela_side_chain.Blockchain.Retarget.{sub32}
use elastos_ela_side_chain.Blockchain.Fees.{MainTransaction, check_transaction_balance}
use elastos_ela_side_chain.Blockchain.TxValidator.Inputs.{check_transaction_input}
use elastos_ela_side_chain.Blockchain.TxValidator.Outputs.{
  Prefixes, check_transaction_output, check_attribute_program,
}
use elastos_ela_side_chain.Blockchain.TxValidator.Precision.{
  check_asset_precision, check_transaction_payload,
}
use elastos_ela_side_chain.Blockchain.TxValidator.CrossChain.{
  is_member, check_transfer_cross_chain_asset,
}
use elastos_ela_side_chain.Blockchain.TxValidator.Recharge.{
  ElaTransaction, check_recharge_to_side_chain,
}

pub data LockError : Type 0 where
  no_inputs no_references invalid_sequence locked : LockError

-- The loop over the references.
unfoldable pub check_locks : ℕ → List (Input × Output) → Result LockError (Unit {0})
check_locks lock_time [] = ok tt
check_locks lock_time ((input, output) ∷ references) =
    if output.output_lock == 0
    then check_locks lock_time references
    else (fail_if (not (input.sequence == 2 ^ 32 - 2)) invalid_sequence
        >> (fail_if (ltb lock_time output.output_lock) locked >> check_locks lock_time references))

-- `CheckTransactionUTXOLock`
unfoldable pub check_transaction_utxo_lock : Store → Transaction → Result LockError (Unit {0})
check_transaction_utxo_lock store tx =
    if is_coin_base_tx tx
    then ok tt
    else (fail_if (length tx.inputs == 0) no_inputs >> elim (get_tx_reference store tx) [
      | none ↦ err no_references
      | some references ↦ check_locks tx.lock_time references
    ])

-- The loop of `IsDoubleSpend`: an input whose output is not among the unspent ones is a double spend.
unfoldable pub is_double_spend : (ℕ → Option (List ℕ)) → List Input → Bool
is_double_spend unspent [] = false
is_double_spend unspent (input ∷ inputs) = elim (unspent input.previous.tx_id) [
  | none ↦ true
  | some indexes ↦
      if is_member input.previous.index indexes then is_double_spend unspent inputs else true
]

-- The loop over the inputs at the end of `CheckTransactionContext`.
unfoldable pub check_referenced : Store → ℕ → ℕ → List Input → Result ErrCode (Unit {0})
check_referenced store height span [] = ok tt
check_referenced store height span (input ∷ inputs) = elim (store input.previous.tx_id) [
  | none ↦ err (rejected 45016)
  | some referred ↦ or_panic (get_elem? referred.outputs input.previous.index) >>= λ output.
      fail_if (ltb_ℤ output.value (pos 0)) (rejected 45017)
      >> (fail_if (is_coin_base_tx referred && ltb (sub32 height referred.lock_time) span)
            (rejected 45018)
          >> check_referenced store height span inputs)
]

-- A check that failed gives its code, whatever its message is.
abbrev pub with_code {ℓ} : {E : Type ℓ} → Result E (Unit {0}) → ErrCode → Result ErrCode (Unit {0})
with_code (ok _) code = ok tt
with_code (err _) code = err code
with_code panic code = panic

-- What the checks read besides the transaction.
pub record Rules : Type 0 where
  pub get_size : Transaction → ℕ
  pub max_block_size : ℕ
  pub prefixes : Prefixes
  pub asset : ℕ
  pub foundation : List ℕ
  pub three_tenths : ℤ → ℤ
  pub get_asset : ℕ → Option ℕ
  pub to_program_hash : List ℕ → Option (List ℕ)
  pub uint168_from_address : List ℕ → Option (List ℕ)
  pub to_address : List ℕ → Option (List ℕ)
  pub converted : ℤ → ℤ
  pub is_rate_positive : Bool
  pub is_proof_decoded : Transaction → Bool
  pub decode_ela : Transaction → Option ElaTransaction
  pub decode_main : Transaction → Option MainTransaction
  pub genesis_program_hash : Option (List ℕ)
  pub verify_signature : Transaction → Bool
  pub min_tx_fee : ℕ
  pub min_cross_chain_tx_fee : ℤ
  pub spend_coinbase_span : ℕ

-- `CheckTransactionSize`; an int that is not negative.
abbrev pub is_size_wrong : Rules → Transaction → Bool
is_size_wrong rules tx = (rules.get_size tx == 0) || ltb rules.max_block_size (rules.get_size tx)

-- `CheckTransactionSanity`
unfoldable pub check_transaction_sanity : Rules → Transaction → Result ErrCode (Unit {0})
check_transaction_sanity rules tx =
    fail_if (is_size_wrong rules tx) (rejected 45015)
    >> (with_code (check_transaction_input tx) (rejected 45003)
        >> (with_code
              (check_transaction_output rules.prefixes rules.asset rules.foundation
                rules.three_tenths tx)
              (rejected 45004)
            >> (with_code (check_asset_precision rules.get_asset tx) (rejected 45005)
                >> (with_code (check_attribute_program rules.to_program_hash tx) (rejected 45007)
                    >> with_code (check_transaction_payload tx) (rejected 45009)))))

-- What the store holds.
pub record Chain : Type 0 where
  pub store : Store
  pub unspent : ℕ → Option (List ℕ)
  pub is_mainchain_duplicate : ℕ → Bool
  pub height : ℕ

-- `IsTxHashDuplicate`
abbrev pub is_tx_hash_duplicate : Store → ℕ → Bool
is_tx_hash_duplicate store hash = elim (store hash) [ none ↦ false | some _ ↦ true ]

-- The check of a transfer to the main chain, if the transaction is one.
unfoldable pub check_cross_chain : Rules → Chain → Transaction → Result ErrCode (Unit {0})
check_cross_chain rules chain tx =
    if is_transfer_cross_chain_asset_tx tx
    then with_code
        (check_transfer_cross_chain_asset rules.uint168_from_address rules.prefixes.standard
          rules.prefixes.multisig rules.min_cross_chain_tx_fee chain.store tx)
        (rejected 45004)
    else ok tt

-- The checks of a transaction that is neither a coinbase nor a recharge.
unfoldable pub check_spending : Rules → Chain → Transaction → Result ErrCode (Unit {0})
check_spending rules chain tx =
    check_cross_chain rules chain tx
    >> (fail_if (is_double_spend chain.unspent tx.inputs) double_spend
        >> (with_code (check_transaction_utxo_lock chain.store tx) (rejected 45019)
            >> (with_code
                  (check_transaction_balance rules.converted rules.to_address rules.decode_main
                    (pos rules.min_tx_fee) chain.store tx)
                  (rejected 45006)
                >> check_referenced chain.store chain.height rules.spend_coinbase_span tx.inputs)))

-- `CheckTransactionContext`
unfoldable pub check_transaction_context : Rules → Chain → Transaction → Result ErrCode (Unit {0})
check_transaction_context rules chain tx =
    fail_if (is_tx_hash_duplicate chain.store tx.hash) (rejected 45011)
    >> (if is_coin_base_tx tx
        then ok tt
        else (fail_if (not (rules.verify_signature tx)) (rejected 45008)
            >> (if is_recharge_to_side_chain_tx tx
                then with_code
                    (check_recharge_to_side_chain rules.converted rules.uint168_from_address
                      rules.min_cross_chain_tx_fee rules.is_rate_positive rules.is_proof_decoded
                      rules.decode_ela chain.is_mainchain_duplicate rules.genesis_program_hash tx)
                    (rejected 45020)
                else check_spending rules chain tx)))
