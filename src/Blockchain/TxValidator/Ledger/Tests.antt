-- ===== src/Blockchain/TxValidator/Ledger/Tests.antt =====
-- A transaction that passes the checks of `CheckTransactionSanity` and `CheckTransactionContext`.
use mathlib.Core.Option.{some-injective}
use elastos_ela_side_chain.Common.{
  ◌^◌, ◌<◌, ◌↔◌, Bool, subst, All, ℕ, ◌+◌, ◌≤◌, ◌≡◌, refl, true, false, some, none, [], ◌∷◌, ◌==◌,
  if◌then◌else◌, arith,
}
use elastos_ela_side_chain.Common.Int.{◌+ℤ◌, ◌-ℤ◌}
use elastos_ela_side_chain.Common.Result.{ok}
use elastos_ela_side_chain.Common.Table.{lookup, insert, erase}
use elastos_ela_side_chain.Core.{Transaction}
use elastos_ela_side_chain.Blockchain.TxReference.{
  Store, get_tx_reference, input_references, referenced_output,
}
use elastos_ela_side_chain.Blockchain.Fees.{
  add_amount, asset_sums, subtract_outputs, keep_inputs, get_tx_fee_map, check_transaction_balance,
}
use elastos_ela_side_chain.Blockchain.Fees.Sums.{total}
use elastos_ela_side_chain.Blockchain.Fees.Conservation.{coin}
use elastos_ela_side_chain.Blockchain.Fixtures.{
  holder, input_of, prefixes, coinbase_tx, spending_tx, store, unspent, chain, rules,
}
use elastos_ela_side_chain.Blockchain.TxValidator.Inputs.{
  is_null_point, check_inputs, check_transaction_input,
}
use elastos_ela_side_chain.Blockchain.TxValidator.Outputs.{
  check_output_program_hash, check_outputs, check_transaction_output, check_attributes,
  check_programs, check_attribute_program,
}
use elastos_ela_side_chain.Blockchain.TxValidator.Outputs.Sound.{IsPayable}
use elastos_ela_side_chain.Blockchain.TxValidator.Precision.{
  precision_unit, check_amount_precise, group_outputs, check_group, check_groups,
  check_asset_precision, check_transaction_payload,
}
use elastos_ela_side_chain.Blockchain.TxValidator.Precision.Sound.{IsPrecise}
use elastos_ela_side_chain.Blockchain.TxValidator.Ledger.{
  check_locks, check_transaction_utxo_lock, is_double_spend, check_referenced,
  check_transaction_sanity, is_tx_hash_duplicate, check_cross_chain, check_spending,
  check_transaction_context,
}
use elastos_ela_side_chain.Blockchain.TxValidator.Ledger.Locks.{IsUnspent, IsMature, IsUnlocked}
use elastos_ela_side_chain.Blockchain.TxValidator.Ledger.Spendable.{
  IsSpendable, check_referenced-IsSpendable,
}
use elastos_ela_side_chain.Blockchain.TxValidator.Ledger.Context.{
  check_transaction_sanity_sound, check_transaction_context-spends,
  check_transaction_context-conserves,
}

spending_tx_is_sane : check_transaction_sanity rules spending_tx ≡ ok tt
unfolding check_transaction_sanity check_transaction_input check_inputs check_transaction_output
    check_outputs check_output_program_hash check_asset_precision check_groups check_group
    group_outputs check_amount_precise precision_unit check_attribute_program check_attributes
    check_programs check_transaction_payload lookup insert erase
spending_tx_is_sane = refl

check_transaction_sanity_sound_example :
    IsPayable prefixes 5 (coin 5 70 holder)
    × IsPrecise rules.get_asset (coin 5 70 holder)
    × (◌≡◌ {A = ℕ} 0 0)
    × (is_null_point (input_of 1 0).previous ≡ false)
check_transaction_sanity_sound_example =
    check_transaction_sanity_sound rules spending_tx refl refl 0 0 0 (input_of 1 0) (input_of 1 0)
      (coin 5 70 holder) spending_tx_is_sane refl refl refl refl

spending_tx_fits : check_transaction_context rules chain spending_tx ≡ ok tt
unfolding check_transaction_context check_spending check_cross_chain is_double_spend
    check_transaction_utxo_lock check_locks check_referenced check_transaction_balance
    get_tx_fee_map get_tx_reference input_references referenced_output asset_sums add_amount
    subtract_outputs keep_inputs lookup insert erase ◌+ℤ◌ ◌-ℤ◌
spending_tx_fits = refl

spending_tx_found :
    get_tx_reference store spending_tx ≡ some ((input_of 1 0, coin 5 100 holder) ∷ [])
unfolding get_tx_reference input_references referenced_output
spending_tx_found = refl

check_transaction_context-spends_example :
    IsUnspent unspent (input_of 1 0)
    × IsMature store 9 100 (input_of 1 0)
    × (is_tx_hash_duplicate store 2 ≡ false)
    × (rules.verify_signature spending_tx ≡ true)
check_transaction_context-spends_example =
    check_transaction_context-spends rules spending_tx refl refl chain 0 (input_of 1 0)
      spending_tx_fits refl

check_transaction_context-conserves_example :
    (total 5 (coin 5 70 holder ∷ []) + 10 ≤ total 5 (coin 5 100 holder ∷ []))
    × IsUnlocked 0 (input_of 1 0, coin 5 100 holder)
check_transaction_context-conserves_example =
    check_transaction_context-conserves rules spending_tx refl refl chain
      ((input_of 1 0, coin 5 100 holder) ∷ []) 5 0 (input_of 1 0, coin 5 100 holder)
      spending_tx_fits spending_tx_found refl (omega arith) (omega arith) refl

-- A coinbase whose lock time is above the height 9.
abbrev early_coinbase : Transaction
early_coinbase = record coinbase_tx { lock_time = 50 }

abbrev coinbase_store : Store
coinbase_store hash = if hash == 3 then some early_coinbase else none

early_coinbase_is_spendable : check_referenced coinbase_store 9 100 (input_of 3 1 ∷ []) ≡ ok tt
unfolding check_referenced
early_coinbase_is_spendable = refl

coinbase_store_fits :
    (hash : ℕ) (tx : Transaction) → coinbase_store hash ≡ some tx → tx.lock_time < 2 ^ 32
coinbase_store_fits hash tx e = go (hash == 3) e
  where
    go : (t : Bool) → (if t then some early_coinbase else none) ≡ some tx → tx.lock_time < 2 ^ 32
    go false e = cc
    go true e =
        subst (λ (t : Transaction). t.lock_time < 2 ^ 32) (some-injective _ _ e) (omega arith)

check_referenced-IsSpendable_example :
    (check_referenced coinbase_store 9 100 (input_of 3 1 ∷ []) ≡ ok tt)
    ↔ All (IsSpendable coinbase_store 9 100) (input_of 3 1 ∷ [])
check_referenced-IsSpendable_example =
    check_referenced-IsSpendable coinbase_store 9 100 (omega arith) coinbase_store_fits
      (input_of 3 1 ∷ [])
