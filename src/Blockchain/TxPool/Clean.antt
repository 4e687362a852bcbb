-- ===== src/Blockchain/TxPool/Clean.antt =====
-- What `CleanSubmittedTransactions` of blockchain/txpool.go takes out of the pool, and what it leaves.
use elastos_ela_side_chain.Common.{
  ℕ, zero, suc, ◌≡◌, refl, sym, subst, ◌∙◌, ◌≢◌, inl, inr, true, false, none, some, List, [], ◌∷◌,
  ==_iff, if◌then◌else◌, arith, Option-cases, ap, get_elem?, All,
}
use mathlib.Core.Option.{some-injective}
use elastos_ela_side_chain.Common.Table.{lookup, lookup-erase, insert, lookup-insert}
use elastos_ela_side_chain.Core.{
  OutPoint, Transaction, is_recharge_to_side_chain_tx, is_coin_base_tx,
}
use elastos_ela_side_chain.Blockchain.TxReference.{Store, get_tx_reference}
use elastos_ela_side_chain.Blockchain.TxPool.{
  TxPool, double_spend, mainchain_tx_duplicate, del_from_tx_list, verify_transaction_with_txn_pool,
  get_mainchain_tx_hash, clean_transaction_list, clean_utxo_list, clean_one_mainchain_tx,
  clean_mainchain_tx, clean_submitted_transactions,
}
use elastos_ela_side_chain.Blockchain.TxPool.Reserved.{Spends}
use elastos_ela_side_chain.Blockchain.TxPool.Release.{
  release_all-tx_list, clean_utxo_list-tx_list, clean_utxo_list-frees,
}

-- No transaction with the hash is listed.
abbrev Gone : ℕ → TxPool → Type 0
Gone hash pool = lookup hash pool.tx_list ≡ none

Gone-del_from_tx_list :
    (hash other : ℕ) (pool : TxPool) → Gone hash pool → Gone hash (del_from_tx_list other pool)
unfolding del_from_tx_list
Gone-del_from_tx_list hash other pool h = ground (arith, lookup-erase other hash pool.tx_list)

del_from_tx_list-Gone : (hash : ℕ) (pool : TxPool) → Gone hash (del_from_tx_list hash pool)
unfolding del_from_tx_list
del_from_tx_list-Gone hash pool =
    ground (arith, lookup-erase hash hash pool.tx_list, ==_iff hash hash)

still_listed :
    (tx ty : Transaction) (pool : TxPool)
    → tx.hash ≢ ty.hash
    → lookup ty.hash pool.tx_list ≡ some ty
    → lookup ty.hash (del_from_tx_list tx.hash pool).tx_list ≡ some ty
unfolding del_from_tx_list
still_listed tx ty pool ne h = ground (arith, lookup-erase tx.hash ty.hash pool.tx_list)

module _ (refer_key : OutPoint → ℕ) (store : Store) where
  Gone-clean_one_mainchain_tx :
      (tx : Transaction) (hash : ℕ) (pool : TxPool)
      → Gone hash pool
      → Gone hash (clean_one_mainchain_tx refer_key store tx pool)
  unfolding clean_one_mainchain_tx
  Gone-clean_one_mainchain_tx tx hash pool h = elim (Option-cases (get_mainchain_tx_hash tx)) [
    | inl unknown ↦ ground arith
    | inr (key, known) ↦ elim (Option-cases (lookup key pool.mainchain_tx_list)) [
      | inl absent ↦ ground arith
      | inr (old, present) ↦ ground (
        arith,
        release_all-tx_list refer_key store old.inputs (del_from_tx_list old.hash pool),
        Gone-del_from_tx_list hash old.hash pool h,
      )
    ]
  ]

  Gone-clean_mainchain_tx :
      (txs : List Transaction) (hash : ℕ) (pool : TxPool)
      → Gone hash pool
      → Gone hash (clean_mainchain_tx refer_key store txs pool)
  unfolding clean_mainchain_tx
  Gone-clean_mainchain_tx [] hash pool h = h
  Gone-clean_mainchain_tx (tx ∷ txs) hash pool h =
      Gone-clean_mainchain_tx txs hash
        (if is_recharge_to_side_chain_tx tx
          then clean_one_mainchain_tx refer_key store tx pool
          else pool)
        (ground (arith, Gone-clean_one_mainchain_tx tx hash pool h))

  Gone-clean_transaction_list :
      (txs : List Transaction) (hash : ℕ) (pool : TxPool)
      → Gone hash pool
      → Gone hash (clean_transaction_list refer_key store txs pool)
  unfolding clean_transaction_list
  Gone-clean_transaction_list [] hash pool h = h
  Gone-clean_transaction_list (tx ∷ txs) hash pool h =
      Gone-clean_transaction_list txs hash
        (if is_coin_base_tx tx then pool else del_from_tx_list tx.hash pool)
        (ground (arith, Gone-del_from_tx_list hash tx.hash pool h))

  clean_transaction_list-Gone :
      (txs : List Transaction) (i : ℕ) (pool : TxPool) {tx : Transaction}
      → get_elem? txs i ≡ some tx
      → is_coin_base_tx tx ≡ false
      → Gone tx.hash (clean_transaction_list refer_key store txs pool)
  unfolding clean_transaction_list
  clean_transaction_list-Gone [] i pool at_i normal = cc
  clean_transaction_list-Gone (ty ∷ txs) zero pool {tx} at_i normal =
      let same : tx ≡ ty = some-injective _ _ (sym at_i) in
      rw same (
        Gone-clean_transaction_list txs ty.hash
          (if is_coin_base_tx ty then pool else del_from_tx_list ty.hash pool)
          (rw (subst (λ t. is_coin_base_tx t ≡ false) same normal)
            (del_from_tx_list-Gone ty.hash pool)))
  clean_transaction_list-Gone (ty ∷ txs) (suc i) pool at_i normal =
      clean_transaction_list-Gone txs i
        (if is_coin_base_tx ty then pool else del_from_tx_list ty.hash pool) at_i normal

  -- No transaction of the block but its coinbase stays in the list.
  pub clean_submitted_transactions-Gone :
      (txs : List Transaction) (i : ℕ) (pool : TxPool) {tx : Transaction}
      → get_elem? txs i ≡ some tx
      → is_coin_base_tx tx ≡ false
      → lookup tx.hash (clean_submitted_transactions refer_key store txs pool).tx_list ≡ none
  unfolding clean_submitted_transactions
  clean_submitted_transactions-Gone txs i pool {tx} at_i normal =
      let cleaned = clean_transaction_list refer_key store txs pool in
      Gone-clean_mainchain_tx txs tx.hash (clean_utxo_list refer_key store txs cleaned) (
        ap (lookup tx.hash) (clean_utxo_list-tx_list refer_key store txs cleaned)
        ∙ clean_transaction_list-Gone txs i pool at_i normal)

  clean_transaction_list-listed :
      (txs : List Transaction) (ty : Transaction) (pool : TxPool)
      → All (λ (tx : Transaction). tx.hash ≢ ty.hash) txs
      → lookup ty.hash pool.tx_list ≡ some ty
      → lookup ty.hash (clean_transaction_list refer_key store txs pool).tx_list ≡ some ty
  unfolding clean_transaction_list
  clean_transaction_list-listed [] ty pool others listed = listed
  clean_transaction_list-listed (tx ∷ txs) ty pool others listed =
      clean_transaction_list-listed txs ty
        (if is_coin_base_tx tx then pool else del_from_tx_list tx.hash pool) others.1
        (ground (arith, still_listed tx ty pool others.0 listed))

  clean_mainchain_tx-none :
      (txs : List Transaction) (pool : TxPool)
      → All (λ tx. is_recharge_to_side_chain_tx tx ≡ false) txs
      → clean_mainchain_tx refer_key store txs pool ≡ pool
  unfolding clean_mainchain_tx
  clean_mainchain_tx-none [] pool regular = refl
  clean_mainchain_tx-none (tx ∷ txs) pool regular =
      rw regular.0 (clean_mainchain_tx-none txs pool regular.1)

  -- When a block without a recharge is cleaned, a listed transaction whose hash no transaction of the
  -- block has stays listed, while each output that a transaction of the block spends is no longer
  -- reserved, whichever transaction of the pool holds the reservation.
  pub clean_submitted_transactions-conflict :
      (txs : List Transaction) (i : ℕ) (tx ty : Transaction) (pool : TxPool) (key : ℕ)
      → All (λ t. is_recharge_to_side_chain_tx t ≡ false) txs
      → All (λ (t : Transaction). t.hash ≢ ty.hash) txs
      → lookup ty.hash pool.tx_list ≡ some ty
      → get_elem? txs i ≡ some tx
      → Spends refer_key store tx key
      → let pool' = clean_submitted_transactions refer_key store txs pool in
        (lookup ty.hash pool'.tx_list ≡ some ty) × (lookup key pool'.input_utxo_list ≡ none)
  unfolding clean_submitted_transactions
  clean_submitted_transactions-conflict txs i tx ty pool key regular others listed at_i spends =
      let cleaned = clean_transaction_list refer_key store txs pool in
      let released = clean_utxo_list refer_key store txs cleaned in
      let kept = clean_mainchain_tx-none txs released regular in
      (
        ap (λ (p : TxPool). lookup ty.hash p.tx_list) kept
            ∙ ap (lookup ty.hash) (clean_utxo_list-tx_list refer_key store txs cleaned)
            ∙ clean_transaction_list-listed txs ty pool others listed,
        ap (λ (p : TxPool). lookup key p.input_utxo_list) kept
            ∙ clean_utxo_list-frees refer_key store txs i cleaned key at_i spends,
      )

  -- A recharge transaction that fails the double spend check, here for a reference that is not
  -- found, leaves its mark in the table of main chain transactions: from then on the pool rejects
  -- every other recharge of that main chain transaction as a duplicate.
  pub verify_transaction_with_txn_pool-mark :
      (tx ty : Transaction) (pool : TxPool) (key : ℕ)
      → is_recharge_to_side_chain_tx tx ≡ true
      → is_recharge_to_side_chain_tx ty ≡ true
      → get_mainchain_tx_hash tx ≡ some key
      → get_mainchain_tx_hash ty ≡ some key
      → lookup key pool.mainchain_tx_list ≡ none
      → get_tx_reference store tx ≡ none
      → let (code, pool') = verify_transaction_with_txn_pool refer_key store tx pool in
        (code ≡ double_spend)
        × ((verify_transaction_with_txn_pool refer_key store ty pool').0 ≡ mainchain_tx_duplicate)
  unfolding verify_transaction_with_txn_pool
  verify_transaction_with_txn_pool-mark tx ty pool key rx ry kx ky absent unknown =
      let marked : lookup key (insert key tx pool.mainchain_tx_list) ≡ some tx =
        lookup-insert key key tx pool.mainchain_tx_list ∙ ground (arith, ==_iff key key) in
      (ground arith, ground arith)
