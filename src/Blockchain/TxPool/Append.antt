-- ===== src/Blockchain/TxPool/Append.antt =====
-- What `AppendToTxnPool` of blockchain/txpool.go does to the pool, on every path.
use elastos_ela_side_chain.Common.{
  ℕ, ◌≡◌, refl, sym, ◌∙◌, ◌≢◌, ◌⊎◌, inl, inr, Bool, true, false, Option, none, some, List, [], ◌∷◌,
  ◌==◌, ==_iff, if◌then◌else◌, arith, All-map, ap,
}
use mathlib.Core.Option.{some-injective}
use elastos_ela_side_chain.Common.Table.{lookup, lookup-insert, lookup-empty}
use elastos_ela_side_chain.Core.{OutPoint, Input, Output, Transaction, is_recharge_to_side_chain_tx}
use elastos_ela_side_chain.Blockchain.TxReference.{Store, get_tx_reference}
use elastos_ela_side_chain.Blockchain.TxPool.{
  TxPool, ErrCode, success, double_spend, mainchain_tx_duplicate, add_to_tx_list, any_reserved,
  empty_pool, reserve_all, verify_inputs, verify_transaction_with_txn_pool,
  verify_duplicate_mainchain_tx, append_to_txn_pool, input_key,
}
use elastos_ela_side_chain.Blockchain.TxPool.Reserved.{
  Holds, Spends, IsReserved, IsReserved-no_double_spend, any_reserved-Open, reserve_all-kept,
  reserve_all-tx_list, reserve_all-Holds, or_else,
}

module _ (refer_key : OutPoint → ℕ) (store : Store) where
  -- The transaction has its reservations, and nothing that was reserved has changed hands.
  abbrev pub Accepted : Transaction → TxPool → TxPool → Type 0
  Accepted tx pool pool' =
      (references : List (Input × Output)) × (get_tx_reference store tx ≡ some references)
      × Holds refer_key store tx references pool'
      × ((key : ℕ) (owner : Transaction)
          → lookup key pool.input_utxo_list ≡ some owner
          → lookup key pool'.input_utxo_list ≡ some owner)

  -- How a check of the pool ends: with the transactions listed as they were, and the reservations
  -- made if the code is success and untouched if it is not.
  abbrev pub Outcome : Transaction → TxPool → ErrCode × TxPool → Type 0
  Outcome tx pool (code, pool') =
      (pool'.tx_list ≡ pool.tx_list)
      × (((code ≡ success) × Accepted tx pool pool')
          ⊎ ((code ≢ success) × (pool'.input_utxo_list ≡ pool.input_utxo_list)))

  module _ (tx : Transaction) (pool : TxPool) where
    verify_inputs-unknown :
        get_tx_reference store tx ≡ none
        → verify_inputs refer_key store tx pool ≡ (double_spend, pool)
    unfolding verify_inputs
    verify_inputs-unknown e = ground arith

    verify_inputs-known :
        (references : List (Input × Output)) (reserved : Bool)
        → get_tx_reference store tx ≡ some references
        → any_reserved refer_key references pool ≡ reserved
        → verify_inputs refer_key store tx pool ≡ (
            if reserved
            then (double_spend, pool)
            else (success, reserve_all refer_key tx references pool))
    unfolding verify_inputs
    verify_inputs-known references true found e = ground arith
    verify_inputs-known references false found e = ground arith

    fresh-Accepted :
        (references : List (Input × Output))
        → get_tx_reference store tx ≡ some references
        → any_reserved refer_key references pool ≡ false
        → Accepted tx pool (reserve_all refer_key tx references pool)
    fresh-Accepted references found e = (
      references,
      found,
      reserve_all-Holds refer_key store tx references pool
          (any_reserved-Open refer_key store tx references pool e),
      λ key owner h. reserve_all-kept refer_key store tx references pool key h,
    )

    verify_inputs-Outcome : Outcome tx pool (verify_inputs refer_key store tx pool)
    verify_inputs-Outcome = go (get_tx_reference store tx) refl
      where
        known :
            (references : List (Input × Output)) (reserved : Bool)
            → get_tx_reference store tx ≡ some references
            → any_reserved refer_key references pool ≡ reserved
            → Outcome tx pool (verify_inputs refer_key store tx pool)
        known references true found e =
            rw (verify_inputs-known references true found e) (refl, inr (cc, refl))
        known references false found e = rw (verify_inputs-known references false found e) (
          reserve_all-tx_list refer_key store tx references pool,
          inl (refl, fresh-Accepted references found e),
        )

        go :
            (found : Option (List (Input × Output)))
            → get_tx_reference store tx ≡ found
            → Outcome tx pool (verify_inputs refer_key store tx pool)
        go none e = rw (verify_inputs-unknown e) (refl, inr (cc, refl))
        go (some references) e = known references (any_reserved refer_key references pool) e refl

    -- The check for a duplicate main chain transaction leaves the transactions and the reservations.
    verify_duplicate-keeps :
        let (_, pool') = verify_duplicate_mainchain_tx tx pool in
        (pool'.tx_list ≡ pool.tx_list) × (pool'.input_utxo_list ≡ pool.input_utxo_list)
    unfolding verify_duplicate_mainchain_tx
    verify_duplicate-keeps = (ground arith, ground arith)

  -- An outcome from a pool with the same transactions and reservations.
  Outcome-transport :
      (tx : Transaction) (pool before : TxPool) (o : ErrCode × TxPool)
      → before.tx_list ≡ pool.tx_list
      → before.input_utxo_list ≡ pool.input_utxo_list
      → Outcome tx before o
      → Outcome tx pool o
  Outcome-transport tx pool before (code, after) same_txs same_inputs (txs, how) =
      (txs ∙ same_txs, carry how)
    where
      carry :
          ((code ≡ success) × Accepted tx before after)
            ⊎ ((code ≢ success) × (after.input_utxo_list ≡ before.input_utxo_list))
          → ((code ≡ success) × Accepted tx pool after)
            ⊎ ((code ≢ success) × (after.input_utxo_list ≡ pool.input_utxo_list))
      carry (inl (e, (references, found, holds, kept))) = inl (
        e,
        (references, found, holds, λ key owner h. kept key owner (ap (lookup key) same_inputs ∙ h)),
      )
      carry (inr (e, same)) = inr (e, same ∙ same_inputs)

  pub verify_transaction_with_txn_pool-Outcome :
      (tx : Transaction) (pool : TxPool)
      → Outcome tx pool (verify_transaction_with_txn_pool refer_key store tx pool)
  unfolding verify_transaction_with_txn_pool
  verify_transaction_with_txn_pool-Outcome tx pool =
      go (is_recharge_to_side_chain_tx tx) (verify_duplicate_mainchain_tx tx pool)
        (verify_duplicate-keeps tx pool)
    where
      go :
          (recharges : Bool) (d : Bool × TxPool)
          → (d.1.tx_list ≡ pool.tx_list) × (d.1.input_utxo_list ≡ pool.input_utxo_list)
          → Outcome tx pool (
              if recharges
              then (if d.0
                  then verify_inputs refer_key store tx d.1
                  else (mainchain_tx_duplicate, d.1))
              else verify_inputs refer_key store tx pool)
      go false d same = verify_inputs-Outcome tx pool
      go true (true, pool') same =
          Outcome-transport tx pool pool' (verify_inputs refer_key store tx pool') same.0 same.1
            (verify_inputs-Outcome tx pool')
      go true (false, pool') same = (same.0, inr (cc, same.1))

  -- The transaction is listed under its hash unless one with its hash was there before, and no
  -- other entry changes.
  lookup-add_to_tx_list :
      (tx : Transaction) (pool : TxPool) (hash : ℕ)
      → lookup hash (add_to_tx_list tx pool).tx_list
        ≡ or_else (lookup hash pool.tx_list) (if tx.hash == hash then some tx else none)
  unfolding add_to_tx_list
  lookup-add_to_tx_list tx pool hash =
      ground (arith, lookup-insert tx.hash hash tx pool.tx_list, ==_iff tx.hash hash)

  add_to_tx_list-input_utxo_list :
      (tx : Transaction) (pool : TxPool)
      → (add_to_tx_list tx pool).input_utxo_list ≡ pool.input_utxo_list
  unfolding add_to_tx_list
  add_to_tx_list-input_utxo_list tx pool = ground arith

  -- How `AppendToTxnPool` ends. A transaction that is taken is listed under its hash (or another
  -- with its hash already was), holds a reservation for every output it refers to, and takes no
  -- reservation from another; one that is not taken leaves the listed transactions and the
  -- reservations as they were.
  abbrev pub Appended : Transaction → TxPool → ErrCode × TxPool → Type 0
  Appended tx pool (code, pool') =
      ((code ≡ success)
        × Accepted tx pool pool'
        × ((hash : ℕ)
            → lookup hash pool'.tx_list
              ≡ or_else (lookup hash pool.tx_list) (if tx.hash == hash then some tx else none)))
      ⊎ ((code ≢ success)
          × (pool'.tx_list ≡ pool.tx_list)
          × (pool'.input_utxo_list ≡ pool.input_utxo_list))

  listed :
      (tx : Transaction) (pool pool' : TxPool)
      → pool'.tx_list ≡ pool.tx_list
      → Accepted tx pool pool'
      → Appended tx pool (success, add_to_tx_list tx pool')
  listed tx pool pool' same (references, found, holds, kept) = inl (
    refl,
    rw (add_to_tx_list-input_utxo_list tx pool') (references, found, holds, kept),
    λ hash.
        lookup-add_to_tx_list tx pool' hash
        ∙ ap (λ l. or_else (lookup hash l) (if tx.hash == hash then some tx else none)) same,
  )

  -- `AppendToTxnPool` on the codes of the two checks and what the pool's own check gives.
  abbrev finish : Transaction → TxPool → ErrCode → ErrCode → ErrCode × TxPool → ErrCode × TxPool
  finish tx pool sane fits (code, pool') = elim sane [
    | success ↦ elim fits [
      | success ↦ elim code [
        | success ↦ (success, add_to_tx_list tx pool')
        | other ↦ (other, pool')
      ]
      | other ↦ (other, pool)
    ]
    | other ↦ (other, pool)
  ]

  finish-Appended :
      (tx : Transaction) (pool : TxPool) (sane fits : ErrCode) (o : ErrCode × TxPool)
      → Outcome tx pool o
      → Appended tx pool (finish tx pool sane fits o)
  finish-Appended tx pool success success (success, pool') (txs, inl (e, accepted)) =
      listed tx pool pool' txs accepted
  finish-Appended tx pool success success (success, pool') (txs, inr (e, _)) = absurd (e refl)
  finish-Appended tx pool success success (code, pool') (txs, inl (e, _)) = cc
  finish-Appended tx pool success success (code, pool') (txs, inr (e, same)) = inr (cc, txs, same)
  finish-Appended tx pool success _ o h = inr (cc, refl, refl)
  finish-Appended tx pool _ _ o h = inr (cc, refl, refl)

  -- The entry that a lookup after the addition finds is an old one, or the new transaction.
  listed_cases :
      (old : Option Transaction) (tx ty : Transaction) (hash : ℕ)
      → or_else old (if tx.hash == hash then some tx else none) ≡ some ty
      → (old ≡ some ty) ⊎ ((tx.hash ≡ hash) × (tx ≡ ty))
  listed_cases (some old) tx ty hash e = inl e
  listed_cases none tx ty hash e = ground arith

  Appended-IsReserved :
      (tx : Transaction) (pool : TxPool) (o : ErrCode × TxPool)
      → IsReserved refer_key store pool
      → Appended tx pool o
      → IsReserved refer_key store o.1
  Appended-IsReserved tx pool (code, pool') inv (inl (_, (references, found, holds, kept), list))
        hash ty h =
      go (listed_cases (lookup hash pool.tx_list) tx ty hash (sym (list hash) ∙ h))
    where
      go :
          (lookup hash pool.tx_list ≡ some ty) ⊎ ((tx.hash ≡ hash) × (tx ≡ ty))
          → (ty.hash ≡ hash)
            × ((rs : List (Input × Output))
                → get_tx_reference store ty ≡ some rs
                → Holds refer_key store ty rs pool')
      go (inl old) = (
        (inv hash ty old).0,
        λ rs e.
            All-map rs (λ r held. kept (input_key refer_key r.0) ty held)
              ((inv hash ty old).1 rs e),
      )
      go (inr (key, same)) = (
        rw (← same) key,
        λ rs e.
            rw (← some-injective _ _ (sym found ∙ ap (get_tx_reference store) same ∙ e), ← same)
              holds,
      )
  Appended-IsReserved tx pool (code, pool') inv (inr (_, txs, inputs)) hash ty h =
      let old : lookup hash pool.tx_list ≡ some ty = ap (lookup hash) (sym txs) ∙ h in
      (
        (inv hash ty old).0,
        λ rs e.
            All-map rs (λ r held. ap (lookup (input_key refer_key r.0)) inputs ∙ held)
              ((inv hash ty old).1 rs e),
      )

  module _ (check_sanity check_context : Transaction → ErrCode) where
    -- A transaction that is not taken leaves the listed transactions and the reservations as they
    -- were. One that is taken is listed under its hash (or another with its hash already was), holds
    -- a reservation for every output it refers to, and takes no reservation from another.
    pub append_to_txn_pool-Appended :
        (tx : Transaction) (pool : TxPool)
        → Appended tx pool (append_to_txn_pool refer_key store check_sanity check_context tx pool)
    unfolding append_to_txn_pool
    append_to_txn_pool-Appended tx pool =
        finish-Appended tx pool (check_sanity tx) (check_context tx)
          (verify_transaction_with_txn_pool refer_key store tx pool)
          (verify_transaction_with_txn_pool-Outcome tx pool)

    -- `AppendToTxnPool` keeps the invariant of the reservations, whatever the two checks say.
    pub append_to_txn_pool-IsReserved :
        (tx : Transaction) (pool : TxPool)
        → IsReserved refer_key store pool
        → IsReserved refer_key store
            (append_to_txn_pool refer_key store check_sanity check_context tx pool).1
    append_to_txn_pool-IsReserved tx pool inv =
        Appended-IsReserved tx pool
          (append_to_txn_pool refer_key store check_sanity check_context tx pool) inv
          (append_to_txn_pool-Appended tx pool)

    -- The pool after a series of transactions has been handed to it, those it refuses included.
    unfoldable pub append_all : List Transaction → TxPool → TxPool
    append_all [] pool = pool
    append_all (tx ∷ txs) pool =
        append_all txs (append_to_txn_pool refer_key store check_sanity check_context tx pool).1

    append_all-IsReserved :
        (txs : List Transaction) (pool : TxPool)
        → IsReserved refer_key store pool
        → IsReserved refer_key store (append_all txs pool)
    unfolding append_all
    append_all-IsReserved [] pool inv = inv
    append_all-IsReserved (tx ∷ txs) pool inv =
        append_all-IsReserved txs
          (append_to_txn_pool refer_key store check_sanity check_context tx pool).1
          (append_to_txn_pool-IsReserved tx pool inv)

    empty_pool-IsReserved : IsReserved refer_key store empty_pool
    empty_pool-IsReserved hash tx h = cc (lookup-empty {V = Transaction} hash)

    -- Whatever transactions are handed to an empty pool, in whatever order, it never lists two that
    -- spend one output: two listed transactions that spend it are the same transaction.
    pub append_all-no_double_spend :
        (txs : List Transaction) (h k key : ℕ) (tx ty : Transaction)
        → lookup h (append_all txs empty_pool).tx_list ≡ some tx
        → lookup k (append_all txs empty_pool).tx_list ≡ some ty
        → Spends refer_key store tx key
        → Spends refer_key store ty key
        → tx ≡ ty
    append_all-no_double_spend txs h k key tx ty =
        IsReserved-no_double_spend refer_key store (append_all txs empty_pool) h k key tx ty
          (append_all-IsReserved txs empty_pool empty_pool-IsReserved)
