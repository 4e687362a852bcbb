-- ===== src/Blockchain/TxPool/Release.antt =====
-- What the methods of blockchain/txpool.go that release the reservations of spent outputs free and keep.
use elastos_ela_side_chain.Common.{
  ℕ, zero, suc, ◌≡◌, refl, sym, subst, ◌∙◌, Option, none, some, List, [], ◌∷◌, arith, ap, get_elem?,
  map,
}
use mathlib.Core.Option.{some-injective}
use elastos_ela_side_chain.Common.Table.{lookup, lookup-erase}
use elastos_ela_side_chain.Core.{OutPoint, Input, Output, Transaction}
use elastos_ela_side_chain.Blockchain.TxReference.{Store, get_tx_reference}
use elastos_ela_side_chain.Blockchain.TxPool.{
  TxPool, del_input_utxo_list, release_all, release_references, input_key, clean_utxo_list,
}
use elastos_ela_side_chain.Blockchain.TxPool.Reserved.{Spends}

module _ (refer_key : OutPoint → ℕ) (store : Store) where
  pub release_all-tx_list :
      (inputs : List Input) (pool : TxPool)
      → (release_all refer_key inputs pool).tx_list ≡ pool.tx_list
  unfolding release_all del_input_utxo_list
  release_all-tx_list [] pool = refl
  release_all-tx_list (input ∷ inputs) pool =
      release_all-tx_list inputs (del_input_utxo_list refer_key input pool)

  -- What is free stays free while outputs are released.
  release_all-free :
      (inputs : List Input) (pool : TxPool) (key : ℕ)
      → lookup key pool.input_utxo_list ≡ none
      → lookup key (release_all refer_key inputs pool).input_utxo_list ≡ none
  unfolding release_all del_input_utxo_list
  release_all-free [] pool key h = h
  release_all-free (input ∷ inputs) pool key h =
      release_all-free inputs (del_input_utxo_list refer_key input pool) key
        (ground (arith, lookup-erase (input_key refer_key input) key pool.input_utxo_list))

  -- Every output of the list is free in the end.
  release_all-frees :
      (references : List (Input × Output)) (i : ℕ) (pool : TxPool) (key : ℕ) {r : Input × Output}
      → get_elem? references i ≡ some r
      → input_key refer_key r.0 ≡ key
      → lookup key (release_all refer_key (map (λ q. q.0) references) pool).input_utxo_list ≡ none
  unfolding release_all del_input_utxo_list
  release_all-frees [] i pool key at_i e = cc
  release_all-frees (q ∷ references) zero pool key {r} at_i e =
      let first : q ≡ r = some-injective _ _ at_i in
      release_all-free (map (λ q. q.0) references) (del_input_utxo_list refer_key q.0 pool) key (
        ground (
          arith,
          lookup-erase (input_key refer_key q.0) key pool.input_utxo_list,
          ap (λ (s : Input × Output). input_key refer_key s.0) first,
        ))
  release_all-frees (q ∷ references) (suc i) pool key at_i e =
      release_all-frees references i (del_input_utxo_list refer_key q.0 pool) key at_i e

  release_references-tx_list :
      (tx : Transaction) (pool : TxPool)
      → (release_references refer_key store tx pool).tx_list ≡ pool.tx_list
  unfolding release_references
  release_references-tx_list tx pool = go (get_tx_reference store tx)
    where
      go :
          (found : Option (List (Input × Output)))
          → TxPool.tx_list (elim found [
            | none ↦ pool
            | some references ↦ release_all refer_key (map (λ r. r.0) references) pool
          ])
            ≡ pool.tx_list
      go none = refl
      go (some references) = release_all-tx_list (map (λ r. r.0) references) pool

  pub clean_utxo_list-tx_list :
      (txs : List Transaction) (pool : TxPool)
      → (clean_utxo_list refer_key store txs pool).tx_list ≡ pool.tx_list
  unfolding clean_utxo_list
  clean_utxo_list-tx_list [] pool = refl
  clean_utxo_list-tx_list (tx ∷ txs) pool =
      clean_utxo_list-tx_list txs (release_references refer_key store tx pool)
      ∙ release_references-tx_list tx pool

  release_references-frees :
      (tx : Transaction) (pool : TxPool) (key : ℕ)
      → Spends refer_key store tx key
      → lookup key (release_references refer_key store tx pool).input_utxo_list ≡ none
  unfolding release_references
  release_references-frees tx pool key (references, i, r, found, at_i, e) =
      rw (found, release_references) (release_all-frees references i pool key at_i e)

  release_references-free :
      (tx : Transaction) (pool : TxPool) (key : ℕ)
      → lookup key pool.input_utxo_list ≡ none
      → lookup key (release_references refer_key store tx pool).input_utxo_list ≡ none
  unfolding release_references
  release_references-free tx pool key h = go (get_tx_reference store tx)
    where
      go :
          (found : Option (List (Input × Output)))
          → lookup key (
              TxPool.input_utxo_list (elim found [
                | none ↦ pool
                | some references ↦ release_all refer_key (map (λ r. r.0) references) pool
              ]))
            ≡ none
      go none = h
      go (some references) = release_all-free (map (λ r. r.0) references) pool key h

  clean_utxo_list-free :
      (txs : List Transaction) (pool : TxPool) (key : ℕ)
      → lookup key pool.input_utxo_list ≡ none
      → lookup key (clean_utxo_list refer_key store txs pool).input_utxo_list ≡ none
  unfolding clean_utxo_list
  clean_utxo_list-free [] pool key h = h
  clean_utxo_list-free (tx ∷ txs) pool key h =
      clean_utxo_list-free txs (release_references refer_key store tx pool) key
        (release_references-free tx pool key h)

  -- Every output that a transaction of the list spends is free in the end.
  pub clean_utxo_list-frees :
      (txs : List Transaction) (i : ℕ) (pool : TxPool) (key : ℕ) {tx : Transaction}
      → get_elem? txs i ≡ some tx
      → Spends refer_key store tx key
      → lookup key (clean_utxo_list refer_key store txs pool).input_utxo_list ≡ none
  unfolding clean_utxo_list
  clean_utxo_list-frees [] i pool key at_i spends = cc
  clean_utxo_list-frees (ty ∷ txs) zero pool key at_i spends =
      let same = some-injective _ _ (sym at_i) in
      clean_utxo_list-free txs (release_references refer_key store ty pool) key (
        release_references-frees ty pool key
          (subst (λ t. Spends refer_key store t key) same spends))
  clean_utxo_list-frees (ty ∷ txs) (suc i) pool key at_i spends =
      clean_utxo_list-frees txs i (release_references refer_key store ty pool) key at_i spends
