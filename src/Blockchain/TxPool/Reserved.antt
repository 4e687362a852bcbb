-- ===== src/Blockchain/TxPool/Reserved.antt =====
-- The invariant of the pool of blockchain/txpool.go: a transaction in the list has reserved every
-- output that it spends.
use elastos_ela_side_chain.Common.{
  ℕ, ◌≡◌, refl, sym, ◌∙◌, ◌⊎◌, inl, inr, false, Option, none, some, List, [], ◌∷◌, ◌==◌, ==_iff,
  if◌then◌else◌, arith, Option-cases, All, All-map, All-get_elem?, get_elem?, ap,
}
use mathlib.Core.Option.{some-injective}
use elastos_ela_side_chain.Common.Table.{lookup, lookup-insert}
use elastos_ela_side_chain.Core.{OutPoint, Input, Output, Transaction}
use elastos_ela_side_chain.Blockchain.TxReference.{Store, get_tx_reference}
use elastos_ela_side_chain.Blockchain.TxPool.{
  TxPool, input_key, add_input_utxo_list, any_reserved, reserve_all,
}

-- The first value, or else the second.
abbrev pub or_else : Option Transaction → Option Transaction → Option Transaction
or_else (some tx) other = some tx
or_else none other = other

module _ (refer_key : OutPoint → ℕ) (store : Store) where
  -- The transaction holds the reservations of the outputs.
  abbrev pub Holds : Transaction → List (Input × Output) → TxPool → Type 0
  Holds tx references pool =
      All (λ r. lookup (input_key refer_key r.0) pool.input_utxo_list ≡ some tx) references

  -- Every transaction stands under its hash and holds the reservations of all that it refers to.
  abbrev pub IsReserved : TxPool → Type 0
  IsReserved pool =
      (hash : ℕ) (tx : Transaction)
      → lookup hash pool.tx_list ≡ some tx
      → (tx.hash ≡ hash)
        × ((references : List (Input × Output))
            → get_tx_reference store tx ≡ some references
            → Holds tx references pool)

  -- One of the outputs that the transaction refers to has this key.
  abbrev pub Spends : Transaction → ℕ → Type 0
  Spends tx key =
      (references : List (Input × Output)) × (i : ℕ) × (r : Input × Output) × (get_tx_reference
          store tx
        ≡ some references)
      × (get_elem? references i ≡ some r)
      × (input_key refer_key r.0 ≡ key)

  Spends-reserved :
      (pool : TxPool) (hash key : ℕ) (tx : Transaction)
      → IsReserved pool
      → lookup hash pool.tx_list ≡ some tx
      → Spends tx key
      → lookup key pool.input_utxo_list ≡ some tx
  Spends-reserved pool hash key tx inv listed (references, i, r, found, at_i, e) =
      rw e at (All-get_elem? _ references i ((inv hash tx listed).1 references found) at_i)

  -- In such a pool no output is spent twice: two listed transactions that spend one output are the
  -- same transaction.
  pub IsReserved-no_double_spend :
      (pool : TxPool) (h k key : ℕ) (tx ty : Transaction)
      → IsReserved pool
      → lookup h pool.tx_list ≡ some tx
      → lookup k pool.tx_list ≡ some ty
      → Spends tx key
      → Spends ty key
      → tx ≡ ty
  IsReserved-no_double_spend pool h k key tx ty inv eh ek sx sy =
      some-injective _ _
        (sym (Spends-reserved pool h key tx inv eh sx) ∙ Spends-reserved pool k key ty inv ek sy)

  -- Each output is free or held by the transaction already.
  abbrev pub Open : Transaction → List (Input × Output) → TxPool → Type 0
  Open tx references pool =
      All
        (λ r.
          (lookup (input_key refer_key r.0) pool.input_utxo_list ≡ none)
          ⊎ (lookup (input_key refer_key r.0) pool.input_utxo_list ≡ some tx))
        references

  pub any_reserved-Open :
      (tx : Transaction) (references : List (Input × Output)) (pool : TxPool)
      → any_reserved refer_key references pool ≡ false
      → Open tx references pool
  unfolding any_reserved
  any_reserved-Open tx [] pool e = tt
  any_reserved-Open tx (r ∷ references) pool e =
      elim (Option-cases (lookup (input_key refer_key r.0) pool.input_utxo_list)) [
        | inl free ↦ (inl free, any_reserved-Open tx references pool (ground arith))
        | inr (owner, taken) ↦ absurd (ground arith)
      ]

  -- What an output is reserved for after a reservation: an old owner, or the new one.
  lookup-add_input_utxo_list :
      (tx : Transaction) (input : Input) (pool : TxPool) (key : ℕ)
      → lookup key (add_input_utxo_list refer_key tx input pool).input_utxo_list
        ≡ or_else
            (lookup key pool.input_utxo_list)
            (if input_key refer_key input == key then some tx else none)
  unfolding add_input_utxo_list
  lookup-add_input_utxo_list tx input pool key = ground (
    arith,
    lookup-insert (input_key refer_key input) key tx pool.input_utxo_list,
    ==_iff (input_key refer_key input) key,
  )

  -- A reservation stays with the transaction that made it first.
  pub reserve_all-kept :
      (tx : Transaction) (references : List (Input × Output)) (pool : TxPool) (key : ℕ)
      {owner : Transaction}
      → lookup key pool.input_utxo_list ≡ some owner
      → lookup key (reserve_all refer_key tx references pool).input_utxo_list ≡ some owner
  unfolding reserve_all
  reserve_all-kept tx [] pool key h = h
  reserve_all-kept tx (r ∷ references) pool key h =
      reserve_all-kept tx references (add_input_utxo_list refer_key tx r.0 pool) key (
        lookup-add_input_utxo_list tx r.0 pool key
        ∙ ap (λ o. or_else o (if input_key refer_key r.0 == key then some tx else none)) h)

  add_input_utxo_list-tx_list :
      (tx : Transaction) (input : Input) (pool : TxPool)
      → (add_input_utxo_list refer_key tx input pool).tx_list ≡ pool.tx_list
  unfolding add_input_utxo_list
  add_input_utxo_list-tx_list tx input pool = ground arith

  pub reserve_all-tx_list :
      (tx : Transaction) (references : List (Input × Output)) (pool : TxPool)
      → (reserve_all refer_key tx references pool).tx_list ≡ pool.tx_list
  unfolding reserve_all
  reserve_all-tx_list tx [] pool = refl
  reserve_all-tx_list tx (r ∷ references) pool =
      reserve_all-tx_list tx references (add_input_utxo_list refer_key tx r.0 pool)
      ∙ add_input_utxo_list-tx_list tx r.0 pool

  -- A reservation for the transaction itself leaves its outputs open to it.
  Open-add_input_utxo_list :
      (tx : Transaction) (input : Input) (references : List (Input × Output)) (pool : TxPool)
      → Open tx references pool
      → Open tx references (add_input_utxo_list refer_key tx input pool)
  Open-add_input_utxo_list tx input references pool =
      All-map references
        λ r h. ground (arith, lookup-add_input_utxo_list tx input pool (input_key refer_key r.0))

  pub reserve_all-Holds :
      (tx : Transaction) (references : List (Input × Output)) (pool : TxPool)
      → Open tx references pool
      → Holds tx references (reserve_all refer_key tx references pool)
  unfolding reserve_all
  reserve_all-Holds tx [] pool h = tt
  reserve_all-Holds tx (r ∷ references) pool h =
      let pool' = add_input_utxo_list refer_key tx r.0 pool in
      (
        reserve_all-kept tx references pool' (input_key refer_key r.0) (
            ground (
              arith,
              lookup-add_input_utxo_list tx r.0 pool (input_key refer_key r.0),
              ==_iff (input_key refer_key r.0) (input_key refer_key r.0),
            )),
        reserve_all-Holds tx references pool' (Open-add_input_utxo_list tx r.0 references pool h.1),
      )
