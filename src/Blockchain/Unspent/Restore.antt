-- ===== src/Blockchain/Unspent/Restore.antt =====
-- blockchain/chaindata.go: the map that `RollbackUnspend` fills.
use elastos_ela_side_chain.Common.{
  ℕ, ◌+◌, ◌^◌, ◌<◌, ◌≡◌, refl, sym, ◌∙◌, ap, subst, Bool, true, false, Option, none, some, List, [],
  ◌∷◌, ◌++◌, ◌==◌, if◌then◌else◌, All, arith,
}
use elastos_ela_side_chain.Common.Result.{Result, ok, err, >>=-ok, ok-injective}
use elastos_ela_side_chain.Common.Table.{Table, lookup, insert, lookup-insert}
use elastos_ela_side_chain.Core.{Input, Transaction, is_coin_base_tx, is_register_asset_tx}
use elastos_ela_side_chain.Blockchain.Unspent.{
  get_uint16_array, StoreError, odd_length, values_or_nil, load_or_nil, restore_inputs, restore_txs,
}
use elastos_ela_side_chain.Blockchain.Unspent.Bytes.{get_uint16_array-IsUint16}
use elastos_ela_side_chain.Blockchain.Unspent.Counts.{
  count, count-append, IsUint16, append-IsUint16, decoded, stored, or_stored, current, Fits,
  lookup-Fits, insert-Fits,
}
use elastos_ela_side_chain.Blockchain.Unspent.Created.{spent_by, spent, count-insert}
use elastos_ela_side_chain.Blockchain.Unspent.Loaded.{Loaded, Loaded-insert}
use elastos_ela_side_chain.Blockchain.Unspent.Persist.{Counts}

load_or_nil-Loaded :
    (db unspents : Table (List ℕ)) (hash : ℕ) {loaded : Table (List ℕ)}
    → Fits unspents
    → load_or_nil db hash unspents ≡ ok loaded
    → Loaded db unspents hash loaded
unfolding load_or_nil get_uint16_array
load_or_nil-Loaded db unspents hash {loaded} fits e = cached (lookup hash unspents) refl e
  where
    read :
        (found : Option (List ℕ))
        → lookup hash unspents ≡ none
        → stored db hash ≡ values_or_nil found
        → ((xs : List ℕ) → found ≡ some xs → IsUint16 xs)
        → (elim found [ none ↦ err odd_length | some indexes ↦ ok (insert hash indexes unspents) ])
          ≡ ok loaded
        → Loaded db unspents hash loaded
    read none missing held small h = cc
    read (some indexes) missing held small h =
        subst (λ l. Loaded db unspents hash l) (ok-injective h)
          (Loaded-insert db unspents hash indexes (ap (or_stored (stored db hash)) missing ∙ held)
            (small indexes refl) fits)

    nothing :
        lookup hash unspents ≡ none
        → stored db hash ≡ []
        → ◌≡◌ {A = Result StoreError (Table (List ℕ))} (ok unspents) (ok loaded)
        → Loaded db unspents hash loaded
    nothing missing held h =
        subst (λ l. Loaded db unspents hash l) (ok-injective h)
          (record {
            same = λ k. refl;
            value = ap values_or_nil missing ∙ sym (ap (or_stored (stored db hash)) missing ∙ held);
            other = λ k e. refl;
            fits = fits;
          })

    stored_in :
        (found : Option (List ℕ))
        → lookup hash unspents ≡ none
        → lookup hash db ≡ found
        → (elim (values_or_nil found) [
          | [] ↦ ok unspents
          | byte ∷ bytes ↦ elim (get_uint16_array (byte ∷ bytes)) [
            | none ↦ err odd_length
            | some indexes ↦ ok (insert hash indexes unspents)
          ]
        ])
          ≡ ok loaded
        → Loaded db unspents hash loaded
    stored_in none missing held h = nothing missing (ap decoded held) h
    stored_in (some []) missing held h = nothing missing (ap decoded held) h
    stored_in (some (byte ∷ bytes)) missing held h =
        read (get_uint16_array (byte ∷ bytes)) missing (ap decoded held)
          (λ xs r. get_uint16_array-IsUint16 (byte ∷ bytes) {xs = xs} r) h

    cached :
        (found : Option (List ℕ))
        → lookup hash unspents ≡ found
        → (elim found [
          | some _ ↦ ok unspents
          | none ↦ elim (values_or_nil (lookup hash db)) [
            | [] ↦ ok unspents
            | byte ∷ bytes ↦ elim (get_uint16_array (byte ∷ bytes)) [
              | none ↦ err odd_length
              | some indexes ↦ ok (insert hash indexes unspents)
            ]
          ]
        ])
          ≡ ok loaded
        → Loaded db unspents hash loaded
    cached (some values) held h =
        subst (λ l. Loaded db unspents hash l) (ok-injective h)
          (record {
            same = λ k. refl;
            value = ap values_or_nil held ∙ sym (ap (or_stored (stored db hash)) held);
            other = λ k e. refl;
            fits = fits;
          })
    cached none held h = stored_in (lookup hash db) held refl h

-- The indexes that the inputs name are uint16.
abbrev pub HasIndexes : List Input → Type 0
HasIndexes inputs = All (λ (input : Input). input.previous.index < 2 ^ 16) inputs

-- How many inputs of a block spend an index of a hash.
abbrev pub spent_in : List Transaction → ℕ → ℕ → ℕ
spent_in [] h i = 0
spent_in (tx ∷ txs) h i = spent tx h i + spent_in txs h i

-- No input spends an output of the hash.
abbrev pub IsUnreferred : ℕ → List Input → Type 0
IsUnreferred h inputs = All (λ (input : Input). (input.previous.tx_id == h) ≡ false) inputs

module _ (db : Table (List ℕ)) where
  restore_inputs-Counts :
      (inputs : List Input) (unspents : Table (List ℕ)) {rest : Table (List ℕ)} (n : ℕ → ℕ → ℕ)
      → HasIndexes inputs
      → Counts db unspents n
      → restore_inputs db inputs unspents ≡ ok rest
      → Counts db rest (λ h i. n h i + spent_by inputs h i)
  unfolding restore_inputs
  restore_inputs-Counts [] unspents n small c e =
      subst (λ u. Counts db u (λ h i. n h i + 0)) (ok-injective e)
        (record { counted = λ h i. c.counted h i ∙ omega arith; fits = c.fits })
  restore_inputs-Counts (input ∷ inputs) unspents {rest} n small c e =
      let hash = input.previous.tx_id in
      let index = input.previous.index in
      let (loaded, read, e1) = >>=-ok (load_or_nil db hash unspents) _ e in
      let l = load_or_nil-Loaded db unspents hash c.fits read in
      let values = values_or_nil (lookup hash loaded) ++ (index ∷ []) in
      let step : Counts db (insert hash values loaded) (λ h i. n h i + one h i) = record {
        counted = λ h i.
            count-insert db loaded hash h i values (if index == i then 1 else 0) (
              count-append i (values_or_nil (lookup hash loaded)) (index ∷ [])
              ∙ rw (l.value ∙ sym (l.same hash)) (omega arith))
            ∙ ap (λ x. count i x + one h i) (l.same h)
            ∙ ap (λ m. m + one h i) (c.counted h i);
        fits =
            insert-Fits hash values loaded
              (append-IsUint16 (values_or_nil (lookup hash loaded)) index
                (lookup-Fits hash loaded l.fits) small.0)
              l.fits;
      } in
      let ih = restore_inputs-Counts inputs _ {rest = rest} _ small.1 step e1 in
      record { counted = λ h i. ih.counted h i ∙ omega arith; fits = ih.fits }
    where
      one : ℕ → ℕ → ℕ
      one h i =
          if input.previous.tx_id == h then (if input.previous.index == i then 1 else 0) else 0

  pub restore_txs-Counts :
      (txs : List Transaction) (unspents : Table (List ℕ)) {rest : Table (List ℕ)} (n : ℕ → ℕ → ℕ)
      → All (λ (tx : Transaction). HasIndexes tx.inputs) txs
      → Counts db unspents n
      → restore_txs db txs unspents ≡ ok rest
      → Counts db rest (λ h i. n h i + spent_in txs h i)
  unfolding restore_txs
  restore_txs-Counts [] unspents n small c e =
      subst (λ u. Counts db u (λ h i. n h i + 0)) (ok-injective e)
        (record { counted = λ h i. c.counted h i ∙ omega arith; fits = c.fits })
  restore_txs-Counts (tx ∷ txs) unspents {rest} n small c e =
      let (next, restored, e1) =
        >>=-ok
          (if is_register_asset_tx tx
            then ok unspents
            else if is_coin_base_tx tx
            then ok unspents
            else restore_inputs db tx.inputs unspents)
          _ e in
      let ih =
        restore_txs-Counts txs next {rest = rest} _ small.1
          (go (is_register_asset_tx tx) (is_coin_base_tx tx) next restored) e1 in
      record { counted = λ h i. ih.counted h i ∙ omega arith; fits = ih.fits }
    where
      go :
          (register coinbase : Bool) (next : Table (List ℕ))
          → (if register
              then ok unspents
              else if coinbase
              then ok unspents
              else restore_inputs db tx.inputs unspents)
            ≡ ok next
          → Counts db next (λ h i.
            n h i + (if register then 0 else if coinbase then 0 else spent_by tx.inputs h i))
      go true coinbase next h =
          subst (λ u. Counts db u (λ h i. n h i + 0)) (ok-injective h)
            (record { counted = λ h i. c.counted h i ∙ omega arith; fits = c.fits })
      go false true next h =
          subst (λ u. Counts db u (λ h i. n h i + 0)) (ok-injective h)
            (record { counted = λ h i. c.counted h i ∙ omega arith; fits = c.fits })
      go false false next h = restore_inputs-Counts tx.inputs unspents {rest = next} n small.0 c h

  restore_inputs-none :
      (inputs : List Input) (unspents : Table (List ℕ)) (h : ℕ) {rest : Table (List ℕ)}
      → HasIndexes inputs
      → IsUnreferred h inputs
      → Fits unspents
      → lookup h unspents ≡ none
      → restore_inputs db inputs unspents ≡ ok rest
      → lookup h rest ≡ none
  unfolding restore_inputs
  restore_inputs-none [] unspents h small far fits missing e =
      ap (lookup h) (sym (ok-injective e)) ∙ missing
  restore_inputs-none (input ∷ inputs) unspents h {rest} small far fits missing e =
      let hash = input.previous.tx_id in
      let (loaded, read, e1) = >>=-ok (load_or_nil db hash unspents) _ e in
      let l = load_or_nil-Loaded db unspents hash fits read in
      let values = values_or_nil (lookup hash loaded) ++ (input.previous.index ∷ []) in
      restore_inputs-none inputs (insert hash values loaded) h {rest = rest} small.1 far.1
        (insert-Fits hash values loaded
          (append-IsUint16 (values_or_nil (lookup hash loaded)) input.previous.index
            (lookup-Fits hash loaded l.fits) small.0)
          l.fits)
        (lookup-insert hash h values loaded ∙ rw far.0 (l.other h far.0 ∙ missing)) e1

  restore_inputs-Fits :
      (inputs : List Input) (unspents : Table (List ℕ)) {rest : Table (List ℕ)}
      → HasIndexes inputs
      → Fits unspents
      → restore_inputs db inputs unspents ≡ ok rest
      → Fits rest
  restore_inputs-Fits inputs unspents {rest} small fits e =
      (restore_inputs-Counts inputs unspents {rest = rest} (λ h i. count i (current db unspents h))
        small (record { counted = λ h i. refl; fits = fits }) e).fits

  pub restore_txs-none :
      (txs : List Transaction) (unspents : Table (List ℕ)) (h : ℕ) {rest : Table (List ℕ)}
      → All (λ (tx : Transaction). HasIndexes tx.inputs) txs
      → All (λ (tx : Transaction). IsUnreferred h tx.inputs) txs
      → Fits unspents
      → lookup h unspents ≡ none
      → restore_txs db txs unspents ≡ ok rest
      → lookup h rest ≡ none
  unfolding restore_txs
  restore_txs-none [] unspents h small far fits missing e =
      ap (lookup h) (sym (ok-injective e)) ∙ missing
  restore_txs-none (tx ∷ txs) unspents h {rest} small far fits missing e =
      let (next, restored, e1) =
        >>=-ok
          (if is_register_asset_tx tx
            then ok unspents
            else if is_coin_base_tx tx
            then ok unspents
            else restore_inputs db tx.inputs unspents)
          _ e in
      let (fit, miss) = go (is_register_asset_tx tx) (is_coin_base_tx tx) next restored in
      restore_txs-none txs next h {rest = rest} small.1 far.1 fit miss e1
    where
      go :
          (register coinbase : Bool) (next : Table (List ℕ))
          → (if register
              then ok unspents
              else if coinbase
              then ok unspents
              else restore_inputs db tx.inputs unspents)
            ≡ ok next
          → Fits next × (lookup h next ≡ none)
      go true coinbase next e' =
          (subst Fits (ok-injective e') fits, ap (lookup h) (sym (ok-injective e')) ∙ missing)
      go false true next e' =
          (subst Fits (ok-injective e') fits, ap (lookup h) (sym (ok-injective e')) ∙ missing)
      go false false next e' = (
        restore_inputs-Fits tx.inputs unspents {rest = next} small.0 fits e',
        restore_inputs-none tx.inputs unspents h {rest = next} small.0 far.0 fits missing e',
      )
