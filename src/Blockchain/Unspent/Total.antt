-- ===== src/Blockchain/Unspent/Total.antt =====
-- blockchain/chaindata.go: `RollbackUnspend` after `PersistUnspend`, with the errors that it may return.
use elastos_ela_side_chain.Common.{
  ℕ, ◌^◌, ◌<◌, ◌≤◌, ◌≡◌, refl, subst, Bool, true, false, Option, none, some, List, [], ◌∷◌, ◌++◌,
  length, ◌==◌, ==_false, if◌then◌else◌, All, arith,
}
use elastos_ela_side_chain.Common.Result.{Result, ok, err, >>=-ok, ok-injective}
use elastos_ela_side_chain.Common.Table.{Table, lookup, insert, erase, lookup-insert, lookup-erase}
use elastos_ela_side_chain.Core.{Input, Transaction, is_coin_base_tx, is_register_asset_tx}
use elastos_ela_side_chain.Blockchain.Unspent.{
  get_uint16_array, to_byte_array, StoreError, odd_length, values_or_nil, load_or_nil,
  restore_inputs, restore_txs, persist_txs, put_unspents, delete_created, persist_unspend,
  rollback_unspend,
}
use elastos_ela_side_chain.Blockchain.Unspent.Bytes.{get_uint16_array-to_byte_array}
use elastos_ela_side_chain.Blockchain.Unspent.Counts.{count, stored, Fits}
use elastos_ela_side_chain.Blockchain.Unspent.Persist.{IsNew, none_loaded, persist_txs-Counts}
use elastos_ela_side_chain.Blockchain.Unspent.Restore.{HasIndexes, spent_in}
use elastos_ela_side_chain.Blockchain.Unspent.Rollback.{SpendsOld, rollback_unspend-count}

abbrev pub decode : Option (List ℕ) → Option (List ℕ)
decode none = some []
decode (some bytes) = get_uint16_array bytes

-- Every value of the index decodes.
abbrev pub Decodes : Table (List ℕ) → Type 0
Decodes db = (h : ℕ) → (xs : List ℕ) × (decode (lookup h db) ≡ some xs)

put_one-decode :
    (entry : ℕ × List ℕ) (db : Table (List ℕ)) (h : ℕ)
    → All (λ x. x < 2 ^ 16) entry.1
    → (xs : List ℕ) × (decode (lookup h db) ≡ some xs)
    → (xs : List ℕ) × (decode (
          lookup h (
            if length entry.1 == 0
            then erase entry.0 db
            else insert entry.0 (to_byte_array entry.1) db))
        ≡ some xs)
put_one-decode (hash, []) db h small rest = rw (lookup-erase hash h db) (go (hash == h))
  where
    go : (t : Bool) → (xs : List ℕ) × (decode (if t then none else lookup h db) ≡ some xs)
    go true = ([], refl)
    go false = rest
put_one-decode (hash, x ∷ xs) db h small rest =
    let filled : (length (x ∷ xs) == 0) ≡ false = ==_false (omega arith) in
    rw (filled, lookup-insert hash h (to_byte_array (x ∷ xs)) db) (go (hash == h))
  where
    go :
        (t : Bool)
        → (ys : List ℕ) × (decode (if t then some (to_byte_array (x ∷ xs)) else lookup h db)
            ≡ some ys)
    go true = (x ∷ xs, get_uint16_array-to_byte_array (x ∷ xs) small)
    go false = rest

put_unspents-Decodes :
    (unspents db : Table (List ℕ)) → Fits unspents → Decodes db → Decodes (put_unspents unspents db)
unfolding put_unspents
put_unspents-Decodes [] db fits d h = d h
put_unspents-Decodes (entry ∷ unspents) db fits d h =
    put_one-decode entry (put_unspents unspents db) h fits.0
      (put_unspents-Decodes unspents db fits.1 d h)

persist_unspend-Decodes :
    (db : Table (List ℕ)) (txs : List Transaction) {db' : Table (List ℕ)}
    → Decodes db
    → All (IsNew db) txs
    → persist_unspend db txs ≡ ok db'
    → Decodes db'
unfolding persist_unspend
persist_unspend-Decodes db txs {db'} d new e =
    let (unspents, persisted, e1) = >>=-ok (persist_txs db txs []) _ e in
    let c = persist_txs-Counts db txs [] {rest = unspents} _ new (none_loaded db) persisted in
    subst Decodes (ok-injective e1) (put_unspents-Decodes unspents db c.fits d)

module _ (db : Table (List ℕ)) (d : Decodes db) where
  load_or_nil-total :
      (hash : ℕ) (unspents : Table (List ℕ))
      → (loaded : Table (List ℕ)) × (load_or_nil db hash unspents ≡ ok loaded)
  unfolding load_or_nil
  load_or_nil-total hash unspents = cached (lookup hash unspents)
    where
      read :
          (found : Option (List ℕ)) {xs : List ℕ}
          → found ≡ some xs
          → (loaded : Table (List ℕ)) × (◌≡◌ {A = Result StoreError (Table (List ℕ))}
              (elim found [
                | none ↦ err odd_length
                | some indexes ↦ ok (insert hash indexes unspents)
              ])
              (ok loaded))
      read none e = cc
      read (some xs) e = (insert hash xs unspents, refl)

      held :
          (found : Option (List ℕ)) {xs : List ℕ}
          → decode found ≡ some xs
          → (loaded : Table (List ℕ)) × (◌≡◌ {A = Result StoreError (Table (List ℕ))}
              (elim (values_or_nil found) [
                | [] ↦ ok unspents
                | byte ∷ bytes ↦ elim (get_uint16_array (byte ∷ bytes)) [
                  | none ↦ err odd_length
                  | some indexes ↦ ok (insert hash indexes unspents)
                ]
              ])
              (ok loaded))
      held none e = (unspents, refl)
      held (some []) e = (unspents, refl)
      held (some (byte ∷ bytes)) {xs} e = read (get_uint16_array (byte ∷ bytes)) {xs = xs} e

      cached :
          (found : Option (List ℕ))
          → (loaded : Table (List ℕ)) × (◌≡◌ {A = Result StoreError (Table (List ℕ))}
              (elim found [
                | some _ ↦ ok unspents
                | none ↦ elim (values_or_nil (lookup hash db)) [
                  | [] ↦ ok unspents
                  | byte ∷ bytes ↦ elim (get_uint16_array (byte ∷ bytes)) [
                    | none ↦ err odd_length
                    | some indexes ↦ ok (insert hash indexes unspents)
                  ]
                ]
              ])
              (ok loaded))
      cached (some _) = (unspents, refl)
      cached none = let (xs, e) = d hash in held (lookup hash db) {xs = xs} e

  restore_inputs-total :
      (inputs : List Input) (unspents : Table (List ℕ))
      → (rest : Table (List ℕ)) × (restore_inputs db inputs unspents ≡ ok rest)
  unfolding restore_inputs
  restore_inputs-total [] unspents = (unspents, refl)
  restore_inputs-total (input ∷ inputs) unspents =
      let (loaded, e) = load_or_nil-total input.previous.tx_id unspents in
      let (rest, r) = restore_inputs-total inputs (
        insert input.previous.tx_id
          (values_or_nil (lookup input.previous.tx_id loaded) ++ (input.previous.index ∷ []))
          loaded) in
      (rest, rw e r)

  restore_txs-total :
      (txs : List Transaction) (unspents : Table (List ℕ))
      → (rest : Table (List ℕ)) × (restore_txs db txs unspents ≡ ok rest)
  unfolding restore_txs
  restore_txs-total [] unspents = (unspents, refl)
  restore_txs-total (tx ∷ txs) unspents =
      let (next, e) = step (is_register_asset_tx tx) (is_coin_base_tx tx) in
      let (rest, r) = restore_txs-total txs next in (rest, rw e r)
    where
      step :
          (register coinbase : Bool)
          → (next : Table (List ℕ)) × ((if register
                then ok unspents
                else if coinbase
                then ok unspents
                else restore_inputs db tx.inputs unspents)
              ≡ ok next)
      step true coinbase = (unspents, refl)
      step false true = (unspents, refl)
      step false false = restore_inputs-total tx.inputs unspents

  rollback_unspend-total :
      (txs : List Transaction) → (db' : Table (List ℕ)) × (rollback_unspend db txs ≡ ok db')
  unfolding rollback_unspend
  rollback_unspend-total txs =
      let (rest, e) = restore_txs-total txs [] in
      (put_unspents rest (delete_created txs db), rw e refl)

-- `RollbackUnspend` returns no error after the `PersistUnspend` of the block, and brings the multiset of
-- unspent outputs back to what it was before, at each index of each hash, if the values of the index
-- decode, the hashes of the block are new to it, no transaction has more than 2 ^ 16 outputs, the inputs
-- name uint16 indexes and spend no output of the block itself, and what the block spends at the index
-- was unspent.
pub rollback_unspend-persist_unspend :
    (db : Table (List ℕ)) (txs : List Transaction) {db' : Table (List ℕ)} (h i : ℕ)
    → Decodes db
    → All (IsNew db) txs
    → SpendsOld txs txs
    → All (λ (tx : Transaction). HasIndexes tx.inputs) txs
    → spent_in txs h i ≤ count i (stored db h)
    → persist_unspend db txs ≡ ok db'
    → (db'' : Table (List ℕ)) × (rollback_unspend db' txs ≡ ok db'')
      × (count i (stored db'' h) ≡ count i (stored db h))
rollback_unspend-persist_unspend db txs {db'} h i d new old small unspent e =
    let (db'', rolled_back) =
      rollback_unspend-total db' (persist_unspend-Decodes db txs {db' = db'} d new e) txs in
    (
      db'',
      rolled_back,
      rollback_unspend-count db txs {db' = db'} {db'' = db''} e rolled_back h i new old small
          unspent,
    )
