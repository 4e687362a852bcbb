-- ===== src/Blockchain/Unspent.antt =====
-- blockchain/chaindata.go: the index of the unspent outputs, which `PersistUnspend` takes forward by a
-- block and `RollbackUnspend` back, and the bytes that it is stored in. The database is the table of
-- its values by the hashes of transactions, without the prefix of the key; a batch is applied at once,
-- after the reads of the function that fills it. A Go map is ranged over from its last entry on.
pub mod Bytes
pub mod Counts
pub mod Created
pub mod Loaded
pub mod Persist
pub mod Restore
pub mod Rollback
pub mod Total
mod Tests
use elastos_ela_side_chain.Common.{
  ℕ, suc, ◌+◌, ◌*◌, ◌/◌, ◌%◌, ◌^◌, Option, none, some, List, [], ◌∷◌, ◌++◌, length, ◌==◌,
  if◌then◌else◌,
}
use elastos_ela_side_chain.Common.Result.{Result, ok, err, ◌>>=◌}
use elastos_ela_side_chain.Common.Table.{Table, lookup, insert, erase}
use elastos_ela_side_chain.Core.{Input, Output, Transaction, is_coin_base_tx, is_register_asset_tx}

-- `GetUint16Array`, on bytes that are there.
unfoldable pub get_uint16_array : List ℕ → Option (List ℕ)
get_uint16_array [] = some []
get_uint16_array (low ∷ []) = none
get_uint16_array (low ∷ high ∷ source) = elim (get_uint16_array source) [
  | none ↦ none
  | some rest ↦ some ((low + high * 256) % 2 ^ 16 ∷ rest)
]

-- `ToByteArray`
unfoldable pub to_byte_array : List ℕ → List ℕ
to_byte_array [] = []
to_byte_array (x ∷ source) = x % 256 ∷ x / 256 % 256 ∷ to_byte_array source

pub data StoreError : Type 0 where
  not_found odd_length : StoreError

-- The value of a missing key is nil.
abbrev pub values_or_nil : Option (List ℕ) → List ℕ
values_or_nil none = []
values_or_nil (some values) = values

-- `unspents[hash] = append(unspents[hash], index)` for the indexes of the outputs, from one on.
unfoldable pub append_outputs : ℕ → List Output → ℕ → Table (List ℕ) → Table (List ℕ)
append_outputs hash [] index unspents = unspents
append_outputs hash (output ∷ outputs) index unspents =
    append_outputs hash outputs (index + 1)
      (insert hash (values_or_nil (lookup hash unspents) ++ (index % 2 ^ 16 ∷ [])) unspents)

-- The last element of a slice, and the slice without it.
abbrev pub last_of : ℕ → List ℕ → ℕ
last_of x [] = x
last_of x (y ∷ ys) = last_of y ys

abbrev pub without_last : ℕ → List ℕ → List ℕ
without_last x [] = []
without_last x (y ∷ ys) = x ∷ without_last y ys

-- The first element of a value is overwritten by the last one, and the slice loses its last place.
unfoldable pub swap_remove : ℕ → List ℕ → List ℕ
swap_remove index [] = []
swap_remove index (x ∷ xs) =
    let rest = swap_remove index xs in
    if x == index then elim xs [ [] ↦ [] | y ∷ ys ↦ last_of y ys ∷ without_last y ys ] else x ∷ rest

module _ (db : Table (List ℕ)) where
  -- The indexes of a transaction are read from the database once.
  unfoldable pub load_unspent : ℕ → Table (List ℕ) → Result StoreError (Table (List ℕ))
  load_unspent hash unspents = elim (lookup hash unspents) [
    | some _ ↦ ok unspents
    | none ↦ elim (lookup hash db) [
      | none ↦ err not_found
      | some bytes ↦ elim (get_uint16_array bytes) [
        | none ↦ err odd_length
        | some indexes ↦ ok (insert hash indexes unspents)
      ]
    ]
  ]

  -- The loop over the inputs.
  unfoldable pub spend_inputs : List Input → Table (List ℕ) → Result StoreError (Table (List ℕ))
  spend_inputs [] unspents = ok unspents
  spend_inputs (input ∷ inputs) unspents = load_unspent input.previous.tx_id unspents >>= λ loaded.
      spend_inputs inputs (
        insert input.previous.tx_id
          (swap_remove input.previous.index (values_or_nil (lookup input.previous.tx_id loaded)))
          loaded)

  unfoldable pub persist_tx : Transaction → Table (List ℕ) → Result StoreError (Table (List ℕ))
  persist_tx tx unspents =
      if is_register_asset_tx tx
      then ok unspents
      else (let created = append_outputs tx.hash tx.outputs 0 unspents in
          if is_coin_base_tx tx then ok created else spend_inputs tx.inputs created)

  -- The loop over the transactions.
  unfoldable pub persist_txs :
      List Transaction → Table (List ℕ) → Result StoreError (Table (List ℕ))
  persist_txs [] unspents = ok unspents
  persist_txs (tx ∷ txs) unspents = persist_tx tx unspents >>= λ rest. persist_txs txs rest

  -- The same read when a block is taken back: what is missing is nil.
  unfoldable pub load_or_nil : ℕ → Table (List ℕ) → Result StoreError (Table (List ℕ))
  load_or_nil hash unspents = elim (lookup hash unspents) [
    | some _ ↦ ok unspents
    | none ↦ elim (values_or_nil (lookup hash db)) [
      | [] ↦ ok unspents
      | byte ∷ bytes ↦ elim (get_uint16_array (byte ∷ bytes)) [
        | none ↦ err odd_length
        | some indexes ↦ ok (insert hash indexes unspents)
      ]
    ]
  ]

  unfoldable pub restore_inputs : List Input → Table (List ℕ) → Result StoreError (Table (List ℕ))
  restore_inputs [] unspents = ok unspents
  restore_inputs (input ∷ inputs) unspents = load_or_nil input.previous.tx_id unspents >>= λ loaded.
      restore_inputs inputs (
        insert input.previous.tx_id
          (values_or_nil (lookup input.previous.tx_id loaded) ++ (input.previous.index ∷ []))
          loaded)

  unfoldable pub restore_txs :
      List Transaction → Table (List ℕ) → Result StoreError (Table (List ℕ))
  restore_txs [] unspents = ok unspents
  restore_txs (tx ∷ txs) unspents =
      (if is_register_asset_tx tx
        then ok unspents
        else if is_coin_base_tx tx
        then ok unspents
        else restore_inputs tx.inputs unspents)
      >>= λ rest. restore_txs txs rest

-- The batch at the end: a transaction with no indexes left loses its entry.
unfoldable pub put_unspents : Table (List ℕ) → Table (List ℕ) → Table (List ℕ)
put_unspents [] db = db
put_unspents (entry ∷ unspents) db =
    let rest = put_unspents unspents db in
    if length entry.1 == 0 then erase entry.0 rest else insert entry.0 (to_byte_array entry.1) rest

-- `PersistUnspend`
unfoldable pub persist_unspend :
    Table (List ℕ) → List Transaction → Result StoreError (Table (List ℕ))
persist_unspend db txs = persist_txs db txs [] >>= λ unspents. ok (put_unspents unspents db)

-- The deletions of `RollbackUnspend`, which stand in the batch before what it puts.
unfoldable pub delete_created : List Transaction → Table (List ℕ) → Table (List ℕ)
delete_created [] db = db
delete_created (tx ∷ txs) db =
    delete_created txs (if is_register_asset_tx tx then db else erase tx.hash db)

-- `RollbackUnspend`
unfoldable pub rollback_unspend :
    Table (List ℕ) → List Transaction → Result StoreError (Table (List ℕ))
rollback_unspend db txs =
    restore_txs db txs [] >>= λ unspents. ok (put_unspents unspents (delete_created txs db))
