-- ===== src/Blockchain/Unspent/Rollback.antt =====
-- blockchain/chaindata.go: `RollbackUnspend` takes back what `PersistUnspend` did.
use elastos_ela_side_chain.Common.{
  ℕ, ◌+◌, ◌-◌, ◌≤◌, ◌≡◌, refl, sym, ◌∙◌, ap, Bool, true, false, ◌||◌, none, List, [], ◌∷◌, length,
  ◌==◌, ==_iff, ==_false, ltb, if◌then◌else◌, All, All-map, arith,
}
use elastos_ela_side_chain.Common.Result.{ok, >>=-ok, ok-injective}
use elastos_ela_side_chain.Common.Table.{Table, lookup, erase, lookup-erase, lookup-empty}
use elastos_ela_side_chain.Core.{Input, Transaction, is_register_asset_tx}
use elastos_ela_side_chain.Blockchain.Unspent.{
  restore_txs, delete_created, persist_unspend, rollback_unspend,
}
use elastos_ela_side_chain.Blockchain.Unspent.Counts.{
  count, decoded, stored, or_stored, current, stored-put_unspents,
}
use elastos_ela_side_chain.Blockchain.Unspent.Created.{created, spent, apply_block}
use elastos_ela_side_chain.Blockchain.Unspent.Persist.{
  IsNew, none_loaded, persist_unspend-apply_block,
}
use elastos_ela_side_chain.Blockchain.Unspent.Restore.{
  HasIndexes, spent_in, IsUnreferred, restore_txs-Counts, restore_txs-none,
}

-- A transaction of the block makes outputs under the hash.
abbrev pub is_created : ℕ → List Transaction → Bool
is_created h [] = false
is_created h (tx ∷ txs) =
    (if is_register_asset_tx tx then false else tx.hash == h) || is_created h txs

-- No input of the block spends an output that the block makes.
abbrev pub SpendsOld : List Transaction → List Transaction → Type 0
SpendsOld block txs =
    All
      (λ (tx : Transaction).
        All (λ (input : Input). is_created input.previous.tx_id block ≡ false) tx.inputs)
      txs

or-false : (a b : Bool) → (a || b) ≡ false → (a ≡ false) × (b ≡ false)
or-false true b h = cc
or-false false b h = (refl, h)

-- What the block does not make, it only spends.
apply_block-old :
    (txs : List Transaction) (h i n : ℕ)
    → is_created h txs ≡ false
    → apply_block txs h i n ≡ n - spent_in txs h i
apply_block-old [] h i n old = omega arith
apply_block-old (tx ∷ txs) h i n old =
    let (here, rest) = or-false (if is_register_asset_tx tx then false else tx.hash == h) _ old in
    let none_made : created tx h i ≡ 0 = go (is_register_asset_tx tx) (tx.hash == h) here in
    apply_block-old txs h i (n + created tx h i - spent tx h i) rest ∙ omega arith
  where
    go :
        (register t : Bool)
        → (if register then false else t) ≡ false
        → ◌≡◌ {A = ℕ}
            (if register then 0 else if t then (if ltb i (length tx.outputs) then 1 else 0) else 0)
            0
    go true t e = refl
    go false true e = cc
    go false false e = refl

stored-erase :
    (db : Table (List ℕ)) (k h : ℕ) → stored (erase k db) h ≡ (if k == h then [] else stored db h)
stored-erase db k h = ap decoded (lookup-erase k h db) ∙ go (k == h)
  where
    go : (t : Bool) → decoded (if t then none else lookup h db) ≡ (if t then [] else stored db h)
    go true = refl
    go false = refl

stored-delete_created :
    (txs : List Transaction) (db : Table (List ℕ)) (h : ℕ)
    → stored (delete_created txs db) h ≡ (if is_created h txs then [] else stored db h)
unfolding delete_created
stored-delete_created [] db h = refl
stored-delete_created (tx ∷ txs) db h =
    stored-delete_created txs (if is_register_asset_tx tx then db else erase tx.hash db) h
    ∙ go (is_register_asset_tx tx) (is_created h txs)
  where
    erased :
        (t later : Bool)
        → (if later then [] else (if t then [] else stored db h))
          ≡ (if t || later then [] else stored db h)
    erased true true = refl
    erased true false = refl
    erased false later = refl

    go :
        (register later : Bool)
        → (if later then [] else stored (if register then db else erase tx.hash db) h)
          ≡ (if (if register then false else tx.hash == h) || later then [] else stored db h)
    go true later = refl
    go false later =
        ap (λ s. if later then [] else s) (stored-erase db tx.hash h) ∙ erased (tx.hash == h) later

-- What the block makes is new to the index that it is applied to.
is_created-new :
    (db : Table (List ℕ)) (txs : List Transaction) (h : ℕ)
    → All (IsNew db) txs
    → is_created h txs ≡ true
    → stored db h ≡ []
is_created-new db [] h new e = cc
is_created-new db (tx ∷ txs) h new e =
    go (is_register_asset_tx tx) (tx.hash == h) refl e (is_created-new db txs h new.1)
  where
    go :
        (register t : Bool)
        → (tx.hash == h) ≡ t
        → ((if register then false else t) || is_created h txs) ≡ true
        → (is_created h txs ≡ true → stored db h ≡ [])
        → stored db h ≡ []
    go true t same e rest = rest e
    go false true same e rest = ap (stored db) (sym ((==_iff _ _).0 same)) ∙ new.0.0
    go false false same e rest = rest e

other_hash :
    (block : List Transaction) (h k : ℕ)
    → is_created h block ≡ true
    → is_created k block ≡ false
    → (k == h) ≡ false
other_hash block h k made old =
    ==_false (λ (same : k ≡ h). cc (sym made ∙ ap (λ x. is_created x block) (sym same) ∙ old))

SpendsOld-IsUnreferred :
    (block txs : List Transaction) (h : ℕ)
    → is_created h block ≡ true
    → SpendsOld block txs
    → All (λ (tx : Transaction). IsUnreferred h tx.inputs) txs
SpendsOld-IsUnreferred block txs h made old =
    All-map txs
      (λ tx o.
        All-map tx.inputs (λ (input : Input) k. other_hash block h input.previous.tx_id made k) o)
      old

module _ (db : Table (List ℕ)) (txs : List Transaction) {db' db'' : Table (List ℕ)}
    (persisted : persist_unspend db txs ≡ ok db')
    (rolled_back : rollback_unspend db' txs ≡ ok db'') where
  pub rollback_unspend-count :
      (h i : ℕ)
      → All (IsNew db) txs
      → SpendsOld txs txs
      → All (λ (tx : Transaction). HasIndexes tx.inputs) txs
      → spent_in txs h i ≤ count i (stored db h)
      → count i (stored db'' h) ≡ count i (stored db h)
  unfolding rollback_unspend
  rollback_unspend-count h i new old small unspent =
      let (unspents, restored, e1) = >>=-ok (restore_txs db' txs []) _ rolled_back in
      let c = restore_txs-Counts db' txs [] {rest = unspents} _ small (none_loaded db') restored in
      ap (λ d. count i (stored d h)) (sym (ok-injective e1))
      ∙ ap (count i) (
          stored-put_unspents unspents (delete_created txs db') h c.fits
          ∙ ap (λ s. or_stored s (lookup h unspents)) (stored-delete_created txs db' h))
      ∙ go unspents (is_created h txs) refl (c.counted h i) restored
    where
      go :
          (unspents : Table (List ℕ)) (made : Bool)
          → is_created h txs ≡ made
          → count i (current db' unspents h) ≡ count i (stored db' h) + spent_in txs h i
          → restore_txs db' txs [] ≡ ok unspents
          → count i (or_stored (if made then [] else stored db' h) (lookup h unspents))
            ≡ count i (stored db h)
      go unspents true is counted restored =
          ap (λ found. count i (or_stored [] found))
            (restore_txs-none db' txs [] h {rest = unspents} small
              (SpendsOld-IsUnreferred txs txs h is old) tt (lookup-empty h) restored)
          ∙ ap (count i) (sym (is_created-new db txs h new is))
      go unspents false is counted restored =
          counted
          ∙ ap (λ n. n + spent_in txs h i)
              (persist_unspend-apply_block db txs {db' = db'} h i new persisted
                ∙ apply_block-old txs h i (count i (stored db h)) is)
          ∙ omega arith
