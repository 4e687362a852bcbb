-- ===== src/Blockchain/Unspent/Persist.antt =====
-- blockchain/chaindata.go: what `PersistUnspend` makes of the index of the unspent outputs.
use elastos_ela_side_chain.Common.{
  ℕ, ◌+◌, ◌-◌, ◌^◌, ◌≤◌, ◌≡◌, refl, sym, ◌∙◌, ap, subst, Bool, true, false, List, [], ◌∷◌, length,
  ◌==◌, ==_iff, ltb, if◌then◌else◌, All, arith,
}
use elastos_ela_side_chain.Common.Result.{ok, >>=-ok, ok-injective}
use elastos_ela_side_chain.Common.Table.{Table, lookup, insert, lookup-empty}
use elastos_ela_side_chain.Core.{Input, Transaction, is_coin_base_tx, is_register_asset_tx}
use elastos_ela_side_chain.Blockchain.Unspent.{
  values_or_nil, append_outputs, swap_remove, load_unspent, spend_inputs, persist_tx, persist_txs,
  persist_unspend,
}
use elastos_ela_side_chain.Blockchain.Unspent.Counts.{
  count, count-swap_remove, IsUint16, swap_remove-IsUint16, stored, or_stored, current,
  current-insert, Fits, lookup-Fits, insert-Fits, stored-put_unspents,
}
use elastos_ela_side_chain.Blockchain.Unspent.Created.{
  created, spent_by, spent, apply_block, new_at, new_at-lem, count-append_outputs,
  append_outputs-Fits,
}
use elastos_ela_side_chain.Blockchain.Unspent.Loaded.{load_unspent-Loaded}

module _ (db : Table (List ℕ)) where
  -- A map that counts as the database does after some change of the numbers.
  pub record Counts (unspents : Table (List ℕ)) (n : ℕ → ℕ → ℕ) : Type 0 where
    pub counted : (h i : ℕ) → count i (current db unspents h) ≡ n h i
    pub fits : Fits unspents

  spend_inputs-Counts :
      (inputs : List Input) (unspents : Table (List ℕ)) {rest : Table (List ℕ)} (n : ℕ → ℕ → ℕ)
      → Counts unspents n
      → spend_inputs db inputs unspents ≡ ok rest
      → Counts rest (λ h i. n h i - spent_by inputs h i)
  unfolding spend_inputs
  spend_inputs-Counts [] unspents n c e =
      subst (λ u. Counts u (λ h i. n h i - 0)) (ok-injective e)
        (record { counted = λ h i. c.counted h i ∙ omega arith; fits = c.fits })
  spend_inputs-Counts (input ∷ inputs) unspents {rest} n c e =
      let (loaded, read, e1) = >>=-ok (load_unspent db input.previous.tx_id unspents) _ e in
      let l = load_unspent-Loaded db unspents input.previous.tx_id c.fits read in
      let kept =
        swap_remove input.previous.index (values_or_nil (lookup input.previous.tx_id loaded)) in
      let small : IsUint16 kept =
        swap_remove-IsUint16 input.previous.index _
          (lookup-Fits input.previous.tx_id loaded l.fits) in
      let step : Counts (insert input.previous.tx_id kept loaded) (λ h i. n h i - one h i) =
        record {
          counted = λ h i.
              ap (count i) (current-insert db loaded input.previous.tx_id h kept)
              ∙ go h i loaded l.value l.same (input.previous.tx_id == h) refl;
          fits = insert-Fits input.previous.tx_id kept loaded small l.fits;
        } in
      let ih = spend_inputs-Counts inputs _ {rest = rest} _ step e1 in
      record { counted = λ h i. ih.counted h i ∙ omega arith; fits = ih.fits }
    where
      one : ℕ → ℕ → ℕ
      one h i =
          if input.previous.tx_id == h then (if input.previous.index == i then 1 else 0) else 0

      go :
          (h i : ℕ) (loaded : Table (List ℕ))
          → values_or_nil (lookup input.previous.tx_id loaded)
            ≡ current db unspents input.previous.tx_id
          → ((k : ℕ) → current db loaded k ≡ current db unspents k)
          → (t : Bool) → (input.previous.tx_id == h) ≡ t
          → count i (
              if t
              then swap_remove input.previous.index
                  (values_or_nil (lookup input.previous.tx_id loaded))
              else current db loaded h)
            ≡ n h i - (if t then (if input.previous.index == i then 1 else 0) else 0)
      go h i loaded value same true e =
          count-swap_remove i input.previous.index
            (values_or_nil (lookup input.previous.tx_id loaded))
          ∙ ap (λ l. count i l - (if input.previous.index == i then 1 else 0))
              (value ∙ ap (current db unspents) ((==_iff _ _).0 e))
          ∙ ap (λ m. m - (if input.previous.index == i then 1 else 0)) (c.counted h i)
      go h i loaded value same false e = ap (count i) (same h) ∙ c.counted h i ∙ omega arith

  -- The hash is new to the index, and the indexes of the outputs are uint16.
  abbrev pub IsNew : Transaction → Type 0
  IsNew tx = (stored db tx.hash ≡ []) × (length tx.outputs ≤ 2 ^ 16)

  append_outputs-Counts :
      (tx : Transaction) (unspents : Table (List ℕ)) (n : ℕ → ℕ → ℕ)
      → IsNew tx
      → Counts unspents n
      → Counts (append_outputs tx.hash tx.outputs 0 unspents) (λ h i.
        n h i + (if tx.hash == h then (if ltb i (length tx.outputs) then 1 else 0) else 0))
  append_outputs-Counts tx unspents n new c = record {
    counted = λ h i.
        count-append_outputs db tx.hash tx.outputs 0 unspents h i new.0 (bound new.1)
        ∙ ap (λ m. m + (if tx.hash == h then new_at i 0 tx.outputs else 0)) (c.counted h i)
        ∙ ap (λ m. n h i + (if tx.hash == h then m else 0))
            (new_at-lem i 0 tx.outputs ∙ from_zero i (length tx.outputs));
    fits = append_outputs-Fits tx.hash tx.outputs 0 unspents c.fits;
  }
    where
      bound : length tx.outputs ≤ 2 ^ 16 → 0 + length tx.outputs ≤ 2 ^ 16
      bound h = omega arith

      from_zero :
          (i k : ℕ)
          → ◌≡◌ {A = ℕ}
              (if ltb i 0 then 0 else if ltb i (0 + k) then 1 else 0)
              (if ltb i k then 1 else 0)
      from_zero i k = ground arith

  persist_tx-Counts :
      (tx : Transaction) (unspents : Table (List ℕ)) {rest : Table (List ℕ)} (n : ℕ → ℕ → ℕ)
      → IsNew tx
      → Counts unspents n
      → persist_tx db tx unspents ≡ ok rest
      → Counts rest (λ h i. n h i + created tx h i - spent tx h i)
  unfolding persist_tx
  persist_tx-Counts tx unspents {rest} n new c e =
      go (is_register_asset_tx tx) (is_coin_base_tx tx) e
    where
      grown : ℕ → ℕ → ℕ
      grown h i = if tx.hash == h then (if ltb i (length tx.outputs) then 1 else 0) else 0

      go :
          (register coinbase : Bool)
          → (if register
              then ok unspents
              else if coinbase
              then ok (append_outputs tx.hash tx.outputs 0 unspents)
              else spend_inputs db tx.inputs (append_outputs tx.hash tx.outputs 0 unspents))
            ≡ ok rest
          → Counts rest (λ h i.
            n h i
            + (if register then 0 else grown h i)
            - (if register then 0 else if coinbase then 0 else spent_by tx.inputs h i))
      go true coinbase h =
          subst (λ u. Counts u (λ h i. n h i + 0 - 0)) (ok-injective h)
            (record { counted = λ h i. c.counted h i ∙ omega arith; fits = c.fits })
      go false true h =
          let grow = append_outputs-Counts tx unspents n new c in
          subst (λ u. Counts u (λ h i. n h i + grown h i - 0)) (ok-injective h)
            (record { counted = λ h i. grow.counted h i ∙ omega arith; fits = grow.fits })
      go false false h =
          spend_inputs-Counts tx.inputs _ {rest = rest} (λ h i. n h i + grown h i)
            (append_outputs-Counts tx unspents n new c) h

  pub persist_txs-Counts :
      (txs : List Transaction) (unspents : Table (List ℕ)) {rest : Table (List ℕ)} (n : ℕ → ℕ → ℕ)
      → All IsNew txs
      → Counts unspents n
      → persist_txs db txs unspents ≡ ok rest
      → Counts rest (λ h i. apply_block txs h i (n h i))
  unfolding persist_txs
  persist_txs-Counts [] unspents n new c e = subst (λ u. Counts u n) (ok-injective e) c
  persist_txs-Counts (tx ∷ txs) unspents {rest} n new c e =
      let (next, persisted, e1) = >>=-ok (persist_tx db tx unspents) _ e in
      persist_txs-Counts txs next {rest = rest} _ new.1
        (persist_tx-Counts tx unspents {rest = next} n new.0 c persisted) e1

  pub none_loaded : Counts [] (λ h i. count i (stored db h))
  none_loaded = record {
    counted = λ h i. ap (λ found. count i (or_stored (stored db h) found)) (lookup-empty h);
    fits = tt;
  }

  -- Where the hashes of a block are new to the index and no transaction has more than 2 ^ 16 outputs,
  -- a `PersistUnspend` that passes refines the block's effect on the multiset of unspent outputs:
  -- transaction by transaction, each output is added and each spent one is taken away once.
  pub persist_unspend-apply_block :
      (txs : List Transaction) {db' : Table (List ℕ)} (h i : ℕ)
      → All IsNew txs
      → persist_unspend db txs ≡ ok db'
      → count i (stored db' h) ≡ apply_block txs h i (count i (stored db h))
  unfolding persist_unspend
  persist_unspend-apply_block txs {db'} h i new e =
      let (unspents, persisted, e1) = >>=-ok (persist_txs db txs []) _ e in
      let c = persist_txs-Counts txs [] {rest = unspents} _ new none_loaded persisted in
      ap (λ d. count i (stored d h)) (sym (ok-injective e1))
      ∙ ap (count i) (stored-put_unspents unspents db h c.fits)
      ∙ c.counted h i
