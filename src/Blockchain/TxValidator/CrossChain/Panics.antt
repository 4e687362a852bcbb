-- ===== src/Blockchain/TxValidator/CrossChain/Panics.antt =====
-- `CheckTransferCrossChainAssetTransaction`: when it panics, and that it does not for indexes that an
-- int holds.
use elastos_ela_side_chain.Common.{
  ℕ, zero, suc, ◌^◌, ◌≤◌, ◌<◌, ◌≡◌, refl, ◌∙◌, false, not, ◌||◌, Option, none, List, [], ◌∷◌,
  length, get_elem?, ◌==◌, ltb, arith, inl, inr, get_elem?-total, All, Option-cases,
}
use elastos_ela_side_chain.Common.Int.{ℤ, pos, leb_ℤ, ltb_ℤ}
use elastos_ela_side_chain.Common.Result.{
  ok, panic, fail_if, fail_if-ok, Returns, >>=-Returns, fail_if-Returns,
}
use elastos_ela_side_chain.Core.{
  Output, Transaction, transfer_cross_chain, PayloadTransferCrossChainAsset,
}
use elastos_ela_side_chain.Blockchain.TxReference.{Store, get_tx_reference}
use elastos_ela_side_chain.Blockchain.TxValidator.Fixed64.{to_int64, sub64}
use elastos_ela_side_chain.Blockchain.TxValidator.CrossChain.{
  is_member, check_indexes, is_empty_hash, cross_chain_count, check_amounts, check_fee,
  content_mismatch, is_empty_string, has_prefix, invalid_address, check_addresses,
  check_cross_chain_payload, check_transfer_cross_chain_asset,
}
use elastos_ela_side_chain.Blockchain.TxValidator.CrossChain.Sound.{
  check_payload, check_indexes-ok, content_lengths,
}

check_indexes-Returns : (n : ℕ) (seen indexes : List ℕ) → Returns (check_indexes n seen indexes)
unfolding check_indexes
check_indexes-Returns n seen [] = tt
check_indexes-Returns n seen (index ∷ indexes) =
    >>=-Returns (fail_if (is_member index seen || leb_ℤ (pos n) (to_int64 index)) _) _
      (fail_if-Returns _ _) (λ _ _. check_indexes-Returns n (index ∷ seen) indexes)

-- Indexes that pass and that an int64 holds are in range.
check_indexes-inside :
    (n : ℕ) (seen indexes : List ℕ)
    → All (λ index. index < 2 ^ 63) indexes
    → check_indexes n seen indexes ≡ ok tt
    → All (λ index. index < n) indexes
check_indexes-inside n seen [] small e = tt
check_indexes-inside n seen (index ∷ indexes) small e =
    let (_, inside, rest) = check_indexes-ok n seen index indexes e in
    (inside_small index small.0 inside, check_indexes-inside n (index ∷ seen) indexes small.1 rest)
  where
    inside_small : (k : ℕ) → k < 2 ^ 63 → leb_ℤ (pos n) (to_int64 k) ≡ false → k < n
    inside_small k h e = ground arith

check_amounts-Returns :
    (min_fee : ℤ) (outputs : List Output) (indexes : List ℕ) (amounts : List ℤ)
    → All (λ index. index < length outputs) indexes
    → length amounts ≡ length indexes
    → Returns (check_amounts min_fee outputs indexes amounts)
unfolding check_amounts
check_amounts-Returns min_fee outputs [] amounts inside same = tt
check_amounts-Returns min_fee outputs (index ∷ indexes) [] inside same = absurd (omega arith)
check_amounts-Returns min_fee outputs (index ∷ indexes) (amount ∷ amounts) inside same =
    let (output, read) = get_elem?-total outputs index inside.0 in
    let rest = check_amounts-Returns min_fee outputs indexes amounts inside.1 (omega arith) in
    rw read (
      >>=-Returns (fail_if (not (is_empty_hash output.program_hash)) _) _ (fail_if-Returns _ _)
        (λ _ _. >>=-Returns (fail_if (ltb_ℤ output.value (pos 0)) _) _ (fail_if-Returns _ _) (λ _ _.
          >>=-Returns
            (fail_if (ltb_ℤ amount (pos 0) || ltb_ℤ (sub64 output.value min_fee) amount) _) _
            (fail_if-Returns _ _) (λ _ _. rest))))

check_fee-Returns :
    (min_fee : ℤ) (store : Store) (tx : Transaction) → Returns (check_fee min_fee store tx)
unfolding check_fee
check_fee-Returns min_fee store tx = elim (Option-cases (get_tx_reference store tx)) [
  | inl e ↦ rw (e, check_fee) tt
  | inr (references, found) ↦ rw (found, check_fee) (fail_if-Returns _ _)
]

module _ (uint168_from_address : List ℕ → Option (List ℕ))
    (prefix_standard prefix_multisig : ℕ) where
  check_addresses-Returns :
      (addresses : List (List ℕ))
      → Returns (check_addresses uint168_from_address prefix_standard prefix_multisig addresses)
  unfolding check_addresses
  check_addresses-Returns [] = tt
  check_addresses-Returns (address ∷ addresses) =
      let rest = check_addresses-Returns addresses in
      elim (Option-cases (uint168_from_address address)) [
        | inl e ↦ rw e (
            >>=-Returns (fail_if (is_empty_string address) invalid_address) _ (fail_if-Returns _ _)
              (λ _ _. tt))
        | inr (hash, found) ↦ rw found (
            >>=-Returns (fail_if (is_empty_string address) invalid_address) _ (fail_if-Returns _ _)
              (λ _ _.
                >>=-Returns
                  (fail_if (not (has_prefix prefix_standard prefix_multisig hash)) invalid_address)
                  _ (fail_if-Returns _ _) (λ _ _. rest)))
      ]

module _ (uint168_from_address : List ℕ → Option (List ℕ)) (prefix_standard prefix_multisig : ℕ)
    (min_fee : ℤ) (store : Store) (tx : Transaction) (payload : PayloadTransferCrossChainAsset)
    (is_payload : tx.payload ≡ transfer_cross_chain payload) where
  -- On a payload whose indexes are all below 2 ^ 63 the check does not panic, whatever the rest of the
  -- transaction and the store.
  pub check_transfer_cross_chain_asset-Returns :
      All (λ index. index < 2 ^ 63) payload.output_indexes
      → Returns (
          check_transfer_cross_chain_asset uint168_from_address prefix_standard prefix_multisig
            min_fee store tx)
  unfolding check_cross_chain_payload
  check_transfer_cross_chain_asset-Returns small =
      rw
        (check_payload uint168_from_address prefix_standard prefix_multisig min_fee store tx payload
          is_payload)
        (>>=-Returns (fail_if (content_mismatch payload (length tx.outputs)) _) _
          (fail_if-Returns _ _)
          (λ _ content.
            >>=-Returns (check_indexes (length tx.outputs) [] payload.output_indexes) _
              (check_indexes-Returns _ _ _)
              (λ _ indexes.
                >>=-Returns
                  (fail_if
                    (not (length payload.cross_chain_addresses == cross_chain_count tx.outputs)) _)
                  _ (fail_if-Returns _ _)
                  (λ _ _.
                    >>=-Returns
                      (check_addresses uint168_from_address prefix_standard prefix_multisig
                        payload.cross_chain_addresses)
                      _
                      (check_addresses-Returns uint168_from_address prefix_standard prefix_multisig
                        payload.cross_chain_addresses)
                      (λ _ _.
                        >>=-Returns
                          (check_amounts min_fee tx.outputs payload.output_indexes
                            payload.cross_chain_amounts)
                          _
                          (check_amounts-Returns min_fee tx.outputs payload.output_indexes
                            payload.cross_chain_amounts
                            (check_indexes-inside (length tx.outputs) [] payload.output_indexes
                              small indexes)
                            (content_lengths payload (length tx.outputs) (fail_if-ok _ _ content)))
                          (λ _ _. check_fee-Returns min_fee store tx))))))

get_elem?-beyond {ℓ} : {A : Type ℓ} (xs : List A) (i : ℕ) → length xs ≤ i → get_elem? xs i ≡ none
get_elem?-beyond [] i h = refl
get_elem?-beyond (x ∷ xs) zero h = absurd (omega arith)
get_elem?-beyond (x ∷ xs) (suc i) h = get_elem?-beyond xs i (omega arith)

-- A payload of one address that passes, and one amount, in a transaction with exactly one output to
-- the empty program hash: an index from 2 ^ 63 on, which is negative as an int, makes the check panic.
pub check_transfer_cross_chain_asset-panic :
    (uint168_from_address : List ℕ → Option (List ℕ)) (prefix_standard prefix_multisig : ℕ)
    (min_fee : ℤ) (store : Store) (tx : Transaction) (address : List ℕ) (index : ℕ) (amount : ℤ)
    → tx.payload
      ≡ transfer_cross_chain (record {
        cross_chain_addresses = address ∷ [];
        output_indexes = index ∷ [];
        cross_chain_amounts = amount ∷ [];
      })
    → check_addresses uint168_from_address prefix_standard prefix_multisig (address ∷ []) ≡ ok tt
    → cross_chain_count tx.outputs ≡ 1
    → 0 < length tx.outputs
    → length tx.outputs < 2 ^ 63
    → 2 ^ 63 ≤ index
    → index < 2 ^ 64
    → check_transfer_cross_chain_asset uint168_from_address prefix_standard prefix_multisig min_fee
        store tx
      ≡ panic
unfolding check_cross_chain_payload check_amounts check_indexes
check_transfer_cross_chain_asset-panic uint168_from_address prefix_standard prefix_multisig min_fee
      store tx address index amount is_payload passes count some_outputs few high word =
    check_payload uint168_from_address prefix_standard prefix_multisig min_fee store tx _ is_payload
    ∙ rw
        (
          content (length tx.outputs) some_outputs,
          outside (length tx.outputs),
          count,
          passes,
          get_elem?-beyond tx.outputs index (omega arith),
        )
        refl
  where
    content : (n : ℕ) → 0 < n → (ltb n 1) ≡ false
    content n h = ground arith

    outside : (n : ℕ) → leb_ℤ (pos n) (to_int64 index) ≡ false
    outside n = ground arith
