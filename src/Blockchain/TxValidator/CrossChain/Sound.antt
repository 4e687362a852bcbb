-- ===== src/Blockchain/TxValidator/CrossChain/Sound.antt =====
-- `CheckTransferCrossChainAssetTransaction`: what a transaction that passes is, and when the check
-- panics.
use mathlib.Core.Option.{some-injective}
use elastos_ela_side_chain.Common.{
  ℕ, zero, suc, ◌≡◌, refl, sym, subst, ◌∙◌, ap, Bool, not-false, true, false, not, ◌||◌, Option,
  none, some, List, [], ◌∷◌, length, get_elem?, ◌==◌, ==_iff, arith,
}
use elastos_ela_side_chain.Common.Int.{not_less, ℤ, pos, leb_ℤ, ltb_ℤ, ◌≤ℤ◌}
use elastos_ela_side_chain.Common.Result.{
  ok, err, fail_if, or_panic, >>=-ok, fail_if-ok, or_panic-ok,
}
use elastos_ela_side_chain.Core.{
  Input, Output, Transaction, transfer_cross_chain, PayloadTransferCrossChainAsset,
}
use elastos_ela_side_chain.Blockchain.TxReference.{Store, get_tx_reference}
use elastos_ela_side_chain.Blockchain.TxValidator.Fixed64.{to_int64, sub64}
use elastos_ela_side_chain.Blockchain.TxValidator.CrossChain.{
  Check, invalid_content, invalid_index, invalid_counts, invalid_inputs, invalid_fee, is_member,
  check_indexes, is_empty_hash, cross_chain_count, check_amounts, total_input, total_output,
  check_fee, content_mismatch, check_addresses, check_cross_chain_payload,
  check_transfer_cross_chain_asset,
}

-- One round over the indexes.
pub check_indexes-ok :
    (n : ℕ) (seen : List ℕ) (index : ℕ) (indexes : List ℕ)
    → check_indexes n seen (index ∷ indexes) ≡ ok tt
    → (is_member index seen ≡ false)
      × (leb_ℤ (pos n) (to_int64 index) ≡ false)
      × (check_indexes n (index ∷ seen) indexes ≡ ok tt)
unfolding check_indexes
check_indexes-ok n seen index indexes e =
    let (_, passed, rest) =
      >>=-ok (fail_if (is_member index seen || leb_ℤ (pos n) (to_int64 index)) invalid_index) _ e in
    let clear = fail_if-ok (is_member index seen || leb_ℤ (pos n) (to_int64 index)) _ passed in
    (or_false_left _ _ clear, or_false_right _ _ clear, rest)
  where
    or_false_left : (a b : Bool) → (a || b) ≡ false → a ≡ false
    or_false_left true b h = h
    or_false_left false b h = refl

    or_false_right : (a b : Bool) → (a || b) ≡ false → b ≡ false
    or_false_right true b h = cc
    or_false_right false b h = h

-- No index that is left is one of those seen.
check_indexes-fresh :
    (n : ℕ) (seen indexes : List ℕ) (i index : ℕ)
    → check_indexes n seen indexes ≡ ok tt
    → get_elem? indexes i ≡ some index
    → is_member index seen ≡ false
check_indexes-fresh n seen [] i index e at = cc
check_indexes-fresh n seen (first ∷ indexes) zero index e at =
    ap (λ k. is_member k seen) (sym (some-injective _ _ at))
    ∙ (check_indexes-ok n seen first indexes e).0
check_indexes-fresh n seen (first ∷ indexes) (suc i) index e at = unseen first index seen (
    check_indexes-fresh n (first ∷ seen) indexes i index (check_indexes-ok n seen first indexes e).2
      at)
  where
    unseen : (a b : ℕ) (ms : List ℕ) → is_member b (a ∷ ms) ≡ false → is_member b ms ≡ false
    unseen a b ms h = go (b == a) h
      where
        go : (t : Bool) → (t || is_member b ms) ≡ false → is_member b ms ≡ false
        go true h = cc
        go false h = h

is_member-head : (n : ℕ) (ms : List ℕ) → is_member n (n ∷ ms) ≡ true
is_member-head n ms = ground arith

head_repeated {ℓ} :
    {A : Type ℓ} (n : ℕ) (seen : List ℕ) (first : ℕ) (indexes : List ℕ) (j : ℕ)
    → check_indexes n seen (first ∷ indexes) ≡ ok tt
    → get_elem? indexes j ≡ some first
    → A
head_repeated n seen first indexes j e at =
    let old : is_member first (first ∷ seen) ≡ false =
      check_indexes-fresh n (first ∷ seen) indexes j first
        (check_indexes-ok n seen first indexes e).2 at in
    let new : is_member first (first ∷ seen) ≡ true = is_member-head first seen in cc

-- Two places that hold one index are the same place.
check_indexes-distinct :
    (n : ℕ) (seen indexes : List ℕ) (i j index : ℕ)
    → check_indexes n seen indexes ≡ ok tt
    → get_elem? indexes i ≡ some index
    → get_elem? indexes j ≡ some index
    → i ≡ j
check_indexes-distinct n seen [] i j index e at_i at_j = cc
check_indexes-distinct n seen (first ∷ indexes) zero zero index e at_i at_j = refl
check_indexes-distinct n seen (first ∷ indexes) (suc i) (suc j) index e at_i at_j = ap suc (
    check_indexes-distinct n (first ∷ seen) indexes i j index
      (check_indexes-ok n seen first indexes e).2 at_i at_j)
check_indexes-distinct n seen (first ∷ indexes) zero (suc j) index e at_i at_j =
    head_repeated n seen first indexes j e (at_j ∙ sym at_i)
check_indexes-distinct n seen (first ∷ indexes) (suc i) zero index e at_i at_j =
    head_repeated n seen first indexes i e (at_i ∙ sym at_j)

-- The outputs that the loop over the amounts reads.
abbrev pub IsCovered : ℤ → ℤ → List Output → ℕ → Type 0
IsCovered min_fee amount outputs index =
    (output : Output) × (get_elem? outputs index ≡ some output)
    × (is_empty_hash output.program_hash ≡ true)
    × (pos 0 ≤ℤ amount)
    × (amount ≤ℤ sub64 output.value min_fee)

check_amounts-ok :
    (min_fee : ℤ) (outputs : List Output) (index : ℕ) (indexes : List ℕ) (amount : ℤ)
    (amounts : List ℤ)
    → check_amounts min_fee outputs (index ∷ indexes) (amount ∷ amounts) ≡ ok tt
    → IsCovered min_fee amount outputs index
      × (check_amounts min_fee outputs indexes amounts ≡ ok tt)
unfolding check_amounts
check_amounts-ok min_fee outputs index indexes amount amounts e =
    let (output, read, e1) = >>=-ok (or_panic (get_elem? outputs index)) _ e in
    let (_, hash, e2) = >>=-ok (fail_if (not (is_empty_hash output.program_hash)) _) _ e1 in
    let (_, value, e3) = >>=-ok (fail_if (ltb_ℤ output.value (pos 0)) _) _ e2 in
    let (_, covered, rest) =
      >>=-ok (fail_if (ltb_ℤ amount (pos 0) || ltb_ℤ (sub64 output.value min_fee) amount) _) _ e3 in
    let (low, high) = in_range amount (sub64 output.value min_fee) (fail_if-ok _ _ covered) in
    (
      (
        output,
        or_panic-ok (get_elem? outputs index) read,
        not-false (is_empty_hash output.program_hash)
            (fail_if-ok (not (is_empty_hash output.program_hash)) _ hash),
        low,
        high,
      ),
      rest,
    )
  where
    in_range :
        (a limit : ℤ) → (ltb_ℤ a (pos 0) || ltb_ℤ limit a) ≡ false → (pos 0 ≤ℤ a) × (a ≤ℤ limit)
    in_range a limit h = (ground arith, ground arith)

check_amounts-IsCovered :
    (min_fee : ℤ) (outputs : List Output) (indexes : List ℕ) (amounts : List ℤ) (i : ℕ) {index : ℕ}
    {amount : ℤ}
    → check_amounts min_fee outputs indexes amounts ≡ ok tt
    → get_elem? indexes i ≡ some index
    → get_elem? amounts i ≡ some amount
    → IsCovered min_fee amount outputs index
check_amounts-IsCovered min_fee outputs [] amounts i e at_index at_amount = cc
check_amounts-IsCovered min_fee outputs (first ∷ indexes) [] i e at_index at_amount = cc
check_amounts-IsCovered min_fee outputs (first ∷ indexes) (amount ∷ amounts) zero {index} e at_index
      at_amount =
    let covered = (check_amounts-ok min_fee outputs first indexes amount amounts e).0 in
    let same_index = some-injective _ _ at_index in
    let same_amount = some-injective _ _ at_amount in
    subst (λ k. IsCovered min_fee k outputs index) same_amount
      (subst (λ k. IsCovered min_fee amount outputs k) same_index covered)
check_amounts-IsCovered min_fee outputs (first ∷ indexes) (amount ∷ amounts) (suc i) e at_index
      at_amount =
    check_amounts-IsCovered min_fee outputs indexes amounts i
      (check_amounts-ok min_fee outputs first indexes amount amounts e).1 at_index at_amount

pub content_lengths :
    (payload : PayloadTransferCrossChainAsset) (n : ℕ)
    → content_mismatch payload n ≡ false
    → length payload.cross_chain_amounts ≡ length payload.output_indexes
content_lengths payload n h =
    ground (arith, ==_iff (length payload.cross_chain_amounts) (length payload.output_indexes))

module _ (uint168_from_address : List ℕ → Option (List ℕ)) (prefix_standard prefix_multisig : ℕ)
    (min_fee : ℤ) (store : Store) (tx : Transaction) (payload : PayloadTransferCrossChainAsset)
    (is_payload : tx.payload ≡ transfer_cross_chain payload) where
  abbrev pub check : Check
  check =
      check_transfer_cross_chain_asset uint168_from_address prefix_standard prefix_multisig min_fee
        store tx

  pub check_payload :
      check
      ≡ check_cross_chain_payload uint168_from_address prefix_standard prefix_multisig min_fee store
          tx payload
  unfolding check_transfer_cross_chain_asset
  check_payload = rw is_payload refl

  -- The rounds of a check that passes.
  record Passed : Type 0 where
    content : content_mismatch payload (length tx.outputs) ≡ false
    indexes : check_indexes (length tx.outputs) [] payload.output_indexes ≡ ok tt
    amounts :
        check_amounts min_fee tx.outputs payload.output_indexes payload.cross_chain_amounts ≡ ok tt
    fee : check_fee min_fee store tx ≡ ok tt

  check-Passed : check ≡ ok tt → Passed
  unfolding check_cross_chain_payload
  check-Passed e =
      let (_, content, e1) =
        >>=-ok (fail_if (content_mismatch payload (length tx.outputs)) invalid_content) _
          (sym check_payload ∙ e) in
      let (_, indexes, e2) =
        >>=-ok (check_indexes (length tx.outputs) [] payload.output_indexes) _ e1 in
      let (_, counts, e3) =
        >>=-ok
          (fail_if (not (length payload.cross_chain_addresses == cross_chain_count tx.outputs))
            invalid_counts)
          _ e2 in
      let (_, addresses, e4) =
        >>=-ok
          (check_addresses uint168_from_address prefix_standard prefix_multisig
            payload.cross_chain_addresses)
          _ e3 in
      let (_, amounts, fee) =
        >>=-ok (check_amounts min_fee tx.outputs payload.output_indexes payload.cross_chain_amounts)
          _ e4 in
      record { content = fail_if-ok _ _ content; indexes = indexes; amounts = amounts; fee = fee }

  -- In a transaction that passes the check, the output at an index of the payload is there and goes to the
  -- empty program hash, and the amount that stands beside the index is at least zero and at most the
  -- value of the output less the fee (an int64 difference).
  pub check_transfer_cross_chain_asset-IsCovered :
      (i index : ℕ) (amount : ℤ)
      → check ≡ ok tt
      → get_elem? payload.output_indexes i ≡ some index
      → get_elem? payload.cross_chain_amounts i ≡ some amount
      → IsCovered min_fee amount tx.outputs index
  check_transfer_cross_chain_asset-IsCovered i index amount e at_index at_amount =
      check_amounts-IsCovered min_fee tx.outputs payload.output_indexes payload.cross_chain_amounts
        i (check-Passed e).amounts at_index at_amount

  -- In a transaction that passes the check, no two places of the payload name one output, and there are as
  -- many amounts as there are indexes.
  pub check_transfer_cross_chain_asset-distinct :
      (i j index : ℕ)
      → check ≡ ok tt
      → get_elem? payload.output_indexes i ≡ some index
      → get_elem? payload.output_indexes j ≡ some index
      → (i ≡ j) × (length payload.cross_chain_amounts ≡ length payload.output_indexes)
  check_transfer_cross_chain_asset-distinct i j index e at_i at_j =
      let passed = check-Passed e in
      (
        check_indexes-distinct (length tx.outputs) [] payload.output_indexes i j index
            passed.indexes at_i at_j,
        content_lengths payload (length tx.outputs) passed.content,
      )

  -- In a transaction that passes the check, every input refers to an output of the store, and the int64
  -- difference of the sum of those outputs and the sum of the transaction's is at least the fee.
  pub check_transfer_cross_chain_asset-fee :
      check ≡ ok tt
      → (references : List (Input × Output)) × (get_tx_reference store tx ≡ some references)
        × (min_fee ≤ℤ sub64 (total_input references) (total_output tx.outputs))
  unfolding check_fee
  check_transfer_cross_chain_asset-fee e = go (get_tx_reference store tx) (check-Passed e).fee
    where
      go :
          (found : Option (List (Input × Output)))
          → (elim found [
            | none ↦ err invalid_inputs
            | some references ↦
                fail_if
                  (ltb_ℤ (sub64 (total_input references) (total_output tx.outputs)) min_fee)
                  invalid_fee
          ])
            ≡ ok tt
          → (references : List (Input × Output)) × (found ≡ some references)
            × (min_fee ≤ℤ sub64 (total_input references) (total_output tx.outputs))
      go none h = cc
      go (some references) h =
          let enough =
            fail_if-ok (ltb_ℤ (sub64 (total_input references) (total_output tx.outputs)) min_fee) _
              h in
          (
            references,
            refl,
            not_less min_fee (sub64 (total_input references) (total_output tx.outputs)) enough,
          )
