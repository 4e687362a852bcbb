-- ===== src/Blockchain/TxValidator/Recharge/Sound.antt =====
-- What a recharge pays that passes `CheckRechargeToSideChainTransaction`.
use elastos_ela_side_chain.Common.{
  ℕ, ◌≡◌, sym, ◌∙◌, ap, Bool, true, false, not, not-false, Option, some, List, arith, All, map,
}
use elastos_ela_side_chain.Common.Int.{ℤ, pos, eq_of_parts}
use elastos_ela_side_chain.Common.Result.{ok, ◌>>◌, fail_if, >>=-ok, fail_if-ok}
use elastos_ela_side_chain.Core.{Transaction, recharge, PayloadTransferCrossChainAsset}
use elastos_ela_side_chain.Blockchain.TxValidator.Fixed64.{wrap64}
use elastos_ela_side_chain.Blockchain.TxValidator.Fixed64.Sums.{sum_ℤ, values, zero_+ℤ}
use elastos_ela_side_chain.Blockchain.TxValidator.Recharge.{
  invalid_rate, proof_not_decoded, duplicate_main, ElaTransaction, eqb_ℤ, target_total,
  origin_total, check_recharge_amounts, check_recharge_to_side_chain,
}
use elastos_ela_side_chain.Blockchain.TxValidator.Recharge.Dues.{
  Due, dues, IsPaid, target_total-wrap64, origin_total-ArePaid,
}

pub eqb_ℤ-eq : (a b : ℤ) → eqb_ℤ a b ≡ true → a ≡ b
eqb_ℤ-eq a b h = eq_of_parts a b (ground arith)

module _ (converted : ℤ → ℤ) (uint168_from_address : List ℕ → Option (List ℕ)) (min_fee : ℤ) where
  module _ (is_rate_positive : Bool) (is_proof_decoded : Transaction → Bool)
      (decode_ela : Transaction → Option ElaTransaction) (is_mainchain_duplicate : ℕ → Bool)
      (genesis_program_hash : Option (List ℕ)) (tx : Transaction) (main : ElaTransaction)
      (payload : PayloadTransferCrossChainAsset) (genesis : List ℕ) {hash : Option ℕ}
      (is_recharge : tx.payload ≡ recharge hash) (decoded : decode_ela tx ≡ some main)
      (main_payload : main.payload ≡ some payload)
      (is_genesis : genesis_program_hash ≡ some genesis) where
    check_recharge-decoded :
        check_recharge_to_side_chain converted uint168_from_address min_fee is_rate_positive
          is_proof_decoded decode_ela is_mainchain_duplicate genesis_program_hash tx
        ≡ (fail_if (not is_rate_positive) invalid_rate
            >> (fail_if (not (is_proof_decoded tx)) proof_not_decoded
                >> (fail_if (is_mainchain_duplicate main.hash) duplicate_main
                    >> check_recharge_amounts converted uint168_from_address min_fee tx main.outputs
                        payload genesis)))
    unfolding check_recharge_to_side_chain
    check_recharge-decoded =
        simp (check_recharge_to_side_chain, is_recharge, decoded, main_payload, is_genesis)

    -- A recharge that passes `CheckRechargeToSideChainTransaction`, whose parts decode: its transaction
    -- on the main chain is new; each amount whose output on the main chain goes to this chain is at
    -- least zero and at most the output's value less the fee, and an output of the recharge pays the
    -- address that amount, converted; the sum of the values of the recharge's outputs is the sum of
    -- these converted amounts, modulo 2 ^ 64.
    pub check_recharge_to_side_chain-IsPaid :
        check_recharge_to_side_chain converted uint168_from_address min_fee is_rate_positive
            is_proof_decoded decode_ela is_mainchain_duplicate genesis_program_hash tx
          ≡ ok tt
        → let ds =
            dues genesis main.outputs payload.cross_chain_addresses payload.output_indexes
              payload.cross_chain_amounts in
          (is_mainchain_duplicate main.hash ≡ false)
          × All
              (λ (d : Due).
                IsPaid converted uint168_from_address min_fee tx.outputs d.main_output d.address
                  d.amount)
              ds
          × (wrap64 (sum_ℤ (values tx.outputs))
              ≡ wrap64 (sum_ℤ (map (λ (d : Due). converted d.amount) ds)))
    unfolding check_recharge_amounts
    check_recharge_to_side_chain-IsPaid e =
        let (_, _, e1) =
          >>=-ok (fail_if (not is_rate_positive) invalid_rate) _ (sym check_recharge-decoded ∙ e) in
        let (_, _, e2) = >>=-ok (fail_if (not (is_proof_decoded tx)) proof_not_decoded) _ e1 in
        let (_, new, e3) =
          >>=-ok (fail_if (is_mainchain_duplicate main.hash) duplicate_main) _ e2 in
        let (origin, left, e4) =
          >>=-ok
            (origin_total converted uint168_from_address min_fee genesis tx.outputs main.outputs
              payload.cross_chain_addresses payload.output_indexes payload.cross_chain_amounts
              (pos 0))
            _ e3 in
        let (target, right, e5) = >>=-ok (target_total tx.outputs (pos 0)) _ e4 in
        let equal : target ≡ origin =
          eqb_ℤ-eq target origin
            (not-false (eqb_ℤ target origin) (fail_if-ok (not (eqb_ℤ target origin)) _ e5)) in
        let (paid, summed) =
          origin_total-ArePaid converted uint168_from_address min_fee genesis tx.outputs
            main.outputs payload.cross_chain_addresses payload.output_indexes
            payload.cross_chain_amounts (pos 0) left in
        (
          fail_if-ok (is_mainchain_duplicate main.hash) _ new,
          paid,
          ap wrap64 (sym (zero_+ℤ _))
              ∙ sym (target_total-wrap64 tx.outputs (pos 0) right)
              ∙ equal
              ∙ summed
              ∙ ap wrap64 (zero_+ℤ _),
        )
