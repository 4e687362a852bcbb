-- ===== src/Blockchain/TxValidator/Recharge.antt =====
-- `CheckRechargeToSideChainTransaction` of blockchain/txvalidator.go. The transaction of the main
-- chain and the merkle proof are decoded by a library; the decoded transaction, the hash of the
-- genesis block's program, the hash of an address and the product with the exchange rate, a float,
-- are parameters.
pub mod Dues
pub mod Sound
mod Tests
use elastos_ela_side_chain.Common.{
  ℕ, zero, suc, Bool, true, false, not, ◌||◌, ◌&&◌, Option, none, some, List, [], ◌∷◌, get_elem?,
  drop, ◌==◌, if◌then◌else◌,
}
use elastos_ela_side_chain.Common.Int.{ℤ, pos, pos_part, neg_part, ltb_ℤ}
use elastos_ela_side_chain.Common.Result.{Result, ok, err, panic, ◌>>=◌, ◌>>◌, fail_if, or_panic}
use elastos_ela_side_chain.Core.{
  Output, Transaction, Payload, recharge, PayloadTransferCrossChainAsset,
}
use elastos_ela_side_chain.Blockchain.TxValidator.Fixed64.{add64, sub64}
use elastos_ela_side_chain.Blockchain.Fees.{is_same_address}

-- The errors, one for each message.
pub data RechargeError : Type 0 where
  invalid_payload_type invalid_rate proof_not_decoded main_not_decoded duplicate_main :
      RechargeError
  invalid_main_payload no_genesis_hash invalid_amount invalid_address invalid_outputs :
      RechargeError
  invalid_output_value unequal_amounts : RechargeError

-- The decoded transaction of the main chain.
pub record ElaTransaction : Type 0 where
  pub hash : ℕ
  pub payload : Option PayloadTransferCrossChainAsset
  pub outputs : List Output

abbrev pub eqb_ℤ : ℤ → ℤ → Bool
eqb_ℤ a b = (pos_part a == pos_part b) && (neg_part a == neg_part b)

-- The search for the output that an address is paid by.
abbrev pub is_contained : List ℕ → ℤ → List Output → Bool
is_contained program_hash amount [] = false
is_contained program_hash amount (output ∷ outputs) =
    (is_same_address output.program_hash program_hash && eqb_ℤ output.value amount)
    || is_contained program_hash amount outputs

-- The loop over the outputs at the end of the check, from a sum on.
unfoldable pub target_total : List Output → ℤ → Result RechargeError ℤ
target_total [] sum = ok sum
target_total (output ∷ outputs) sum =
    fail_if (ltb_ℤ output.value (pos 0)) invalid_output_value
    >> target_total outputs (add64 sum output.value)

module _ (converted : ℤ → ℤ) (uint168_from_address : List ℕ → Option (List ℕ)) (min_fee : ℤ) where
  -- One address whose output on the main chain went to this chain: the amount that it is to be paid.
  unfoldable pub recharge_amount : List Output → Output → List ℕ → ℤ → Result RechargeError ℤ
  recharge_amount outputs main_output address amount =
      fail_if (ltb_ℤ amount (pos 0) || ltb_ℤ (sub64 main_output.value min_fee) amount)
        invalid_amount
      >> elim (uint168_from_address address) [
        | none ↦ err invalid_address
        | some program_hash ↦
            fail_if (not (is_contained program_hash (converted amount) outputs)) invalid_outputs
            >> ok (converted amount)
      ]

  -- The loop over the addresses, with the indexes and the amounts beside them, from a sum on.
  unfoldable pub origin_total :
      List ℕ
      → List Output
      → List Output
      → List (List ℕ)
      → List ℕ
      → List ℤ
      → ℤ
      → Result RechargeError ℤ
  origin_total genesis outputs main_outputs [] indexes amounts sum = ok sum
  origin_total genesis outputs main_outputs (address ∷ addresses) indexes amounts sum =
      or_panic (get_elem? indexes 0) >>= λ index.
      or_panic (get_elem? main_outputs index) >>= λ main_output.
      elim (is_same_address main_output.program_hash genesis) [
        | true ↦ or_panic (get_elem? amounts 0) >>= λ amount.
            recharge_amount outputs main_output address amount >>= λ paid.
            origin_total genesis outputs main_outputs addresses (drop 1 indexes) (drop 1 amounts)
              (add64 sum paid)
        | false ↦
            origin_total genesis outputs main_outputs addresses (drop 1 indexes) (drop 1 amounts)
              sum
      ]

  -- The check of the amounts, once all is decoded.
  unfoldable pub check_recharge_amounts :
      Transaction
      → List Output
      → PayloadTransferCrossChainAsset
      → List ℕ
      → Result RechargeError (Unit {0})
  check_recharge_amounts tx main_outputs payload genesis =
      origin_total genesis tx.outputs main_outputs payload.cross_chain_addresses
        payload.output_indexes payload.cross_chain_amounts (pos 0)
      >>= λ origin. target_total tx.outputs (pos 0) >>= λ target.
          fail_if (not (eqb_ℤ target origin)) unequal_amounts

  module _ (is_rate_positive : Bool) (is_proof_decoded : Transaction → Bool)
      (decode_ela : Transaction → Option ElaTransaction) (is_mainchain_duplicate : ℕ → Bool)
      (genesis_program_hash : Option (List ℕ)) where
    -- `CheckRechargeToSideChainTransaction`
    unfoldable pub check_recharge_to_side_chain : Transaction → Result RechargeError (Unit {0})
    check_recharge_to_side_chain tx = elim tx.payload [
      | recharge hash ↦
          fail_if (not is_rate_positive) invalid_rate
          >> (fail_if (not (is_proof_decoded tx)) proof_not_decoded >> elim (decode_ela tx) [
            | none ↦ err main_not_decoded
            | some main ↦
                fail_if (is_mainchain_duplicate main.hash) duplicate_main >> elim main.payload [
                  | none ↦ err invalid_main_payload
                  | some payload ↦ elim genesis_program_hash [
                    | none ↦ err no_genesis_hash
                    | some genesis ↦ check_recharge_amounts tx main.outputs payload genesis
                  ]
                ]
          ])
      | _ ↦ err invalid_payload_type
    ]
