-- ===== src/Blockchain/TxValidator/CrossChain.antt =====
-- `CheckTransferCrossChainAssetTransaction` of blockchain/txvalidator.go. The hash of an address, the
-- two prefixes and the least fee come from the utility library and the configuration and are
-- parameters. `int` has 64 bits.
pub mod Sound
pub mod Panics
mod Tests
use elastos_ela_side_chain.Common.{
  ℕ, zero, suc, ◌+◌, Bool, true, false, not, ◌||◌, ◌&&◌, Option, none, some, List, [], ◌∷◌, length,
  get_elem?, ◌==◌, leb, ltb, if◌then◌else◌,
}
use elastos_ela_side_chain.Common.Int.{ℤ, pos, leb_ℤ, ltb_ℤ}
use elastos_ela_side_chain.Common.Result.{Result, ok, err, panic, ◌>>=◌, ◌>>◌, fail_if, or_panic}
use elastos_ela_side_chain.Core.{
  Input, Output, Transaction, Payload, recharge, transfer_cross_chain, other_payload,
  PayloadTransferCrossChainAsset,
}
use elastos_ela_side_chain.Blockchain.TxReference.{Store, get_tx_reference}
use elastos_ela_side_chain.Blockchain.TxValidator.Fixed64.{to_int64, add64, sub64}

-- The errors, one for each message.
pub data CrossChainError : Type 0 where
  invalid_payload_type invalid_content invalid_index invalid_counts invalid_address :
      CrossChainError
  invalid_program_hash invalid_outputs invalid_inputs invalid_fee : CrossChainError

abbrev pub Check : Type 0
Check = Result CrossChainError (Unit {0})

abbrev pub is_member : ℕ → List ℕ → Bool
is_member n [] = false
is_member n (m ∷ ms) = (n == m) || is_member n ms

-- The loop over the output indexes, with the map of those seen.
unfoldable pub check_indexes : ℕ → List ℕ → List ℕ → Check
check_indexes num_outputs seen [] = ok tt
check_indexes num_outputs seen (index ∷ indexes) =
    fail_if (is_member index seen || leb_ℤ (pos num_outputs) (to_int64 index)) invalid_index
    >> check_indexes num_outputs (index ∷ seen) indexes

-- `ProgramHash.IsEqual(Uint168{})`
abbrev pub is_empty_hash : List ℕ → Bool
is_empty_hash [] = true
is_empty_hash (byte ∷ bytes) = (byte == 0) && is_empty_hash bytes

unfoldable pub cross_chain_count : List Output → ℕ
cross_chain_count [] = 0
cross_chain_count (output ∷ outputs) =
    (if is_empty_hash output.program_hash then 1 else 0) + cross_chain_count outputs

-- The loop over the output indexes and the amounts that stand beside them.
unfoldable pub check_amounts : ℤ → List Output → List ℕ → List ℤ → Check
check_amounts min_fee outputs [] amounts = ok tt
check_amounts min_fee outputs (index ∷ indexes) amounts =
    or_panic (get_elem? outputs index) >>= λ output.
    fail_if (not (is_empty_hash output.program_hash)) invalid_program_hash
    >> (fail_if (ltb_ℤ output.value (pos 0)) invalid_outputs >> elim amounts [
      | [] ↦ panic
      | amount ∷ rest ↦
          fail_if (ltb_ℤ amount (pos 0) || ltb_ℤ (sub64 output.value min_fee) amount)
            invalid_outputs
          >> check_amounts min_fee outputs indexes rest
    ])

abbrev pub total_input : List (Input × Output) → ℤ
total_input [] = pos 0
total_input ((input, output) ∷ references) = add64 (total_input references) output.value

abbrev pub total_output : List Output → ℤ
total_output [] = pos 0
total_output (output ∷ outputs) = add64 (total_output outputs) output.value

-- The fee at the end of the check.
unfoldable pub check_fee : ℤ → Store → Transaction → Check
check_fee min_fee store tx = elim (get_tx_reference store tx) [
  | none ↦ err invalid_inputs
  | some references ↦
      fail_if (ltb_ℤ (sub64 (total_input references) (total_output tx.outputs)) min_fee) invalid_fee
]

-- The lengths of the payload's parts.
abbrev pub content_mismatch : PayloadTransferCrossChainAsset → ℕ → Bool
content_mismatch payload num_outputs =
    let addresses = length payload.cross_chain_addresses in
    let amounts = length payload.cross_chain_amounts in
    ((addresses == 0) || ltb num_outputs addresses)
    || (not (addresses == amounts) || not (amounts == length payload.output_indexes))

-- The first byte of a hash is one of the two prefixes.
abbrev pub has_prefix : ℕ → ℕ → List ℕ → Bool
has_prefix prefix_standard prefix_multisig [] = false
has_prefix prefix_standard prefix_multisig (byte ∷ bytes) =
    (byte == prefix_standard) || (byte == prefix_multisig)

abbrev pub is_empty_string : List ℕ → Bool
is_empty_string [] = true
is_empty_string (char ∷ chars) = false

module _ (uint168_from_address : List ℕ → Option (List ℕ))
    (prefix_standard prefix_multisig : ℕ) where
  -- The loop over the addresses.
  unfoldable pub check_addresses : List (List ℕ) → Check
  check_addresses [] = ok tt
  check_addresses (address ∷ addresses) =
      fail_if (is_empty_string address) invalid_address >> elim (uint168_from_address address) [
        | none ↦ err invalid_address
        | some program_hash ↦
            fail_if (not (has_prefix prefix_standard prefix_multisig program_hash)) invalid_address
            >> check_addresses addresses
      ]

  unfoldable pub check_cross_chain_payload :
      ℤ → Store → Transaction → PayloadTransferCrossChainAsset → Check
  check_cross_chain_payload min_fee store tx payload =
      let num_outputs = length tx.outputs in
      fail_if (content_mismatch payload num_outputs) invalid_content
      >> (check_indexes num_outputs [] payload.output_indexes
          >> (fail_if (not (length payload.cross_chain_addresses == cross_chain_count tx.outputs))
                invalid_counts
              >> (check_addresses payload.cross_chain_addresses
                  >> (check_amounts min_fee tx.outputs payload.output_indexes
                        payload.cross_chain_amounts
                      >> check_fee min_fee store tx))))

  -- `CheckTransferCrossChainAssetTransaction`
  unfoldable pub check_transfer_cross_chain_asset : ℤ → Store → Transaction → Check
  check_transfer_cross_chain_asset min_fee store tx = elim tx.payload [
    | transfer_cross_chain payload ↦ check_cross_chain_payload min_fee store tx payload
    | _ ↦ err invalid_payload_type
  ]
