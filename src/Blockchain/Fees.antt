-- ===== src/Blockchain/Fees.antt =====
-- blockchain/txpool.go: `GetTxFeeMap` and `GetTxFee`; blockchain/txvalidator.go:
-- `CheckTransactionBalance`. A Go map is ranged over in any order; here from its last entry on. The
-- decoding of a main chain transaction, the address of a program hash and the product with the
-- exchange rate, a float, come from libraries and the configuration and are parameters.
pub mod Sums
pub mod Conservation
mod Tests
use elastos_ela_side_chain.Common.{
  ℕ, zero, suc, Bool, true, false, ◌&&◌, Option, none, some, List, [], ◌∷◌, map, get_elem?, drop,
  ◌==◌, if◌then◌else◌,
}
use elastos_ela_side_chain.Common.Int.{ℤ, pos, ltb_ℤ}
use elastos_ela_side_chain.Common.Result.{Result, ok, err, panic, ◌>>=◌, ◌>>◌, fail_if, or_panic}
use elastos_ela_side_chain.Common.Table.{Table, lookup, insert}
use elastos_ela_side_chain.Core.{
  Output, Transaction, Payload, recharge, PayloadTransferCrossChainAsset,
  is_recharge_to_side_chain_tx,
}
use elastos_ela_side_chain.Blockchain.TxReference.{Store, get_tx_reference}
use elastos_ela_side_chain.Blockchain.TxValidator.Fixed64.{add64, sub64}

pub data FeeError : Type 0 where
  not_decoded no_address no_references negative_output fee_not_enough : FeeError

-- The value of a missing key is zero.
abbrev pub value_or_zero : Option ℤ → ℤ
value_or_zero none = pos 0
value_or_zero (some value) = value

-- One round of the loops that sum the values by their assets.
unfoldable pub add_amount : ℕ → ℤ → Table ℤ → Table ℤ
add_amount asset value amounts = elim (lookup asset amounts) [
  | some amount ↦ insert asset (add64 amount value) amounts
  | none ↦ insert asset value amounts
]

unfoldable pub asset_sums : List Output → Table ℤ → Table ℤ
asset_sums [] amounts = amounts
asset_sums (output ∷ outputs) amounts =
    asset_sums outputs (add_amount output.asset_id output.value amounts)

-- The loop over the outputs' map.
unfoldable pub subtract_outputs : Table ℤ → Table ℤ → Table ℤ
subtract_outputs inputs [] = []
subtract_outputs inputs (entry ∷ outputs) =
    let fees = subtract_outputs inputs outputs in
    elim (lookup entry.0 inputs) [
      | some value ↦ insert entry.0 (sub64 value entry.1) fees
      | none ↦ insert entry.0 (sub64 (value_or_zero (lookup entry.0 fees)) entry.1) fees
    ]

-- The loop over the inputs' map.
unfoldable pub keep_inputs : Table ℤ → Table ℤ → Table ℤ
keep_inputs fees [] = fees
keep_inputs fees (entry ∷ inputs) =
    let rest = keep_inputs fees inputs in
    elim (lookup entry.0 rest) [
      | some value ↦ rest
      | none ↦ insert entry.0 (add64 (pos 0) entry.1) rest
    ]

-- A transaction of the main chain as the code reads it: its payload, if that is a transfer to a side
-- chain, and its outputs.
pub record MainTransaction : Type 0 where
  pub payload : Option PayloadTransferCrossChainAsset
  pub outputs : List Output

abbrev pub is_same_address : List ℕ → List ℕ → Bool
is_same_address [] [] = true
is_same_address [] (y ∷ ys) = false
is_same_address (x ∷ xs) [] = false
is_same_address (x ∷ xs) (y ∷ ys) = (x == y) && is_same_address xs ys

abbrev pub has_negative : List Output → Bool
has_negative [] = false
has_negative (output ∷ outputs) = if ltb_ℤ output.value (pos 0) then true else has_negative outputs

abbrev pub has_low_fee : ℤ → Table ℤ → Bool
has_low_fee min_fee [] = false
has_low_fee min_fee (entry ∷ fees) =
    if ltb_ℤ entry.1 min_fee then true else has_low_fee min_fee fees

module _ (converted : ℤ → ℤ) (to_address : List ℕ → Option (List ℕ)) where
  -- The fee of the output's asset once an address of the payload is the output's.
  unfoldable pub add_recharge_fee : ℤ → Output → Table ℤ → Table ℤ
  add_recharge_fee main_amount output fees = elim (lookup output.asset_id fees) [
    | some amount ↦
        insert output.asset_id (sub64 (add64 amount (converted main_amount)) output.value) fees
    | none ↦ insert output.asset_id (sub64 (converted main_amount) output.value) fees
  ]

  -- The inner loop of a recharge, over the addresses of the payload and the indexes beside them.
  unfoldable pub recharge_addresses :
      List Output → Output → List (List ℕ) → List ℕ → Table ℤ → Result FeeError (Table ℤ)
  recharge_addresses main_outputs output [] indexes fees = ok fees
  recharge_addresses main_outputs output (address ∷ addresses) indexes fees =
      elim (to_address output.program_hash) [
        | none ↦ err no_address
        | some target ↦ elim (is_same_address target address) [
          | true ↦ or_panic (get_elem? indexes 0) >>= λ index.
              or_panic (get_elem? main_outputs index) >>= λ main_output.
              recharge_addresses main_outputs output addresses (drop 1 indexes)
                (add_recharge_fee main_output.value output fees)
          | false ↦ recharge_addresses main_outputs output addresses (drop 1 indexes) fees
        ]
      ]

  -- The outer loop of a recharge, over the outputs.
  unfoldable pub recharge_outputs :
      MainTransaction
      → PayloadTransferCrossChainAsset
      → List Output
      → Table ℤ
      → Result FeeError (Table ℤ)
  recharge_outputs main payload [] fees = ok fees
  recharge_outputs main payload (output ∷ outputs) fees =
      recharge_addresses main.outputs output payload.cross_chain_addresses payload.output_indexes
        fees
      >>= λ fees'. recharge_outputs main payload outputs fees'

  -- `GetTxFeeMap`
  unfoldable pub get_tx_fee_map :
      (Transaction → Option MainTransaction) → Store → Transaction → Result FeeError (Table ℤ)
  unfolding asset_sums subtract_outputs keep_inputs
  get_tx_fee_map decode_main store tx =
      if is_recharge_to_side_chain_tx tx
      then elim tx.payload [
        | recharge _ ↦ elim (decode_main tx) [
          | none ↦ err not_decoded
          | some main ↦
              or_panic main.payload >>= λ payload. recharge_outputs main payload tx.outputs []
        ]
        | _ ↦ panic
      ]
      else elim (get_tx_reference store tx) [
        | none ↦ err no_references
        | some references ↦
            let inputs = asset_sums (map (λ reference. reference.1) references) [] in
            ok (keep_inputs (subtract_outputs inputs (asset_sums tx.outputs [])) inputs)
      ]

  -- `GetTxFee`
  unfoldable pub get_tx_fee :
      (Transaction → Option MainTransaction) → Store → Transaction → ℕ → Result FeeError ℤ
  unfolding get_tx_fee_map
  get_tx_fee decode_main store tx asset = elim (get_tx_fee_map decode_main store tx) [
    | ok fees ↦ ok (value_or_zero (lookup asset fees))
    | err e ↦ ok (pos 0)
    | panic ↦ panic
  ]

  -- `CheckTransactionBalance`
  unfoldable pub check_transaction_balance :
      (Transaction → Option MainTransaction) → ℤ → Store → Transaction → Result FeeError (Unit {0})
  check_transaction_balance decode_main min_fee store tx =
      fail_if (has_negative tx.outputs) negative_output
      >> (get_tx_fee_map decode_main store tx >>= λ fees.
          fail_if (has_low_fee min_fee fees) fee_not_enough)
