-- ===== src/Blockchain/TxValidator/Precision.antt =====
-- `CheckAssetPrecision`, `CheckTransactionPayload` and `checkAmountPrecise` of
-- blockchain/txvalidator.go. The assets of the store are given by their precisions.
pub mod Sound
mod Tests
use elastos_ela_side_chain.Common.{
  ℕ, zero, suc, ◌+◌, ◌-◌, ◌%◌, ◌^◌, Bool, true, false, not, Option, none, some, List, [], ◌∷◌, ◌++◌,
  ◌==◌, leb, ltb, if◌then◌else◌,
}
use elastos_ela_side_chain.Common.Int.{ℤ, pos_part, neg_part}
use elastos_ela_side_chain.Common.Result.{Result, ok, err, ◌>>=◌, ◌>>◌, fail_if}
use elastos_ela_side_chain.Common.Table.{Table, lookup, insert}
use elastos_ela_side_chain.Core.{
  Output, Transaction, Payload, register_asset_payload, unknown_payload,
}

pub data PrecisionError : Type 0 where
  unknown_asset incorrect_precision invalid_precision invalid_amount invalid_payload :
      PrecisionError

-- `int64(math.Pow(10, float64(8-precision)))`: the difference is a byte, the power is exact up to
-- 10 ^ 18, and a larger one becomes the least int64 (as on amd64), of which only the size counts.
unfoldable pub precision_unit : ℕ → ℕ
precision_unit precision =
    let exponent = (8 + 256 - precision) % 256 in if leb exponent 18 then 10 ^ exponent else 2 ^ 63

-- `checkAmountPrecise`
unfoldable pub check_amount_precise : ℤ → ℕ → Bool
check_amount_precise amount precision =
    (pos_part amount + neg_part amount) % precision_unit precision == 0

-- The outputs by their assets.
unfoldable pub group_outputs : List Output → Table (List Output) → Table (List Output)
group_outputs [] groups = groups
group_outputs (output ∷ outputs) groups =
    group_outputs outputs (elim (lookup output.asset_id groups) [
      | none ↦ insert output.asset_id (output ∷ []) groups
      | some group ↦ insert output.asset_id (group ++ (output ∷ [])) groups
    ])

unfoldable pub check_group : ℕ → List Output → Result PrecisionError (Unit {0})
check_group precision [] = ok tt
check_group precision (output ∷ outputs) =
    fail_if (not (check_amount_precise output.value precision)) incorrect_precision
    >> check_group precision outputs

unfoldable pub check_groups :
    (ℕ → Option ℕ) → Table (List Output) → Result PrecisionError (Unit {0})
check_groups get_asset [] = ok tt
check_groups get_asset (group ∷ groups) = elim (get_asset group.0) [
  | none ↦ err unknown_asset
  | some precision ↦ check_group precision group.1 >> check_groups get_asset groups
]

-- `CheckAssetPrecision`
unfoldable pub check_asset_precision :
    (ℕ → Option ℕ) → Transaction → Result PrecisionError (Unit {0})
check_asset_precision get_asset tx = check_groups get_asset (group_outputs tx.outputs [])

-- `CheckTransactionPayload`
unfoldable pub check_transaction_payload : Transaction → Result PrecisionError (Unit {0})
check_transaction_payload tx = elim tx.payload [
  | register_asset_payload precision amount ↦
      fail_if (ltb 8 precision) invalid_precision
      >> fail_if (not (check_amount_precise amount precision)) invalid_amount
  | unknown_payload ↦ err invalid_payload
  | _ ↦ ok tt
]
