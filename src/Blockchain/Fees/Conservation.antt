-- ===== src/Blockchain/Fees/Conservation.antt =====
-- blockchain/txvalidator.go: what `CheckTransactionBalance` guarantees, and where it does not.
use mathlib.Core.Option.{some-injective}
use elastos_ela_side_chain.Common.{
  ℕ, ◌+◌, ◌-◌, ◌^◌, ◌≤◌, ◌<◌, ◌≡◌, refl, sym, ◌∙◌, ap, Bool, true, false, Option, none, some, List,
  [], ◌∷◌, map, ◌==◌, ==_iff, ==_false, if◌then◌else◌, arith,
}
use elastos_ela_side_chain.Common.Int.{ℤ, pos, negsuc, ltb_ℤ, ◌-ℤ◌, ◌+ℤ◌}
use elastos_ela_side_chain.Common.Result.{ok, fail_if, >>=-ok, fail_if-ok, ok-injective}
use elastos_ela_side_chain.Common.Table.{
  Table, lookup, insert, erase, lookup-insert, lookup-empty, IsDistinct,
}
use elastos_ela_side_chain.Core.{Input, Output, Transaction, is_recharge_to_side_chain_tx}
use elastos_ela_side_chain.Blockchain.TxReference.{Store, get_tx_reference}
use elastos_ela_side_chain.Blockchain.TxValidator.Fixed64.{add64, sub64}
use elastos_ela_side_chain.Blockchain.Fees.{
  negative_output, fee_not_enough, value_or_zero, add_amount, asset_sums, subtract_outputs,
  keep_inputs, MainTransaction, get_tx_fee_map, has_negative, has_low_fee,
  check_transaction_balance,
}
use elastos_ela_side_chain.Blockchain.Fees.Sums.{
  total, has_asset, IsNonnegative, asset_sums-none, asset_sums-IsDistinct, has_asset-total,
}

-- The fee of an asset: what the inputs have of it less what the outputs do.
abbrev fee_of : Table ℤ → ℕ → Option ℤ → Option ℤ
fee_of inputs a none = none
fee_of inputs a (some amount) = some (sub64 (value_or_zero (lookup a inputs)) amount)

-- One round: the key has no fee yet.
subtract_round :
    (inputs fees : Table ℤ) (k : ℕ) (amount : ℤ) (a : ℕ)
    → lookup k fees ≡ none
    → lookup a (elim (lookup k inputs) [
      | some value ↦ insert k (sub64 value amount) fees
      | none ↦ insert k (sub64 (value_or_zero (lookup k fees)) amount) fees
    ])
      ≡ (if k == a then some (sub64 (value_or_zero (lookup k inputs)) amount) else lookup a fees)
subtract_round inputs fees k amount a missing = go (lookup k inputs)
  where
    go :
        (found : Option ℤ)
        → lookup a (elim found [
          | some value ↦ insert k (sub64 value amount) fees
          | none ↦ insert k (sub64 (value_or_zero (lookup k fees)) amount) fees
        ])
          ≡ (if k == a then some (sub64 (value_or_zero found) amount) else lookup a fees)
    go (some value) = lookup-insert k a (sub64 value amount) fees
    go none =
        lookup-insert k a (sub64 (value_or_zero (lookup k fees)) amount) fees
        ∙ ap
            (λ (v : Option ℤ).
              if k == a then some (sub64 (value_or_zero v) amount) else lookup a fees)
            missing

lookup-subtract_outputs :
    (inputs outputs : Table ℤ) (a : ℕ)
    → IsDistinct outputs
    → lookup a (subtract_outputs inputs outputs) ≡ fee_of inputs a (lookup a outputs)
unfolding subtract_outputs lookup
lookup-subtract_outputs inputs [] a d = lookup-empty a ∙ ap (fee_of inputs a) (sym (lookup-empty a))
lookup-subtract_outputs inputs (entry ∷ outputs) a d =
    subtract_round inputs (subtract_outputs inputs outputs) entry.0 entry.1 a
      (lookup-subtract_outputs inputs outputs entry.0 d.1 ∙ ap (fee_of inputs entry.0) d.0)
    ∙ merge (entry.0 == a) refl (lookup-subtract_outputs inputs outputs a d.1)
  where
    merge :
        (t : Bool)
        → (entry.0 == a) ≡ t
        → lookup a (subtract_outputs inputs outputs) ≡ fee_of inputs a (lookup a outputs)
        → (if t
            then some (sub64 (value_or_zero (lookup entry.0 inputs)) entry.1)
            else lookup a (subtract_outputs inputs outputs))
          ≡ fee_of inputs a (if t then some entry.1 else lookup a outputs)
    merge true e ih =
        ap (λ k. some (sub64 (value_or_zero (lookup k inputs)) entry.1)) ((==_iff _ _).0 e)
    merge false e ih = ih

-- What has a fee keeps it.
lookup-keep_inputs :
    (fees inputs : Table ℤ) (a : ℕ) {f : ℤ}
    → lookup a fees ≡ some f
    → lookup a (keep_inputs fees inputs) ≡ some f
unfolding keep_inputs
lookup-keep_inputs fees [] a e = e
lookup-keep_inputs fees (entry ∷ inputs) a {f} e =
    go (lookup entry.0 (keep_inputs fees inputs)) refl (lookup-keep_inputs fees inputs a e)
  where
    go :
        (found : Option ℤ)
        → lookup entry.0 (keep_inputs fees inputs) ≡ found
        → lookup a (keep_inputs fees inputs) ≡ some f
        → lookup a (elim found [
          | some value ↦ keep_inputs fees inputs
          | none ↦ insert entry.0 (add64 (pos 0) entry.1) (keep_inputs fees inputs)
        ])
          ≡ some f
    go (some value) read ih = ih
    go none read ih =
        let other : (entry.0 == a) ≡ false = ==_false (λ (same : entry.0 ≡ a).
          cc (sym read ∙ ap (λ k. lookup k (keep_inputs fees inputs)) same ∙ ih)) in
        lookup-insert entry.0 a (add64 (pos 0) entry.1) (keep_inputs fees inputs) ∙ rw other ih

has_low_fee-lookup :
    (min_fee : ℤ) (fees : Table ℤ) (a : ℕ) {f : ℤ}
    → has_low_fee min_fee fees ≡ false
    → lookup a fees ≡ some f
    → ltb_ℤ f min_fee ≡ false
unfolding lookup
has_low_fee-lookup min_fee [] a high found = cc
has_low_fee-lookup min_fee (entry ∷ fees) a {f} high found =
    go (λ h g. has_low_fee-lookup min_fee fees a h g) (entry.0 == a) (ltb_ℤ entry.1 min_fee) refl
      high found
  where
    go :
        (has_low_fee min_fee fees ≡ false → lookup a fees ≡ some f → ltb_ℤ f min_fee ≡ false)
        → (t low : Bool) → ltb_ℤ entry.1 min_fee ≡ low
        → (if low then true else has_low_fee min_fee fees) ≡ false
        → (if t then some entry.1 else lookup a fees) ≡ some f
        → ltb_ℤ f min_fee ≡ false
    go ih t true e h g = cc
    go ih true false e h g = ap (λ v. ltb_ℤ v min_fee) (sym (some-injective _ _ g)) ∙ e
    go ih false false e h g = ih h g

has_negative-IsNonnegative :
    (outputs : List Output) → has_negative outputs ≡ false → IsNonnegative outputs
has_negative-IsNonnegative [] h = tt
has_negative-IsNonnegative (output ∷ outputs) h =
    go (ltb_ℤ output.value (pos 0)) refl h (has_negative-IsNonnegative outputs)
  where
    go :
        (low : Bool)
        → ltb_ℤ output.value (pos 0) ≡ low
        → (if low then true else has_negative outputs) ≡ false
        → (has_negative outputs ≡ false → IsNonnegative outputs)
        → IsNonnegative (output ∷ outputs)
    go true e h rest = cc
    go false e h rest = (ground arith, rest h)

-- What the table of the sums says of an asset.
value_or_zero-asset_sums :
    (a : ℕ) (outputs : List Output)
    → IsNonnegative outputs
    → total a outputs < 2 ^ 63
    → value_or_zero (lookup a (asset_sums outputs [])) ≡ pos (total a outputs)
value_or_zero-asset_sums a outputs positive fits =
    ap value_or_zero (asset_sums-none a outputs [] positive (lookup-empty a) fits)
    ∙ go (has_asset a outputs) (has_asset-total a outputs)
  where
    go :
        (t : Bool)
        → (t ≡ false → total a outputs ≡ 0)
        → value_or_zero (if t then some (pos (total a outputs)) else none) ≡ pos (total a outputs)
    go true h = refl
    go false h = ap pos (sym (h refl))

sub64-enough :
    (a b m : ℕ)
    → a < 2 ^ 63
    → b < 2 ^ 63
    → ltb_ℤ (sub64 (pos a) (pos b)) (pos m) ≡ false
    → b + m ≤ a
unfolding ◌-ℤ◌
sub64-enough a b m ha hb h = ground arith

module _ (converted : ℤ → ℤ) (to_address : List ℕ → Option (List ℕ))
    (decode_main : Transaction → Option MainTransaction) (min_fee : ℕ) (store : Store)
    (tx : Transaction) (references : List (Input × Output))
    (regular : is_recharge_to_side_chain_tx tx ≡ false)
    (found : get_tx_reference store tx ≡ some references) where
  abbrev pub spent : List Output
  spent = map (λ reference. reference.1) references

  pub get_tx_fee_map-regular :
      get_tx_fee_map converted to_address decode_main store tx
      ≡ ok (
          keep_inputs
            (subtract_outputs (asset_sums spent []) (asset_sums tx.outputs []))
            (asset_sums spent []))
  unfolding get_tx_fee_map
  get_tx_fee_map-regular = rw (regular, found) refl

  -- The fee of an asset among the outputs is the int64 difference of what the inputs hold of it and
  -- what the outputs do, where all values are at least zero and both sums are below 2 ^ 63.
  lookup-get_tx_fee_map :
      (a : ℕ)
      → IsNonnegative spent
      → IsNonnegative tx.outputs
      → total a spent < 2 ^ 63
      → total a tx.outputs < 2 ^ 63
      → has_asset a tx.outputs ≡ true
      → lookup a (
          keep_inputs
            (subtract_outputs (asset_sums spent []) (asset_sums tx.outputs []))
            (asset_sums spent []))
        ≡ some (sub64 (pos (total a spent)) (pos (total a tx.outputs)))
  lookup-get_tx_fee_map a positive_in positive_out fits_in fits_out present =
      let out : lookup a (asset_sums tx.outputs []) ≡ some (pos (total a tx.outputs)) =
        asset_sums-none a tx.outputs [] positive_out (lookup-empty a) fits_out ∙ rw present refl in
      lookup-keep_inputs _ (asset_sums spent []) a (
        lookup-subtract_outputs (asset_sums spent []) (asset_sums tx.outputs []) a
          (asset_sums-IsDistinct tx.outputs [] tt)
        ∙ ap (fee_of (asset_sums spent []) a) out
        ∙ ap (λ v. some (sub64 v (pos (total a tx.outputs))))
            (value_or_zero-asset_sums a spent positive_in fits_in))

  -- A transaction (no recharge, with references that are found) that passes `CheckTransactionBalance`
  -- makes no value: of each asset among its outputs, these hold with the least fee no more than the
  -- outputs that it spends, if those have no negative values and neither sum reaches 2 ^ 63.
  pub check_transaction_balance-conserves :
      (a : ℕ)
      → IsNonnegative spent
      → total a spent < 2 ^ 63
      → total a tx.outputs < 2 ^ 63
      → has_asset a tx.outputs ≡ true
      → check_transaction_balance converted to_address decode_main (pos min_fee) store tx ≡ ok tt
      → total a tx.outputs + min_fee ≤ total a spent
  unfolding check_transaction_balance
  check_transaction_balance-conserves a positive fits_in fits_out present e =
      let (_, no_negative, e1) = >>=-ok (fail_if (has_negative tx.outputs) negative_output) _ e in
      let (fees, read, enough) =
        >>=-ok (get_tx_fee_map converted to_address decode_main store tx) _ e1 in
      let same : fees ≡ _ = ok-injective (sym read ∙ get_tx_fee_map-regular) in
      let positive_out =
        has_negative-IsNonnegative tx.outputs
          (fail_if-ok (has_negative tx.outputs) _ no_negative) in
      sub64-enough (total a spent) (total a tx.outputs) min_fee fits_in fits_out (
        has_low_fee-lookup (pos min_fee) fees a
          (fail_if-ok (has_low_fee (pos min_fee) fees) _ enough)
          (ap (lookup a) same
            ∙ lookup-get_tx_fee_map a positive positive_out fits_in fits_out present))

abbrev pub coin : ℕ → ℕ → List ℕ → Output
coin asset value program_hash = record {
  asset_id = asset;
  value = pos value;
  output_lock = 0;
  program_hash = program_hash;
}

-- The tables of two outputs of 2 ^ 63 - 1 and of one input.
two_coins-asset_sums :
    (asset : ℕ) (to_first to_second : List ℕ)
    → asset_sums (coin asset (2 ^ 63 - 1) to_first ∷ coin asset (2 ^ 63 - 1) to_second ∷ []) []
      ≡ (asset, negsuc 1) ∷ []
unfolding asset_sums add_amount lookup insert erase ◌+ℤ◌
two_coins-asset_sums asset to_first to_second = ground (arith, ==_iff asset asset)

one_coin-asset_sums :
    (asset value : ℕ) (from : List ℕ)
    → asset_sums (coin asset value from ∷ []) [] ≡ (asset, pos value) ∷ []
unfolding asset_sums add_amount lookup insert erase
one_coin-asset_sums asset value from = refl

overflow_fees :
    (asset value : ℕ)
    → value < 2 ^ 62
    → keep_inputs
        (subtract_outputs ((asset, pos value) ∷ []) ((asset, negsuc 1) ∷ []))
        ((asset, pos value) ∷ [])
      ≡ (asset, pos (value + 2)) ∷ []
unfolding subtract_outputs keep_inputs lookup insert erase ◌-ℤ◌
overflow_fees asset value small = ground (arith, ==_iff asset asset)

enough_fee :
    (asset value min_fee : ℕ)
    → min_fee ≤ value
    → has_low_fee (pos min_fee) ((asset, pos value) ∷ []) ≡ false
enough_fee asset value min_fee h = ground arith

-- Two outputs of 2 ^ 63 - 1 each pass for one input of any value below 2 ^ 62, if the least fee is at
-- most that value and 2: the sum of the outputs wraps around to -2.
pub check_transaction_balance-overflow :
    (converted : ℤ → ℤ) (to_address : List ℕ → Option (List ℕ))
    (decode_main : Transaction → Option MainTransaction) (min_fee : ℕ) (store : Store)
    (tx : Transaction) (input : Input) (asset value : ℕ) (from to_first to_second : List ℕ)
    → is_recharge_to_side_chain_tx tx ≡ false
    → get_tx_reference store tx ≡ some ((input, coin asset value from) ∷ [])
    → tx.outputs ≡ coin asset (2 ^ 63 - 1) to_first ∷ coin asset (2 ^ 63 - 1) to_second ∷ []
    → value < 2 ^ 62
    → min_fee ≤ value + 2
    → check_transaction_balance converted to_address decode_main (pos min_fee) store tx ≡ ok tt
unfolding check_transaction_balance
check_transaction_balance-overflow converted to_address decode_main min_fee store tx input asset
      value from to_first to_second regular found outputs small fee =
    rw (get_tx_fee_map-regular converted to_address decode_main min_fee store tx _ regular found) (
      rw
        (
          outputs,
          one_coin-asset_sums asset value from,
          two_coins-asset_sums asset to_first to_second,
          overflow_fees asset value small,
        )
        (ap (λ low. fail_if low fee_not_enough) (enough_fee asset (value + 2) min_fee fee)))
