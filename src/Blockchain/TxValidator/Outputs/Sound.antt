-- ===== src/Blockchain/TxValidator/Outputs/Sound.antt =====
-- What the outputs are of a transaction that passes `CheckTransactionOutput`.
use elastos_ela_side_chain.Common.{
  ℕ, Bool, Bool-cases, inl, inr, ap, subst, if◌then◌else◌, ◌≤◌, ◌≡◌, refl, sym, ◌∙◌, true, false,
  not, some, List, [], ◌∷◌, length, get_elem?, ◌==◌, ==_iff, ltb, not-false, not_ltb, All,
  All-get_elem?,
}
use elastos_ela_side_chain.Common.Int.{ℤ, pos, ◌+ℤ◌, +ℤ_assoc, ltb_ℤ, ◌≤ℤ◌, not_less}
use elastos_ela_side_chain.Common.Result.{
  ok, ◌>>=◌, ◌>>◌, fail_if, >>=-ok, fail_if-ok, ok-injective,
}
use elastos_ela_side_chain.Core.{Output, Transaction, is_coin_base_tx, is_recharge_to_side_chain_tx}
use elastos_ela_side_chain.Blockchain.Fees.{is_same_address}
use elastos_ela_side_chain.Blockchain.TxValidator.Fixed64.{add64, wrap64}
use elastos_ela_side_chain.Blockchain.TxValidator.Fixed64.Sums.{
  sum_ℤ, values, add64-wrap64, +ℤ_zero, zero_+ℤ,
}
use elastos_ela_side_chain.Blockchain.TxValidator.Outputs.{
  few_coinbase_outputs, invalid_coinbase_asset, low_foundation_reward, no_outputs, invalid_asset,
  invalid_output_address, Prefixes, check_output_program_hash, Rewards, coinbase_rewards,
  check_outputs, check_transaction_output,
}

-- The output is of the chain's asset and goes to an address of a known kind.
abbrev pub IsPayable : Prefixes → ℕ → Output → Type 0
IsPayable p asset output =
    (output.asset_id ≡ asset) × (check_output_program_hash p output.program_hash ≡ true)

check_outputs-IsPayable :
    (p : Prefixes) (asset : ℕ) (outputs : List Output)
    → check_outputs p asset outputs ≡ ok tt
    → All (IsPayable p asset) outputs
unfolding check_outputs
check_outputs-IsPayable p asset [] e = tt
check_outputs-IsPayable p asset (output ∷ outputs) e =
    let (_, same, e1) = >>=-ok (fail_if (not (output.asset_id == asset)) invalid_asset) _ e in
    let (_, known, rest) =
      >>=-ok
        (fail_if (not (check_output_program_hash p output.program_hash)) invalid_output_address) _
        e1 in
    (
      (
        (==_iff _ _).0 (
            not-false (output.asset_id == asset)
              (fail_if-ok (not (output.asset_id == asset)) _ same)),
        not-false (check_output_program_hash p output.program_hash)
            (fail_if-ok (not (check_output_program_hash p output.program_hash)) _ known),
      ),
      check_outputs-IsPayable p asset outputs rest,
    )

-- The values of the outputs that go to an address.
abbrev pub paid_to : List ℕ → List Output → List ℤ
paid_to address [] = []
paid_to address (output ∷ outputs) =
    if is_same_address output.program_hash address
    then output.value ∷ paid_to address outputs
    else paid_to address outputs

-- A step of the foundation's sum.
add-paid_to :
    (address : List ℕ) (output : Output) (outputs : List Output) (sum : ℤ)
    → wrap64 (
        (if is_same_address output.program_hash address then sum +ℤ output.value else sum)
        +ℤ sum_ℤ (paid_to address outputs))
      ≡ wrap64 (sum +ℤ sum_ℤ (paid_to address (output ∷ outputs)))
add-paid_to address output outputs sum =
    elim (Bool-cases (is_same_address output.program_hash address)) [
      | inl e ↦ rw e (ap wrap64 (+ℤ_assoc sum output.value (sum_ℤ (paid_to address outputs))))
      | inr e ↦ rw e refl
    ]

-- The loop ends with the two sums, and each output is of the asset.
coinbase_rewards-sums :
    (asset : ℕ) (foundation : List ℕ) (outputs : List Output) (all part : ℤ) {paid : Rewards}
    → coinbase_rewards asset foundation outputs
        (record { total_reward = wrap64 all; foundation_reward = wrap64 part })
      ≡ ok paid
    → All (λ (output : Output). output.asset_id ≡ asset) outputs
      × (paid.total_reward ≡ wrap64 (all +ℤ sum_ℤ (values outputs)))
      × (paid.foundation_reward ≡ wrap64 (part +ℤ sum_ℤ (paid_to foundation outputs)))
unfolding coinbase_rewards
coinbase_rewards-sums asset foundation [] all part e = (
  tt,
  ap (λ (r : Rewards). r.total_reward) (sym (ok-injective e)) ∙ ap wrap64 (sym (+ℤ_zero all)),
  ap (λ (r : Rewards). r.foundation_reward) (sym (ok-injective e)) ∙ ap wrap64 (sym (+ℤ_zero part)),
)
coinbase_rewards-sums asset foundation (output ∷ outputs) all part {paid} e =
    let (_, same, rest) =
      >>=-ok (fail_if (not (output.asset_id == asset)) invalid_coinbase_asset) _ e in
    let is_asset =
      (==_iff _ _).0 (
        not-false (output.asset_id == asset)
          (fail_if-ok (not (output.asset_id == asset)) _ same)) in
    let next =
      if is_same_address output.program_hash foundation then part +ℤ output.value else part in
    let (assets, total, part_lem) =
      coinbase_rewards-sums asset foundation outputs (all +ℤ output.value) next (
        ap (coinbase_rewards asset foundation outputs)
          (round (is_same_address output.program_hash foundation))
        ∙ rest) in
    (
      (is_asset, assets),
      total ∙ ap wrap64 (+ℤ_assoc all output.value (sum_ℤ (values outputs))),
      part_lem ∙ add-paid_to foundation output outputs part,
    )
  where
    round :
        (t : Bool)
        → ◌≡◌ {A = Rewards}
            (record {
              total_reward = wrap64 (all +ℤ output.value);
              foundation_reward = wrap64 (if t then part +ℤ output.value else part);
            })
            (record {
              total_reward = add64 (wrap64 all) output.value;
              foundation_reward = if t then add64 (wrap64 part) output.value else wrap64 part;
            })
    round true = rw (add64-wrap64 all output.value, add64-wrap64 part output.value) refl
    round false = rw (add64-wrap64 all output.value) refl

module _ (p : Prefixes) (asset : ℕ) (foundation : List ℕ) (three_tenths : ℤ → ℤ)
    (tx : Transaction) where
  check_transaction_output-regular :
      is_coin_base_tx tx ≡ false
      → is_recharge_to_side_chain_tx tx ≡ false
      → check_transaction_output p asset foundation three_tenths tx
        ≡ (fail_if (ltb (length tx.outputs) 1) no_outputs >> check_outputs p asset tx.outputs)
  unfolding check_transaction_output
  check_transaction_output-regular regular no_recharge = rw (regular, no_recharge) refl

  check_transaction_output-reward :
      is_coin_base_tx tx ≡ true
      → check_transaction_output p asset foundation three_tenths tx ≡ (
          fail_if (ltb (length tx.outputs) 2) few_coinbase_outputs
          >> (coinbase_rewards asset foundation tx.outputs
                (record { total_reward = pos 0; foundation_reward = pos 0 })
              >>= λ rewards.
                  fail_if
                    (ltb_ℤ rewards.foundation_reward (three_tenths rewards.total_reward))
                    low_foundation_reward))
  unfolding check_transaction_output
  check_transaction_output-reward coinbase = rw coinbase refl

  -- Each output of a transaction that is no coinbase and no recharge and that passes
  -- `CheckTransactionOutput` is of the chain's asset and goes to an address of a known kind.
  pub check_transaction_output-IsPayable :
      (i : ℕ) (output : Output)
      → is_coin_base_tx tx ≡ false
      → is_recharge_to_side_chain_tx tx ≡ false
      → check_transaction_output p asset foundation three_tenths tx ≡ ok tt
      → get_elem? tx.outputs i ≡ some output
      → IsPayable p asset output
  check_transaction_output-IsPayable i output regular no_recharge e at =
      let (_, _, checked) =
        >>=-ok (fail_if (ltb (length tx.outputs) 1) no_outputs) _
          (sym (check_transaction_output-regular regular no_recharge) ∙ e) in
      All-get_elem? (IsPayable p asset) tx.outputs i
        (check_outputs-IsPayable p asset tx.outputs checked) at

  -- A coinbase that passes `CheckTransactionOutput` has at least two outputs, all of the chain's asset,
  -- and the int64 sum of the values of those that go to the foundation is at least what the product
  -- with 0.3, cut off to an int64, makes of the int64 sum of all values.
  pub check_transaction_output-coinbase :
      is_coin_base_tx tx ≡ true
      → check_transaction_output p asset foundation three_tenths tx ≡ ok tt
      → (2 ≤ length tx.outputs)
        × All (λ (output : Output). output.asset_id ≡ asset) tx.outputs
        × (three_tenths (wrap64 (sum_ℤ (values tx.outputs)))
            ≤ℤ wrap64 (sum_ℤ (paid_to foundation tx.outputs)))
  check_transaction_output-coinbase coinbase e =
      let (_, two, e1) =
        >>=-ok (fail_if (ltb (length tx.outputs) 2) few_coinbase_outputs) _
          (sym (check_transaction_output-reward coinbase) ∙ e) in
      let (rewards, paid, e2) =
        >>=-ok
          (coinbase_rewards asset foundation tx.outputs
            (record { total_reward = pos 0; foundation_reward = pos 0 }))
          _ e1 in
      let enough =
        fail_if-ok (ltb_ℤ rewards.foundation_reward (three_tenths rewards.total_reward)) _ e2 in
      let (assets, total, part) =
        coinbase_rewards-sums asset foundation tx.outputs (pos 0) (pos 0) paid in
      (
        not_ltb (length tx.outputs) 2 (fail_if-ok (ltb (length tx.outputs) 2) _ two),
        assets,
        subst (λ a. three_tenths a ≤ℤ wrap64 (sum_ℤ (paid_to foundation tx.outputs)))
            (total ∙ ap wrap64 (zero_+ℤ _))
            (subst (λ b. three_tenths rewards.total_reward ≤ℤ b) (part ∙ ap wrap64 (zero_+ℤ _))
              (not_less (three_tenths rewards.total_reward) rewards.foundation_reward enough)),
      )
