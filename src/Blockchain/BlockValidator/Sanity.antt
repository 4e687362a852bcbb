-- ===== src/Blockchain/BlockValidator/Sanity.antt =====
-- What a block is that passes `PowCheckBlockSanity` of blockchain/blockvalidator.go.
use elastos_ela_side_chain.Common.{
  ℕ, ◌+◌, ◌≡◌, refl, sym, subst, ◌∙◌, ap, ◌⊎◌, inl, inr, true, false, not, not-false, Option, none,
  some, List, [], ◌∷◌, map, length, get_elem?, ◌==◌, ==_iff, ltb, All, All-get_elem?,
}
use elastos_ela_side_chain.Common.Int.{ℤ, pos, ◌+ℤ◌, +ℤ_assoc}
use elastos_ela_side_chain.Common.Result.{
  Result, ok, err, panic, fail_if, >>=-ok, fail_if-ok, ok-injective,
}
use elastos_ela_side_chain.Core.{OutPoint, Input, Output, Transaction, is_coin_base_tx}
use elastos_ela_side_chain.Blockchain.Retarget.{check_proof_of_work}
use elastos_ela_side_chain.Blockchain.TxValidator.Fixed64.{wrap64}
use elastos_ela_side_chain.Blockchain.TxValidator.Fixed64.Sums.{
  sum_ℤ, values, add64-wrap64, +ℤ_zero, zero_+ℤ,
}
use elastos_ela_side_chain.Blockchain.TxValidator.Recharge.{eqb_ℤ}
use elastos_ela_side_chain.Blockchain.TxValidator.Recharge.Sound.{eqb_ℤ-eq}
use elastos_ela_side_chain.Blockchain.BlockValidator.{
  Block, BlockError, proof_failed, work_failed, future_timestamp, no_transactions,
  many_transactions, big_block, no_coinbase, second_coinbase, no_root, wrong_root, reward_total,
  fee_total, check_reward, Seen, check_transactions, check_root, BlockRules, has_failed, block_fee,
  is_sane, pow_check_block_sanity,
}
use elastos_ela_side_chain.Blockchain.TxValidator.Ledger.{check_transaction_sanity}
use elastos_ela_side_chain.Blockchain.BlockValidator.Order.{
  key_of, check_transactions-sane, check_transactions-spends, check_transactions-distinct,
}

reward_total-wrap64 :
    (outputs : List Output) (sum : ℤ)
    → reward_total outputs (wrap64 sum) ≡ wrap64 (sum +ℤ sum_ℤ (values outputs))
reward_total-wrap64 [] sum = ap wrap64 (sym (+ℤ_zero sum))
reward_total-wrap64 (output ∷ outputs) sum =
    ap (reward_total outputs) (add64-wrap64 sum output.value)
    ∙ reward_total-wrap64 outputs (sum +ℤ output.value)
    ∙ ap wrap64 (+ℤ_assoc sum output.value (sum_ℤ (values outputs)))

-- Behind the coinbase stands no other, each fee is found, and they are summed.
abbrev AreFees : (Transaction → Result BlockError ℤ) → List Transaction → List ℤ → Type 0
AreFees get_fee txs fees =
    All (λ tx. is_coin_base_tx tx ≡ false) txs × (map get_fee txs ≡ map ok fees)

fee_total-AreFees :
    (get_fee : Transaction → Result BlockError ℤ) (txs : List Transaction) (sum : ℤ) {total : ℤ}
    → fee_total get_fee txs (wrap64 sum) ≡ ok total
    → (fees : List ℤ) × AreFees get_fee txs fees × (total ≡ wrap64 (sum +ℤ sum_ℤ fees))
unfolding fee_total
fee_total-AreFees get_fee [] sum e =
    ([], (tt, refl), sym (ok-injective e) ∙ ap wrap64 (sym (+ℤ_zero sum)))
fee_total-AreFees get_fee (tx ∷ txs) sum {total} e =
    let (_, regular, e1) = >>=-ok (fail_if (is_coin_base_tx tx) second_coinbase) _ e in
    let (fee, found, e2) = >>=-ok (get_fee tx) _ e1 in
    let step = subst (λ s. fee_total get_fee txs s ≡ ok total) (add64-wrap64 sum fee) e2 in
    let (fees, are_fees, summed) = fee_total-AreFees get_fee txs (sum +ℤ fee) step in
    (
      fee ∷ fees,
      (
        (fail_if-ok (is_coin_base_tx tx) _ regular, are_fees.0),
        ap (λ r. r ∷ map get_fee txs) found ∙ ap (λ r. ok fee ∷ r) are_fees.1,
      ),
      summed ∙ ap wrap64 (+ℤ_assoc sum fee (sum_ℤ fees)),
    )

-- The coinbase stands first and is the only one; each of the others has a fee, and the values of the
-- coinbase's outputs have the sum of the fees, as int64.
abbrev pub IsRewarded : (Transaction → Result BlockError ℤ) → List Transaction → Type 0
IsRewarded get_fee txs =
    (first : Transaction) × (rest : List Transaction) × (txs ≡ first ∷ rest)
    × (is_coin_base_tx first ≡ true)
    × (fees : List ℤ) × All (λ tx. is_coin_base_tx tx ≡ false) rest
    × (map get_fee rest ≡ map ok fees)
    × (wrap64 (sum_ℤ (values first.outputs)) ≡ wrap64 (sum_ℤ fees))

check_reward-IsRewarded :
    (get_fee : Transaction → Result BlockError ℤ) (txs : List Transaction)
    → (length txs == 0) ≡ false
    → check_reward get_fee txs ≡ ok tt
    → IsRewarded get_fee txs
unfolding check_reward
check_reward-IsRewarded get_fee [] some_txs e = cc
check_reward-IsRewarded get_fee (first ∷ txs) some_txs e =
    let (_, coinbase, e1) = >>=-ok (fail_if (not (is_coin_base_tx first)) no_coinbase) _ e in
    let (total, found, e2) = >>=-ok (fee_total get_fee txs (pos 0)) _ e1 in
    let reward = reward_total first.outputs (pos 0) in
    let equal : reward ≡ total =
      eqb_ℤ-eq reward total
        (not-false (eqb_ℤ reward total) (fail_if-ok (not (eqb_ℤ reward total)) _ e2)) in
    let (fees, are_fees, summed) = fee_total-AreFees get_fee txs (pos 0) found in
    (
      first,
      txs,
      refl,
      not-false (is_coin_base_tx first) (fail_if-ok (not (is_coin_base_tx first)) _ coinbase),
      fees,
      are_fees.0,
      are_fees.1,
      ap wrap64 (sym (zero_+ℤ _))
          ∙ sym (reward_total-wrap64 first.outputs (pos 0))
          ∙ equal
          ∙ summed
          ∙ ap wrap64 (zero_+ℤ _),
    )

has_failed-ok {ℓ} : {E : Type ℓ} (r : Result E (Unit {0})) → not (has_failed r) ≡ true → r ≡ ok tt
has_failed-ok (ok _) h = refl
has_failed-ok (err e) h = cc
has_failed-ok panic h = cc

module _ (refer_key : OutPoint → ℕ) (rules : BlockRules refer_key) (block : Block) where
  abbrev none_seen : Seen
  none_seen = record { ids = []; keys = []; mains = [] }

  -- The parts of a sanity check that passes.
  record Sane : Type 0 where
    some_txs : (length block.transactions == 0) ≡ false
    rewarded : check_reward (block_fee refer_key rules) block.transactions ≡ ok tt
    checked :
        check_transactions refer_key (is_sane refer_key rules) none_seen block.transactions ≡ ok tt
    rooted : check_root refer_key rules.compute_root block ≡ ok tt

  pow_check_block_sanity-Sane : pow_check_block_sanity refer_key rules block ≡ ok tt → Sane
  unfolding pow_check_block_sanity
  pow_check_block_sanity-Sane e =
      let num_tx = length block.transactions in
      let (_, _, e1) = >>=-ok (fail_if (not (rules.aux_pow_check block)) proof_failed) _ e in
      let (_, _, e2) =
        >>=-ok
          (fail_if
            (has_failed
              (check_proof_of_work block.header.bits block.header.proof_hash rules.pow_limit))
            work_failed)
          _ e1 in
      let (_, _, e3) =
        >>=-ok (fail_if (ltb (rules.adjusted_time + 7200) block.header.timestamp) future_timestamp)
          _ e2 in
      let (_, some_txs, e4) = >>=-ok (fail_if (num_tx == 0) no_transactions) _ e3 in
      let (_, _, e5) = >>=-ok (fail_if (ltb rules.max_tx_in_block num_tx) many_transactions) _ e4 in
      let (_, _, e6) =
        >>=-ok (fail_if (ltb rules.tx_rules.max_block_size (rules.get_size block)) big_block) _
          e5 in
      let (_, rewarded, e7) =
        >>=-ok (check_reward (block_fee refer_key rules) block.transactions) _ e6 in
      let (_, checked, rooted) =
        >>=-ok (check_transactions refer_key (is_sane refer_key rules) none_seen block.transactions)
          _ e7 in
      record {
        some_txs = fail_if-ok (num_tx == 0) _ some_txs;
        rewarded = rewarded;
        checked = checked;
        rooted = rooted;
      }

  -- A block that passes `PowCheckBlockSanity` starts with a coinbase and has no other, each of the other
  -- transactions has a fee, and the sum of the values of the coinbase's outputs is the sum of these
  -- fees: as integers whose sums are taken to an int64, so modulo 2 ^ 64.
  pub pow_check_block_sanity-IsRewarded :
      pow_check_block_sanity refer_key rules block ≡ ok tt
      → IsRewarded (block_fee refer_key rules) block.transactions
  pow_check_block_sanity-IsRewarded e =
      let sane = pow_check_block_sanity-Sane e in
      check_reward-IsRewarded (block_fee refer_key rules) block.transactions sane.some_txs
        sane.rewarded

  -- In a block that passes `PowCheckBlockSanity`, two inputs of transactions of the block with one key
  -- are in one transaction, and two transactions with one hash, each with inputs, are one.
  pub pow_check_block_sanity-distinct :
      (i j k l : ℕ) (a b : Transaction) (input_a input_b : Input)
      → pow_check_block_sanity refer_key rules block ≡ ok tt
      → get_elem? block.transactions i ≡ some a
      → get_elem? block.transactions j ≡ some b
      → get_elem? a.inputs k ≡ some input_a
      → get_elem? b.inputs l ≡ some input_b
      → (a.hash ≡ b.hash) ⊎ (key_of refer_key input_a ≡ key_of refer_key input_b)
      → i ≡ j
  pow_check_block_sanity-distinct i j k l a b input_a input_b e at_a at_b in_a in_b (inl same) =
      check_transactions-distinct refer_key (is_sane refer_key rules) block.transactions none_seen i
        j (pow_check_block_sanity-Sane e).checked at_a at_b same
  pow_check_block_sanity-distinct i j k l a b input_a input_b e at_a at_b in_a in_b (inr same) =
      check_transactions-spends refer_key (is_sane refer_key rules) block.transactions none_seen i j
        k l (pow_check_block_sanity-Sane e).checked at_a at_b in_a in_b same

  -- In a block that passes `PowCheckBlockSanity`, each transaction passes `CheckTransactionSanity`, and
  -- the header's root is the one of the transactions' hashes.
  pub pow_check_block_sanity-root :
      (i : ℕ) (tx : Transaction)
      → pow_check_block_sanity refer_key rules block ≡ ok tt
      → get_elem? block.transactions i ≡ some tx
      → (check_transaction_sanity rules.tx_rules tx ≡ ok tt)
        × (rules.compute_root (map (λ (t : Transaction). t.hash) block.transactions)
            ≡ some block.header.merkle_root)
  unfolding check_root
  pow_check_block_sanity-root i tx e at =
      let sane = pow_check_block_sanity-Sane e in
      (
        has_failed-ok (check_transaction_sanity rules.tx_rules tx) (
            All-get_elem? (λ t. is_sane refer_key rules t ≡ true) block.transactions i
              (check_transactions-sane refer_key (is_sane refer_key rules) block.transactions
                none_seen sane.checked)
              at),
        go (rules.compute_root (map (λ (t : Transaction). t.hash) block.transactions)) sane.rooted,
      )
    where
      go :
          (found : Option ℕ)
          → (elim found [
            | none ↦ err no_root
            | some root ↦ fail_if (not (block.header.merkle_root == root)) wrong_root
          ])
            ≡ ok tt
          → found ≡ some block.header.merkle_root
      go none h = cc
      go (some root) h =
          let same =
            not-false (block.header.merkle_root == root)
              (fail_if-ok (not (block.header.merkle_root == root)) _ h) in
          ap some (sym ((==_iff block.header.merkle_root root).0 same))
