-- ===== src/Blockchain/BlockValidator.antt =====
-- blockchain/blockvalidator.go: the checks of a block, with `CalcPastMedianTime` of
-- blockchain/blockchain.go. The proof of the auxiliary chain, the size of a block, the root of the
-- hashes, the key of an input and the local time come from libraries and the clock and are
-- parameters. A timestamp in seconds is never more precise than a second, so that check is left out.
pub mod Order
pub mod Sanity
pub mod Context
mod Tests
use elastos_ela_side_chain.Common.{
  ℕ, zero, suc, ◌+◌, ◌/◌, ◌%◌, ◌^◌, Bool, true, false, not, ◌&&◌, Option, none, some, List, [], ◌∷◌,
  map, take, drop, length, get_elem?, ◌==◌, ltb, leb, if◌then◌else◌,
}
use elastos_ela_side_chain.Common.Int.{ℤ, pos, ltb_ℤ, leb_ℤ}
use elastos_ela_side_chain.Common.Result.{Result, ok, err, panic, ◌>>=◌, ◌>>◌, fail_if, or_panic}
use elastos_ela_side_chain.Core.{
  OutPoint, Input, Output, Transaction, Payload, recharge, is_coin_base_tx,
  is_recharge_to_side_chain_tx,
}
use elastos_ela_side_chain.Blockchain.TxReference.{Store}
use elastos_ela_side_chain.Blockchain.Fees.{get_tx_fee}
use elastos_ela_side_chain.Blockchain.TxValidator.Ledger.{Rules, check_transaction_sanity}
use elastos_ela_side_chain.Blockchain.MedianTime.{sort}
use elastos_ela_side_chain.Blockchain.Retarget.{
  ChainParams, BlockNode, calc_next_required_difficulty, check_proof_of_work,
}
use elastos_ela_side_chain.Blockchain.TxValidator.Fixed64.{add64}
use elastos_ela_side_chain.Blockchain.TxValidator.CrossChain.{is_member}
use elastos_ela_side_chain.Blockchain.TxValidator.Recharge.{eqb_ℤ}

-- `Header` and `Block`. `proof_hash` is the hash of the parent block's header in the auxiliary proof.
pub record Header : Type 0 where
  pub bits : ℕ
  pub merkle_root : ℕ
  pub timestamp : ℕ
  pub proof_hash : List ℕ

pub record Block : Type 0 where
  pub header : Header
  pub transactions : List Transaction

-- The errors, one for each message.
pub data BlockError : Type 0 where
  proof_failed work_failed future_timestamp no_transactions many_transactions big_block : BlockError
  no_coinbase second_coinbase wrong_reward duplicate_transaction insane_transaction : BlockError
  duplicate_utxo main_not_decoded duplicate_main no_root wrong_root : BlockError
  difficulty_error wrong_difficulty early_timestamp unfinalized : BlockError

-- The reward of the coinbase.
abbrev pub reward_total : List Output → ℤ → ℤ
reward_total [] sum = sum
reward_total (output ∷ outputs) sum = reward_total outputs (add64 sum output.value)

-- The loop over the transactions behind the first: none is a coinbase, and their fees are summed.
unfoldable pub fee_total :
    (Transaction → Result BlockError ℤ) → List Transaction → ℤ → Result BlockError ℤ
fee_total get_fee [] sum = ok sum
fee_total get_fee (tx ∷ txs) sum =
    fail_if (is_coin_base_tx tx) second_coinbase
    >> (get_fee tx >>= λ fee. fee_total get_fee txs (add64 sum fee))

-- The coinbase stands first, and its reward is the sum of the fees.
unfoldable pub check_reward :
    (Transaction → Result BlockError ℤ) → List Transaction → Result BlockError (Unit {0})
check_reward get_fee [] = ok tt
check_reward get_fee (first ∷ txs) =
    fail_if (not (is_coin_base_tx first)) no_coinbase
    >> (fee_total get_fee txs (pos 0) >>= λ fees.
        fail_if (not (eqb_ℤ (reward_total first.outputs (pos 0)) fees)) wrong_reward)

-- The maps of what was seen in the block.
pub record Seen : Type 0 where
  pub ids : List ℕ
  pub keys : List ℕ
  pub mains : List ℕ

abbrev pub has_failed {ℓ} : {E : Type ℓ} → Result E (Unit {0}) → Bool
has_failed (ok _) = false
has_failed _ = true

module _ (refer_key : OutPoint → ℕ) where
  -- The loop over the inputs of a transaction.
  unfoldable pub check_block_inputs : List ℕ → List Input → Result BlockError (List ℕ)
  check_block_inputs keys [] = ok keys
  check_block_inputs keys (input ∷ inputs) =
      fail_if (is_member (refer_key input.previous) keys) duplicate_utxo
      >> check_block_inputs (refer_key input.previous ∷ keys) inputs

  -- The main chain transaction of a recharge.
  unfoldable pub check_block_main : List ℕ → Transaction → Result BlockError (List ℕ)
  check_block_main mains tx =
      if is_recharge_to_side_chain_tx tx
      then elim tx.payload [
        | recharge none ↦ err main_not_decoded
        | recharge (some hash) ↦ fail_if (is_member hash mains) duplicate_main >> ok (hash ∷ mains)
        | _ ↦ panic
      ]
      else ok mains

  -- The loop over the transactions.
  unfoldable pub check_transactions :
      (Transaction → Bool) → Seen → List Transaction → Result BlockError (Unit {0})
  check_transactions is_sane seen [] = ok tt
  check_transactions is_sane seen (tx ∷ txs) =
      fail_if (is_member tx.hash seen.ids) duplicate_transaction
      >> (fail_if (not (is_sane tx)) insane_transaction
          >> (check_block_inputs seen.keys tx.inputs >>= λ keys.
              check_block_main seen.mains tx >>= λ mains.
              check_transactions is_sane
                (record { ids = tx.hash ∷ seen.ids; keys = keys; mains = mains }) txs))

  -- The root of the hashes is the header's.
  unfoldable pub check_root : (List ℕ → Option ℕ) → Block → Result BlockError (Unit {0})
  check_root compute_root block =
      elim (compute_root (map (λ (tx : Transaction). tx.hash) block.transactions)) [
        | none ↦ err no_root
        | some root ↦ fail_if (not (block.header.merkle_root == root)) wrong_root
      ]

  -- What the sanity check reads besides the block.
  pub record BlockRules : Type 0 where
    pub pow_limit : ℤ
    pub max_tx_in_block : ℕ
    pub adjusted_time : ℕ
    pub aux_pow_check : Block → Bool
    pub get_size : Block → ℕ
    pub tx_rules : Rules
    pub store : Store
    pub compute_root : List ℕ → Option ℕ

  -- `GetTxFee` has no error to return.
  unfoldable pub block_fee : BlockRules → Transaction → Result BlockError ℤ
  block_fee rules tx =
      elim (get_tx_fee rules.tx_rules.converted rules.tx_rules.to_address rules.tx_rules.decode_main
        rules.store tx rules.tx_rules.asset) [ ok fee ↦ ok fee | _ ↦ panic ]

  -- `CheckTransactionSanity` returns a code on every path: none of its checks reads out of range.
  abbrev pub is_sane : BlockRules → Transaction → Bool
  is_sane rules tx = not (has_failed (check_transaction_sanity rules.tx_rules tx))

  -- `PowCheckBlockSanity`
  unfoldable pub pow_check_block_sanity : BlockRules → Block → Result BlockError (Unit {0})
  pow_check_block_sanity rules block =
      let num_tx = length block.transactions in
      fail_if (not (rules.aux_pow_check block)) proof_failed
      >> (fail_if
            (has_failed
              (check_proof_of_work block.header.bits block.header.proof_hash rules.pow_limit))
            work_failed
          >> (fail_if (ltb (rules.adjusted_time + 7200) block.header.timestamp) future_timestamp
              >> (fail_if (num_tx == 0) no_transactions
                  >> (fail_if (ltb rules.max_tx_in_block num_tx) many_transactions
                      >> (fail_if (ltb rules.tx_rules.max_block_size (rules.get_size block))
                            big_block
                          >> (check_reward (block_fee rules) block.transactions
                              >> (check_transactions (is_sane rules)
                                    (record { ids = []; keys = []; mains = [] }) block.transactions
                                  >> check_root rules.compute_root block)))))))

-- `medianTimeBlocks`
abbrev pub median_time_blocks : ℕ
median_time_blocks = 11

-- `CalcPastMedianTime`, on a node and its ancestors.
unfoldable pub calc_past_median_time : List BlockNode → Option ℤ
calc_past_median_time nodes =
    let timestamps =
      map (λ (node : BlockNode). pos node.timestamp) (take median_time_blocks nodes) in
    get_elem? (sort timestamps) (length timestamps / 2)

unfoldable pub are_inputs_final : List Input → Bool
are_inputs_final [] = true
are_inputs_final (input ∷ inputs) =
    if input.sequence == 65535 then are_inputs_final inputs else false

-- `IsFinalizedTransaction`
unfoldable pub is_finalized_transaction : Transaction → ℕ → Bool
unfolding are_inputs_final
is_finalized_transaction tx block_height =
    if tx.lock_time == 0
    then true
    else if ltb tx.lock_time block_height
    then true
    else are_inputs_final tx.inputs

unfoldable pub check_finalized : ℕ → List Transaction → Result BlockError (Unit {0})
check_finalized block_height [] = ok tt
check_finalized block_height (tx ∷ txs) =
    fail_if (not (is_finalized_transaction tx block_height)) unfinalized
    >> check_finalized block_height txs

-- `block.Transactions[1:]`
abbrev pub rest_of {ℓ} : {A : Type ℓ} → List A → Option (List A)
rest_of [] = none
rest_of (x ∷ xs) = some xs

-- `PowCheckBlockContext`, on the nodes from the previous one back; there are none at the genesis
-- block.
unfoldable pub pow_check_block_context :
    ChainParams → Block → List BlockNode → Result BlockError (Unit {0})
pow_check_block_context p block [] = ok tt
pow_check_block_context p block (prev ∷ parents) =
    elim (calc_next_required_difficulty p prev parents) [
      | panic ↦ panic
      | err _ ↦ err difficulty_error
      | ok expected ↦
          fail_if (not (block.header.bits == expected)) wrong_difficulty
          >> (or_panic (calc_past_median_time (prev ∷ parents)) >>= λ median.
              fail_if (leb_ℤ (pos block.header.timestamp) median) early_timestamp
              >> (or_panic (rest_of block.transactions) >>= λ txs.
                  check_finalized ((prev.height + 1) % 2 ^ 32) txs))
    ]
