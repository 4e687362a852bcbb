-- ===== src/Blockchain/BlockValidator/Context.antt =====
-- What a block is that passes `PowCheckBlockContext` of blockchain/blockvalidator.go, and when a
-- transaction is final.
use elastos_ela_side_chain.Common.{
  ℕ, ◌↔◌, ◌⊎◌, inl, inr, refl, Bool-cases, ◌+◌, ◌%◌, ◌^◌, ◌<◌, ◌≡◌, sym, ◌∙◌, ap, subst, true,
  false, not, not-false, some, List, [], ◌∷◌, map, take, ◌==◌, ==_iff, ltb, arith, All,
}
use mathlib.Core.Option.{some-injective}
use elastos_ela_side_chain.Common.Int.{ℤ, pos, leb_ℤ, pos_part, neg_part}
use elastos_ela_side_chain.Common.Result.{
  Result, ok, err, panic, ◌>>=◌, ◌>>◌, fail_if, or_panic, >>=-ok, fail_if-ok, or_panic-ok,
}
use elastos_ela_side_chain.Core.{Input, Transaction}
use elastos_ela_side_chain.Blockchain.MedianTime.Samples.{IsMedian, median_total, median_lem}
use elastos_ela_side_chain.Blockchain.Retarget.{
  ChainParams, BlockNode, DifficultyError, calc_next_required_difficulty,
}
use elastos_ela_side_chain.Blockchain.BlockValidator.{
  Block, difficulty_error, wrong_difficulty, early_timestamp, unfinalized, median_time_blocks,
  calc_past_median_time, are_inputs_final, is_finalized_transaction, check_finalized, rest_of,
  pow_check_block_context,
}

abbrev pub timestamps_of : List BlockNode → List ℤ
timestamps_of nodes = map (λ (node : BlockNode). pos node.timestamp) (take median_time_blocks nodes)

check_finalized-final :
    (block_height : ℕ) (txs : List Transaction)
    → check_finalized block_height txs ≡ ok tt
    → All (λ tx. is_finalized_transaction tx block_height ≡ true) txs
unfolding check_finalized
check_finalized-final block_height [] e = tt
check_finalized-final block_height (tx ∷ txs) e =
    let (_, final, rest) =
      >>=-ok (fail_if (not (is_finalized_transaction tx block_height)) unfinalized) _ e in
    (
      not-false (is_finalized_transaction tx block_height)
          (fail_if-ok (not (is_finalized_transaction tx block_height)) _ final),
      check_finalized-final block_height txs rest,
    )

-- On a node, `CalcPastMedianTime` gives a median of the timestamps of the last eleven nodes at most.
pub calc_past_median_time-IsMedian :
    (prev : BlockNode) (parents : List BlockNode)
    → (median : ℤ) × (calc_past_median_time (prev ∷ parents) ≡ some median)
      × IsMedian median (timestamps_of (prev ∷ parents))
unfolding calc_past_median_time
calc_past_median_time-IsMedian prev parents =
    let (median, found) = median_total (timestamps_of (prev ∷ parents)) (omega arith) in
    (median, found, median_lem (timestamps_of (prev ∷ parents)) found)

later :
    (timestamp : ℕ) (median : ℤ)
    → leb_ℤ (pos timestamp) median ≡ false
    → pos_part median < timestamp + neg_part median
later timestamp median h = ground arith

-- Every transaction but the first, which there is, is final.
abbrev pub AreFinal : ℕ → List Transaction → Type 0
AreFinal height txs =
    (first : Transaction) × (rest : List Transaction) × (txs ≡ first ∷ rest)
    × All (λ tx. is_finalized_transaction tx height ≡ true) rest

rest_of-AreFinal :
    (height : ℕ) (txs : List Transaction) {rest : List Transaction}
    → rest_of txs ≡ some rest
    → check_finalized height rest ≡ ok tt
    → AreFinal height txs
rest_of-AreFinal height [] found e = cc
rest_of-AreFinal height (first ∷ txs) found e = (
  first,
  txs,
  refl,
  check_finalized-final height txs (ap (check_finalized height) (some-injective _ _ found) ∙ e),
)

module _ (p : ChainParams) (block : Block) (prev : BlockNode) (parents : List BlockNode) where
  -- A block on a previous node that passes `PowCheckBlockContext` has the difficulty that the rules ask
  -- for, and a timestamp above a median of those of the last eleven nodes at most; it has a first
  -- transaction, and each transaction behind that is final at the height after the previous node's.
  pub pow_check_block_context_sound :
      pow_check_block_context p block (prev ∷ parents) ≡ ok tt
      → (calc_next_required_difficulty p prev parents ≡ ok block.header.bits)
        × (median : ℤ) × IsMedian median (timestamps_of (prev ∷ parents))
        × (pos_part median < block.header.timestamp + neg_part median)
        × AreFinal ((prev.height + 1) % 2 ^ 32) block.transactions
  unfolding pow_check_block_context
  pow_check_block_context_sound e = go (calc_next_required_difficulty p prev parents) e
    where
      go :
          (found : Result DifficultyError ℕ)
          → (elim found [
            | panic ↦ panic
            | err _ ↦ err difficulty_error
            | ok expected ↦
                fail_if (not (block.header.bits == expected)) wrong_difficulty
                >> (or_panic (calc_past_median_time (prev ∷ parents)) >>= λ median.
                    fail_if (leb_ℤ (pos block.header.timestamp) median) early_timestamp
                    >> (or_panic (rest_of block.transactions) >>= λ txs.
                        check_finalized ((prev.height + 1) % 2 ^ 32) txs))
          ])
            ≡ ok tt
          → (found ≡ ok block.header.bits)
            × (median : ℤ) × IsMedian median (timestamps_of (prev ∷ parents))
            × (pos_part median < block.header.timestamp + neg_part median)
            × AreFinal ((prev.height + 1) % 2 ^ 32) block.transactions
      go panic e = cc
      go (err x) e = cc
      go (ok expected) e =
          let (_, bits, e1) =
            >>=-ok (fail_if (not (block.header.bits == expected)) wrong_difficulty) _ e in
          let (median, found, e2) =
            >>=-ok (or_panic (calc_past_median_time (prev ∷ parents))) _ e1 in
          let (_, late, e3) =
            >>=-ok (fail_if (leb_ℤ (pos block.header.timestamp) median) early_timestamp) _ e2 in
          let (txs, split, e4) = >>=-ok (or_panic (rest_of block.transactions)) _ e3 in
          let (m, is_found, is_median) = calc_past_median_time-IsMedian prev parents in
          let same : m ≡ median = some-injective _ _ (sym is_found ∙ or_panic-ok _ found) in
          let equal =
            not-false (block.header.bits == expected)
              (fail_if-ok (not (block.header.bits == expected)) _ bits) in
          (
            ap ok (sym ((==_iff block.header.bits expected).0 equal)),
            median,
            subst (λ t. IsMedian t (timestamps_of (prev ∷ parents))) same is_median,
            later block.header.timestamp median
                (fail_if-ok (leb_ℤ (pos block.header.timestamp) median) _ late),
            rest_of-AreFinal ((prev.height + 1) % 2 ^ 32) block.transactions (or_panic-ok _ split)
                e4,
          )

-- The lock time is over, or every input has the sequence number 65535.
abbrev pub IsFinal : Transaction → ℕ → Type 0
IsFinal tx block_height =
    (tx.lock_time ≡ 0)
    ⊎ (tx.lock_time < block_height)
    ⊎ All (λ (input : Input). input.sequence ≡ 65535) tx.inputs

are_inputs_final-All :
    (inputs : List Input)
    → (are_inputs_final inputs ≡ true) ↔ All (λ (input : Input). input.sequence ≡ 65535) inputs
unfolding are_inputs_final
are_inputs_final-All [] = (λ e. tt, λ h. refl)
are_inputs_final-All (input ∷ inputs) = elim (Bool-cases (input.sequence == 65535)) [
  | inl is ↦ (
    λ e. ((==_iff input.sequence 65535).0 is, (are_inputs_final-All inputs).0 (ground arith)),
    λ h. rw is ((are_inputs_final-All inputs).1 h.1),
  )
  | inr is ↦ (
    λ e. absurd (ground arith),
    λ h. absurd (let same = (==_iff input.sequence 65535).1 h.0 in cc),
  )
]

-- `IsFinalizedTransaction` holds at a height of a transaction exactly if its lock time is zero or below
-- the height, or the sequence number of each of its inputs is 65535.
pub is_finalized_transaction-IsFinal :
    (tx : Transaction) (block_height : ℕ)
    → (is_finalized_transaction tx block_height ≡ true) ↔ IsFinal tx block_height
unfolding is_finalized_transaction
is_finalized_transaction-IsFinal tx block_height = elim (Bool-cases (tx.lock_time == 0)) [
  | inl zero ↦ (λ e. inl ((==_iff tx.lock_time 0).0 zero), λ h. rw zero refl)
  | inr locked ↦ elim (Bool-cases (ltb tx.lock_time block_height)) [
    | inl below ↦ (λ e. inr (inl (ground arith)), λ h. rw (locked, below) refl)
    | inr above ↦ (
      λ e. inr (inr ((are_inputs_final-All tx.inputs).0 (sym (rw (locked, above) refl) ∙ e))),
      λ h.
          rw (locked, above)
            (elim h [
              | inl zero ↦ absurd (ground arith)
              | inr (inl below) ↦ absurd (ground arith)
              | inr (inr all) ↦ (are_inputs_final-All tx.inputs).1 all
            ]),
    )
  ]
]
