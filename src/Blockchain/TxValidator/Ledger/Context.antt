-- ===== src/Blockchain/TxValidator/Ledger/Context.antt =====
-- What a transaction is that passes `CheckTransactionSanity` or `CheckTransactionContext`: the checks
-- taken together.
use mathlib.Core.Option.{some-injective}
use elastos_ela_side_chain.Common.{
  ℕ, ◌+◌, ◌^◌, ◌≤◌, ◌<◌, ◌≡◌, refl, sym, subst, ◌∙◌, Bool, true, false, not, not-false, some, List,
  [], map, get_elem?, if◌then◌else◌, All-get_elem?,
}
use elastos_ela_side_chain.Common.Int.{pos}
use elastos_ela_side_chain.Common.Result.{Result, ok, err, panic, ◌>>◌, fail_if, >>=-ok, fail_if-ok}
use elastos_ela_side_chain.Core.{
  Input, Output, Transaction, is_coin_base_tx, is_recharge_to_side_chain_tx, is_register_asset_tx,
}
use elastos_ela_side_chain.Blockchain.TxReference.{get_tx_reference, input_references}
use elastos_ela_side_chain.Blockchain.TxPool.{ErrCode, double_spend, rejected}
use elastos_ela_side_chain.Blockchain.Fees.{check_transaction_balance}
use elastos_ela_side_chain.Blockchain.Fees.Sums.{total, has_asset, IsNonnegative}
use elastos_ela_side_chain.Blockchain.Fees.Conservation.{check_transaction_balance-conserves}
use elastos_ela_side_chain.Blockchain.TxValidator.Inputs.{
  is_null_point, check_transaction_input, check_transaction_input-distinct,
}
use elastos_ela_side_chain.Blockchain.TxValidator.Outputs.{check_transaction_output}
use elastos_ela_side_chain.Blockchain.TxValidator.Outputs.Sound.{
  IsPayable, check_transaction_output-IsPayable,
}
use elastos_ela_side_chain.Blockchain.TxValidator.Precision.{check_asset_precision}
use elastos_ela_side_chain.Blockchain.TxValidator.Precision.Sound.{
  IsPrecise, check_asset_precision-IsPrecise,
}
use elastos_ela_side_chain.Blockchain.TxValidator.Ledger.{
  Rules, Chain, with_code, is_size_wrong, check_transaction_sanity, is_tx_hash_duplicate,
  check_cross_chain, check_spending, is_double_spend, check_transaction_utxo_lock, check_referenced,
  check_transaction_context,
}
use elastos_ela_side_chain.Blockchain.TxValidator.Ledger.Locks.{
  IsUnspent, is_double_spend-IsUnspent, IsMature, check_referenced-IsMature,
  check_referenced-IsNonnegative, IsUnlocked, check_transaction_utxo_lock-IsUnlocked,
}

with_code-ok {ℓ} :
    {E : Type ℓ} (r : Result E (Unit {0})) (code : ErrCode) {a : Unit {0}}
    → with_code r code ≡ ok a
    → r ≡ ok tt
with_code-ok (ok _) code e = refl
with_code-ok (err x) code e = cc
with_code-ok panic code e = cc

module _ (rules : Rules) (tx : Transaction) (regular : is_coin_base_tx tx ≡ false)
    (no_recharge : is_recharge_to_side_chain_tx tx ≡ false) where
  -- The parts of a sanity check that passes.
  record Sane : Type 0 where
    inputs : check_transaction_input tx ≡ ok tt
    outputs :
        check_transaction_output rules.prefixes rules.asset rules.foundation rules.three_tenths tx
        ≡ ok tt
    precision : check_asset_precision rules.get_asset tx ≡ ok tt

  check_transaction_sanity-Sane : check_transaction_sanity rules tx ≡ ok tt → Sane
  unfolding check_transaction_sanity
  check_transaction_sanity-Sane e =
      let (_, _, e1) = >>=-ok (fail_if (is_size_wrong rules tx) (rejected 45015)) _ e in
      let (_, inputs, e2) = >>=-ok (with_code (check_transaction_input tx) (rejected 45003)) _ e1 in
      let (_, outputs, e3) =
        >>=-ok
          (with_code
            (check_transaction_output rules.prefixes rules.asset rules.foundation rules.three_tenths
              tx)
            (rejected 45004))
          _ e2 in
      let (_, precision, _) =
        >>=-ok (with_code (check_asset_precision rules.get_asset tx) (rejected 45005)) _ e3 in
      record {
        inputs = with_code-ok (check_transaction_input tx) _ inputs;
        outputs =
            with_code-ok
              (check_transaction_output rules.prefixes rules.asset rules.foundation
                rules.three_tenths tx)
              _ outputs;
        precision = with_code-ok (check_asset_precision rules.get_asset tx) _ precision;
      }

  -- In a transaction (no coinbase, no recharge) that passes `CheckTransactionSanity`, each output is of
  -- the chain's asset, goes to an address of a known kind and has a value that is a multiple of the
  -- asset's unit; an input that spends what another does is that input, and none spends the null
  -- output.
  pub check_transaction_sanity_sound :
      (i j k : ℕ) (a b : Input) (output : Output)
      → check_transaction_sanity rules tx ≡ ok tt
      → get_elem? tx.outputs k ≡ some output
      → get_elem? tx.inputs i ≡ some a
      → get_elem? tx.inputs j ≡ some b
      → a.previous ≡ b.previous
      → IsPayable rules.prefixes rules.asset output
        × IsPrecise rules.get_asset output
        × (i ≡ j)
        × (is_null_point a.previous ≡ false)
  check_transaction_sanity_sound i j k a b output e at_k at_i at_j same =
      let sane = check_transaction_sanity-Sane e in
      let (equal, real) =
        check_transaction_input-distinct tx i j a b regular no_recharge sane.inputs at_i at_j
          same in
      (
        check_transaction_output-IsPayable rules.prefixes rules.asset rules.foundation
            rules.three_tenths tx k output regular no_recharge sane.outputs at_k,
        check_asset_precision-IsPrecise rules.get_asset tx k output sane.precision at_k,
        equal,
        real,
      )

  module _ (chain : Chain) where
    -- The parts of a context check that passes.
    record Spending : Type 0 where
      new : is_tx_hash_duplicate chain.store tx.hash ≡ false
      signed : rules.verify_signature tx ≡ true
      unspent : is_double_spend chain.unspent tx.inputs ≡ false
      unlocked : check_transaction_utxo_lock chain.store tx ≡ ok tt
      balanced :
          check_transaction_balance rules.converted rules.to_address rules.decode_main
            (pos rules.min_tx_fee)
            chain.store
            tx
          ≡ ok tt
      mature : check_referenced chain.store chain.height rules.spend_coinbase_span tx.inputs ≡ ok tt

    check_transaction_context-regular : check_transaction_context rules chain tx ≡ (
        fail_if (is_tx_hash_duplicate chain.store tx.hash) (rejected 45011)
        >> (fail_if (not (rules.verify_signature tx)) (rejected 45008)
            >> check_spending rules chain tx))
    unfolding check_transaction_context
    check_transaction_context-regular = rw (regular, no_recharge) refl

    check_transaction_context-Spending : check_transaction_context rules chain tx ≡ ok tt → Spending
    unfolding check_spending
    check_transaction_context-Spending e =
        let (_, new, e1) =
          >>=-ok (fail_if (is_tx_hash_duplicate chain.store tx.hash) (rejected 45011)) _
            (sym check_transaction_context-regular ∙ e) in
        let (_, signed, e2) =
          >>=-ok (fail_if (not (rules.verify_signature tx)) (rejected 45008)) _ e1 in
        let (_, _, e3) = >>=-ok (check_cross_chain rules chain tx) _ e2 in
        let (_, unspent, e4) =
          >>=-ok (fail_if (is_double_spend chain.unspent tx.inputs) double_spend) _ e3 in
        let (_, unlocked, e5) =
          >>=-ok (with_code (check_transaction_utxo_lock chain.store tx) (rejected 45019)) _ e4 in
        let (_, balanced, mature) =
          >>=-ok
            (with_code
              (check_transaction_balance rules.converted rules.to_address rules.decode_main
                (pos rules.min_tx_fee) chain.store tx)
              (rejected 45006))
            _ e5 in
        record {
          new = fail_if-ok (is_tx_hash_duplicate chain.store tx.hash) _ new;
          signed =
              not-false (rules.verify_signature tx)
                (fail_if-ok (not (rules.verify_signature tx)) _ signed);
          unspent = fail_if-ok (is_double_spend chain.unspent tx.inputs) _ unspent;
          unlocked = with_code-ok (check_transaction_utxo_lock chain.store tx) _ unlocked;
          balanced =
              with_code-ok
                (check_transaction_balance rules.converted rules.to_address rules.decode_main
                  (pos rules.min_tx_fee) chain.store tx)
                _ balanced;
          mature = mature;
        }

    -- In a transaction (no coinbase, no recharge) that passes `CheckTransactionContext`, each input
    -- spends an output that is among the unspent ones and that the store holds, with no negative value
    -- and, if it is one of a coinbase, with a uint32 difference of the height and the coinbase's lock
    -- time, modulo 2 ^ 32, of at least the span; the transaction is new to the store and its signature
    -- passed.
    pub check_transaction_context-spends :
        (i : ℕ) (input : Input)
        → check_transaction_context rules chain tx ≡ ok tt
        → get_elem? tx.inputs i ≡ some input
        → IsUnspent chain.unspent input
          × IsMature chain.store chain.height rules.spend_coinbase_span input
          × (is_tx_hash_duplicate chain.store tx.hash ≡ false)
          × (rules.verify_signature tx ≡ true)
    check_transaction_context-spends i input e at =
        let spending = check_transaction_context-Spending e in
        (
          All-get_elem? (IsUnspent chain.unspent) tx.inputs i
              (is_double_spend-IsUnspent chain.unspent tx.inputs spending.unspent) at,
          All-get_elem? (IsMature chain.store chain.height rules.spend_coinbase_span) tx.inputs i
              (check_referenced-IsMature chain.store chain.height rules.spend_coinbase_span
                tx.inputs spending.mature)
              at,
          spending.new,
          spending.signed,
        )

    references-IsNonnegative :
        (references : List (Input × Output))
        → check_referenced chain.store chain.height rules.spend_coinbase_span tx.inputs ≡ ok tt
        → get_tx_reference chain.store tx ≡ some references
        → IsNonnegative (map (λ reference. reference.1) references)
    unfolding get_tx_reference
    references-IsNonnegative references mature found = go (is_register_asset_tx tx) found
      where
        go :
            (t : Bool)
            → (if t then some [] else input_references chain.store tx.inputs) ≡ some references
            → IsNonnegative (map (λ reference. reference.1) references)
        go true f =
            subst (λ (l : List (Input × Output)). IsNonnegative (map (λ reference. reference.1) l))
              (some-injective _ _ f) tt
        go false f =
            check_referenced-IsNonnegative chain.store chain.height rules.spend_coinbase_span
              tx.inputs
              (check_referenced-IsMature chain.store chain.height rules.spend_coinbase_span
                tx.inputs mature)
              f

    -- A transaction (no coinbase, no recharge) that passes `CheckTransactionContext` makes no value: of
    -- each asset among its outputs, these hold with the least fee no more than the outputs that it
    -- refers to, and each of these is unlocked, if neither sum reaches 2 ^ 63.
    pub check_transaction_context-conserves :
        (references : List (Input × Output)) (asset i : ℕ) (reference : Input × Output)
        → check_transaction_context rules chain tx ≡ ok tt
        → get_tx_reference chain.store tx ≡ some references
        → get_elem? references i ≡ some reference
        → total asset (map (λ r. r.1) references) < 2 ^ 63
        → total asset tx.outputs < 2 ^ 63
        → has_asset asset tx.outputs ≡ true
        → (total asset tx.outputs + rules.min_tx_fee ≤ total asset (map (λ r. r.1) references))
          × IsUnlocked tx.lock_time reference
    check_transaction_context-conserves references asset i reference e found at fits_in fits_out
          present =
        let spending = check_transaction_context-Spending e in
        (
          check_transaction_balance-conserves rules.converted rules.to_address rules.decode_main
              rules.min_tx_fee chain.store tx references no_recharge found asset
              (references-IsNonnegative references spending.mature found) fits_in fits_out present
              spending.balanced,
          check_transaction_utxo_lock-IsUnlocked chain.store tx references i reference regular
              spending.unlocked found at,
        )
