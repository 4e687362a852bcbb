-- ===== src/Blockchain/BlockValidator/Order.antt =====
-- No transaction and no spent output stands twice in a block that passes the loop over its
-- transactions (blockchain/blockvalidator.go).
use mathlib.Core.Option.{some-injective}
use elastos_ela_side_chain.Common.{
  ℕ, zero, suc, ◌≡◌, refl, sym, ◌∙◌, ap, subst, Bool, true, false, not, not-false, ◌||◌, some, List,
  [], ◌∷◌, get_elem?, ◌==◌, arith, All,
}
use elastos_ela_side_chain.Common.Result.{ok, fail_if, >>=-ok, fail_if-ok, ok-injective}
use elastos_ela_side_chain.Core.{OutPoint, Input, Transaction}
use elastos_ela_side_chain.Blockchain.TxValidator.CrossChain.{is_member}
use elastos_ela_side_chain.Blockchain.BlockValidator.{
  duplicate_transaction, insane_transaction, duplicate_utxo, Seen, check_block_inputs,
  check_block_main, check_transactions,
}

is_member-head : (n : ℕ) (ms : List ℕ) → is_member n (n ∷ ms) ≡ true
is_member-head n ms = ground arith

is_member-tail : (n m : ℕ) (ms : List ℕ) → is_member n ms ≡ true → is_member n (m ∷ ms) ≡ true
is_member-tail n m ms h = ground arith

unseen : (b a : ℕ) (ms : List ℕ) → is_member b (a ∷ ms) ≡ false → is_member b ms ≡ false
unseen b a ms h = go (b == a) h
  where
    go : (t : Bool) → (t || is_member b ms) ≡ false → is_member b ms ≡ false
    go true h = cc
    go false h = h

module _ (refer_key : OutPoint → ℕ) where
  abbrev pub key_of : Input → ℕ
  key_of input = refer_key input.previous

  check_block_inputs-ok :
      (keys : List ℕ) (input : Input) (inputs : List Input) {keys' : List ℕ}
      → check_block_inputs refer_key keys (input ∷ inputs) ≡ ok keys'
      → (is_member (key_of input) keys ≡ false)
        × (check_block_inputs refer_key (key_of input ∷ keys) inputs ≡ ok keys')
  unfolding check_block_inputs
  check_block_inputs-ok keys input inputs e =
      let (_, new, rest) = >>=-ok (fail_if (is_member (key_of input) keys) duplicate_utxo) _ e in
      (fail_if-ok (is_member (key_of input) keys) _ new, rest)

  check_block_inputs-keeps :
      (k : ℕ) (keys : List ℕ) (inputs : List Input) {keys' : List ℕ}
      → check_block_inputs refer_key keys inputs ≡ ok keys'
      → is_member k keys ≡ true
      → is_member k keys' ≡ true
  unfolding check_block_inputs
  check_block_inputs-keeps k keys [] e h = subst (λ ks. is_member k ks ≡ true) (ok-injective e) h
  check_block_inputs-keeps k keys (input ∷ inputs) e h =
      let (_, rest) = check_block_inputs-ok keys input inputs e in
      check_block_inputs-keeps k (key_of input ∷ keys) inputs rest
        (is_member-tail k (key_of input) keys h)

  check_block_inputs-adds :
      (keys : List ℕ) (inputs : List Input) (i : ℕ) {keys' : List ℕ} {input : Input}
      → check_block_inputs refer_key keys inputs ≡ ok keys'
      → get_elem? inputs i ≡ some input
      → is_member (key_of input) keys' ≡ true
  check_block_inputs-adds keys [] i e at = cc
  check_block_inputs-adds keys (first ∷ inputs) zero e at =
      let (_, rest) = check_block_inputs-ok keys first inputs e in
      check_block_inputs-keeps _ (key_of first ∷ keys) inputs rest (
        ap (λ (a : Input). is_member (key_of a) (key_of first ∷ keys)) (sym (some-injective _ _ at))
        ∙ is_member-head (key_of first) keys)
  check_block_inputs-adds keys (first ∷ inputs) (suc i) e at =
      check_block_inputs-adds (key_of first ∷ keys) inputs i
        (check_block_inputs-ok keys first inputs e).1 at

  -- A key that was seen is no key of the inputs.
  check_block_inputs-fresh :
      (keys : List ℕ) (inputs : List Input) (i : ℕ) {keys' : List ℕ} {input : Input}
      → check_block_inputs refer_key keys inputs ≡ ok keys'
      → get_elem? inputs i ≡ some input
      → is_member (key_of input) keys ≡ false
  check_block_inputs-fresh keys [] i e at = cc
  check_block_inputs-fresh keys (first ∷ inputs) zero e at =
      ap (λ (a : Input). is_member (key_of a) keys) (sym (some-injective _ _ at))
      ∙ (check_block_inputs-ok keys first inputs e).0
  check_block_inputs-fresh keys (first ∷ inputs) (suc i) {input = input} e at =
      unseen (key_of input) (key_of first) keys (
        check_block_inputs-fresh (key_of first ∷ keys) inputs i
          (check_block_inputs-ok keys first inputs e).1 at)

  module _ (is_sane : Transaction → Bool) where
    -- One round of the loop over the transactions.
    record Round (seen : Seen) (tx : Transaction) (txs : List Transaction) : Type 0 where
      new : is_member tx.hash seen.ids ≡ false
      sane : is_sane tx ≡ true
      keys : List ℕ
      spends : check_block_inputs refer_key seen.keys tx.inputs ≡ ok keys
      mains : List ℕ
      rest :
          check_transactions refer_key is_sane
            (record { ids = tx.hash ∷ seen.ids; keys = keys; mains = mains })
            txs
          ≡ ok tt

    check_transactions-Round :
        (seen : Seen) (tx : Transaction) (txs : List Transaction)
        → check_transactions refer_key is_sane seen (tx ∷ txs) ≡ ok tt
        → Round seen tx txs
    unfolding check_transactions
    check_transactions-Round seen tx txs e =
        let (_, new, e1) =
          >>=-ok (fail_if (is_member tx.hash seen.ids) duplicate_transaction) _ e in
        let (_, sane, e2) = >>=-ok (fail_if (not (is_sane tx)) insane_transaction) _ e1 in
        let (keys, spends, e3) = >>=-ok (check_block_inputs refer_key seen.keys tx.inputs) _ e2 in
        let (mains, _, rest) = >>=-ok (check_block_main refer_key seen.mains tx) _ e3 in
        record {
          new = fail_if-ok (is_member tx.hash seen.ids) _ new;
          sane = not-false (is_sane tx) (fail_if-ok (not (is_sane tx)) _ sane);
          keys = keys;
          spends = spends;
          mains = mains;
          rest = rest;
        }

    pub check_transactions-sane :
        (txs : List Transaction) (seen : Seen)
        → check_transactions refer_key is_sane seen txs ≡ ok tt
        → All (λ tx. is_sane tx ≡ true) txs
    check_transactions-sane [] seen e = tt
    check_transactions-sane (tx ∷ txs) seen e =
        let round = check_transactions-Round seen tx txs e in
        (round.sane, check_transactions-sane txs _ round.rest)

    -- A key that was seen does not come again.
    check_transactions-fresh :
        (txs : List Transaction) (seen : Seen) (j l : ℕ) {tx : Transaction} {input : Input}
        → check_transactions refer_key is_sane seen txs ≡ ok tt
        → get_elem? txs j ≡ some tx
        → get_elem? tx.inputs l ≡ some input
        → is_member (key_of input) seen.keys ≡ true
        → is_member (key_of input) seen.keys ≡ false
    check_transactions-fresh [] seen j l e at_tx at_in h = cc
    check_transactions-fresh (first ∷ txs) seen zero l {input = input} e at_tx at_in h =
        check_block_inputs-fresh seen.keys first.inputs l
          (check_transactions-Round seen first txs e).spends
          (ap (λ (t : Transaction). get_elem? t.inputs l) (some-injective _ _ at_tx) ∙ at_in)
    check_transactions-fresh (first ∷ txs) seen (suc j) l {input = input} e at_tx at_in h =
        let round = check_transactions-Round seen first txs e in
        let old = check_block_inputs-keeps (key_of input) seen.keys first.inputs round.spends h in
        let never = check_transactions-fresh txs _ j l round.rest at_tx at_in old in
        cc (sym old ∙ never)

    -- What the first transaction spends, no later one does.
    head_respent {ℓ} :
        {A : Type ℓ} (txs : List Transaction) (seen : Seen) (first : Transaction) (j k l : ℕ)
        {b : Transaction} {input_a input_b : Input}
        → check_transactions refer_key is_sane seen (first ∷ txs) ≡ ok tt
        → get_elem? txs j ≡ some b
        → get_elem? first.inputs k ≡ some input_a
        → get_elem? b.inputs l ≡ some input_b
        → key_of input_b ≡ key_of input_a
        → A
    head_respent txs seen first j k l e at_b in_a in_b same =
        let round = check_transactions-Round seen first txs e in
        let spent : is_member _ round.keys ≡ true =
          ap (λ key. is_member key round.keys) same
          ∙ check_block_inputs-adds seen.keys first.inputs k round.spends in_a in
        let never = check_transactions-fresh txs _ j l round.rest at_b in_b spent in
        cc (sym spent ∙ never)

    -- Two places in the block that spend one key are in one transaction.
    pub check_transactions-spends :
        (txs : List Transaction) (seen : Seen) (i j k l : ℕ) {a b : Transaction}
        {input_a input_b : Input}
        → check_transactions refer_key is_sane seen txs ≡ ok tt
        → get_elem? txs i ≡ some a
        → get_elem? txs j ≡ some b
        → get_elem? a.inputs k ≡ some input_a
        → get_elem? b.inputs l ≡ some input_b
        → key_of input_a ≡ key_of input_b
        → i ≡ j
    check_transactions-spends [] seen i j k l e at_a at_b in_a in_b same = cc
    check_transactions-spends (first ∷ txs) seen zero zero k l e at_a at_b in_a in_b same = refl
    check_transactions-spends (first ∷ txs) seen (suc i) (suc j) k l e at_a at_b in_a in_b same =
        ap suc (
          check_transactions-spends txs _ i j k l (check_transactions-Round seen first txs e).rest
            at_a at_b in_a in_b same)
    check_transactions-spends (first ∷ txs) seen zero (suc j) k l e at_a at_b in_a in_b same =
        head_respent txs seen first j k l e at_b
          (ap (λ (t : Transaction). get_elem? t.inputs k) (some-injective _ _ at_a) ∙ in_a) in_b
          (sym same)
    check_transactions-spends (first ∷ txs) seen (suc i) zero k l e at_a at_b in_a in_b same =
        head_respent txs seen first i l k e at_a
          (ap (λ (t : Transaction). get_elem? t.inputs l) (some-injective _ _ at_b) ∙ in_b) in_a
          same

    check_transactions-new :
        (txs : List Transaction) (seen : Seen) (j : ℕ) {tx : Transaction}
        → check_transactions refer_key is_sane seen txs ≡ ok tt
        → get_elem? txs j ≡ some tx
        → is_member tx.hash seen.ids ≡ false
    check_transactions-new [] seen j e at = cc
    check_transactions-new (first ∷ txs) seen zero e at =
        ap (λ (t : Transaction). is_member t.hash seen.ids) (sym (some-injective _ _ at))
        ∙ (check_transactions-Round seen first txs e).new
    check_transactions-new (first ∷ txs) seen (suc j) {tx} e at =
        unseen tx.hash first.hash seen.ids
          (check_transactions-new txs _ j (check_transactions-Round seen first txs e).rest at)

    hash_repeated {ℓ} :
        {A : Type ℓ} (txs : List Transaction) (seen : Seen) (first : Transaction) (j : ℕ)
        {b : Transaction}
        → check_transactions refer_key is_sane seen (first ∷ txs) ≡ ok tt
        → get_elem? txs j ≡ some b
        → b.hash ≡ first.hash
        → A
    hash_repeated txs seen first j {b} e at same =
        let new =
          check_transactions-new txs _ j (check_transactions-Round seen first txs e).rest at in
        let old : is_member b.hash (first.hash ∷ seen.ids) ≡ true =
          ap (λ h. is_member h (first.hash ∷ seen.ids)) same ∙ is_member-head first.hash seen.ids in
        cc (sym old ∙ new)

    -- Two places in the block with one hash are the same.
    pub check_transactions-distinct :
        (txs : List Transaction) (seen : Seen) (i j : ℕ) {a b : Transaction}
        → check_transactions refer_key is_sane seen txs ≡ ok tt
        → get_elem? txs i ≡ some a
        → get_elem? txs j ≡ some b
        → a.hash ≡ b.hash
        → i ≡ j
    check_transactions-distinct [] seen i j e at_a at_b same = cc
    check_transactions-distinct (first ∷ txs) seen zero zero e at_a at_b same = refl
    check_transactions-distinct (first ∷ txs) seen (suc i) (suc j) e at_a at_b same = ap suc (
        check_transactions-distinct txs _ i j (check_transactions-Round seen first txs e).rest at_a
          at_b same)
    check_transactions-distinct (first ∷ txs) seen zero (suc j) e at_a at_b same =
        hash_repeated txs seen first j e at_b
          (sym same ∙ ap (λ (t : Transaction). t.hash) (sym (some-injective _ _ at_a)))
    check_transactions-distinct (first ∷ txs) seen (suc i) zero e at_a at_b same =
        hash_repeated txs seen first i e at_a
          (same ∙ ap (λ (t : Transaction). t.hash) (sym (some-injective _ _ at_b)))
