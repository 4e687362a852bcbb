-- ===== src/Blockchain/TxValidator/Inputs.antt =====
-- `CheckTransactionInput` of blockchain/txvalidator.go. `EmptyHash`, the zero value of a hash, is 0.
mod Tests
use mathlib.Core.Option.{some-injective}
use elastos_ela_side_chain.Common.{
  ℕ, zero, suc, Bool, true, false, not, ◌||◌, ◌&&◌, Option, none, some, List, [], ◌∷◌, length,
  get_elem?, ◌==◌, ==_iff, ◌≡◌, refl, sym, ◌∙◌, ap, if◌then◌else◌, arith,
}
use elastos_ela_side_chain.Common.Result.{
  Result, ok, err, panic, ◌>>=◌, ◌>>◌, fail_if, or_panic, >>=-ok, fail_if-ok, Returns, >>=-Returns,
  fail_if-Returns,
}
use elastos_ela_side_chain.Core.{
  OutPoint, Input, Transaction, is_coin_base_tx, is_recharge_to_side_chain_tx,
}

-- The errors, one for each message.
pub data InputError : Type 0 where
  coinbase_inputs invalid_coinbase no_inputs invalid_input duplicated_inputs : InputError

-- `math.MaxUint16`
abbrev pub max_uint16 : ℕ
max_uint16 = 65535

-- `IsEqual` of outpoints
abbrev pub is_same_point : OutPoint → OutPoint → Bool
is_same_point a b = (a.tx_id == b.tx_id) && (a.index == b.index)

-- The outpoint that a coinbase refers to.
abbrev pub is_null_point : OutPoint → Bool
is_null_point point = (point.tx_id == 0) && (point.index == max_uint16)

-- The inner loop, over the inputs before one.
abbrev pub is_spent_before : OutPoint → List Input → Bool
is_spent_before point [] = false
is_spent_before point (input ∷ earlier) =
    is_same_point point input.previous || is_spent_before point earlier

-- The outer loop, with the inputs before the next one.
unfoldable pub check_inputs : List Input → List Input → Result InputError (Unit {0})
check_inputs earlier [] = ok tt
check_inputs earlier (input ∷ inputs) =
    fail_if (is_null_point input.previous) invalid_input
    >> (fail_if (is_spent_before input.previous earlier) duplicated_inputs
        >> check_inputs (input ∷ earlier) inputs)

unfoldable pub check_transaction_input : Transaction → Result InputError (Unit {0})
check_transaction_input tx =
    if is_coin_base_tx tx
    then (fail_if (not (length tx.inputs == 1)) coinbase_inputs
        >> (or_panic (get_elem? tx.inputs 0) >>= λ input.
            fail_if (not (input.previous.tx_id == 0) || not (input.previous.index == max_uint16))
              invalid_coinbase))
    else if is_recharge_to_side_chain_tx tx
    then ok tt
    else (fail_if (length tx.inputs == 0) no_inputs >> check_inputs [] tx.inputs)

check_inputs-ok :
    (earlier : List Input) (input : Input) (inputs : List Input)
    → check_inputs earlier (input ∷ inputs) ≡ ok tt
    → (is_null_point input.previous ≡ false)
      × (is_spent_before input.previous earlier ≡ false)
      × (check_inputs (input ∷ earlier) inputs ≡ ok tt)
unfolding check_inputs
check_inputs-ok earlier input inputs e =
    let (_, real, e1) = >>=-ok (fail_if (is_null_point input.previous) invalid_input) _ e in
    let (_, new, rest) =
      >>=-ok (fail_if (is_spent_before input.previous earlier) duplicated_inputs) _ e1 in
    (
      fail_if-ok (is_null_point input.previous) _ real,
      fail_if-ok (is_spent_before input.previous earlier) _ new,
      rest,
    )

-- An input that is left spends none of the outputs before it, and no null output.
check_inputs-fresh :
    (earlier inputs : List Input) (i : ℕ) (input : Input)
    → check_inputs earlier inputs ≡ ok tt
    → get_elem? inputs i ≡ some input
    → (is_null_point input.previous ≡ false) × (is_spent_before input.previous earlier ≡ false)
check_inputs-fresh earlier [] i input e at = cc
check_inputs-fresh earlier (first ∷ inputs) zero input e at =
    let (real, new, _) = check_inputs-ok earlier first inputs e in
    let same : first ≡ input = some-injective _ _ at in
    (
      ap (λ (k : Input). is_null_point k.previous) (sym same) ∙ real,
      ap (λ (k : Input). is_spent_before k.previous earlier) (sym same) ∙ new,
    )
check_inputs-fresh earlier (first ∷ inputs) (suc i) input e at =
    let (real, new) =
      check_inputs-fresh (first ∷ earlier) inputs i input (check_inputs-ok earlier first inputs e).2
        at in
    (real, go (is_same_point input.previous first.previous) new)
  where
    go :
        (t : Bool)
        → (t || is_spent_before input.previous earlier) ≡ false
        → is_spent_before input.previous earlier ≡ false
    go true h = cc
    go false h = h

is_same_point_refl : (a : OutPoint) → is_same_point a a ≡ true
is_same_point_refl a = ground arith

-- The first of the inputs is not spent again.
head_repeated {ℓ} :
    {A : Type ℓ} (earlier : List Input) (first : Input) (inputs : List Input) (j : ℕ)
    (input : Input)
    → check_inputs earlier (first ∷ inputs) ≡ ok tt
    → get_elem? inputs j ≡ some input
    → input.previous ≡ first.previous
    → A
head_repeated earlier first inputs j input e at same =
    let (_, new) =
      check_inputs-fresh (first ∷ earlier) inputs j input (check_inputs-ok earlier first inputs e).2
        at in
    let clash : is_spent_before input.previous (first ∷ earlier) ≡ true =
      ap (λ t. t || is_spent_before input.previous earlier)
        (ap (λ p. is_same_point p first.previous) same ∙ is_same_point_refl first.previous) in
    cc

check_inputs-distinct :
    (earlier inputs : List Input) (i j : ℕ) (a b : Input)
    → check_inputs earlier inputs ≡ ok tt
    → get_elem? inputs i ≡ some a
    → get_elem? inputs j ≡ some b
    → a.previous ≡ b.previous
    → i ≡ j
check_inputs-distinct earlier [] i j a b e at_i at_j same = cc
check_inputs-distinct earlier (first ∷ inputs) zero zero a b e at_i at_j same = refl
check_inputs-distinct earlier (first ∷ inputs) (suc i) (suc j) a b e at_i at_j same = ap suc (
    check_inputs-distinct (first ∷ earlier) inputs i j a b
      (check_inputs-ok earlier first inputs e).2 at_i at_j same)
check_inputs-distinct earlier (first ∷ inputs) zero (suc j) a b e at_i at_j same =
    let is_first : first ≡ a = some-injective _ _ at_i in
    head_repeated earlier first inputs j b e at_j
      (sym same ∙ ap (λ (k : Input). k.previous) (sym is_first))
check_inputs-distinct earlier (first ∷ inputs) (suc i) zero a b e at_i at_j same =
    let is_first : first ≡ b = some-injective _ _ at_j in
    head_repeated earlier first inputs i a e at_i
      (same ∙ ap (λ (k : Input). k.previous) (sym is_first))

check_transaction_input-regular :
    (tx : Transaction)
    → is_coin_base_tx tx ≡ false
    → is_recharge_to_side_chain_tx tx ≡ false
    → check_transaction_input tx
      ≡ (fail_if (length tx.inputs == 0) no_inputs >> check_inputs [] tx.inputs)
unfolding check_transaction_input
check_transaction_input-regular tx regular no_recharge = rw (regular, no_recharge) refl

-- In a transaction that is no coinbase and no recharge and that passes `CheckTransactionInput`, two
-- inputs that spend one output are the same input, and no input spends the null output.
pub check_transaction_input-distinct :
    (tx : Transaction) (i j : ℕ) (a b : Input)
    → is_coin_base_tx tx ≡ false
    → is_recharge_to_side_chain_tx tx ≡ false
    → check_transaction_input tx ≡ ok tt
    → get_elem? tx.inputs i ≡ some a
    → get_elem? tx.inputs j ≡ some b
    → a.previous ≡ b.previous
    → (i ≡ j) × (is_null_point a.previous ≡ false)
check_transaction_input-distinct tx i j a b regular no_recharge e at_i at_j same =
    let (_, _, checked) =
      >>=-ok (fail_if (length tx.inputs == 0) no_inputs) _
        (sym (check_transaction_input-regular tx regular no_recharge) ∙ e) in
    (
      check_inputs-distinct [] tx.inputs i j a b checked at_i at_j same,
      (check_inputs-fresh [] tx.inputs i a checked at_i).0,
    )
