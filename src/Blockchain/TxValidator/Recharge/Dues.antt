-- ===== src/Blockchain/TxValidator/Recharge/Dues.antt =====
-- What a recharge is due to pay by the transaction of the main chain, and that the loops of
-- `CheckRechargeToSideChainTransaction` of blockchain/txvalidator.go see to it.
use mathlib.Core.Option.{some-injective}
use elastos_ela_side_chain.Common.{
  ℕ, ◌≡◌, refl, sym, ◌∙◌, ap, subst, Bool, true, false, not, not-false, ◌||◌, Option, none, some,
  List, [], ◌∷◌, get_elem?, drop, arith, ◌⊎◌, inl, inr, All, map, if◌then◌else◌,
}
use elastos_ela_side_chain.Common.Int.{ℤ, pos, ◌+ℤ◌, +ℤ_assoc, ltb_ℤ, ◌≤ℤ◌}
use elastos_ela_side_chain.Common.Result.{
  ok, err, ◌>>=◌, ◌>>◌, fail_if, or_panic, >>=-ok, fail_if-ok, or_panic-ok, ok-injective, Result,
}
use elastos_ela_side_chain.Core.{Output}
use elastos_ela_side_chain.Blockchain.TxValidator.Fixed64.{add64, sub64, wrap64}
use elastos_ela_side_chain.Blockchain.TxValidator.Fixed64.Sums.{
  sum_ℤ, values, add64-wrap64, +ℤ_zero,
}
use elastos_ela_side_chain.Blockchain.Fees.{is_same_address}
use elastos_ela_side_chain.Blockchain.TxValidator.Recharge.{
  invalid_amount, invalid_address, invalid_outputs, invalid_output_value, RechargeError,
  is_contained, target_total, recharge_amount, origin_total,
}

in_range : (a limit : ℤ) → (ltb_ℤ a (pos 0) || ltb_ℤ limit a) ≡ false → (pos 0 ≤ℤ a) × (a ≤ℤ limit)
in_range a limit h = (ground arith, ground arith)

-- An address that an output of the main chain's transaction pays on this chain, and its amount.
pub record Due : Type 0 where
  pub main_output : Output
  pub address : List ℕ
  pub amount : ℤ

-- The addresses, with the indexes and the amounts beside them, whose outputs go to this chain.
unfoldable pub dues : List ℕ → List Output → List (List ℕ) → List ℕ → List ℤ → List Due
dues genesis main_outputs [] indexes amounts = []
dues genesis main_outputs (address ∷ addresses) [] amounts = []
dues genesis main_outputs (address ∷ addresses) (index ∷ indexes) [] = []
dues genesis main_outputs (address ∷ addresses) (index ∷ indexes) (amount ∷ amounts) =
    elim (get_elem? main_outputs index) [
      | none ↦ dues genesis main_outputs addresses indexes amounts
      | some main_output ↦
          if is_same_address main_output.program_hash genesis
          then (record { main_output = main_output; address = address; amount = amount }
              ∷ dues genesis main_outputs addresses indexes amounts)
          else dues genesis main_outputs addresses indexes amounts
    ]

module _ (genesis : List ℕ) (main_outputs : List Output) (address : List ℕ)
    (addresses : List (List ℕ)) (index : ℕ) (indexes : List ℕ) (amount : ℤ) (amounts : List ℤ)
    (main_output : Output) (at : get_elem? main_outputs index ≡ some main_output) where
  dues-other :
      is_same_address main_output.program_hash genesis ≡ false
      → dues genesis main_outputs (address ∷ addresses) (index ∷ indexes) (amount ∷ amounts)
        ≡ dues genesis main_outputs addresses indexes amounts
  unfolding dues
  dues-other is = rw (at, is, dues) refl

  dues-here :
      is_same_address main_output.program_hash genesis ≡ true
      → dues genesis main_outputs (address ∷ addresses) (index ∷ indexes) (amount ∷ amounts)
        ≡ record { main_output = main_output; address = address; amount = amount }
          ∷ dues genesis main_outputs addresses indexes amounts
  unfolding dues
  dues-here is = rw (at, is, dues) refl

pub target_total-wrap64 :
    (outputs : List Output) (sum : ℤ) {total : ℤ}
    → target_total outputs (wrap64 sum) ≡ ok total
    → total ≡ wrap64 (sum +ℤ sum_ℤ (values outputs))
unfolding target_total
target_total-wrap64 [] sum e = sym (ok-injective e) ∙ ap wrap64 (sym (+ℤ_zero sum))
target_total-wrap64 (output ∷ outputs) sum {total} e =
    let (_, _, rest) = >>=-ok (fail_if (ltb_ℤ output.value (pos 0)) invalid_output_value) _ e in
    let step =
      subst (λ s. target_total outputs s ≡ ok total) (add64-wrap64 sum output.value) rest in
    target_total-wrap64 outputs (sum +ℤ output.value) step
    ∙ ap wrap64 (+ℤ_assoc sum output.value (sum_ℤ (values outputs)))

module _ (converted : ℤ → ℤ) (uint168_from_address : List ℕ → Option (List ℕ)) (min_fee : ℤ) where
  -- The amount of an address is covered by its output on the main chain, and an output of the recharge
  -- pays it.
  abbrev pub IsPaid : List Output → Output → List ℕ → ℤ → Type 0
  IsPaid outputs main_output address amount =
      (pos 0 ≤ℤ amount)
      × (amount ≤ℤ sub64 main_output.value min_fee)
      × (program_hash : List ℕ) × (uint168_from_address address ≡ some program_hash)
      × (is_contained program_hash (converted amount) outputs ≡ true)

  recharge_amount-IsPaid :
      (outputs : List Output) (main_output : Output) (address : List ℕ) (amount : ℤ) {paid : ℤ}
      → recharge_amount converted uint168_from_address min_fee outputs main_output address amount
        ≡ ok paid
      → IsPaid outputs main_output address amount × (paid ≡ converted amount)
  unfolding recharge_amount
  recharge_amount-IsPaid outputs main_output address amount {paid} e =
      let (_, covered, e1) =
        >>=-ok
          (fail_if (ltb_ℤ amount (pos 0) || ltb_ℤ (sub64 main_output.value min_fee) amount)
            invalid_amount)
          _ e in
      let (low, high) =
        in_range amount (sub64 main_output.value min_fee) (fail_if-ok _ _ covered) in
      go low high (uint168_from_address address) refl e1
    where
      go :
          pos 0 ≤ℤ amount
          → amount ≤ℤ sub64 main_output.value min_fee
          → (found : Option (List ℕ)) → uint168_from_address address ≡ found
          → (elim found [
            | none ↦ err invalid_address
            | some program_hash ↦
                fail_if (not (is_contained program_hash (converted amount) outputs)) invalid_outputs
                >> ok (converted amount)
          ])
            ≡ ok paid
          → IsPaid outputs main_output address amount × (paid ≡ converted amount)
      go low high none read e = cc
      go low high (some program_hash) read e =
          let (_, contained, same) =
            >>=-ok
              (fail_if (not (is_contained program_hash (converted amount) outputs)) invalid_outputs)
              _ e in
          (
            (
              low,
              high,
              program_hash,
              read,
              not-false (is_contained program_hash (converted amount) outputs) (
                  fail_if-ok (not (is_contained program_hash (converted amount) outputs)) _
                    contained),
            ),
            sym (ok-injective same),
          )

  module _ (genesis : List ℕ) (outputs main_outputs : List Output) where
    abbrev pub loop : List (List ℕ) → List ℕ → List ℤ → ℤ → Result RechargeError ℤ
    loop = origin_total converted uint168_from_address min_fee genesis outputs main_outputs

    -- What a round ends with whose output on the main chain is this.
    Round : Output → List ℕ → List (List ℕ) → List ℕ → List ℤ → ℤ → ℤ → Type 0
    Round main_output address addresses indexes amounts sum total =
        ((is_same_address main_output.program_hash genesis ≡ false)
          × (loop addresses indexes (drop 1 amounts) sum ≡ ok total))
        ⊎ ((is_same_address main_output.program_hash genesis ≡ true)
            × (amount : ℤ) × (get_elem? amounts 0 ≡ some amount)
            × IsPaid outputs main_output address amount
            × (loop addresses indexes (drop 1 amounts) (add64 sum (converted amount)) ≡ ok total))

    origin_total-Round :
        (address : List ℕ) (addresses : List (List ℕ)) (index : ℕ) (indexes : List ℕ)
        (amounts : List ℤ) (sum : ℤ) {total : ℤ}
        → loop (address ∷ addresses) (index ∷ indexes) amounts sum ≡ ok total
        → (main_output : Output) × (get_elem? main_outputs index ≡ some main_output)
          × Round main_output address addresses indexes amounts sum total
    unfolding origin_total Round
    origin_total-Round address addresses index indexes amounts sum {total} e =
        let (main_output, at, e1) = >>=-ok (or_panic (get_elem? main_outputs index)) _ e in
        (
          main_output,
          or_panic-ok (get_elem? main_outputs index) at,
          go main_output (is_same_address main_output.program_hash genesis) refl e1,
        )
      where
        go :
            (main_output : Output)
            → (t : Bool) → is_same_address main_output.program_hash genesis ≡ t
            → (elim t [
              | true ↦ or_panic (get_elem? amounts 0) >>= λ amount.
                  recharge_amount converted uint168_from_address min_fee outputs main_output address
                    amount
                  >>= λ paid. loop addresses indexes (drop 1 amounts) (add64 sum paid)
              | false ↦ loop addresses indexes (drop 1 amounts) sum
            ])
              ≡ ok total
            → Round main_output address addresses indexes amounts sum total
        go main_output false is e = inl (is, e)
        go main_output true is e =
            let (amount, at, e1) = >>=-ok (or_panic (get_elem? amounts 0)) _ e in
            let (paid, pays, rest) =
              >>=-ok
                (recharge_amount converted uint168_from_address min_fee outputs main_output address
                  amount)
                _ e1 in
            let (is_paid, same) = recharge_amount-IsPaid outputs main_output address amount pays in
            inr (
              is,
              amount,
              or_panic-ok (get_elem? amounts 0) at,
              is_paid,
              subst (λ p. loop addresses indexes (drop 1 amounts) (add64 sum p) ≡ ok total) same
                  rest,
            )

    -- Each that is due is paid, and what it is due, converted, makes the total.
    abbrev pub ArePaid : List Due → ℤ → ℤ → Type 0
    ArePaid ds sum total =
        All (λ (d : Due). IsPaid outputs d.main_output d.address d.amount) ds
        × (total ≡ wrap64 (sum +ℤ sum_ℤ (map (λ (d : Due). converted d.amount) ds)))

    -- Without an amount left nothing is due.
    origin_total-none :
        (addresses : List (List ℕ)) (indexes : List ℕ) (sum : ℤ) {total : ℤ}
        → loop addresses indexes [] sum ≡ ok total
        → total ≡ sum
    unfolding origin_total Round
    origin_total-none [] indexes sum e = sym (ok-injective e)
    origin_total-none (address ∷ addresses) [] sum e = cc
    origin_total-none (address ∷ addresses) (index ∷ indexes) sum e =
        elim (origin_total-Round address addresses index indexes [] sum e).2 [
          | inl (is, rest) ↦ origin_total-none addresses indexes sum rest
          | inr (is, amount, at, _, _) ↦ cc at
        ]

    pub origin_total-ArePaid :
        (addresses : List (List ℕ)) (indexes : List ℕ) (amounts : List ℤ) (sum : ℤ) {total : ℤ}
        → loop addresses indexes amounts (wrap64 sum) ≡ ok total
        → ArePaid (dues genesis main_outputs addresses indexes amounts) sum total
    unfolding origin_total Round dues
    origin_total-ArePaid [] indexes amounts sum e =
        (tt, sym (ok-injective e) ∙ ap wrap64 (sym (+ℤ_zero sum)))
    origin_total-ArePaid (address ∷ addresses) [] amounts sum e = cc
    origin_total-ArePaid (address ∷ addresses) (index ∷ indexes) [] sum e = (
      tt,
      origin_total-none (address ∷ addresses) (index ∷ indexes) (wrap64 sum) e
          ∙ ap wrap64 (sym (+ℤ_zero sum)),
    )
    origin_total-ArePaid (address ∷ addresses) (index ∷ indexes) (amount ∷ amounts) sum {total} e =
        let (main_output, at, round) =
          origin_total-Round address addresses index indexes (amount ∷ amounts) (wrap64 sum) e in
        elim round [
          | inl (is, rest) ↦
              subst (λ ds. ArePaid ds sum total)
                (sym (
                  dues-other genesis main_outputs address addresses index indexes amount amounts
                    main_output at is))
                (origin_total-ArePaid addresses indexes amounts sum rest)
          | inr (is, k, k_at, paid, rest) ↦
              let same : k ≡ amount = some-injective _ _ (sym k_at) in
              let step =
                subst (λ s. loop addresses indexes amounts s ≡ ok total)
                  (ap (λ a. add64 (wrap64 sum) (converted a)) same
                    ∙ add64-wrap64 sum (converted amount))
                  rest in
              let (all, summed) =
                origin_total-ArePaid addresses indexes amounts (sum +ℤ converted amount) step in
              subst (λ ds. ArePaid ds sum total)
                (sym (
                  dues-here genesis main_outputs address addresses index indexes amount amounts
                    main_output at is))
                (
                  (subst (IsPaid outputs main_output address) same paid, all),
                  summed ∙ ap wrap64 (+ℤ_assoc sum (converted amount) _),
                )
        ]
