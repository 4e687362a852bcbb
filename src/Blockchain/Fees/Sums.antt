-- ===== src/Blockchain/Fees/Sums.antt =====
-- The sums that `GetTxFeeMap` of blockchain/txpool.go makes, as plain sums of natural numbers where no
-- sum overflows.
use elastos_ela_side_chain.Common.{
  ℕ, ◌+◌, ◌^◌, ◌<◌, ◌≡◌, refl, ◌∙◌, ap, Bool, false, ◌||◌, none, some, List, [], ◌∷◌, ◌==◌, ==_iff,
  if◌then◌else◌, arith, Bool-cases, Option-cases, inl, inr, All,
}
use elastos_ela_side_chain.Common.Int.{ℤ, pos, negsuc, pos_part, ◌+ℤ◌, ◌≤ℤ◌}
use elastos_ela_side_chain.Common.Table.{
  Table, lookup, lookup-insert, IsDistinct, insert-IsDistinct,
}
use elastos_ela_side_chain.Core.{Output}
use elastos_ela_side_chain.Blockchain.TxValidator.Fixed64.{add64}
use elastos_ela_side_chain.Blockchain.Fees.{add_amount, asset_sums}

-- The values of the outputs of one asset, summed without wrap-around.
abbrev pub total : ℕ → List Output → ℕ
total asset [] = 0
total asset (output ∷ outputs) =
    (if output.asset_id == asset then pos_part output.value else 0) + total asset outputs

abbrev pub has_asset : ℕ → List Output → Bool
has_asset asset [] = false
has_asset asset (output ∷ outputs) = (output.asset_id == asset) || has_asset asset outputs

abbrev pub IsNonnegative : List Output → Type 0
IsNonnegative outputs = All (λ (output : Output). pos 0 ≤ℤ output.value) outputs

add64-exact : (a b : ℕ) → a + b < 2 ^ 63 → add64 (pos a) (pos b) ≡ pos (a + b)
unfolding ◌+ℤ◌
add64-exact a b h = ground arith

nonnegative : (v : ℤ) → pos 0 ≤ℤ v → v ≡ pos (pos_part v)
nonnegative (pos n) h = refl
nonnegative (negsuc n) h = absurd (omega arith)

lookup-add_amount :
    (asset a : ℕ) (value : ℤ) (amounts : Table ℤ)
    → lookup a (add_amount asset value amounts) ≡ (
        if asset == a
        then some (elim (lookup asset amounts) [ some amount ↦ add64 amount value | none ↦ value ])
        else lookup a amounts)
unfolding add_amount
lookup-add_amount asset a value amounts = elim (Option-cases (lookup asset amounts)) [
  | inl e ↦ rw (e, add_amount) (lookup-insert asset a value amounts)
  | inr (amount, e) ↦ rw (e, add_amount) (lookup-insert asset a (add64 amount value) amounts)
]

-- What one output adds to an asset.
abbrev pub share : ℕ → Output → ℕ
share a output = if output.asset_id == a then pos_part output.value else 0

add_amount-some :
    (a n : ℕ) (output : Output) (amounts : Table ℤ)
    → pos 0 ≤ℤ output.value
    → lookup a amounts ≡ some (pos n)
    → n + share a output < 2 ^ 63
    → lookup a (add_amount output.asset_id output.value amounts) ≡ some (pos (n + share a output))
add_amount-some a n output amounts positive found fits = elim (Bool-cases (output.asset_id == a)) [
  | inl e ↦
      let same : output.asset_id ≡ a = (==_iff _ _).0 e in
      let read : lookup output.asset_id amounts ≡ some (pos n) =
        ap (λ k. lookup k amounts) same ∙ found in
      let small : n + pos_part output.value < 2 ^ 63 = ground arith in
      lookup-add_amount output.asset_id a output.value amounts
      ∙ rw (e, read)
          (ap some (
            ap (add64 (pos n)) (nonnegative output.value positive)
            ∙ add64-exact n (pos_part output.value) small))
  | inr e ↦
      let kept : n + 0 ≡ n = omega arith in
      lookup-add_amount output.asset_id a output.value amounts ∙ rw (e, kept) found
]

add_amount-none :
    (a : ℕ) (output : Output) (amounts : Table ℤ)
    → lookup a amounts ≡ none
    → lookup a (add_amount output.asset_id output.value amounts)
      ≡ (if output.asset_id == a then some output.value else none)
add_amount-none a output amounts missing = elim (Bool-cases (output.asset_id == a)) [
  | inl e ↦
      let same : output.asset_id ≡ a = (==_iff _ _).0 e in
      let read : lookup output.asset_id amounts ≡ none =
        ap (λ k. lookup k amounts) same ∙ missing in
      lookup-add_amount output.asset_id a output.value amounts ∙ rw (e, read) refl
  | inr e ↦ lookup-add_amount output.asset_id a output.value amounts ∙ rw e missing
]

-- An asset that is in the table already gains what the outputs hold of it.
asset_sums-some :
    (a n : ℕ) (outputs : List Output) (amounts : Table ℤ)
    → IsNonnegative outputs
    → lookup a amounts ≡ some (pos n)
    → n + total a outputs < 2 ^ 63
    → lookup a (asset_sums outputs amounts) ≡ some (pos (n + total a outputs))
unfolding asset_sums
asset_sums-some a n [] amounts positive found fits =
    let kept : n + 0 ≡ n = omega arith in rw kept found
asset_sums-some a n (output ∷ outputs) amounts positive found fits =
    let round = add_amount-some a n output amounts positive.0 found (omega arith) in
    let sum : n + share a output + total a outputs ≡ n + (share a output + total a outputs) =
      omega arith in
    asset_sums-some a (n + share a output) outputs _ positive.1 round (omega arith)
    ∙ ap (λ k. some (pos k)) sum

-- An asset that is not in the table is there afterwards if an output is of it, with the sum of them.
pub asset_sums-none :
    (a : ℕ) (outputs : List Output) (amounts : Table ℤ)
    → IsNonnegative outputs
    → lookup a amounts ≡ none
    → total a outputs < 2 ^ 63
    → lookup a (asset_sums outputs amounts)
      ≡ (if has_asset a outputs then some (pos (total a outputs)) else none)
unfolding asset_sums
asset_sums-none a [] amounts positive missing fits = missing
asset_sums-none a (output ∷ outputs) amounts positive missing fits =
    elim (Bool-cases (output.asset_id == a)) [
      | inl e ↦
          let read : lookup a (add_amount output.asset_id output.value amounts)
              ≡ some (pos (pos_part output.value)) =
            add_amount-none a output amounts missing
            ∙ rw e (ap some (nonnegative output.value positive.0)) in
          let small : pos_part output.value + total a outputs < 2 ^ 63 = ground arith in
          asset_sums-some a (pos_part output.value) outputs _ positive.1 read small ∙ rw e refl
      | inr e ↦
          let read : lookup a (add_amount output.asset_id output.value amounts) ≡ none =
            add_amount-none a output amounts missing ∙ rw e refl in
          let same : 0 + total a outputs ≡ total a outputs = omega arith in
          asset_sums-none a outputs _ positive.1 read (ground arith) ∙ rw (e, same) refl
    ]

-- Without an output of an asset there is nothing of it.
pub has_asset-total :
    (a : ℕ) (outputs : List Output) → has_asset a outputs ≡ false → total a outputs ≡ 0
has_asset-total a [] h = refl
has_asset-total a (output ∷ outputs) h = ground (arith, has_asset-total a outputs)

add_amount-IsDistinct :
    (asset : ℕ) (value : ℤ) (amounts : Table ℤ)
    → IsDistinct amounts
    → IsDistinct (add_amount asset value amounts)
unfolding add_amount
add_amount-IsDistinct asset value amounts d = elim (Option-cases (lookup asset amounts)) [
  | inl e ↦ rw (e, add_amount) (insert-IsDistinct asset value amounts d)
  | inr (amount, e) ↦ rw (e, add_amount) (insert-IsDistinct asset (add64 amount value) amounts d)
]

pub asset_sums-IsDistinct :
    (outputs : List Output) (amounts : Table ℤ)
    → IsDistinct amounts
    → IsDistinct (asset_sums outputs amounts)
unfolding asset_sums
asset_sums-IsDistinct [] amounts d = d
asset_sums-IsDistinct (output ∷ outputs) amounts d =
    asset_sums-IsDistinct outputs _ (add_amount-IsDistinct output.asset_id output.value amounts d)
