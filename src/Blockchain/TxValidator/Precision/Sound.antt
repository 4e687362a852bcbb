-- ===== src/Blockchain/TxValidator/Precision/Sound.antt =====
-- What the values are of a transaction that passes `CheckAssetPrecision`: the grouping by assets loses
-- no output.
use mathlib.Core.Option.{some-injective}
use elastos_ela_side_chain.Common.{
  ℕ, zero, suc, ◌≡◌, refl, sym, ◌∙◌, ap, subst, Bool, true, false, not, not-false, Option, none,
  some, List, [], ◌∷◌, ◌++◌, length, get_elem?, ◌==◌, ==_iff, if◌then◌else◌, arith, All,
  All-get_elem?, Bool-cases, inl, inr,
}
use elastos_ela_side_chain.Common.Result.{ok, err, ◌>>◌, fail_if, >>=-ok, fail_if-ok}
use elastos_ela_side_chain.Common.Table.{Table, lookup, insert, lookup-insert}
use elastos_ela_side_chain.Core.{Output, Transaction}
use elastos_ela_side_chain.Blockchain.TxValidator.Precision.{
  unknown_asset, incorrect_precision, check_amount_precise, group_outputs, check_group,
  check_groups, check_asset_precision,
}

-- The asset is known, and the value is a multiple of its least unit.
abbrev pub IsPrecise : (ℕ → Option ℕ) → Output → Type 0
IsPrecise get_asset output =
    (precision : ℕ) × (get_asset output.asset_id ≡ some precision)
    × (check_amount_precise output.value precision ≡ true)

-- The output stands in the group of its asset.
abbrev IsGrouped : Table (List Output) → Output → Type 0
IsGrouped groups output =
    (group : List Output) × (lookup output.asset_id groups ≡ some group)
    × (i : ℕ) × (get_elem? group i ≡ some output)

get_elem?-append_left :
    (xs ys : List Output) (i : ℕ) {x : Output}
    → get_elem? xs i ≡ some x
    → get_elem? (xs ++ ys) i ≡ some x
get_elem?-append_left [] ys i e = cc
get_elem?-append_left (y ∷ xs) ys zero e = e
get_elem?-append_left (y ∷ xs) ys (suc i) e = get_elem?-append_left xs ys i e

get_elem?-append_last :
    (xs : List Output) (x : Output) → get_elem? (xs ++ (x ∷ [])) (length xs) ≡ some x
get_elem?-append_last [] x = refl
get_elem?-append_last (y ∷ xs) x = get_elem?-append_last xs x

-- One round of the grouping.
abbrev add_to_group : Output → Table (List Output) → Table (List Output)
add_to_group output groups = elim (lookup output.asset_id groups) [
  | none ↦ insert output.asset_id (output ∷ []) groups
  | some group ↦ insert output.asset_id (group ++ (output ∷ [])) groups
]

add_to_group-new :
    (output : Output) (groups : Table (List Output)) → IsGrouped (add_to_group output groups) output
add_to_group-new output groups = go (lookup output.asset_id groups)
  where
    self :
        (group : List Output)
        → lookup output.asset_id (insert output.asset_id group groups) ≡ some group
    self group =
        lookup-insert output.asset_id output.asset_id group groups
        ∙ ground (arith, ==_iff output.asset_id output.asset_id)

    go :
        (found : Option (List Output))
        → IsGrouped
            (elim found [
              | none ↦ insert output.asset_id (output ∷ []) groups
              | some group ↦ insert output.asset_id (group ++ (output ∷ [])) groups
            ])
            output
    go none = (output ∷ [], self (output ∷ []), 0, refl)
    go (some group) = (
      group ++ (output ∷ []),
      self (group ++ (output ∷ [])),
      length group,
      get_elem?-append_last group output,
    )

add_to_group-IsGrouped :
    (output : Output) (groups : Table (List Output)) (o : Output)
    → IsGrouped groups o
    → IsGrouped (add_to_group output groups) o
add_to_group-IsGrouped output groups o (group, at, i, here) =
    elim (Bool-cases (output.asset_id == o.asset_id)) [
      | inl e ↦
          let same : output.asset_id ≡ o.asset_id = (==_iff _ _).0 e in
          let read : lookup output.asset_id groups ≡ some group =
            ap (λ k. lookup k groups) same ∙ at in
          rw (read, add_to_group)
            (
              group ++ (output ∷ []),
              lookup-insert output.asset_id o.asset_id (group ++ (output ∷ [])) groups ∙ rw e refl,
              i,
              get_elem?-append_left group (output ∷ []) i here,
            )
      | inr e ↦ other e (lookup output.asset_id groups)
    ]
  where
    other :
        (output.asset_id == o.asset_id) ≡ false
        → (found : Option (List Output))
        → IsGrouped
            (elim found [
              | none ↦ insert output.asset_id (output ∷ []) groups
              | some g ↦ insert output.asset_id (g ++ (output ∷ [])) groups
            ])
            o
    other e none =
        (group, lookup-insert output.asset_id o.asset_id (output ∷ []) groups ∙ rw e at, i, here)
    other e (some g) = (
      group,
      lookup-insert output.asset_id o.asset_id (g ++ (output ∷ [])) groups ∙ rw e at,
      i,
      here,
    )

group_outputs-keeps :
    (outputs : List Output) (groups : Table (List Output)) (o : Output)
    → IsGrouped groups o
    → IsGrouped (group_outputs outputs groups) o
unfolding group_outputs
group_outputs-keeps [] groups o h = h
group_outputs-keeps (output ∷ outputs) groups o h =
    group_outputs-keeps outputs _ o (add_to_group-IsGrouped output groups o h)

group_outputs-IsGrouped :
    (outputs : List Output) (groups : Table (List Output)) (i : ℕ) (o : Output)
    → get_elem? outputs i ≡ some o
    → IsGrouped (group_outputs outputs groups) o
unfolding group_outputs
group_outputs-IsGrouped [] groups i o at = cc
group_outputs-IsGrouped (output ∷ outputs) groups zero o at =
    subst (IsGrouped (group_outputs outputs (add_to_group output groups))) (some-injective _ _ at)
      (group_outputs-keeps outputs _ output (add_to_group-new output groups))
group_outputs-IsGrouped (output ∷ outputs) groups (suc i) o at =
    group_outputs-IsGrouped outputs _ i o at

check_group-precise :
    (precision : ℕ) (outputs : List Output)
    → check_group precision outputs ≡ ok tt
    → All (λ (output : Output). check_amount_precise output.value precision ≡ true) outputs
unfolding check_group
check_group-precise precision [] e = tt
check_group-precise precision (output ∷ outputs) e =
    let (_, exact, rest) =
      >>=-ok (fail_if (not (check_amount_precise output.value precision)) incorrect_precision) _
        e in
    (
      not-false (check_amount_precise output.value precision)
          (fail_if-ok (not (check_amount_precise output.value precision)) _ exact),
      check_group-precise precision outputs rest,
    )

-- The group of a key passes with the precision of its asset.
check_groups-lookup :
    (get_asset : ℕ → Option ℕ) (groups : Table (List Output)) (k : ℕ) {group : List Output}
    → check_groups get_asset groups ≡ ok tt
    → lookup k groups ≡ some group
    → (precision : ℕ) × (get_asset k ≡ some precision) × (check_group precision group ≡ ok tt)
unfolding check_groups lookup
check_groups-lookup get_asset [] k e at = cc
check_groups-lookup get_asset (entry ∷ groups) k {group} e at =
    go (get_asset entry.0) refl (entry.0 == k) refl e at
      (λ rest. check_groups-lookup get_asset groups k rest)
  where
    go :
        (found : Option ℕ)
        → get_asset entry.0 ≡ found
        → (t : Bool) → (entry.0 == k) ≡ t
        → (elim found [
          | none ↦ err unknown_asset
          | some precision ↦ check_group precision entry.1 >> check_groups get_asset groups
        ])
          ≡ ok tt
        → (if t then some entry.1 else lookup k groups) ≡ some group
        → (check_groups get_asset groups ≡ ok tt
            → lookup k groups ≡ some group
            → (precision : ℕ) × (get_asset k ≡ some precision)
              × (check_group precision group ≡ ok tt))
        → (precision : ℕ) × (get_asset k ≡ some precision) × (check_group precision group ≡ ok tt)
    go none asset t is e at ih = cc
    go (some precision) asset true is e at ih =
        let (_, passes, _) = >>=-ok (check_group precision entry.1) _ e in
        (
          precision,
          ap get_asset (sym ((==_iff _ _).0 is)) ∙ asset,
          ap (check_group precision) (sym (some-injective _ _ at)) ∙ passes,
        )
    go (some precision) asset false is e at ih =
        let (_, _, rest) = >>=-ok (check_group precision entry.1) _ e in ih rest at

-- In a transaction that passes `CheckAssetPrecision`, the asset of each output is known to the store
-- and the value of the output is a multiple of the asset's unit.
pub check_asset_precision-IsPrecise :
    (get_asset : ℕ → Option ℕ) (tx : Transaction) (i : ℕ) (output : Output)
    → check_asset_precision get_asset tx ≡ ok tt
    → get_elem? tx.outputs i ≡ some output
    → IsPrecise get_asset output
unfolding check_asset_precision
check_asset_precision-IsPrecise get_asset tx i output e at =
    let (group, found, j, here) = group_outputs-IsGrouped tx.outputs [] i output at in
    let (precision, asset, passes) =
      check_groups-lookup get_asset (group_outputs tx.outputs []) output.asset_id e found in
    (
      precision,
      asset,
      All-get_elem? (λ (o : Output). check_amount_precise o.value precision ≡ true) group j
          (check_group-precise precision group passes) here,
    )
