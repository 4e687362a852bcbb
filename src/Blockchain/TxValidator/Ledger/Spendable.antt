-- ===== src/Blockchain/TxValidator/Ledger/Spendable.antt =====
-- When the check of the referenced outputs in `CheckTransactionContext` of blockchain/txvalidator.go
-- passes: the age of a coinbase is a difference of two uint32 numbers.
use elastos_ela_side_chain.Common.{
  ℕ, ◌↔◌, Bool-cases, All-map, ◌+◌, ◌<◌, arith, ◌^◌, ◌≤◌, ◌≡◌, refl, false, ◌&&◌, ◌⊎◌, inl, inr,
  some, List, [], ◌∷◌, get_elem?, ltb, All,
}
use elastos_ela_side_chain.Common.Int.{pos, ltb_ℤ, ◌≤ℤ◌}
use elastos_ela_side_chain.Common.Result.{ok}
use elastos_ela_side_chain.Core.{Input, Output, Transaction, is_coin_base_tx}
use elastos_ela_side_chain.Blockchain.TxReference.{Store}
use elastos_ela_side_chain.Blockchain.Retarget.{sub32}
use elastos_ela_side_chain.Blockchain.TxValidator.Ledger.{check_referenced}
use elastos_ela_side_chain.Blockchain.TxValidator.Ledger.Locks.{IsMature, check_referenced-IsMature}

-- The output is there, has no negative value, and, if it is one of a coinbase, the height is at least
-- the span above that one's lock time, or below it by at most 2 ^ 32 less the span.
abbrev pub IsSpendable : Store → ℕ → ℕ → Input → Type 0
IsSpendable store height span input =
    (referred : Transaction) × (output : Output) × (store input.previous.tx_id ≡ some referred)
    × (get_elem? referred.outputs input.previous.index ≡ some output)
    × (pos 0 ≤ℤ output.value)
    × ((is_coin_base_tx referred ≡ false)
        ⊎ (referred.lock_time + span ≤ height)
        ⊎ ((height < referred.lock_time) × (referred.lock_time + span ≤ height + 2 ^ 32)))

sub32-wraps :
    (height lock_time span : ℕ)
    → height < 2 ^ 32
    → lock_time < 2 ^ 32
    → (span ≤ sub32 height lock_time) ↔ (
        (lock_time + span ≤ height) ⊎ ((height < lock_time) × (lock_time + span ≤ height + 2 ^ 32)))
sub32-wraps height lock_time span small fits = (
  λ h. elim (Bool-cases (ltb height lock_time)) [
    | inl above ↦ inr (ground arith, ground arith)
    | inr below ↦ inl (ground arith)
  ],
  λ h. elim h [ inl reached ↦ ground arith | inr (above, within) ↦ ground arith ],
)

module _ (store : Store) (height span : ℕ) (small : height < 2 ^ 32)
    (fits : (hash : ℕ) (tx : Transaction) → store hash ≡ some tx → tx.lock_time < 2 ^ 32) where
  IsMature-IsSpendable :
      (input : Input) → IsMature store height span input → IsSpendable store height span input
  IsMature-IsSpendable input (referred, output, read, at, value, age) = (
    referred,
    output,
    read,
    at,
    value,
    elim age [
      | inl regular ↦ inl regular
      | inr old ↦
          inr ((sub32-wraps height referred.lock_time span small (fits _ referred read)).0 old)
    ],
  )

  not_young :
      (referred : Transaction)
      → referred.lock_time < 2 ^ 32
      → (is_coin_base_tx referred ≡ false)
        ⊎ (referred.lock_time + span ≤ height)
        ⊎ ((height < referred.lock_time) × (referred.lock_time + span ≤ height + 2 ^ 32))
      → (is_coin_base_tx referred && ltb (sub32 height referred.lock_time) span) ≡ false
  not_young referred fits_lem (inl regular) = rw regular refl
  not_young referred fits_lem (inr old) =
      let age = (sub32-wraps height referred.lock_time span small fits_lem).1 old in ground arith

  IsSpendable-check_referenced :
      (inputs : List Input)
      → All (IsSpendable store height span) inputs
      → check_referenced store height span inputs ≡ ok tt
  unfolding check_referenced
  IsSpendable-check_referenced [] spendable = refl
  IsSpendable-check_referenced (input ∷ inputs) spendable =
      let (referred, output, read, at, value, age) = spendable.0 in
      let positive : ltb_ℤ output.value (pos 0) ≡ false = ground arith in
      let old = not_young referred (fits _ referred read) age in
      rw (read, at, positive, old, check_referenced)
        (IsSpendable-check_referenced inputs spendable.1)

  -- Where the height and the lock times in the store are below 2 ^ 32, the check of the referenced outputs
  -- in `CheckTransactionContext` passes exactly if each of them is there, has no negative value, and,
  -- if it is one of a coinbase, the height is at least the span above that one's lock time, or below
  -- the lock time by at most 2 ^ 32 less the span.
  pub check_referenced-IsSpendable :
      (inputs : List Input)
      → (check_referenced store height span inputs ≡ ok tt)
        ↔ All (IsSpendable store height span) inputs
  check_referenced-IsSpendable inputs = (
    λ e. All-map inputs IsMature-IsSpendable (check_referenced-IsMature store height span inputs e),
    IsSpendable-check_referenced inputs,
  )
