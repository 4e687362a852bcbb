-- ===== src/Blockchain/TxValidator/Ledger/Locks.antt =====
-- What the checks against the store say of an input and of a reference.
use mathlib.Core.Option.{some-injective}
use elastos_ela_side_chain.Common.{
  ℕ, ◌-◌, ◌^◌, ◌≤◌, ◌≡◌, refl, sym, subst, ◌∙◌, Bool, true, false, not, not-false, not_ltb, ◌&&◌,
  ◌⊎◌, inl, inr, Option, none, some, List, [], ◌∷◌, length, map, get_elem?, ◌==◌, ==_iff, ltb,
  if◌then◌else◌, All, All-get_elem?,
}
use elastos_ela_side_chain.Common.Int.{pos, ltb_ℤ, ◌≤ℤ◌, not_less}
use elastos_ela_side_chain.Common.Result.{
  ok, err, ◌>>=◌, ◌>>◌, fail_if, or_panic, >>=-ok, fail_if-ok, or_panic-ok,
}
use elastos_ela_side_chain.Core.{Input, Output, Transaction, is_coin_base_tx}
use elastos_ela_side_chain.Blockchain.TxReference.{
  Store, get_tx_reference, input_references, referenced_output,
}
use elastos_ela_side_chain.Blockchain.TxPool.{rejected}
use elastos_ela_side_chain.Blockchain.Retarget.{sub32}
use elastos_ela_side_chain.Blockchain.Fees.Sums.{IsNonnegative}
use elastos_ela_side_chain.Blockchain.TxValidator.CrossChain.{is_member}
use elastos_ela_side_chain.Blockchain.TxValidator.Ledger.{
  no_inputs, invalid_sequence, locked, check_locks, check_transaction_utxo_lock, is_double_spend,
  check_referenced,
}

-- The output has no lock, or the input says so and the transaction's lock time has reached it.
abbrev pub IsUnlocked : ℕ → Input × Output → Type 0
IsUnlocked lock_time reference =
    (reference.1.output_lock ≡ 0)
    ⊎ ((reference.0.sequence ≡ 2 ^ 32 - 2) × (reference.1.output_lock ≤ lock_time))

check_locks-IsUnlocked :
    (lock_time : ℕ) (references : List (Input × Output))
    → check_locks lock_time references ≡ ok tt
    → All (IsUnlocked lock_time) references
unfolding check_locks
check_locks-IsUnlocked lock_time [] e = tt
check_locks-IsUnlocked lock_time ((input, output) ∷ references) e =
    go (output.output_lock == 0) refl e (check_locks-IsUnlocked lock_time references)
  where
    go :
        (free : Bool)
        → (output.output_lock == 0) ≡ free
        → (if free
            then check_locks lock_time references
            else (fail_if (not (input.sequence == 2 ^ 32 - 2)) invalid_sequence
                >> (fail_if (ltb lock_time output.output_lock) locked
                    >> check_locks lock_time references)))
          ≡ ok tt
        → (check_locks lock_time references ≡ ok tt → All (IsUnlocked lock_time) references)
        → All (IsUnlocked lock_time) ((input, output) ∷ references)
    go true is e rest = (inl ((==_iff _ _).0 is), rest e)
    go false is e rest =
        let (_, last, e1) =
          >>=-ok (fail_if (not (input.sequence == 2 ^ 32 - 2)) invalid_sequence) _ e in
        let (_, reached, e2) = >>=-ok (fail_if (ltb lock_time output.output_lock) locked) _ e1 in
        (
          inr (
            (==_iff _ _).0 (
                not-false (input.sequence == 2 ^ 32 - 2)
                  (fail_if-ok (not (input.sequence == 2 ^ 32 - 2)) _ last)),
            not_ltb lock_time output.output_lock
                (fail_if-ok (ltb lock_time output.output_lock) _ reached),
          ),
          rest e2,
        )

check_transaction_utxo_lock-regular :
    (store : Store) (tx : Transaction) {references : List (Input × Output)}
    → is_coin_base_tx tx ≡ false
    → get_tx_reference store tx ≡ some references
    → check_transaction_utxo_lock store tx
      ≡ (fail_if (length tx.inputs == 0) no_inputs >> check_locks tx.lock_time references)
unfolding check_transaction_utxo_lock
check_transaction_utxo_lock-regular store tx regular found = rw (regular, found) refl

-- Each reference of a transaction that passes is unlocked.
pub check_transaction_utxo_lock-IsUnlocked :
    (store : Store) (tx : Transaction) (references : List (Input × Output)) (i : ℕ)
    (reference : Input × Output)
    → is_coin_base_tx tx ≡ false
    → check_transaction_utxo_lock store tx ≡ ok tt
    → get_tx_reference store tx ≡ some references
    → get_elem? references i ≡ some reference
    → IsUnlocked tx.lock_time reference
check_transaction_utxo_lock-IsUnlocked store tx references i reference regular e found at =
    let (_, _, checked) =
      >>=-ok (fail_if (length tx.inputs == 0) no_inputs) _
        (sym (check_transaction_utxo_lock-regular store tx regular found) ∙ e) in
    All-get_elem? (IsUnlocked tx.lock_time) references i
      (check_locks-IsUnlocked tx.lock_time references checked) at

-- The output that an input spends is among the unspent ones.
abbrev pub IsUnspent : (ℕ → Option (List ℕ)) → Input → Type 0
IsUnspent unspent input =
    (indexes : List ℕ) × (unspent input.previous.tx_id ≡ some indexes)
    × (is_member input.previous.index indexes ≡ true)

pub is_double_spend-IsUnspent :
    (unspent : ℕ → Option (List ℕ)) (inputs : List Input)
    → is_double_spend unspent inputs ≡ false
    → All (IsUnspent unspent) inputs
unfolding is_double_spend
is_double_spend-IsUnspent unspent [] e = tt
is_double_spend-IsUnspent unspent (input ∷ inputs) e =
    go (unspent input.previous.tx_id) refl e (is_double_spend-IsUnspent unspent inputs)
  where
    go :
        (found : Option (List ℕ))
        → unspent input.previous.tx_id ≡ found
        → (elim found [
          | none ↦ true
          | some indexes ↦
              if is_member input.previous.index indexes
              then is_double_spend unspent inputs
              else true
        ])
          ≡ false
        → (is_double_spend unspent inputs ≡ false → All (IsUnspent unspent) inputs)
        → All (IsUnspent unspent) (input ∷ inputs)
    go none read e rest = cc
    go (some indexes) read e rest = member (is_member input.previous.index indexes) refl e
      where
        member :
            (t : Bool)
            → is_member input.previous.index indexes ≡ t
            → (if t then is_double_spend unspent inputs else true) ≡ false
            → All (IsUnspent unspent) (input ∷ inputs)
        member true is e = ((indexes, read, is), rest e)
        member false is e = cc

-- The output is there, has no negative value, and, if it is one of a coinbase, the uint32 difference of
-- the height and that one's lock time is at least the span: the difference wraps around.
abbrev pub IsMature : Store → ℕ → ℕ → Input → Type 0
IsMature store height span input =
    (referred : Transaction) × (output : Output) × (store input.previous.tx_id ≡ some referred)
    × (get_elem? referred.outputs input.previous.index ≡ some output)
    × (pos 0 ≤ℤ output.value)
    × ((is_coin_base_tx referred ≡ false) ⊎ (span ≤ sub32 height referred.lock_time))

pub check_referenced-IsMature :
    (store : Store) (height span : ℕ) (inputs : List Input)
    → check_referenced store height span inputs ≡ ok tt
    → All (IsMature store height span) inputs
unfolding check_referenced
check_referenced-IsMature store height span [] e = tt
check_referenced-IsMature store height span (input ∷ inputs) e =
    go (store input.previous.tx_id) refl e (check_referenced-IsMature store height span inputs)
  where
    mature :
        (coinbase : Bool) (age : ℕ)
        → (coinbase && ltb age span) ≡ false
        → (coinbase ≡ false) ⊎ (span ≤ age)
    mature false age h = inl refl
    mature true age h = inr (not_ltb age span h)

    go :
        (found : Option Transaction)
        → store input.previous.tx_id ≡ found
        → (elim found [
          | none ↦ err (rejected 45016)
          | some referred ↦ or_panic (get_elem? referred.outputs input.previous.index) >>= λ output.
              fail_if (ltb_ℤ output.value (pos 0)) (rejected 45017)
              >> (fail_if
                    (is_coin_base_tx referred && ltb (sub32 height referred.lock_time) span)
                    (rejected 45018)
                  >> check_referenced store height span inputs)
        ])
          ≡ ok tt
        → (check_referenced store height span inputs ≡ ok tt
            → All (IsMature store height span) inputs)
        → All (IsMature store height span) (input ∷ inputs)
    go none read e rest = cc
    go (some referred) read e rest =
        let (output, at, e1) =
          >>=-ok (or_panic (get_elem? referred.outputs input.previous.index)) _ e in
        let (_, value, e2) = >>=-ok (fail_if (ltb_ℤ output.value (pos 0)) (rejected 45017)) _ e1 in
        let (_, age, e3) =
          >>=-ok
            (fail_if (is_coin_base_tx referred && ltb (sub32 height referred.lock_time) span)
              (rejected 45018))
            _ e2 in
        (
          (
            referred,
            output,
            read,
            or_panic-ok (get_elem? referred.outputs input.previous.index) at,
            not_less (pos 0) output.value (fail_if-ok (ltb_ℤ output.value (pos 0)) _ value),
            mature (is_coin_base_tx referred) (sub32 height referred.lock_time) (
                fail_if-ok (is_coin_base_tx referred && ltb (sub32 height referred.lock_time) span)
                  _ age),
          ),
          rest e3,
        )

referenced_output-some :
    (store : Store) (input : Input) {referred : Transaction} {output : Output}
    → store input.previous.tx_id ≡ some referred
    → get_elem? referred.outputs input.previous.index ≡ some output
    → referenced_output store input ≡ some output
unfolding referenced_output
referenced_output-some store input read at = rw (read, referenced_output) at

-- Where every output that is spent has no negative value, the references have none.
pub check_referenced-IsNonnegative :
    (store : Store) (height span : ℕ) (inputs : List Input) {references : List (Input × Output)}
    → All (IsMature store height span) inputs
    → input_references store inputs ≡ some references
    → IsNonnegative (map (λ reference. reference.1) references)
unfolding input_references
check_referenced-IsNonnegative store height span [] m e =
    subst (λ (r : List (Input × Output)). IsNonnegative (map (λ reference. reference.1) r))
      (some-injective _ _ e) tt
check_referenced-IsNonnegative store height span (input ∷ inputs) {references} m e =
    let (referred, output, read, at, positive, _) = m.0 in
    go output positive (referenced_output store input) (referenced_output-some store input read at)
      (input_references store inputs) refl e
      (λ r. check_referenced-IsNonnegative store height span inputs {references = r} m.1)
  where
    go :
        (output : Output)
        → pos 0 ≤ℤ output.value
        → (found : Option Output) → found ≡ some output
        → (rest : Option (List (Input × Output))) → input_references store inputs ≡ rest
        → (elim found [
          | none ↦ none
          | some o ↦ elim rest [ none ↦ none | some r ↦ some ((input, o) ∷ r) ]
        ])
          ≡ some references
        → ((r : List (Input × Output))
            → input_references store inputs ≡ some r
            → IsNonnegative (map (λ reference. reference.1) r))
        → IsNonnegative (map (λ reference. reference.1) references)
    go output positive none same rest is e ih = cc
    go output positive (some o) same none is e ih = cc
    go output positive (some o) same (some r) is e ih =
        subst (λ (l : List (Input × Output)). IsNonnegative (map (λ reference. reference.1) l))
          (some-injective _ _ e)
          (
            subst (λ (k : Output). pos 0 ≤ℤ k.value) (sym (some-injective _ _ same)) positive,
            ih r is,
          )
