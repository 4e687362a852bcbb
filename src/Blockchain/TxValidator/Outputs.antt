-- ===== src/Blockchain/TxValidator/Outputs.antt =====
-- `CheckTransactionOutput`, `CheckOutputProgramHash` and `CheckAttributeProgram` of
-- blockchain/txvalidator.go. The prefixes, the address of the foundation, the asset of the chain, the
-- product with 0.3, a float, and the hash of a program's code are parameters.
pub mod Sound
mod Tests
use elastos_ela_side_chain.Common.{
  ℕ, zero, suc, Bool, true, false, not, ◌||◌, ◌&&◌, Option, none, some, List, [], ◌∷◌, length, ◌==◌,
  ltb, if◌then◌else◌,
}
use elastos_ela_side_chain.Common.Int.{ℤ, pos, ltb_ℤ}
use elastos_ela_side_chain.Common.Result.{Result, ok, err, ◌>>=◌, ◌>>◌, fail_if}
use elastos_ela_side_chain.Core.{
  Output, Attribute, Program, Transaction, is_coin_base_tx, is_recharge_to_side_chain_tx,
}
use elastos_ela_side_chain.Blockchain.TxValidator.Fixed64.{add64}
use elastos_ela_side_chain.Blockchain.TxValidator.CrossChain.{is_empty_hash}
use elastos_ela_side_chain.Blockchain.Fees.{is_same_address}

-- The errors, one for each message.
pub data OutputError : Type 0 where
  few_coinbase_outputs invalid_coinbase_asset low_foundation_reward no_outputs : OutputError
  invalid_asset invalid_output_address : OutputError

pub record Prefixes : Type 0 where
  pub standard : ℕ
  pub multisig : ℕ
  pub cross_chain : ℕ
  pub register_id : ℕ

-- `CheckOutputProgramHash`
unfoldable pub check_output_program_hash : Prefixes → List ℕ → Bool
check_output_program_hash p [] = true
check_output_program_hash p (prefix ∷ bytes) =
    (((prefix == p.standard) || (prefix == p.multisig))
      || ((prefix == p.cross_chain) || (prefix == p.register_id)))
    || is_empty_hash (prefix ∷ bytes)

-- What the outputs of a coinbase pay, in all and to the foundation.
pub record Rewards : Type 0 where
  pub total_reward : ℤ
  pub foundation_reward : ℤ

-- The loop over the outputs of a coinbase.
unfoldable pub coinbase_rewards : ℕ → List ℕ → List Output → Rewards → Result OutputError Rewards
coinbase_rewards asset foundation [] rewards = ok rewards
coinbase_rewards asset foundation (output ∷ outputs) rewards =
    fail_if (not (output.asset_id == asset)) invalid_coinbase_asset
    >> coinbase_rewards asset foundation outputs (record {
      total_reward = add64 rewards.total_reward output.value;
      foundation_reward =
          if is_same_address output.program_hash foundation
          then add64 rewards.foundation_reward output.value
          else rewards.foundation_reward;
    })

-- The loop over the outputs of any other transaction.
unfoldable pub check_outputs : Prefixes → ℕ → List Output → Result OutputError (Unit {0})
check_outputs p asset [] = ok tt
check_outputs p asset (output ∷ outputs) =
    fail_if (not (output.asset_id == asset)) invalid_asset
    >> (fail_if (not (check_output_program_hash p output.program_hash)) invalid_output_address
        >> check_outputs p asset outputs)

-- `CheckTransactionOutput`
unfoldable pub check_transaction_output :
    Prefixes → ℕ → List ℕ → (ℤ → ℤ) → Transaction → Result OutputError (Unit {0})
check_transaction_output p asset foundation three_tenths tx =
    if is_coin_base_tx tx
    then (fail_if (ltb (length tx.outputs) 2) few_coinbase_outputs
        >> (coinbase_rewards asset foundation tx.outputs
              (record { total_reward = pos 0; foundation_reward = pos 0 })
            >>= λ rewards.
                fail_if (ltb_ℤ rewards.foundation_reward (three_tenths rewards.total_reward))
                  low_foundation_reward))
    else if is_recharge_to_side_chain_tx tx
    then ok tt
    else (fail_if (ltb (length tx.outputs) 1) no_outputs >> check_outputs p asset tx.outputs)

pub data ProgramError : Type 0 where
  invalid_usage nil_code nil_parameter invalid_code : ProgramError

-- `IsValidAttributeType`
abbrev pub is_valid_attribute_type : ℕ → Bool
is_valid_attribute_type usage =
    ((usage == 0x00) || (usage == 0x20))
    || ((usage == 0x81) || ((usage == 0x90) || (usage == 0x91)))

unfoldable pub check_attributes : List Attribute → Result ProgramError (Unit {0})
check_attributes [] = ok tt
check_attributes (attribute ∷ attributes) =
    fail_if (not (is_valid_attribute_type attribute.usage)) invalid_usage
    >> check_attributes attributes

-- The loop over the programs.
unfoldable pub check_programs :
    (List ℕ → Option (List ℕ)) → List Program → Result ProgramError (Unit {0})
check_programs to_program_hash [] = ok tt
check_programs to_program_hash (program ∷ programs) = elim program.code [
  | none ↦ err nil_code
  | some code ↦ elim program.parameter [
    | none ↦ err nil_parameter
    | some parameter ↦ elim (to_program_hash code) [
      | none ↦ err invalid_code
      | some hash ↦ check_programs to_program_hash programs
    ]
  ]
]

-- `CheckAttributeProgram`
unfoldable pub check_attribute_program :
    (List ℕ → Option (List ℕ)) → Transaction → Result ProgramError (Unit {0})
check_attribute_program to_program_hash tx =
    check_attributes tx.attributes >> check_programs to_program_hash tx.programs
