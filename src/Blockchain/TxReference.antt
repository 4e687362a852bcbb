-- ===== src/Blockchain/TxReference.antt =====
-- blockchain/chainstore.go: the outputs that the inputs of a transaction refer to.
use elastos_ela_side_chain.Common.{ℕ, Option, none, some, List, [], ◌∷◌, get_elem?, if◌then◌else◌}
use elastos_ela_side_chain.Core.{Input, Output, Transaction, is_register_asset_tx}

-- `GetTransaction`: the transactions that the store holds, by their hashes.
abbrev pub Store : Type 0
Store = ℕ → Option Transaction

-- One input: the previous transaction must be found, and the index must be in range.
unfoldable pub referenced_output : Store → Input → Option Output
referenced_output store input = elim (store input.previous.tx_id) [
  | none ↦ none
  | some previous ↦ get_elem? previous.outputs input.previous.index
]

unfoldable pub input_references : Store → List Input → Option (List (Input × Output))
input_references store [] = some []
input_references store (input ∷ inputs) =
    let rest = input_references store inputs in
    elim (referenced_output store input) [
      | none ↦ none
      | some output ↦ elim rest [
        | none ↦ none
        | some references ↦ some ((input, output) ∷ references)
      ]
    ]

-- `GetTxReference`. The Go map has the input pointers for keys, so inputs that are equal are two
-- entries of it, as they are here.
unfoldable pub get_tx_reference : Store → Transaction → Option (List (Input × Output))
unfolding input_references referenced_output
get_tx_reference store tx =
    if is_register_asset_tx tx then some [] else input_references store tx.inputs
