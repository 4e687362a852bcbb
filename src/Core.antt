-- ===== src/Core.antt =====
-- core/: transactions as the consensus rules and the pool read them. A hash is a number that is
-- only compared; `Hash()` of a transaction, a double SHA-256 of its bytes, is the field `hash`.
use elastos_ela_side_chain.Common.{ℕ, Bool, true, false, Option, List}
use elastos_ela_side_chain.Common.Int.{ℤ}

pub record OutPoint : Type 0 where
  pub tx_id : ℕ
  pub index : ℕ

pub record Input : Type 0 where
  pub previous : OutPoint
  pub sequence : ℕ

pub record Output : Type 0 where
  pub asset_id : ℕ
  pub value : ℤ
  pub output_lock : ℕ
  pub program_hash : List ℕ

-- `TransactionType`
pub data TransactionType : Type 0 where
  coin_base register_asset transfer_asset record_type deploy side_chain_pow : TransactionType
  recharge_to_side_chain withdraw_from_side_chain transfer_cross_chain_asset : TransactionType
  register_identification : TransactionType

-- `PayloadTransferCrossChainAsset`
pub record PayloadTransferCrossChainAsset : Type 0 where
  pub cross_chain_addresses : List (List ℕ)
  pub output_indexes : List ℕ
  pub cross_chain_amounts : List ℤ

-- A payload of a recharge is what `GetMainchainTxHash` reads from it: the hash of the main chain
-- transaction, or nothing where its bytes do not decode. One that registers an asset is its precision
-- and its amount. `other_payload` is any other type that the checks know, and `unknown_payload` one
-- that they do not.
pub data Payload : Type 0 where
  recharge : Option ℕ → Payload
  transfer_cross_chain : PayloadTransferCrossChainAsset → Payload
  register_asset_payload : ℕ → ℤ → Payload
  other_payload unknown_payload : Payload

-- `Attribute`, without its bytes.
pub record Attribute : Type 0 where
  pub usage : ℕ

-- `Program`: a slice may be nil.
pub record Program : Type 0 where
  pub code : Option (List ℕ)
  pub parameter : Option (List ℕ)

pub record Transaction : Type 0 where
  pub hash : ℕ
  pub tx_type : TransactionType
  pub payload : Payload
  pub inputs : List Input
  pub outputs : List Output
  pub lock_time : ℕ
  pub attributes : List Attribute
  pub programs : List Program

abbrev pub is_coin_base_tx : Transaction → Bool
is_coin_base_tx tx = elim tx.tx_type [ TransactionType.coin_base ↦ true | _ ↦ false ]

abbrev pub is_register_asset_tx : Transaction → Bool
is_register_asset_tx tx = elim tx.tx_type [ TransactionType.register_asset ↦ true | _ ↦ false ]

abbrev pub is_recharge_to_side_chain_tx : Transaction → Bool
is_recharge_to_side_chain_tx tx = elim tx.tx_type [
  | TransactionType.recharge_to_side_chain ↦ true
  | _ ↦ false
]

abbrev pub is_transfer_cross_chain_asset_tx : Transaction → Bool
is_transfer_cross_chain_asset_tx tx = elim tx.tx_type [
  | TransactionType.transfer_cross_chain_asset ↦ true
  | _ ↦ false
]
