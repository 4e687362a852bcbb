-- ===== src/Blockchain/TxValidator.antt =====
-- blockchain/txvalidator.go: the checks of a transaction.
pub mod Fixed64
pub mod Inputs
pub mod CrossChain
pub mod Outputs
pub mod Precision
pub mod Recharge
pub mod Ledger
