-- ===== src/Blockchain.antt =====
-- blockchain/: the consensus rules and the transaction pool.
pub mod Compact
pub mod Retarget
pub mod TxReference
pub mod TxPool
pub mod MedianTime
pub mod TxValidator
pub mod BlockValidator
pub mod Fees
pub mod Orphans
pub mod Reorganize
pub mod Unspent
pub mod Fixtures
