-- ===== src/Lib.antt =====
-- Elastos.ELA.SideChain: a verification library for the node's consensus rules, its transaction
-- pool and its bloom filters.
--
-- The node takes transactions and blocks from its peers. A transaction is checked and put into the
-- pool (blockchain/txpool.go), which reserves the outputs that it spends; a block is checked for
-- its proof of work, its difficulty and its transactions (blockchain/blockvalidator.go,
-- blockchain/difficulty.go), and these are taken out of the pool. The checks of a transaction by
-- itself and against the store are those of blockchain/txvalidator.go; the fees are those of
-- blockchain/txpool.go. A block whose previous one is missing waits as an orphan, one of a side
-- chain may make the node reorganize its best chain (blockchain/blockchain.go), and the store
-- keeps an index of the unspent outputs (blockchain/chaindata.go). The offset of the local clock
-- is the median of what the peers' clocks show (blockchain/mediantime.go). Light clients load
-- bloom filters (bloom/).
--
-- The files:
--   Common and its children: the shared names, signed integers over the native numbers, laws of the
--     bit operations, a result type with Go's panics (Common/Result), Go maps (Common/Table).
--   Core: the transactions of core/ as far as the rules read them.
--   Blockchain/Compact: BigToCompact, CompactToBig and CalcWork of blockchain/difficulty.go and
--     blockchain/blockchain.go; Compact/Precision: how much the encoding keeps.
--   Blockchain/Retarget: CalcNextRequiredDifficulty, HashToBig and CheckProofOfWork; its children
--     prove what the window, the limit and the work are.
--   Blockchain/TxReference: GetTxReference of blockchain/chainstore.go.
--   Blockchain/TxPool: every method of blockchain/txpool.go that changes the pool; its children
--     prove the reservation invariant, the outcomes of an append and those of a cleaning.
--   Blockchain/Fees: GetTxFeeMap and GetTxFee of blockchain/txpool.go and CheckTransactionBalance of
--     blockchain/txvalidator.go; Fees/Sums: what the int64 sums by asset are; Fees/Conservation: what
--     a balance guarantees.
--   Blockchain/TxValidator: blockchain/txvalidator.go, over the int64 sums of Fixed64. Inputs:
--     CheckTransactionInput. CrossChain: CheckTransferCrossChainAssetTransaction. Outputs:
--     CheckTransactionOutput, CheckOutputProgramHash and CheckAttributeProgram. Precision:
--     CheckAssetPrecision, CheckTransactionPayload and checkAmountPrecise. Recharge:
--     CheckRechargeToSideChainTransaction. Ledger: CheckTransactionUTXOLock, CheckTransactionSize,
--     IsDoubleSpend and IsTxHashDuplicate of blockchain/chainstore.go, and CheckTransactionSanity and
--     CheckTransactionContext, which put the checks together. A child Sound, Panics, Locks,
--     Spendable or Context proves what it means to pass, or when a check panics; Fixed64/Sums: what a loop of int64 sums
--     gives; Recharge/Dues: what a recharge is to pay.
--   Blockchain/BlockValidator: PowCheckBlockSanity, PowCheckBlockContext and IsFinalizedTransaction of
--     blockchain/blockvalidator.go and CalcPastMedianTime of blockchain/blockchain.go; its children
--     Order, Sanity and Context prove what a block is that passes.
--   Blockchain/Unspent: PersistUnspend, RollbackUnspend, GetUint16Array and ToByteArray of
--     blockchain/chaindata.go. Unspent/Bytes: the bytes of the index; Counts: how often an index stands
--     in a value; Created and Loaded: the steps of the loops; Persist: the effect of a block; Restore,
--     Rollback and Total: taking a block back.
--   Blockchain/Orphans: AddOrphanBlock, RemoveOrphanBlock, IsKnownOrphan, GetOrphanRoot and
--     ProcessOrphans of blockchain/blockchain.go. Orphans/Remove and Listed: the steps; Consistent and
--     Add: the agreement of the two maps; Bound: the number of orphans; Process and Root: the loops end.
--   Blockchain/Reorganize: GetReorganizeNodes, ReorganizeChain, DisconnectBlock and ConnectBlock of
--     blockchain/blockchain.go. Reorganize/Nodes: the two sides of a fork; Chain: the best chain after it.
--   Blockchain/Fixtures: concrete transactions, a store and rules for the tests.
--   Blockchain/MedianTime: AddTimeSample of blockchain/mediantime.go; MedianTime/Sorting: what the
--     sorting of the offsets keeps; MedianTime/Samples: what a sample does to the clock.
--   Bloom/Murmur: MurmurHash3 of bloom/murmurhash3.go. Bloom/Filter: matches, add and
--     matchTxAndUpdate of bloom/filter.go; Filter/Bits, Filter/Sound and Sound/Transaction: what
--     they do to the bits and to each other.
--
-- How the code is read: a big.Int is an integer without bound; a uint32 is a native number with
-- its wrap-around written out; a Go map is a table with each key once, and where the code ranges
-- over a map the model goes over its entries in one order. Locks are left out: each method is one
-- step. Logging is left out. Hashes, and `Input.ReferKey`, which is one, come from a library that
-- is not part of the repository: a transaction's hash is a field and `refer_key` a parameter, as
-- are the bytes of hashes and outpoints, the hash of an address and the address of a hash, the
-- root of the hashes of a block and the decoding of a main chain transaction. A product with a
-- float is a parameter too. A run-time panic is a result of its own. The count of bytes of a
-- number is a loop whose fuel is the number itself; `ProcessOrphans` has fuel for the orphans that
-- wait, and `GetOrphanRoot` for the height of its block. `maybeAcceptBlock`, for the orphans, and
-- the operations of the store, for a reorganization, are parameters.
--
-- Not modelled: NewFilter, which sizes a filter by floating point logarithms, the servers, the
-- network protocol, the rest of the store, the script machine, serialization, and logging.
pub mod Common
pub mod Core
pub mod Blockchain
pub mod Bloom
