-- ===== src/TxPool.antt =====
-- The transaction pool (txpool/default.go), one module for each part.
pub mod SortedTxs
pub mod Pool
pub mod View
pub mod Promote
pub mod NewTx
pub mod Queue
pub mod Invariant
pub mod Pop
pub mod Taken
pub mod Clean
pub mod Price
pub mod Count
