-- ===== src/Ledger.antt =====
-- The peer's key-value ledger: core/ledger/kvledger.
pub mod Wire
pub mod OrderedNumbers
pub mod RwSet
pub mod Database
pub mod CompositeKey
pub mod StoredValue
pub mod World
pub mod TxMgr
pub mod Simulator
mod Samples
