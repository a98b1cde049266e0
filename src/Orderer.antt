-- ===== src/Orderer.antt =====
-- The ordering service: orderer/.
pub mod Filter
pub mod BlockCutter
pub mod Solo
pub mod Cauthdsl
pub mod ConfigTx
pub mod Policies
pub mod Sbft
pub mod RamLedger
pub mod ConfigFilter
mod Samples
