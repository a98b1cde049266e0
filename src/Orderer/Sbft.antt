-- ===== src/Orderer/Sbft.antt =====
-- orderer/sbft/simplebft: the replicas that agree on the batches although some of them are faulty.
pub mod Messages
pub mod Merkle
pub mod System
pub mod Xset
pub mod State
pub mod Phases
pub mod Checkpoints
pub mod Backlog
pub mod Views
pub mod Changes
pub mod Connection
pub mod Replica
pub mod Frame
pub mod Backlogs
pub mod Certificates
pub mod Selection
pub mod Roots
pub mod Quorums
pub mod Delivery
pub mod Crashes
mod Samples
