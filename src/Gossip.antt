-- ===== src/Gossip.antt =====
-- gossip/: what peers pass on to each other. So far the payloads of the state transfer.
pub mod PayloadsBuffer
pub mod Delivery
mod Samples
