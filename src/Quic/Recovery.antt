-- ===== src/Quic/Recovery.antt =====
-- Loss recovery of include/boltapi/quic/loss.h: the NewReno congestion window, the RTT estimator
-- and the ring of sent packets.
pub mod Congestion
pub mod Window
pub mod Rtt
pub mod RttBounds
pub mod Sent
