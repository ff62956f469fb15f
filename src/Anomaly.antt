-- ===== src/Anomaly.antt =====
-- internal/anomaly: the detectors that look at each flushed minute of flows. Every detector keeps
-- its own part of the engine's state, under its own lock; the children model one file each.
pub mod Controls
pub mod Window
pub mod Beaconing
pub mod Devices
pub mod InternalPeer
pub mod Profile
pub mod Nighttime
pub mod Metrics
pub mod Alerts
pub mod Fanout
pub mod Signature
pub mod History
pub mod Engine
