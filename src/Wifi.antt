-- ===== src/Wifi.antt =====
-- modules/wifi.c as components: State has its variables and what the SDK answers, Network the choice of the network,
-- Scan the scanner, Trial the test of a network,
-- Station the events of the station, Setup what other files call, Run their runs.
pub mod State
pub mod Network
pub mod Scan
pub mod Trial
pub mod Station
pub mod Setup
pub mod Run
pub mod Scanning
pub mod Events
pub mod Scanner
pub mod Joined
pub mod Fallback
mod Tests
