-- ===== src/Ota.antt =====
-- The upgrade over the air, user/ota.c, as components: Http has the header of an answer, Url the address, State
-- the variables, and the other modules the handlers. The modules below them prove.
pub mod Http
pub mod State
pub mod Retry
pub mod Connect
pub mod Body
pub mod Receive
pub mod Complete
pub mod Url
pub mod Start
pub mod Run
pub mod Image
pub mod Rehash
pub mod Safe
pub mod Written
pub mod Accepted
pub mod Staged
pub mod Upgrade
pub mod Progress
pub mod Arrival
pub mod Liveness
pub mod Numbers
pub mod Fields
pub mod Address
mod Tests
