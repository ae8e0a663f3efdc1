-- ===== src/UserMap.antt =====
-- user_map.cpp: positions, visits and the numbering of users. One module for each group of
-- functions; the proofs are in the modules below those.
pub mod Key
pub mod MacAddress
pub mod Identity
pub mod Visits
pub mod Position
pub mod Listing
pub mod Tags
pub mod Start
