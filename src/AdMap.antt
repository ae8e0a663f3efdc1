-- ===== src/AdMap.antt =====
-- ad_map.cpp: the choice of the advertisements to show. One module for each group of functions; the
-- proofs are in the modules below those.
pub mod Key
pub mod Sets
pub mod Start
pub mod Filters
pub mod Ecpm
pub mod Slots
pub mod Charge
pub mod Bidding
