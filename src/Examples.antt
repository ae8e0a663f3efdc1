-- ===== src/Examples.antt =====
-- Concrete runs.
pub mod Memory
mod Identity
mod Positions
mod Ads
mod Groups
mod Texts
pub mod Commands
mod Senders
mod Receivers
pub mod Services
mod Members
mod SharedAds
mod Entries
mod Pages
mod Admin
mod Startup
