-- ===== src/Tests.antt =====
-- The theorems at concrete addresses and networks.
mod Addresses
mod Networks
mod Ranges
mod Pools
mod Upstreams
mod Options
mod Hooks
mod Guard
mod Live
