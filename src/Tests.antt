-- ===== src/Tests.antt =====
-- The theorems at concrete inputs.
mod Files
mod Barriers
mod Cluster
mod Storage
mod Blocks
mod Delivery
mod Links
mod Writes
mod Paths
mod Fetches
mod Snapshots
mod Deferrals
mod Sections
mod Admins
