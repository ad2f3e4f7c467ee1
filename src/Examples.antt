-- ===== src/Examples.antt =====
-- The theorems applied to concrete data.
mod Flush
mod Index
mod Keys
mod Query
mod Server
mod Scan
mod Chain
mod Serving
mod Version
mod NextBlock
