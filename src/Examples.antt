-- ===== src/Examples.antt =====
-- The theorems at work on small concrete inputs.
mod Data
mod Cluster
mod Stores
mod Pools
mod Placements
mod Routing
mod Nodes
mod Deploys
mod Reports
mod Configs
mod Mesh
