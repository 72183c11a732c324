-- ===== src/Blockchain.antt =====
-- lib/blockchain: blocks, the coins that they make and spend, and the chain that they stand in.
pub mod Block
pub mod Records
pub mod Index
pub mod Sanity
pub mod Body
pub mod ChainDb
pub mod Inputs
pub mod Utxo
pub mod CheckInputs
pub mod Verify
pub mod Store
pub mod Chain
pub mod MedianTime
pub mod Locks
pub mod Deployments
pub mod Orphans
pub mod Context
mod Tests
mod VerifyTests
mod ContextTests
mod ChainExample
mod ChainTests
mod DeploymentTests
mod OrphanTests
