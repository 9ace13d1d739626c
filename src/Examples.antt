-- ===== src/Examples.antt =====
-- Tests, and the theorems at concrete inputs: one module for each component.
mod Fixtures
mod Nas
mod Pending
mod Partition
mod Rt
mod Server
mod Nodes
mod History
mod Client
mod Controller
mod Mutex
mod Locking
mod Cgroup
mod Programs
mod Routes
mod Lifecycle
mod Plugin
