-- ===== src/Containers.antt =====
-- src/containers: the data structures that the brokers and the backends share.
pub mod LinkedList
pub mod Fifo
pub mod PromiseQueue
pub mod PromiseMap
pub mod ResourcePool
