-- ===== src/Oplog.antt =====
-- extensions/oplogPopulator: the buckets whose change events are read, and the Kafka Connect
-- connectors that read them.
pub mod Connector
pub mod Updates
pub mod Allocator
pub mod LeastFull
pub mod Assignment
pub mod Balance
pub mod Populator
pub mod Follows
pub mod Manager
pub mod Rounds
pub mod Start
pub mod StartTests
pub mod Total
pub mod Setup
pub mod Tests
