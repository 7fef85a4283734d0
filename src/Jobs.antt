-- ===== src/Jobs.antt =====
-- The service's HTTP requests: PriorityJobQueues.h and the jobs of synergy/service/CloudClient.cpp.
pub mod Queues
pub mod Client
pub mod Weight
pub mod Requests
pub mod Handlers
pub mod History
pub mod Promises
mod Examples
