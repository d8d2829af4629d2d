-- ===== src/Broker.antt =====
-- src/oneopen_broker/broker: the runtime that puts the components together, the commands of the
-- handler, and what the server does with connections and frames.
pub mod State
pub mod Pump
pub mod Pumping
pub mod Consistent
pub mod Replies
pub mod Queues
pub mod Deliveries
pub mod Channels
pub mod Access
pub mod Handle
pub mod Names
pub mod Roles
pub mod Outsider
pub mod Server
pub mod Departure
pub mod Steps
pub mod Examples
